-- ===== src/Metastore/Steps/TableSteps.antt =====
-- The states that the table methods can leave. On the way to their write of a row they may fill the
-- cache of object stores and put a metadata file.
use rustice.Prelude.{
  Bool, true, false, ◌≡◌, ◌∙◌, some, text_eq, pair_eq, triple_eq, ◌⊎◌, inl, inr, arith, Text,
  Option-cases,
}
use rustice.Prelude.HashMap.{get, contains_key}
use rustice.Metastore.Error.{Result-cases, ok, done}
use rustice.Metastore.External.{External, World}
use rustice.Metastore.Models.{TableIdent, VolumeIdent, schema_ident, RwObject, new_row}
use rustice.Metastore.Volume.{Volume, get_object_store}
use rustice.Metastore.Requirements.{TableCreateRequest}
use rustice.Metastore.State.{
  Metastore, Table, put_table, put_store, record_write, schema_key, table_key,
}
use rustice.Metastore.Volumes.{volume_object_store}
use rustice.Metastore.Steps.VolumeSteps.{volume_object_store_state}
use rustice.Metastore.Tables.{
  put_metadata, metadata_path, table_object_store_from_request, volume_of_request,
  location_of_request, stored_table, request_metadata, write_table, store_table, create_table,
  volume_of_table, volume_for_table, table_object_store,
}

-- `t` is `s` with object stores cached for known volumes and with files written.
pub data Prepared {x : External} (s : Metastore x) : Metastore x → Type 0 where
  start : Prepared s s
  cached :
      {t : Metastore x} (name : VolumeIdent) (row : RwObject (Volume x)) (store : x.ObjectStore)
      → Prepared s t
      → get name t.volumes ≡ some row
      → Prepared s (put_store name store t)
  wrote :
      {t : Metastore x} (store : x.ObjectStore) (path bytes : Text)
      → Prepared s t
      → Prepared s (record_write store path bytes t)

module _ {x : External} (s : Metastore x) where
  write_table_state :
      (w : World x) (ident : TableIdent) (request : TableCreateRequest) (volume : VolumeIdent)
      (metadata : x.TableMetadata) (store : x.ObjectStore)
      → ((write_table w ident request volume metadata store s).1 ≡ s)
        ⊎ ((bytes : Text) × (w.to_vec metadata ≡ done bytes)
            × ((write_table w ident request volume metadata store s).1
                ≡ put_table
                    (table_key ident)
                    (new_row w.now (
                      stored_table w ident request volume
                        (location_of_request ident request.location)
                        metadata
                        (metadata_path w ident)))
                    (record_write store (metadata_path w ident) bytes s)))
  unfolding write_table put_metadata
  write_table_state w ident request volume metadata store = ground arith

  store_table_state :
      (w : World x) (ident : TableIdent) (request : TableCreateRequest) (volume : VolumeIdent)
      (metadata : x.TableMetadata)
      → ((store_table w ident request volume metadata s).1
          ≡ (table_object_store_from_request w ident (some volume) s).1)
        ⊎ ((store : x.ObjectStore) × ((table_object_store_from_request w ident (some volume) s).0
              ≡ ok store)
            × ((store_table w ident request volume metadata s).1
                ≡ (write_table w ident request volume metadata store
                    (table_object_store_from_request w ident (some volume) s).1).1))
  unfolding store_table
  store_table_state w ident request volume metadata = ground arith

  pub store_from_request_state :
      (w : World x) (ident : TableIdent) (name : VolumeIdent)
      → ((table_object_store_from_request w ident (some name) s).1 ≡ s)
        ⊎ ((row : RwObject (Volume x)) × (store : x.ObjectStore) × (get name s.volumes ≡ some row)
            × (get_object_store w row.value ≡ ok store)
            × ((table_object_store_from_request w ident (some name) s).1 ≡ put_store name store s))
  unfolding table_object_store_from_request
  store_from_request_state w ident name = ground (arith, volume_object_store_state s w true name)

  create_table_state :
      (w : World x) (ident : TableIdent) (request : TableCreateRequest)
      → ((create_table w ident request s).1 ≡ s)
        ⊎ ((volume : VolumeIdent) × (metadata : x.TableMetadata) × (volume_of_request ident
                request.volume_ident s
              ≡ ok volume)
            × (request_metadata w request (location_of_request ident request.location)
                ≡ ok metadata)
            × (contains_key (schema_key (schema_ident ident)) s.schemas ≡ true)
            × ((create_table w ident request s).1
                ≡ (store_table w ident request volume metadata s).1))
  unfolding create_table
  create_table_state w ident request =
      elim (Result-cases (volume_of_request ident request.volume_ident s)) [
        | inl (volume, chosen) ↦
            elim (Result-cases
              (request_metadata w request (location_of_request ident request.location))) [
                | inl (metadata, built) ↦ ground (arith, chosen, built)
                | inr e ↦ ground (arith, chosen, e)
              ]
        | inr e ↦ ground (arith, e)
      ]

  pub table_object_store_state :
      (w : World x) (ident : TableIdent)
      → ((table_object_store w ident s).1 ≡ s)
        ⊎ ((name : VolumeIdent) × (row : RwObject (Volume x)) × (store : x.ObjectStore) × (get name
                s.volumes
              ≡ some row)
            × ((table_object_store w ident s).1 ≡ put_store name store s))
  unfolding table_object_store volume_for_table
  table_object_store_state w ident = elim (Option-cases (volume_of_table ident s)) [
    | inl missing ↦ ground (arith, missing)
    | inr (row, found) ↦ elim (volume_object_store_state s w false row.value.ident) [
      | inl e ↦ inl (ground (arith, found, e))
      | inr (entry, store, known, made, e) ↦
          inr (row.value.ident, entry, store, known, ground (arith, found, e))
    ]
  ]

module _ {x : External} (s : Metastore x) where
  store_from_request-Prepared :
      (w : World x) (ident : TableIdent) (name : VolumeIdent)
      → Prepared s (table_object_store_from_request w ident (some name) s).1
  store_from_request-Prepared w ident name = elim (store_from_request_state s w ident name) [
    | inl e ↦ rw e start
    | inr (row, store, found, made, e) ↦ rw e (cached name row store start found)
  ]

  pub table_object_store-Prepared :
      (w : World x) (ident : TableIdent) → Prepared s (table_object_store w ident s).1
  table_object_store-Prepared w ident = elim (table_object_store_state s w ident) [
    | inl e ↦ rw e start
    | inr (name, row, store, found, e) ↦ rw e (cached name row store start found)
  ]

  pub volume_object_store-Prepared :
      (w : World x) (locked : Bool) (name : VolumeIdent)
      → Prepared s (volume_object_store w locked name s).1
  volume_object_store-Prepared w locked name = elim (volume_object_store_state s w locked name) [
    | inl e ↦ rw e start
    | inr (row, store, found, made, e) ↦ rw e (cached name row store start found)
  ]

  -- How `create_table` ends: prepared only, or with a row written under the table's key.
  pub create_table_cases :
      (w : World x) (ident : TableIdent) (request : TableCreateRequest)
      → Prepared s (create_table w ident request s).1
        ⊎ ((t : Metastore x) × (row : RwObject (Table x)) × Prepared s t
            × (contains_key (schema_key (schema_ident ident)) s.schemas ≡ true)
            × ((create_table w ident request s).1 ≡ put_table (table_key ident) row t))
  create_table_cases w ident request = elim (create_table_state s w ident request) [
    | inl e ↦ inl (rw e start)
    | inr (volume, metadata, chosen, built, parent, e) ↦
        let asked = store_from_request-Prepared w ident volume in
        elim (store_table_state s w ident request volume metadata) [
          | inl f ↦ inl (rw (e ∙ f) asked)
          | inr (store, had, f) ↦ elim (write_table_state _ w ident request volume metadata store) [
            | inl g ↦ inl (rw (e ∙ f ∙ g) asked)
            | inr (bytes, encoded, g) ↦
                inr (_, _, wrote store (metadata_path w ident) bytes asked, parent, e ∙ f ∙ g)
          ]
        ]
  ]
