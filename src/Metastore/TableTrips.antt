-- ===== src/Metastore/TableTrips.antt =====
-- What `create_table` leaves behind when it answers ok
-- (crates/catalog-metastore/src/metastore.rs).
use rustice.Prelude.{
  ◌≡◌, ◌≢◌, ◌⊎◌, ◌∷◌, text_eq, pair_eq, triple_eq, Text, some, ◌==◌, arith, beq_refl, inl, inr,
  false, ap, ◌∙◌, sym, subst,
}
use rustice.Prelude.HashMap.{get, get-insert}
use rustice.Metastore.Error.{Error, Result-cases, Outcome-cases, ok, err, blocked, done}
use rustice.Metastore.External.{External, World}
use rustice.Metastore.Models.{RwObject, VolumeIdent, TableIdent}
use rustice.Metastore.Requirements.{TableCreateRequest}
use rustice.Metastore.State.{Metastore, Table, put_table, put_store, table_key, record_write}
use rustice.Metastore.Steps.TableSteps.{store_from_request_state}
use rustice.Metastore.Tables.{
  metadata_path, put_metadata, table_object_store_from_request, stored_table, location_of_request,
  volume_of_request, request_metadata, write_table, store_table, create_table,
}

-- The table is there under its key, its row names the file that was written last, and the other
-- tables are as they were.
pub record Written {x : External} (w : World x) (ident : TableIdent) (row : RwObject (Table x))
    (s t : Metastore x) : Type 0 where
  pub there : get (table_key ident) t.tables ≡ some row
  pub location : row.value.metadata_location ≡ metadata_path w ident
  pub file :
      (store : x.ObjectStore) × (bytes : Text) × (w.to_vec row.value.metadata ≡ done bytes)
      × (t.written ≡ (store, metadata_path w ident, bytes) ∷ s.written)
  pub others :
      (key : Text × Text × Text)
      → (table_key ident == key) ≡ false
      → get key t.tables ≡ get key s.tables

-- It is all the same where the start had the same tables and files.
Written-start :
    {x : External} {s u t : Metastore x} (w : World x) (ident : TableIdent)
    (row : RwObject (Table x))
    → u.tables ≡ s.tables
    → u.written ≡ s.written
    → Written w ident row u t
    → Written w ident row s t
Written-start w ident row tables written h = record {
  there = h.there;
  location = h.location;
  file = (
    h.file.0,
    h.file.1,
    h.file.2,
    h.file.3 ∙ ap (λ l. (h.file.0, metadata_path w ident, h.file.1) ∷ l) written,
  );
  others = λ key other. h.others key other ∙ ap (get key) tables;
}

module _ {x : External} (w : World x) (ident : TableIdent) (request : TableCreateRequest) where
  write_table-Written :
      (s : Metastore x) (volume : VolumeIdent) (metadata : x.TableMetadata) (store : x.ObjectStore)
      (row : RwObject (Table x))
      → (write_table w ident request volume metadata store s).0 ≡ ok row
      → Written w ident row s (write_table w ident request volume metadata store s).1
  unfolding write_table put_metadata put_table record_write stored_table
  write_table-Written s volume metadata store row e = elim (Outcome-cases (w.to_vec metadata)) [
    | inl (bytes, encoded) ↦ elim (Outcome-cases (w.put store (metadata_path w ident) bytes)) [
      | inl (u, sent) ↦ record {
        there = ground (
          arith,
          encoded,
          sent,
          get-insert (table_key ident) (table_key ident) row s.tables,
          beq_refl (table_key ident),
        );
        location = ground (arith, encoded, sent);
        file = (store, bytes, ground (arith, encoded, sent), ground (arith, encoded, sent));
        others = λ key other.
            ground (arith, encoded, sent, get-insert (table_key ident) key row s.tables);
      }
      | inr no_put ↦ absurd (ground (arith, encoded, no_put))
    ]
    | inr no_bytes ↦ absurd (ground (arith, no_bytes))
  ]

  -- The object store is found with no change to the tables and the files.
  store_from_request-keeps :
      (s : Metastore x) (volume : VolumeIdent)
      → ((table_object_store_from_request w ident (some volume) s).1.tables ≡ s.tables)
        × ((table_object_store_from_request w ident (some volume) s).1.written ≡ s.written)
  unfolding put_store
  store_from_request-keeps s volume = elim (store_from_request_state s w ident volume) [
    | inl e ↦ (rw e, rw e)
    | inr (row, store, found, made, e) ↦ (rw e, rw e)
  ]

  store_table-Written :
      (s : Metastore x) (volume : VolumeIdent) (metadata : x.TableMetadata)
      (row : RwObject (Table x))
      → (store_table w ident request volume metadata s).0 ≡ ok row
      → Written w ident row s (store_table w ident request volume metadata s).1
  unfolding store_table
  store_table-Written s volume metadata row e =
      elim (Result-cases (table_object_store_from_request w ident (some volume) s).0) [
        | inl (store, got) ↦
            let kept = store_from_request-keeps s volume in
            let t = (table_object_store_from_request w ident (some volume) s).1 in
            let done_there =
              write_table-Written t volume metadata store row (ground (arith, got, e)) in
            subst (λ u. Written w ident row s u) (ground (arith, got))
              (Written-start w ident row kept.0 kept.1 done_there)
        | inr no_store ↦ absurd (ground (arith, no_store, e))
      ]

  create_table-eq :
      (s : Metastore x) (volume : VolumeIdent) (metadata : x.TableMetadata)
      (row : RwObject (Table x))
      → volume_of_request ident request.volume_ident s ≡ ok volume
      → request_metadata w request (location_of_request ident request.location) ≡ ok metadata
      → (create_table w ident request s).0 ≡ ok row
      → create_table w ident request s ≡ store_table w ident request volume metadata s
  unfolding create_table
  create_table-eq s volume metadata row chosen built e = ground (arith, chosen, built, e)

  needs_volume :
      (s : Metastore x) (row : RwObject (Table x))
      → ((e : Error) × (volume_of_request ident request.volume_ident s ≡ err e))
        ⊎ (volume_of_request ident request.volume_ident s ≡ blocked)
      → (create_table w ident request s).0 ≢ ok row
  unfolding create_table
  needs_volume s row h e = ground (arith, h, e)

  needs_metadata :
      (s : Metastore x) (row : RwObject (Table x)) (volume : VolumeIdent)
      → volume_of_request ident request.volume_ident s ≡ ok volume
      → ((e : Error) × (request_metadata w request (location_of_request ident request.location)
            ≡ err e))
        ⊎ (request_metadata w request (location_of_request ident request.location) ≡ blocked)
      → (create_table w ident request s).0 ≢ ok row
  unfolding create_table
  needs_metadata s row volume chosen h e = ground (arith, chosen, h, e)

  -- When `create_table` answers ok with a row, the row stands under the table's key and every other
  -- table is as it was; the row names a file, and that file, with the encoding of the row's metadata,
  -- has been put into an object store, as the only one.
  pub create_table-Written :
      (s : Metastore x) (row : RwObject (Table x))
      → (create_table w ident request s).0 ≡ ok row
      → Written w ident row s (create_table w ident request s).1
  create_table-Written s row e =
      elim (Result-cases (volume_of_request ident request.volume_ident s)) [
        | inl (volume, chosen) ↦
            elim (Result-cases
              (request_metadata w request (location_of_request ident request.location))) [
                | inl (metadata, built) ↦
                    let same = create_table-eq s volume metadata row chosen built e in
                    subst (λ r. r.0 ≡ ok row → Written w ident row s r.1) (sym same)
                      (store_table-Written s volume metadata row) e
                | inr no_metadata ↦ absurd (needs_metadata s row volume chosen no_metadata e)
              ]
        | inr no_volume ↦ absurd (needs_volume s row no_volume e)
      ]
