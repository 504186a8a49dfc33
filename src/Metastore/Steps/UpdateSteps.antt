-- ===== src/Metastore/Steps/UpdateSteps.antt =====
-- The states that `update_table` can leave (crates/catalog-metastore/src/metastore.rs).
use rustice.Prelude.{
  ◌≡◌, ◌∙◌, some, text_eq, pair_eq, triple_eq, ◌⊎◌, inl, inr, arith, Text, Option-cases,
}
use rustice.Prelude.HashMap.{get}
use rustice.Metastore.Error.{Result-cases, Outcome-cases, ok, done}
use rustice.Metastore.External.{External, World}
use rustice.Metastore.Models.{TableIdent, RwObject}
use rustice.Metastore.Requirements.{TableUpdate}
use rustice.Metastore.State.{Metastore, Table, put_table, record_write, table_key}
use rustice.Metastore.Tables.{put_metadata, metadata_path, table_object_store}
use rustice.Metastore.Updates.{committed, commit_metadata, commit_table, update_table}
use rustice.Metastore.Steps.TableSteps.{Prepared, wrote, table_object_store-Prepared}

module _ {x : External} (s : Metastore x) where
  commit_table_state :
      (w : World x) (ident : TableIdent) (update : TableUpdate x) (store : x.ObjectStore)
      → ((commit_table w ident update store s).1 ≡ s)
        ⊎ ((row : RwObject (Table x)) × (metadata : x.TableMetadata) × (bytes : Text) × (get
                (table_key ident)
                s.tables
              ≡ some row)
            × (commit_metadata w update row ≡ ok metadata)
            × (w.to_vec metadata ≡ done bytes)
            × ((commit_table w ident update store s).1
                ≡ put_table
                    (table_key ident)
                    (committed w metadata (metadata_path w ident) row)
                    (record_write store (metadata_path w ident) bytes s)))
  unfolding commit_table put_metadata
  commit_table_state w ident update store = elim (Option-cases (get (table_key ident) s.tables)) [
    | inl missing ↦ ground (arith, missing)
    | inr (row, found) ↦ elim (Result-cases (commit_metadata w update row)) [
      | inl (metadata, made) ↦ elim (Outcome-cases (w.to_vec metadata)) [
        | inl (bytes, encoded) ↦ elim (Outcome-cases (w.put store (metadata_path w ident) bytes)) [
          | inl (u, sent) ↦ inr (
            row,
            metadata,
            bytes,
            found,
            made,
            encoded,
            ground (arith, found, made, encoded, sent),
          )
          | inr e ↦ inl (ground (arith, found, made, encoded, e))
        ]
        | inr e ↦ inl (ground (arith, found, made, e))
      ]
      | inr e ↦ inl (ground (arith, found, e))
    ]
  ]

  update_table_state :
      (w : World x) (ident : TableIdent) (update : TableUpdate x)
      → ((update_table w ident update s).1 ≡ (table_object_store w ident s).1)
        ⊎ ((store : x.ObjectStore) × ((update_table w ident update s).1
              ≡ (commit_table w ident update store (table_object_store w ident s).1).1))
  unfolding update_table
  update_table_state w ident update = elim (Result-cases (table_object_store w ident s).0) [
    | inl (found, asked) ↦ elim (Option-cases found) [
      | inl missing ↦ ground (arith, asked, missing)
      | inr (store, there) ↦ inr (store, ground (arith, asked, there))
    ]
    | inr e ↦ ground (arith, e)
  ]

module _ {x : External} (s : Metastore x) where
  -- How `update_table` ends: prepared only, or with a new row for a table that was there.
  pub update_table_cases :
      (w : World x) (ident : TableIdent) (update : TableUpdate x)
      → Prepared s (update_table w ident update s).1
        ⊎ ((t : Metastore x) × (old new : RwObject (Table x)) × Prepared s t
            × (get (table_key ident) t.tables ≡ some old)
            × ((update_table w ident update s).1 ≡ put_table (table_key ident) new t))
  update_table_cases w ident update =
      let asked = table_object_store-Prepared s w ident in
      elim (update_table_state s w ident update) [
        | inl e ↦ inl (rw e asked)
        | inr (store, e) ↦ elim (commit_table_state _ w ident update store) [
          | inl f ↦ inl (rw (e ∙ f) asked)
          | inr (row, metadata, bytes, found, made, encoded, f) ↦ inr (
            _,
            row,
            _,
            wrote store (metadata_path w ident) bytes asked,
            unfold record_write in found,
            e ∙ f,
          )
        ]
      ]
