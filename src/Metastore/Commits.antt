-- ===== src/Metastore/Commits.antt =====
-- What `update_table` (crates/catalog-metastore/src/metastore.rs) commits, and when it refuses.
use rustice.Prelude.{
  ◌≡◌, ◌∷◌, text_eq, pair_eq, triple_eq, Text, some, arith, beq_refl, inl, inr, Option-cases, ap,
  ◌∙◌, sym, subst,
}
use rustice.Prelude.HashMap.{get, get-insert}
use rustice.Metastore.Error.{Result-cases, Outcome-cases, ok, done}
use rustice.Metastore.External.{External, World}
use rustice.Metastore.Models.{RwObject, TableIdent}
use rustice.Metastore.Requirements.{TableUpdate, assert_all}
use rustice.Metastore.State.{Metastore, Table, put_table, put_store, table_key, record_write}
use rustice.Metastore.Steps.TableSteps.{table_object_store_state}
use rustice.Metastore.Tables.{metadata_path, put_metadata, table_object_store}
use rustice.Metastore.Updates.{committed, commit_metadata, commit_table, update_table}

-- `new` is the commit of an update to `old`, and its file has been written.
pub record Committed {x : External} (w : World x) (ident : TableIdent) (update : TableUpdate x)
    (old new : RwObject (Table x)) (s t : Metastore x) : Type 0 where
  pub before : get (table_key ident) s.tables ≡ some old
  pub requirements : assert_all x update.requirements old.value.metadata ≡ ok tt
  pub metadata : commit_metadata w update old ≡ ok new.value.metadata
  pub row : new ≡ committed w new.value.metadata (metadata_path w ident) old
  pub after : get (table_key ident) t.tables ≡ some new
  pub file :
      (store : x.ObjectStore) × (bytes : Text) × (w.to_vec new.value.metadata ≡ done bytes)
      × (t.written ≡ (store, metadata_path w ident, bytes) ∷ s.written)

module _ {x : External} (w : World x) (ident : TableIdent) (update : TableUpdate x) where
  requirements_hold :
      (row : RwObject (Table x)) (metadata : x.TableMetadata)
      → commit_metadata w update row ≡ ok metadata
      → assert_all x update.requirements row.value.metadata ≡ ok tt
  unfolding commit_metadata
  requirements_hold row metadata e =
      elim (Result-cases (assert_all x update.requirements row.value.metadata)) [
        | inl (u, holds) ↦ holds
        | inr fails ↦ absurd (ground (arith, fails, e))
      ]

  keeps_tables :
      (s : Metastore x)
      → ((table_object_store w ident s).1.tables ≡ s.tables)
        × ((table_object_store w ident s).1.written ≡ s.written)
  unfolding put_store
  keeps_tables s = elim (table_object_store_state s w ident) [
    | inl e ↦ (ap (λ t. t.tables) e, ap (λ t. t.written) e)
    | inr (name, row, store, found, e) ↦ (ap (λ t. t.tables) e, ap (λ t. t.written) e)
  ]

  commit_table-Committed :
      (s : Metastore x) (store : x.ObjectStore) (old new : RwObject (Table x))
      (metadata : x.TableMetadata) (bytes : Text)
      → get (table_key ident) s.tables ≡ some old
      → commit_metadata w update old ≡ ok metadata
      → w.to_vec metadata ≡ done bytes
      → (commit_table w ident update store s).0 ≡ ok new
      → Committed w ident update old new s (commit_table w ident update store s).1
  unfolding commit_table put_metadata committed put_table record_write
  commit_table-Committed s store old new metadata bytes found made encoded e =
      elim (Outcome-cases (w.put store (metadata_path w ident) bytes)) [
        | inl (u, sent) ↦ record {
          before = found;
          requirements = requirements_hold old metadata made;
          metadata = ground (arith, found, made, encoded, sent);
          row = ground (arith, found, made, encoded, sent);
          after = ground (
            arith,
            found,
            made,
            encoded,
            sent,
            get-insert (table_key ident) (table_key ident) new s.tables,
            beq_refl (table_key ident),
          );
          file = (
            store,
            bytes,
            ground (arith, found, made, encoded, sent),
            ground (arith, found, made, encoded, sent),
          );
        }
        | inr no_put ↦ absurd (ground (arith, found, made, encoded, no_put))
      ]

  commit_table-ok :
      (s : Metastore x) (store : x.ObjectStore) (new : RwObject (Table x))
      → (commit_table w ident update store s).0 ≡ ok new
      → (old : RwObject (Table x)) × Committed w ident update old new s
          (commit_table w ident update store s).1
  unfolding commit_table put_metadata
  commit_table-ok s store new e = elim (Option-cases (get (table_key ident) s.tables)) [
    | inl gone ↦ absurd (ground (arith, gone))
    | inr (old, found) ↦ elim (Result-cases (commit_metadata w update old)) [
      | inl (metadata, made) ↦ elim (Outcome-cases (w.to_vec metadata)) [
        | inl (bytes, encoded) ↦
            (old, commit_table-Committed s store old new metadata bytes found made encoded e)
        | inr no_bytes ↦ absurd (ground (arith, found, made, no_bytes))
      ]
      | inr no_metadata ↦ absurd (ground (arith, found, no_metadata))
    ]
  ]

  Committed-start :
      {s t u : Metastore x} (old new : RwObject (Table x))
      → u.tables ≡ s.tables
      → u.written ≡ s.written
      → Committed w ident update old new u t
      → Committed w ident update old new s t
  Committed-start old new tables written h = record {
    before = ap (get (table_key ident)) (sym tables) ∙ h.before;
    requirements = h.requirements;
    metadata = h.metadata;
    row = h.row;
    after = h.after;
    file = (
      h.file.0,
      h.file.1,
      h.file.2,
      h.file.3 ∙ ap (λ l. (h.file.0, metadata_path w ident, h.file.1) ∷ l) written,
    );
  }

  update_table-eq :
      (s : Metastore x) (new : RwObject (Table x))
      → (update_table w ident update s).0 ≡ ok new
      → (store : x.ObjectStore) × (update_table w ident update s
          ≡ commit_table w ident update store (table_object_store w ident s).1)
  unfolding update_table
  update_table-eq s new e = elim (Result-cases (table_object_store w ident s).0) [
    | inl (found, asked) ↦ elim (Option-cases found) [
      | inl missing ↦ absurd (ground (arith, asked, missing))
      | inr (store, there) ↦ (store, ground (arith, asked, there))
    ]
    | inr fails ↦ absurd (ground (arith, fails))
  ]

  -- When `update_table` answers ok with a row, the table was there, all requirements of the update
  -- hold of its old metadata, and the row is the old one with the updated metadata, the path of the
  -- new file and the time; the row stands under the table's key, and that file, with the encoding of
  -- the new metadata, has been put into an object store, as the only one.
  pub update_table-Committed :
      (s : Metastore x) (new : RwObject (Table x))
      → (update_table w ident update s).0 ≡ ok new
      → (old : RwObject (Table x)) × Committed w ident update old new s
          (update_table w ident update s).1
  update_table-Committed s new e =
      let (store, same) = update_table-eq s new e in
      let keeps = keeps_tables s in
      let (old, h) = commit_table-ok _ store new (ap (λ r. r.0) (sym same) ∙ e) in
      (
        old,
        subst (λ r. Committed w ident update old new s r.1) (sym same)
            (Committed-start old new keeps.0 keeps.1 h),
      )
