-- ===== src/Metastore/Cache.antt =====
-- The cache of object stores (crates/catalog-metastore/src/metastore.rs): every volume has a store
-- in it, so that no method asks for a volume under a lock that it holds itself.
use rustice.Prelude.{true, false, ◌≡◌, List, [], ◌∷◌, text_eq, inl, inr, arith, Text}
use rustice.Prelude.HashMap.{get, contains_key, get-insert, get-remove}
use rustice.Metastore.External.{External, World}
use rustice.Metastore.Models.{VolumeIdent, RwObject, Database, Schema, SchemaIdent}
use rustice.Metastore.Volume.{Volume}
use rustice.Metastore.State.{
  Metastore, Table, put_volume, put_store, put_database, put_schema, put_table, drop_table,
  record_write, new,
}
use rustice.Metastore.Volumes.{drop_volume, drop_databases}
use rustice.Metastore.Databases.{drop_database, drop_schema}
use rustice.Metastore.Tables.{register_table, delete_table}
use rustice.Metastore.Steps.VolumeSteps.{
  create_volume_state, update_volume_state, delete_volume_state,
}
use rustice.Metastore.Steps.DatabaseSteps.{
  create_database_state, update_database_state, delete_database_state, create_schema_state,
  update_schema_state, delete_schema_state,
}
use rustice.Metastore.Steps.TableSteps.{
  Prepared, start, cached, wrote, create_table_cases, table_object_store-Prepared,
  volume_object_store-Prepared,
}
use rustice.Metastore.Steps.UpdateSteps.{update_table_cases}
use rustice.Metastore.Calls.{Call, step, run}

pub record IsCached {x : External} (s : Metastore x) : Type 0 where
  pub stored :
      (v : VolumeIdent)
      → contains_key v s.volumes ≡ true
      → contains_key v s.object_store_cache ≡ true

module _ {x : External} {s : Metastore x} (h : IsCached s) where
  put_volume-IsCached :
      (name : VolumeIdent) (row : RwObject (Volume x)) (store : x.ObjectStore)
      → IsCached (put_volume name row store s)
  unfolding put_volume
  put_volume-IsCached name row store = record {
    stored = λ v. ground (
      arith,
      h.stored v,
      get-insert name v row s.volumes,
      get-insert name v store s.object_store_cache,
    );
  }

  put_store-IsCached :
      (name : VolumeIdent) (store : x.ObjectStore) → IsCached (put_store name store s)
  unfolding put_store
  put_store-IsCached name store = record {
    stored = λ v. ground (arith, h.stored v, get-insert name v store s.object_store_cache);
  }

  drop_volume-IsCached : (name : VolumeIdent) → IsCached (drop_volume name s)
  unfolding drop_volume
  drop_volume-IsCached name = record {
    stored = λ v.
        ground
          (arith, h.stored v, get-remove name v s.volumes, get-remove name v s.object_store_cache);
  }

  drop_databases-IsCached : (names : List Text) → IsCached (drop_databases names s)
  unfolding drop_databases
  drop_databases-IsCached names = record { stored = h.stored }

  put_database-IsCached :
      (name : Text) (row : RwObject Database) → IsCached (put_database name row s)
  unfolding put_database
  put_database-IsCached name row = record { stored = h.stored }

  drop_database-IsCached : (name : Text) → IsCached (drop_database name s)
  unfolding drop_database
  drop_database-IsCached name = record { stored = h.stored }

  put_schema-IsCached :
      (key : Text × Text) (row : RwObject Schema) → IsCached (put_schema key row s)
  unfolding put_schema
  put_schema-IsCached key row = record { stored = h.stored }

  drop_schema-IsCached : (ident : SchemaIdent) → IsCached (drop_schema ident s)
  unfolding drop_schema
  drop_schema-IsCached ident = record { stored = h.stored }

  put_table-IsCached :
      (key : Text × Text × Text) (row : RwObject (Table x)) → IsCached (put_table key row s)
  unfolding put_table
  put_table-IsCached key row = record { stored = h.stored }

  drop_table-IsCached : (key : Text × Text × Text) → IsCached (drop_table key s)
  unfolding drop_table
  drop_table-IsCached key = record { stored = h.stored }

  record_write-IsCached :
      (store : x.ObjectStore) (path bytes : Text) → IsCached (record_write store path bytes s)
  unfolding record_write
  record_write-IsCached store path bytes = record { stored = h.stored }

Prepared-IsCached : {x : External} {s t : Metastore x} → IsCached s → Prepared s t → IsCached t
Prepared-IsCached h start = h
Prepared-IsCached h (cached name row store p found) =
    put_store-IsCached (Prepared-IsCached h p) name store
Prepared-IsCached h (wrote store path bytes p) =
    record_write-IsCached (Prepared-IsCached h p) store path bytes

module _ {x : External} {s : Metastore x} (w : World x) (h : IsCached s) where
  step-IsCached : (c : Call x) → IsCached (step w c s)
  unfolding step register_table delete_table
  step-IsCached (Call.create_volume name v) = elim (create_volume_state s w name v) [
    | inl e ↦ rw e h
    | inr (store, made, e) ↦ rw e (put_volume-IsCached h name _ store)
  ]
  step-IsCached (Call.update_volume name v) = elim (update_volume_state s w name v) [
    | inl e ↦ rw e h
    | inr (store, entry, made, found, e) ↦ rw e (put_volume-IsCached h name _ store)
  ]
  step-IsCached (Call.delete_volume name cascade) = elim (delete_volume_state s name cascade) [
    | inl e ↦ rw e h
    | inr (inl (c, e)) ↦ rw e (drop_volume-IsCached (drop_databases-IsCached h _) name)
    | inr (inr (c, none_left, e)) ↦ rw e (drop_volume-IsCached h name)
  ]
  step-IsCached (Call.volume_object_store name) =
      Prepared-IsCached h (volume_object_store-Prepared s w false name)
  step-IsCached (Call.create_database name db) = elim (create_database_state s w name db) [
    | inl e ↦ rw e h
    | inr (volume, fresh, e) ↦ rw e (put_database-IsCached h name _)
  ]
  step-IsCached (Call.update_database name db) = elim (update_database_state s w name db) [
    | inl e ↦ rw e h
    | inr (entry, found, e) ↦ rw e (put_database-IsCached h name _)
  ]
  step-IsCached (Call.delete_database name cascade) = elim (delete_database_state s name cascade) [
    | inl e ↦ rw e h
    | inr e ↦ rw e (drop_database-IsCached h name)
  ]
  step-IsCached (Call.create_schema ident schema) = elim (create_schema_state s w ident schema) [
    | inl e ↦ rw e h
    | inr (parent, e) ↦ rw e (put_schema-IsCached h _ _)
  ]
  step-IsCached (Call.update_schema ident schema) = elim (update_schema_state s w ident schema) [
    | inl e ↦ rw e h
    | inr (entry, found, e) ↦ rw e (put_schema-IsCached h _ _)
  ]
  step-IsCached (Call.delete_schema ident cascade) = elim (delete_schema_state s ident cascade) [
    | inl e ↦ rw e h
    | inr e ↦ rw e (drop_schema-IsCached h ident)
  ]
  step-IsCached (Call.create_table ident request) = elim (create_table_cases s w ident request) [
    | inl p ↦ Prepared-IsCached h p
    | inr (t, row, p, parent, e) ↦ rw e (put_table-IsCached (Prepared-IsCached h p) _ row)
  ]
  step-IsCached (Call.register_table ident table) = put_table-IsCached h _ _
  step-IsCached (Call.update_table ident update) = elim (update_table_cases s w ident update) [
    | inl p ↦ Prepared-IsCached h p
    | inr (t, old, row, p, found, e) ↦ rw e (put_table-IsCached (Prepared-IsCached h p) _ row)
  ]
  step-IsCached (Call.delete_table ident cascade) = drop_table-IsCached h _
  step-IsCached (Call.table_object_store ident) =
      Prepared-IsCached h (table_object_store-Prepared s w ident)

pub run-IsCached :
    {x : External} (cs : List (World x × Call x)) {s : Metastore x}
    → IsCached s
    → IsCached (run cs s)
unfolding run
run-IsCached [] h = h
run-IsCached ((w, c) ∷ cs) h = run-IsCached cs (step-IsCached w h c)

pub new-IsCached : {x : External} → IsCached {x = x} new
unfolding new get
new-IsCached = record { stored = λ v e. cc }
