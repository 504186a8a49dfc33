-- ===== src/Metastore/Catalog.antt =====
-- What the metastore promises, without lists, keys' order or caches: four functions from identifiers
-- to rows, and for each command its answer and the next functions. The commands are methods of
-- `InMemoryMetastore` (crates/catalog-metastore/src/metastore.rs), the deletions with their cascade.
use rustice.Prelude.{
  Bool, not, ◌&&◌, Option, none, some, List, [], ◌∷◌, Text, text_eq, pair_eq, triple_eq, ◌==◌,
  is_some, if◌then◌else◌, HashKey,
}
use rustice.Metastore.Error.{
  Result, ok, err, blocked, volume_already_exists, volume_not_found, database_already_exists,
  database_not_found, schema_already_exists, schema_not_found,
}
use rustice.Metastore.External.{External, World}
use rustice.Metastore.Models.{
  RwObject, new_row, update_row, Database, Schema, SchemaIdent, TableIdent, VolumeIdent,
  DatabaseIdent, database_eq, schema_eq,
}
use rustice.Metastore.Volume.{Volume, volume_eq, get_object_store}
use rustice.Metastore.State.{Table, schema_key, table_key}

pub record Catalog (x : External) : Type 0 where
  pub volumes : VolumeIdent → Option (RwObject (Volume x))
  pub databases : DatabaseIdent → Option (RwObject Database)
  pub schemas : Text × Text → Option (RwObject Schema)
  pub tables : Text × Text × Text → Option (RwObject (Table x))

pub data Command (x : External) : Type 0 where
  create_volume update_volume : VolumeIdent → Volume x → Command x
  get_volume : VolumeIdent → Command x
  create_database update_database : DatabaseIdent → Database → Command x
  drop_database get_database : DatabaseIdent → Command x
  create_schema update_schema : SchemaIdent → Schema → Command x
  drop_schema get_schema : SchemaIdent → Command x
  register_table : TableIdent → Table x → Command x
  delete_table get_table : TableIdent → Command x

pub data Answer (x : External) : Type 0 where
  volume : Option (RwObject (Volume x)) → Answer x
  database : Option (RwObject Database) → Answer x
  schema : Option (RwObject Schema) → Answer x
  table : Option (RwObject (Table x)) → Answer x
  done : Answer x

-- A function changed at one key.
abbrev pub set {ℓ κ} :
    {K : Type ℓ} {V : Type κ} ⦃e : HashKey K⦄ → K → Option V → (K → Option V) → K → Option V
set k v f j = if k == j then v else f j

-- A function with nothing left at the keys that pass the test.
abbrev pub clear {ℓ κ} : {K : Type ℓ} {V : Type κ} → (K → Bool) → (K → Option V) → K → Option V
clear p f j = if p j then none else f j

module _ {x : External} where
  unfoldable pub empty_catalog : Catalog x
  empty_catalog = record {
    volumes = λ k. none;
    databases = λ k. none;
    schemas = λ k. none;
    tables = λ k. none;
  }

  -- A volume that is made: known or not, or no object store to be had.
  with_store :
      Result x.ObjectStore
      → Result (Answer x) × Catalog x
      → Catalog x
      → Result (Answer x) × Catalog x
  with_store (ok store) next c = next
  with_store (err e) next c = (err e, c)
  with_store blocked next c = (blocked, c)

  make_volume : World x → VolumeIdent → Volume x → Catalog x → Result (Answer x) × Catalog x
  make_volume w name v c =
      let row = new_row w.now v in
      if is_some (c.volumes name)
      then (err (volume_already_exists name), c)
      else (ok (volume (some row)), record c { volumes = set name (some row) c.volumes })

  change_volume : World x → VolumeIdent → Volume x → Catalog x → Result (Answer x) × Catalog x
  change_volume w name v c = elim (c.volumes name) [
    | none ↦ (err (volume_not_found name), c)
    | some old ↦
        let row = update_row ⦃p = volume_eq⦄ w.now v old in
        (ok (volume (some row)), record c { volumes = set name (some row) c.volumes })
  ]

  make_database : World x → DatabaseIdent → Database → Catalog x → Result (Answer x) × Catalog x
  make_database w name db c =
      let row = new_row w.now db in
      if not (is_some (c.volumes db.volume))
      then (err (volume_not_found db.volume), c)
      else if is_some (c.databases name)
      then (err (database_already_exists name), c)
      else (ok (database (some row)), record c { databases = set name (some row) c.databases })

  change_database : World x → DatabaseIdent → Database → Catalog x → Result (Answer x) × Catalog x
  change_database w name db c = elim (c.databases name) [
    | none ↦ (err (database_not_found name), c)
    | some old ↦
        let row = update_row w.now db old in
        (ok (database (some row)), record c { databases = set name (some row) c.databases })
  ]

  make_schema : World x → SchemaIdent → Schema → Catalog x → Result (Answer x) × Catalog x
  make_schema w ident sc c =
      let row = new_row w.now sc in
      if is_some (c.schemas (schema_key ident))
      then (err (schema_already_exists ident.schema ident.database), c)
      else if not (is_some (c.databases ident.database))
      then (err (database_not_found ident.database), c)
      else (
        ok (schema (some row)),
        record c { schemas = set (schema_key ident) (some row) c.schemas },
      )

  change_schema : World x → SchemaIdent → Schema → Catalog x → Result (Answer x) × Catalog x
  change_schema w ident sc c = elim (c.schemas (schema_key ident)) [
    | none ↦ (err (schema_not_found ident.schema ident.database), c)
    | some old ↦
        let row = update_row w.now sc old in
        (ok (schema (some row)), record c { schemas = set (schema_key ident) (some row) c.schemas })
  ]

  -- What a command answers, and the catalog after it.
  unfoldable pub promise : World x → Command x → Catalog x → Result (Answer x) × Catalog x
  unfolding with_store make_volume change_volume make_database change_database make_schema
      change_schema
  promise w (create_volume name v) c = with_store (get_object_store w v) (make_volume w name v c) c
  promise w (update_volume name v) c =
      with_store (get_object_store w v) (change_volume w name v c) c
  promise w (get_volume name) c = (ok (volume (c.volumes name)), c)
  promise w (create_database name db) c = make_database w name db c
  promise w (update_database name db) c = change_database w name db c
  promise w (drop_database name) c = (
    ok done,
    record c {
      databases = set name none c.databases;
      schemas = clear (λ k. k.0 == name) c.schemas;
      tables = clear (λ k. k.0 == name) c.tables;
    },
  )
  promise w (get_database name) c = (ok (database (c.databases name)), c)
  promise w (create_schema ident sc) c = make_schema w ident sc c
  promise w (update_schema ident sc) c = change_schema w ident sc c
  promise w (drop_schema ident) c = (
    ok done,
    record c {
      schemas = set (schema_key ident) none c.schemas;
      tables = clear (λ k. k.0 == ident.database && k.1 == ident.schema) c.tables;
    },
  )
  promise w (get_schema ident) c = (ok (schema (c.schemas (schema_key ident))), c)
  promise w (register_table ident t) c =
      let row = new_row w.now t in
      (ok (table (some row)), record c { tables = set (table_key ident) (some row) c.tables })
  promise w (delete_table ident) c =
      (ok done, record c { tables = set (table_key ident) none c.tables })
  promise w (get_table ident) c = (ok (table (c.tables (table_key ident))), c)

  -- The answers to commands, one after another.
  unfoldable pub promises : List (World x × Command x) → Catalog x → List (Result (Answer x))
  promises [] c = []
  promises ((w, q) ∷ qs) c = (promise w q c).0 ∷ promises qs (promise w q c).1
