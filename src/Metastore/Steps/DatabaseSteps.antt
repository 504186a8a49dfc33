-- ===== src/Metastore/Steps/DatabaseSteps.antt =====
-- The states that the database and schema methods can leave.
use rustice.Prelude.{Bool, true, false, ◌≡◌, some, text_eq, pair_eq, ◌⊎◌, arith}
use rustice.Prelude.HashMap.{get, contains_key}
use rustice.Metastore.External.{External, World}
use rustice.Metastore.Models.{
  DatabaseIdent, Database, Schema, SchemaIdent, RwObject, new_row, update_row, database_eq,
  schema_eq,
}
use rustice.Metastore.State.{Metastore, put_database, put_schema, schema_key, ensure_volume}
use rustice.Metastore.Databases.{
  create_database, update_database, delete_database, create_schema, update_schema, delete_schema,
  drop_database, drop_schema,
}

module _ {x : External} (s : Metastore x) where
  pub create_database_state :
      (w : World x) (name : DatabaseIdent) (database : Database)
      → ((create_database w name database s).1 ≡ s)
        ⊎ ((contains_key database.volume s.volumes ≡ true)
            × (contains_key name s.databases ≡ false)
            × ((create_database w name database s).1
                ≡ put_database name (new_row w.now database) s))
  unfolding create_database ensure_volume
  create_database_state w name database = ground arith

  pub update_database_state :
      (w : World x) (name : DatabaseIdent) (database : Database)
      → ((update_database w name database s).1 ≡ s)
        ⊎ ((entry : RwObject Database) × (get name s.databases ≡ some entry)
            × ((update_database w name database s).1
                ≡ put_database name (update_row w.now database entry) s))
  unfolding update_database
  update_database_state w name database = ground arith

  pub delete_database_state :
      (name : DatabaseIdent) (cascade : Bool)
      → ((delete_database name cascade s).1 ≡ s)
        ⊎ ((delete_database name cascade s).1 ≡ drop_database name s)
  unfolding delete_database
  delete_database_state name cascade = ground arith

  pub create_schema_state :
      (w : World x) (ident : SchemaIdent) (schema : Schema)
      → ((create_schema w ident schema s).1 ≡ s)
        ⊎ ((contains_key ident.database s.databases ≡ true)
            × ((create_schema w ident schema s).1
                ≡ put_schema (schema_key ident) (new_row w.now schema) s))
  unfolding create_schema
  create_schema_state w ident schema = ground arith

  pub update_schema_state :
      (w : World x) (ident : SchemaIdent) (schema : Schema)
      → ((update_schema w ident schema s).1 ≡ s)
        ⊎ ((entry : RwObject Schema) × (get (schema_key ident) s.schemas ≡ some entry)
            × ((update_schema w ident schema s).1
                ≡ put_schema (schema_key ident) (update_row w.now schema entry) s))
  unfolding update_schema
  update_schema_state w ident schema = ground arith

  pub delete_schema_state :
      (ident : SchemaIdent) (cascade : Bool)
      → ((delete_schema ident cascade s).1 ≡ s)
        ⊎ ((delete_schema ident cascade s).1 ≡ drop_schema ident s)
  unfolding delete_schema
  delete_schema_state ident cascade = ground arith
