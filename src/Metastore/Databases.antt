-- ===== src/Metastore/Databases.antt =====
-- The database and schema methods of `InMemoryMetastore`
-- (crates/catalog-metastore/src/metastore.rs).
use rustice.Prelude.{
  Bool, not, ◌&&◌, Option, List, [], ◌∷◌, map, Text, text_eq, pair_eq, triple_eq, ◌==◌, codes, join,
  filter, is_empty, if◌then◌else◌, text_lt,
}
use rustice.Prelude.HashMap.{HashMap, get, remove, remove_all, contains_key, keys, values}
use rustice.Metastore.Error.{
  database_already_exists, database_not_found, database_in_use, schema_already_exists,
  schema_not_found,
}
use rustice.Metastore.External.{External, World}
use rustice.Metastore.Models.{
  RwObject, new_row, update_row, Database, Schema, SchemaIdent, DatabaseIdent, database_eq,
  schema_eq,
}
use rustice.Metastore.State.{
  Metastore, put_database, put_schema, Method, pure, lift, gets, modify, fail_if, ok_or,
  ensure_volume, schema_key, ◌>>=◌, ◌>>◌,
}

module _ {x : External} where
  unfoldable pub list_databases : Method x (List (RwObject Database))
  list_databases = gets (λ s. values s.databases)

  unfoldable pub create_database : World x → DatabaseIdent → Database → Method x (RwObject Database)
  create_database w name database = do
    found ← gets (ensure_volume database.volume)
    volume ← lift found
    known ← gets (λ s. contains_key name s.databases)
    fail_if known (database_already_exists name)
    let row = new_row w.now database
    modify (put_database name row)
    pure row

  unfoldable pub get_database : DatabaseIdent → Method x (Option (RwObject Database))
  get_database name = gets (λ s. get name s.databases)

  unfoldable pub update_database : World x → DatabaseIdent → Database → Method x (RwObject Database)
  update_database w name database = do
    found ← gets (λ s. get name s.databases)
    entry ← lift (ok_or (database_not_found name) found)
    let row = update_row w.now database entry
    modify (put_database name row)
    pure row

  -- `state.schemas.keys().filter(|(db, _)| db == name)`
  unfoldable pub schemas_of : DatabaseIdent → Metastore x → List (Text × Text)
  schemas_of name s = filter (λ k. k.0 == name) (keys s.schemas)

  unfoldable pub drop_database : DatabaseIdent → Metastore x → Metastore x
  drop_database name s = record s {
    schemas = remove_all (filter (λ k. k.0 == name) (keys s.schemas)) s.schemas;
    tables = remove_all (filter (λ k. k.0 == name) (keys s.tables)) s.tables;
    databases = remove name s.databases;
  }

  unfoldable pub delete_database : DatabaseIdent → Bool → Method x (Unit {0})
  delete_database name cascade = do
    schema_keys ← gets (schemas_of name)
    fail_if (not (is_empty schema_keys) && not cascade)
        (database_in_use name (join (codes ", ") (map (λ k. k.1) schema_keys)))
    modify (drop_database name)

unfoldable pub schema_name : RwObject Schema → Text
schema_name row = row.value.ident.schema

-- The place of a row among rows that stand in descending order: behind those of its own name.
unfoldable pub insert_sorted : RwObject Schema → List (RwObject Schema) → List (RwObject Schema)
insert_sorted a [] = a ∷ []
insert_sorted a (b ∷ l) =
    if text_lt (schema_name b) (schema_name a) then a ∷ b ∷ l else b ∷ insert_sorted a l

-- The stable sort of the rows, by insertion from the left.
unfoldable pub sort_onto : List (RwObject Schema) → List (RwObject Schema) → List (RwObject Schema)
sort_onto done [] = done
sort_onto done (a ∷ l) = sort_onto (insert_sorted a done) l

unfoldable pub schema_rows :
    DatabaseIdent → HashMap (Text × Text) (RwObject Schema) → List (RwObject Schema)
schema_rows database [] = []
schema_rows database ((k, row) ∷ m) =
    let rest = schema_rows database m in if k.0 == database then row ∷ rest else rest

module _ {x : External} where
  unfoldable pub list_schemas : DatabaseIdent → Method x (List (RwObject Schema))
  list_schemas database = gets (λ s. sort_onto [] (schema_rows database s.schemas))

  unfoldable pub create_schema : World x → SchemaIdent → Schema → Method x (RwObject Schema)
  create_schema w ident schema = do
    known ← gets (λ s. contains_key (schema_key ident) s.schemas)
    fail_if known (schema_already_exists ident.schema ident.database)
    parent ← gets (λ s. contains_key ident.database s.databases)
    fail_if (not parent) (database_not_found ident.database)
    let row = new_row w.now schema
    modify (put_schema (schema_key ident) row)
    pure row

  unfoldable pub get_schema : SchemaIdent → Method x (Option (RwObject Schema))
  get_schema ident = gets (λ s. get (schema_key ident) s.schemas)

  unfoldable pub update_schema : World x → SchemaIdent → Schema → Method x (RwObject Schema)
  update_schema w ident schema = do
    found ← gets (λ s. get (schema_key ident) s.schemas)
    entry ← lift (ok_or (schema_not_found ident.schema ident.database) found)
    let row = update_row w.now schema entry
    modify (put_schema (schema_key ident) row)
    pure row

  -- The tables are looked for under the identifier as it is written, and the schema by its key.
  unfoldable pub tables_of : SchemaIdent → Metastore x → List (Text × Text × Text)
  tables_of ident s = filter (λ k. k.0 == ident.database && k.1 == ident.schema) (keys s.tables)

  unfoldable pub drop_schema : SchemaIdent → Metastore x → Metastore x
  drop_schema ident s = record s {
    tables =
        remove_all (filter (λ k. k.0 == ident.database && k.1 == ident.schema) (keys s.tables))
          s.tables;
    schemas = remove (schema_key ident) s.schemas;
  }

  unfoldable pub delete_schema : SchemaIdent → Bool → Method x (Unit {0})
  delete_schema ident cascade = do
    tables ← gets (tables_of ident)
    fail_if (not (is_empty tables) && not cascade) (schema_not_found ident.schema ident.database)
    modify (drop_schema ident)
