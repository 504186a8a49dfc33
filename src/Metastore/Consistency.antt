-- ===== src/Metastore/Consistency.antt =====
-- The tree of databases, schemas and tables of the metastore
-- (crates/catalog-metastore/src/metastore.rs): what holds it together, and each write keeps it.
pub mod Cascade
pub mod Histories
use rustice.Prelude.{
  Bool, true, false, ◌≡◌, refl, List, [], ◌∷◌, map, Option, none, some, text_eq, pair_eq, triple_eq,
  text_beq_iff, ◌==◌, ◌&&◌, ◌||◌, arith, Text, any, filter, is_empty,
}
use rustice.Prelude.HashMap.{
  HashMap, get, contains_key, values, get-insert, get-remove, get-remove_all, get-remove_all-filter,
}
use rustice.Metastore.External.{External}
use rustice.Metastore.Models.{
  VolumeIdent, RwObject, Database, Schema, SchemaIdent, TableIdent, schema_ident,
}
use rustice.Metastore.Volume.{Volume}
use rustice.Metastore.State.{
  Metastore, Table, put_volume, put_store, put_database, put_schema, put_table, drop_table,
  record_write, schema_key, table_key,
}
use rustice.Metastore.Volumes.{drop_volume, drop_databases, databases_in_use}
use rustice.Metastore.Databases.{drop_database, drop_schema}

-- What unchecked calls may have left without its schema or its volume
pub record Unchecked : Type 0 where
  pub schemas : Text → Text → Bool
  pub volumes : VolumeIdent → Bool

pub record IsConsistent {x : External} (u : Unchecked) (s : Metastore x) : Type 0 where
  pub schema_parent :
      (d n : Text) → contains_key (d, n) s.schemas ≡ true → contains_key d s.databases ≡ true
  pub table_parent :
      (d n t : Text)
      → contains_key (d, n, t) s.tables ≡ true
      → (u.schemas d n || contains_key (d, n) s.schemas) ≡ true
  pub database_volume :
      (d : Text) (row : RwObject Database)
      → get d s.databases ≡ some row
      → (u.volumes row.value.volume || contains_key row.value.volume s.volumes) ≡ true
  pub database_ident :
      (d : Text) (row : RwObject Database) → get d s.databases ≡ some row → row.value.ident ≡ d

-- A database whose row names the volume, under its own identifier, is among those in use.
pub in_use_of_row :
    (name d : Text) (row : RwObject Database) (dbs : HashMap Text (RwObject Database))
    → get d dbs ≡ some row
    → row.value.volume ≡ name
    → row.value.ident ≡ d
    → any
        (λ k. k == d)
        (map (λ r. r.value.ident) (filter (λ r. r.value.volume == name) (values dbs)))
      ≡ true
unfolding get
in_use_of_row name d row [] found volume ident = cc
in_use_of_row name d row ((k, r) ∷ dbs) found volume ident = ground (
  arith,
  in_use_of_row name d row dbs,
  text_beq_iff k d,
  text_beq_iff r.value.volume name,
  text_beq_iff r.value.ident d,
)

module _ {x : External} {u : Unchecked} {s : Metastore x} (h : IsConsistent u s) where
  pub put_volume-IsConsistent :
      (name : VolumeIdent) (row : RwObject (Volume x)) (store : x.ObjectStore)
      → IsConsistent u (put_volume name row store s)
  unfolding put_volume
  put_volume-IsConsistent name row store = record {
    schema_parent = h.schema_parent;
    table_parent = h.table_parent;
    database_volume = λ d r e.
        ground (arith, h.database_volume d r, get-insert name r.value.volume row s.volumes);
    database_ident = h.database_ident;
  }

  pub put_store-IsConsistent :
      (name : VolumeIdent) (store : x.ObjectStore) → IsConsistent u (put_store name store s)
  unfolding put_store
  put_store-IsConsistent name store = record {
    schema_parent = h.schema_parent;
    table_parent = h.table_parent;
    database_volume = h.database_volume;
    database_ident = h.database_ident;
  }

  pub record_write-IsConsistent :
      (store : x.ObjectStore) (path bytes : Text) → IsConsistent u (record_write store path bytes s)
  unfolding record_write
  record_write-IsConsistent store path bytes = record {
    schema_parent = h.schema_parent;
    table_parent = h.table_parent;
    database_volume = h.database_volume;
    database_ident = h.database_ident;
  }

  pub put_database-IsConsistent :
      (name : Text) (row : RwObject Database)
      → (u.volumes row.value.volume || contains_key row.value.volume s.volumes) ≡ true
      → row.value.ident ≡ name
      → IsConsistent u (put_database name row s)
  unfolding put_database
  put_database-IsConsistent name row volume ident = record {
    schema_parent =
        λ d n e. ground (arith, h.schema_parent d n e, get-insert name d row s.databases);
    table_parent = h.table_parent;
    database_volume =
        λ d r e. ground (arith, h.database_volume d r, get-insert name d row s.databases);
    database_ident = λ d r e.
        ground
          (arith, h.database_ident d r, get-insert name d row s.databases, text_beq_iff name d);
  }

  pub put_schema-IsConsistent :
      (d n : Text) (row : RwObject Schema)
      → contains_key d s.databases ≡ true
      → IsConsistent u (put_schema (d, n) row s)
  unfolding put_schema
  put_schema-IsConsistent d n row parent = record {
    schema_parent = λ d' n' e.
        ground (
          arith,
          h.schema_parent d' n',
          get-insert (d, n) (d', n') row s.schemas,
          text_beq_iff d d',
        );
    table_parent = λ d' n' t e.
        ground (arith, h.table_parent d' n' t e, get-insert (d, n) (d', n') row s.schemas);
    database_volume = h.database_volume;
    database_ident = h.database_ident;
  }

  pub put_table-IsConsistent :
      (d n t : Text) (row : RwObject (Table x))
      → (u.schemas d n || contains_key (d, n) s.schemas) ≡ true
      → IsConsistent u (put_table (d, n, t) row s)
  unfolding put_table
  put_table-IsConsistent d n t row parent = record {
    schema_parent = h.schema_parent;
    table_parent = λ d' n' t' e. ground (
      arith,
      h.table_parent d' n' t',
      get-insert (d, n, t) (d', n', t') row s.tables,
      text_beq_iff d d',
      text_beq_iff n n',
    );
    database_volume = h.database_volume;
    database_ident = h.database_ident;
  }

  pub drop_table-IsConsistent : (key : Text × Text × Text) → IsConsistent u (drop_table key s)
  unfolding drop_table
  drop_table-IsConsistent key = record {
    schema_parent = h.schema_parent;
    table_parent =
        λ d n t e. ground (arith, h.table_parent d n t, get-remove key (d, n, t) s.tables);
    database_volume = h.database_volume;
    database_ident = h.database_ident;
  }

  pub drop_schema-IsConsistent :
      (ident : SchemaIdent)
      → schema_key ident ≡ (ident.database, ident.schema)
      → IsConsistent u (drop_schema ident s)
  unfolding drop_schema
  drop_schema-IsConsistent ident normal = record {
    schema_parent = λ d n e.
        ground (arith, h.schema_parent d n, get-remove (schema_key ident) (d, n) s.schemas);
    table_parent = λ d n t e. rw normal (
        ground (
          arith,
          h.table_parent d n t,
          get-remove (ident.database, ident.schema) (d, n) s.schemas,
          get-remove_all-filter (λ k. k.0 == ident.database && k.1 == ident.schema) (d, n, t)
              s.tables,
          text_beq_iff d ident.database,
          text_beq_iff n ident.schema,
          text_beq_iff ident.database d,
          text_beq_iff ident.schema n,
        ));
    database_volume = h.database_volume;
    database_ident = h.database_ident;
  }

  pub drop_database-IsConsistent : (name : Text) → IsConsistent u (drop_database name s)
  unfolding drop_database
  drop_database-IsConsistent name = record {
    schema_parent = λ d n e. ground (
      arith,
      h.schema_parent d n,
      get-remove name d s.databases,
      get-remove_all-filter (λ k. k.0 == name) (d, n) s.schemas,
      text_beq_iff d name,
      text_beq_iff name d,
    );
    table_parent = λ d n t e. ground (
      arith,
      h.table_parent d n t,
      get-remove_all-filter (λ k. k.0 == name) (d, n) s.schemas,
      get-remove_all-filter (λ k. k.0 == name) (d, n, t) s.tables,
    );
    database_volume = λ d r e. ground (arith, h.database_volume d r, get-remove name d s.databases);
    database_ident = λ d r e. ground (arith, h.database_ident d r, get-remove name d s.databases);
  }
