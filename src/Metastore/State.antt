-- ===== src/Metastore/State.antt =====
-- The state of `InMemoryMetastore` (crates/catalog-metastore/src/metastore.rs), its keys, and the
-- monad of its methods. A method runs under the state's lock from its first access to its last.
use rustice.Prelude.{
  Bool, Option, none, some, List, [], ◌∷◌, ◌++◌, Text, text_eq, pair_eq, triple_eq, codes,
  to_ascii_lowercase, if◌then◌else◌,
}
use rustice.Prelude.HashMap.{HashMap, get, insert, remove}
use rustice.Metastore.Error.{Error, Result, ok, err, blocked, database_not_found, volume_not_found}
use rustice.Metastore.External.{External}
use rustice.Metastore.Models.{
  RwObject, Database, Schema, SchemaIdent, TableIdent, TableFormat, DatabaseIdent, VolumeIdent,
  Properties,
}
use rustice.Metastore.Volume.{Volume}

pub record Table (x : External) : Type 0 where
  pub ident : TableIdent
  pub metadata : x.TableMetadata
  pub metadata_location : Text
  pub properties : Properties
  pub volume_ident : Option VolumeIdent
  pub volume_location : Option Text
  pub is_temporary : Bool
  pub format : TableFormat

-- `written` is what the object stores have received: the store, the path and the bytes.
pub record Metastore (x : External) : Type 0 where
  pub volumes : HashMap VolumeIdent (RwObject (Volume x))
  pub databases : HashMap DatabaseIdent (RwObject Database)
  pub schemas : HashMap (Text × Text) (RwObject Schema)
  pub tables : HashMap (Text × Text × Text) (RwObject (Table x))
  pub object_store_cache : HashMap VolumeIdent x.ObjectStore
  pub settings_config : Option x.SettingsConfig
  pub written : List (x.ObjectStore × Text × Text)

unfoldable pub table_key : TableIdent → Text × Text × Text
table_key ident = (
  to_ascii_lowercase ident.database,
  to_ascii_lowercase ident.schema,
  to_ascii_lowercase ident.table,
)

unfoldable pub schema_key : SchemaIdent → Text × Text
schema_key ident = (to_ascii_lowercase ident.database, to_ascii_lowercase ident.schema)

unfoldable pub database_key : TableIdent → DatabaseIdent
database_key ident = to_ascii_lowercase ident.database

-- `default_table_location`
unfoldable pub default_table_location : TableIdent → Text
default_table_location ident =
    ident.database ++ (codes "/" ++ (ident.schema ++ (codes "/" ++ ident.table)))

-- `metadata_file_name`
unfoldable pub metadata_file_name : Text → Text
metadata_file_name uuid = uuid ++ codes ".metadata.json"

abbrev pub Method : External → Type 0 → Type 0
Method x A = Metastore x → Result A × Metastore x

-- `ok_or_else`
abbrev pub ok_or {ℓ} : {A : Type ℓ} → Error → Option A → Result A
ok_or e none = err e
ok_or e (some a) = ok a

module _ {x : External} where
  abbrev pub pure : {A : Type 0} → A → Method x A
  pure a s = (ok a, s)

  abbrev pub lift : {A : Type 0} → Result A → Method x A
  lift r s = (r, s)

  abbrev pub gets : {A : Type 0} → (Metastore x → A) → Method x A
  gets f s = (ok (f s), s)

  abbrev pub modify : (Metastore x → Metastore x) → Method x (Unit {0})
  modify f s = (ok tt, f s)

  -- A step's result, and the rest of the method.
  abbrev pub continue :
      {A B : Type 0} → Result A × Metastore x → (A → Method x B) → Result B × Metastore x
  continue (ok a, s) f = f a s
  continue (err e, s) f = (err e, s)
  continue (blocked, s) f = (blocked, s)

  infixl 5 ◌>>=◌ ◌>>◌
  abbrev pub ◌>>=◌ : {A B : Type 0} → Method x A → (A → Method x B) → Method x B
  ◌>>=◌ m f s = continue (m s) f

  abbrev pub ◌>>◌ : {B : Type 0} → Method x (Unit {0}) → Method x B → Method x B
  ◌>>◌ m k s = continue (m s) (λ _. k)

  -- `if test { return Err(e) }`
  abbrev pub fail_if : Bool → Error → Method x (Unit {0})
  fail_if test e s = if test then (err e, s) else (ok tt, s)

  -- `InMemoryMetastore::new`
  unfoldable pub new : Metastore x
  new = record {
    volumes = [];
    databases = [];
    schemas = [];
    tables = [];
    object_store_cache = [];
    settings_config = none;
    written = [];
  }

  unfoldable pub with_settings_config : x.SettingsConfig → Metastore x → Metastore x
  with_settings_config settings s = record s { settings_config = some settings }

  -- `ensure_database`
  unfoldable pub ensure_database : DatabaseIdent → Metastore x → Result (RwObject Database)
  ensure_database name s = ok_or (database_not_found name) (get name s.databases)

  -- `ensure_volume`
  unfoldable pub ensure_volume : VolumeIdent → Metastore x → Result (RwObject (Volume x))
  ensure_volume name s = ok_or (volume_not_found name) (get name s.volumes)

  -- The writes of the methods: `HashMap::insert` into one of the maps.
  unfoldable pub put_volume :
      VolumeIdent → RwObject (Volume x) → x.ObjectStore → Metastore x → Metastore x
  put_volume name row store s = record s {
    volumes = insert name row s.volumes;
    object_store_cache = insert name store s.object_store_cache;
  }

  unfoldable pub put_store : VolumeIdent → x.ObjectStore → Metastore x → Metastore x
  put_store name store s = record s { object_store_cache = insert name store s.object_store_cache }

  unfoldable pub put_database : DatabaseIdent → RwObject Database → Metastore x → Metastore x
  put_database name row s = record s { databases = insert name row s.databases }

  unfoldable pub put_schema : Text × Text → RwObject Schema → Metastore x → Metastore x
  put_schema key row s = record s { schemas = insert key row s.schemas }

  unfoldable pub put_table : Text × Text × Text → RwObject (Table x) → Metastore x → Metastore x
  put_table key row s = record s { tables = insert key row s.tables }

  unfoldable pub drop_table : Text × Text × Text → Metastore x → Metastore x
  drop_table key s = record s { tables = remove key s.tables }

  unfoldable pub record_write : x.ObjectStore → Text → Text → Metastore x → Metastore x
  record_write store path bytes s = record s { written = (store, path, bytes) ∷ s.written }
