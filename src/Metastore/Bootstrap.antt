-- ===== src/Metastore/Bootstrap.antt =====
-- `MetastoreBootstrapConfig` (crates/catalog-metastore/src/metastore_bootstrap_config.rs): the volumes,
-- databases, schemas and tables of a configuration, and how it is applied to a metastore. Reading the
-- configuration from a file or the environment is not modelled.
pub mod Config
pub mod Settles
pub mod Again
pub mod Default
use rustice.Prelude.{
  Bool, true, false, not, Option, none, some, List, [], ◌∷◌, Text, codes, if◌then◌else◌,
}
use rustice.Functions.Json.{Value}
use rustice.Metastore.Error
use rustice.Metastore.Error.{Error, Result, Outcome, done, failed}
use rustice.Metastore.External.{External, World}
use rustice.Metastore.Models.{Database, RwObject, SchemaIdent, TableIdent, TableFormat, VolumeIdent}
use rustice.Metastore.Volume.{Volume, memory, get_object_store}
use rustice.Metastore.State.{Metastore, Method, Table}
use rustice.Metastore.Volumes.{get_volume, create_volume}
use rustice.Metastore.Databases.{get_database, create_database, get_schema, create_schema}
use rustice.Metastore.Tables.{table_exists, register_table}
use rustice.Metastore.PatchOperation.{patch_missing_operation}
use rustice.Metastore.Bootstrap.Config.{
  VolumeEntry, DatabaseEntry, SchemaEntry, TableEntry, table_ident, MetastoreBootstrapConfig,
  ConfigError, ConfigResult, ok, err, metastore, table_database_missing, table_volume_missing,
  invalid_metadata_location, invalid_metadata, metadata_fetch, metadata_parse, Reader,
  default_volume_name, default_database_name, default_schema_name, Setup, of_result, of_outcome,
  ok_or, and_then, pure, lift, call, continue, or_create, ◌>>=◌, ◌>>◌,
}

unfoldable pub bootstrap : {x : External} → MetastoreBootstrapConfig x
bootstrap = record {
  volumes =
      record {
        volume = record { ident = default_volume_name; volume = memory };
        database = some default_database_name;
        should_refresh = false;
      }
      ∷ [];
  databases =
      record { ident = default_database_name; volume = default_volume_name; should_refresh = false }
      ∷ [];
  schemas = record { database = default_database_name; schema = default_schema_name } ∷ [];
  tables = [];
}

module _ {x : External} where
  unfoldable pub ensure_schema : World x → Text → Text → Setup x (Unit {0})
  ensure_schema w database schema = do
    let schema_ident : SchemaIdent = record { schema = schema; database = database }
    found ← call (get_schema schema_ident)
    or_create found
        (call (create_schema w schema_ident (record { ident = schema_ident; properties = none })))

  -- The first half of `ensure_database`.
  unfoldable pub make_database : World x → Text → Text → Bool → Setup x (Unit {0})
  make_database w ident volume should_refresh = do
    found ← call (get_database ident)
    or_create found (
        call (
          create_database w ident (record {
            ident = ident;
            properties = none;
            volume = volume;
            should_refresh = should_refresh;
          })))

  unfoldable pub ensure_database : World x → Text → Text → Bool → Setup x (Unit {0})
  ensure_database w ident volume should_refresh = do
    make_database w ident volume should_refresh
    ensure_schema w ident default_schema_name

  -- The first half of `apply_volume`.
  unfoldable pub make_volume : World x → Volume x → Setup x (Unit {0})
  make_volume w volume = do
    found ← call (get_volume volume.ident)
    or_create found (call (create_volume w volume.ident volume))

  unfoldable pub volume_database : World x → VolumeEntry x → Option Text → Setup x (Unit {0})
  volume_database w entry none = pure tt
  volume_database w entry (some database) =
      ensure_database w database entry.volume.ident entry.should_refresh

  unfoldable pub apply_volume : World x → VolumeEntry x → Setup x (Unit {0})
  apply_volume w entry = do make_volume w entry.volume; volume_database w entry entry.database

  -- The bytes of the file at the location, patched and read.
  unfoldable pub read_metadata :
      World x → Reader x → TableEntry → Volume x → ConfigResult x.TableMetadata
  read_metadata w r entry volume = and_then (of_result (get_object_store w volume)) λ store.
      and_then
        (of_outcome (invalid_metadata_location entry.table)
          (r.get store (r.strip_prefix entry.metadata_location)))
        λ file. and_then (of_outcome (metadata_fetch entry.table) (r.bytes file)) λ bytes.
          and_then (of_outcome (metadata_parse entry.table) (r.value_from_slice bytes)) λ value.
            and_then (ok_or invalid_metadata (patch_missing_operation value)) λ patched.
              and_then (of_outcome (metadata_parse entry.table) (r.to_vec patched)) λ patched_bytes.
                of_outcome (metadata_parse entry.table) (r.metadata_from_slice patched_bytes)

  unfoldable pub stored_table : TableEntry → VolumeIdent → x.TableMetadata → Table x
  stored_table entry volume metadata = record {
    ident = table_ident entry;
    metadata = metadata;
    metadata_location = entry.metadata_location;
    properties = [];
    volume_ident = some volume;
    volume_location = none;
    is_temporary = false;
    format = TableFormat.iceberg;
  }

  -- The end of `apply_table`, from the database's volume on.
  unfoldable pub register_entry : World x → Reader x → TableEntry → VolumeIdent → Setup x (Unit {0})
  register_entry w r entry volume_ident = do
    found ← call (get_volume volume_ident)
    volume ← lift (ok_or (table_volume_missing entry.table volume_ident) found)
    metadata ← lift (read_metadata w r entry volume.value)
    row ←
        call (register_table w (table_ident entry) (stored_table entry volume.value.ident metadata))
    pure tt

  -- `apply_table` where the table is not there.
  unfoldable pub add_table : World x → Reader x → TableEntry → Setup x (Unit {0})
  add_table w r entry = do
    found ← call (get_database entry.database)
    database ← lift (ok_or (table_database_missing entry.table entry.database) found)
    ensure_schema w entry.database entry.schema
    register_entry w r entry database.value.volume

  unfoldable pub apply_table : World x → Reader x → TableEntry → Setup x (Unit {0})
  apply_table w r entry = do
    known ← call (table_exists (table_ident entry))
    if known then pure tt else add_table w r entry

  -- `for entry in &entries { … }`
  unfoldable pub for_each : {E : Type 0} → (E → Setup x (Unit {0})) → List E → Setup x (Unit {0})
  for_each f [] = pure tt
  for_each f (e ∷ es) = do f e; for_each f es

  unfoldable pub apply : World x → Reader x → MetastoreBootstrapConfig x → Setup x (Unit {0})
  apply w r config = do
    for_each (apply_volume w) config.volumes
    for_each (λ db. ensure_database w db.ident db.volume db.should_refresh) config.databases
    for_each (λ entry. ensure_schema w entry.database entry.schema) config.schemas
    for_each (apply_table w r) config.tables
