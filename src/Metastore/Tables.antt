-- ===== src/Metastore/Tables.antt =====
-- The table methods of `InMemoryMetastore` (crates/catalog-metastore/src/metastore.rs).
use rustice.Prelude.{
  Bool, true, false, not, ◌&&◌, Option, none, some, List, [], ◌∷◌, ◌++◌, Text, text_eq, pair_eq,
  triple_eq, ◌==◌, codes, if◌then◌else◌,
}
use rustice.Prelude.HashMap.{HashMap, get, contains_key}
use rustice.Metastore.Error
use rustice.Metastore.Error.{
  Error, Result, ok, err, context, object_store, table_already_exists, table_not_found,
  schema_not_found, volume_not_found, table_volume_missing, table_metadata_builder,
  serialize_metadata, iceberg,
}
use rustice.Metastore.External.{External, World}
use rustice.Metastore.Models.{
  RwObject, new_row, touch, TableIdent, SchemaIdent, schema_ident, VolumeIdent, TableFormat,
}
use rustice.Metastore.Models
use rustice.Metastore.Volume.{Volume}
use rustice.Metastore.Requirements.{TableCreateRequest}
use rustice.Metastore.Metadata.{metadata_builder, update_properties_timestamps}
use rustice.Metastore.State.{
  Metastore, put_table, drop_table, record_write, Table, Method, pure, lift, gets, modify, fail_if,
  ok_or, ensure_database, ensure_volume, schema_key, table_key, database_key,
  default_table_location, metadata_file_name, ◌>>=◌, ◌>>◌,
}
use rustice.Metastore.Volumes.{volume_object_store}

abbrev unwrap_or {ℓ} : {A : Type ℓ} → A → Option A → A
unwrap_or d none = d
unwrap_or d (some a) = a

unfoldable pub not_found : TableIdent → Error
not_found ident = table_not_found ident.table ident.schema ident.database

database_volume : Option (RwObject Models.Database) → Option VolumeIdent
database_volume none = none
database_volume (some row) = some row.value.volume

or_else : Option VolumeIdent → Option VolumeIdent → Option VolumeIdent
or_else none o = o
or_else (some v) o = some v

-- The request's location, or the default one.
unfoldable pub location_of_request : TableIdent → Option Text → Text
location_of_request ident location = unwrap_or (default_table_location ident) location

module _ {x : External} where
  unfoldable pub metadata_path : World x → TableIdent → Text
  metadata_path w ident =
      default_table_location ident ++ (codes "/metadata/" ++ metadata_file_name w.new_uuid)

  -- `put_metadata`: the bytes go to the store, and the path is the answer.
  unfoldable pub put_metadata :
      World x → TableIdent → x.ObjectStore → x.TableMetadata → Method x Text
  put_metadata w ident store metadata = do
    let path = metadata_path w ident
    bytes ← lift (context serialize_metadata (w.to_vec metadata))
    lift (context object_store (w.put store path bytes))
    modify (record_write store path bytes)
    pure path

  -- The volume of a new table: the request's, or its database's.
  unfoldable pub volume_of_request :
      TableIdent → Option VolumeIdent → Metastore x → Result VolumeIdent
  volume_of_request ident (some volume) s = ok volume
  volume_of_request ident none s =
      Error.◌>>=◌ (ensure_database ident.database s) λ database. ok database.value.volume

  -- `table_object_store_from_request`, under the lock that `create_table` holds for writing.
  unfoldable pub table_object_store_from_request :
      World x → TableIdent → Option VolumeIdent → Method x x.ObjectStore
  table_object_store_from_request w ident requested = do
    name ← lift (ok_or (table_volume_missing ident.table) requested)
    volume ← gets (ensure_volume name)
    row ← lift volume
    store ← volume_object_store w true name
    lift (ok_or (volume_not_found name) store)

  unfoldable pub stored_table :
      World x
      → TableIdent
      → TableCreateRequest
      → VolumeIdent
      → Text
      → x.TableMetadata
      → Text
      → Table x
  stored_table w ident request volume location metadata path = record {
    ident = ident;
    metadata = metadata;
    metadata_location = path;
    properties = update_properties_timestamps w.now_rfc3339 (unwrap_or [] request.properties);
    volume_ident = some volume;
    volume_location = some location;
    is_temporary = unwrap_or false request.is_temporary;
    format = unwrap_or Models.TableFormat.iceberg request.format;
  }

  unfoldable pub request_metadata : World x → TableCreateRequest → Text → Result x.TableMetadata
  request_metadata w request location = context table_metadata_builder (
      x.build_metadata
        (metadata_builder w.now request.schema location request.partition_spec request.sort_order))

  -- The end of `create_table`: the metadata file, then the row.
  unfoldable pub write_table :
      World x
      → TableIdent
      → TableCreateRequest
      → VolumeIdent
      → x.TableMetadata
      → x.ObjectStore
      → Method x (RwObject (Table x))
  write_table w ident request volume metadata store = do
    path ← put_metadata w ident store metadata
    let location = location_of_request ident request.location
    let row = new_row w.now (stored_table w ident request volume location metadata path)
    modify (put_table (table_key ident) row)
    pure row

  -- From the metadata on: the object store of the volume, and the end.
  unfoldable pub store_table :
      World x
      → TableIdent
      → TableCreateRequest
      → VolumeIdent
      → x.TableMetadata
      → Method x (RwObject (Table x))
  store_table w ident request volume metadata = do
    store ← table_object_store_from_request w ident (some volume)
    write_table w ident request volume metadata store

  unfoldable pub create_table :
      World x → TableIdent → TableCreateRequest → Method x (RwObject (Table x))
  create_table w ident request = do
    parent ← gets (λ s. contains_key (schema_key (schema_ident ident)) s.schemas)
    fail_if (not parent) (schema_not_found ident.schema ident.database)
    known ← gets (λ s. contains_key (table_key ident) s.tables)
    fail_if known (table_already_exists ident.table ident.schema ident.database)
    chosen ← gets (volume_of_request ident request.volume_ident)
    volume ← lift chosen
    metadata ← lift (request_metadata w request (location_of_request ident request.location))
    store_table w ident request volume metadata

  unfoldable pub register_table : World x → TableIdent → Table x → Method x (RwObject (Table x))
  register_table w ident table = do
    let row = new_row w.now table
    modify (put_table (table_key ident) row)
    pure row

  unfoldable pub get_table : TableIdent → Method x (Option (RwObject (Table x)))
  get_table ident = gets (λ s. get (table_key ident) s.tables)

  unfoldable pub table_exists : TableIdent → Method x Bool
  table_exists ident = gets (λ s. contains_key (table_key ident) s.tables)

  -- `state.tables.get(key).and_then(|table| table.volume_ident.as_ref())`
  table_volume : Option (RwObject (Table x)) → Option VolumeIdent
  table_volume none = none
  table_volume (some row) = row.value.volume_ident

  volume_row : Option VolumeIdent → Metastore x → Option (RwObject (Volume x))
  volume_row none s = none
  volume_row (some name) s = get name s.volumes

  unfoldable pub volume_of_table : TableIdent → Metastore x → Option (RwObject (Volume x))
  unfolding table_volume database_volume or_else volume_row
  volume_of_table ident s =
      volume_row
        (or_else (table_volume (get (table_key ident) s.tables))
          (database_volume (get (database_key ident) s.databases)))
        s

  unfoldable pub volume_for_table : TableIdent → Method x (Option (RwObject (Volume x)))
  volume_for_table ident = gets (volume_of_table ident)

  store_of_volume : World x → Option (RwObject (Volume x)) → Method x (Option x.ObjectStore)
  store_of_volume w none = pure none
  store_of_volume w (some volume) = volume_object_store w false volume.value.ident

  -- `table_object_store` asks for the store of the identifier in the volume's row.
  unfoldable pub table_object_store : World x → TableIdent → Method x (Option x.ObjectStore)
  unfolding store_of_volume
  table_object_store w ident = do volume ← volume_for_table ident; store_of_volume w volume

  url_of : TableIdent → Option (RwObject (Table x)) → Result Text
  url_of ident none = err (not_found ident)
  url_of ident (some row) =
      ok (unwrap_or (codes "memory://" ++ ident.table) row.value.volume_location)

  unfoldable pub url_for_table : TableIdent → Method x Text
  unfolding url_of not_found
  url_for_table ident = do url ← gets (λ s. url_of ident (get (table_key ident) s.tables)); lift url

  unfoldable pub delete_table : TableIdent → Bool → Method x (Unit {0})
  delete_table ident cascade = modify (drop_table (table_key ident))

-- `list_tables` compares the stored keys with the identifier as it is written.
table_rows :
    {x : External}
    → SchemaIdent
    → HashMap (Text × Text × Text) (RwObject (Table x))
    → List (RwObject (Table x))
table_rows ident [] = []
table_rows ident ((k, row) ∷ m) =
    let rest = table_rows ident m in
    if k.0 == ident.database && k.1 == ident.schema then row ∷ rest else rest

unfoldable pub list_tables : {x : External} → SchemaIdent → Method x (List (RwObject (Table x)))
unfolding table_rows
list_tables schema = gets (λ s. table_rows schema s.tables)
