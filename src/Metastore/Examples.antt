-- ===== src/Metastore/Examples.antt =====
-- The theorems about the metastore at concrete inputs.
use rustice.Prelude.{
  true, false, ◌≡◌, refl, none, some, List, [], ◌∷◌, codes, text_eq, pair_eq, triple_eq, nat_eq,
  arith, to_ascii_lowercase,
}
use rustice.Prelude.HashMap.{get, contains_key, insert}
use rustice.Metastore.Error.{ok, done, is_blocked}
use rustice.Metastore.Models.{RwObject, touch}
use rustice.Metastore.Volume.{get_object_store, volume_type_store}
use rustice.Metastore.Requirements.{assert, assert_all}
use rustice.Metastore.State.{
  Metastore, Table, new, schema_key, table_key, put_volume, put_database, put_schema, put_table,
  ensure_database, ensure_volume, record_write, default_table_location,
}
use rustice.Metastore.Metadata.{metadata_builder, convert_add_schema_update_to_lowercase}
use rustice.Metastore.Calls.{run, step}
use rustice.Functions.Json.{null}
use rustice.Metastore.PatchOperation.{patch_missing_operation, get_mut, as_array_mut}
use rustice.Metastore.External.{World}
use rustice.Metastore.Catalog.{Command, promises, empty_catalog}
use rustice.Metastore.Refinement.{executes, executes-new}
use rustice.Metastore.Bootstrap
use rustice.Metastore.Bootstrap.Config
use rustice.Metastore.Bootstrap.Config.{MetastoreBootstrapConfig, Reader}
use rustice.Metastore.Bootstrap.{bootstrap}
use rustice.Metastore.Bootstrap.Settles.{Grows, Grows-refl}
use rustice.Metastore.Bootstrap.Again.{Has, apply-again}
use rustice.Metastore.Bootstrap.Default.{apply-bootstrap}
use rustice.Metastore.Volumes
use rustice.Metastore.Volumes.{volume_object_store}
use rustice.Metastore.Databases
use rustice.Metastore.Databases.{schema_rows}
use rustice.Metastore.Tables
use rustice.Metastore.Updates
use rustice.Metastore.Updates.{commit_table, commit_metadata, committed}
use rustice.Metastore.Tables.{
  volume_of_request, request_metadata, location_of_request, store_table,
  table_object_store_from_request, write_table, put_metadata, metadata_path, stored_table,
  table_object_store, volume_for_table, volume_of_table,
}
use rustice.Metastore.Consistency.{IsConsistent}
use rustice.Metastore.Consistency.Histories.{unchecked, run-IsConsistent}
use rustice.Metastore.Deadlock.{create_table-no_deadlock, stored-run}
use rustice.Metastore.SchemaCase.{delete_schema-mixed_case, delete_schema-cascade}
use rustice.Metastore.TableTrips.{Written, create_table-Written}
use rustice.Metastore.Commits.{Committed, update_table-Committed}
use rustice.Metastore.Toy.{
  toy, world, volume, database, schema_ident, mixed_ident, schema, table_ident, request, update,
  calls, metadata, table_row, with_schema, with_table, with_table-HasLowerKeys, unchecked_calls,
}

create_table-no_deadlock_example :
    is_blocked (Tables.create_table world table_ident request (run calls new)).0 ≡ false
create_table-no_deadlock_example = create_table-no_deadlock calls world table_ident request

stored-run_example : contains_key (codes "v") (run calls new).object_store_cache ≡ true
unfolding run step Volumes.create_volume Databases.create_database Databases.create_schema
    Tables.create_table put_volume put_database put_schema put_table insert get get_object_store
    volume_type_store ensure_volume new schema_key to_ascii_lowercase volume_of_request
    ensure_database request_metadata store_table table_object_store_from_request volume_object_store
    write_table put_metadata record_write
stored-run_example = stored-run {x = toy} calls (codes "v") refl

run-IsConsistent_example : IsConsistent (unchecked unchecked_calls) (run unchecked_calls new)
unfolding schema_key to_ascii_lowercase
run-IsConsistent_example =
    run-IsConsistent unchecked_calls (tt, (refl, (refl, (tt, (tt, (refl, tt))))))

delete_schema-mixed_case_example :
    ((Databases.delete_schema mixed_ident false with_table).0 ≡ ok tt)
    × ((Databases.delete_schema mixed_ident false with_table).1.tables ≡ with_table.tables)
    × (contains_key
          (schema_key mixed_ident)
          (Databases.delete_schema mixed_ident false with_table).1.schemas
        ≡ false)
unfolding schema_key to_ascii_lowercase
delete_schema-mixed_case_example =
    delete_schema-mixed_case with_table mixed_ident false with_table-HasLowerKeys (ground arith)

delete_schema-cascade_example :
    (Databases.delete_schema schema_ident true with_table).0 ≡ ok tt
    × (get
          (codes "d", codes "s", codes "t")
          (Databases.delete_schema schema_ident true with_table).1.tables
        ≡ none)
    × (get (codes "d", codes "s") (Databases.delete_schema schema_ident true with_table).1.schemas
        ≡ none)
unfolding schema_key to_ascii_lowercase get
delete_schema-cascade_example =
    delete_schema-cascade with_table schema_ident (codes "d") (codes "s") (codes "t")

create_table-Written_example :
    Written world table_ident table_row with_schema
      (Tables.create_table world table_ident request with_schema).1
unfolding Tables.create_table volume_of_request request_metadata location_of_request store_table
    table_object_store_from_request volume_object_store write_table put_metadata ensure_database
    ensure_volume schema_key table_key get to_ascii_lowercase default_table_location
create_table-Written_example =
    create_table-Written world table_ident request with_schema table_row refl

update_table-Committed_example :
    (old : RwObject (Table toy)) × Committed world table_ident update old
      (touch 7 (record table_row {
        value = record table_row.value { metadata_location = metadata_path world table_ident };
      }))
      with_table
      (Updates.update_table world table_ident update with_table).1
unfolding Updates.update_table table_object_store volume_for_table volume_of_table
    volume_object_store commit_table commit_metadata put_metadata assert_all assert
    convert_add_schema_update_to_lowercase committed table_key get metadata_builder
    to_ascii_lowercase stored_table
update_table-Committed_example = update_table-Committed world table_ident update with_table _ refl

abbrev commands : List (World toy × Command toy)
commands =
    (world, Command.create_volume (codes "v") volume)
    ∷ (world, Command.create_database (codes "d") database)
    ∷ (world, Command.create_schema mixed_ident schema)
    ∷ (world, Command.drop_database (codes "d"))
    ∷ (world, Command.get_schema schema_ident)
    ∷ []

executes-new_example : executes commands new ≡ promises commands empty_catalog
executes-new_example = executes-new commands

abbrev reader : Reader toy
reader = record {
  strip_prefix = λ t. t;
  get = λ store path. done path;
  bytes = λ t. done t;
  value_from_slice = λ t. done null;
  to_vec = λ v. done [];
  metadata_from_slice = λ t. done metadata;
}

abbrev config : MetastoreBootstrapConfig toy
config = record {
  volumes = record { volume = volume; database = some (codes "d"); should_refresh = false } ∷ [];
  databases = [];
  schemas = record { database = codes "d"; schema = codes "s" } ∷ [];
  tables =
      record {
        database = codes "d";
        schema = codes "s";
        table = codes "t";
        metadata_location = codes "m.json";
      }
      ∷ [];
}

apply-again_example :
    let t = (Bootstrap.apply world reader config new).1 in
    Has config t × Grows new t × (Bootstrap.apply world reader config t ≡ (Config.ok tt, t))
unfolding Bootstrap.apply Bootstrap.for_each Bootstrap.apply_volume Bootstrap.make_volume
    Bootstrap.volume_database Bootstrap.ensure_database Bootstrap.make_database
    Bootstrap.ensure_schema Bootstrap.apply_table Bootstrap.add_table Bootstrap.register_entry
    Bootstrap.read_metadata Bootstrap.stored_table patch_missing_operation get_mut as_array_mut
    Volumes.get_volume Volumes.create_volume Databases.get_database Databases.create_database
    Databases.get_schema Databases.create_schema Tables.table_exists Tables.register_table
    get_object_store volume_type_store new get insert put_volume put_database put_schema put_table
    schema_key table_key to_ascii_lowercase ensure_volume
apply-again_example = apply-again world world reader reader config new _ _ refl (Grows-refl _)

apply-bootstrap_example :
    (t : Metastore toy) × (Bootstrap.apply world reader bootstrap with_table ≡ (Config.ok tt, t))
    × Has bootstrap t
apply-bootstrap_example = apply-bootstrap world reader with_table
