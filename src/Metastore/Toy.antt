-- ===== src/Metastore/Toy.antt =====
-- A small metastore that runs: object stores that are texts, a world, and a state with a table.
use rustice.Prelude.{
  true, false, ◌≡◌, refl, none, List, [], ◌∷◌, Text, codes, text_eq, pair_eq, triple_eq, join,
  nat_eq, arith, to_ascii_lowercase, text_beq_iff,
}
use rustice.Prelude.HashMap.{get}
use rustice.Metastore.Error.{done}
use rustice.Metastore.External.{
  External, World, MetadataBuilder, field, FieldType, assert_current_schema_id,
}
use rustice.Metastore.Models.{Database, Schema, SchemaIdent, TableIdent, RwObject, new_row}
use rustice.Metastore.Volume.{Volume, memory}
use rustice.Metastore.Requirements.{TableCreateRequest, TableUpdate}
use rustice.Metastore.State.{Metastore, Table}
use rustice.Metastore.Metadata.{metadata_builder}
use rustice.Metastore.Calls.{Call}
use rustice.Metastore.Tables.{metadata_path, stored_table}
use rustice.Metastore.Consistency.{Unchecked, IsConsistent}
use rustice.Metastore.SchemaCase.{HasLowerKeys}

-- An object store is a text, and a table's metadata is what its builder was given.
abbrev pub toy : External
toy = record {
  ObjectStore = Text;
  ClientOptions = Unit {0};
  S3Builder = List Text;
  new_builder = [];
  with_client_options = λ o b. b;
  with_region = λ t b. t ∷ b;
  with_bucket_name = λ t b. t ∷ b;
  with_endpoint = λ t b. t ∷ b;
  with_allow_http = λ t b. b;
  with_access_key_id = λ t b. t ∷ b;
  with_secret_access_key = λ t b. t ∷ b;
  with_token = λ t b. t ∷ b;
  build_s3 = λ b. done (join [] b);
  TableMetadata = MetadataBuilder;
  has_snapshots = λ m. false;
  metadata_location = λ m. m.location;
  table_uuid = λ m. 1;
  current_schema_id = λ m. m.current_schema_id;
  default_sort_order_id = λ m. 0;
  ref_snapshot_id = λ m name. none;
  default_spec_id = λ m. 0;
  last_partition_id = λ m. 0;
  last_column_id = λ m. m.last_column_id;
  build_metadata = λ b. done b;
  OtherUpdate = Text;
  build_schema = λ s. done s;
  to_lowercase = λ t. t;
  SettingsConfig = Unit {0};
}

abbrev pub world : World toy
world = record {
  now = 7;
  now_rfc3339 = codes "now";
  new_uuid = codes "u1";
  create_dir_all = λ p. done tt;
  local_file_system = λ p. done p;
  in_memory = codes "mem";
  to_vec = λ m. done m.location;
  put = λ store path bytes. done tt;
  apply_table_updates = λ m us. done m;
}

abbrev pub volume : Volume toy
volume = record { ident = codes "v"; volume = memory }

abbrev pub database : Database
database = record {
  ident = codes "d";
  properties = none;
  volume = codes "v";
  should_refresh = false;
}

abbrev pub schema_ident : SchemaIdent
schema_ident = record { schema = codes "s"; database = codes "d" }

abbrev pub mixed_ident : SchemaIdent
mixed_ident = record { schema = codes "S"; database = codes "d" }

abbrev pub schema : Schema
schema = record { ident = schema_ident; properties = none }

abbrev pub table_ident : TableIdent
table_ident = record { table = codes "t"; schema = codes "s"; database = codes "d" }

abbrev pub request : TableCreateRequest
request = record {
  ident = table_ident;
  properties = none;
  format = none;
  location = none;
  schema = record {
    schema_id = 0;
    fields = field 1 (codes "a") true (FieldType.other (codes "int")) none ∷ [];
  };
  partition_spec = none;
  sort_order = none;
  stage_create = none;
  volume_ident = none;
  is_temporary = none;
}

abbrev pub update : TableUpdate toy
update = record { requirements = assert_current_schema_id 0 ∷ []; updates = [] }

abbrev pub calls : List (World toy × Call toy)
calls =
    (world, Call.create_volume (codes "v") volume)
    ∷ (world, Call.create_database (codes "d") database)
    ∷ (world, Call.create_schema schema_ident schema)
    ∷ (world, Call.create_table table_ident request)
    ∷ []

abbrev pub metadata : MetadataBuilder
metadata = metadata_builder 7 request.schema (codes "d/s/t") none none

abbrev pub table_row : RwObject (Table toy)
table_row = new_row 7 (
    stored_table world table_ident request (codes "v") (codes "d/s/t") metadata
      (metadata_path world table_ident))

-- A volume, a database in it and a schema in that.
abbrev pub with_schema : Metastore toy
with_schema = record {
  volumes = (codes "v", new_row 7 volume) ∷ [];
  databases = (codes "d", new_row 7 database) ∷ [];
  schemas = ((codes "d", codes "s"), new_row 7 schema) ∷ [];
  tables = [];
  object_store_cache = (codes "v", codes "mem") ∷ [];
  settings_config = none;
  written = [];
}

-- And a table in the schema.
abbrev pub with_table : Metastore toy
with_table = record with_schema { tables = ((codes "d", codes "s", codes "t"), table_row) ∷ [] }

lower_d : to_ascii_lowercase (codes "d") ≡ codes "d"
unfolding to_ascii_lowercase
lower_d = refl

lower_s : to_ascii_lowercase (codes "s") ≡ codes "s"
unfolding to_ascii_lowercase
lower_s = refl

pub with_table-HasLowerKeys : HasLowerKeys with_table
unfolding get
with_table-HasLowerKeys = record {
  lower = λ d n t there.
      ground
        (arith, there, text_beq_iff (codes "d") d, text_beq_iff (codes "s") n, lower_d, lower_s);
}

pub with_table-IsConsistent : {u : Unchecked} → IsConsistent u with_table
unfolding get
with_table-IsConsistent = record {
  schema_parent = λ d n there. ground (arith, there, text_beq_iff (codes "d") d);
  table_parent =
      λ d n t there. ground (arith, there, text_beq_iff (codes "d") d, text_beq_iff (codes "s") n);
  database_volume = λ d row there. ground (arith, there);
  database_ident = λ d row there. ground (arith, there, text_beq_iff (codes "d") d);
}

-- A table registered in a schema that is not there, and a database moved to such a volume
abbrev pub unchecked_calls : List (World toy × Call toy)
unchecked_calls =
    (world, Call.create_volume (codes "v") volume)
    ∷ (world, Call.create_database (codes "d") database)
    ∷ (world, Call.create_schema schema_ident schema)
    ∷ (world, Call.create_table table_ident request)
    ∷ (world, Call.register_table (record table_ident { schema = codes "gone" }) table_row.value)
    ∷ (world, Call.update_database (codes "d") (record database { volume = codes "w" }))
    ∷ []
