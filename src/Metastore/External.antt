-- ===== src/Metastore/External.antt =====
-- What the metastore takes from other crates: object stores and their builder (`object_store`),
-- table metadata (`iceberg_rust`), the file system, the clock and `Uuid::new_v4`.
use rustice.Prelude.{ℕ, Bool, Option, List, Text}
use rustice.Prelude.HashMap.{HashMap}
use rustice.Metastore.Error.{Outcome}

-- The fields of a schema, with the nesting that the code looks into.
mutual
  pub data FieldType : Type 0 where
    struct : Fields → FieldType
    other : Text → FieldType

  pub data Fields : Type 0 where
    nil : Fields
    cons : StructField → Fields → Fields

  pub data StructField : Type 0 where
    -- id, name, required, type, doc
    field : ℕ → Text → Bool → FieldType → Option Text → StructField

pub record IcebergSchema : Type 0 where
  pub schema_id : ℕ
  pub fields : List StructField

-- A partition spec and a sort order are read by the ids that the code uses.
pub record PartitionSpec : Type 0 where
  pub spec_id : ℕ
  pub field_ids : List ℕ

pub record SortOrder : Type 0 where
  pub order_id : ℕ

-- What the code sets on a `TableMetadataBuilder`; the format is always V2.
pub record MetadataBuilder : Type 0 where
  pub schemas : HashMap ℕ IcebergSchema
  pub current_schema_id : ℕ
  pub location : Text
  pub last_updated_ms : ℕ
  pub last_column_id : ℕ
  pub partition_specs : Option (HashMap ℕ PartitionSpec)
  pub default_spec_id : Option ℕ
  pub last_partition_id : Option ℕ
  pub sort_orders : Option (HashMap ℕ SortOrder)
  pub default_sort_order_id : Option ℕ

pub data TableRequirement : Type 0 where
  assert_create : TableRequirement
  assert_table_uuid assert_current_schema_id assert_default_sort_order_id : ℕ → TableRequirement
  -- the reference, and the snapshot that it names
  assert_ref_snapshot_id : Text → Option ℕ → TableRequirement
  assert_default_spec_id assert_last_assigned_partition_id : ℕ → TableRequirement
  assert_last_assigned_field_id : ℕ → TableRequirement

pub record External : Type 1 where
  pub ObjectStore : Type 0
  pub ClientOptions : Type 0
  pub S3Builder : Type 0
  -- `AmazonS3Builder::new().with_conditional_put(ETagMatch)`
  pub new_builder : S3Builder
  pub with_client_options : ClientOptions → S3Builder → S3Builder
  pub with_region : Text → S3Builder → S3Builder
  pub with_bucket_name : Text → S3Builder → S3Builder
  pub with_endpoint : Text → S3Builder → S3Builder
  pub with_allow_http : Bool → S3Builder → S3Builder
  pub with_access_key_id : Text → S3Builder → S3Builder
  pub with_secret_access_key : Text → S3Builder → S3Builder
  pub with_token : Text → S3Builder → S3Builder
  pub build_s3 : S3Builder → Outcome ObjectStore
  pub TableMetadata : Type 0
  pub has_snapshots : TableMetadata → Bool
  pub metadata_location : TableMetadata → Text
  pub table_uuid : TableMetadata → ℕ
  pub current_schema_id : TableMetadata → ℕ
  pub default_sort_order_id : TableMetadata → ℕ
  pub ref_snapshot_id : TableMetadata → Text → Option ℕ
  pub default_spec_id : TableMetadata → ℕ
  pub last_partition_id : TableMetadata → ℕ
  pub last_column_id : TableMetadata → ℕ
  pub build_metadata : MetadataBuilder → Outcome TableMetadata
  -- The updates other than `AddSchema`.
  pub OtherUpdate : Type 0
  -- `Schema::builder()…build()`
  pub build_schema : IcebergSchema → Outcome IcebergSchema
  -- `str::to_lowercase`, over Unicode
  pub to_lowercase : Text → Text
  pub SettingsConfig : Type 0

pub data IcebergUpdate (x : External) : Type 0 where
  add_schema : IcebergSchema → Option ℕ → IcebergUpdate x
  other_update : x.OtherUpdate → IcebergUpdate x

-- What the world answers during one call of a method.
pub record World (x : External) : Type 0 where
  pub now : ℕ
  pub now_rfc3339 : Text
  pub new_uuid : Text
  pub create_dir_all : Text → Outcome (Unit {0})
  pub local_file_system : Text → Outcome x.ObjectStore
  -- a fresh store in memory
  pub in_memory : x.ObjectStore
  pub to_vec : x.TableMetadata → Outcome Text
  pub put : x.ObjectStore → Text → Text → Outcome (Unit {0})
  pub apply_table_updates : x.TableMetadata → List (IcebergUpdate x) → Outcome x.TableMetadata
