-- ===== src/Metastore/Metadata.antt =====
-- The pure helpers of table creation and update in crates/catalog-metastore/src/metastore.rs.
use rustice.Prelude.{ℕ, max, Option, none, some, List, [], ◌∷◌, map, Text, text_eq, codes}
use rustice.Prelude.HashMap.{insert}
use rustice.Metastore.Error.{Result, ok, context, iceberg_spec, ◌>>=◌}
use rustice.Metastore.External.{
  External, IcebergSchema, StructField, field, Fields, nil, cons, FieldType, struct, other,
  PartitionSpec, SortOrder, MetadataBuilder, IcebergUpdate, add_schema, other_update,
}
use rustice.Metastore.Models.{Properties}

-- `recurse` of `max_field_id`: the largest id of a field and of the fields inside its structs.
unfoldable mutual
  pub recurse : StructField → ℕ
  recurse (field id name required type doc) = recurse_type type id

  pub recurse_type : FieldType → ℕ → ℕ
  recurse_type (struct inner) max_id = recurse_fields inner max_id
  recurse_type (other t) max_id = max_id

  pub recurse_fields : Fields → ℕ → ℕ
  recurse_fields nil max_id = max_id
  recurse_fields (cons child rest) max_id = recurse_fields rest (max max_id (recurse child))

-- `iter().max().unwrap_or(0)`
unfoldable pub max_or_zero : List ℕ → ℕ
max_or_zero [] = 0
max_or_zero (n ∷ ns) = max n (max_or_zero ns)

unfoldable pub max_field_id : IcebergSchema → ℕ
max_field_id schema = max_or_zero (map recurse schema.fields)

with_partition_spec : Option PartitionSpec → MetadataBuilder → MetadataBuilder
with_partition_spec none b = b
with_partition_spec (some spec) b = record b {
  partition_specs = some ((spec.spec_id, spec) ∷ []);
  default_spec_id = some spec.spec_id;
  last_partition_id = some (max_or_zero spec.field_ids);
}

with_sort_order : Option SortOrder → MetadataBuilder → MetadataBuilder
with_sort_order none b = b
with_sort_order (some order) b = record b {
  sort_orders = some ((order.order_id, order) ∷ []);
  default_sort_order_id = some order.order_id;
}

-- What `create_table` sets on the builder.
unfoldable pub metadata_builder :
    ℕ → IcebergSchema → Text → Option PartitionSpec → Option SortOrder → MetadataBuilder
unfolding with_partition_spec with_sort_order
metadata_builder now schema location spec order = with_sort_order order (
    with_partition_spec spec (record {
      schemas = (schema.schema_id, schema) ∷ [];
      current_schema_id = schema.schema_id;
      location = location;
      last_updated_ms = now;
      last_column_id = max_field_id schema;
      partition_specs = none;
      default_spec_id = none;
      last_partition_id = none;
      sort_orders = none;
      default_sort_order_id = none;
    }))

-- `update_properties_timestamps`
unfoldable pub update_properties_timestamps : Text → Properties → Properties
update_properties_timestamps now properties =
    insert (codes "updated_at") now (insert (codes "created_at") now properties)

unfoldable pub lower_field : (x : External) → StructField → StructField
lower_field x (field id name required type doc) = field id (x.to_lowercase name) required type doc

-- `convert_schema_fields_to_lowercase`
unfoldable pub convert_schema_fields_to_lowercase :
    (x : External) → IcebergSchema → Result IcebergSchema
convert_schema_fields_to_lowercase x schema = context iceberg_spec (
    x.build_schema
      (record { schema_id = schema.schema_id; fields = map (lower_field x) schema.fields }))

convert_update : {x : External} → IcebergUpdate x → Result (IcebergUpdate x)
convert_update {x} (add_schema schema last_column_id) =
    convert_schema_fields_to_lowercase x schema >>= λ lowered.
    ok (add_schema lowered last_column_id)
convert_update (other_update u) = ok (other_update u)

-- `convert_add_schema_update_to_lowercase`
unfoldable pub convert_add_schema_update_to_lowercase :
    {x : External} → List (IcebergUpdate x) → Result (List (IcebergUpdate x))
unfolding convert_update
convert_add_schema_update_to_lowercase [] = ok []
convert_add_schema_update_to_lowercase (u ∷ us) =
    convert_update u >>= λ v. convert_add_schema_update_to_lowercase us >>= λ vs. ok (v ∷ vs)
