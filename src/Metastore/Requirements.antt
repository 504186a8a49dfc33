-- ===== src/Metastore/Requirements.antt =====
-- crates/catalog-metastore/src/models/table.rs: the requirements that a commit states, and the
-- request that creates a table.
use rustice.Prelude.{
  ℕ, Bool, Option, none, some, List, [], ◌∷◌, Text, codes, nat_beq, is_some, if◌then◌else◌,
}
use rustice.Metastore.Error.{Result, ok, err, table_data_exists, table_requirement_failed, ◌>>=◌}
use rustice.Metastore.External.{
  External, IcebergSchema, PartitionSpec, SortOrder, IcebergUpdate, TableRequirement, assert_create,
  assert_table_uuid, assert_current_schema_id, assert_default_sort_order_id, assert_ref_snapshot_id,
  assert_default_spec_id, assert_last_assigned_partition_id, assert_last_assigned_field_id,
}
use rustice.Metastore.Models.{TableIdent, TableFormat, Properties, VolumeIdent}

pub record TableCreateRequest : Type 0 where
  pub ident : TableIdent
  pub properties : Option Properties
  pub format : Option TableFormat
  pub location : Option Text
  pub schema : IcebergSchema
  pub partition_spec : Option PartitionSpec
  pub sort_order : Option SortOrder
  pub stage_create : Option Bool
  pub volume_ident : Option VolumeIdent
  pub is_temporary : Option Bool

pub record TableUpdate (x : External) : Type 0 where
  pub requirements : List TableRequirement
  pub updates : List (IcebergUpdate x)

require_eq : ℕ → ℕ → Text → Result (Unit {0})
require_eq a b message = if nat_beq a b then ok tt else err (table_requirement_failed message)

-- `AssertRefSnapshotId`: what the reference names, and what it should name.
require_ref : Option ℕ → Option ℕ → Result (Unit {0})
require_ref none (some id) = err (table_requirement_failed (codes "Table ref not found"))
require_ref (some actual) (some id) =
    require_eq actual id (codes "Table ref snapshot id does not match")
require_ref actual none =
    if is_some actual
    then err (table_requirement_failed (codes "Table ref already exists"))
    else ok tt

-- `TableRequirementExt::assert`
unfoldable pub assert : (x : External) → TableRequirement → x.TableMetadata → Result (Unit {0})
unfolding require_eq require_ref
assert x assert_create m =
    if x.has_snapshots m then err (table_data_exists (x.metadata_location m)) else ok tt
assert x (assert_table_uuid uuid) m =
    require_eq (x.table_uuid m) uuid (codes "Table uuid does not match")
assert x (assert_current_schema_id id) m =
    require_eq (x.current_schema_id m) id (codes "Table current schema id does not match")
assert x (assert_default_sort_order_id id) m =
    require_eq (x.default_sort_order_id m) id (codes "Table default sort order id does not match")
assert x (assert_ref_snapshot_id name snapshot) m = require_ref (x.ref_snapshot_id m name) snapshot
assert x (assert_default_spec_id id) m =
    require_eq (x.default_spec_id m) id (codes "Table default spec id does not match")
assert x (assert_last_assigned_partition_id id) m =
    require_eq (x.last_partition_id m) id (codes "Table last assigned partition id does not match")
assert x (assert_last_assigned_field_id id) m =
    require_eq (x.last_column_id m) id (codes "Table last assigned field id does not match")

-- `try_for_each(|req| req.assert(&metadata))`
unfoldable pub assert_all :
    (x : External) → List TableRequirement → x.TableMetadata → Result (Unit {0})
assert_all x [] m = ok tt
assert_all x (r ∷ rs) m = assert x r m >>= λ _. assert_all x rs m
