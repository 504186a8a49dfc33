-- ===== src/Query/Error.antt =====
-- The errors of statements that are modelled (crates/executor/src/error.rs).
use rustice.Prelude.{Text, Option, none, some}
use rustice.Catalog.Method

pub data OperationOn : Type 0 where
  table_drop table_show schema_drop schema_show database_drop unknown : OperationOn

pub data Error : Type 0 where
  data_fusion : Text → Error
  -- `DataFusionError::External` of an error of the catalogs
  external : Method.Error → Error
  only_use_with_variables : Error
  invalid_table_identifier invalid_schema_identifier invalid_database_identifier : Text → Error
  drop_database : Method.Error → Error
  only_drop_statements only_create_schema_statements : Error
  database_not_found : Text → Error
  catalog_not_found : OperationOn → Text → Error
  -- the schema, then the database
  schema_not_found_in_database : OperationOn → Text → Text → Error
  -- the table, the schema, the database
  table_not_found_in_schema_in_database : OperationOn → Text → Text → Text → Error
  object_already_exists : Text → Error
  invalid_partition_by_expression : Text → Error
  partition_field_not_found_in_schema : Text → Error

pub data Result {ℓ} (A : Type ℓ) : Type ℓ where
  ok : A → Result A
  err : Error → Result A

-- `ok_or_else`, and `context` on an option
abbrev pub ok_or {ℓ} : {A : Type ℓ} → Error → Option A → Result A
ok_or e none = err e
ok_or e (some a) = ok a

infixl 5 ◌>>=◌
abbrev pub ◌>>=◌ {ℓ κ} : {A : Type ℓ} {B : Type κ} → Result A → (A → Result B) → Result B
ok a >>= f = f a
err e >>= f = err e
