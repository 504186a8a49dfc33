-- ===== src/Query/Partition.antt =====
-- `build_iceberg_partition_spec` (crates/executor/src/query.rs): the partition of a table from a PARTITION
-- BY expression. Of an expression of `sqlparser` the forms that the code looks at are kept.
pub mod RoundTrip
use rustice.Prelude.{
  ℕ, zero, suc, ◌+◌, ◌-◌, ◌^◌, min, Bool, true, false, not, Option, none, some, List, [], ◌∷◌, ◌++◌,
  ◌==◌, Text, text_eq, codes, ltb, if◌then◌else◌, show_usize, parse_usize, eq_ignore_ascii_case,
}
use rustice.Query.Error.{
  Result, ok, err, ok_or, invalid_partition_by_expression, partition_field_not_found_in_schema,
  ◌>>=◌,
}
use rustice.Query.Names.{Ident, ObjectNamePart, identifier, function}

mutual
  pub data Expr : Type 0 where
    name : Ident → Expr
    compound_identifier : List Ident → Expr
    nested : Expr → Expr
    tuple : Exprs → Expr
    call : List ObjectNamePart → FunctionArguments → Expr
    -- a number by its text, and another literal
    number other_value : Text → Expr
    other : Text → Expr

  pub data Exprs : Type 0 where
    nil : Exprs
    cons : Expr → Exprs → Exprs

  pub data FunctionArguments : Type 0 where
    arguments : FunctionArgs → FunctionArguments
    no_list : FunctionArguments

  pub data FunctionArgs : Type 0 where
    end : FunctionArgs
    unnamed : Expr → FunctionArgs → FunctionArgs
    other_arg : FunctionArgs → FunctionArgs

pub data Transform : Type 0 where
  identity year month day hour : Transform
  bucket truncate : ℕ → Transform
  void : Transform

-- A field of the schema, and one of the partition
pub record SchemaField : Type 0 where
  pub id : ℕ
  pub name : Text

pub record PartitionField : Type 0 where
  pub source_id : ℕ
  pub field_id : ℕ
  pub name : Text
  pub transform : Transform

pub record PartitionSpec : Type 0 where
  pub spec_id : ℕ
  pub fields : List PartitionField

abbrev pub expr_list : Exprs → List Expr
expr_list nil = []
expr_list (cons e es) = e ∷ expr_list es

unfoldable pub flatten_partition_exprs : Expr → List Expr
flatten_partition_exprs (tuple es) = expr_list es
flatten_partition_exprs (nested e) = flatten_partition_exprs e
flatten_partition_exprs (name i) = name i ∷ []
flatten_partition_exprs (compound_identifier is) = compound_identifier is ∷ []
flatten_partition_exprs (call n args) = call n args ∷ []
flatten_partition_exprs (number n) = number n ∷ []
flatten_partition_exprs (other_value v) = other_value v ∷ []
flatten_partition_exprs (other e) = other e ∷ []

-- `idents.last().map(|i| i.value.clone())`
unfoldable pub last_value : List Ident → Option Text
last_value [] = none
last_value (i ∷ []) = some i.value
last_value (i ∷ j ∷ is) = last_value (j ∷ is)

unfoldable pub last_part : List ObjectNamePart → Option Text
last_part [] = none
last_part (identifier i ∷ []) = some i.value
last_part (function f ∷ []) = none
last_part (p ∷ q ∷ ps) = last_part (q ∷ ps)

abbrev pub u32_bound : ℕ
u32_bound = 2 ^ 32

-- `parse::<u32>()`
unfoldable pub parse_u32 : Text → Option ℕ
parse_u32 s = elim (parse_usize s) [
  | none ↦ none
  | some n ↦ if ltb n u32_bound then some n else none
]

-- `format!("{}_year", col_name)` and the like
unfoldable pub partition_field_name : Text → Transform → Text
partition_field_name col_name identity = col_name
partition_field_name col_name year = col_name ++ codes "_year"
partition_field_name col_name month = col_name ++ codes "_month"
partition_field_name col_name day = col_name ++ codes "_day"
partition_field_name col_name hour = col_name ++ codes "_hour"
partition_field_name col_name (bucket n) = col_name ++ (codes "_bucket_" ++ show_usize n)
partition_field_name col_name (truncate n) = col_name ++ (codes "_trunc_" ++ show_usize n)
partition_field_name col_name void = col_name ++ codes "_void"

-- `schema.fields().iter().find(|f| f.name.eq_ignore_ascii_case(&col_name))`
unfoldable pub find_field : Text → List SchemaField → Option SchemaField
find_field col_name [] = none
find_field col_name (f ∷ fs) =
    if eq_ignore_ascii_case f.name col_name then some f else find_field col_name fs

-- `1000_i32.saturating_add(i32::try_from(idx).unwrap_or(i32::MAX))`
unfoldable pub partition_field_id : ℕ → ℕ
partition_field_id idx = min (1000 + idx) (2 ^ 31 - 1)

-- What it takes from other crates: how an expression is printed, `str::to_lowercase`, and the end of the
-- builder of a `PartitionSpec`.
module _ (to_string : Expr → Text) (to_lowercase : Text → Text)
    (build : PartitionSpec → Result PartitionSpec) where
  unfoldable pub column_name_from_expr : Expr → Expr → Result Text
  column_name_from_expr (name i) parent = ok i.value
  column_name_from_expr (compound_identifier is) parent =
      ok_or (invalid_partition_by_expression (to_string parent)) (last_value is)
  column_name_from_expr e parent = err (invalid_partition_by_expression (to_string parent))

  unfoldable pub u32_from_expr : Expr → Expr → Result ℕ
  u32_from_expr (number n) parent =
      ok_or (invalid_partition_by_expression (to_string parent)) (parse_u32 n)
  u32_from_expr e parent = err (invalid_partition_by_expression (to_string parent))

  unfoldable pub extract_partition_col : FunctionArgs → Expr → Result Text
  extract_partition_col (unnamed e end) parent = column_name_from_expr e parent
  extract_partition_col args parent = err (invalid_partition_by_expression (to_string parent))

  unfoldable pub extract_partition_n_col : FunctionArgs → Expr → Result (ℕ × Text)
  extract_partition_n_col (unnamed e (unnamed f end)) parent =
      u32_from_expr e parent >>= λ n. column_name_from_expr f parent >>= λ col. ok (n, col)
  extract_partition_n_col (unnamed e (other_arg end)) parent =
      u32_from_expr e parent >>= λ n. err (invalid_partition_by_expression (to_string parent))
  extract_partition_n_col args parent = err (invalid_partition_by_expression (to_string parent))

  abbrev column : Transform → Result Text → Result (Text × Transform)
  column transform r = r >>= λ col. ok (col, transform)

  abbrev sized : (ℕ → Transform) → Result (ℕ × Text) → Result (Text × Transform)
  sized transform r = r >>= λ p. ok (p.1, transform p.0)

  -- The transform by the function's name
  unfoldable pub transform_by_name : Text → FunctionArgs → Expr → Result (Text × Transform)
  transform_by_name fn_name args expr =
      if fn_name == codes "year"
      then column year (extract_partition_col args expr)
      else if fn_name == codes "month"
      then column month (extract_partition_col args expr)
      else if fn_name == codes "day"
      then column day (extract_partition_col args expr)
      else if fn_name == codes "hour"
      then column hour (extract_partition_col args expr)
      else if fn_name == codes "bucket"
      then sized bucket (extract_partition_n_col args expr)
      else if fn_name == codes "truncate"
      then sized truncate (extract_partition_n_col args expr)
      else err (invalid_partition_by_expression (to_string expr))

  unfoldable pub parse_call : Option Text → FunctionArguments → Expr → Result (Text × Transform)
  parse_call none args expr = err (invalid_partition_by_expression (to_string expr))
  parse_call (some n) no_list expr = err (invalid_partition_by_expression (to_string expr))
  parse_call (some n) (arguments args) expr = transform_by_name (to_lowercase n) args expr

  unfoldable pub parse_partition_field_expr : Expr → Result (Text × Transform)
  parse_partition_field_expr (name i) = ok (i.value, identity)
  parse_partition_field_expr (compound_identifier is) =
      column identity (
        ok_or (invalid_partition_by_expression (to_string (compound_identifier is)))
          (last_value is))
  parse_partition_field_expr (call n args) = parse_call (last_part n) args (call n args)
  parse_partition_field_expr e = err (invalid_partition_by_expression (to_string e))

  unfoldable pub partition_field : List SchemaField → ℕ → Text × Transform → Result PartitionField
  partition_field schema idx (col_name, transform) =
      ok_or (partition_field_not_found_in_schema col_name) (find_field col_name schema)
      >>= λ source. ok (record {
        source_id = source.id;
        field_id = partition_field_id idx;
        name = partition_field_name col_name transform;
        transform = transform;
      })

  -- The loop over the expressions, from an index on
  unfoldable pub partition_fields : List SchemaField → ℕ → List Expr → Result (List PartitionField)
  partition_fields schema idx [] = ok []
  partition_fields schema idx (e ∷ es) = parse_partition_field_expr e >>= λ parsed.
      partition_field schema idx parsed >>= λ field.
      partition_fields schema (idx + 1) es >>= λ rest. ok (field ∷ rest)

  unfoldable pub build_iceberg_partition_spec : Expr → List SchemaField → Result PartitionSpec
  build_iceberg_partition_spec partition_by schema =
      partition_fields schema 0 (flatten_partition_exprs partition_by) >>= λ fields.
      build (record { spec_id = 0; fields = fields })
