-- ===== src/Query/Partition/RoundTrip.antt =====
-- PARTITION BY expressions and the fields that they are read as (crates/executor/src/query.rs).
use rustice.Prelude.{
  ℕ, ◌+◌, ◌-◌, ◌^◌, ◌≤◌, ◌<◌, min, Bool, true, ◌&&◌, some, List, [], ◌∷◌, Text, text_eq, codes, leb,
  length, show_usize, parse_usize-show_usize, ◌≡◌, refl, arith,
}
use rustice.Query.Error.{Result, ok}
use rustice.Query.Names.{identifier, unquoted}
use rustice.Query.Partition.{
  Expr, name, tuple, call, number, other, Exprs, nil, cons, arguments, end, unnamed, Transform,
  identity, year, month, day, hour, bucket, truncate, void, SchemaField, PartitionField,
  PartitionSpec, last_part, u32_bound, parse_u32, partition_field_name, extract_partition_col,
  extract_partition_n_col, column_name_from_expr, u32_from_expr, transform_by_name, parse_call,
  parse_partition_field_expr, find_field, partition_field_id, partition_field, partition_fields,
  flatten_partition_exprs, build_iceberg_partition_spec, expr_list,
}

-- `name(column)`, `name(n, column)`
abbrev of_column : Text → Text → Expr
of_column fn_name col =
    call (identifier (unquoted fn_name) ∷ []) (arguments (unnamed (name (unquoted col)) end))

abbrev of_number : Text → ℕ → Text → Expr
of_number fn_name n col =
    call (identifier (unquoted fn_name) ∷ [])
      (arguments (unnamed (number (show_usize n)) (unnamed (name (unquoted col)) end)))

-- The expression that a field is written as; `void` has none.
abbrev pub expr_of : Text → Transform → Expr
expr_of col identity = name (unquoted col)
expr_of col year = of_column (codes "year") col
expr_of col month = of_column (codes "month") col
expr_of col day = of_column (codes "day") col
expr_of col hour = of_column (codes "hour") col
expr_of col (bucket n) = of_number (codes "bucket") n col
expr_of col (truncate n) = of_number (codes "truncate") n col
expr_of col void = other []

abbrev pub IsWritable : Transform → Type 0
IsWritable (bucket n) = n < u32_bound
IsWritable (truncate n) = n < u32_bound
IsWritable void = ⊥
IsWritable _ = Unit {0}

abbrev pub is_ascii_lower : Text → Bool
is_ascii_lower [] = true
is_ascii_lower (c ∷ s) = (leb b'a' c && leb c b'z') && is_ascii_lower s

parse_u32-show_usize : (n : ℕ) → n < u32_bound → parse_u32 (show_usize n) ≡ some n
unfolding parse_u32
parse_u32-show_usize n h = ground (arith, parse_usize-show_usize n (omega (arith, h)))

-- A column, its transform and its field in the schema
abbrev pub Entry : Type 0
Entry = Text × Transform × SchemaField

abbrev pub exprs_of : List Entry → Exprs
exprs_of [] = nil
exprs_of ((col, transform, source) ∷ es) = cons (expr_of col transform) (exprs_of es)

-- The fields of a partition, numbered from an id on
abbrev pub numbered : ℕ → List Entry → List PartitionField
numbered id [] = []
numbered id ((col, transform, source) ∷ es) =
    record {
      source_id = source.id;
      field_id = id;
      name = partition_field_name col transform;
      transform = transform;
    }
    ∷ numbered (id + 1) es

module _ (to_string : Expr → Text) (to_lowercase : Text → Text)
    (build : PartitionSpec → Result PartitionSpec)
    (lower : (s : Text) → is_ascii_lower s ≡ true → to_lowercase s ≡ s) where
  parse_expr_of :
      (col : Text) (t : Transform)
      → IsWritable t
      → parse_partition_field_expr to_string to_lowercase build (expr_of col t) ≡ ok (col, t)
  unfolding parse_partition_field_expr parse_call last_part transform_by_name extract_partition_col
      column_name_from_expr extract_partition_n_col u32_from_expr
  parse_expr_of col identity h = refl
  parse_expr_of col year h = rw (lower (codes "year") refl) refl
  parse_expr_of col month h = rw (lower (codes "month") refl) refl
  parse_expr_of col day h = rw (lower (codes "day") refl) refl
  parse_expr_of col hour h = rw (lower (codes "hour") refl) refl
  parse_expr_of col (bucket n) h =
      rw (lower (codes "bucket") refl) (rw (parse_u32-show_usize n h) refl)
  parse_expr_of col (truncate n) h =
      rw (lower (codes "truncate") refl) (rw (parse_u32-show_usize n h) refl)
  parse_expr_of col void h = elim h [ ]

  -- The columns stand in the schema, and the transforms can be written.
  abbrev pub AllFound : List SchemaField → List Entry → Type 0
  AllFound schema [] = Unit {0}
  AllFound schema ((col, transform, source) ∷ es) =
      IsWritable transform × (find_field col schema ≡ some source) × AllFound schema es

  partition_fields_lem :
      (schema : List SchemaField) (idx : ℕ) (es : List Entry)
      → AllFound schema es
      → idx + length es ≤ 2 ^ 31 - 1001
      → partition_fields to_string to_lowercase build schema idx (expr_list (exprs_of es))
        ≡ ok (numbered (1000 + idx) es)
  unfolding partition_fields partition_field partition_field_id
  partition_fields_lem schema idx [] h m = refl
  partition_fields_lem schema idx ((col, t, source) ∷ es) (w, found, h) m =
      let id : min (1000 + idx) (2 ^ 31 - 1) ≡ 1000 + idx = omega (arith, m) in
      let next : 1000 + (idx + 1) ≡ 1000 + idx + 1 = omega arith in
      rw (parse_expr_of col t w) (
        rw found (
          rw (partition_fields_lem schema (idx + 1) es h (omega (arith, m)))
            (rw id (rw next refl))))

  -- A list of columns under transforms is read as the partition of these fields, numbered from 1000 on,
  -- each with the id of the schema's first field that has the column's name in some case, where the
  -- columns are in the schema, the sizes are below 2^32 and the fields are few enough for the ids.
  pub build_iceberg_partition_spec-exprs_of :
      (schema : List SchemaField) (es : List Entry)
      → AllFound schema es
      → length es ≤ 2 ^ 31 - 1001
      → build_iceberg_partition_spec to_string to_lowercase build (tuple (exprs_of es)) schema
        ≡ build (record { spec_id = 0; fields = numbered 1000 es })
  unfolding build_iceberg_partition_spec flatten_partition_exprs
  build_iceberg_partition_spec-exprs_of schema es h m =
      rw (partition_fields_lem schema 0 es h (omega (arith, m))) refl
