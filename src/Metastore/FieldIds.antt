-- ===== src/Metastore/FieldIds.antt =====
-- `max_field_id` (crates/catalog-metastore/src/metastore.rs) against a list of the ids that it looks at.
use rustice.Prelude.{ℕ, max, List, [], ◌∷◌, ◌++◌, map, ◌≡◌, refl, arith}
use rustice.Metastore.External.{
  IcebergSchema, StructField, field, Fields, nil, cons, FieldType, struct, other,
}
use rustice.Metastore.Metadata.{recurse, recurse_type, recurse_fields, max_or_zero, max_field_id}

-- The ids of a field and of every field inside its structs, at any depth.
unfoldable mutual
  pub ids : StructField → List ℕ
  ids (field id name required type doc) = id ∷ ids_of_type type

  ids_of_type : FieldType → List ℕ
  ids_of_type (struct inner) = ids_of_fields inner
  ids_of_type (other t) = []

  ids_of_fields : Fields → List ℕ
  ids_of_fields nil = []
  ids_of_fields (cons child rest) = ids child ++ ids_of_fields rest

unfoldable pub schema_ids : List StructField → List ℕ
schema_ids [] = []
schema_ids (f ∷ fs) = ids f ++ schema_ids fs

max_or_zero-append : (a b : List ℕ) → max_or_zero (a ++ b) ≡ max (max_or_zero a) (max_or_zero b)
unfolding max_or_zero
max_or_zero-append [] b = omega arith
max_or_zero-append (n ∷ a) b = omega (arith, max_or_zero-append a b)

mutual
  unfolding recurse ids max_or_zero

  recurse_lem : (f : StructField) → recurse f ≡ max_or_zero (ids f)
  recurse_lem (field id name required type doc) = omega (arith, recurse_type_lem type id)

  recurse_type_lem :
      (t : FieldType) (n : ℕ) → recurse_type t n ≡ max n (max_or_zero (ids_of_type t))
  recurse_type_lem (struct inner) n = recurse_fields_lem inner n
  recurse_type_lem (other t) n = omega arith

  recurse_fields_lem :
      (fs : Fields) (n : ℕ) → recurse_fields fs n ≡ max n (max_or_zero (ids_of_fields fs))
  recurse_fields_lem nil n = omega arith
  recurse_fields_lem (cons child rest) n = omega (
    arith,
    recurse_lem child,
    recurse_fields_lem rest (max n (recurse child)),
    max_or_zero-append (ids child) (ids_of_fields rest),
  )

max_of_map : (fs : List StructField) → max_or_zero (map recurse fs) ≡ max_or_zero (schema_ids fs)
unfolding max_or_zero schema_ids
max_of_map [] = refl
max_of_map (f ∷ fs) =
    omega (arith, max_of_map fs, recurse_lem f, max_or_zero-append (ids f) (schema_ids fs))

-- The last column id that a new table's metadata gets is the largest of the ids of the schema's
-- fields and of all fields inside their structs, at any depth, and 0 if there is none.
max_field_id-ids :
    (schema : IcebergSchema) → max_field_id schema ≡ max_or_zero (schema_ids schema.fields)
unfolding max_field_id
max_field_id-ids schema = max_of_map schema.fields
