-- ===== src/Functions/Arrays/Sets.antt =====
-- Array functions that compare items (crates/functions/src/semi-structured/array: array_except.rs,
-- array_intersection.rs, array_distinct.rs, array_compact.rs). The parameters are the tests of equality
-- and the reader of `serde_json`; a set of values is the list of what was inserted.
pub mod Laws
use rustice.Prelude.{Bool, true, false, Option, none, some, Text, if◌then◌else◌, not, ◌||◌}
use rustice.Functions.Json.{Value, null, bool, number, string, array, object, Items, nil, cons}
use rustice.Functions.Arrays.{Result, ok, err, failed_to_deserialize_json, input_must_be_json_array}

-- `filter`, then `collect`
unfoldable pub filter_items : (Value → Bool) → Items → Items
filter_items keeps nil = nil
filter_items keeps (cons v vs) =
    let rest = filter_items keeps vs in if keeps v then cons v rest else rest

unfoldable pub is_null : Value → Bool
is_null null = true
is_null _ = false

-- `compact_array`, when the array has been read.
unfoldable pub compact_value : Value → Result Items
compact_value (array vs) = ok (filter_items (λ v. not (is_null v)) vs)
compact_value other = err input_must_be_json_array

unfoldable pub compact_array : (Text → Option Value) → Text → Result Items
compact_array from_str array_str = elim (from_str array_str) [
  | none ↦ err failed_to_deserialize_json
  | some v ↦ compact_value v
]

module _ (eq : Value → Value → Bool) where
  -- `contains` of a slice, and of a set
  unfoldable pub contains : Items → Value → Bool
  contains nil x = false
  contains (cons v vs) x = eq v x || contains vs x

  unfoldable pub except_values : Value → Value → Option Value
  except_values (array vs) (array ws) = some (array (filter_items (λ v. not (contains ws v)) vs))
  except_values _ _ = none

  unfoldable pub intersection_values : Value → Value → Option Value
  intersection_values (array vs) (array ws) = some (array (filter_items (contains vs) ws))
  intersection_values _ _ = none

  -- The loop of `distinct_array` from a set of seen values on: what it pushes.
  unfoldable pub distinct_from : Items → Items → Items
  distinct_from seen nil = nil
  distinct_from seen (cons v vs) = elim (contains seen v) [
    | true ↦ distinct_from seen vs
    | false ↦ cons v (distinct_from (cons v seen) vs)
  ]

  unfoldable pub distinct_value : Value → Option Items
  distinct_value (array vs) = some (distinct_from nil vs)
  distinct_value other = none

  unfoldable pub distinct_array : (Text → Option Value) → Text → Result (Option Items)
  distinct_array from_slice text = elim (from_slice text) [
    | none ↦ err failed_to_deserialize_json
    | some v ↦ ok (distinct_value v)
  ]

  -- Two arrays are read, the first one first, when both are there.
  unfoldable pub of_both :
      (Text → Option Value)
      → (Value → Value → Option Value)
      → Option Text
      → Option Text
      → Result (Option Value)
  of_both from_slice combine (some arr1) (some arr2) = elim (from_slice arr1) [
    | none ↦ err failed_to_deserialize_json
    | some v ↦ elim (from_slice arr2) [
      | none ↦ err failed_to_deserialize_json
      | some w ↦ ok (combine v w)
    ]
  ]
  of_both from_slice combine _ _ = ok none

  unfoldable pub array_except :
      (Text → Option Value) → Option Text → Option Text → Result (Option Value)
  array_except from_slice array1_str array2_str =
      of_both from_slice except_values array1_str array2_str

  unfoldable pub array_intersection :
      (Text → Option Value) → Option Text → Option Text → Result (Option Value)
  array_intersection from_slice array1_str array2_str =
      of_both from_slice intersection_values array1_str array2_str
