-- ===== src/Functions/Arrays.antt =====
-- Array functions on JSON values (crates/functions/src/semi-structured/array: array_insert.rs,
-- array_remove_at.rs, array_slice.rs). `serde_json` reads the array; the result is the array before it is
-- written. A 64-bit position and the length of an array do not overflow when they are added.
pub mod Laws
pub mod Sets
use rustice.Prelude.{
  ℕ, zero, suc, ◌+◌, ◌-◌, Bool, true, false, Option, none, some, Text, ltb, if◌then◌else◌, ℤ, pos,
  negsuc,
}
use rustice.Functions.Json.{Value, null, bool, number, string, array, object, Items, nil, cons}

pub data ArrayError : Type 0 where
  failed_to_deserialize_json : ArrayError
  -- the position, then the length
  position_out_of_bounds : ℕ → ℕ → ArrayError
  argument_must_be_json_array : ArrayError
  input_must_be_json_array : ArrayError

pub data Result (A : Type 0) : Type 0 where
  ok : A → Result A
  err : ArrayError → Result A

-- `array.len()`
unfoldable pub len : Items → ℕ
len nil = 0
len (cons v vs) = suc (len vs)

-- `Vec::insert` and `Vec::remove` within the bounds
unfoldable pub insert_at : ℕ → Value → Items → Items
insert_at zero x vs = cons x vs
insert_at (suc i) x nil = nil
insert_at (suc i) x (cons v vs) = cons v (insert_at i x vs)

unfoldable pub remove_at : ℕ → Items → Items
remove_at i nil = nil
remove_at zero (cons v vs) = vs
remove_at (suc i) (cons v vs) = cons v (remove_at i vs)

-- `array[from..to]`: the elements from one index on, as many as there are to the other.
unfoldable pub take_items : ℕ → Items → Items
take_items zero vs = nil
take_items (suc n) nil = nil
take_items (suc n) (cons v vs) = cons v (take_items n vs)

unfoldable pub drop_items : ℕ → Items → Items
drop_items zero vs = vs
drop_items (suc n) nil = nil
drop_items (suc n) (cons v vs) = drop_items n vs

unfoldable pub items_between : ℕ → ℕ → Items → Items
items_between from to vs = take_items (to - from) (drop_items from vs)

-- `if position < 0 { position + array_len } else { position }`
unfoldable pub actual_index : ℤ → ℕ → ℤ
actual_index (pos i) array_len = pos i
actual_index (negsuc k) array_len =
    if ltb k array_len then pos (array_len - (k + 1)) else negsuc (k - array_len)

-- `.max(0) as usize`
unfoldable pub max_zero : ℤ → ℕ
max_zero (pos i) = i
max_zero (negsuc k) = 0

-- `insert_element`, when the array has been read.
unfoldable pub insert_value : Value → ℤ → Value → Result Items
insert_value (array vs) position element =
    let i = max_zero (actual_index position (len vs)) in
    if ltb (len vs) i then err (position_out_of_bounds i (len vs)) else ok (insert_at i element vs)
insert_value other position element = err argument_must_be_json_array

-- The element is what `encode_scalar` made of the argument.
unfoldable pub insert_element : (Text → Option Value) → Text → ℤ → Value → Result Items
insert_element from_str array_str position element = elim (from_str array_str) [
  | none ↦ err failed_to_deserialize_json
  | some v ↦ insert_value v position element
]

unfoldable pub remove_index : ℤ → Items → Option Items
remove_index (negsuc k) vs = none
remove_index (pos i) vs = if ltb i (len vs) then some (remove_at i vs) else none

unfoldable pub remove_at_position : Value → ℤ → Result (Option Items)
remove_at_position (array vs) position = ok (remove_index (actual_index position (len vs)) vs)
remove_at_position other position = err argument_must_be_json_array

unfoldable pub slice_indices : ℤ → ℤ → Items → Option Items
slice_indices (pos from) (pos to) vs =
    if ltb from (len vs)
    then (if ltb to from
        then none
        else if ltb (len vs) to
        then none
        else some (items_between from to vs))
    else none
slice_indices from to vs = none

unfoldable pub slice_array : Value → ℤ → ℤ → Result (Option Items)
slice_array (array vs) from to =
    ok (slice_indices (actual_index from (len vs)) (actual_index to (len vs)) vs)
slice_array other from to = err input_must_be_json_array
