-- ===== src/Functions/Substr.antt =====
-- crates/functions/src/string-binary/substr.rs: substrings of strings and of binary values, row by
-- row, and the simplification of a call on literals. Starts and lengths are 64-bit; no sum that the
-- code forms leaves that range, as the length of a value is at most half of it.
use rustice.Prelude.{
  ℕ, ◌+◌, ◌-◌, min, Bool, false, ◌||◌, Option, none, some, List, [], Text, ltb, leb, nat_beq,
  length, take, drop, is_empty, if◌then◌else◌, ℤ, pos, negsuc, is_negative, plus_negative_plus_one,
}
use rustice.Functions.Error.{Result, ok, err, negative_substring_length}

-- `match start.cmp(&0)`
actual_start : ℕ → ℤ → ℤ
actual_start count (negsuc k) = plus_negative_plus_one count k
actual_start count (pos n) = if nat_beq n 0 then pos 1 else pos n

end_index : ℕ → ℕ → Option ℕ → ℕ
end_index start_idx count none = count
end_index start_idx count (some len) = min (start_idx + len) count

is_zero : Option ℕ → Bool
is_zero none = false
is_zero (some len) = nat_beq len 0

module _ {A : Type 0} where
  -- `[start_idx..end_idx]`
  slice : ℕ → ℕ → List A → List A
  slice start_idx end_idx input = take (end_idx - start_idx) (drop start_idx input)

  -- After the start has been found.
  unfoldable pub from_start : List A → Option ℕ → ℤ → List A
  unfolding slice end_index is_zero
  from_start input len (negsuc k) = []
  from_start input len (pos start) =
      if leb start 0 || ltb (length input) start
      then []
      else if is_zero len
      then []
      else if leb (length input) (start - 1)
      then []
      else slice (start - 1) (end_index (start - 1) (length input) len) input

  -- `compute_substr_string` over characters and `compute_substr_binary` over bytes.
  unfoldable pub compute_substr : List A → ℤ → Option ℕ → List A
  unfolding actual_start
  compute_substr input start len =
      if is_empty input then [] else from_start input len (actual_start (length input) start)

-- `u64::try_from(l).ok()`
unfoldable pub to_u64 : ℤ → Option ℕ
to_u64 (pos n) = some n
to_u64 (negsuc n) = none

unfoldable pub length_u64 : Option ℤ → Option ℕ
length_u64 none = none
length_u64 (some l) = to_u64 l

module _ {A : Type 0} where
  -- The rest of a row's turn, with no null left.
  substr_value : List A → ℤ → Option ℤ → Result (Option (List A))
  substr_value base start none = ok (some (compute_substr base start none))
  substr_value base start (some len) =
      if is_negative len
      then err (negative_substring_length start len)
      else ok (some (compute_substr base start (length_u64 (some len))))

  -- One turn of the loop of `process_string_arrays`, `process_binary_arrays` and
  -- `process_large_binary_arrays`; `none` is a null, and an outer `none` of the length is a call
  -- without one.
  unfoldable pub process_row :
      Option (List A) → Option ℤ → Option (Option ℤ) → Result (Option (List A))
  unfolding substr_value
  process_row none start len = ok none
  process_row (some base) none len = ok none
  process_row (some base) (some start) none = substr_value base start none
  process_row (some base) (some start) (some none) = ok none
  process_row (some base) (some start) (some (some len)) = substr_value base start (some len)

-- An argument of a call: a literal, which may be null, or any other expression.
pub data Expr (A : Type 0) : Type 0 where
  literal : Option A → Expr A
  expression : Expr A

-- A literal that is cut, not null: a string, bytes, or a number by its text
pub data Scalar : Type 0 where
  utf8 : Text → Scalar
  binary : List ℕ → Scalar
  numeric : Text → Scalar

folded : Text → ℤ → Option ℤ → Option (Option Text)
folded base start len = some (some (compute_substr base start (length_u64 len)))

fold_length : Text → ℤ → Option (Expr ℤ) → Option (Option Text)
fold_length base start none = folded base start none
fold_length base start (some expression) = folded base start none
fold_length base start (some (literal none)) = some none
fold_length base start (some (literal (some len))) = folded base start (some len)

-- `simplify`: `none` leaves the call as it is. A literal of any type is cut as the text that
-- `ScalarValue::to_string` prints it as.
unfoldable pub simplify :
    (Scalar → Text) → Expr Scalar → Expr ℤ → Option (Expr ℤ) → Option (Option Text)
unfolding folded fold_length
simplify to_string expression start len = none
simplify to_string (literal base) expression len = none
simplify to_string (literal none) (literal start) len = some none
simplify to_string (literal (some base)) (literal none) len = some none
simplify to_string (literal (some base)) (literal (some start)) len =
    fold_length (to_string base) start len
