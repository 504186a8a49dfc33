-- ===== src/Functions/Error.antt =====
-- The errors of the string functions (crates/functions/src/string-binary), and their results.
use rustice.Prelude.{ℤ}

pub data Error : Type 0 where
  negative_substring_length : ℤ → ℤ → Error
  -- the two errors of `insert`
  invalid_position invalid_length : Error

pub data Result {ℓ} (A : Type ℓ) : Type ℓ where
  ok : A → Result A
  err : Error → Result A
