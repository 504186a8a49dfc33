-- ===== src/Prelude/Ints.antt =====
-- Signed integers as the code compares them; `negsuc n` is below zero by `n + 1`.
use Prim.Native.Nat.{ℕ, ◌-◌}
use mathlib.Core.Bool.{Bool, true, false}
use rustice.Prelude.Tests.{leb, if◌then◌else◌}

pub data ℤ : Type 0 where
  pos negsuc : ℕ → ℤ

abbrev pub is_negative : ℤ → Bool
is_negative (pos n) = false
is_negative (negsuc n) = true

-- `count + z + 1`, for `z` the negative number `negsuc k`
unfoldable pub plus_negative_plus_one : ℕ → ℕ → ℤ
plus_negative_plus_one count k = if leb k count then pos (count - k) else negsuc (k - count - 1)
