-- ===== src/Prelude/Decimal/Padded.antt =====
-- Numbers of a fixed number of digits.
use Prim.Native.Nat.{ℕ, zero, suc, ◌+◌, ◌-◌, ◌*◌, ◌/◌, ◌%◌, ◌<◌}
use mathlib.Core.Path.{◌≡◌, refl, sym, ap, ◌∙◌}
use mathlib.Core.Bool.{true}
use mathlib.Core.List.{[], ◌∷◌, ◌++◌, append_assoc}
use mathlib.Core.Logic.{inl, inr}
use native.Mathlib.Omega.{arith}
use rustice.Prelude.Tests.{ltb, Bool-cases}
use rustice.Prelude.Instances.{Text}
use rustice.Prelude.Lists.{length, length-append}
use rustice.Prelude.Decimal.{show_digits, show_usize}

-- `format!("{:0>n$}", "")`
abbrev pub zeroes : ℕ → Text
zeroes zero = []
zeroes (suc n) = 48 ∷ zeroes n

-- The last `k` digits of a number
abbrev pub digits : ℕ → ℕ → Text
digits zero n = []
digits (suc k) n = digits k (n / 10) ++ ((48 + n % 10) ∷ [])

abbrev pub tens : ℕ → ℕ
tens zero = 1
tens (suc k) = tens k * 10

zeroes_end : (k : ℕ) → zeroes k ++ (48 ∷ []) ≡ 48 ∷ zeroes k
zeroes_end zero = refl
zeroes_end (suc k) = ap (λ s. 48 ∷ s) (zeroes_end k)

digits-zero : (k : ℕ) → digits k 0 ≡ zeroes k
digits-zero zero = refl
digits-zero (suc k) = ap (λ s. s ++ (48 ∷ [])) (digits-zero k) ∙ zeroes_end k

padded : (k : ℕ) → Text → Text
padded k s = zeroes (k - length s) ++ s

padded-append : (k c : ℕ) (s : Text) → padded (suc k) (s ++ (c ∷ [])) ≡ padded k s ++ (c ∷ [])
unfolding padded
padded-append k c s =
    let e : suc k - length (s ++ (c ∷ [])) ≡ k - length s =
      omega (arith, length-append s (c ∷ [])) in
    rw e (sym (append_assoc (zeroes (k - length s)) s (c ∷ [])))

padded-digit : (k c : ℕ) → padded (suc k) (c ∷ []) ≡ zeroes k ++ (c ∷ [])
unfolding padded
padded-digit k c = let e : suc k - 1 ≡ k = omega arith in rw e refl

-- A number of one digit
padded_small : (k n : ℕ) → ltb n 10 ≡ true → padded (suc k) ((48 + n) ∷ []) ≡ digits (suc k) n
padded_small k n small =
    let q : n / 10 ≡ 0 = ground (arith, small) in
    let r : n % 10 ≡ n = ground (arith, small) in
    padded-digit k (48 + n) ∙ (rw q (rw r (ap (λ s. s ++ ((48 + n) ∷ [])) (sym (digits-zero k)))))

padded-show_digits :
    (k fuel n : ℕ)
    → n < tens (suc k)
    → n < fuel
    → padded (suc k) (show_digits fuel n) ≡ digits (suc k) n
unfolding show_digits
padded-show_digits k zero n h f = absurd (omega (arith, f))
padded-show_digits zero (suc fuel) n h f =
    let small : ltb n 10 ≡ true = ground (arith, h) in
    rw (small, show_digits) (padded_small zero n small)
padded-show_digits (suc k) (suc fuel) n h f = elim (Bool-cases (ltb n 10)) [
  | inl small ↦ rw (small, show_digits) (padded_small (suc k) n small)
  | inr large ↦
      rw (large, show_digits)
        (padded-append (suc k) (48 + n % 10) (show_digits fuel (n / 10))
          ∙ ap (λ s. s ++ ((48 + n % 10) ∷ []))
              (padded-show_digits k fuel (n / 10) (omega (arith, h)) (ground (arith, large, f))))
]

-- A number of at most `k + 1` digits, with zeroes in front, is its `k + 1` digits.
pub zeroes-show_usize :
    (k n : ℕ)
    → n < tens (suc k)
    → zeroes (suc k - length (show_usize n)) ++ show_usize n ≡ digits (suc k) n
unfolding show_usize padded
zeroes-show_usize k n h = padded-show_digits k (suc n) n h (omega arith)
