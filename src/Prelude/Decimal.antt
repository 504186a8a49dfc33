-- ===== src/Prelude/Decimal.antt =====
-- Unsigned decimal numbers: `Display` for `usize` and `str::parse::<usize>`, on 64 bits.
pub mod Padded
use Prim.Native.Nat.{ℕ, zero, suc, ◌+◌, ◌-◌, ◌*◌, ◌/◌, ◌%◌, ◌^◌, ◌<◌}
use mathlib.Core.Path.{◌≡◌, refl, sym, ap, subst, ◌∙◌}
use mathlib.Core.Bool.{Bool, true, false, ◌&&◌}
use mathlib.Core.Option.{Option, none, some}
use mathlib.Core.List.{[], ◌∷◌, ◌++◌, append_assoc, append-nil}
use native.Mathlib.Omega.{arith}
use rustice.Prelude.Tests.{ltb, leb, nat_beq, if◌then◌else◌, Bool-cases}
use rustice.Prelude.Instances.{Text}
use mathlib.Core.Logic.{inl, inr, ◌⊎◌}

abbrev pub is_digit : ℕ → Bool
is_digit c = leb 48 c && leb c 57

abbrev pub usize_bound : ℕ
usize_bound = 2 ^ 64

-- Each round prints the last digit behind the others; a number has fewer digits than itself plus one.
show_digits : ℕ → ℕ → Text
show_digits zero n = []
show_digits (suc fuel) n = elim (ltb n 10) [
  | true ↦ (48 + n) ∷ []
  | false ↦ show_digits fuel (n / 10) ++ ((48 + n % 10) ∷ [])
]

unfoldable pub show_usize : ℕ → Text
unfolding show_digits
show_usize n = show_digits (suc n) n

read_digits : ℕ → Text → Option ℕ
read_digits n [] = some n
read_digits n (c ∷ s) = elim (is_digit c) [
  | true ↦ read_digits (n * 10 + (c - 48)) s
  | false ↦ none
]

bounded : Option ℕ → Option ℕ
bounded none = none
bounded (some n) = if ltb n usize_bound then some n else none

unsigned : Text → Option ℕ
unsigned [] = none
unsigned (c ∷ s) = bounded (read_digits 0 (c ∷ s))

unfoldable pub parse_usize : Text → Option ℕ
unfolding read_digits bounded unsigned
parse_usize [] = none
parse_usize (c ∷ s) = if nat_beq c 43 then unsigned s else unsigned (c ∷ s)

read_digits-show_digits :
    (fuel n : ℕ) (t : Text) → n < fuel → read_digits 0 (show_digits fuel n ++ t) ≡ read_digits n t
unfolding show_digits read_digits
read_digits-show_digits zero n t h = absurd (omega (arith, h))
read_digits-show_digits (suc fuel) n t h = elim (Bool-cases (ltb n 10)) [
  | inl small ↦ ground (arith, small)
  | inr large ↦
      let last = 48 + n % 10 in
      ground (
        arith,
        large,
        append_assoc (show_digits fuel (n / 10)) (last ∷ []) t,
        read_digits-show_digits fuel (n / 10) (last ∷ t) (ground (arith, h, large)),
      )
]

-- Every character is a digit.
abbrev pub all_digits : Text → Bool
all_digits [] = true
all_digits (c ∷ s) = is_digit c && all_digits s

all_digits-append : (s t : Text) → all_digits (s ++ t) ≡ (all_digits s && all_digits t)
all_digits-append [] t = refl
all_digits-append (c ∷ s) t = ground (arith, all_digits-append s t)

all_digits-show_digits : (fuel n : ℕ) → all_digits (show_digits fuel n) ≡ true
unfolding show_digits
all_digits-show_digits zero n = refl
all_digits-show_digits (suc fuel) n = elim (Bool-cases (ltb n 10)) [
  | inl small ↦ ground (arith, small)
  | inr large ↦ ground (
    arith,
    large,
    all_digits-append (show_digits fuel (n / 10)) ((48 + n % 10) ∷ []),
    all_digits-show_digits fuel (n / 10),
  )
]

pub all_digits-show_usize : (n : ℕ) → all_digits (show_usize n) ≡ true
unfolding show_usize
all_digits-show_usize n = all_digits-show_digits (suc n) n

-- A printed number has a first digit.
show_usize_cons : (n : ℕ) → (c : ℕ) × (s : Text) × (show_usize n ≡ c ∷ s)
unfolding show_usize show_digits
show_usize_cons n = elim (Bool-cases (ltb n 10)) [
  | inl small ↦ (48 + n, [], ground (arith, small))
  | inr large ↦ elim (list_cases (show_digits n (n / 10))) [
    | inl none_before ↦ (48 + n % 10, [], ground (arith, large, none_before))
    | inr (c, s, e) ↦ (c, s ++ ((48 + n % 10) ∷ []), ground (arith, large, e))
  ]
]
  where
    list_cases : (l : Text) → (l ≡ []) ⊎ ((c : ℕ) × (s : Text) × (l ≡ c ∷ s))
    list_cases [] = inl refl
    list_cases (c ∷ s) = inr (c, s, refl)

read_digits-show_usize : (n : ℕ) → read_digits 0 (show_usize n) ≡ some n
unfolding show_usize read_digits
read_digits-show_usize n =
    ap (read_digits 0) (sym (append-nil (show_digits (suc n) n)))
    ∙ read_digits-show_digits (suc n) n [] (omega arith)

parse_usize-cons :
    (c : ℕ) (s : Text) (n : ℕ)
    → all_digits (c ∷ s) ≡ true
    → read_digits 0 (c ∷ s) ≡ some n
    → n < usize_bound
    → parse_usize (c ∷ s) ≡ some n
unfolding parse_usize
parse_usize-cons c s n digits value fits = ground (arith, digits, value, fits)

-- A number that fits is read back from its print.
pub parse_usize-show_usize : (n : ℕ) → n < usize_bound → parse_usize (show_usize n) ≡ some n
parse_usize-show_usize n fits =
    let (c, s, e) = show_usize_cons n in
    subst (λ t. parse_usize t ≡ some n) (sym e)
      (parse_usize-cons c s n (subst (λ t. all_digits t ≡ true) e (all_digits-show_usize n))
        (subst (λ t. read_digits 0 t ≡ some n) e (read_digits-show_usize n)) fits)
