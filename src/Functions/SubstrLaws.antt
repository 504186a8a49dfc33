-- ===== src/Functions/SubstrLaws.antt =====
-- `substr` (crates/functions/src/string-binary/substr.rs): what a substring is, and where the
-- simplification of a call and the rows' loop agree.
use rustice.Prelude.{
  ℕ, suc, zero, ◌+◌, ◌-◌, ◌≤◌, min, Bool, false, Option, none, some, List, [], ◌∷◌, Text, leb,
  length, take, drop, if◌then◌else◌, ℤ, pos, negsuc, is_negative, ◌≡◌, refl, arith, length-drop,
  take_all, drop_all, plus_negative_plus_one, ap, sym, ◌∙◌, Bool-cases, inl, inr,
}
use rustice.Functions.Error.{ok, err, negative_substring_length}
use rustice.Functions.Substr.{
  Scalar, utf8, compute_substr, from_start, process_row, simplify, Expr, literal, expression,
  length_u64, to_u64,
}

pred : (n : ℕ) → suc n - 1 ≡ n
pred n = omega arith

module _ {A : Type 0} where
  -- The first elements, or all.
  unfoldable pub take_length : Option ℕ → List A → List A
  take_length none l = l
  take_length (some n) l = take n l

  take-min : (n : ℕ) (l : List A) → take (min n (length l)) l ≡ take n l
  take-min n l = elim (Bool-cases (leb (length l) n)) [
    | inl long ↦
        take_all (min n (length l)) l (ground (arith, long))
        ∙ sym (take_all n l (ground (arith, long)))
    | inr short ↦ ap (λ m. take m l) (ground (arith, short))
  ]

  take_length-nil : (len : Option ℕ) → take_length len [] ≡ []
  unfolding take_length
  take_length-nil none = refl
  take_length-nil (some zero) = refl
  take_length-nil (some (suc n)) = refl

  -- The end that the code computes cuts off what the length says.
  take-slice :
      (n l : ℕ) (input : List A)
      → take (min (n + l) (length input) - n) (drop n input) ≡ take l (drop n input)
  take-slice n l input =
      ap (λ m. take m (drop n input)) (omega (arith, length-drop n input))
      ∙ take-min l (drop n input)

  from_start-past :
      (input : List A) (n : ℕ) (len : Option ℕ)
      → length input ≤ n
      → from_start input len (pos (suc n)) ≡ take_length len (drop n input)
  unfolding from_start
  from_start-past input n len past =
      let nothing : take_length len (drop n input) ≡ [] =
        rw (drop_all n input past) (take_length-nil len) in
      ground (arith, past, nothing)

  from_start-inside :
      (input : List A) (n : ℕ) (len : Option ℕ)
      → leb (length input) n ≡ false
      → from_start input len (pos (suc n)) ≡ take_length len (drop n input)
  unfolding from_start take_length
  from_start-inside input n none inside = ground (
    arith,
    inside,
    pred n,
    take_all (length input - n) (drop n input) (omega (arith, length-drop n input)),
  )
  from_start-inside input n (some zero) inside = ground (arith, inside)
  from_start-inside input n (some (suc l)) inside =
      ground (arith, inside, pred n, take-slice n (suc l) input)

  from_start-drop :
      (input : List A) (n : ℕ) (len : Option ℕ)
      → from_start input len (pos (suc n)) ≡ take_length len (drop n input)
  from_start-drop input n len = elim (Bool-cases (leb (length input) n)) [
    | inl past ↦ from_start-past input n len (ground (arith, past))
    | inr inside ↦ from_start-inside input n len inside
  ]

  -- The substring from the `n`th element on, if there is one, counted from 1 at the front.
  unfoldable pub reference : List A → ℤ → Option ℕ → List A
  reference input (pos zero) len = take_length len input
  reference input (pos (suc n)) len = take_length len (drop n input)
  reference input (negsuc k) len =
      if leb (suc k) (length input) then take_length len (drop (length input - suc k) input) else []

  reference-nil : (start : ℤ) (len : Option ℕ) → reference [] start len ≡ []
  unfolding reference
  reference-nil (pos zero) len = take_length-nil len
  reference-nil (pos (suc n)) len = rw (drop_all {A = A} n [] (omega arith)) (take_length-nil len)
  reference-nil (negsuc k) len = ground arith

  from_the_end :
      (input : List A) (k : ℕ) (len : Option ℕ)
      → from_start input len (plus_negative_plus_one (length input) k)
        ≡ reference input (negsuc k) len
  unfolding reference plus_negative_plus_one
  from_the_end input k len = elim (Bool-cases (leb (suc k) (length input))) [
    | inl there ↦
        let start : length input - k ≡ suc (length input - suc k) = ground (arith, there) in
        ground (arith, there, start, from_start-drop input (length input - suc k) len)
    | inr before ↦ unfold from_start in ground (arith, before)
  ]

  -- A substring is what the reference says: from a start that counts from 1 at the front (0 being as
  -- good as 1) or from -1 at the end, as many elements as the length asks for, or all; and nothing
  -- where the start is before the front or after the end.
  pub compute_substr-reference :
      (input : List A) (start : ℤ) (len : Option ℕ)
      → compute_substr input start len ≡ reference input start len
  unfolding compute_substr reference
  compute_substr-reference [] start len = sym (reference-nil start len)
  compute_substr-reference (a ∷ input) (pos zero) len = from_start-drop (a ∷ input) 0 len
  compute_substr-reference (a ∷ input) (pos (suc n)) len =
      ground (arith, from_start-drop (a ∷ input) n len)
  compute_substr-reference (a ∷ input) (negsuc k) len = from_the_end (a ∷ input) k len

-- The lengths of the call's literals.
abbrev pub literals : Option (Option ℤ) → Option (Expr ℤ)
literals none = none
literals (some len) = some (literal len)

abbrev is_negative_length : Option (Option ℤ) → Bool
is_negative_length (some (some len)) = is_negative len
is_negative_length _ = false

-- A string literal, which may be null
abbrev pub string_literal : Option Text → Option Scalar
string_literal none = none
string_literal (some s) = some (utf8 s)

module _ (to_string : Scalar → Text) (printed : (s : Text) → to_string (utf8 s) ≡ s) where
  -- On a string literal, null or not, and literal numbers, with no length that is below zero, the
  -- simplification of a call answers what the rows' loop answers. That a string is printed as it is is
  -- asked of `ScalarValue`.
  pub process_row-simplify :
      (base : Option Text) (start : Option ℤ) (len : Option (Option ℤ))
      → is_negative_length len ≡ false
      → (r : Option Text) × (simplify to_string
            (literal (string_literal base))
            (literal start)
            (literals len)
          ≡ some r)
        × (process_row base start len ≡ ok r)
  unfolding simplify process_row length_u64
  process_row-simplify none start len h = (none, refl, refl)
  process_row-simplify (some base) none len h = (none, refl, refl)
  process_row-simplify (some base) (some start) none h =
      (some (compute_substr base start none), rw (printed base) refl, refl)
  process_row-simplify (some base) (some start) (some none) h = (none, refl, refl)
  process_row-simplify (some base) (some start) (some (some (pos n))) h = (
    some (compute_substr base start (some n)),
    unfold to_u64 in rw (printed base) refl,
    unfold to_u64 in refl,
  )
  process_row-simplify (some base) (some start) (some (some (negsuc n))) h =
      absurd (ground (arith, h))

  -- A length below zero is an error in the rows' loop; on literals the simplification answers instead
  -- the substring to the end, as if there were no length. So it does where the length is an expression,
  -- whatever the value of that is going to be.
  simplify_ignores :
      (base : Text) (start : ℤ) (n : ℕ)
      → (process_row (some base) (some start) (some (some (negsuc n)))
          ≡ err (negative_substring_length start (negsuc n)))
        × (simplify to_string
              (literal (some (utf8 base)))
              (literal (some start))
              (some (literal (some (negsuc n))))
            ≡ some (some (compute_substr base start none)))
        × (simplify to_string (literal (some (utf8 base))) (literal (some start)) (some expression)
            ≡ some (some (compute_substr base start none)))
  unfolding simplify process_row length_u64 to_u64
  simplify_ignores base start n = (refl, rw (printed base) refl, rw (printed base) refl)
