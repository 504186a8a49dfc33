-- ===== src/Prelude/Instances.antt =====
-- Equality of map keys as an interface, with its instances for numbers, texts and tuples.
use Prim.Native.Nat.{ℕ}
use mathlib.Core.Path.{◌≡◌, refl}
use mathlib.Core.Logic.{◌↔◌}
use mathlib.Core.Bool.{Bool, true, false, ◌&&◌}
use mathlib.Core.List.{List, [], ◌∷◌}
use native.Mathlib.Omega.{arith}
use rustice.Prelude.Tests.{nat_beq, nat_beq_iff}

-- A type whose values can be keys: a Boolean test that decides equality.
pub record HashKey {κ} (K : Type κ) : Type κ where
  pub same : K → K → Bool
  pub same_iff : (j k : K) → (same j k ≡ true) ↔ (j ≡ k)

-- Characters are Unicode scalar values, and a text is the list of its characters.
abbrev pub Text : Type 0
Text = List ℕ

abbrev pub text_beq : Text → Text → Bool
text_beq [] [] = true
text_beq [] (d ∷ t) = false
text_beq (c ∷ s) [] = false
text_beq (c ∷ s) (d ∷ t) = nat_beq c d && text_beq s t

pub text_beq_iff : (s t : Text) → (text_beq s t ≡ true) ↔ (s ≡ t)
text_beq_iff [] [] = ground arith
text_beq_iff [] (d ∷ t) = ground arith
text_beq_iff (c ∷ s) [] = ground arith
text_beq_iff (c ∷ s) (d ∷ t) = ground (arith, text_beq_iff s t)

instance abbrev pub nat_eq : HashKey ℕ
nat_eq = record { same = nat_beq; same_iff = nat_beq_iff }

instance abbrev pub text_eq : HashKey Text
text_eq = record { same = text_beq; same_iff = text_beq_iff }

abbrev pub pair_beq : Text × Text → Text × Text → Bool
pair_beq (a, b) (c, d) = text_beq a c && text_beq b d

pub pair_beq_iff : (p q : Text × Text) → (pair_beq p q ≡ true) ↔ (p ≡ q)
pair_beq_iff (a, b) (c, d) = ground (arith, text_beq_iff a c, text_beq_iff b d)

instance abbrev pub pair_eq : HashKey (Text × Text)
pair_eq = record { same = pair_beq; same_iff = pair_beq_iff }

abbrev pub triple_beq : Text × Text × Text → Text × Text × Text → Bool
triple_beq (a, b, c) (a', b', c') = text_beq a a' && (text_beq b b' && text_beq c c')

pub triple_beq_iff : (p q : Text × Text × Text) → (triple_beq p q ≡ true) ↔ (p ≡ q)
triple_beq_iff (a, b, c) (a', b', c') =
    ground (arith, text_beq_iff a a', text_beq_iff b b', text_beq_iff c c')

instance abbrev pub triple_eq : HashKey (Text × Text × Text)
triple_eq = record { same = triple_beq; same_iff = triple_beq_iff }

module _ {κ} {K : Type κ} ⦃key : HashKey K⦄ where
  infix 50 ◌==◌
  abbrev pub ◌==◌ : K → K → Bool
  ◌==◌ j k = key.same j k

  pub beq_refl : (k : K) → (k == k) ≡ true
  beq_refl k = (key.same_iff k k).1 refl
