-- ===== src/Functions/Paths/Fuel.antt =====
-- The loop of `tokenize_path` (crates/functions/src/json.rs) ends: each round takes a character at
-- least.
use rustice.Prelude.{
  ℕ, zero, suc, ◌≤◌, false, Option, List, [], ◌∷◌, Text, length, ◌≡◌, refl, arith, Bool-cases, inl,
  inr,
}
use rustice.Functions.Paths.{
  PathToken, split_at, is_break, bare_key, round, tokenize_on, tokenize_path,
}

length-split_at : (mark : ℕ) (s : Text) → length (split_at mark s).1 ≤ length s
unfolding split_at
length-split_at mark [] = omega arith
length-split_at mark (c ∷ s) = ground (arith, length-split_at mark s)

length-bare_key : (s : Text) → length (bare_key s).1 ≤ length s
unfolding bare_key
length-bare_key [] = omega arith
length-bare_key (c ∷ s) = ground (arith, length-bare_key s)

-- Where the round takes a bare key, its first character is not one that ends it.
length-bare_key-cons :
    (c : ℕ) (s : Text) → is_break c ≡ false → length (bare_key (c ∷ s)).1 ≤ length s
unfolding bare_key
length-bare_key-cons c s h = ground (arith, h, length-bare_key s)

-- A round goes on with no more than what is behind its first character.
round_agrees :
    (c : ℕ) (s : Text) (f g : Text → Option (List PathToken))
    → ((t : Text) → length t ≤ length s → f t ≡ g t)
    → round c s f ≡ round c s g
unfolding round
round_agrees c s f g agree =
    let here = agree s (omega arith) in
    let quoted = agree (split_at b'"' s).1 (length-split_at b'"' s) in
    let bracket = agree (split_at b']' s).1 (length-split_at b']' s) in
    elim (Bool-cases (is_break c)) [
      | inl breaks ↦ unfold is_break in ground (arith, breaks, here, quoted, bracket)
      | inr goes ↦
          ground (
            arith,
            here,
            quoted,
            bracket,
            agree (bare_key (c ∷ s)).1 (length-bare_key-cons c s goes),
          )
    ]

tokenize_on-agrees :
    (fuel more : ℕ) (s : Text)
    → length s ≤ fuel
    → length s ≤ more
    → tokenize_on fuel s ≡ tokenize_on more s
unfolding tokenize_on
tokenize_on-agrees zero zero [] h k = refl
tokenize_on-agrees zero (suc more) [] h k = refl
tokenize_on-agrees (suc fuel) zero [] h k = refl
tokenize_on-agrees (suc fuel) (suc more) [] h k = refl
tokenize_on-agrees zero more (c ∷ s) h k = absurd (omega (arith, h))
tokenize_on-agrees (suc fuel) zero (c ∷ s) h k = absurd (omega (arith, k))
tokenize_on-agrees (suc fuel) (suc more) (c ∷ s) h k =
    round_agrees c s (tokenize_on fuel) (tokenize_on more) λ t shorter.
      tokenize_on-agrees fuel more t (omega (arith, h, shorter)) (omega (arith, k, shorter))

-- The loop ends of itself on every path: with as much fuel as the path has characters it has the
-- result that it has with any more.
pub tokenize_on-fuel :
    (fuel : ℕ) (path : Text) → length path ≤ fuel → tokenize_on fuel path ≡ tokenize_path path
unfolding tokenize_path
tokenize_on-fuel fuel path h = tokenize_on-agrees fuel (length path) path h (omega arith)

-- The loop as it is written: the end of the path, or a round and the loop again.
pub tokenize_path-cons : (c : ℕ) (s : Text) → tokenize_path (c ∷ s) ≡ round c s tokenize_path
unfolding tokenize_path tokenize_on
tokenize_path-cons c s =
    round_agrees c s (tokenize_on (length s)) tokenize_path
      λ t shorter. tokenize_on-agrees (length s) (length t) t shorter (omega arith)
