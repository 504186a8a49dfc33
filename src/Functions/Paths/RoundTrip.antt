-- ===== src/Functions/Paths/RoundTrip.antt =====
-- `tokenize_path` reads what `path_to_string` prints (crates/functions/src/json.rs,
-- table/flatten/func.rs).
use rustice.Prelude.{
  ℕ, ◌<◌, Bool, true, false, not, ◌&&◌, some, List, [], ◌∷◌, ◌++◌, Text, nat_beq, show_usize,
  parse_usize-show_usize, usize_bound, all_digits, all_digits-show_usize, ◌≡◌, refl, arith, ◌∙◌, ap,
}
use mathlib.Core.List.{append_assoc}
use rustice.Functions.Paths.{
  PathToken, key, index, split_at, is_break, bare_key, push, push_index, round, tokenize_on,
  tokenize_path, tail_to_string, path_to_string,
}
use rustice.Functions.Paths.Fuel.{tokenize_path-cons}

-- No character ends a bare key.
abbrev pub unbroken : Text → Bool
unbroken [] = true
unbroken (c ∷ s) = not (is_break c) && unbroken s

-- A key that needs no quotes: it is not empty, it does not begin with one, and nothing breaks it.
abbrev pub plain : Text → Bool
plain [] = false
plain (c ∷ s) = not (nat_beq c b'"') && unbroken (c ∷ s)

-- The keys are plain, and the indices fit.
abbrev pub Printable : List PathToken → Type 0
Printable [] = Unit {0}
Printable (key k ∷ ts) = (plain k ≡ true) × Printable ts
Printable (index i ∷ ts) = (i < usize_bound) × Printable ts

-- Nothing, or a character that ends a bare key and what follows.
abbrev starts_with_break : Text → Bool
starts_with_break [] = true
starts_with_break (c ∷ s) = is_break c

bare_key-append :
    (k t : Text) → unbroken k ≡ true → starts_with_break t ≡ true → bare_key (k ++ t) ≡ (k, t)
unfolding bare_key
bare_key-append [] [] h b = refl
bare_key-append [] (c ∷ t) h b = ground (arith, b)
bare_key-append (c ∷ k) t h b = ground (arith, h, bare_key-append k t)

split_at-digits : (s t : Text) → all_digits s ≡ true → split_at b']' (s ++ (b']' ∷ t)) ≡ (s, t)
unfolding split_at
split_at-digits [] t h = refl
split_at-digits (c ∷ s) t h = ground (arith, h, split_at-digits s t)

tail-starts_with_break : (ts : List PathToken) → starts_with_break (tail_to_string ts) ≡ true
unfolding tail_to_string is_break
tail-starts_with_break [] = refl
tail-starts_with_break (key k ∷ ts) = refl
tail-starts_with_break (index i ∷ ts) = refl

tokenize_path-dot : (s : Text) → tokenize_path (b'.' ∷ s) ≡ tokenize_path s
unfolding round
tokenize_path-dot s = tokenize_path-cons b'.' s

tokenize_path-key :
    (k t : Text)
    → plain k ≡ true
    → starts_with_break t ≡ true
    → tokenize_path (k ++ t) ≡ push (key k) (tokenize_path t)
unfolding round is_break
tokenize_path-key [] t h b = absurd (ground (arith, h))
tokenize_path-key (c ∷ k) t h b =
    tokenize_path-cons c (k ++ t)
    ∙ ground (arith, h, bare_key-append (c ∷ k) t (ground (arith, h)) b)

tokenize_path-index :
    (i : ℕ) (t : Text)
    → i < usize_bound
    → tokenize_path (b'[' ∷ (show_usize i ++ (b']' ∷ t))) ≡ push (index i) (tokenize_path t)
unfolding round push_index
tokenize_path-index i t fits =
    tokenize_path-cons b'[' (show_usize i ++ (b']' ∷ t))
    ∙ ground (
      arith,
      split_at-digits (show_usize i) t (all_digits-show_usize i),
      parse_usize-show_usize i fits,
    )

tokenize_path-tail :
    (ts : List PathToken) → Printable ts → tokenize_path (tail_to_string ts) ≡ some ts
unfolding tail_to_string push tokenize_on
tokenize_path-tail [] h = unfold tokenize_path in refl
tokenize_path-tail (key k ∷ ts) h =
    tokenize_path-dot (k ++ tail_to_string ts)
    ∙ tokenize_path-key k (tail_to_string ts) h.0 (tail-starts_with_break ts)
    ∙ ap (push (key k)) (tokenize_path-tail ts h.1)
tokenize_path-tail (index i ∷ ts) h =
    ap (λ s. tokenize_path (b'[' ∷ s)) (append_assoc (show_usize i) (b']' ∷ []) (tail_to_string ts))
    ∙ tokenize_path-index i (tail_to_string ts) h.0
    ∙ ap (push (index i)) (tokenize_path-tail ts h.1)

-- A path whose keys are plain and whose indices are below 2^64 is read back from its print.
pub tokenize_path-path_to_string :
    (ts : List PathToken) → Printable ts → tokenize_path (path_to_string ts) ≡ some ts
unfolding path_to_string push
tokenize_path-path_to_string [] h = tokenize_path-tail [] h
tokenize_path-path_to_string (index i ∷ ts) h = tokenize_path-tail (index i ∷ ts) h
tokenize_path-path_to_string (key k ∷ ts) h =
    tokenize_path-key k (tail_to_string ts) h.0 (tail-starts_with_break ts)
    ∙ ap (push (key k)) (tokenize_path-tail ts h.1)
