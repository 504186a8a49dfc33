-- ===== src/Prelude/Texts.antt =====
-- Texts as lists of characters: literals, ASCII case, joining.
use Prim.Native.Nat.{ℕ, ◌+◌, ◌-◌}
use Prim.Native.Char.{code}
use Prim.Native.String.{String}
use mathlib.Core.Path.{◌≡◌, refl}
use mathlib.Core.Bool.{Bool, true, false, ◌&&◌}
use mathlib.Core.List.{List, [], ◌∷◌, ◌++◌, map}
use native.Mathlib.Omega.{arith}
use rustice.Prelude.Tests.{ltb, leb, if◌then◌else◌}
use rustice.Prelude.Instances.{Text}

-- The characters of a literal.
abbrev pub codes : String → Text
codes String.[] = []
codes (String.◌∷◌ c s) = code c ∷ codes s

abbrev pub lower_char : ℕ → ℕ
lower_char c = if leb b'A' c && leb c b'Z' then c + 32 else c

-- `str::to_ascii_lowercase`
unfoldable pub to_ascii_lowercase : Text → Text
to_ascii_lowercase s = map lower_char s

abbrev pub upper_char : ℕ → ℕ
upper_char c = if leb b'a' c && leb c b'z' then c - 32 else c

-- `str::to_ascii_uppercase`
unfoldable pub to_ascii_uppercase : Text → Text
to_ascii_uppercase s = map upper_char s

lower_char_idem : (c : ℕ) → lower_char (lower_char c) ≡ lower_char c
lower_char_idem c = ground arith

pub to_ascii_lowercase_idem :
    (s : Text) → to_ascii_lowercase (to_ascii_lowercase s) ≡ to_ascii_lowercase s
unfolding to_ascii_lowercase
to_ascii_lowercase_idem [] = refl
to_ascii_lowercase_idem (c ∷ s) = cc (lower_char_idem c, to_ascii_lowercase_idem s)

-- `[…].join(sep)`
abbrev pub join : Text → List Text → Text
join sep [] = []
join sep (s ∷ []) = s
join sep (s ∷ t ∷ rest) = s ++ (sep ++ join sep (t ∷ rest))

-- `str::cmp` compares the bytes, which is the order of the characters' numbers.
unfoldable pub text_lt : Text → Text → Bool
text_lt s [] = false
text_lt [] (d ∷ t) = true
text_lt (c ∷ s) (d ∷ t) = if ltb c d then true else (if ltb d c then false else text_lt s t)

unfoldable pub insert_text : Text → List Text → List Text
insert_text a [] = a ∷ []
insert_text a (b ∷ l) = let rest = insert_text a l in if text_lt b a then b ∷ rest else a ∷ b ∷ l

-- `sort` of a vector of strings
unfoldable pub sort_texts : List Text → List Text
sort_texts [] = []
sort_texts (a ∷ l) = insert_text a (sort_texts l)
