-- ===== src/Prelude/Split.antt =====
-- `str` methods that cut a text up: `trim`, `split`, `split_once`, `strip_prefix`.
use Prim.Native.Nat.{ℕ}
use mathlib.Core.Bool.{Bool, ◌&&◌, ◌||◌}
use mathlib.Core.Option.{Option, none, some}
use mathlib.Core.List.{List, [], ◌∷◌}
use rustice.Prelude.Tests.{leb, nat_beq, if◌then◌else◌}
use rustice.Prelude.Lists.{is_empty}
use rustice.Prelude.Instances.{Text, text_beq}
use rustice.Prelude.Texts.{to_ascii_lowercase}

-- `char::is_whitespace`
unfoldable pub is_whitespace : ℕ → Bool
is_whitespace c =
    (leb 9 c && leb c 13)
    || (nat_beq c 32
        || (nat_beq c 0x85
            || (nat_beq c 0xa0
                || (nat_beq c 0x1680
                    || ((leb 0x2000 c && leb c 0x200a)
                        || (nat_beq c 0x2028
                            || (nat_beq c 0x2029
                                || (nat_beq c 0x202f
                                    || (nat_beq c 0x205f || nat_beq c 0x3000)))))))))

unfoldable pub trim_start_matches : (ℕ → Bool) → Text → Text
trim_start_matches p [] = []
trim_start_matches p (c ∷ s) = let rest = trim_start_matches p s in if p c then rest else c ∷ s

unfoldable pub trim_end_matches : (ℕ → Bool) → Text → Text
trim_end_matches p [] = []
trim_end_matches p (c ∷ s) =
    let rest = trim_end_matches p s in if is_empty rest && p c then [] else c ∷ rest

unfoldable pub trim : Text → Text
trim s = trim_end_matches is_whitespace (trim_start_matches is_whitespace s)

unfoldable pub strip_prefix : Text → Text → Option Text
strip_prefix [] s = some s
strip_prefix (d ∷ p) [] = none
strip_prefix (d ∷ p) (c ∷ s) = let rest = strip_prefix p s in if nat_beq d c then rest else none

abbrev before : ℕ → Option (Text × Text) → Option (Text × Text)
before c none = none
before c (some (s, t)) = some (c ∷ s, t)

-- `split_once` at a character
unfoldable pub split_once : ℕ → Text → Option (Text × Text)
split_once mark [] = none
split_once mark (c ∷ s) =
    let rest = split_once mark s in if nat_beq c mark then some ([], s) else before c rest

-- A character onto the first of the parts.
abbrev onto : ℕ → List Text → List Text
onto c [] = (c ∷ []) ∷ []
onto c (s ∷ parts) = (c ∷ s) ∷ parts

-- `split` at a character
unfoldable pub split : ℕ → Text → List Text
split mark [] = [] ∷ []
split mark (c ∷ s) = let rest = split mark s in if nat_beq c mark then [] ∷ rest else onto c rest

unfoldable pub eq_ignore_ascii_case : Text → Text → Bool
eq_ignore_ascii_case s t = text_beq (to_ascii_lowercase s) (to_ascii_lowercase t)
