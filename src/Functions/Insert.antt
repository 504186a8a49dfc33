-- ===== src/Functions/Insert.antt =====
-- crates/functions/src/string-binary/insert.rs: the replacement of a part of a string or of a binary
-- value. Positions and lengths are 64-bit, and a value's length is far below their bounds.
use rustice.Prelude.{
  ℕ, ◌+◌, ◌-◌, List, ◌++◌, [], ◌∷◌, Text, ltb, length, take, drop, if◌then◌else◌, ℤ, pos, negsuc,
}
use rustice.Functions.Error.{Result, ok, err, invalid_position, invalid_length}

-- The bytes of a character in UTF-8, and of a string, as `str::len` counts them.
abbrev pub char_bytes : ℕ → ℕ
char_bytes c = if ltb c 128 then 1 else if ltb c 2048 then 2 else if ltb c 65536 then 3 else 4

unfoldable pub byte_length : Text → ℕ
byte_length [] = 0
byte_length (c ∷ s) = char_bytes c + byte_length s

-- The checks of the two functions, with the length that the position is held against: `err`, or the
-- number of elements on the left and of those that are replaced.
unfoldable pub check_range : ℕ → ℤ → ℤ → Result (ℕ × ℕ)
check_range base_len (negsuc p) len = err invalid_position
check_range base_len (pos p) (negsuc l) =
    if ltb p 1
    then err invalid_position
    else if ltb (base_len + 1) p
    then err invalid_position
    else err invalid_length
check_range base_len (pos p) (pos l) =
    if ltb p 1
    then err invalid_position
    else if ltb (base_len + 1) p
    then err invalid_position
    else if ltb (base_len + 1 - p) l
    then err invalid_length
    else ok (p - 1, l)

module _ {A : Type 0} where
  -- The left part, what is inserted, and the right part.
  unfoldable pub splice : List A → List A → Result (ℕ × ℕ) → Result (List A)
  splice base inserted (err e) = err e
  splice base inserted (ok (left, len)) =
      ok (take left base ++ (inserted ++ drop len (drop left base)))

-- `insert_string`: the checks are against the bytes, and the parts are counted in characters.
unfoldable pub insert_string : Text → ℤ → ℤ → Text → Result Text
insert_string base position len inserted =
    splice base inserted (check_range (byte_length base) position len)

-- `insert_binary`, where `&base[pos + len..]` is within the bytes.
unfoldable pub insert_binary : List ℕ → ℤ → ℤ → List ℕ → Result (List ℕ)
insert_binary base position len inserted =
    splice base inserted (check_range (length base) position len)
