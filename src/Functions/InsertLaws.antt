-- ===== src/Functions/InsertLaws.antt =====
-- `insert` (crates/functions/src/string-binary/insert.rs): what it replaces, and what it does with
-- positions behind the end.
use rustice.Prelude.{
  ℕ, ◌+◌, ◌-◌, ◌≤◌, ◌<◌, List, [], ◌++◌, Text, length, take, drop, pos, ◌≡◌, refl, arith,
  length-append, length-take, length-drop, take_all, drop_all, take-append, drop-append,
  append-take-drop,
}
use mathlib.Core.List.{append-nil}
use rustice.Functions.Error.{ok}
use rustice.Functions.Insert.{byte_length, check_range, splice, insert_string, insert_binary}

module _ {A : Type 0} where
  length_splice :
      (base inserted : List A) (left len : ℕ)
      → left + len ≤ length base
      → length (take left base ++ (inserted ++ drop len (drop left base))) + len
        ≡ length base + length inserted
  length_splice base inserted left len within = omega (
    arith,
    within,
    length-append (take left base) (inserted ++ drop len (drop left base)),
    length-append inserted (drop len (drop left base)),
    length-take left base,
    length-drop len (drop left base),
    length-drop left base,
  )

  -- What a replacement left out, put back in the place of what it put in, gives the list again.
  splice_back :
      (base inserted : List A) (left len : ℕ)
      → left + len ≤ length base
      → let result = take left base ++ (inserted ++ drop len (drop left base)) in
        take left result ++ (take len (drop left base) ++ drop (length inserted) (drop left result))
        ≡ base
  splice_back base inserted left len within =
      let right = inserted ++ drop len (drop left base) in
      let long : length (take left base) ≡ left = omega (arith, within, length-take left base) in
      rw (take-append left (take left base) right long) (
        rw (drop-append left (take left base) right long) (
          rw (drop-append (length inserted) inserted (drop len (drop left base)) refl)
            (rw (append-take-drop len (drop left base)) (append-take-drop left base))))

-- For a position from 1 on and a length that ends within the value, `insert_binary` answers ok: the
-- value has as many bytes less as are replaced and as many more as are put in, and to put the old
-- bytes back in the place of the new ones gives the old value.
pub insert_binary-insert_binary :
    (base inserted : List ℕ) (p l : ℕ)
    → 1 ≤ p
    → p + l ≤ length base + 1
    → (result : List ℕ) × (insert_binary base (pos p) (pos l) inserted ≡ ok result)
      × (length result + l ≡ length base + length inserted)
      × (insert_binary result (pos p) (pos (length inserted)) (take l (drop (p - 1) base))
          ≡ ok base)
unfolding insert_binary check_range splice
insert_binary-insert_binary base inserted p l first within =
    let result = take (p - 1) base ++ (inserted ++ drop l (drop (p - 1) base)) in
    let size = length_splice base inserted (p - 1) l (omega (arith, first, within)) in
    (
      result,
      ground (arith, first, within),
      size,
      ground (
        arith,
        first,
        within,
        size,
        splice_back base inserted (p - 1) l (omega (arith, first, within)),
      ),
    )

-- `insert_string` holds the position against the bytes: in a string with characters of several bytes,
-- a position behind the one after the last character, but within the bytes, is not refused, and the
-- text is put in at the end.
insert_string-past_end :
    (base inserted : Text) (p : ℕ)
    → length base + 1 < p
    → p ≤ byte_length base + 1
    → insert_string base (pos p) (pos 0) inserted ≡ ok (base ++ inserted)
unfolding insert_string check_range splice
insert_string-past_end base inserted p past within =
    let front : take (p - 1) base ≡ base = take_all (p - 1) base (omega (arith, past)) in
    let back : drop (p - 1) base ≡ [] = drop_all (p - 1) base (omega (arith, past)) in
    ground (arith, past, within, front, back, append-nil inserted)
