-- ===== src/Functions/Examples.antt =====
-- The theorems about the string functions at concrete inputs.
use rustice.Prelude.{
  Bool, ◌++◌, text_beq, text_beq_iff, subst, ℕ, ◌+◌, true, false, Option, none, some, List, [], ◌∷◌,
  Text, codes, length, pos, negsuc, ◌≡◌, refl, arith,
}
use rustice.Functions.Error.{ok}
use rustice.Functions.Substr.{
  Scalar, utf8, binary, numeric, compute_substr, process_row, simplify, literal,
}
use rustice.Functions.SubstrLaws.{
  reference, compute_substr-reference, process_row-simplify, take_length,
}
use rustice.Functions.Insert.{insert_binary}
use rustice.Functions.InsertLaws.{insert_binary-insert_binary}
use rustice.Functions.Json.{
  Items, number, string, lookup, item, Value, null, bool, array, object, nil, cons, end, entry,
}
use rustice.Functions.Paths.{
  get_token, is_break, PathToken, key, index, get_json_value, path_to_string, tokenize_path,
  tokenize_on,
}
use rustice.Functions.Paths.Fuel.{tokenize_on-fuel}
use rustice.Functions.Paths.RoundTrip.{tokenize_path-path_to_string}
use rustice.Functions.Arrays
use rustice.Functions.Arrays.{len, Result, actual_index, max_zero, insert_value, remove_at_position}
use rustice.Functions.Arrays.Laws.{remove_at_position-insert_value}
use rustice.Functions.Arrays.Sets.{contains, distinct_value}
use rustice.Functions.Arrays.Sets.Laws.{IsDistinct, contains-distinct_value}
use rustice.Functions.Flatten.{FlattenArgs, both, Out, Serde, flatten}
use rustice.Functions.Flatten.Sound.{AllLeadTo, flatten-AllLeadTo}
use rustice.Functions.Flatten.Complete.{Shows, flatten-Shows}

compute_substr-reference_example : compute_substr (codes "mystring") (negsuc 0) (some 1) ≡ codes "g"
unfolding reference take_length
compute_substr-reference_example = compute_substr-reference (codes "mystring") (negsuc 0) (some 1)

-- Bytes are printed as one letter here.
abbrev print_scalar : Scalar → Text
print_scalar (utf8 s) = s
print_scalar (binary bytes) = codes "b"
print_scalar (numeric s) = s

process_row-simplify_example :
    (r : Option Text) × (simplify print_scalar
        (literal (some (utf8 (codes "abc"))))
        (literal (some (pos 2)))
        (some (literal (some (pos 1))))
      ≡ some r)
    × (process_row (some (codes "abc")) (some (pos 2)) (some (some (pos 1))) ≡ ok r)
process_row-simplify_example =
    process_row-simplify print_scalar (λ s. refl) (some (codes "abc")) (some (pos 2))
      (some (some (pos 1))) refl

insert_binary-insert_binary_example :
    (result : List ℕ) × (insert_binary (1 ∷ 2 ∷ 3 ∷ []) (pos 2) (pos 1) (7 ∷ 8 ∷ []) ≡ ok result)
    × (length result + 1 ≡ 5)
    × (insert_binary result (pos 2) (pos 2) (2 ∷ []) ≡ ok (1 ∷ 2 ∷ 3 ∷ []))
insert_binary-insert_binary_example =
    insert_binary-insert_binary (1 ∷ 2 ∷ 3 ∷ []) (7 ∷ 8 ∷ []) 2 1 (omega arith) (omega arith)

abbrev tokens : List PathToken
tokens = key (codes "a") ∷ index 12 ∷ key (codes "b") ∷ []

tokenize_on-fuel_example : tokenize_on 20 (codes "a[12].b") ≡ tokenize_path (codes "a[12].b")
tokenize_on-fuel_example = tokenize_on-fuel 20 (codes "a[12].b") (omega arith)

tokenize_path-path_to_string_example : tokenize_path (path_to_string tokens) ≡ some tokens
unfolding is_break
tokenize_path-path_to_string_example =
    tokenize_path-path_to_string tokens (refl, (omega arith, (refl, tt)))

-- `{"a": [true, null]}`
abbrev pair : Value
pair = array (cons (bool true) (cons null nil))

abbrev document : Value
document = object (entry (codes "a") pair end)

abbrev serde : Serde
serde = record { from_str = λ t. some document; to_string_pretty = λ v. codes "v" }

abbrev no_rows : Out
no_rows = record { rows = []; last_outer = none }

flatten-AllLeadTo_example :
    AllLeadTo serde document (flatten serde 1 true both document [] no_rows).rows
unfolding get_json_value lookup
flatten-AllLeadTo_example =
    flatten-AllLeadTo serde 1 true both document document [] no_rows refl (refl, (tt, (tt, tt)), tt)
      tt

flatten-Shows_example :
    Shows serde
      (key (codes "a") ∷ index 0 ∷ [])
      (bool true)
      (flatten serde 1 true both document [] no_rows).rows
unfolding get_json_value get_token lookup item
flatten-Shows_example =
    flatten-Shows serde 1 document [] no_rows (key (codes "a")) (index 0 ∷ []) (bool true) refl

abbrev flatten_args : FlattenArgs
flatten_args = record { path = []; is_outer = true; is_recursive = false; mode = both }

-- A text that is read as an array with nothing in it.
abbrev empty_serde : Serde
empty_serde = record serde { from_str = λ t. some (array nil) }

-- The position -1 of an array with two items
remove_at_position-insert_value_example :
    let vs = cons null (cons (bool true) nil) in
    let result = cons null (cons (bool false) (cons (bool true) nil)) in
    (insert_value (array vs) (negsuc 0) (bool false) ≡ Arrays.ok result)
    × (remove_at_position (array result) (pos 1) ≡ Arrays.ok (some vs))
    × (remove_at_position (array result) (negsuc 1) ≡ Arrays.ok (some vs))
unfolding len Arrays.take_items Arrays.drop_items
remove_at_position-insert_value_example =
    remove_at_position-insert_value (negsuc 0) (bool false) (cons null (cons (bool true) nil))
      (omega arith)

-- Scalars are equal when they are written alike, and nothing else is equal to anything.
abbrev written : Value → Option Text
written null = some (codes "null")
written (bool true) = some (codes "true")
written (bool false) = some (codes "false")
written (number n) = some n
written (string s) = some (codes "'" ++ s)
written _ = none

abbrev written_alike : Option Text → Option Text → Bool
written_alike (some s) (some t) = text_beq s t
written_alike _ _ = false

abbrev alike : Value → Value → Bool
alike v w = written_alike (written v) (written w)

written_alike_trans :
    (a b c : Option Text)
    → written_alike a b ≡ true
    → written_alike b c ≡ true
    → written_alike a c ≡ true
written_alike_trans (some s) (some t) (some u) h k =
    subst (λ t'. text_beq s t' ≡ true) ((text_beq_iff t u).0 k) h
written_alike_trans (some s) (some t) none h k = k
written_alike_trans (some s) none c h k = absurd (ground (arith, h))
written_alike_trans none b c h k = h

contains-distinct_value_example :
    let vs = cons null (cons (bool true) (cons null nil)) in
    (result : Items) × (distinct_value alike (array vs) ≡ some result)
    × (contains alike result null ≡ contains alike vs null)
    × IsDistinct alike result
contains-distinct_value_example =
    contains-distinct_value alike (λ u v w. written_alike_trans (written u) (written v) (written w))
      (cons null (cons (bool true) (cons null nil))) null
