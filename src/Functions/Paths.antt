-- ===== src/Functions/Paths.antt =====
-- Paths into a JSON value: `tokenize_path` and `get_json_value` (crates/functions/src/json.rs) and
-- `path_to_string` (crates/functions/src/table/flatten/func.rs).
pub mod Fuel
pub mod RoundTrip
use rustice.Prelude.{
  ℕ, zero, suc, Bool, true, false, ◌||◌, Option, none, some, List, [], ◌∷◌, ◌++◌, Text, codes,
  nat_beq, length, if◌then◌else◌, show_usize, parse_usize,
}
use rustice.Functions.Json.{Value, array, object, item, lookup}

pub data PathToken : Type 0 where
  key : Text → PathToken
  index : ℕ → PathToken

-- `current.get(…)`
unfoldable pub get_token : PathToken → Value → Option Value
get_token (key k) (object es) = lookup k es
get_token (index i) (array vs) = item i vs
get_token _ _ = none

unfoldable pub get_json_value : Value → List PathToken → Option Value
get_json_value v [] = some v
get_json_value v (t ∷ ts) = elim (get_token t v) [ none ↦ none | some w ↦ get_json_value w ts ]

-- The characters up to a mark, and those after it: the loops that end at a quote or a bracket.
unfoldable pub split_at : ℕ → Text → Text × Text
split_at mark [] = ([], [])
split_at mark (c ∷ s) =
    let rest = split_at mark s in if nat_beq c mark then ([], s) else (c ∷ rest.0, rest.1)

-- The characters that end a bare key.
unfoldable pub is_break : ℕ → Bool
is_break c = nat_beq c b'.' || (nat_beq c b':' || nat_beq c b'[')

unfoldable pub bare_key : Text → Text × Text
bare_key [] = ([], [])
bare_key (c ∷ s) = let rest = bare_key s in if is_break c then ([], c ∷ s) else (c ∷ rest.0, rest.1)

-- `tokens.push(…)`, and the rest of the loop.
unfoldable pub push : PathToken → Option (List PathToken) → Option (List PathToken)
push t none = none
push t (some ts) = some (t ∷ ts)

unfoldable pub push_index : Option ℕ → Option (List PathToken) → Option (List PathToken)
push_index none rest = none
push_index (some i) rest = push (index i) rest

-- What a round of the outer loop takes off the path, told what the loop does with the rest.
unfoldable pub round : ℕ → Text → (Text → Option (List PathToken)) → Option (List PathToken)
round c s continue =
    if nat_beq c b'.' || nat_beq c b':'
    then continue s
    else if nat_beq c b'"'
    then push (key (split_at b'"' s).0) (continue (split_at b'"' s).1)
    else if nat_beq c b'['
    then push_index (parse_usize (split_at b']' s).0) (continue (split_at b']' s).1)
    else push (key (bare_key (c ∷ s)).0) (continue (bare_key (c ∷ s)).1)

-- The loop, on fuel.
unfoldable pub tokenize_on : ℕ → Text → Option (List PathToken)
tokenize_on zero s = some []
tokenize_on (suc fuel) [] = some []
tokenize_on (suc fuel) (c ∷ s) = round c s (tokenize_on fuel)

-- A round takes a character at least.
unfoldable pub tokenize_path : Text → Option (List PathToken)
tokenize_path path = tokenize_on (length path) path

-- The tokens behind the first.
unfoldable pub tail_to_string : List PathToken → Text
tail_to_string [] = []
tail_to_string (key k ∷ ts) = (b'.' ∷ k) ++ tail_to_string ts
tail_to_string (index i ∷ ts) = (b'[' ∷ (show_usize i ++ (b']' ∷ []))) ++ tail_to_string ts

unfoldable pub path_to_string : List PathToken → Text
path_to_string (key k ∷ ts) = k ++ tail_to_string ts
path_to_string ts = tail_to_string ts
