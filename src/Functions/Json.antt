-- ===== src/Functions/Json.antt =====
-- JSON values as `serde_json` reads them; a number is its text. An object's entries stand in the order
-- of its iteration.
use rustice.Prelude.{ℕ, zero, suc, Bool, Option, none, some, Text, text_beq, if◌then◌else◌, ◌≡◌}

mutual
  pub data Value : Type 0 where
    null : Value
    bool : Bool → Value
    number : Text → Value
    string : Text → Value
    array : Items → Value
    object : Entries → Value

  pub data Items : Type 0 where
    nil : Items
    cons : Value → Items → Items

  pub data Entries : Type 0 where
    end : Entries
    entry : Text → Value → Entries → Entries

-- `Value::get` at an index and at a key
unfoldable pub item : ℕ → Items → Option Value
item i nil = none
item zero (cons v vs) = some v
item (suc i) (cons v vs) = item i vs

unfoldable pub lookup : Text → Entries → Option Value
lookup k end = none
lookup k (entry j v es) = if text_beq j k then some v else lookup k es

-- The keys of each object, at any depth, are distinct, as a map's keys are.
abbrev mutual
  pub DistinctKeys : Value → Type 0
  DistinctKeys (array vs) = DistinctKeysItems vs
  DistinctKeys (object es) = DistinctKeysEntries es
  DistinctKeys _ = Unit {0}

  pub DistinctKeysItems : Items → Type 0
  DistinctKeysItems nil = Unit {0}
  DistinctKeysItems (cons v vs) = DistinctKeys v × DistinctKeysItems vs

  pub DistinctKeysEntries : Entries → Type 0
  DistinctKeysEntries end = Unit {0}
  DistinctKeysEntries (entry k v es) =
      (lookup k es ≡ none) × DistinctKeys v × DistinctKeysEntries es
