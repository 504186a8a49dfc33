-- ===== src/Functions/Flatten.antt =====
-- `FLATTEN` (crates/functions/src/table/flatten/func.rs and the loop of provider.rs): the rows that the
-- entries of a JSON value make, and the table that a column of values makes. `serde_json` reads and
-- prints; what it says is a parameter.
pub mod Sound
pub mod Complete
pub mod Outer
use rustice.Prelude.{
  ℕ, suc, ◌+◌, Bool, true, false, ◌||◌, Option, none, some, List, [], ◌∷◌, ◌++◌, Text, is_empty,
  if◌then◌else◌,
}
use rustice.Functions.Json.{Value, array, object, Items, nil, cons, Entries, end, entry}
use rustice.Functions.Paths.{PathToken, key, index, get_json_value, path_to_string}

pub data FlattenMode : Type 0 where
  both only_array only_object : FlattenMode

abbrev pub is_object : FlattenMode → Bool
is_object only_array = false
is_object _ = true

abbrev pub is_array : FlattenMode → Bool
is_array only_object = false
is_array _ = true

-- The arguments without the input.
pub record FlattenArgs : Type 0 where
  pub path : List PathToken
  pub is_outer : Bool
  pub is_recursive : Bool
  pub mode : FlattenMode

pub record Row : Type 0 where
  pub seq : ℕ
  pub row_key : Option Text
  pub row_path : Option Text
  pub row_index : Option ℕ
  pub row_value : Option Text
  pub this : Option Text

-- The builders of the columns, which all get longer together.
pub record Out : Type 0 where
  pub rows : List Row
  pub last_outer : Option Value

-- `serde_json::from_str` and `to_string_pretty`
pub record Serde : Type 0 where
  pub from_str : Text → Option Value
  pub to_string_pretty : Value → Text

unfoldable pub append_row : Row → Out → Out
append_row row out = record out { rows = out.rows ++ (row ∷ []) }

unfoldable pub set_last_outer : Value → Out → Out
set_last_outer v out = record out { last_outer = some v }

unfoldable pub null_row : ℕ → Row
null_row row_id = record {
  seq = row_id;
  row_key = none;
  row_path = none;
  row_index = none;
  row_value = none;
  this = none;
}

module _ (serde : Serde) (row_id : ℕ) (recursive : Bool) (mode : FlattenMode) where
  unfoldable pub item_row : Value → List PathToken → ℕ → Value → Row
  item_row whole path i v = record {
    seq = row_id;
    row_key = none;
    row_path = some (path_to_string (path ++ (index i ∷ [])));
    row_index = some i;
    row_value = some (serde.to_string_pretty v);
    this = some (serde.to_string_pretty whole);
  }

  unfoldable pub entry_row : Value → List PathToken → Text → Value → Row
  entry_row whole path k v = record {
    seq = row_id;
    row_key = some k;
    row_path = some (path_to_string (path ++ (key k ∷ [])));
    row_index = none;
    row_value = some (serde.to_string_pretty v);
    this = some (serde.to_string_pretty whole);
  }

  unfoldable mutual
    pub flatten : Value → List PathToken → Out → Out
    flatten (array vs) path out = elim (is_array mode) [
      | true ↦ flatten_items (array vs) 0 vs path (set_last_outer (array vs) out)
      | false ↦ out
    ]
    flatten (object es) path out = elim (is_object mode) [
      | true ↦ flatten_entries (object es) es path (set_last_outer (object es) out)
      | false ↦ out
    ]
    flatten _ path out = out

    -- `for (i, v) in v.iter().enumerate()`
    pub flatten_items : Value → ℕ → Items → List PathToken → Out → Out
    flatten_items whole i nil path out = out
    flatten_items whole i (cons v vs) path out =
        let here = append_row (item_row whole path i v) out in
        flatten_items whole (i + 1) vs path
          (elim recursive [ true ↦ flatten v (path ++ (index i ∷ [])) here | false ↦ here ])

    -- `for (k, v) in v`
    pub flatten_entries : Value → Entries → List PathToken → Out → Out
    flatten_entries whole end path out = out
    flatten_entries whole (entry k v es) path out =
        let here = append_row (entry_row whole path k v) out in
        flatten_entries whole es path
          (elim recursive [ true ↦ flatten v (path ++ (key k ∷ [])) here | false ↦ here ])

module _ (serde : Serde) (args : FlattenArgs) where
  unfoldable pub flatten_at : ℕ → Option Value → Out → Out
  flatten_at row_id none out = out
  flatten_at row_id (some v) out = flatten serde row_id args.is_recursive args.mode v args.path out

  unfoldable pub flatten_parsed : ℕ → Option Value → Out → Option Out
  flatten_parsed row_id none out = none
  flatten_parsed row_id (some json_val) out =
      some (flatten_at row_id (get_json_value json_val args.path) out)

  -- A turn of `for v in array`: a null, or a text; `none` is a text that is no JSON.
  unfoldable pub flatten_cell : ℕ → Option Text → Out → Option Out
  flatten_cell row_id none out = some (append_row (null_row row_id) out)
  flatten_cell row_id (some text) out = flatten_parsed row_id (serde.from_str text) out

  unfoldable pub flatten_cells : ℕ → List (Option Text) → Out → Option Out
  flatten_cells row_id [] out = some out
  flatten_cells row_id (cell ∷ cells) out = elim (flatten_cell row_id cell out) [
    | none ↦ none
    | some o ↦ flatten_cells row_id cells o
  ]

  -- `empty_record_batch`
  unfoldable pub empty_record_batch : ℕ → Option Value → List Row
  empty_record_batch row_id last_outer =
      if args.is_outer
      then record (null_row row_id) {
        row_path = some (path_to_string args.path);
        this = elim last_outer [ none ↦ none | some v ↦ some (serde.to_string_pretty v) ];
      }
        ∷ []
      else []

  -- The loop over the input's arrays, each with its own builders. `rows` are those of the batches
  -- that are kept, and a batch without rows is not.
  unfoldable pub flatten_arrays :
      ℕ → List (List (Option Text)) → List Row → Option Value → Option (ℕ × List Row × Option Value)
  flatten_arrays row_id [] rows last_outer = some (row_id, rows, last_outer)
  flatten_arrays row_id (cells ∷ arrays) rows last_outer =
      elim (flatten_cells (row_id + 1) cells (record { rows = []; last_outer = none })) [
        | none ↦ none
        | some out ↦ flatten_arrays (row_id + 1) arrays (rows ++ out.rows) out.last_outer
      ]

  -- What stands behind the loop.
  unfoldable pub stream_rows : Option (ℕ × List Row × Option Value) → Option (List Row)
  stream_rows none = none
  stream_rows (some (row_id, [], last_outer)) = some (empty_record_batch row_id last_outer)
  stream_rows (some (row_id, row ∷ rows, last_outer)) = some (row ∷ rows)

  -- The rows of `FlattenExec::execute`, before the projection and the limit; `none` is an error.
  unfoldable pub execute_flatten : ℕ → List (List (Option Text)) → Option (List Row)
  execute_flatten row_id arrays = stream_rows (flatten_arrays row_id arrays [] none)
