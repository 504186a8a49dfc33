-- ===== src/Executor/Merge.antt =====
-- The stream of a MERGE (crates/executor/src/datafusion/physical_plan/merge.rs): it counts the rows that
-- are updated and inserted, collects the data files that the statement overwrites with the manifests
-- that hold them, and drops the auxiliary columns. The batches come from another plan.
pub mod Files
pub mod Stream
use rustice.Prelude.{
  ℕ, suc, ◌+◌, min, Bool, true, false, ◌&&◌, not, Option, none, some, List, [], ◌∷◌, ◌++◌, Text,
  text_eq, codes, text_beq, nat_beq, is_empty, any, length, if◌then◌else◌,
}
use rustice.Prelude.HashMap.{HashMap, get, insert}

-- An element of a string array: whether it is valid, and the text that stands there, also under a null.
pub record Cell : Type 0 where
  pub is_valid : Bool
  pub text : Text

-- `distinct` of two elements, which takes two nulls for the same.
unfoldable pub distinct : Cell → Cell → Bool
distinct a b =
    if a.is_valid then (if b.is_valid then not (text_beq a.text b.text) else true) else b.is_valid

-- A turn of the fold over the filtered columns.
unfoldable pub insert_pair : Cell → Cell → HashMap Text Text → HashMap Text Text
insert_pair file manifest acc =
    if manifest.is_valid && (file.is_valid && not (is_empty file.text))
    then insert file.text manifest.text acc
    else acc

-- The rows behind a row, of which those count whose file is distinct from the file before.
unfoldable pub insert_distinct : Cell → List (Cell × Cell) → HashMap Text Text → HashMap Text Text
insert_distinct previous [] acc = acc
insert_distinct previous ((file, manifest) ∷ rows) acc =
    insert_distinct file rows
      (if distinct previous file then insert_pair file manifest acc else acc)

-- The first pair, read by `value(0)` whether it is valid or not.
unfoldable pub first_pair : Cell → Cell → HashMap Text Text
first_pair file manifest = if is_empty file.text then [] else (file.text, manifest.text) ∷ []

unfoldable pub unique_files_and_manifests : List (Cell × Cell) → HashMap Text Text
unique_files_and_manifests [] = []
unique_files_and_manifests ((file, manifest) ∷ rows) =
    insert_distinct file rows (first_pair file manifest)

-- A Boolean array: of each element, whether it is valid, and its bit.
unfoldable pub null_count : List (Bool × Bool) → ℕ
null_count [] = 0
null_count ((valid, bit) ∷ arr) = let rest = null_count arr in if valid then rest else rest + 1

unfoldable pub count_set_bits : List Bool → ℕ
count_set_bits [] = 0
count_set_bits (bit ∷ bits) = let rest = count_set_bits bits in if bit then rest + 1 else rest

abbrev pub bits : List (Bool × Bool) → List Bool
bits [] = []
bits ((valid, bit) ∷ arr) = bit ∷ bits arr

abbrev pub valid_bits : List (Bool × Bool) → List Bool
valid_bits [] = []
valid_bits ((valid, bit) ∷ arr) = (bit && valid) ∷ valid_bits arr

unfoldable pub count_true_and_valid : List (Bool × Bool) → ℕ
count_true_and_valid arr =
    if nat_beq (null_count arr) 0
    then count_set_bits (bits arr)
    else count_set_bits (valid_bits arr)

-- `i64::MAX`
abbrev pub i64_max : ℕ
i64_max = 9223372036854775807

abbrev pub usize_to_i64_saturating : ℕ → ℕ
usize_to_i64_saturating v = min v i64_max

-- A batch of the input: the two columns of the files, those of the marks where they are there, and the
-- other columns by name.
pub record Batch (C : Type 0) : Type 0 where
  pub rows : List (Cell × Cell)
  pub updated : Option (List (Bool × Bool))
  pub inserted : Option (List (Bool × Bool))
  pub columns : List (Text × C)

-- What the input's `poll_next` answers.
pub data Poll (A : Type 0) : Type 0 where
  batch : A → Poll A
  failed : Text → Poll A
  ended : Poll A
  pending : Poll A

pub record MergeStream : Type 0 where
  pub updated_rows : ℕ
  pub inserted_rows : ℕ
  pub matching_files : HashMap Text Text
  pub matching_files_ref : Option (HashMap Text (List Text))

unfoldable pub new_stream : MergeStream
new_stream = record {
  updated_rows = 0;
  inserted_rows = 0;
  matching_files = [];
  matching_files_ref = none;
}

-- `HashMap::extend`
unfoldable pub extend : HashMap Text Text → HashMap Text Text → HashMap Text Text
extend [] m = m
extend ((k, v) ∷ pairs) m = extend pairs (insert k v m)

unfoldable pub add_count : Option (List (Bool × Bool)) → ℕ → ℕ
add_count none n = n
add_count (some col) n = n + usize_to_i64_saturating (count_true_and_valid col)

-- `entry(manifest).and_modify(…).or_insert_with(…)`
unfoldable pub push_file : Text → Text → HashMap Text (List Text) → HashMap Text (List Text)
push_file file manifest grouped =
    insert manifest (elim (get manifest grouped) [ none ↦ file ∷ [] | some v ↦ v ++ (file ∷ []) ])
      grouped

unfoldable pub group_files : HashMap Text Text → HashMap Text (List Text) → HashMap Text (List Text)
group_files [] grouped = grouped
group_files ((file, manifest) ∷ matching_files) grouped =
    group_files matching_files (push_file file manifest grouped)

-- The names of the auxiliary columns.
abbrev auxiliary_columns : List Text
auxiliary_columns =
    codes "__source_exists"
    ∷ codes "__data_file_path"
    ∷ codes "__manifest_file_path"
    ∷ codes "__merge_row_updated"
    ∷ codes "__merge_row_inserted"
    ∷ []

unfoldable pub project : {C : Type 0} → List (Text × C) → List (Text × C)
project [] = []
project ((name, c) ∷ columns) =
    let rest = project columns in
    if any (λ a. text_beq a name) auxiliary_columns then rest else (name, c) ∷ rest

module _ {C : Type 0} where
  unfoldable pub poll_next : Poll (Batch C) → MergeStream → Poll (List (Text × C)) × MergeStream
  poll_next (batch b) s = (
    batch (project b.columns),
    record s {
      matching_files = extend (unique_files_and_manifests b.rows) s.matching_files;
      updated_rows = add_count b.updated s.updated_rows;
      inserted_rows = add_count b.inserted s.inserted_rows;
    },
  )
  poll_next (failed e) s = (failed e, s)
  poll_next ended s = (
    ended,
    record s { matching_files = []; matching_files_ref = some (group_files s.matching_files []) },
  )
  poll_next pending s = (pending, s)

  -- One poll after another.
  unfoldable pub polls : List (Poll (Batch C)) → MergeStream → MergeStream
  polls [] s = s
  polls (p ∷ ps) s = polls ps (poll_next p s).1
