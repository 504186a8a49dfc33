-- ===== src/Functions/Flatten/Outer.antt =====
-- What `outer` changes (crates/functions/src/table/flatten/provider.rs).
use mathlib.Core.Option.{some-injective}
use rustice.Prelude.{
  ℕ, ◌+◌, Bool, true, false, Option, none, some, List, [], ◌∷◌, ◌++◌, Text, ◌≡◌, refl, ap, ◌∙◌,
  subst,
}
use rustice.Functions.Paths.{get_json_value, path_to_string}
use rustice.Functions.Json.{Value}
use rustice.Functions.Flatten.{
  FlattenArgs, Row, Out, Serde, flatten_cell, flatten_cells, flatten_arrays, empty_record_batch,
  execute_flatten, null_row, flatten_at, flatten_parsed, stream_rows,
}

abbrev pub with_outer : Bool → FlattenArgs → FlattenArgs
with_outer b args = record args { is_outer = b }

-- The rows, or one row when there is none.
abbrev pub rows_or : Row → List Row → List Row
rows_or r [] = r ∷ []
rows_or r (row ∷ rows) = row ∷ rows

abbrev pub HasNoItem : Row → Type 0
HasNoItem r = (r.row_key ≡ none) × (r.row_index ≡ none) × (r.row_value ≡ none)

-- Equal options, and equal functions of what they hold.
chain :
    {A B : Type 0} (o o' : Option A) (f g : A → Option B)
    → o ≡ o'
    → ((a : A) → f a ≡ g a)
    → elim o as (λ _. Option B) [ none ↦ none | some a ↦ f a ]
      ≡ elim o' as (λ _. Option B) [ none ↦ none | some a ↦ g a ]
chain {A} {B} none o' f g e h =
    subst (λ x. none ≡ elim x as (λ _. Option B) [ none ↦ none | some a ↦ g a ]) e refl
chain {A} {B} (some a) o' f g e h =
    subst (λ x. f a ≡ elim x as (λ _. Option B) [ none ↦ none | some a' ↦ g a' ]) e (h a)

module _ (serde : Serde) (args : FlattenArgs) (b c : Bool) where
  same_at :
      (row_id : ℕ) (o : Option Value) (out : Out)
      → flatten_at serde (with_outer b args) row_id o out
        ≡ flatten_at serde (with_outer c args) row_id o out
  unfolding flatten_at
  same_at row_id none out = refl
  same_at row_id (some v) out = refl

  same_parsed :
      (row_id : ℕ) (o : Option Value) (out : Out)
      → flatten_parsed serde (with_outer b args) row_id o out
        ≡ flatten_parsed serde (with_outer c args) row_id o out
  unfolding flatten_parsed
  same_parsed row_id none out = refl
  same_parsed row_id (some v) out = ap some (same_at row_id (get_json_value v args.path) out)

  same_cell :
      (row_id : ℕ) (cell : Option Text) (out : Out)
      → flatten_cell serde (with_outer b args) row_id cell out
        ≡ flatten_cell serde (with_outer c args) row_id cell out
  unfolding flatten_cell
  same_cell row_id none out = refl
  same_cell row_id (some text) out = same_parsed row_id (serde.from_str text) out

  same_cells :
      (row_id : ℕ) (cells : List (Option Text)) (out : Out)
      → flatten_cells serde (with_outer b args) row_id cells out
        ≡ flatten_cells serde (with_outer c args) row_id cells out
  unfolding flatten_cells
  same_cells row_id [] out = refl
  same_cells row_id (cell ∷ cells) out =
      chain _ _ _ _ (same_cell row_id cell out) (λ o. same_cells row_id cells o)

  same_arrays :
      (row_id : ℕ) (arrays : List (List (Option Text))) (rows : List Row) (last : Option Value)
      → flatten_arrays serde (with_outer b args) row_id arrays rows last
        ≡ flatten_arrays serde (with_outer c args) row_id arrays rows last
  unfolding flatten_arrays
  same_arrays row_id [] rows last = refl
  same_arrays row_id (cells ∷ arrays) rows last =
      chain _ _ _ _ (same_cells (row_id + 1) cells (record { rows = []; last_outer = none }))
        (λ out. same_arrays (row_id + 1) arrays (rows ++ out.rows) out.last_outer)

module _ (serde : Serde) (args : FlattenArgs) where
  stream_rows-with_outer :
      (o : Option (ℕ × List Row × Option Value)) (rows : List Row)
      → stream_rows serde (with_outer false args) o ≡ some rows
      → (r : Row) × HasNoItem r
        × (stream_rows serde (with_outer true args) o ≡ some (rows_or r rows))
  unfolding stream_rows empty_record_batch null_row
  stream_rows-with_outer none rows e = absurd (cc e)
  stream_rows-with_outer (some (row_id, [], last)) rows e =
      let r = record (null_row row_id) {
        row_path = some (path_to_string args.path);
        this = elim last as (λ _. Option Text) [
          | none ↦ none
          | some v ↦ some (serde.to_string_pretty v)
        ];
      } in
      (r, (refl, refl, refl), ap (λ l. some (rows_or r l)) (some-injective [] rows e))
  stream_rows-with_outer (some (row_id, row ∷ rest, last)) rows e =
      let r = null_row row_id in
      (r, (refl, refl, refl), ap (λ l. some (rows_or r l)) (some-injective (row ∷ rest) rows e))

  -- With `outer`, a call has the rows that it has without it, and one row without key, index and value
  -- when these are none: no row is added for an input that has none while another has some.
  execute_flatten-with_outer :
      (row_id : ℕ) (arrays : List (List (Option Text))) (rows : List Row)
      → execute_flatten serde (with_outer false args) row_id arrays ≡ some rows
      → (r : Row) × HasNoItem r
        × (execute_flatten serde (with_outer true args) row_id arrays ≡ some (rows_or r rows))
  unfolding execute_flatten
  execute_flatten-with_outer row_id arrays rows e =
      let found =
        stream_rows-with_outer (flatten_arrays serde (with_outer false args) row_id arrays [] none)
          rows e in
      (
        found.0,
        found.1,
        ap (stream_rows serde (with_outer true args))
              (same_arrays serde args true false row_id arrays [] none)
            ∙ found.2,
      )
