-- ===== src/Functions/Flatten/Sound.antt =====
-- The rows of `FLATTEN` (crates/functions/src/table/flatten) lead back into the value.
use mathlib.Core.Option.{some-injective}
use rustice.Prelude.{
  ℕ, suc, ◌+◌, Bool, true, false, Option, none, some, List, [], ◌∷◌, ◌++◌, Text, text_beq,
  text_beq_iff, ◌≡◌, refl, arith, ap, ◌∙◌, Bool-cases, Option-cases, inl, inr, subst,
}
use rustice.Functions.Json.{
  Value, null, bool, number, string, array, object, Items, nil, cons, Entries, end, entry, item,
  lookup, DistinctKeys, DistinctKeysItems, DistinctKeysEntries,
}
use rustice.Functions.Paths.{PathToken, key, index, get_token, get_json_value, path_to_string}
use rustice.Functions.Flatten.{
  FlattenMode, is_array, is_object, Row, Out, Serde, append_row, set_last_outer, item_row,
  entry_row, flatten, flatten_items, flatten_entries,
}

pub one_token : (v : Value) (t : PathToken) → get_json_value v (t ∷ []) ≡ get_token t v
unfolding get_json_value
one_token v t =
    elim (get_token t v)
      as (λ o. (elim o as (λ _. Option Value) [ none ↦ none | some w ↦ some w ]) ≡ o) [
        | none ↦ refl
        | some w ↦ refl
      ]

pub get_json_value-append :
    (v w : Value) (ts : List PathToken) (t : PathToken)
    → get_json_value v ts ≡ some w
    → get_json_value v (ts ++ (t ∷ [])) ≡ get_token t w
unfolding get_json_value
get_json_value-append v w [] t e =
    subst (λ x. get_json_value v (t ∷ []) ≡ get_token t x) (some-injective v w e) (one_token v t)
get_json_value-append v w (u ∷ ts) t e = elim (Option-cases (get_token u v)) [
  | inl n ↦ ground (arith, n, e)
  | inr (x, h) ↦
      let deeper : get_json_value x ts ≡ some w = rw (h, get_json_value) at e in
      rw (h, get_json_value) (get_json_value-append x w ts t deeper)
]

-- The row's path leads from the value to what the row shows.
pub record LeadsTo (serde : Serde) (root : Value) (row : Row) : Type 0 where
  pub tokens : List PathToken
  pub found : Value
  pub reached : get_json_value root tokens ≡ some found
  pub path : row.row_path ≡ some (path_to_string tokens)
  pub shown : row.row_value ≡ some (serde.to_string_pretty found)

abbrev pub AllLeadTo : Serde → Value → List Row → Type 0
AllLeadTo serde root [] = Unit {0}
AllLeadTo serde root (row ∷ rows) = LeadsTo serde root row × AllLeadTo serde root rows

AllLeadTo-append :
    (serde : Serde) (root : Value) (rows : List Row) (row : Row)
    → AllLeadTo serde root rows
    → LeadsTo serde root row
    → AllLeadTo serde root (rows ++ (row ∷ []))
AllLeadTo-append serde root [] row h r = (r, tt)
AllLeadTo-append serde root (a ∷ rows) row h r = (h.0, AllLeadTo-append serde root rows row h.1 r)

item_at :
    (whole vs : Items) (v : Value) (i : ℕ)
    → ((j : ℕ) → item (i + j) whole ≡ item j (cons v vs))
    → (j : ℕ) → item ((i + 1) + j) whole ≡ item j vs
unfolding item
item_at whole vs v i h j = let e : (i + 1) + j ≡ i + suc j = omega arith in rw e (h (suc j))

lookup_first : (k : Text) (v : Value) (es : Entries) → lookup k (entry k v es) ≡ some v
unfolding lookup
lookup_first k v es = rw ((text_beq_iff k k).1 refl) refl

lookup_in :
    (whole es : Entries) (j : Text) (v : Value)
    → lookup j es ≡ none
    → ((k : Text) (w : Value) → lookup k (entry j v es) ≡ some w → lookup k whole ≡ some w)
    → (k : Text) (w : Value) → lookup k es ≡ some w
    → lookup k whole ≡ some w
unfolding lookup
lookup_in whole es j v d h k w e = elim (Bool-cases (text_beq j k)) [
  | inl same ↦ let eq = (text_beq_iff j k).0 same in absurd (cc (eq, d, e))
  | inr other ↦ h k w (rw other e)
]

module _ (serde : Serde) (row_id : ℕ) (recursive : Bool) (mode : FlattenMode) (root : Value) where
  item_row-LeadsTo :
      (whole : Items) (path : List PathToken) (i : ℕ) (v : Value)
      → get_json_value root path ≡ some (array whole)
      → item i whole ≡ some v
      → LeadsTo serde root (item_row serde row_id recursive mode (array whole) path i v)
  unfolding item_row get_token
  item_row-LeadsTo whole path i v reached e = record {
    tokens = path ++ (index i ∷ []);
    found = v;
    reached = get_json_value-append root (array whole) path (index i) reached ∙ e;
    path = refl;
    shown = refl;
  }

  entry_row-LeadsTo :
      (whole : Entries) (path : List PathToken) (k : Text) (v : Value)
      → get_json_value root path ≡ some (object whole)
      → lookup k whole ≡ some v
      → LeadsTo serde root (entry_row serde row_id recursive mode (object whole) path k v)
  unfolding entry_row get_token
  entry_row-LeadsTo whole path k v reached e = record {
    tokens = path ++ (key k ∷ []);
    found = v;
    reached = get_json_value-append root (object whole) path (key k) reached ∙ e;
    path = refl;
    shown = refl;
  }

  either_AllLeadTo :
      (b : Bool) (x y : Out)
      → AllLeadTo serde root x.rows
      → AllLeadTo serde root y.rows
      → AllLeadTo serde root (elim b as (λ _. Out) [ true ↦ x | false ↦ y ]).rows
  either_AllLeadTo true x y hx hy = hx
  either_AllLeadTo false x y hx hy = hy

  mutual
    unfolding flatten flatten_items flatten_entries set_last_outer append_row item lookup get_token

    flatten_leads :
        (v : Value) (path : List PathToken) (out : Out)
        → get_json_value root path ≡ some v
        → DistinctKeys v
        → AllLeadTo serde root out.rows
        → AllLeadTo serde root (flatten serde row_id recursive mode v path out).rows
    flatten_leads (array vs) path out reached d h =
        either_AllLeadTo (is_array mode) _ _
          (flatten_items_leads vs 0 vs path (set_last_outer (array vs) out) reached
            (λ j. ap (λ x. item x vs) (omega arith)) d h)
          h
    flatten_leads (object es) path out reached d h =
        either_AllLeadTo (is_object mode) _ _
          (flatten_entries_leads es es path (set_last_outer (object es) out) reached (λ k w x. x) d
            h)
          h
    flatten_leads null path out reached d h = h
    flatten_leads (bool b) path out reached d h = h
    flatten_leads (number t) path out reached d h = h
    flatten_leads (string t) path out reached d h = h

    flatten_items_leads :
        (whole : Items) (i : ℕ) (vs : Items) (path : List PathToken) (out : Out)
        → get_json_value root path ≡ some (array whole)
        → ((j : ℕ) → item (i + j) whole ≡ item j vs)
        → DistinctKeysItems vs
        → AllLeadTo serde root out.rows
        → AllLeadTo serde root
            (flatten_items serde row_id recursive mode (array whole) i vs path out).rows
    flatten_items_leads whole i nil path out reached at d h = h
    flatten_items_leads whole i (cons v vs) path out reached at d h =
        let shown : item i whole ≡ some v = ap (λ x. item x whole) (omega arith) ∙ at 0 in
        let here =
          AllLeadTo-append serde root out.rows _ h
            (item_row-LeadsTo whole path i v reached shown) in
        let below =
          flatten_leads v (path ++ (index i ∷ []))
            (append_row (item_row serde row_id recursive mode (array whole) path i v) out)
            (get_json_value-append root (array whole) path (index i) reached ∙ shown) d.0 here in
        flatten_items_leads whole (i + 1) vs path _ reached (item_at whole vs v i at) d.1
          (either_AllLeadTo recursive _ _ below here)

    flatten_entries_leads :
        (whole es : Entries) (path : List PathToken) (out : Out)
        → get_json_value root path ≡ some (object whole)
        → ((k : Text) (w : Value) → lookup k es ≡ some w → lookup k whole ≡ some w)
        → DistinctKeysEntries es
        → AllLeadTo serde root out.rows
        → AllLeadTo serde root
            (flatten_entries serde row_id recursive mode (object whole) es path out).rows
    flatten_entries_leads whole end path out reached in_whole d h = h
    flatten_entries_leads whole (entry k v es) path out reached in_whole d h =
        let shown : lookup k whole ≡ some v = in_whole k v (lookup_first k v es) in
        let here =
          AllLeadTo-append serde root out.rows _ h
            (entry_row-LeadsTo whole path k v reached shown) in
        let below =
          flatten_leads v (path ++ (key k ∷ []))
            (append_row (entry_row serde row_id recursive mode (object whole) path k v) out)
            (get_json_value-append root (object whole) path (key k) reached ∙ shown) d.1 here in
        flatten_entries_leads whole es path _ reached (lookup_in whole es k v d.0 in_whole) d.2
          (either_AllLeadTo recursive _ _ below here)

  -- When the rows so far show values that their paths lead to from the root, so do the rows after the
  -- flattening of a value, where its own path leads to it from the root and the keys of each of its
  -- objects are distinct.
  pub flatten-AllLeadTo :
      (v : Value) (path : List PathToken) (out : Out)
      → get_json_value root path ≡ some v
      → DistinctKeys v
      → AllLeadTo serde root out.rows
      → AllLeadTo serde root (flatten serde row_id recursive mode v path out).rows
  flatten-AllLeadTo v path out reached d h = flatten_leads v path out reached d h
