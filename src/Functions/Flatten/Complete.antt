-- ===== src/Functions/Flatten/Complete.antt =====
-- Each value inside has its row (crates/functions/src/table/flatten).
use mathlib.Core.Option.{some-injective}
use mathlib.Core.List.{append_assoc}
use rustice.Prelude.{
  sym, ℕ, zero, suc, ◌+◌, Bool, true, false, some, List, [], ◌∷◌, ◌++◌, Text, text_beq,
  text_beq_iff, ◌≡◌, refl, arith, ◌⊎◌, inl, inr, Bool-cases, Option-cases, subst,
}
use rustice.Functions.Json.{
  Value, null, bool, number, string, array, object, Items, nil, cons, Entries, end, entry, item,
  lookup,
}
use rustice.Functions.Paths.{PathToken, key, index, get_token, get_json_value, path_to_string}
use rustice.Functions.Flatten.{
  FlattenMode, both, is_array, is_object, Row, Out, Serde, append_row, set_last_outer, item_row,
  entry_row, flatten, flatten_items, flatten_entries,
}

-- A row shows the value under the path.
abbrev pub Shows : Serde → List PathToken → Value → List Row → Type 0
Shows serde path v [] = ⊥
Shows serde path v (row ∷ rows) =
    ((row.row_path ≡ some (path_to_string path))
      × (row.row_value ≡ some (serde.to_string_pretty v)))
    ⊎ Shows serde path v rows

Shows-append :
    (serde : Serde) (path : List PathToken) (v : Value) (rows : List Row) (row : Row)
    → Shows serde path v rows
    → Shows serde path v (rows ++ (row ∷ []))
Shows-append serde path v [] row h = absurd h
Shows-append serde path v (r ∷ rows) row (inl h) = inl h
Shows-append serde path v (r ∷ rows) row (inr h) = inr (Shows-append serde path v rows row h)

shown_last :
    (serde : Serde) (path : List PathToken) (v : Value) (rows : List Row) (row : Row)
    → row.row_path ≡ some (path_to_string path)
    → row.row_value ≡ some (serde.to_string_pretty v)
    → Shows serde path v (rows ++ (row ∷ []))
shown_last serde path v [] row p q = inl (p, q)
shown_last serde path v (r ∷ rows) row p q = inr (shown_last serde path v rows row p q)

module _ (serde : Serde) (row_id : ℕ) (recursive : Bool) (mode : FlattenMode) (p : List PathToken)
    (w : Value) where
  either_Shows :
      (b : Bool) (x y : Out)
      → Shows serde p w x.rows
      → Shows serde p w y.rows
      → Shows serde p w (elim b as (λ _. Out) [ true ↦ x | false ↦ y ]).rows
  either_Shows true x y hx hy = hx
  either_Shows false x y hx hy = hy

  -- The rows that are there stay.
  mutual
    unfolding flatten flatten_items flatten_entries set_last_outer append_row

    flatten_keeps :
        (v : Value) (path : List PathToken) (out : Out)
        → Shows serde p w out.rows
        → Shows serde p w (flatten serde row_id recursive mode v path out).rows
    flatten_keeps (array vs) path out h =
        either_Shows (is_array mode) _ _
          (flatten_items_keeps (array vs) 0 vs path (set_last_outer (array vs) out) h) h
    flatten_keeps (object es) path out h =
        either_Shows (is_object mode) _ _
          (flatten_entries_keeps (object es) es path (set_last_outer (object es) out) h) h
    flatten_keeps null path out h = h
    flatten_keeps (bool b) path out h = h
    flatten_keeps (number t) path out h = h
    flatten_keeps (string t) path out h = h

    flatten_items_keeps :
        (whole : Value) (i : ℕ) (vs : Items) (path : List PathToken) (out : Out)
        → Shows serde p w out.rows
        → Shows serde p w (flatten_items serde row_id recursive mode whole i vs path out).rows
    flatten_items_keeps whole i nil path out h = h
    flatten_items_keeps whole i (cons v vs) path out h =
        let row = item_row serde row_id recursive mode whole path i v in
        let here = Shows-append serde p w out.rows row h in
        let below = flatten_keeps v (path ++ (index i ∷ [])) (append_row row out) here in
        flatten_items_keeps whole (i + 1) vs path _ (either_Shows recursive _ _ below here)

    flatten_entries_keeps :
        (whole : Value) (es : Entries) (path : List PathToken) (out : Out)
        → Shows serde p w out.rows
        → Shows serde p w (flatten_entries serde row_id recursive mode whole es path out).rows
    flatten_entries_keeps whole end path out h = h
    flatten_entries_keeps whole (entry k v es) path out h =
        let row = entry_row serde row_id recursive mode whole path k v in
        let here = Shows-append serde p w out.rows row h in
        let below = flatten_keeps v (path ++ (key k ∷ [])) (append_row row out) here in
        flatten_entries_keeps whole es path _ (either_Shows recursive _ _ below here)

-- What stands under a token, and under the tokens behind it.
get_json_value_first :
    (v w : Value) (t : PathToken) (ts : List PathToken)
    → get_json_value v (t ∷ ts) ≡ some w
    → (x : Value) × (get_token t v ≡ some x) × (get_json_value x ts ≡ some w)
unfolding get_json_value
get_json_value_first v w t ts e = elim (Option-cases (get_token t v)) [
  | inl n ↦ absurd (ground (arith, n, e))
  | inr (x, h) ↦ (x, h, rw (h, get_json_value) at e)
]

module _ (serde : Serde) (row_id : ℕ) where
  shown_moved :
      (path path' : List PathToken) (w : Value) (rows : List Row)
      → path ≡ path'
      → Shows serde path w rows
      → Shows serde path' w rows
  shown_moved path path' w rows e h = subst (λ p. Shows serde p w rows) e h

  -- The row of a child, and those behind it.
  child-Shows :
      (v : Value) (path : List PathToken) (u : PathToken) (row : Row) (out : Out)
      (ts : List PathToken) (w : Value)
      → row.row_path ≡ some (path_to_string (path ++ (u ∷ [])))
      → row.row_value ≡ some (serde.to_string_pretty v)
      → get_json_value v ts ≡ some w
      → ((t : PathToken) (rest : List PathToken)
          → get_json_value v (t ∷ rest) ≡ some w
          → Shows serde
              ((path ++ (u ∷ [])) ++ (t ∷ rest))
              w
              (flatten serde row_id true both v (path ++ (u ∷ [])) (append_row row out)).rows)
      → Shows serde
          (path ++ (u ∷ ts))
          w
          (flatten serde row_id true both v (path ++ (u ∷ [])) (append_row row out)).rows
  unfolding append_row get_json_value
  child-Shows v path u row out [] w p q e ih =
      flatten_keeps serde row_id true both (path ++ (u ∷ [])) w v (path ++ (u ∷ []))
        (append_row row out) (shown_last serde (path ++ (u ∷ [])) w out.rows row p (cc (q, e)))
  child-Shows v path u row out (t ∷ ts) w p q e ih =
      shown_moved _ _ w _ (append_assoc path (u ∷ []) (t ∷ ts)) (ih t ts e)

  mutual
    unfolding flatten flatten_items flatten_entries set_last_outer append_row get_token item lookup
        get_json_value item_row entry_row

    shown_value :
        (v : Value) (path : List PathToken) (out : Out) (t : PathToken) (ts : List PathToken)
        (w : Value)
        → get_json_value v (t ∷ ts) ≡ some w
        → Shows serde (path ++ (t ∷ ts)) w (flatten serde row_id true both v path out).rows
    shown_value (array vs) path out (index j) ts w e =
        let f = get_json_value_first (array vs) w (index j) ts e in
        subst
          (λ i.
            Shows serde (path ++ (index i ∷ ts)) w
              (flatten serde row_id true both (array vs) path out).rows)
          (omega arith)
          (shown_items (array vs) 0 vs path (set_last_outer (array vs) out) j ts f.0 w f.1 f.2)
    shown_value (array vs) path out (key k) ts w e = absurd (cc e)
    shown_value (object es) path out (key k) ts w e =
        let f = get_json_value_first (object es) w (key k) ts e in
        shown_entries (object es) es path (set_last_outer (object es) out) k ts f.0 w f.1 f.2
    shown_value (object es) path out (index j) ts w e = absurd (cc e)
    shown_value null path out (key k) ts w e = absurd (cc e)
    shown_value null path out (index j) ts w e = absurd (cc e)
    shown_value (bool b) path out (key k) ts w e = absurd (cc e)
    shown_value (bool b) path out (index j) ts w e = absurd (cc e)
    shown_value (number n) path out (key k) ts w e = absurd (cc e)
    shown_value (number n) path out (index j) ts w e = absurd (cc e)
    shown_value (string s) path out (key k) ts w e = absurd (cc e)
    shown_value (string s) path out (index j) ts w e = absurd (cc e)

    shown_items :
        (whole : Value) (i : ℕ) (vs : Items) (path : List PathToken) (out : Out) (j : ℕ)
        (ts : List PathToken) (x w : Value)
        → item j vs ≡ some x
        → get_json_value x ts ≡ some w
        → Shows serde
            (path ++ (index (i + j) ∷ ts))
            w
            (flatten_items serde row_id true both whole i vs path out).rows
    shown_items whole i nil path out j ts x w at e = absurd (cc at)
    shown_items whole i (cons v vs) path out zero ts x w at e =
        let row = item_row serde row_id true both whole path i v in
        let p : List PathToken = path ++ (index i ∷ []) in
        let found : get_json_value v ts ≡ some w =
          subst (λ y. get_json_value y ts ≡ some w) (sym (some-injective v x at)) e in
        let here =
          child-Shows v path (index i) row out ts w refl refl found
            (λ t rest h. shown_value v p (append_row row out) t rest w h) in
        subst
          (λ n.
            Shows serde (path ++ (index n ∷ ts)) w
              (flatten_items serde row_id true both whole i (cons v vs) path out).rows)
          (omega arith)
          (flatten_items_keeps serde row_id true both (path ++ (index i ∷ ts)) w whole (i + 1) vs
            path (flatten serde row_id true both v p (append_row row out)) here)
    shown_items whole i (cons v vs) path out (suc j) ts x w at e =
        let ih =
          shown_items whole (i + 1) vs path
            (flatten serde row_id true both v (path ++ (index i ∷ []))
              (append_row (item_row serde row_id true both whole path i v) out))
            j ts x w at e in
        subst
          (λ n.
            Shows serde (path ++ (index n ∷ ts)) w
              (flatten_items serde row_id true both whole i (cons v vs) path out).rows)
          (omega arith) ih

    shown_entries :
        (whole : Value) (es : Entries) (path : List PathToken) (out : Out) (k : Text)
        (ts : List PathToken) (x w : Value)
        → lookup k es ≡ some x
        → get_json_value x ts ≡ some w
        → Shows serde
            (path ++ (key k ∷ ts))
            w
            (flatten_entries serde row_id true both whole es path out).rows
    shown_entries whole end path out k ts x w at e = absurd (cc at)
    shown_entries whole (entry j v es) path out k ts x w at e = elim (Bool-cases (text_beq j k)) [
      | inl same ↦
          let row = entry_row serde row_id true both whole path j v in
          let p : List PathToken = path ++ (key j ∷ []) in
          let first : some v ≡ some x = rw same at at in
          let found : get_json_value v ts ≡ some w =
            subst (λ y. get_json_value y ts ≡ some w) (sym (some-injective v x first)) e in
          let here =
            child-Shows v path (key j) row out ts w refl refl found
              (λ t rest h. shown_value v p (append_row row out) t rest w h) in
          subst
            (λ n.
              Shows serde (path ++ (key n ∷ ts)) w
                (flatten_entries serde row_id true both whole (entry j v es) path out).rows)
            ((text_beq_iff j k).0 same)
            (flatten_entries_keeps serde row_id true both (path ++ (key j ∷ ts)) w whole es path
              (flatten serde row_id true both v p (append_row row out)) here)
      | inr other ↦
          shown_entries whole es path
            (flatten serde row_id true both v (path ++ (key j ∷ []))
              (append_row (entry_row serde row_id true both whole path j v) out))
            k ts x w (rw other at at) e
    ]

  -- Each value that a path leads to from the flattened value has its row under that path, when the
  -- flattening is recursive and of both modes.
  pub flatten-Shows :
      (v : Value) (path : List PathToken) (out : Out) (t : PathToken) (ts : List PathToken)
      (w : Value)
      → get_json_value v (t ∷ ts) ≡ some w
      → Shows serde (path ++ (t ∷ ts)) w (flatten serde row_id true both v path out).rows
  flatten-Shows v path out t ts w e = shown_value v path out t ts w e
