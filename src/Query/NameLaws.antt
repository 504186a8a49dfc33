-- ===== src/Query/NameLaws.antt =====
-- Resolved names resolve to themselves (crates/executor/src/query.rs).
use rustice.Prelude.{
  ℕ, false, not, Option, none, some, List, [], ◌∷◌, Text, is_empty, map, length, if◌then◌else◌, ◌≡◌,
  refl, arith, ap, subst, Bool-cases, inl, inr,
}
use rustice.Query.Error.{Result, ok, err, ◌>>=◌}
use rustice.Query.Names.{
  Ident, ObjectNamePart, identifier, function, unquoted, Sql, Scope, NormalizedIdent,
  normalize_ident, normalize_part, normalize_parts, fill_in, resolve_table_object_name,
}

module _ {Options : Type 0} (sql : Sql) (scope : Scope Options)
    (normalize_idem : (s : Text) → sql.normalize (sql.normalize s) ≡ sql.normalize s) where
  -- An identifier that is normalised, and not empty
  abbrev IsNormal : Ident → Type 0
  IsNormal i = (normalize_ident sql scope i ≡ i) × (is_empty i.value ≡ false)

  abbrev AllNormal : List Ident → Type 0
  AllNormal [] = Unit {0}
  AllNormal (i ∷ is) = IsNormal i × AllNormal is

  normalized_again :
      (value : Text) (quote : Option ℕ)
      → let i = normalize_ident sql scope (record { value = value; quote_style = quote }) in
        normalize_ident sql scope i ≡ i
  unfolding normalize_ident
  normalized_again value (some q) = refl
  normalized_again value none = ap unquoted (normalize_idem value)

  kept :
      (i : Ident) (rest : List Ident)
      → normalize_ident sql scope i ≡ i
      → AllNormal rest
      → AllNormal (if not (is_empty i.value) then i ∷ rest else rest)
  kept i rest e h = elim (Bool-cases (is_empty i.value)) [
    | inl empty ↦ rw empty h
    | inr full ↦ ground (arith, full, e, h)
  ]

  normalize_parts-AllNormal :
      (parts : List ObjectNamePart) → AllNormal (normalize_parts sql scope parts)
  unfolding normalize_parts normalize_part
  normalize_parts-AllNormal [] = tt
  normalize_parts-AllNormal (identifier i ∷ parts) =
      kept (normalize_ident sql scope i) (normalize_parts sql scope parts)
        (normalized_again i.value i.quote_style) (normalize_parts-AllNormal parts)
  normalize_parts-AllNormal (function f ∷ parts) = normalize_parts-AllNormal parts

  normalize_parts-identifier :
      (is : List Ident) → AllNormal is → normalize_parts sql scope (map identifier is) ≡ is
  unfolding normalize_parts normalize_part
  normalize_parts-identifier [] h = refl
  normalize_parts-identifier (i ∷ is) ((e, full), h) =
      rw e (rw full (ap (λ rest. i ∷ rest) (normalize_parts-identifier is h)))

  resolved_again :
      (r : NormalizedIdent)
      → AllNormal r
      → length r ≡ 3
      → resolve_table_object_name sql scope (map identifier r) ≡ ok r
  unfolding resolve_table_object_name fill_in
  resolved_again (d ∷ s ∷ t ∷ []) h e = ap ok (normalize_parts-identifier (d ∷ s ∷ t ∷ []) h)
  resolved_again [] h e = absurd (omega (arith, e))
  resolved_again (d ∷ []) h e = absurd (omega (arith, e))
  resolved_again (d ∷ s ∷ []) h e = absurd (omega (arith, e))
  resolved_again (d ∷ s ∷ t ∷ u ∷ r) h e = absurd (omega (arith, e))

  ok_resolved :
      (filled : Result (List ObjectNamePart)) (r : NormalizedIdent)
      → (filled >>= λ parts. ok (normalize_parts sql scope parts)) ≡ ok r
      → AllNormal r
  ok_resolved (ok parts) r h =
      let e : normalize_parts sql scope parts ≡ r = cc in
      subst AllNormal e (normalize_parts-AllNormal parts)
  ok_resolved (err e) r h = cc

module _ {Options : Type 0} (sql : Sql) (scope scope' : Scope Options)
    (normalize_idem : (s : Text) → sql.normalize (sql.normalize s) ≡ sql.normalize s) where
  AllNormal-in_any :
      (is : List Ident)
      → AllNormal sql scope normalize_idem is
      → AllNormal sql scope' normalize_idem is
  unfolding normalize_ident
  AllNormal-in_any [] h = tt
  AllNormal-in_any (i ∷ is) ((e, full), h) = ((e, full), AllNormal-in_any is h)

  -- When a table's name has been resolved to a database, a schema and a table, none of them empty, the
  -- name of the three parts resolves to the same, whatever database and schema are current then. That an
  -- identifier is normalised once is the one thing asked of DataFusion.
  pub resolve_table_object_name_idem :
      (parts : List ObjectNamePart) (r : NormalizedIdent)
      → resolve_table_object_name sql scope parts ≡ ok r
      → length r ≡ 3
      → resolve_table_object_name sql scope' (map identifier r) ≡ ok r
  unfolding resolve_table_object_name
  resolve_table_object_name_idem parts r h e =
      resolved_again sql scope' normalize_idem r
        (AllNormal-in_any r (ok_resolved sql scope normalize_idem (fill_in sql scope parts) r h)) e
