-- ===== src/Catalog/Refresh/Deadlock.antt =====
-- When `refresh` waits for a lock that it holds itself (crates/catalog/src/catalog_list.rs).
use rustice.Prelude.{
  Bool, true, false, not, Option, none, some, List, [], ◌∷◌, Text, text_eq, text_beq_iff, any,
  is_some, if◌then◌else◌, ◌||◌, ◌==◌, ◌≡◌, refl, arith, ap, ◌∙◌, sort_texts,
}
use rustice.Prelude.HashMap.{HashMap, get, keys, contains_key, contains-insert}
use rustice.Catalog.Method.{ok}
use rustice.Catalog.Source.{Source}
use rustice.Catalog.CachingSchema.{contains}
use rustice.Catalog.CachingCatalog.{
  CachingCatalog, cache_schema, empty_schema, schema_names, set_schemas,
}
use rustice.Catalog.LazyCatalog.{for_each}
use rustice.Catalog.Refresh.{
  finished, blocked, fetch_table_providers, with_tables, refresh_found, refresh_schema,
  refresh_schemas, cleanup, refresh_catalog,
}
use rustice.Catalog.Refresh.Ends.{fetch_tables-Fetches, contains-sort_texts}

any-keys_there :
    {V : Type 0} (q : Text → Bool) (k : Text) (m : HashMap Text V)
    → contains_key k m ≡ true
    → q k ≡ true
    → any q (keys m) ≡ true
unfolding get
any-keys_there q k [] h e = absurd (ground (arith, h))
any-keys_there q k ((j, v) ∷ m) h e = ground (arith, any-keys_there q k m, text_beq_iff j k, e, h)

or_later :
    (first later before one : Bool)
    → ((first || before) ≡ true → one ≡ true)
    → ((first || later) || before) ≡ true
    → (later || one) ≡ true
or_later true later before one f h = rw (f refl) (ground arith)
or_later false true before one f h = refl
or_later false false before one f h = f h

module _ (x : Source) where
  abbrev State : Type 0
  State = CachingCatalog x × x.World

  module _ (others : Text → State → State) (k n : Text)
      (adds : (m : Text) (s : State) → contains_key k (others m s).0.schemas_cache ≡ true)
      (keeps : (m : Text) (s : State)
        → is_some (x.schema n s.1) ≡ true
        → is_some (x.schema n (others m s).1) ≡ true) where
    -- After the refresh of one schema
    abbrev Passed : Bool → State → State → Type 0
    Passed at_n s s' =
        ((is_some (x.schema n s.1) ≡ true) → is_some (x.schema n s'.1) ≡ true)
        × ((is_some (x.schema n s.1) ≡ true)
            → (at_n || contains_key k s.0.schemas_cache) ≡ true
            → contains_key k s'.0.schemas_cache ≡ true)

    refresh_found-Passed :
        (m : Text) (s : State) (o : Option x.SchemaProvider)
        → x.schema m s.1 ≡ o
        → (s' : State) × (refresh_found others m o s ≡ (ok tt, s')) × Passed (m == n) s s'
    unfolding refresh_found fetch_table_providers cache_schema set_schemas
    refresh_found-Passed m s none e =
        (s, refl, ((λ h. h), λ h c. ground (arith, h, c, e, text_beq_iff m n)))
    refresh_found-Passed m s (some p) e =
        let (l, f, g) = fetch_tables-Fetches x p s.1 (x.table_names p s.1) in
        let schema = with_tables (empty_schema {x = x} s.0.has_iceberg m p) l in
        let s1 = others m s in
        (
          cache_schema m schema s1,
          rw f refl,
          (
            (λ h. keeps m s h),
            λ h c. ground (arith, contains-insert m k schema s1.0.schemas_cache, adds m s),
          ),
        )

    for_each-Passed :
        (names : List Text) (s : State)
        → (s' : State) × (for_each (refresh_schema others) names s ≡ (ok tt, s'))
          × Passed (contains names n) s s'
    unfolding for_each contains refresh_schema
    for_each-Passed [] s = (s, refl, ((λ h. h), λ h c. c))
    for_each-Passed (m ∷ ms) s =
        let (s1, e1, (a1, b1)) = refresh_found-Passed m s (x.schema m s.1) refl in
        let (s2, e2, (a2, b2)) = for_each-Passed ms s1 in
        (
          s2,
          rw e1 e2,
          ((λ h. a2 (a1 h)), λ h c. b2 (a1 h) (or_later (m == n) (contains ms n) _ _ (b1 h) c)),
        )

    schema_names_passed :
        (s : State)
        → (s' : State) × (schema_names s ≡ (ok (sort_texts (x.schema_names s.1)), s'))
          × (s'.1 ≡ s.1)
    unfolding schema_names set_schemas
    schema_names_passed s = (_, refl, refl)

    refresh_schemas_passed :
        (s : State)
        → contains (x.schema_names s.1) n ≡ true
        → is_some (x.schema n s.1) ≡ true
        → (s' : State) × (refresh_schemas others s ≡ (ok (sort_texts (x.schema_names s.1)), s'))
          × (contains_key k s'.0.schemas_cache ≡ true)
    unfolding refresh_schemas
    refresh_schemas_passed s named there =
        let names = sort_texts (x.schema_names s.1) in
        let (s1, e1, w1) = schema_names_passed s in
        let (s2, e2, (a2, b2)) = for_each-Passed names s1 in
        let there1 : is_some (x.schema n s1.1) ≡ true =
          ap (λ w. is_some (x.schema n w)) w1 ∙ there in
        let named1 : contains names n ≡ true = contains-sort_texts (x.schema_names s.1) n ∙ named in
        (s2, rw e1 (rw e2 refl), b2 there1 (rw named1 refl))

    -- A catalog is refreshed, and during each fetch other tasks put into its cache a schema that the provider
    -- did not name when the refresh began; the provider has another schema, which it named then and which the
    -- other tasks leave there. The clean-up removes the new schema under an iterator of its own, and waits
    -- for ever.
    pub refresh_catalog-blocked :
        (s : State)
        → s.0.should_refresh ≡ true
        → contains (x.schema_names s.1) n ≡ true
        → is_some (x.schema n s.1) ≡ true
        → contains (x.schema_names s.1) k ≡ false
        → refresh_catalog others s ≡ blocked
    unfolding refresh_catalog cleanup
    refresh_catalog-blocked s h named there new =
        let names = sort_texts (x.schema_names s.1) in
        let (s', e, k_there) = refresh_schemas_passed s named there in
        let left : any (λ key. not (contains names key)) (keys s'.0.schemas_cache) ≡ true =
          any-keys_there (λ key. not (contains names key)) k s'.0.schemas_cache k_there
            (ap not (contains-sort_texts (x.schema_names s.1) k ∙ new)) in
        ap (λ b. if b then cleanup others (refresh_schemas others s) else finished (ok tt) s) h
        ∙ ap (cleanup others) e
        ∙ ap (λ b. if b then blocked else finished (ok tt) s') left
