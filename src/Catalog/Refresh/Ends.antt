-- ===== src/Catalog/Refresh/Ends.antt =====
-- When `refresh` comes to its end, and what the cache holds then
-- (crates/catalog/src/catalog_list.rs).
use rustice.Prelude.{
  is_some, insert_text, text_beq_iff, Bool, true, false, not, Option, none, some, List, [], ◌∷◌,
  Text, text_eq, any, if◌then◌else◌, ◌||◌, ◌==◌, ◌≡◌, refl, arith, ap, ◌∙◌, sort_texts, subst,
}
use rustice.Prelude.HashMap.{
  HashMap, get, insert, keys, contains_key, get-insert, Unique, retain, get-retain,
}
use rustice.Catalog.Method.{Result, ok, err}
use rustice.Catalog.Source.{Source}
use rustice.Catalog.CachingSchema.{CachingSchema, CachingTable, contains}
use rustice.Catalog.CachingCatalog.{
  CachingCatalog, cache_schema, empty_schema, schema_names, set_schemas,
}
use rustice.Catalog.LazyCatalog.{for_each}
use rustice.Catalog.Refresh.{
  finished, blocked, fetched, push_fetched, fetch_tables, fetch_table_providers, with_tables,
  cached_tables, refresh_found, refresh_schema, refresh_schemas, cleanup, refresh_catalog,
}

contains-insert_text :
    (a : Text) (l : List Text) (n : Text) → contains (insert_text a l) n ≡ (a == n || contains l n)
unfolding contains insert_text
contains-insert_text a [] n = refl
contains-insert_text a (b ∷ l) n = ground (arith, contains-insert_text a l n)

pub contains-sort_texts : (l : List Text) (n : Text) → contains (sort_texts l) n ≡ contains l n
unfolding contains sort_texts
contains-sort_texts [] n = refl
contains-sort_texts (a ∷ l) n =
    contains-insert_text a (sort_texts l) n ∙ ap (λ b. a == n || b) (contains-sort_texts l n)

-- Keys that all pass a test leave nothing for its opposite.
any-keys :
    {V : Type 0} (q : Text → Bool) (m : HashMap Text V)
    → ((k : Text) → contains_key k m ≡ true → q k ≡ false)
    → any q (keys m) ≡ false
unfolding get
any-keys q [] h = refl
any-keys q ((k, v) ∷ m) h =
    ground (arith, h k, text_beq_iff k k, any-keys q m (λ j e. h j (ground (arith, e))))

-- The tables of a schema, as its provider has them.
abbrev pub provided : (x : Source) → x.SchemaProvider → x.World → Text → Option (CachingTable x)
provided x p w t =
    if contains (x.table_names p w) t
    then elim (x.table p t w) [
      | ok (some provider) ↦ some (record { name = t; table = provider })
      | ok none ↦ none
      | err e ↦ none
    ]
    else none

module _ (x : Source) where
  -- The entry of a table after a fetch of the tables with some names into a cache
  abbrev pub entry :
      x.SchemaProvider → x.World → Text → Option (CachingTable x) → Option (CachingTable x)
  entry p w t before = elim (x.table p t w) [
    | ok (some provider) ↦ some (record { name = t; table = provider })
    | ok none ↦ before
    | err e ↦ before
  ]

  abbrev pub Fetches : x.SchemaProvider → x.World → List Text → Type 0
  Fetches p w names =
      (l : List (Text × x.TableProvider)) × (fetch_tables x p w names ≡ ok l)
      × ((t : Text) (before : HashMap Text (CachingTable x))
          → get t (cached_tables {x = x} l before)
            ≡ (if contains names t then entry p w t (get t before) else get t before))

  fetch_one :
      (p : x.SchemaProvider) (w : x.World) (n : Text) (ns : List Text)
      (r : Result (Option x.TableProvider))
      → x.table p n w ≡ r
      → Fetches p w ns
      → Fetches p w (n ∷ ns)
  unfolding fetch_tables fetched push_fetched cached_tables contains
  fetch_one p w n ns (ok none) e (l, f, g) =
      (l, rw (e, f) refl, λ t before. ground (arith, g t before, e, text_beq_iff n t))
  fetch_one p w n ns (ok (some provider)) e (l, f, g) = (
    (n, provider) ∷ l,
    rw (e, f) refl,
    λ t before.
        let added = insert n (record { name = n; table = provider }) before in
        ground (
          arith,
          g t added,
          e,
          text_beq_iff n t,
          get-insert n t (record { name = n; table = provider }) before,
        ),
  )
  fetch_one p w n ns (err error) e (l, f, g) =
      (l, rw (e, f) refl, λ t before. ground (arith, g t before, e, text_beq_iff n t))

  -- No fetch fails, since a table that fails is left out.
  pub fetch_tables-Fetches :
      (p : x.SchemaProvider) (w : x.World) (names : List Text) → Fetches p w names
  unfolding fetch_tables cached_tables contains
  fetch_tables-Fetches p w [] = ([], refl, λ t before. refl)
  fetch_tables-Fetches p w (n ∷ ns) =
      fetch_one p w n ns (x.table p n w) refl (fetch_tables-Fetches p w ns)

-- A table in the cache: `none` where its schema is not cached
abbrev pub find :
    {x : Source} → CachingCatalog x × x.World → Text → Text → Option (Option (CachingTable x))
find s name t = elim (get name s.0.schemas_cache) [
  | none ↦ none
  | some schema ↦ some (get t schema.tables_cache)
]

-- No other task touches the catalog.
abbrev pub alone : {S : Type 0} → Text → S → S
alone name s = s

module _ (x : Source) where
  -- What a refresh of a schema leaves of it
  abbrev pub refreshed :
      x.World → Text → Text → Option (Option (CachingTable x)) → Option (Option (CachingTable x))
  refreshed w name t before = elim (x.schema name w) [
    | none ↦ before
    | some p ↦ some (provided x p w t)
  ]

  abbrev State : Type 0
  State = CachingCatalog x × x.World

  fetched_provided :
      (p : x.SchemaProvider) (w : x.World) (F : Fetches x p w (x.table_names p w)) (t : Text)
      → get t (cached_tables {x = x} F.0 []) ≡ provided x p w t
  unfolding get
  fetched_provided p w (l, f, g) t = ground (arith, g t [])

  refresh_found_lem :
      (n : Text) (s : State) (o : Option x.SchemaProvider)
      → x.schema n s.1 ≡ o
      → (s' : State) × (refresh_found alone n o s ≡ (ok tt, s'))
        × (s'.1 ≡ s.1)
        × ((m t : Text)
            → find s' m t ≡ (if n == m then refreshed s.1 m t (find s m t) else find s m t))
  unfolding refresh_found cache_schema set_schemas fetch_table_providers with_tables empty_schema
  refresh_found_lem n s none e = (s, refl, refl, λ m t. ground (arith, e, text_beq_iff n m))
  refresh_found_lem n (c, w) (some p) e =
      let (l, f, g) = fetch_tables-Fetches x p w (x.table_names p w) in
      let schema = with_tables (empty_schema {x = x} c.has_iceberg n p) l in
      (
        (cache_schema n schema (c, w)),
        rw f refl,
        refl,
        λ m t. ground (
          arith,
          e,
          text_beq_iff n m,
          get-insert n m schema c.schemas_cache,
          fetched_provided p w (fetch_tables-Fetches x p w (x.table_names p w)) t,
        ),
      )

  refresh_schema_lem :
      (n : Text) (s : State)
      → (s' : State) × (refresh_schema alone n s ≡ (ok tt, s'))
        × (s'.1 ≡ s.1)
        × ((m t : Text)
            → find s' m t ≡ (if n == m then refreshed s.1 m t (find s m t) else find s m t))
  unfolding refresh_schema
  refresh_schema_lem n s = refresh_found_lem n s (x.schema n s.1) refl

  two_steps :
      (w : x.World) (m t : Text) (first later : Bool) (o : Option (Option (CachingTable x)))
      → (let one = if first then refreshed w m t o else o in
          if later then refreshed w m t one else one)
        ≡ (if first || later then refreshed w m t o else o)
  two_steps w m t first later o = ground arith

  for_each_lem :
      (names : List Text) (s : State)
      → (s' : State) × (for_each (refresh_schema alone) names s ≡ (ok tt, s'))
        × (s'.1 ≡ s.1)
        × ((m t : Text)
            → find s' m t
              ≡ (if contains names m then refreshed s.1 m t (find s m t) else find s m t))
  unfolding for_each contains
  for_each_lem [] s = (s, refl, refl, λ m t. refl)
  for_each_lem (n ∷ ns) s =
      let (s1, e1, w1, g1) = refresh_schema_lem n s in
      let (s2, e2, w2, g2) = for_each_lem ns s1 in
      (
        s2,
        rw e1 e2,
        w2 ∙ w1,
        λ m t.
            subst
              (λ w.
                find s2 m t
                ≡ (if contains ns m then refreshed w m t (find s1 m t) else find s1 m t))
              w1 (g2 m t)
            ∙ ap (λ o. if contains ns m then refreshed s.1 m t o else o) (g1 m t)
            ∙ two_steps s.1 m t (n == m) (contains ns m) (find s m t),
      )

  find-contains : (s : State) (m t : Text) → is_some (find s m t) ≡ contains_key m s.0.schemas_cache
  find-contains s m t = go (get m s.0.schemas_cache)
    where
      go :
          (o : Option (CachingSchema x))
          → is_some (elim o as (λ _. Option (Option (CachingTable x))) [
            | none ↦ none
            | some schema ↦ some (get t schema.tables_cache)
          ])
            ≡ is_some o
      go none = refl
      go (some schema) = refl

  schema_names_lem :
      (s : State)
      → Unique s.0.schemas_cache
      → (s' : State) × (schema_names s ≡ (ok (sort_texts (x.schema_names s.1)), s'))
        × (s'.1 ≡ s.1)
        × ((m t : Text)
            → find s' m t ≡ (if contains (x.schema_names s.1) m then find s m t else none))
  unfolding schema_names set_schemas
  schema_names_lem (c, w) u = (
    set_schemas (retain (λ name _. contains (sort_texts (x.schema_names w)) name) c.schemas_cache)
        (c, w),
    refl,
    refl,
    λ m t. ground (
      arith,
      contains-sort_texts (x.schema_names w) m,
      get-retain (λ name _. contains (sort_texts (x.schema_names w)) name) m c.schemas_cache u,
    ),
  )

  one_step :
      (w : x.World) (m t : Text) (named : Bool) (o : Option (Option (CachingTable x)))
      → (let one = if named then o else none in if named then refreshed w m t one else one)
        ≡ (if named then refreshed w m t o else none)
  one_step w m t named o = ground arith

  refresh_schemas_lem :
      (s : State)
      → Unique s.0.schemas_cache
      → (s' : State) × (refresh_schemas alone s ≡ (ok (sort_texts (x.schema_names s.1)), s'))
        × (s'.1 ≡ s.1)
        × ((m t : Text)
            → find s' m t
              ≡ (if contains (x.schema_names s.1) m then refreshed s.1 m t (find s m t) else none))
  unfolding refresh_schemas
  refresh_schemas_lem s u =
      let (s1, e1, w1, g1) = schema_names_lem s u in
      let names = sort_texts (x.schema_names s.1) in
      let (s2, e2, w2, g2) = for_each_lem names s1 in
      (
        s2,
        rw e1 (rw e2 refl),
        w2 ∙ w1,
        λ m t.
            subst
              (λ w.
                find s2 m t
                ≡ (if contains names m then refreshed w m t (find s1 m t) else find s1 m t))
              w1 (g2 m t)
            ∙ ap (λ b. if b then refreshed s.1 m t (find s1 m t) else find s1 m t)
                (contains-sort_texts (x.schema_names s.1) m)
            ∙ ap (λ o. if contains (x.schema_names s.1) m then refreshed s.1 m t o else o) (g1 m t)
            ∙ one_step s.1 m t (contains (x.schema_names s.1) m) (find s m t),
      )

  -- A refresh that no other task disturbs ends. The cache holds then, of each schema that the provider
  -- names and has, exactly the tables that the provider has; of one that it names and has not, what it
  -- held; and nothing of other schemas.
  pub refresh_catalog-finished :
      (s : State)
      → s.0.should_refresh ≡ true
      → Unique s.0.schemas_cache
      → (s' : State) × (refresh_catalog alone s ≡ finished (ok tt) s')
        × (s'.1 ≡ s.1)
        × ((m t : Text)
            → find s' m t
              ≡ (if contains (x.schema_names s.1) m then refreshed s.1 m t (find s m t) else none))
  unfolding refresh_catalog cleanup
  refresh_catalog-finished s h u =
      let (s', e, w', g) = refresh_schemas_lem s u in
      let names = sort_texts (x.schema_names s.1) in
      let none_left : any (λ k. not (contains names k)) (keys s'.0.schemas_cache) ≡ false =
        any-keys (λ k. not (contains names k)) s'.0.schemas_cache
          (λ k there. ground (
            arith,
            there,
            find-contains s' k [],
            g k [],
            contains-sort_texts (x.schema_names s.1) k,
          )) in
      (
        s',
        ap (λ b. if b then cleanup alone (refresh_schemas alone s) else finished (ok tt) s) h
            ∙ ap (cleanup alone) e
            ∙ ap (λ b. if b then blocked else finished (ok tt) s') none_left,
        w',
        g,
      )
