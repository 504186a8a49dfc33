-- ===== src/Catalog/Tables.antt =====
-- What `table` answers after tables have been registered and dropped (crates/catalog/src/schema.rs).
use rustice.Prelude.{
  codes, Bool, true, false, not, ◌&&◌, ◌||◌, Option, none, some, Text, text_eq, text_beq_iff,
  if◌then◌else◌, ◌≡◌, refl, arith, ap, ◌∙◌,
}
use rustice.Prelude.HashMap.{get, remove, get-insert, get-remove}
use rustice.Catalog.Method.{
  Error, data_fusion, Result, ok, err, continue, modify, pure, fail_if, ◌>>◌,
}
use rustice.Catalog.Source.{Source, is_view}
use rustice.Catalog.CachingSchema.{
  CachingSchema, CachingTable, SchemaMethod, set_tables, cache_table, is_cached_view, table_name,
  of_loaded, load_fresh_iceberg_table, local_table, iceberg_table, table_from, table,
  register_provider, register_table, drops, drop_table_async, table_exist,
}

module _ (x : Source) where
  abbrev State : Type 0
  State = CachingSchema x × x.World

  -- What `table` answers where the cache holds a table under the name
  table_from_cached :
      (name : Text) (b : Bool) (s : State) (t : CachingTable x)
      → s.0.has_iceberg ≡ b
      → get name s.0.tables_cache ≡ some t
      → (table_from name b (some t) s).0 ≡ (
          if b && not (is_view (x.table_type t.table))
          then of_loaded t.name (x.load_tabular s.0.iceberg_namespace t.name s.1)
          else ok (some t))
  unfolding table_from iceberg_table local_table load_fresh_iceberg_table table_name is_cached_view
  table_from_cached name true s t h e = ground (arith, h, e)
  table_from_cached name false s t h e = refl

  table_cached :
      (name : Text) (s : State) (t : CachingTable x)
      → get name s.0.tables_cache ≡ some t
      → (table name s).0 ≡ (
          if s.0.has_iceberg && not (is_view (x.table_type t.table))
          then of_loaded t.name (x.load_tabular s.0.iceberg_namespace t.name s.1)
          else ok (some t))
  unfolding table
  table_cached name s t e =
      ap (λ o. (table_from name s.0.has_iceberg o s).0) e
      ∙ table_from_cached name s.0.has_iceberg s t refl e

  -- and where it holds none, in a schema of an iceberg catalog
  table_uncached :
      (name : Text) (s : State)
      → s.0.has_iceberg ≡ true
      → get name s.0.tables_cache ≡ none
      → (table name s).0 ≡ of_loaded name (x.load_tabular s.0.iceberg_namespace name s.1)
  unfolding table table_from iceberg_table load_fresh_iceberg_table table_name is_cached_view
  table_uncached name s h e =
      ap (λ b. (table_from name b (get name s.0.tables_cache) s).0) h ∙ ground (arith, h, e)

  register_provider_cache :
      (wanted : Bool) (name : Text) (provider : x.TableProvider) (s : State)
      → (register_provider wanted name provider s).1.0 ≡ s.0
  unfolding register_provider
  register_provider_cache true name provider s = go (x.register_table s.0.schema name provider s.1)
    where
      go :
          (r : Result (Option x.TableProvider) × x.World)
          → (continue {S = State} {B = Unit {0}} (r.0, (s.0, r.1)) (λ _. pure tt)).1.0 ≡ s.0
      go (ok a, w) = refl
      go (err e, w) = refl
  register_provider_cache false name provider s = refl

  -- A call of `register_table` that succeeds puts the table into the cache, and does no more to it.
  after_provider :
      (name : Text) (provider : x.TableProvider) (c : CachingSchema x)
      (p : Result (Unit {0}) × State) (answer : Option x.TableProvider)
      → p.1.0 ≡ c
      → (continue p (λ _. modify (cache_table name provider) >> pure (some provider))).0 ≡ ok answer
      → (continue p (λ _. modify (cache_table name provider) >> pure (some provider))).1
        ≡ cache_table name provider (c, p.1.1)
  after_provider name provider c (ok _, (c', w)) answer e h =
      ap (λ d. cache_table name provider (d, w)) e
  after_provider name provider c (err error, s) answer e h = cc

  register_table_cache :
      (name : Text) (provider : x.TableProvider) (s : State) (answer : Option x.TableProvider)
      → (register_table name provider s).0 ≡ ok answer
      → (w : x.World) × ((register_table name provider s).1 ≡ cache_table name provider (s.0, w))
  unfolding register_table
  register_table_cache name provider s answer = go (s.0.has_iceberg && x.is_table_builder provider)
    where
      wanted : Bool
      wanted = s.0.has_iceberg || not (is_view (x.table_type provider))

      rest : SchemaMethod x (Option x.TableProvider)
      rest =
          register_provider wanted name provider
          >> (modify (cache_table name provider) >> pure (some provider))

      refusal : Error
      refusal = data_fusion (codes "register_table called with IcebergTableBuilder")

      go :
          (b : Bool)
          → ((fail_if b refusal >> rest) s).0 ≡ ok answer
          → (w : x.World) × (((fail_if b refusal >> rest) s).1 ≡ cache_table name provider (s.0, w))
      go true h = cc
      go false h = (
        (register_provider wanted name provider s).1.1,
        after_provider name provider s.0 (register_provider wanted name provider s) answer
            (register_provider_cache wanted name provider s) h,
      )

  -- A table that has been registered exists. `table` answers with it, but for a base table of an iceberg
  -- catalog, which it loads from the catalog under the same name.
  pub table-register_table :
      (name : Text) (provider : x.TableProvider) (s : State) (answer : Option x.TableProvider)
      → (register_table name provider s).0 ≡ ok answer
      → let s' = (register_table name provider s).1 in
        (table_exist name s' ≡ true)
        × ((table name s').0 ≡ (
            if s.0.has_iceberg && not (is_view (x.table_type provider))
            then of_loaded name (x.load_tabular s.0.iceberg_namespace name s'.1)
            else ok (some (record { name = name; table = provider }))))
  unfolding cache_table set_tables table_exist
  table-register_table name provider s answer h =
      let (w, e) = register_table_cache name provider s answer h in
      let t : CachingTable x = record { name = name; table = provider } in
      rw e (
        ground (arith, get-insert name name t s.0.tables_cache, text_beq_iff name name),
        table_cached name (cache_table name provider (s.0, w)) t
            (ground (arith, get-insert name name t s.0.tables_cache, text_beq_iff name name)),
      )

  dropped_state :
      (name : Text) (s : State) (answer : Option x.TableProvider) (w : x.World)
      → get name s.0.tables_cache ≡ none
      → x.deregister_table s.0.schema name s.1 ≡ (ok answer, w)
      → drop_table_async name s ≡ (ok none, set_tables (remove name s.0.tables_cache) (s.0, w))
  unfolding drop_table_async drops set_tables
  dropped_state name s answer w missing dereg = ground (arith, missing, dereg)

  -- DROP TABLE of a table of an iceberg catalog that is not in the cache answers ok and leaves the table
  -- in the catalog: `table` answers afterwards as it would have loaded the table before.
  pub drop_table_async-table :
      (name : Text) (s : State) (answer : Option x.TableProvider) (w : x.World)
      → s.0.has_iceberg ≡ true
      → get name s.0.tables_cache ≡ none
      → x.deregister_table s.0.schema name s.1 ≡ (ok answer, w)
      → x.load_tabular s.0.iceberg_namespace name w ≡ x.load_tabular s.0.iceberg_namespace name s.1
      → let (result, s') = drop_table_async name s in
        (result ≡ ok none)
        × ((table name s').0 ≡ of_loaded name (x.load_tabular s.0.iceberg_namespace name s.1))
  unfolding set_tables
  drop_table_async-table name s answer w iceberg missing dereg mirror =
      rw (dropped_state name s answer w missing dereg) (
        refl,
        table_uncached name (set_tables (remove name s.0.tables_cache) (s.0, w)) iceberg
              (ground (arith, get-remove name name s.0.tables_cache, missing))
            ∙ ap (of_loaded name) mirror,
      )
