-- ===== src/Query/DropFound.antt =====
-- What DROP looks for before it drops (crates/executor/src/query.rs).
use rustice.Prelude.{
  Bool, true, false, Option, none, some, Text, text_eq, ◌≡◌, refl, ap, sym, subst, ◌∙◌,
}
use rustice.Prelude.HashMap.{get}
use rustice.Catalog.Method
use rustice.Catalog.Source.{Source}
use rustice.Catalog.CachingSchema
use rustice.Catalog.CachingSchema.{
  CachingSchema, CachingTable, drop_table_async, set_tables, drops, call,
}
use rustice.Catalog.CachingCatalog
use rustice.Catalog.CachingCatalog.{
  CachingCatalog, cache_found, schema_or, cache_schema, set_schemas, uncache_schema,
  drop_namespace_async,
}
use rustice.Query.Error.{Error, ok}
use rustice.Query.Names.{ResolvedTableReference}
use rustice.Query.Ddl.{State}
use rustice.Query.CreateLaws.{HasCached, cache_schema-HasCached, schema_or-HasCached}
use rustice.Query.Drop.{
  ObjectType, table, view, schema, database, other, in_schema, table_checked, check_table,
  check_table_found, check_schema_found, check_exists,
}

module _ (x : Source) where
  -- The catalog answers with a schema, and the schema with a table.
  abbrev pub HasSchema : Text → State x → Type 0
  HasSchema name s =
      (c : CachingSchema x) × (s1 : State x) × (CachingCatalog.schema {x = x} name s
        ≡ (Method.ok (some c), s1))

  abbrev pub HasTable : ResolvedTableReference → State x → Type 0
  HasTable r s =
      (c : CachingSchema x) × (s1 : State x) × (CachingCatalog.schema {x = x} r.schema s
        ≡ (Method.ok (some c), s1))
      × (t : CachingTable x) × ((CachingSchema.table {x = x} r.table (c, s1.1)).0
          ≡ Method.ok (some t))

  -- What a statement needs, with IF EXISTS or without
  abbrev pub Needs : ObjectType → Bool → ResolvedTableReference → State x → Type 0
  Needs table false r s = HasTable r s
  Needs table true r s = HasSchema r.schema s
  Needs view false r s = HasTable r s
  Needs view true r s = HasSchema r.schema s
  Needs schema false r s = HasSchema r.schema s
  Needs schema true r s = Unit {0}
  Needs database if_exists r s = Unit {0}
  Needs other if_exists r s = Unit {0}

  has_iceberg-schema :
      (name : Text) (s : State x)
      → (CachingCatalog.schema {x = x} name s).1.0.has_iceberg ≡ s.0.has_iceberg
  unfolding CachingCatalog.schema schema_or
  has_iceberg-schema name s = cached (get name s.0.schemas_cache)
    where
      found :
          (p : Option x.SchemaProvider)
          → (cache_found {x = x} name s.0.has_iceberg p s).1.0.has_iceberg ≡ s.0.has_iceberg
      found none = unfold cache_found in refl
      found (some p) = unfold cache_found cache_schema set_schemas in refl

      cached :
          (o : Option (CachingSchema x))
          → (schema_or {x = x} name o s).1.0.has_iceberg ≡ s.0.has_iceberg
      cached (some c) = refl
      cached none = found (x.schema name s.1)

  table_checked_inv :
      (e : Error) (m : Method.Result (Option (CachingTable x))) (s s1 : State x)
      → table_checked x e (m, s) ≡ (ok tt, s1)
      → (t : CachingTable x) × (m ≡ Method.ok (some t)) × (s ≡ s1)
  unfolding table_checked
  table_checked_inv e (Method.ok (some t)) s s1 h = (t, refl, ap (λ p. p.1) h)
  table_checked_inv e (Method.ok none) s s1 h = cc
  table_checked_inv e (Method.err e') s s1 h = cc

  -- After a test that has passed
  abbrev Passed : Type 0 → Text → State x → State x → Type 0
  Passed P name s s1 = P × (s1.0.has_iceberg ≡ s.0.has_iceberg) × HasCached x name s1

  schema-Passed :
      (name : Text) (s s1 : State x) (c : CachingSchema x)
      → CachingCatalog.schema {x = x} name s ≡ (Method.ok (some c), s1)
      → Passed (HasSchema name s) name s s1
  unfolding CachingCatalog.schema
  schema-Passed name s s1 c e = (
    (c, s1, e),
    (sym (ap (λ p. p.1.0.has_iceberg) e) ∙ has_iceberg-schema name s),
    schema_or-HasCached x name (get name s.0.schemas_cache) s s1 c refl e,
  )

  in_schema-Passed :
      (r : ResolvedTableReference) (s s1 s2 : State x) (c : CachingSchema x) (e : Error)
      → CachingCatalog.schema {x = x} r.schema s ≡ (Method.ok (some c), s1)
      → table_checked x e (in_schema x r.schema (CachingSchema.table {x = x} r.table) c s1)
        ≡ (ok tt, s2)
      → Passed (HasTable r s) r.schema s s2
  unfolding in_schema
  in_schema-Passed r s s1 s2 c e found h =
      let (t, there, kept) =
        table_checked_inv e (CachingSchema.table {x = x} r.table (c, s1.1)).0
          (in_schema x r.schema (CachingSchema.table {x = x} r.table) c s1).1 s2 h in
      let (_, same, _) = schema-Passed r.schema s s1 c found in
      (
        (c, s1, found, t, there),
        sym (ap (λ s0. s0.0.has_iceberg) kept) ∙ (unfold cache_schema set_schemas in same),
        subst (HasCached x r.schema) kept (cache_schema-HasCached x r.schema _ _),
      )

  check_table_found-true :
      (r : ResolvedTableReference) (s s2 : State x)
      (m : Method.Result (Option (CachingSchema x)) × State x)
      → CachingCatalog.schema {x = x} r.schema s ≡ m
      → check_table_found x true r m ≡ (ok tt, s2)
      → Passed (HasSchema r.schema s) r.schema s s2
  unfolding check_table_found check_table
  check_table_found-true r s s2 (Method.ok (some c), s1) e h =
      schema-Passed r.schema s s2 c (e ∙ ap (λ s0. (Method.ok (some c), s0)) (ap (λ p. p.1) h))
  check_table_found-true r s s2 (Method.ok none, s1) e h = cc
  check_table_found-true r s s2 (Method.err e', s1) e h = cc

  check_table_found-false :
      (r : ResolvedTableReference) (s s2 : State x)
      (m : Method.Result (Option (CachingSchema x)) × State x)
      → CachingCatalog.schema {x = x} r.schema s ≡ m
      → check_table_found x false r m ≡ (ok tt, s2)
      → Passed (HasTable r s) r.schema s s2
  unfolding check_table_found check_table
  check_table_found-false r s s2 (Method.ok (some c), s1) e h = in_schema-Passed r s s1 s2 c _ e h
  check_table_found-false r s s2 (Method.ok none, s1) e h = cc
  check_table_found-false r s s2 (Method.err e', s1) e h = cc

  check_schema_found_inv :
      (r : ResolvedTableReference) (s s2 : State x)
      (m : Method.Result (Option (CachingSchema x)) × State x)
      → CachingCatalog.schema {x = x} r.schema s ≡ m
      → check_schema_found x r m ≡ (ok tt, s2)
      → Passed (HasSchema r.schema s) r.schema s s2
  unfolding check_schema_found
  check_schema_found_inv r s s2 (Method.ok (some c), s1) e h =
      schema-Passed r.schema s s2 c (e ∙ ap (λ s0. (Method.ok (some c), s0)) (ap (λ p. p.1) h))
  check_schema_found_inv r s s2 (Method.ok none, s1) e h = cc
  check_schema_found_inv r s s2 (Method.err e', s1) e h = cc

  -- A table is looked for in a schema that is cached then.
  abbrev pub CachedFor : ObjectType → Text → State x → Type 0
  CachedFor table name s = HasCached x name s
  CachedFor view name s = Unit {0}
  CachedFor schema name s = Unit {0}
  CachedFor database name s = Unit {0}
  CachedFor other name s = Unit {0}

  pub check_exists-Needs :
      (type : ObjectType) (if_exists : Bool) (r : ResolvedTableReference) (s s1 : State x)
      → check_exists x type if_exists r s ≡ (ok tt, s1)
      → Needs type if_exists r s × (s1.0.has_iceberg ≡ s.0.has_iceberg) × CachedFor type r.schema s1
  unfolding check_exists
  check_exists-Needs table true r s s1 h = check_table_found-true r s s1 _ refl h
  check_exists-Needs table false r s s1 h = check_table_found-false r s s1 _ refl h
  check_exists-Needs view true r s s1 h =
      let (n, i, c) = check_table_found-true r s s1 _ refl h in (n, i, tt)
  check_exists-Needs view false r s s1 h =
      let (n, i, c) = check_table_found-false r s s1 _ refl h in (n, i, tt)
  check_exists-Needs schema false r s s1 h =
      let (n, i, c) = check_schema_found_inv r s s1 _ refl h in (n, i, tt)
  check_exists-Needs schema true r s s1 h = (tt, ap (λ p. p.1.0.has_iceberg) (sym h), tt)
  check_exists-Needs database b r s s1 h = (tt, ap (λ p. p.1.0.has_iceberg) (sym h), tt)
  check_exists-Needs other b r s s1 h = (tt, ap (λ p. p.1.0.has_iceberg) (sym h), tt)
