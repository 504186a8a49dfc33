-- ===== src/Query/DropGone.antt =====
-- What a drop in an iceberg catalog takes out of the caches (crates/executor/src/query.rs).
use rustice.Prelude.{
  Bool, true, false, Option, none, some, Text, text_eq, text_beq_iff, ◌≡◌, refl, arith, ap, sym,
  subst, ◌∙◌,
}
use rustice.Prelude.HashMap.{get, remove, get-remove, get-insert}
use rustice.Catalog.Method
use rustice.Catalog.Source.{Source}
use rustice.Catalog.CachingSchema.{
  CachingSchema, CachingTable, drop_table_async, set_tables, drops, call,
}
use rustice.Catalog.CachingCatalog
use rustice.Catalog.CachingCatalog.{
  CachingCatalog, cache_found, schema_or, cache_schema, set_schemas, uncache_schema,
  drop_namespace_async,
}
use rustice.Query.Error.{Result, ok, err}
use rustice.Query.Names.{ResolvedTableReference}
use rustice.Query.Ddl.{Response, status, InCatalog, State, answered}
use rustice.Query.Drop.{
  ObjectType, table, view, schema, database, other, Drop, DropPlan, in_schema, check_exists,
  drop_iceberg, drop_table_found, drop_existing, drop_checked, drop_in,
}
use rustice.Query.DropFound.{Needs, CachedFor, check_exists-Needs}

module _ (x : Source) where
  -- What is no longer cached after a drop in an iceberg catalog
  abbrev pub IsGone : ObjectType → ResolvedTableReference → State x → Type 0
  IsGone schema r s = get r.schema s.0.schemas_cache ≡ none
  IsGone table r s =
      (c : CachingSchema x) × (get r.schema s.0.schemas_cache ≡ some c)
      × (get r.table c.tables_cache ≡ none)
  IsGone view r s = Unit {0}
  IsGone database r s = Unit {0}
  IsGone other r s = Unit {0}

  continue_inv :
      {S A B : Type 0} (m : Method.Result A × S) (f : A → Method.Method S B) (b : B) (s' : S)
      → Method.continue m f ≡ (Method.ok b, s')
      → (a : A) × (s : S) × (m ≡ (Method.ok a, s)) × (f a s ≡ (Method.ok b, s'))
  continue_inv (Method.ok a, s) f b s' h = (a, s, refl, h)
  continue_inv (Method.err e, s) f b s' h = cc

  when-call_keeps :
      {C : Type 0} (b : Bool) (m : Method.Method x.World (Unit {0})) (s : C × x.World)
      → (Method.when b (call m) s).1.0 ≡ s.0
  when-call_keeps true m s = refl
  when-call_keeps false m s = refl

  uncached_drop_namespace :
      (name : Text) (cascade : Bool) (s s' : State x) (o : Option (CachingSchema x))
      → drop_namespace_async {x = x} name cascade s ≡ (Method.ok o, s')
      → get name s'.0.schemas_cache ≡ none
  unfolding drop_namespace_async uncache_schema set_schemas
  uncached_drop_namespace name cascade s s' o h =
      let (_, s1, e1, h1) =
        continue_inv (Method.when s.0.has_iceberg (call (x.drop_namespace name)) s)
          (λ _ s1. Method.continue (deregister s1) (λ _. uncache_schema {x = x} name)) o s' h in
      let (_, s2, e2, h2) =
        continue_inv (deregister s1) (λ _. uncache_schema {x = x} name) o s' h1 in
      subst (λ s0. get name s0.0.schemas_cache ≡ none) (ap (λ p. p.1) h2)
        (ground (arith, get-remove name name s2.0.schemas_cache, text_beq_iff name name))
    where
      deregister : Method.Method (State x) (Option x.SchemaProvider)
      deregister = call (x.deregister_schema name cascade)

  get-cache_schema :
      (name : Text) (c : CachingSchema x) (s : State x)
      → get name (cache_schema {x = x} name c s).0.schemas_cache ≡ some c
  unfolding cache_schema set_schemas
  get-cache_schema name c s =
      ground (arith, get-insert name name c s.0.schemas_cache, text_beq_iff name name)

  answered_inv :
      {A : Type 0} (response answer : Response) (m : Method.Result A × State x) (s' : State x)
      → answered x response m ≡ (ok answer, s')
      → (a : A) × (m ≡ (Method.ok a, s'))
  unfolding answered
  answered_inv response answer (Method.ok a, s) s' h =
      (a, ap (λ s0. (Method.ok a, s0)) (ap (λ p. p.1) h))
  answered_inv response answer (Method.err e, s) s' h = cc

  uncached_drop_table :
      (name : Text) (s s' : CachingSchema x × x.World) (o : Option (CachingTable x))
      → drop_table_async {x = x} name s ≡ (Method.ok o, s')
      → get name s'.0.tables_cache ≡ none
  unfolding drop_table_async set_tables
  uncached_drop_table name s s' o h =
      let removed = get name s.0.tables_cache in
      let s0 = set_tables {x = x} (remove name s.0.tables_cache) s in
      let (_, s1, e1, h1) =
        continue_inv
          (Method.when (drops {x = x} s.0.has_iceberg removed)
            (call (x.drop_table s.0.iceberg_namespace name)) s0)
          (λ _ s1.
            Method.continue (call (x.deregister_table s1.0.schema name) s1)
              (λ _. Method.pure removed))
          o s' h in
      let (_, s2, e2, h2) =
        continue_inv (call (x.deregister_table s1.0.schema name) s1) (λ _. Method.pure removed) o s'
          h1 in
      let kept1 : s0.0 ≡ s1.0 =
        sym (when-call_keeps _ (x.drop_table s.0.iceberg_namespace name) s0) ∙ ap (λ p. p.1.0) e1 in
      let kept2 : s1.0 ≡ s'.0 = ap (λ p. p.1.0) e2 ∙ ap (λ p. p.1.0) h2 in
      subst (λ c. get name c.tables_cache ≡ none) (kept1 ∙ kept2)
        (ground (arith, get-remove name name s.0.tables_cache, text_beq_iff name name))

  module _ (execute_logical_plan : DropPlan → InCatalog x (Unit {0})) where
    drop_iceberg-IsGone :
        (type : ObjectType) (cascade : Bool) (r : ResolvedTableReference) (plan : DropPlan)
        (s s' : State x) (answer : Response)
        → CachedFor x type r.schema s
        → drop_iceberg x execute_logical_plan type cascade r plan s ≡ (ok answer, s')
        → IsGone type r s'
    unfolding drop_iceberg drop_table_found in_schema CachingCatalog.schema schema_or
    drop_iceberg-IsGone table cascade r plan s s' answer (c, cached) h =
        let h' : answered x status (in_schema x r.schema (drop_table_async {x = x} r.table) c s)
            ≡ (ok answer, s') =
          subst
            (λ o.
              drop_table_found x execute_logical_plan r plan (schema_or {x = x} r.schema o s)
              ≡ (ok answer, s'))
            cached h in
        let (o, e) = answered_inv status answer _ s' h' in
        let t = drop_table_async {x = x} r.table (c, s.1) in
        let gone =
          uncached_drop_table r.table (c, s.1) t.1 o (ap (λ a. (a, t.1)) (ap (λ p. p.0) e)) in
        (
          t.1.0,
          subst (λ s0. get r.schema s0.0.schemas_cache ≡ some t.1.0) (ap (λ p. p.1) e)
              (get-cache_schema r.schema t.1.0 (s.0, t.1.1)),
          gone,
        )
    drop_iceberg-IsGone schema cascade r plan s s' answer cached h =
        let (o, e) = answered_inv status answer _ s' h in
        uncached_drop_namespace r.schema cascade s s' o e
    drop_iceberg-IsGone view cascade r plan s s' answer cached h = tt
    drop_iceberg-IsGone database cascade r plan s s' answer cached h = tt
    drop_iceberg-IsGone other cascade r plan s s' answer cached h = tt

    pub drop_in-IsGone :
        (d : Drop) (r : ResolvedTableReference) (plan : DropPlan) (s s' : State x)
        (answer : Response)
        → drop_in x execute_logical_plan d r plan s ≡ (ok answer, s')
        → Needs x d.object_type d.if_exists r s
          × (s.0.has_iceberg ≡ true → IsGone d.object_type r s')
    unfolding drop_in drop_existing drop_checked
    drop_in-IsGone d r plan s s' answer h =
        checked (check_exists x d.object_type d.if_exists r s) refl h
      where
        checked :
            (m : Result (Unit {0}) × State x)
            → check_exists x d.object_type d.if_exists r s ≡ m
            → drop_checked x execute_logical_plan d r plan m ≡ (ok answer, s')
            → Needs x d.object_type d.if_exists r s
              × (s.0.has_iceberg ≡ true → IsGone d.object_type r s')
        checked (err e', s1) e h = cc
        checked (ok _, s1) e h =
            let (needs, same, cached) = check_exists-Needs x d.object_type d.if_exists r s s1 e in
            (
              needs,
              λ iceberg. drop_iceberg-IsGone d.object_type d.cascade r plan s1 s' answer cached (
                  subst (λ b. drop_existing x execute_logical_plan b d r plan s1 ≡ (ok answer, s'))
                    (same ∙ iceberg) h),
            )
