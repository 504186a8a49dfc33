-- ===== src/Query/DropLaws.antt =====
-- What DROP has found and dropped when it answers (crates/executor/src/query.rs).
use rustice.Prelude.{true, Option, none, some, text_eq, ◌≡◌, refl, ap, subst}
use rustice.Catalog.Source.{Source}
use rustice.Catalog.CatalogList.{CatalogList, catalog}
use rustice.Query.Error.{Result, ok, err, catalog_not_found, ◌>>=◌}
use rustice.Query.Names.{ResolvedTableReference, Sql, Scope}
use rustice.Query.Ddl.{Response, InCatalog, State, with_found, with_catalog}
use rustice.Query.CreateLaws.{catalog-put_catalog}
use rustice.Query.Drop.{
  ObjectType, table, view, schema, database, other, Drop, DropPlan, drop_operation, drop_in,
  resolved_plan, drop_resolved, drop_planned, drop_object, drop_query,
}
use rustice.Query.DropFound.{Needs}
use rustice.Query.DropGone.{IsGone, drop_in-IsGone}

-- Any statement but DROP DATABASE
abbrev pub IsPlanned : ObjectType → Type 0
IsPlanned database = ⊥
IsPlanned _ = Unit {0}

module _ (x : Source) (S : Type 0) where
  -- The object `r` of a statement that has been answered: what it needs was there in its catalog, and in an
  -- iceberg catalog it is gone.
  abbrev pub HasDropped : Drop → ResolvedTableReference → CatalogList x S → CatalogList x S → Type 0
  HasDropped d r l l' =
      (s : State x) × (s' : State x) × (catalog x S r.catalog l ≡ some s)
      × (catalog x S r.catalog l' ≡ some s')
      × Needs x d.object_type d.if_exists r s
      × (s.0.has_iceberg ≡ true → IsGone x d.object_type r s')

module _ {Options : Type 0} (x : Source) (S : Type 0) (sql : Sql) (scope : Scope Options)
    (execute_logical_plan : DropPlan → InCatalog x (Unit {0})) where
  drop_resolved-HasDropped :
      (d : Drop) (planned : Result (ResolvedTableReference × DropPlan)) (l l' : CatalogList x S)
      (answer : Response)
      → drop_resolved x S sql scope execute_logical_plan d planned l ≡ (ok answer, l')
      → (r : ResolvedTableReference) × (plan : DropPlan) × (planned ≡ ok (r, plan))
        × HasDropped x S d r l l'
  unfolding drop_resolved with_catalog with_found
  drop_resolved-HasDropped d (err e) l l' answer h = cc
  drop_resolved-HasDropped d (ok (r, plan)) l l' answer h =
      (r, plan, refl, found (catalog x S r.catalog l) refl h)
    where
      found :
          (o : Option (State x))
          → catalog x S r.catalog l ≡ o
          → with_found x S
              (catalog_not_found (drop_operation d.object_type) r.catalog)
              r.catalog
              o
              (drop_in x execute_logical_plan d r plan)
              l
            ≡ (ok answer, l')
          → HasDropped x S d r l l'
      found none e h = cc
      found (some s) e h =
          let t = drop_in x execute_logical_plan d r plan s in
          let (needs, gone) =
            drop_in-IsGone x execute_logical_plan d r plan s t.1 answer
              (ap (λ a. (a, t.1)) (ap (λ p. p.0) h)) in
          (
            s,
            t.1,
            e,
            subst (λ l0. catalog x S r.catalog l0 ≡ some t.1) (ap (λ p. p.1) h)
                (catalog-put_catalog x S sql scope r.catalog t.1 l),
            needs,
            gone,
          )

  -- When DROP of anything but a database is answered, the catalog was there; of a table or a view, so was its
  -- schema, also with IF EXISTS, and without it the table; and of a schema without IF EXISTS, the schema. In
  -- an iceberg catalog the schema is no longer cached, or the table no longer in its schema's cache.
  pub drop_query-HasDropped :
      (d : Drop) (planned : Result DropPlan) (l l' : CatalogList x S) (answer : Response)
      → IsPlanned d.object_type
      → drop_query x S sql scope execute_logical_plan d planned l ≡ (ok answer, l')
      → (r : ResolvedTableReference) × (plan : DropPlan) × ((planned
            >>= resolved_plan x S sql scope execute_logical_plan)
          ≡ ok (r, plan))
        × HasDropped x S d r l l'
  unfolding drop_query drop_object drop_planned
  drop_query-HasDropped d planned l l' answer any_but_database h =
      drop_resolved-HasDropped d _ l l' answer
        (drop_object_planned d.object_type any_but_database h)
    where
      drop_object_planned :
          (type : ObjectType)
          → IsPlanned type
          → drop_object x S sql scope execute_logical_plan type d planned l ≡ (ok answer, l')
          → drop_resolved x S sql scope execute_logical_plan d
              (planned >>= resolved_plan x S sql scope execute_logical_plan)
              l
            ≡ (ok answer, l')
      drop_object_planned table p h = h
      drop_object_planned view p h = h
      drop_object_planned schema p h = h
      drop_object_planned other p h = h
      drop_object_planned database p h = absurd p
