-- ===== src/Query/Drop.antt =====
-- DROP (crates/executor/src/query.rs) over the catalogs of the session.
use rustice.Prelude.{Bool, true, false, Option, none, some, List, [], ◌∷◌, Text, text_eq}
use rustice.Catalog.Method
use rustice.Catalog.Source.{Source}
use rustice.Catalog.CachingSchema
use rustice.Catalog.CachingSchema.{CachingSchema, CachingTable}
use rustice.Catalog.CachingCatalog
use rustice.Catalog.CachingCatalog.{
  CachingCatalog, drop_namespace_async, create_namespace_async, cache_schema,
}
use rustice.Catalog.CatalogList.{CatalogList, drop_catalog}
use rustice.Query.Error.{
  Error, Result, ok, err, external, catalog_not_found, drop_database, invalid_database_identifier,
  only_drop_statements, schema_not_found_in_database, table_not_found_in_schema_in_database, ◌>>=◌,
  OperationOn, table_drop, schema_drop, database_drop, unknown,
}
use rustice.Query.Names.{
  TableReference, SchemaReference, ResolvedTableReference, Sql, Scope, resolve_schema_ref,
  schema_ref_to_resolved, resolve_table_ref,
}
use rustice.Query.Ddl.{Response, status, InCatalog, InList, State, answered, with_catalog}

pub data ObjectType : Type 0 where
  table view schema database other : ObjectType

-- The statement DROP; its names are printed.
pub record Drop : Type 0 where
  pub object_type : ObjectType
  pub names : List Text
  pub cascade : Bool
  pub if_exists : Bool

-- The plan of a statement, as far as it is looked at
pub data DropPlan : Type 0 where
  drop_table drop_view : TableReference → DropPlan
  drop_catalog_schema : SchemaReference → DropPlan
  other_plan : DropPlan

unfoldable pub drop_operation : ObjectType → OperationOn
drop_operation table = table_drop
drop_operation view = table_drop
drop_operation schema = schema_drop
drop_operation database = database_drop
drop_operation other = unknown

-- `String::from` of a reference and `into` of a resolved one
abbrev full_table : ResolvedTableReference → TableReference
full_table r = TableReference.full r.catalog r.schema r.table

module _ (x : Source) where
  -- A method of a schema of the catalog, which stands in the cache of schemas then
  unfoldable pub in_schema :
      {A : Type 0}
      → Text
      → CachingSchema.SchemaMethod x A
      → CachingSchema x
      → State x
      → Method.Result A × State x
  in_schema name m c (c0, w) =
      let (r, (c', w')) = m (c, w) in (r, cache_schema {x = x} name c' (c0, w'))

  -- The test that the table exists
  unfoldable pub table_checked :
      Error → Method.Result (Option (CachingTable x)) × State x → Result (Unit {0}) × State x
  table_checked e (Method.ok (some _), s) = (ok tt, s)
  table_checked e (Method.ok none, s) = (err e, s)
  table_checked e (Method.err e', s) = (err (external e'), s)

  unfoldable pub check_table :
      Bool → ResolvedTableReference → CachingSchema x → State x → Result (Unit {0}) × State x
  check_table true r c s = (ok tt, s)
  check_table false r c s =
      table_checked (table_not_found_in_schema_in_database table_drop r.table r.schema r.catalog)
        (in_schema r.schema (CachingSchema.table {x = x} r.table) c s)

  unfoldable pub check_table_found :
      Bool
      → ResolvedTableReference
      → Method.Result (Option (CachingSchema x)) × State x
      → Result (Unit {0}) × State x
  check_table_found if_exists r (Method.ok (some c), s) = check_table if_exists r c s
  check_table_found if_exists r (Method.ok none, s) =
      (err (schema_not_found_in_database table_drop r.schema r.catalog), s)
  check_table_found if_exists r (Method.err e, s) = (err (external e), s)

  unfoldable pub check_schema_found :
      ResolvedTableReference
      → Method.Result (Option (CachingSchema x)) × State x
      → Result (Unit {0}) × State x
  check_schema_found r (Method.ok (some _), s) = (ok tt, s)
  check_schema_found r (Method.ok none, s) =
      (err (schema_not_found_in_database table_drop r.schema r.catalog), s)
  check_schema_found r (Method.err e, s) = (err (external e), s)

  -- Whether what is dropped exists
  unfoldable pub check_exists : ObjectType → Bool → ResolvedTableReference → InCatalog x (Unit {0})
  check_exists table if_exists r s =
      check_table_found if_exists r (CachingCatalog.schema {x = x} r.schema s)
  check_exists view if_exists r s =
      check_table_found if_exists r (CachingCatalog.schema {x = x} r.schema s)
  check_exists schema false r s = check_schema_found r (CachingCatalog.schema {x = x} r.schema s)
  check_exists schema true r s = (ok tt, s)
  check_exists database if_exists r s = (ok tt, s)
  check_exists other if_exists r s = (ok tt, s)

  -- The plan that is left to DataFusion acts on the catalog that it names.
  module _ (execute_logical_plan : DropPlan → InCatalog x (Unit {0})) where
    unfoldable pub drop_plan : DropPlan → InCatalog x Response
    drop_plan plan s = let (r, s') = execute_logical_plan plan s in (r >>= λ _. ok status, s')

    unfoldable pub drop_table_found :
        ResolvedTableReference
        → DropPlan
        → Method.Result (Option (CachingSchema x)) × State x
        → Result Response × State x
    drop_table_found r plan (Method.ok (some c), s) =
        answered x status (in_schema r.schema (CachingSchema.drop_table_async {x = x} r.table) c s)
    drop_table_found r plan (Method.ok none, s) = drop_plan plan s
    drop_table_found r plan (Method.err e, s) = (err (external e), s)

    unfoldable pub drop_iceberg :
        ObjectType → Bool → ResolvedTableReference → DropPlan → InCatalog x Response
    drop_iceberg schema cascade r plan s =
        answered x status (drop_namespace_async {x = x} r.schema cascade s)
    drop_iceberg table cascade r plan s =
        drop_table_found r plan (CachingCatalog.schema {x = x} r.schema s)
    drop_iceberg view cascade r plan s = drop_plan plan s
    drop_iceberg database cascade r plan s = drop_plan plan s
    drop_iceberg other cascade r plan s = drop_plan plan s

    -- The drop itself; the first flag says whether the catalog is an iceberg catalog.
    unfoldable pub drop_existing :
        Bool → Drop → ResolvedTableReference → DropPlan → InCatalog x Response
    drop_existing true d r plan s = drop_iceberg d.object_type d.cascade r plan s
    drop_existing false d r plan s = drop_plan plan s

    unfoldable pub drop_checked :
        Drop
        → ResolvedTableReference
        → DropPlan
        → Result (Unit {0}) × State x
        → Result Response × State x
    drop_checked d r plan (ok _, s) = drop_existing s.0.has_iceberg d r plan s
    drop_checked d r plan (err e, s) = (err e, s)

    unfoldable pub drop_in : Drop → ResolvedTableReference → DropPlan → InCatalog x Response
    drop_in d r plan s = drop_checked d r plan (check_exists d.object_type d.if_exists r s)

module _ (x : Source) (S : Type 0) where
  -- DROP DATABASE, of the first name
  unfoldable pub dropped_database :
      Method.Result (Unit {0}) × CatalogList x S → Result Response × CatalogList x S
  dropped_database (Method.ok _, l) = (ok status, l)
  dropped_database (Method.err e, l) = (err (drop_database e), l)

  unfoldable pub drop_first : Bool → List Text → InList x S Response
  drop_first cascade [] l = (err (invalid_database_identifier []), l)
  drop_first cascade (name ∷ names) l = dropped_database (drop_catalog x S name cascade l)

module _ {Options : Type 0} (x : Source) (S : Type 0) (sql : Sql) (scope : Scope Options)
    (execute_logical_plan : DropPlan → InCatalog x (Unit {0})) where
  -- What a plan drops, and the plan with this name
  unfoldable pub resolved_plan : DropPlan → Result (ResolvedTableReference × DropPlan)
  resolved_plan (drop_table t) =
      let r = resolve_table_ref sql scope t in ok (r, drop_table (full_table r))
  resolved_plan (drop_view t) =
      let r = resolve_table_ref sql scope t in ok (r, drop_view (full_table r))
  resolved_plan (drop_catalog_schema t) =
      let r = resolve_schema_ref sql scope t in
      ok (schema_ref_to_resolved sql scope r, drop_catalog_schema r)
  resolved_plan other_plan = err only_drop_statements

  unfoldable pub drop_resolved :
      Drop → Result (ResolvedTableReference × DropPlan) → InList x S Response
  drop_resolved d (err e) l = (err e, l)
  drop_resolved d (ok (r, plan)) l =
      with_catalog x S (catalog_not_found (drop_operation d.object_type) r.catalog) r.catalog
        (drop_in x execute_logical_plan d r plan) l

  unfoldable pub drop_planned : Drop → Result DropPlan → InList x S Response
  drop_planned d plan l = drop_resolved d (plan >>= resolved_plan) l

  unfoldable pub drop_object : ObjectType → Drop → Result DropPlan → InList x S Response
  drop_object database d plan l = drop_first x S d.cascade d.names l
  drop_object table d plan l = drop_planned d plan l
  drop_object view d plan l = drop_planned d plan l
  drop_object schema d plan l = drop_planned d plan l
  drop_object other d plan l = drop_planned d plan l

  unfoldable pub drop_query : Drop → Result DropPlan → InList x S Response
  drop_query d plan l = drop_object d.object_type d plan l
