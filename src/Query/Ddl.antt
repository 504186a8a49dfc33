-- ===== src/Query/Ddl.antt =====
-- CREATE SCHEMA (crates/executor/src/query.rs) over the catalogs of the session.
use rustice.Prelude.{Bool, true, false, Option, none, some, Text, text_eq}
use rustice.Catalog.Method
use rustice.Catalog.Source.{Source}
use rustice.Catalog.CachingSchema.{CachingSchema}
use rustice.Catalog.CachingCatalog
use rustice.Catalog.CachingCatalog.{
  CachingCatalog, drop_namespace_async, create_namespace_async, cache_schema,
}
use rustice.Catalog.CatalogList.{CatalogList, catalog, put_catalog}
use rustice.Query.Error.{
  Error, Result, ok, err, external, database_not_found, object_already_exists,
  only_create_schema_statements,
}
use rustice.Query.Names.{SchemaReference, Sql, Scope, resolve_schema_name, schema_ref_to_resolved}

pub data Response : Type 0 where
  created_entity status : Response

pub data CreateSchemaPlan : Type 0 where
  create_catalog_schema : Text → Bool → CreateSchemaPlan
  other_plan : CreateSchemaPlan

-- The methods of a catalog with its provider, and of the list of catalogs
abbrev pub InCatalog : Source → Type 0 → Type 0
InCatalog x A = CachingCatalog x × x.World → Result A × (CachingCatalog x × x.World)

abbrev pub InList : Source → Type 0 → Type 0 → Type 0
InList x S A = CatalogList x S → Result A × CatalogList x S

unfoldable pub existing : Text → Bool → Result Response
existing name true = ok created_entity
existing name false = err (object_already_exists name)

module _ (x : Source) where
  abbrev pub State : Type 0
  State = CachingCatalog x × x.World

  -- A result of the catalog for the statement
  unfoldable pub answered :
      {A : Type 0} → Response → Method.Result A × State → Result Response × State
  answered response (Method.ok _, s) = (ok response, s)
  answered response (Method.err e, s) = (err (external e), s)

  unfoldable pub create_schema_found :
      Text → Bool → Method.Result (Option (CachingSchema x)) × State → Result Response × State
  create_schema_found name if_not_exists (Method.ok (some _), s) = (existing name if_not_exists, s)
  create_schema_found name if_not_exists (Method.ok none, s) =
      answered created_entity (create_namespace_async {x = x} name s)
  create_schema_found name if_not_exists (Method.err e, s) = (err (external e), s)

  unfoldable pub create_schema_in : Text → Bool → InCatalog x Response
  create_schema_in name if_not_exists s =
      create_schema_found name if_not_exists (CachingCatalog.schema {x = x} name s)

module _ (x : Source) (S : Type 0) where
  unfoldable pub with_found :
      {A : Type 0}
      → Error
      → Text
      → Option (CachingCatalog x × x.World)
      → InCatalog x A
      → InList x S A
  with_found e name none m l = (err e, l)
  with_found e name (some c) m l = let (r, c') = m c in (r, put_catalog x S name c' l)

  -- `get_catalog`, and what follows in the catalog
  unfoldable pub with_catalog : {A : Type 0} → Error → Text → InCatalog x A → InList x S A
  with_catalog e name m l = with_found e name (catalog x S name l) m l

module _ {Options : Type 0} (x : Source) (S : Type 0) (sql : Sql) (scope : Scope Options) where
  unfoldable pub create_resolved : Bool → Result SchemaReference → InList x S Response
  create_resolved if_not_exists (err e) l = (err e, l)
  create_resolved if_not_exists (ok resolved) l =
      let r = schema_ref_to_resolved sql scope resolved in
      with_catalog x S (database_not_found r.catalog) r.catalog
        (create_schema_in x r.schema if_not_exists) l

  -- The plan of the statement, or the error of planning it, is an argument.
  unfoldable pub create_schema : Result CreateSchemaPlan → InList x S Response
  create_schema (ok (create_catalog_schema name if_not_exists)) l =
      create_resolved if_not_exists (resolve_schema_name sql scope name) l
  create_schema (ok other_plan) l = (err only_create_schema_statements, l)
  create_schema (err e) l = (err e, l)
