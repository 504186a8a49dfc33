-- ===== src/Catalog/CachingCatalog.antt =====
-- `CachingCatalog` (crates/catalog/src/catalog.rs): a cache of schemas over a catalog provider. The
-- timeouts of its configuration and the times of its properties are not kept here.
use rustice.Prelude.{
  Bool, true, false, Option, none, some, List, [], Text, text_eq, codes, sort_texts,
}
use rustice.Prelude.HashMap.{HashMap, get, insert, remove, retain}
use rustice.Catalog.Method.{data_fusion, Method, pure, lift, gets, modify, when, ok_or, ◌>>=◌, ◌>>◌}
use rustice.Catalog.Source.{Source}
use rustice.Catalog.CachingSchema.{CachingSchema, call, contains}

pub data CatalogType : Type 0 where
  embucket memory : CatalogType

pub record CachingCatalog (x : Source) : Type 0 where
  pub has_iceberg : Bool
  pub catalog_type : CatalogType
  pub schemas_cache : HashMap Text (CachingSchema x)
  pub should_refresh : Bool
  pub name : Text
  pub enable_information_schema : Bool

abbrev pub CatalogMethod : Source → Type 0 → Type 0
CatalogMethod x A = Method (CachingCatalog x × x.World) A

-- What the methods of a schema provider answer: a schema of the cache, or one of another crate.
pub data AnySchema (x : Source) : Type 0 where
  caching : CachingSchema x → AnySchema x
  foreign : x.SchemaProvider → AnySchema x

module _ {x : Source} where
  unfoldable pub new : Text → Bool → CachingCatalog x
  new name has_iceberg = record {
    has_iceberg = has_iceberg;
    catalog_type = embucket;
    schemas_cache = [];
    should_refresh = false;
    name = name;
    enable_information_schema = true;
  }

  unfoldable pub with_refresh : Bool → CachingCatalog x → CachingCatalog x
  with_refresh refresh c = record c { should_refresh = refresh }

  unfoldable pub with_information_schema : Bool → CachingCatalog x → CachingCatalog x
  with_information_schema enable c = record c { enable_information_schema = enable }

  unfoldable pub with_catalog_type : CatalogType → CachingCatalog x → CachingCatalog x
  with_catalog_type catalog_type c = record c { catalog_type = catalog_type }

  -- A schema of the catalog with no table in its cache
  unfoldable pub empty_schema : Bool → Text → x.SchemaProvider → CachingSchema x
  empty_schema has_iceberg name provider = record {
    schema = provider;
    has_iceberg = has_iceberg;
    iceberg_namespace = name;
    name = name;
    tables_cache = [];
  }

  unfoldable pub set_schemas :
      HashMap Text (CachingSchema x) → CachingCatalog x × x.World → CachingCatalog x × x.World
  set_schemas schemas (c, w) = (record c { schemas_cache = schemas }, w)

  unfoldable pub cache_schema :
      Text → CachingSchema x → CachingCatalog x × x.World → CachingCatalog x × x.World
  cache_schema name schema (c, w) = set_schemas (insert name schema c.schemas_cache) (c, w)

  -- The provider of a schema that has just been registered goes into the cache.
  unfoldable pub cache_registered : Text → CatalogMethod x (CachingSchema x)
  cache_registered name = do
    provider ← gets (λ s. x.schema name s.1)
    found ← lift (ok_or (data_fusion (codes "Failed to look up newly registered schema")) provider)
    has_iceberg ← gets (λ s. s.0.has_iceberg)
    let schema = empty_schema has_iceberg name found
    modify (cache_schema name schema)
    pure schema

  unfoldable pub create_namespace_async : Text → CatalogMethod x (CachingSchema x)
  create_namespace_async name = do
    has_iceberg ← gets (λ s. s.0.has_iceberg)
    when has_iceberg (call (x.create_namespace name))
    _ ← call (x.register_schema name x.memory_schema)
    cache_registered name

  -- `self.schemas_cache.remove(name)`
  unfoldable pub uncache_schema : Text → CatalogMethod x (Option (CachingSchema x))
  uncache_schema name = do
    cached ← gets (λ s. get name s.0.schemas_cache)
    modify (λ s. set_schemas (remove name s.0.schemas_cache) s)
    pure cached

  unfoldable pub drop_namespace_async : Text → Bool → CatalogMethod x (Option (CachingSchema x))
  drop_namespace_async name cascade = do
    has_iceberg ← gets (λ s. s.0.has_iceberg)
    when has_iceberg (call (x.drop_namespace name))
    _ ← call (x.deregister_schema name cascade)
    uncache_schema name

  -- The names in order; cached schemas that are not among them leave the cache.
  unfoldable pub schema_names : CatalogMethod x (List Text)
  schema_names = do
    schema_names ← gets (λ s. sort_texts (x.schema_names s.1))
    modify (λ s. set_schemas (retain (λ name _. contains schema_names name) s.0.schemas_cache) s)
    pure schema_names

  unfoldable pub cache_found :
      Text → Bool → Option x.SchemaProvider → CatalogMethod x (Option (CachingSchema x))
  cache_found name has_iceberg none = pure none
  cache_found name has_iceberg (some provider) = do
    let schema = empty_schema has_iceberg name provider
    modify (cache_schema name schema)
    pure (some schema)

  unfoldable pub schema_or :
      Text → Option (CachingSchema x) → CatalogMethod x (Option (CachingSchema x))
  schema_or name (some schema) = pure (some schema)
  schema_or name none = do
    provider ← gets (λ s. x.schema name s.1)
    has_iceberg ← gets (λ s. s.0.has_iceberg)
    cache_found name has_iceberg provider

  unfoldable pub schema : Text → CatalogMethod x (Option (CachingSchema x))
  schema name = do cached ← gets (λ s. get name s.0.schemas_cache); schema_or name cached

  abbrev any_foreign : Option x.SchemaProvider → Option (AnySchema x)
  any_foreign none = none
  any_foreign (some provider) = some (foreign provider)

  abbrev any_caching : Option (CachingSchema x) → Option (AnySchema x)
  any_caching none = none
  any_caching (some schema) = some (caching schema)

  unfoldable pub after_register :
      Text → Option x.SchemaProvider → Bool → CatalogMethod x (Option (AnySchema x))
  after_register name answer true = do schema ← cache_registered name; pure (some (caching schema))
  after_register name answer false = pure (any_foreign answer)

  unfoldable pub register_schema : Text → x.SchemaProvider → CatalogMethod x (Option (AnySchema x))
  register_schema name provider = do
    has_iceberg ← gets (λ s. s.0.has_iceberg)
    answer ← call (x.register_schema name provider)
    after_register name answer has_iceberg

  unfoldable pub after_deregister :
      Text → Option x.SchemaProvider → Bool → CatalogMethod x (Option (AnySchema x))
  after_deregister name answer true = do cached ← uncache_schema name; pure (any_caching cached)
  after_deregister name answer false = pure (any_foreign answer)

  unfoldable pub deregister_schema : Text → Bool → CatalogMethod x (Option (AnySchema x))
  deregister_schema name cascade = do
    has_iceberg ← gets (λ s. s.0.has_iceberg)
    answer ← call (x.deregister_schema name cascade)
    after_deregister name answer has_iceberg
