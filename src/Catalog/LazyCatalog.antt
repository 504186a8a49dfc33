-- ===== src/Catalog/LazyCatalog.antt =====
-- The catalog that `register_iceberg_catalog_lazy` makes (crates/catalog/src/catalog_list.rs), with tables
-- cached under the spellings of their names.
use rustice.Prelude.{
  Bool, true, not, Option, none, some, List, [], ◌∷◌, ◌++◌, Text, text_eq, codes, join, split, trim,
  filter, is_empty, map, length, ltb, if◌then◌else◌, to_ascii_lowercase, to_ascii_uppercase,
}
use rustice.Prelude.HashMap.{get, insert}
use rustice.Catalog.Method.{
  data_fusion, Result, ok, err, Method, pure, lift, gets, modify, when, ok_or, ◌>>=◌, ◌>>◌,
}
use rustice.Catalog.Source.{Source}
use rustice.Catalog.CachingSchema.{CachingSchema, CachingTable, contains}
use rustice.Catalog.CachingCatalog.{
  CachingCatalog, CatalogMethod, new, with_refresh, cache_schema, empty_schema,
}

-- The aliases of a name by case, each once.
unfoldable pub push_alias : List Text → Text → List Text
push_alias aliases alias = if contains aliases alias then aliases else aliases ++ (alias ∷ [])

unfoldable pub case_aliases : Text → List Text
case_aliases name =
    push_alias (push_alias (push_alias [] name) (to_ascii_lowercase name)) (to_ascii_uppercase name)

-- `for item in items { body(item)? }`
unfoldable pub for_each : {S A : Type 0} → (A → Method S (Unit {0})) → List A → Method S (Unit {0})
for_each body [] = pure tt
for_each body (a ∷ l) = body a >> for_each body l

abbrev ident_parts : Text → List Text
ident_parts table = filter (λ part. not (is_empty part)) (map trim (split b'.' table))

module _ (x : Source) where
  abbrev some_identifier : Result x.Identifier → Result (Option x.Identifier)
  some_identifier (ok identifier) = ok (some identifier)
  some_identifier (err e) = err e

  unfoldable pub parse_bootstrap_table_identifier : Text → Result (Option x.Identifier)
  parse_bootstrap_table_identifier table =
      if ltb (length (ident_parts table)) 2
      then ok none
      else some_identifier (x.try_new (ident_parts table))

  unfoldable pub schema_with_namespace :
      Text → Text → Option (CachingSchema x) → CatalogMethod x (CachingSchema x)
  schema_with_namespace namespace iceberg_namespace (some schema) = pure schema
  schema_with_namespace namespace iceberg_namespace none = do
    provider ← gets (λ s. x.schema namespace s.1)
    found ← lift (ok_or (data_fusion (codes "Bootstrap Iceberg schema was not found")) provider)
    has_iceberg ← gets (λ s. s.0.has_iceberg)
    let schema = record (empty_schema {x = x} has_iceberg namespace found) {
      iceberg_namespace = iceberg_namespace;
    }
    modify (cache_schema namespace schema)
    pure schema

  unfoldable pub bootstrap_caching_schema : Text → Text → CatalogMethod x (CachingSchema x)
  bootstrap_caching_schema namespace iceberg_namespace = do
    cached ← gets (λ s. get namespace s.0.schemas_cache)
    schema_with_namespace namespace iceberg_namespace cached

  -- `caching_schema.tables_cache.insert(alias, table)`, on the schema that the cache shares
  unfoldable pub insert_table :
      Text → CachingTable x → Text → CachingCatalog x × x.World → CachingCatalog x × x.World
  insert_table namespace table alias (c, w) = elim (get namespace c.schemas_cache) [
    | none ↦ (c, w)
    | some schema ↦
        cache_schema namespace
          (record schema { tables_cache = insert alias table schema.tables_cache }) (c, w)
  ]

  -- The schemas of one table under all spellings, with the table under all of its own.
  unfoldable pub bootstrap_aliases : Text → CachingTable x → Text → CatalogMethod x (Unit {0})
  bootstrap_aliases namespace table namespace_alias = do
    _ ← bootstrap_caching_schema namespace_alias namespace
    for_each (λ table_alias. modify (insert_table namespace_alias table table_alias))
        (case_aliases table.name)

  unfoldable pub bootstrap_table : x.Identifier → CatalogMethod x (Unit {0})
  bootstrap_table identifier = do
    let namespace = join (codes ".") (x.namespace identifier)
    let table_name = x.identifier_name identifier
    exact ← bootstrap_caching_schema namespace namespace
    answer ← gets (λ s. x.table exact.schema table_name s.1)
    found ← lift answer
    provider ← lift (ok_or (data_fusion (codes "Bootstrap Iceberg table was not found")) found)
    for_each (bootstrap_aliases namespace (record { name = table_name; table = provider }))
        (case_aliases namespace)

  unfoldable pub register_alias : Text → Method x.World (Unit {0})
  register_alias namespace_alias = do
    known ← gets (x.mirror_schema_exists namespace_alias)
    when (not known) (do _ ← x.register_schema namespace_alias x.memory_schema; pure tt)

  -- The identifiers of the tables, each registered with the mirror under all spellings of its namespace.
  unfoldable pub register_identifier : Option x.Identifier → Method x.World (List x.Identifier)
  register_identifier none = pure []
  register_identifier (some identifier) = do
    for_each register_alias (case_aliases (join (codes ".") (x.namespace identifier)))
    x.mirror_register_table identifier
    pure (identifier ∷ [])

  unfoldable pub register_identifiers : List Text → Method x.World (List x.Identifier)
  register_identifiers [] = pure []
  register_identifiers (table ∷ tables) = do
    parsed ← lift (parse_bootstrap_table_identifier table)
    first ← register_identifier parsed
    rest ← register_identifiers tables
    pure (first ++ rest)

  -- The catalog that `register_iceberg_catalog_lazy` makes over a provider that starts as `world`.
  unfoldable pub lazy_world : List Text → List Text → Method x.World (List x.Identifier)
  lazy_world bootstrap_schemas bootstrap_tables = do
    for_each (λ schema. do _ ← x.register_schema schema x.memory_schema; pure tt) bootstrap_schemas
    register_identifiers bootstrap_tables

  unfoldable pub lazy_catalog :
      Text
      → Bool
      → Result (List x.Identifier) × x.World
      → Result (Unit {0}) × (CachingCatalog x × x.World)
  lazy_catalog name should_refresh (ok identifiers, w) =
      for_each bootstrap_table identifiers (with_refresh should_refresh (new name true), w)
  lazy_catalog name should_refresh (err e, w) =
      (err e, (with_refresh should_refresh (new name true), w))
