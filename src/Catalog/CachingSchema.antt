-- ===== src/Catalog/CachingSchema.antt =====
-- `CachingSchema` and `CachingTable` (crates/catalog/src/schema.rs, table.rs): a cache of tables over a
-- schema provider. Of a cached table its name and its provider are kept here.
use rustice.Prelude.{
  Bool, true, false, not, ◌&&◌, ◌||◌, Option, none, some, List, [], ◌∷◌, Text, text_eq, ◌==◌, codes,
  any, if◌then◌else◌, sort_texts, ◌++◌,
}
use rustice.Prelude.HashMap.{HashMap, get, insert, remove, contains_key, keys}
use rustice.Catalog.Method.{
  data_fusion, iceberg, catalog_not_found, not_found, other, Result, ok, err, Method, pure, lift,
  gets, modify, when, fail_if, ◌>>=◌, ◌>>◌,
}
use rustice.Catalog.Source.{Source, is_view, loaded, failed, Loaded}

pub record CachingTable (x : Source) : Type 0 where
  pub name : Text
  pub table : x.TableProvider

-- `iceberg_catalog.is_some()` is `has_iceberg`.
pub record CachingSchema (x : Source) : Type 0 where
  pub schema : x.SchemaProvider
  pub has_iceberg : Bool
  pub iceberg_namespace : Text
  pub name : Text
  pub tables_cache : HashMap Text (CachingTable x)

-- A method of a schema
abbrev pub SchemaMethod : Source → Type 0 → Type 0
SchemaMethod x A = Method (CachingSchema x × x.World) A

-- A call of a method of another crate: `a` is the cache.
abbrev pub call : {C W A : Type 0} → Method W A → Method (C × W) A
call m s = let (r, w) = m s.1 in (r, (s.0, w))

unfoldable pub contains : List Text → Text → Bool
contains names name = any (λ n. n == name) names

-- `for table in &self.tables_cache { if !names.contains(table.key()) { names.push(…) } }`
unfoldable pub push_missing : List Text → List Text → List Text
push_missing names [] = names
push_missing names (k ∷ ks) =
    push_missing (if contains names k then names else names ++ (k ∷ [])) ks

module _ {x : Source} where
  unfoldable pub set_tables :
      HashMap Text (CachingTable x) → CachingSchema x × x.World → CachingSchema x × x.World
  set_tables tables (c, w) = (record c { tables_cache = tables }, w)

  unfoldable pub cache_table :
      Text → x.TableProvider → CachingSchema x × x.World → CachingSchema x × x.World
  cache_table name table (c, w) =
      set_tables (insert name (record { name = name; table = table }) c.tables_cache) (c, w)

  unfoldable pub is_cached_view : Option (CachingTable x) → Bool
  is_cached_view none = false
  is_cached_view (some t) = is_view (x.table_type t.table)

  unfoldable pub table_names : CachingSchema x × x.World → List Text
  table_names (c, w) = sort_texts (push_missing (x.table_names c.schema w) (keys c.tables_cache))

  -- The name that a table is loaded by: that of the cached table where there is one.
  unfoldable pub table_name : Text → Option (CachingTable x) → Text
  table_name requested_name none = requested_name
  table_name requested_name (some t) = t.name

  unfoldable pub of_loaded : Text → Loaded x.TableProvider → Result (Option (CachingTable x))
  of_loaded name (loaded provider) = ok (some (record { name = name; table = provider }))
  of_loaded name (failed catalog_not_found) = ok none
  of_loaded name (failed (not_found what)) = ok none
  of_loaded name (failed (other what)) = err (data_fusion what)

  unfoldable pub load_fresh_iceberg_table : Text → SchemaMethod x (Option (CachingTable x))
  load_fresh_iceberg_table requested_name (c, w) =
      if c.has_iceberg
      then (let name = table_name requested_name (get requested_name c.tables_cache) in
          (of_loaded name (x.load_tabular c.iceberg_namespace name w), (c, w)))
      else (err (data_fusion (codes "Iceberg catalog missing from Iceberg schema")), (c, w))

  -- The end of `table` for a local catalog, when the provider has answered.
  unfoldable pub cache_answer :
      Text
      → Option (CachingTable x)
      → Option x.TableProvider
      → SchemaMethod x (Option (CachingTable x))
  cache_answer name cached none = pure cached
  cache_answer name cached (some t) = do
    modify (cache_table name t)
    pure (some (record { name = name; table = t }))

  unfoldable pub local_table :
      Text → Option (CachingTable x) → SchemaMethod x (Option (CachingTable x))
  local_table name (some t) = pure (some t)
  local_table name none = do
    answer ← gets (λ s. x.table s.0.schema name s.1)
    found ← lift answer
    cache_answer name none found

  unfoldable pub iceberg_table :
      Text → Option (CachingTable x) → SchemaMethod x (Option (CachingTable x))
  iceberg_table name cached s =
      if is_cached_view cached then (ok cached, s) else load_fresh_iceberg_table name s

  unfoldable pub table_from :
      Text → Bool → Option (CachingTable x) → SchemaMethod x (Option (CachingTable x))
  table_from name true cached = iceberg_table name cached
  table_from name false cached = local_table name cached

  unfoldable pub table : Text → SchemaMethod x (Option (CachingTable x))
  table name = do
    has_iceberg ← gets (λ s. s.0.has_iceberg)
    cached ← gets (λ s. get name s.0.tables_cache)
    table_from name has_iceberg cached

  unfoldable pub register_provider : Bool → Text → x.TableProvider → SchemaMethod x (Unit {0})
  register_provider wanted name table = do
    schema ← gets (λ s. s.0.schema)
    when wanted (do _ ← call (x.register_table schema name table); pure tt)

  unfoldable pub register_table : Text → x.TableProvider → SchemaMethod x (Option x.TableProvider)
  register_table name table = do
    has_iceberg ← gets (λ s. s.0.has_iceberg)
    fail_if (has_iceberg && x.is_table_builder table)
        (data_fusion (codes "register_table called with IcebergTableBuilder"))
    register_provider (has_iceberg || not (is_view (x.table_type table))) name table
    modify (cache_table name table)
    pure (some table)

  -- What `deregister_table` does with the table that it took out of the cache: whether it is a view, and
  -- whether the catalog is an iceberg catalog.
  unfoldable pub deregister_cached :
      Text → CachingTable x → Bool → Bool → SchemaMethod x (Option x.TableProvider)
  deregister_cached name t true has_iceberg = pure (some t.table)
  deregister_cached name t false true = do
    schema ← gets (λ s. s.0.schema)
    _ ← call (x.deregister_table schema name)
    pure (some t.table)
  deregister_cached name t false false = do
    schema ← gets (λ s. s.0.schema)
    call (x.deregister_table schema name)

  unfoldable pub deregister_removed :
      Text → Bool → Option (CachingTable x) → SchemaMethod x (Option x.TableProvider)
  deregister_removed name has_iceberg none = pure none
  deregister_removed name has_iceberg (some t) =
      deregister_cached name t (is_view (x.table_type t.table)) has_iceberg

  unfoldable pub deregister_table : Text → SchemaMethod x (Option x.TableProvider)
  deregister_table name = do
    cached ← gets (λ s. get name s.0.tables_cache)
    modify (λ s. set_tables (remove name s.0.tables_cache) s)
    has_iceberg ← gets (λ s. s.0.has_iceberg)
    deregister_removed name has_iceberg cached

  unfoldable pub table_exist : Text → CachingSchema x × x.World → Bool
  table_exist name (c, w) = contains_key name c.tables_cache || x.table_exist c.schema name w

  unfoldable pub create_iceberg_table_async : Text → x.TableBuilder → SchemaMethod x x.TableProvider
  create_iceberg_table_async name builder = do
    has_iceberg ← gets (λ s. s.0.has_iceberg)
    fail_if (not has_iceberg) (iceberg (not_found (codes "iceberg catalog")))
    namespace ← gets (λ s. s.0.iceberg_namespace)
    provider ← call (x.build builder namespace name)
    register_provider true name provider
    modify (cache_table name provider)
    pure provider

  -- The table is dropped from the iceberg catalog when it was cached, and is no view.
  unfoldable pub drops : Bool → Option (CachingTable x) → Bool
  drops has_iceberg none = false
  drops has_iceberg (some t) = has_iceberg && not (is_view (x.table_type t.table))

  unfoldable pub drop_table_async : Text → SchemaMethod x (Option (CachingTable x))
  drop_table_async name = do
    removed ← gets (λ s. get name s.0.tables_cache)
    modify (λ s. set_tables (remove name s.0.tables_cache) s)
    has_iceberg ← gets (λ s. s.0.has_iceberg)
    namespace ← gets (λ s. s.0.iceberg_namespace)
    when (drops has_iceberg removed) (call (x.drop_table namespace name))
    schema ← gets (λ s. s.0.schema)
    _ ← call (x.deregister_table schema name)
    pure removed
