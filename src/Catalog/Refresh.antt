-- ===== src/Catalog/Refresh.antt =====
-- `EmbucketCatalogList::refresh` and `fetch_table_providers` (crates/catalog/src/catalog_list.rs,
-- utils.rs). Other tasks run while tables are fetched: `others` is what they do to the catalog during the
-- fetch for a schema. An entry of a `DashMap` that is removed while an iterator of this task refers to it
-- waits for the iterator's own lock, so it is `blocked`.
pub mod Ends
pub mod Deadlock
use rustice.Prelude.{
  Bool, true, false, not, Option, none, some, List, [], ◌∷◌, Text, text_eq, any, if◌then◌else◌,
}
use rustice.Prelude.HashMap.{HashMap, get, insert, keys}
use rustice.Catalog.Method.{Error, Result, ok, err, Method, pure, lift, gets, modify, ◌>>=◌, ◌>>◌}
use rustice.Catalog.Source.{Source}
use rustice.Catalog.CachingSchema.{CachingSchema, CachingTable, contains}
use rustice.Catalog.CachingCatalog.{
  CachingCatalog, CatalogMethod, cache_schema, empty_schema, schema_names,
}
use rustice.Catalog.LazyCatalog.{for_each}

pub data Outcome (A : Type 0) : Type 0 where
  finished : Result (Unit {0}) → A → Outcome A
  blocked : Outcome A

module _ (x : Source) where
  -- A table that is not found, and one that fails, is left out.
  unfoldable pub fetched :
      Text → Result (Option x.TableProvider) → Result (Option (Text × x.TableProvider))
  fetched table_name (ok none) = ok none
  fetched table_name (ok (some provider)) = ok (some (table_name, provider))
  fetched table_name (err e) = ok none

  unfoldable pub push_fetched :
      Result (Option (Text × x.TableProvider))
      → Result (List (Text × x.TableProvider))
      → Result (List (Text × x.TableProvider))
  push_fetched (err e) rest = err e
  push_fetched (ok none) rest = rest
  push_fetched (ok (some t)) (ok tables) = ok (t ∷ tables)
  push_fetched (ok (some t)) (err e) = err e

  unfoldable pub fetch_tables :
      x.SchemaProvider → x.World → List Text → Result (List (Text × x.TableProvider))
  fetch_tables provider w [] = ok []
  fetch_tables provider w (name ∷ names) =
      push_fetched (fetched name (x.table provider name w)) (fetch_tables provider w names)

  unfoldable pub fetch_table_providers :
      x.SchemaProvider → x.World → Result (List (Text × x.TableProvider))
  fetch_table_providers provider w = fetch_tables provider w (x.table_names provider w)

module _ {x : Source} where
  unfoldable pub cached_tables :
      List (Text × x.TableProvider) → HashMap Text (CachingTable x) → HashMap Text (CachingTable x)
  cached_tables [] tables = tables
  cached_tables ((name, provider) ∷ l) tables =
      cached_tables l (insert name (record { name = name; table = provider }) tables)

  unfoldable pub with_tables : CachingSchema x → List (Text × x.TableProvider) → CachingSchema x
  with_tables schema tables = record schema {
    tables_cache = cached_tables tables schema.tables_cache;
  }

module _ {x : Source}
    (others : Text → CachingCatalog x × x.World → CachingCatalog x × x.World) where
  unfoldable pub refresh_found : Text → Option x.SchemaProvider → CatalogMethod x (Unit {0})
  refresh_found name none = pure tt
  refresh_found name (some provider) = do
    has_iceberg ← gets (λ s. s.0.has_iceberg)
    answer ← gets (λ s. fetch_table_providers x provider s.1)
    modify (others name)
    tables ← lift answer
    modify (cache_schema name (with_tables (empty_schema has_iceberg name provider) tables))

  unfoldable pub refresh_schema : Text → CatalogMethod x (Unit {0})
  refresh_schema name = do provider ← gets (λ s. x.schema name s.1); refresh_found name provider

  unfoldable pub refresh_schemas : CatalogMethod x (List Text)
  refresh_schemas = do schemas ← schema_names; for_each refresh_schema schemas; pure schemas

  -- `for schema in &catalog.schemas_cache { if !schemas.contains(…) { catalog.schemas_cache.remove(…) } }`
  unfoldable pub cleanup :
      Result (List Text) × (CachingCatalog x × x.World) → Outcome (CachingCatalog x × x.World)
  cleanup (ok schemas, s) =
      if any (λ key. not (contains schemas key)) (keys s.0.schemas_cache)
      then blocked
      else finished (ok tt) s
  cleanup (err e, s) = finished (err e) s

  unfoldable pub refresh_catalog : CachingCatalog x × x.World → Outcome (CachingCatalog x × x.World)
  refresh_catalog s = if s.0.should_refresh then cleanup (refresh_schemas s) else finished (ok tt) s

  -- The catalogs of the list, one after another
  unfoldable pub refresh_next :
      Text
      → HashMap Text (CachingCatalog x × x.World)
      → Outcome (CachingCatalog x × x.World)
      → Outcome (HashMap Text (CachingCatalog x × x.World))
      → Outcome (HashMap Text (CachingCatalog x × x.World))
  refresh_next name rest blocked others_after = blocked
  refresh_next name rest (finished (err e) s) others_after = finished (err e) ((name, s) ∷ rest)
  refresh_next name rest (finished (ok _) s) blocked = blocked
  refresh_next name rest (finished (ok _) s) (finished r l) = finished r ((name, s) ∷ l)

  unfoldable pub refresh :
      HashMap Text (CachingCatalog x × x.World)
      → Outcome (HashMap Text (CachingCatalog x × x.World))
  refresh [] = finished (ok tt) []
  refresh ((name, s) ∷ catalogs) = refresh_next name catalogs (refresh_catalog s) (refresh catalogs)
