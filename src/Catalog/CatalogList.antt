-- ===== src/Catalog/CatalogList.antt =====
-- `EmbucketCatalogList` (crates/catalog/src/catalog_list.rs): the catalogs by name, each with the world of
-- its provider, and the object stores by the key of their url.
use rustice.Prelude.{Bool, true, false, not, Option, List, [], ◌++◌, Text, text_eq, codes, is_some}
use rustice.Prelude.HashMap.{HashMap, get, insert, remove, keys}
use rustice.Catalog.Method.{
  data_fusion, invalid_cache, Result, ok, err, Method, pure, fail, lift, gets, modify, fail_if,
  ok_or, ◌>>=◌, ◌>>◌,
}
use rustice.Catalog.Source.{Source}
use rustice.Catalog.CachingCatalog.{CachingCatalog, new, with_refresh}
use rustice.Catalog.LazyCatalog.{lazy_catalog, lazy_world}

pub record Url : Type 0 where
  pub scheme : Text
  -- from before the host to after the port
  pub host_and_port : Text

unfoldable pub get_url_key : Url → Text
get_url_key url = url.scheme ++ (codes "://" ++ url.host_and_port)

pub record EmbucketCatalogList (x : Source) (ObjectStore : Type 0) : Type 0 where
  pub table_object_store : HashMap Text ObjectStore
  pub catalogs : HashMap Text (CachingCatalog x × x.World)

module _ (x : Source) (ObjectStore : Type 0) where
  abbrev pub CatalogList : Type 0
  CatalogList = EmbucketCatalogList x ObjectStore

  unfoldable pub put_catalog : Text → CachingCatalog x × x.World → CatalogList → CatalogList
  put_catalog name catalog l = record l { catalogs = insert name catalog l.catalogs }

  unfoldable pub new_list : ObjectStore → CatalogList
  new_list local_file_system = record {
    table_object_store = insert (codes "file://") local_file_system [];
    catalogs = [];
  }

  unfoldable pub drop_catalog : Text → Bool → Method CatalogList (Unit {0})
  drop_catalog name cascade = do
    known ← gets (λ l. is_some (get name l.catalogs))
    modify (λ l. record l { catalogs = remove name l.catalogs })
    fail_if (not known) (invalid_cache (codes "catalog") name)

  -- The provider that `DataFusionIcebergCatalog::new` makes, or its error, is an argument.
  unfoldable pub register_iceberg_catalog :
      Text → Result x.World → Bool → Method CatalogList (Unit {0})
  register_iceberg_catalog name made should_refresh = do
    world ← lift made
    modify (put_catalog name (with_refresh should_refresh (new name true), world))

  unfoldable pub put_made :
      Text → Result (Unit {0}) × (CachingCatalog x × x.World) → Method CatalogList (Unit {0})
  put_made name (ok _, catalog) = modify (put_catalog name catalog)
  put_made name (err e, catalog) = fail e

  unfoldable pub register_iceberg_catalog_lazy :
      Text → x.World → List Text → List Text → Bool → Method CatalogList (Unit {0})
  register_iceberg_catalog_lazy name world bootstrap_schemas bootstrap_tables should_refresh =
      put_made name
        (lazy_catalog x name should_refresh (lazy_world x bootstrap_schemas bootstrap_tables world))

  -- The catalog that was there before
  unfoldable pub register_catalog :
      Text → x.World → Method CatalogList (Option (CachingCatalog x × x.World))
  register_catalog name world = do
    old ← gets (λ l. get name l.catalogs)
    modify (put_catalog name (new name false, world))
    pure old

  unfoldable pub catalog_names : CatalogList → List Text
  catalog_names l = keys l.catalogs

  unfoldable pub catalog : Text → CatalogList → Option (CachingCatalog x × x.World)
  catalog name l = get name l.catalogs

  unfoldable pub register_store : Url → ObjectStore → Method CatalogList (Option ObjectStore)
  register_store url store = do
    old ← gets (λ l. get (get_url_key url) l.table_object_store)
    modify
        (λ l. record l { table_object_store = insert (get_url_key url) store l.table_object_store })
    pure old

  unfoldable pub get_store : Url → CatalogList → Result ObjectStore
  get_store url l =
      ok_or (data_fusion (codes "ObjectStoreNotFound")) (get (get_url_key url) l.table_object_store)
