-- ===== src/Catalog/Examples.antt =====
-- The theorems about the catalogs at concrete inputs.
use rustice.Prelude.{
  true, false, none, some, [], ◌∷◌, Text, text_eq, codes, if◌then◌else◌, ◌≡◌, refl, arith, is_some,
  Bool-cases, inl, inr,
}
use rustice.Prelude.HashMap.{get, insert, contains_key, insert_there, contains-insert}
use rustice.Catalog.Method.{ok}
use rustice.Catalog.CachingSchema.{
  contains, table, table_exist, register_provider, register_table, drop_table_async, of_loaded,
}
use rustice.Catalog.CachingCatalog
use rustice.Catalog.CachingCatalog.{new, with_refresh, create_namespace_async, empty_schema}
use rustice.Catalog.Source.{loaded}
use rustice.Catalog.Refresh.{finished, blocked, refresh_catalog}
use rustice.Catalog.Refresh.Ends.{alone, find, refreshed, refresh_catalog-finished}
use rustice.Catalog.Refresh.Deadlock.{refresh_catalog-blocked}
use rustice.Catalog.Tables.{table-register_table, drop_table_async-table}
use rustice.Catalog.Schemas.{schema-deregister_schema}
use rustice.Catalog.Histories.{CatalogCall, run, IsCoherent, run-IsCoherent}
use rustice.Catalog.Toy.{World, toy, world, iceberg_schema, refreshing}

drop_table_async-table_example :
    let (result, s') = drop_table_async {x = toy} (codes "t") iceberg_schema in
    (result ≡ ok none)
    × ((table {x = toy} (codes "t") s').0 ≡ of_loaded {x = toy} (codes "t") (loaded 1))
unfolding empty_schema get
drop_table_async-table_example =
    drop_table_async-table toy (codes "t") iceberg_schema none
      (toy.deregister_table (codes "s") (codes "t") world).1 refl refl refl refl

table-register_table_example :
    let s' = (register_table {x = toy} (codes "v") 100 iceberg_schema).1 in
    (table_exist {x = toy} (codes "v") s' ≡ true)
    × ((table {x = toy} (codes "v") s').0 ≡ ok (some (record { name = codes "v"; table = 100 })))
unfolding empty_schema register_table register_provider
table-register_table_example =
    table-register_table toy (codes "v") 100 iceberg_schema (some 100) refl

schema-deregister_schema_example :
    let s =
      (CachingCatalog.schema {x = toy} (codes "s") (new {x = toy} (codes "db") false, world)).1 in
    (CachingCatalog.schema {x = toy}
      (codes "s")
      (CachingCatalog.deregister_schema {x = toy} (codes "s") true s).1).0
    ≡ ok (some (empty_schema {x = toy} false (codes "s") (codes "s")))
unfolding new CachingCatalog.schema CachingCatalog.schema_or get CachingCatalog.cache_found
    CachingCatalog.cache_schema CachingCatalog.set_schemas insert
schema-deregister_schema_example =
    schema-deregister_schema toy (codes "s") true
      (CachingCatalog.schema {x = toy} (codes "s") (new {x = toy} (codes "db") false, world)).1 none
      (toy.deregister_schema (codes "s") true world).1 refl

refresh_catalog-finished_example :
    (s' : CachingCatalog.CachingCatalog toy × World) × (refresh_catalog {x = toy} alone refreshing
      ≡ finished (ok tt) s')
    × (s'.1 ≡ world)
    × ((m t : Text)
        → find s' m t
          ≡ (if contains (toy.schema_names world) m then refreshed toy world m t none else none))
unfolding with_refresh new get
refresh_catalog-finished_example = refresh_catalog-finished toy refreshing refl tt

created_there :
    (s : CachingCatalog.CachingCatalog toy × World)
    → contains_key (codes "n") (create_namespace_async {x = toy} (codes "n") s).1.0.schemas_cache
      ≡ true
unfolding create_namespace_async CachingCatalog.cache_registered CachingCatalog.cache_schema
    CachingCatalog.set_schemas
created_there (c, w) = elim (Bool-cases c.has_iceberg) [
  | inl e ↦ ground (
    arith,
    e,
    insert_there (codes "n") [] w.mirror,
    insert_there (codes "n") (empty_schema {x = toy} c.has_iceberg (codes "n") (codes "n"))
        c.schemas_cache,
  )
  | inr e ↦ ground (
    arith,
    e,
    insert_there (codes "n") [] w.mirror,
    insert_there (codes "n") (empty_schema {x = toy} c.has_iceberg (codes "n") (codes "n"))
        c.schemas_cache,
  )
]

created_keeps :
    (s : CachingCatalog.CachingCatalog toy × World)
    → is_some (toy.schema (codes "s") s.1) ≡ true
    → is_some (toy.schema (codes "s") (create_namespace_async {x = toy} (codes "n") s).1.1) ≡ true
unfolding create_namespace_async CachingCatalog.cache_registered CachingCatalog.cache_schema
    CachingCatalog.set_schemas
created_keeps (c, w) h = elim (Bool-cases c.has_iceberg) [
  | inl e ↦ ground (
    arith,
    e,
    h,
    insert_there (codes "n") [] w.mirror,
    contains-insert (codes "n") (codes "s") [] w.mirror,
  )
  | inr e ↦ ground (
    arith,
    e,
    h,
    insert_there (codes "n") [] w.mirror,
    contains-insert (codes "n") (codes "s") [] w.mirror,
  )
]

-- Another task creates the schema "n" during the fetch of the tables of "s".
refresh_catalog-blocked_example :
    refresh_catalog {x = toy}
      (λ name s. (create_namespace_async {x = toy} (codes "n") s).1)
      refreshing
    ≡ blocked
unfolding with_refresh new contains get
refresh_catalog-blocked_example =
    refresh_catalog-blocked toy (λ name s. (create_namespace_async {x = toy} (codes "n") s).1)
      (codes "n") (codes "s") (λ name s. created_there s) (λ name s h. created_keeps s h) refreshing
      refl refl refl refl

run-IsCoherent_example :
    let s =
      run toy
        (CatalogCall.create (codes "a")
          ∷ CatalogCall.names
          ∷ CatalogCall.drop (codes "a") false
          ∷ [])
        (new {x = toy} (codes "db") true, world) in
    IsCoherent toy s.0.has_iceberg s.0.schemas_cache
run-IsCoherent_example =
    run-IsCoherent toy (codes "db") true world
      (CatalogCall.create (codes "a") ∷ CatalogCall.names ∷ CatalogCall.drop (codes "a") false ∷ [])
