-- ===== src/Catalog.antt =====
-- The catalogs that DataFusion plans with (crates/catalog/src): caches over the providers of other
-- crates.
pub mod Source
pub mod Method
pub mod CachingSchema
pub mod CachingCatalog
pub mod LazyCatalog
pub mod CatalogList
pub mod Refresh
pub mod Schemas
pub mod Histories
pub mod Toy
pub mod Examples
pub mod Tables
