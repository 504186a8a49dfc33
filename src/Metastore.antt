-- ===== src/Metastore.antt =====
-- crates/catalog-metastore
pub mod Error
pub mod Models
pub mod External
pub mod Volume
pub mod State
pub mod Volumes
pub mod Databases
pub mod Requirements
pub mod Metadata
pub mod Tables
pub mod Updates
pub mod Steps
pub mod Calls
pub mod Cache
pub mod Consistency
pub mod Deadlock
pub mod SchemaCase
pub mod RoundTrips
pub mod Listing
pub mod TableTrips
pub mod FieldIds
pub mod BucketNames
pub mod Commits
pub mod PatchOperation
pub mod Bootstrap
pub mod Catalog
pub mod Refinement
pub mod Toy
pub mod Examples
