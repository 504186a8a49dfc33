-- ===== src/Functions.antt =====
-- crates/functions
pub mod Error
pub mod Json
pub mod Paths
pub mod Flatten
pub mod Arrays
pub mod Substr
pub mod SubstrLaws
pub mod Insert
pub mod InsertLaws
pub mod Examples
