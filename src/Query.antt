-- ===== src/Query.antt =====
-- The execution of statements (crates/executor/src/query.rs).
pub mod Error
pub mod Variables
pub mod Names
pub mod UseLaws
pub mod NameLaws
pub mod Partition
pub mod Ddl
pub mod CreateLaws
pub mod Drop
pub mod DropFound
pub mod DropGone
pub mod DropLaws
pub mod Examples
