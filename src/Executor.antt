-- ===== src/Executor.antt =====
-- crates/executor: the execution service, its sessions and its running queries.
pub mod TaskResult
pub mod RunningQueries
pub mod Sessions
pub mod Service
pub mod QueryLife
pub mod Concurrency
pub mod SessionLaws
pub mod Merge
pub mod Examples
pub mod IdleTimeout
pub mod Times
pub mod TimeLaws
