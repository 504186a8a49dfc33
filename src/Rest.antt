-- ===== src/Rest.antt =====
-- crates/api-snowflake-rest-sessions: who a request of the REST API is from, and its session.
pub mod Headers
pub mod Spcs
pub mod Session
pub mod Layer
pub mod Cookies
pub mod Admission
pub mod Return
pub mod Examples
