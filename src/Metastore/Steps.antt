-- ===== src/Metastore/Steps.antt =====
-- What each method of `InMemoryMetastore` can leave as the state: the state as it was, or one write,
-- under the facts that its guards give. An invariant is proved of the writes alone.
pub mod VolumeSteps
pub mod DatabaseSteps
pub mod TableSteps
pub mod UpdateSteps
