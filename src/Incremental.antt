-- ===== src/Incremental.antt =====
-- crates/ferritex-core/src/incremental: what a change makes necessary to compile again, and the parts
-- that a document is compiled in.
pub mod Dependencies
pub mod Partition
