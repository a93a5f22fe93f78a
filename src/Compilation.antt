-- ===== src/Compilation.antt =====
-- crates/ferritex-core/src/compilation: what a compilation of several partitions shares.
pub mod CommitBarrier
