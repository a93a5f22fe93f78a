-- ===== src/Application.antt =====
-- crates/ferritex-application/src: what the editor and the file watcher drive.
pub mod RecompileScheduler
pub mod OpenDocumentStore
pub mod PreviewSession
