-- ===== src/Parser/Tokenizer.antt =====
-- crates/ferritex-core/src/parser/tokenizer.rs: bytes to tokens.
pub mod State
pub mod Decode
pub mod Scan
pub mod Progress
pub mod Arms
pub mod Loops
pub mod Words
pub mod Totality
pub mod Utf8
mod Examples
