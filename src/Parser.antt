-- ===== src/Parser.antt =====
-- The parser of crates/ferritex-core/src/parser.
pub mod Token
pub mod Registers
pub mod Conditionals
pub mod MacroEngine
pub mod Tokenizer
