-- ===== src/Typesetting.antt =====
-- crates/ferritex-core/src/typesetting: breaking paragraphs into lines.
pub mod KnuthPlass
