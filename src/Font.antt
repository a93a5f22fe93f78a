-- ===== src/Font.antt =====
-- crates/ferritex-core/src/font: the metrics of fonts.
pub mod Tfm
