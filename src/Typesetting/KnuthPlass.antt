-- ===== src/Typesetting/KnuthPlass.antt =====
-- crates/ferritex-core/src/typesetting/knuth_plass.rs and the items of typesetting/api.rs that it
-- reads: breaking paragraphs at the least demerits. A `usize` is an index into memory and a number;
-- `i64` and `i128` wrap around. `none` is a panic where a function gives `Panics`.
pub mod Candidates
pub mod Cost
pub mod Search
pub mod Path
pub mod Relax
pub mod Table
pub mod Optimal
pub mod Bounds
pub mod Sizes
pub mod Edges
pub mod Paragraph
pub mod Feasible
pub mod Paragraphs
pub mod Breaks
mod Examples
use ferritex.Prelude.{ℕ, Option, none, some, Str, ℤ, pos, negsuc}

-- The source's panics: an index out of range, or a division.
abbrev pub Panics {ℓ} : Type ℓ → Type ℓ
Panics A = Option A

infixl 10 ◌>>=◌
abbrev pub ◌>>=◌ {ℓ κ} : {A : Type ℓ} {B : Type κ} → Panics A → (A → Panics B) → Panics B
none >>= f = none
some a >>= f = f a

pub data GlueOrder : Type 0 where
  normal : GlueOrder
  fil : GlueOrder
  fill : GlueOrder
  filll : GlueOrder

pub record GlueComponent : Type 0 where
  pub value : ℤ
  pub order : GlueOrder

pub data HListItem : Type 0 where
  char : (codepoint : ℕ) (width : ℤ) (link : Option Str) (font_index : ℕ) → HListItem
  glue :
      (width : ℤ) (stretch shrink : GlueComponent) (link : Option Str) (font_index : ℕ) → HListItem
  kern : (width : ℤ) → HListItem
  inline_box : (width height depth : ℤ) (content : Str) → HListItem
  penalty : (value : ℤ) → HListItem

abbrev pub penalty_forbidden : ℤ
penalty_forbidden = pos 10000

abbrev pub penalty_forced : ℤ
penalty_forced = negsuc 9999

abbrev pub max_badness : ℤ
max_badness = pos 1000000

pub record BreakParams : Type 0 where
  pub line_width : ℤ
  pub tolerance : ℤ
  pub line_penalty : ℤ
  pub hyphen_penalty : ℤ

abbrev pub default_params : BreakParams
default_params = record {
  line_width = pos 0;
  tolerance = pos 200;
  line_penalty = pos 10;
  hyphen_penalty = pos 50;
}

pub data CandidateKind : Type 0 where
  at_glue : CandidateKind
  at_penalty : CandidateKind
  terminal : CandidateKind

pub record BreakCandidate : Type 0 where
  pub break_index : Option ℕ
  pub measure_end : ℕ
  pub next_start : ℕ
  pub penalty : ℤ
  pub kind : CandidateKind

pub record Metrics : Type 0 where
  pub width : ℤ
  pub stretch : ℤ
  pub shrink : ℤ

abbrev pub default_metrics : Metrics
default_metrics = record { width = pos 0; stretch = pos 0; shrink = pos 0 }

pub record PathState : Type 0 where
  pub cost : ℤ
  pub predecessor : Option ℕ
