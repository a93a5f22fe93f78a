-- ===== src/Font/Tfm.antt =====
-- crates/ferritex-core/src/font/tfm.rs: TeX font metrics, from the bytes of a file. An `i32` that is
-- read is the integer that its two's complement stands for. `panic` is an index out of bounds.
pub mod Reader
pub mod Parser
pub mod Validity
pub mod Lookup
mod Examples
use ferritex.Prelude.{
  ℕ, ◌+◌, ◌-◌, ◌*◌, ◌/◌, ◌^◌, List, Str, ℤ, pos, negsuc, pos_part, neg_part, sub_ℕ,
}

-- On a machine of 64 bits.
abbrev pub usize_max : ℕ
usize_max = 0xFFFF_FFFF_FFFF_FFFF

pub data TfmError : Type 0 where
  truncated : ℕ → ℕ → TfmError
  invalid_table_size : Str → TfmError
  char_code_out_of_range : ℕ → ℕ → ℕ → TfmError
  invalid_index : Str → ℕ → ℕ → TfmError

pub data Result {ℓ} (A : Type ℓ) : Type ℓ where
  ok : A → Result A
  err : TfmError → Result A
  panic : Result A

infixl 5 ◌>>=◌
abbrev pub ◌>>=◌ {ℓ κ} : {A : Type ℓ} {B : Type κ} → Result A → (A → Result B) → Result B
ok a >>= f = f a
err e >>= f = err e
panic >>= f = panic

pub record CharInfo : Type 0 where
  pub width_index : ℕ
  pub height_index : ℕ
  pub depth_index : ℕ
  pub italic_index : ℕ
  pub tag : ℕ
  pub remainder : ℕ

-- A `DimensionValue` is an integer of scaled points.
pub record TfmMetrics : Type 0 where
  pub design_size : ℤ
  pub checksum : ℕ
  pub bc : ℕ
  pub ec : ℕ
  pub char_infos : List CharInfo
  pub widths : List ℤ
  pub heights : List ℤ
  pub depths : List ℤ
  pub italic_corrections : List ℤ
  pub design_size_fixword : ℤ

-- `>>` on a signed integer.
abbrev pub shr_ℤ : ℤ → ℕ → ℤ
shr_ℤ (pos n) k = pos (n / 2 ^ k)
shr_ℤ (negsuc n) k = negsuc (n / 2 ^ k)
