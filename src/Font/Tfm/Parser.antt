-- ===== src/Font/Tfm/Parser.antt =====
-- `TfmMetrics::parse` and the lookups.
use ferritex.Prelude.{
  ℕ, ◌+◌, ◌-◌, ◌*◌, not, ◌||◌, Option, none, some, List, Str, codes, length, get_elem?, ltb, ◌==◌,
  if◌then◌else◌, ◌++◌, ℤ, pos,
}
use ferritex.Prelude.Decimal.{display, digits_before}
use ferritex.Prelude.Integer.{◌*ℤ◌}
use ferritex.Font.Tfm.{
  TfmError, truncated, invalid_table_size, char_code_out_of_range, invalid_index, Result, ok, err,
  panic, ◌>>=◌, CharInfo, TfmMetrics, shr_ℤ,
}
use ferritex.Font.Tfm.Reader.{read_u16, read_u32, read_i32, read_char_infos, read_fix_words}

-- The halfwords at the start of a file.
pub record Directory : Type 0 where
  pub lf : ℕ
  pub lh : ℕ
  pub bc : ℕ
  pub ec : ℕ
  pub nw : ℕ
  pub nh : ℕ
  pub nd : ℕ
  pub ni : ℕ
  pub nl : ℕ
  pub nk : ℕ
  pub ne : ℕ
  pub np : ℕ

unfoldable pub read_directory : List ℕ → Result Directory
unfolding read_u16
read_directory bytes = do
  lf ← read_u16 bytes 0
  lh ← read_u16 bytes 2
  bc ← read_u16 bytes 4
  ec ← read_u16 bytes 6
  nw ← read_u16 bytes 8
  nh ← read_u16 bytes 10
  nd ← read_u16 bytes 12
  ni ← read_u16 bytes 14
  nl ← read_u16 bytes 16
  nk ← read_u16 bytes 18
  ne ← read_u16 bytes 20
  np ← read_u16 bytes 22
  ok (record {
    lf = lf;
    lh = lh;
    bc = bc;
    ec = ec;
    nw = nw;
    nh = nh;
    nd = nd;
    ni = ni;
    nl = nl;
    nk = nk;
    ne = ne;
    np = np;
  })

-- `checked_sub`, then `checked_add(1)`, on a `u16`.
abbrev pub char_count_of : Directory → Option ℕ
char_count_of d =
    if ltb d.ec d.bc then none else if ltb (d.ec - d.bc) 65535 then some (d.ec - d.bc + 1) else none

abbrev pub expected_lf : Directory → ℕ → ℕ
expected_lf d char_count =
    6 + d.lh + char_count + d.nw + d.nh + d.nd + d.ni + d.nl + d.nk + d.ne + d.np

unfoldable pub read_tables : List ℕ → Directory → ℕ → Result TfmMetrics
unfolding read_u32 read_i32 read_char_infos read_fix_words
read_tables bytes d char_count = do
  let char_info_offset = 24 + d.lh * 4
  let width_offset = char_info_offset + char_count * 4
  let height_offset = width_offset + d.nw * 4
  let depth_offset = height_offset + d.nh * 4
  let italic_offset = depth_offset + d.nd * 4
  checksum ← read_u32 bytes 24
  design_size_fixword ← read_i32 bytes 28
  char_infos ← read_char_infos bytes char_info_offset char_count
  widths ← read_fix_words bytes width_offset d.nw
  heights ← read_fix_words bytes height_offset d.nh
  depths ← read_fix_words bytes depth_offset d.nd
  italic_corrections ← read_fix_words bytes italic_offset d.ni
  ok (record {
    design_size = shr_ℤ design_size_fixword 4;
    checksum = checksum;
    bc = d.bc;
    ec = d.ec;
    char_infos = char_infos;
    widths = widths;
    heights = heights;
    depths = depths;
    italic_corrections = italic_corrections;
    design_size_fixword = design_size_fixword;
  })

-- The checks behind the character count.
unfoldable pub check_sizes : List ℕ → Directory → Option ℕ → Result TfmMetrics
unfolding read_tables digits_before
check_sizes bytes d none = err (
    invalid_table_size
      (codes "invalid character range: bc=" ++ display d.bc ++ codes ", ec=" ++ display d.ec))
check_sizes bytes d (some char_count) =
    if not (d.lf == expected_lf d char_count)
    then err (
        invalid_table_size (
          codes "directory word count mismatch: lf="
          ++ display d.lf
          ++ codes ", expected "
          ++ display (expected_lf d char_count)))
    else if ltb (length bytes) (d.lf * 4)
    then err (truncated (d.lf * 4) (length bytes))
    else if not (length bytes == d.lf * 4)
    then err (
        invalid_table_size (
          codes "file length mismatch: expected "
          ++ display (d.lf * 4)
          ++ codes " bytes, got "
          ++ display (length bytes)))
    else read_tables bytes d char_count

abbrev pub check_directory : List ℕ → Directory → Result TfmMetrics
unfolding check_sizes digits_before
check_directory bytes d =
    if ltb d.lh 2
    then err
        (invalid_table_size (codes "header length must be at least 2 words, got " ++ display d.lh))
    else check_sizes bytes d (char_count_of d)

unfoldable pub parse : List ℕ → Result TfmMetrics
unfolding read_directory check_sizes digits_before
parse bytes =
    if ltb (length bytes) 24
    then err (truncated 24 (length bytes))
    else (read_directory bytes >>= check_directory bytes)

unfoldable pub fix_word_to_dimension : TfmMetrics → ℤ → ℤ
fix_word_to_dimension m fixword = shr_ℤ (m.design_size_fixword *ℤ fixword) 24

abbrev pub or_panic : Option CharInfo → Result CharInfo
or_panic none = panic
or_panic (some info) = ok info

unfoldable pub char_info : TfmMetrics → ℕ → Result CharInfo
char_info m char_code =
    if ltb char_code m.bc || ltb m.ec char_code
    then err (char_code_out_of_range char_code m.bc m.ec)
    else or_panic (get_elem? m.char_infos (char_code - m.bc))

abbrev pub dimension_or : TfmMetrics → TfmError → Option ℤ → Result ℤ
unfolding fix_word_to_dimension
dimension_or m e none = err e
dimension_or m e (some fixword) = ok (fix_word_to_dimension m fixword)

unfoldable pub metric_from_table : TfmMetrics → Str → ℕ → List ℤ → Result ℤ
unfolding fix_word_to_dimension
metric_from_table m table index values =
    dimension_or m (invalid_index table index (length values)) (get_elem? values index)

unfoldable pub width : TfmMetrics → ℕ → Result ℤ
unfolding char_info metric_from_table
width m char_code = do
  info ← char_info m char_code
  if info.width_index == 0
      then ok (pos 0)
      else metric_from_table m (codes "widths") info.width_index m.widths

unfoldable pub height : TfmMetrics → ℕ → Result ℤ
unfolding char_info metric_from_table
height m char_code = char_info m char_code >>= λ info.
    metric_from_table m (codes "heights") info.height_index m.heights

unfoldable pub depth : TfmMetrics → ℕ → Result ℤ
unfolding char_info metric_from_table
depth m char_code =
    char_info m char_code >>= λ info. metric_from_table m (codes "depths") info.depth_index m.depths

unfoldable pub italic_correction : TfmMetrics → ℕ → Result ℤ
unfolding char_info metric_from_table
italic_correction m char_code = char_info m char_code >>= λ info.
    metric_from_table m (codes "italic_corrections") info.italic_index m.italic_corrections
