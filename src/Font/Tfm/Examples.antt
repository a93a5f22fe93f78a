-- ===== src/Font/Tfm/Examples.antt =====
-- Tests of the font metrics, and their theorems at concrete inputs.
use ferritex.Prelude.{
  ℕ, ◌-◌, ◌≤◌, ◌<◌, ◌≡◌, ◌⊎◌, refl, arith, List, [], ◌∷◌, some, get_elem?, pos, negsuc, list_eq,
}
use ferritex.Prelude.Decimal.{digits_before}
use ferritex.Prelude.Integer.{◌*ℤ◌}
use ferritex.Font.Tfm.{TfmError, truncated, ok, err, CharInfo, TfmMetrics}
use ferritex.Font.Tfm.Reader.{
  saturating_add, read_slice, read_u16, read_u32, read_i32, chunks_exact, read_char_infos,
  read_fix_words,
}
use ferritex.Font.Tfm.Parser.{
  read_directory, read_tables, check_sizes, parse, width, char_info, metric_from_table,
  fix_word_to_dimension,
}
use ferritex.Font.Tfm.Validity.{IsAccepted, HasSizes, directory_of, parse_total}
use ferritex.Font.Tfm.Lookup.{IsOutOfRange, LooksUpAll, lookup_total}

-- One character, 65, with a width of half the design size of 10 points.
abbrev file : List ℕ
file =
    0 ∷ 14 ∷ 0 ∷ 2 ∷ 0 ∷ 65 ∷ 0 ∷ 65 ∷ 0 ∷ 2 ∷ 0 ∷ 1 ∷ 0 ∷ 1 ∷ 0 ∷ 1 ∷ 0 ∷ 0 ∷ 0 ∷ 0 ∷ 0 ∷ 0 ∷ 0 ∷ 0
    ∷ 0x12 ∷ 0x34 ∷ 0x56 ∷ 0x78 ∷ 0 ∷ 0xA0 ∷ 0 ∷ 0 ∷ 1 ∷ 0x10 ∷ 4 ∷ 0 ∷ 0 ∷ 0 ∷ 0 ∷ 0 ∷ 0 ∷ 8 ∷ 0
    ∷ 0 ∷ 0 ∷ 0 ∷ 0 ∷ 0 ∷ 0xFF ∷ 0xFF ∷ 0xFF ∷ 0xFF ∷ 0 ∷ 0 ∷ 0 ∷ 0 ∷ []

abbrev metrics : TfmMetrics
metrics = record {
  design_size = pos 655360;
  checksum = 0x1234_5678;
  bc = 65;
  ec = 65;
  char_infos =
      record {
        width_index = 1;
        height_index = 1;
        depth_index = 0;
        italic_index = 1;
        tag = 0;
        remainder = 0;
      }
      ∷ [];
  widths = pos 0 ∷ pos 524288 ∷ [];
  heights = pos 0 ∷ [];
  depths = negsuc 0 ∷ [];
  italic_corrections = pos 0 ∷ [];
  design_size_fixword = pos 10485760;
}

file_parsed : parse file ≡ ok metrics
unfolding parse read_directory check_sizes read_tables read_slice saturating_add read_u16 read_u32
    read_i32 chunks_exact read_char_infos read_fix_words digits_before
file_parsed = refl

half_width : width metrics 65 ≡ ok (pos 327680)
unfolding width char_info metric_from_table fix_word_to_dimension ◌*ℤ◌
half_width = refl

short_file : parse (0 ∷ 14 ∷ []) ≡ err (truncated 24 2)
unfolding parse
short_file = refl

parse_total_example :
    (IsAccepted file × ((m : TfmMetrics) × (parse file ≡ ok m) × HasSizes (directory_of file) m))
    ⊎ ((IsAccepted file → ⊥) × ((e : TfmError) × (parse file ≡ err e)))
parse_total_example = parse_total file (omega arith)

lookup_total_example :
    (((65 < 65) ⊎ (65 < 65)) × IsOutOfRange metrics 65)
    ⊎ ((65 ≤ 65)
        × (65 ≤ 65)
        × ((info : CharInfo) × (get_elem? metrics.char_infos (65 - 65) ≡ some info)
            × LooksUpAll metrics 65 info))
lookup_total_example = lookup_total file metrics 65 (omega arith) file_parsed
