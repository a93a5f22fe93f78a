-- ===== src/Incremental/Partition/Examples.antt =====
-- A report with two chapters.
use ferritex.Prelude.{
  ℕ, ◌≡◌, ◌≢◌, refl, arith, list_beq, Option, none, some, List, [], ◌∷◌, Str, codes, map,
}
use ferritex.Prelude.Decimal.{digits_before}
use ferritex.Incremental.Partition.{
  PathBuf, SectionOutlineEntry, DocumentWorkUnit, chapter, plan, units_of, units_from, work_unit,
  partition_strategy, display_title, slugify_partition_title, dashed,
}
use ferritex.Incremental.Partition.Identifiers.{identifiers_distinct}

-- As it is on the characters used here.
abbrev lower : ℕ → List ℕ
lower c = c ∷ []

abbrev same : Str → Str
same s = s

abbrev stem : PathBuf → Option Str
stem [] = none
stem (c ∷ cs) = some c

abbrev intro : SectionOutlineEntry
intro = record { level = 0; number = codes "1"; title = codes "intro" }

abbrev entries : List SectionOutlineEntry
entries = intro ∷ record { level = 1; number = codes "1.1"; title = codes "aims" } ∷ intro ∷ []

identifiers :
    map
      (λ u. u.partition_id)
      (plan lower same stem (codes "main" ∷ []) (codes "report") entries).work_units
    ≡ codes "chapter:0001:1-intro" ∷ codes "chapter:0002:1-intro" ∷ []
unfolding plan units_of units_from work_unit partition_strategy display_title
    slugify_partition_title dashed digits_before list_beq
identifiers = refl

abbrev unit : ℕ → Str → DocumentWorkUnit
unit ordinal id = record {
  partition_id = id;
  kind = chapter;
  locator = record {
    entry_file = codes "main" ∷ [];
    level = 0;
    ordinal = ordinal;
    title = codes "1 intro";
  };
  title = codes "1 intro";
}

apart : ◌≢◌ {A = ℕ} 0 1
apart e = absurd (omega (arith, e))

identifiers_distinct_example :
    (unit 0 (codes "chapter:0001:1-intro")).partition_id
    ≢ (unit 1 (codes "chapter:0002:1-intro")).partition_id
unfolding plan units_of units_from work_unit partition_strategy display_title
    slugify_partition_title dashed digits_before list_beq
identifiers_distinct_example =
    identifiers_distinct lower same stem (codes "main" ∷ []) (codes "report") entries 0 1
      (unit 0 (codes "chapter:0001:1-intro")) (unit 1 (codes "chapter:0002:1-intro")) refl refl
      apart
