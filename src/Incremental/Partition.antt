-- ===== src/Incremental/Partition.antt =====
-- `DocumentPartitionPlanner` of crates/ferritex-core/src/incremental/api.rs and
-- crates/ferritex-core/src/compilation/partition.rs: the parts that a document is compiled in. The
-- standard library's `to_lowercase` and `trim`, and the stem of a path as UTF-8, are parameters.
pub mod Identifiers
mod Examples
use ferritex.Prelude.{
  ℕ, zero, suc, ◌+◌, Bool, true, false, ◌&&◌, ◌||◌, not, Option, none, some, List, [], ◌∷◌, ◌++◌,
  Str, codes, ltb, leb, ◌==◌, if◌then◌else◌, ◌=?◌, list_eq, nat_eq,
}
use ferritex.Prelude.Decimal.{padded, digits_before}

abbrev pub PathBuf : Type 0
PathBuf = List Str

pub record SectionOutlineEntry : Type 0 where
  pub level : ℕ
  pub number : Str
  pub title : Str

pub data PartitionKind : Type 0 where
  document : PartitionKind
  chapter : PartitionKind
  section : PartitionKind

pub record PartitionLocator : Type 0 where
  pub entry_file : PathBuf
  pub level : ℕ
  pub ordinal : ℕ
  pub title : Str

pub record DocumentWorkUnit : Type 0 where
  pub partition_id : Str
  pub kind : PartitionKind
  pub locator : PartitionLocator
  pub title : Str

pub record DocumentPartitionPlan : Type 0 where
  pub fallback_partition_id : Str
  pub work_units : List DocumentWorkUnit

abbrev pub no_text : Str → Bool
no_text [] = true
no_text (c ∷ cs) = false

unfoldable pub display_title : SectionOutlineEntry → Str
display_title e =
    if no_text e.number
    then (if no_text e.title then [] else e.title)
    else (if no_text e.title then e.number else e.number ++ codes " " ++ e.title)

abbrev pub is_alphanumeric : ℕ → Bool
is_alphanumeric c = (leb 48 c && leb c 57) || (leb 65 c && leb c 90) || (leb 97 c && leb c 122)

-- The loop of `slugify_partition_title`, with whether the last character pushed was a dash for others.
unfoldable pub dashed : Bool → Str → Str
dashed last_was_dash [] = []
dashed last_was_dash (c ∷ cs) =
    let kept = dashed false cs in
    let skipped = dashed true cs in
    if is_alphanumeric c then c ∷ kept else if last_was_dash then skipped else 45 ∷ skipped

abbrev trim_start : Str → Str
trim_start [] = []
trim_start (c ∷ cs) = let rest = trim_start cs in if c == 45 then rest else c ∷ cs

abbrev trim_end : Str → Str
trim_end [] = []
trim_end (c ∷ cs) = let rest = trim_end cs in if (c == 45) && no_text rest then [] else c ∷ rest

abbrev or_else : Str → Str → Str
or_else fallback slug = if no_text slug then fallback else slug

-- `any(|entry| entry.level == level)`
abbrev pub has_level : ℕ → List SectionOutlineEntry → Bool
has_level level [] = false
has_level level (e ∷ es) = (e.level == level) || has_level level es

unfoldable pub partition_strategy : Str → List SectionOutlineEntry → Option (ℕ × PartitionKind)
partition_strategy document_class entries =
    let prefers_chapters = (document_class =? codes "book") || (document_class =? codes "report") in
    if prefers_chapters && has_level 0 entries
    then some (0, chapter)
    else if has_level 1 entries
    then some (1, section)
    else if has_level 0 entries
    then some (0, section)
    else none

abbrev pub prefix_of : PartitionKind → Str
prefix_of chapter = codes "chapter"
prefix_of section = codes "section"
prefix_of document = codes "document"

module _ (to_lowercase : ℕ → List ℕ) (trim : Str → Str) (file_stem : PathBuf → Option Str) where
  -- `flat_map(char::to_lowercase)`
  abbrev pub lowered : Str → Str
  lowered [] = []
  lowered (c ∷ cs) = to_lowercase c ++ lowered cs

  unfoldable pub slugify_partition_title : Str → Str
  unfolding dashed
  slugify_partition_title value =
      or_else (codes "untitled") (trim_end (trim_start (dashed false (lowered value))))

  abbrev stem_or_root : Option Str → Str
  unfolding slugify_partition_title
  stem_or_root none = codes "root"
  stem_or_root (some stem) =
      if no_text (trim stem) then codes "root" else slugify_partition_title stem

  unfoldable pub fallback_partition_id_for : PathBuf → Str
  unfolding slugify_partition_title
  fallback_partition_id_for primary_input =
      codes "document:0000:" ++ stem_or_root (file_stem primary_input)

  unfoldable pub work_unit : PathBuf → PartitionKind → ℕ → SectionOutlineEntry → DocumentWorkUnit
  unfolding display_title slugify_partition_title digits_before
  work_unit primary_input kind ordinal entry =
      let title = display_title entry in
      let slug = slugify_partition_title title in
      record {
        partition_id =
            prefix_of kind ++ (codes ":" ++ (padded 4 (ordinal + 1) ++ (codes ":" ++ slug)));
        kind = kind;
        locator = record {
          entry_file = primary_input;
          level = entry.level;
          ordinal = ordinal;
          title = title;
        };
        title = title;
      }

  -- The units of the entries on a level, counted from an ordinal on.
  unfoldable pub units_from :
      PathBuf → ℕ → PartitionKind → ℕ → List SectionOutlineEntry → List DocumentWorkUnit
  unfolding work_unit
  units_from primary_input level kind ordinal [] = []
  units_from primary_input level kind ordinal (e ∷ es) =
      let counted = units_from primary_input level kind (ordinal + 1) es in
      let passed = units_from primary_input level kind ordinal es in
      if e.level == level then work_unit primary_input kind ordinal e ∷ counted else passed

  abbrev pub whole_document : PathBuf → Str → DocumentWorkUnit
  whole_document primary_input id = record {
    partition_id = id;
    kind = document;
    locator = record {
      entry_file = primary_input;
      level = 0;
      ordinal = 0;
      title = codes "document";
    };
    title = codes "document";
  }

  unfoldable pub units_of :
      PathBuf → List SectionOutlineEntry → Option (ℕ × PartitionKind) → List DocumentWorkUnit
  unfolding units_from fallback_partition_id_for
  units_of primary_input entries none =
      whole_document primary_input (fallback_partition_id_for primary_input) ∷ []
  units_of primary_input entries (some (level, kind)) =
      units_from primary_input level kind 0 entries

  unfoldable pub plan : PathBuf → Str → List SectionOutlineEntry → DocumentPartitionPlan
  unfolding units_of partition_strategy fallback_partition_id_for
  plan primary_input document_class entries = record {
    fallback_partition_id = fallback_partition_id_for primary_input;
    work_units = units_of primary_input entries (partition_strategy document_class entries);
  }
