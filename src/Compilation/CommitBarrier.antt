-- ===== src/Compilation/CommitBarrier.antt =====
-- crates/ferritex-core/src/compilation/commit_barrier.rs: partitions of a document are compiled
-- apart, and what they commit is put in one order; writes of one thing by two partitions collide.
pub mod Operations
pub mod Sharing
pub mod Collisions
pub mod Ordering
mod Examples
use ferritex.Prelude.{
  ℕ, zero, suc, ◌+◌, ◌/◌, ◌%◌, Bool, true, false, ◌&&◌, ◌||◌, not, List, [], ◌∷◌, ◌++◌, map, Str,
  codes, ◌≡◌, refl, ◌↔◌, length, ltb, ◌==◌, if◌then◌else◌, ap, sym, ◌∙◌, ℤ, Eq, eq_of_=?, =?_refl,
  ◌=?◌, list_eq, list_beq, list_beq_iff, nat_eq,
}
use ferritex.Prelude.HashMap.{HashMap}
use ferritex.Prelude.BTreeSet
use ferritex.Prelude.BTreeSet.{BTreeSet, contains, extend}
use ferritex.Prelude.Order.{
  Ord, list_ord, nat_ord, list_lt, pair_eq, pair_ord, pair_lt_irrefl, pair_lt_trans, pair_lt_connex,
}
use ferritex.Prelude.Sorting.{sort_by}

pub data StageOrder : Type 0 where
  macro_session_delta : StageOrder
  document_reference_bibliography : StageOrder
  layout_page_number_merge : StageOrder
  artifact_emission_cache_metadata : StageOrder

-- The derived order: that of the declaration.
abbrev pub stage_number : StageOrder → ℕ
stage_number macro_session_delta = 0
stage_number document_reference_bibliography = 1
stage_number layout_page_number_merge = 2
stage_number artifact_emission_cache_metadata = 3

pub data RegisterUpdateKind : Type 0 where
  count dimen skip muskip : RegisterUpdateKind

pub record RegisterUpdate : Type 0 where
  pub kind : RegisterUpdateKind
  pub index : ℕ
  pub value : ℤ

pub record CatcodeChange : Type 0 where
  pub character : ℕ
  pub new_catcode : ℕ

pub record MacroSessionPayload : Type 0 where
  pub macro_writes : List Str
  pub register_updates : List RegisterUpdate
  pub catcode_changes : List CatcodeChange

pub record DocumentReferencePayload : Type 0 where
  pub label_updates : List (Str × Str)
  pub citation_updates : List (Str × Str)

pub record TypesetNamedDestination : Type 0 where
  pub name : Str
  pub page_index : ℕ
  pub y : ℤ

-- The barrier only passes pages and outlines on: they are of any types `P` and `O`.
pub record DocumentLayoutFragment (P O : Type 0) : Type 0 where
  pub partition_id : Str
  pub pages : List P
  pub local_label_pages : HashMap Str ℕ
  pub outlines : List O
  pub named_destinations : List TypesetNamedDestination

pub record LayoutMergePayload (P O : Type 0) : Type 0 where
  pub fragments : List (DocumentLayoutFragment P O)

pub record ArtifactCachePayload : Type 0 where
  pub artifact_records : List Str
  pub cache_entries : List Str

pub data StageCommitPayload (P O : Type 0) : Type 0 where
  macro_session : MacroSessionPayload → StageCommitPayload P O
  document_reference : DocumentReferencePayload → StageCommitPayload P O
  layout_merge : LayoutMergePayload P O → StageCommitPayload P O
  artifact_cache : ArtifactCachePayload → StageCommitPayload P O

pub record CommitEntry (P O : Type 0) : Type 0 where
  pub partition_id : Str
  pub payload : StageCommitPayload P O

pub data AuthorityKey : Type 0 where
  macro_register : Str → AuthorityKey
  label : Str → AuthorityKey
  citation : Str → AuthorityKey
  toc_navigation : Str → AuthorityKey
  artifact_slot : Str → AuthorityKey

pub record AuthorityKeyCollision : Type 0 where
  pub key : AuthorityKey
  pub stage : StageOrder
  pub partition_ids : List Str

pub record CommitBarrier (P O : Type 0) : Type 0 where
  pub pass_number : ℕ
  pub pending : List (CommitEntry P O)
  pub collisions : List AuthorityKeyCollision

-- The derived equality and order of a key: by the constructor, then by the text.
abbrev pub key_parts : AuthorityKey → ℕ × Str
key_parts (macro_register s) = (0, s)
key_parts (label s) = (1, s)
key_parts (citation s) = (2, s)
key_parts (toc_navigation s) = (3, s)
key_parts (artifact_slot s) = (4, s)

key_of_parts : ℕ × Str → AuthorityKey
key_of_parts (zero, s) = macro_register s
key_of_parts (suc zero, s) = label s
key_of_parts (suc (suc zero), s) = citation s
key_of_parts (suc (suc (suc zero)), s) = toc_navigation s
key_of_parts (suc (suc (suc (suc n))), s) = artifact_slot s

key_parts_back : (k : AuthorityKey) → key_of_parts (key_parts k) ≡ k
unfolding key_of_parts
key_parts_back (macro_register s) = refl
key_parts_back (label s) = refl
key_parts_back (citation s) = refl
key_parts_back (toc_navigation s) = refl
key_parts_back (artifact_slot s) = refl

pub key_parts_inj : (j k : AuthorityKey) → key_parts j ≡ key_parts k → j ≡ k
key_parts_inj j k h = sym (key_parts_back j) ∙ ap key_of_parts h ∙ key_parts_back k

pub key_beq_iff : (j k : AuthorityKey) → ((key_parts j =? key_parts k) ≡ true) ↔ (j ≡ k)
key_beq_iff j k = (
  λ h. key_parts_inj j k (eq_of_=? h),
  λ h. ap (λ i. key_parts j =? key_parts i) (sym h) ∙ =?_refl (key_parts j),
)

instance abbrev pub key_eq : Eq AuthorityKey
key_eq = record { beq = λ j k. key_parts j =? key_parts k; beq_iff = key_beq_iff }

instance abbrev pub key_ord : Ord AuthorityKey
key_ord = record {
  lt = λ j k. pair_ord.lt (key_parts j) (key_parts k);
  lt_irrefl = λ k. pair_lt_irrefl (key_parts k);
  lt_trans = λ i j k. pair_lt_trans (key_parts i) (key_parts j) (key_parts k);
  lt_connex = λ j k h g. key_parts_inj j k (pair_lt_connex (key_parts j) (key_parts k) h g);
}

module _ {P O : Type 0} where
  abbrev pub stage_order : StageCommitPayload P O → StageOrder
  stage_order (macro_session p) = macro_session_delta
  stage_order (document_reference p) = document_reference_bibliography
  stage_order (layout_merge p) = layout_page_number_merge
  stage_order (artifact_cache p) = artifact_emission_cache_metadata

abbrev register_update_prefix : RegisterUpdateKind → Str
register_update_prefix count = codes "count"
register_update_prefix dimen = codes "dimen"
register_update_prefix skip = codes "skip"
register_update_prefix muskip = codes "muskip"

-- A `u16` in decimal: at most five digits.
display_digits : ℕ → ℕ → Str → Str
display_digits zero n digits = digits
display_digits (suc fuel) n digits =
    let more = display_digits fuel (n / 10) ((48 + n % 10) ∷ digits) in
    if ltb n 10 then (48 + n) ∷ digits else more

abbrev display_u16 : ℕ → Str
unfolding display_digits
display_u16 n = display_digits 5 n []

abbrev macro_key : Str → AuthorityKey
macro_key name = macro_register (codes "macro:" ++ name)

abbrev register_key : RegisterUpdate → AuthorityKey
unfolding display_digits
register_key u = macro_register (register_update_prefix u.kind ++ codes ":" ++ display_u16 u.index)

abbrev catcode_key : CatcodeChange → AuthorityKey
catcode_key change = macro_register (codes "catcode:" ++ change.character ∷ [])

abbrev destination_key : TypesetNamedDestination → AuthorityKey
destination_key d = toc_navigation (codes "destination:" ++ d.name)

module _ {P O : Type 0} where
  abbrev fragment_keys : DocumentLayoutFragment P O → List AuthorityKey
  fragment_keys f =
      toc_navigation (codes "partition:" ++ f.partition_id)
        ∷ map (λ entry. label entry.0) f.local_label_pages
      ++ map destination_key f.named_destinations

  fragments_keys : List (DocumentLayoutFragment P O) → List AuthorityKey
  fragments_keys [] = []
  fragments_keys (f ∷ fs) = fragment_keys f ++ fragments_keys fs

  -- The keys, before they are collected into a set.
  unfoldable pub keys_in_order : StageCommitPayload P O → List AuthorityKey
  unfolding display_digits fragments_keys
  keys_in_order (macro_session p) =
      map macro_key p.macro_writes
      ++ map register_key p.register_updates
      ++ map catcode_key p.catcode_changes
  keys_in_order (document_reference p) =
      map (λ update. label update.0) p.label_updates
      ++ map (λ update. citation update.0) p.citation_updates
  keys_in_order (layout_merge p) = fragments_keys p.fragments
  keys_in_order (artifact_cache p) =
      map artifact_slot p.artifact_records ++ map artifact_slot p.cache_entries

  abbrev pub authority_keys : StageCommitPayload P O → BTreeSet AuthorityKey
  unfolding keys_in_order BTreeSet.extend
  authority_keys p = BTreeSet.extend [] (keys_in_order p)
