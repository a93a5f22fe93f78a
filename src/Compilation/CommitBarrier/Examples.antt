-- ===== src/Compilation/CommitBarrier/Examples.antt =====
-- Tests of the commit barrier, and its theorems at concrete inputs.
use ferritex.Prelude.{
  ℕ, ◌≡◌, ◌↔◌, refl, List, [], ◌∷◌, map, Str, codes, inl, list_eq, list_beq, nat_eq, arith, ==_iff,
}
use ferritex.Prelude.BTreeSet.{insert, contains, extend}
use ferritex.Prelude.Order.{list_ord, nat_ord, pair_eq, pair_ord, pair_beq, list_lt, pair_lt}
use ferritex.Prelude.Sorting.{of_key, sort_by, insert_by}
use ferritex.Compilation.CommitBarrier.{
  CommitEntry, macro_session, document_reference, label, document_reference_bibliography,
  AuthorityKey, artifact_slot, artifact_cache, keys_in_order, key_eq, key_ord,
}
use ferritex.Compilation.CommitBarrier.Operations.{
  new_barrier, place, sharing, record_in, commit, commit_key, commit_keys, commit_all, sort_pending,
  into_ordered, into_ordered_or_collisions,
}
use ferritex.Compilation.CommitBarrier.Ordering.{into_ordered_independent}
use ferritex.Compilation.CommitBarrier.Collisions.{AreApart, ok_iff_apart}

abbrev labelled : Str → Str → CommitEntry ℕ ℕ
labelled partition_id name = record {
  partition_id = partition_id;
  payload =
      document_reference (record { label_updates = (name, codes "1") ∷ []; citation_updates = [] });
}

abbrev macros : Str → CommitEntry ℕ ℕ
macros partition_id = record {
  partition_id = partition_id;
  payload =
      macro_session
        (record { macro_writes = codes "foo" ∷ []; register_updates = []; catcode_changes = [] });
}

abbrev two : List (CommitEntry ℕ ℕ)
two = labelled (codes "b") (codes "fig") ∷ macros (codes "a") ∷ []

abbrev two_swapped : List (CommitEntry ℕ ℕ)
two_swapped = macros (codes "a") ∷ labelled (codes "b") (codes "fig") ∷ []

two_ordered : into_ordered (commit_all (new_barrier 1) two) ≡ two_swapped
unfolding into_ordered sort_pending commit_all commit commit_keys commit_key sharing record_in
    keys_in_order insert extend contains list_beq list_lt pair_lt pair_beq sort_by insert_by
two_ordered = refl

collision :
    (commit_all
      (new_barrier 1)
      (labelled (codes "b") (codes "fig") ∷ labelled (codes "a") (codes "fig") ∷ [])).collisions
    ≡ record {
      key = label (codes "fig");
      stage = document_reference_bibliography;
      partition_ids = codes "a" ∷ codes "b" ∷ [];
    }
      ∷ []
unfolding commit_all commit commit_keys commit_key sharing record_in keys_in_order insert extend
    contains list_beq list_lt pair_lt pair_beq sort_by insert_by
collision = refl

same_entries : (p : ℕ × Str) → of_key place p two ≡ of_key place p two_swapped
unfolding of_key pair_beq
same_entries (n, s) = ground (arith, ==_iff 1 n, ==_iff 0 n)

into_ordered_independent_example :
    into_ordered (commit_all (new_barrier 1) two)
    ≡ into_ordered (commit_all (new_barrier 2) two_swapped)
into_ordered_independent_example = into_ordered_independent 1 2 two two_swapped same_entries

ok_iff_apart_example :
    (into_ordered_or_collisions (commit_all (new_barrier 1) two)
      ≡ inl (into_ordered (commit_all (new_barrier 1) two)))
    ↔ AreApart two
ok_iff_apart_example = ok_iff_apart 1 two

-- The keys of the collisions stand in the order in which they were found.
abbrev keys_found : List (CommitEntry ℕ ℕ) → List AuthorityKey
unfolding commit_all
keys_found es = map (λ c. c.key) (commit_all (new_barrier 1) es).collisions

keys_in_one_order :
    keys_found (
      labelled (codes "a") (codes "fig")
      ∷ labelled (codes "c") (codes "tab")
      ∷ labelled (codes "b") (codes "fig")
      ∷ labelled (codes "d") (codes "tab")
      ∷ [])
    ≡ label (codes "fig") ∷ label (codes "tab") ∷ []
unfolding commit_all commit commit_keys commit_key sharing record_in keys_in_order insert extend
    contains list_beq list_lt pair_lt pair_beq sort_by insert_by
keys_in_one_order = refl

keys_in_another_order :
    keys_found (
      labelled (codes "a") (codes "fig")
      ∷ labelled (codes "c") (codes "tab")
      ∷ labelled (codes "d") (codes "tab")
      ∷ labelled (codes "b") (codes "fig")
      ∷ [])
    ≡ label (codes "tab") ∷ label (codes "fig") ∷ []
unfolding commit_all commit commit_keys commit_key sharing record_in keys_in_order insert extend
    contains list_beq list_lt pair_lt pair_beq sort_by insert_by
keys_in_another_order = refl

abbrev artifact : Str → CommitEntry ℕ ℕ
artifact partition_id = record {
  partition_id = partition_id;
  payload = artifact_cache (record { artifact_records = codes "pdf" ∷ []; cache_entries = [] });
}

-- One record of an artifact that two partitions write is a collision.
same_artifact_collides :
    keys_found (artifact (codes "a") ∷ artifact (codes "b") ∷ []) ≡ artifact_slot (codes "pdf") ∷ []
unfolding commit_all commit commit_keys commit_key sharing record_in keys_in_order insert extend
    contains list_beq list_lt pair_lt pair_beq sort_by insert_by
same_artifact_collides = refl
