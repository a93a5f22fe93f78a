-- ===== src/Compilation/CommitBarrier/Operations.antt =====
-- The operations of the barrier.
use ferritex.Prelude.{
  ℕ, Bool, ◌&&◌, ◌||◌, not, List, [], ◌∷◌, ◌++◌, Str, length, ltb, ◌==◌, if◌then◌else◌, ◌=?◌,
  list_eq, nat_eq, ◌⊎◌, inl, inr,
}
use ferritex.Prelude.BTreeSet
use ferritex.Prelude.BTreeSet.{BTreeSet, contains}
use ferritex.Prelude.Order.{list_ord, nat_ord, pair_eq, pair_ord}
use ferritex.Prelude.Sorting.{sort_by}
use ferritex.Compilation.CommitBarrier.{
  StageOrder, stage_number, CommitEntry, AuthorityKey, AuthorityKeyCollision, CommitBarrier,
  DocumentLayoutFragment, layout_merge, stage_order, authority_keys, key_eq, key_ord,
}

-- The loop over `collisions` in `record_collision`: the first that matches takes the partitions up.
unfoldable pub record_in :
    List AuthorityKeyCollision → AuthorityKey → StageOrder → List Str → List AuthorityKeyCollision
record_in [] key stage ids = record { key = key; stage = stage; partition_ids = ids } ∷ []
record_in (c ∷ cs) key stage ids =
    let rest = record_in cs key stage ids in
    if (c.key =? key) && (stage_number c.stage == stage_number stage)
    then record c { partition_ids = BTreeSet.extend (BTreeSet.extend [] c.partition_ids) ids } ∷ cs
    else c ∷ rest

module _ {P O : Type 0} where
  abbrev pub new_barrier : ℕ → CommitBarrier P O
  new_barrier pass_number = record { pass_number = pass_number; pending = []; collisions = [] }

  abbrev pub same_stage : CommitEntry P O → CommitEntry P O → Bool
  same_stage x y = stage_number (stage_order x.payload) == stage_number (stage_order y.payload)

  -- The inner loop of `commit`: the partitions that write `key` too, and that of `entry`.
  unfoldable pub sharing :
      List (CommitEntry P O) → CommitEntry P O → AuthorityKey → BTreeSet Str → BTreeSet Str
  sharing [] entry key ids = ids
  sharing (p ∷ ps) entry key ids = sharing ps entry key (
      if (p.partition_id =? entry.partition_id) || not (same_stage p entry)
      then ids
      else if contains (authority_keys p.payload) key
      then BTreeSet.insert ids p.partition_id
      else ids)

  abbrev pub record_collision :
      CommitBarrier P O → AuthorityKey → StageOrder → List Str → CommitBarrier P O
  record_collision b key stage ids = record b { collisions = record_in b.collisions key stage ids }

  -- The body of the outer loop of `commit`.
  unfoldable pub commit_key : CommitBarrier P O → CommitEntry P O → AuthorityKey → CommitBarrier P O
  unfolding sharing record_in
  commit_key b entry key =
      let ids = sharing b.pending entry key (entry.partition_id ∷ []) in
      if ltb 1 (length ids) then record_collision b key (stage_order entry.payload) ids else b

  unfoldable pub commit_keys :
      CommitBarrier P O → CommitEntry P O → List AuthorityKey → CommitBarrier P O
  commit_keys b entry [] = b
  commit_keys b entry (key ∷ keys) = commit_keys (commit_key b entry key) entry keys

  abbrev push_pending : CommitBarrier P O → CommitEntry P O → CommitBarrier P O
  push_pending b entry = record b { pending = b.pending ++ entry ∷ [] }

  unfoldable pub commit : CommitBarrier P O → CommitEntry P O → CommitBarrier P O
  commit b entry = push_pending (commit_keys b entry (authority_keys entry.payload)) entry

  unfoldable pub commit_layout_fragment :
      CommitBarrier P O → Str → DocumentLayoutFragment P O → CommitBarrier P O
  commit_layout_fragment b partition_id fragment = commit b (record {
    partition_id = partition_id;
    payload =
        layout_merge (record { fragments = record fragment { partition_id = partition_id } ∷ [] });
  })

  abbrev pub has_collisions : CommitBarrier P O → Bool
  has_collisions b = ltb 0 (length b.collisions)

  -- The stage and the partition of an entry, by which entries are ordered.
  abbrev pub place : CommitEntry P O → ℕ × Str
  place entry = (stage_number (stage_order entry.payload), entry.partition_id)

  unfoldable pub sort_pending : CommitBarrier P O → CommitBarrier P O
  sort_pending b = record b { pending = sort_by place b.pending }

  unfoldable pub into_ordered : CommitBarrier P O → List (CommitEntry P O)
  into_ordered b = (sort_pending b).pending

  -- `Ok` is `inl`.
  abbrev pub ordered_result :
      List (CommitEntry P O)
      → List AuthorityKeyCollision
      → List (CommitEntry P O) ⊎ (List (CommitEntry P O) × List AuthorityKeyCollision)
  ordered_result pending [] = inl pending
  ordered_result pending (c ∷ cs) = inr (pending, c ∷ cs)

  unfoldable pub into_ordered_or_collisions :
      CommitBarrier P O
      → List (CommitEntry P O) ⊎ (List (CommitEntry P O) × List AuthorityKeyCollision)
  into_ordered_or_collisions b = ordered_result (sort_pending b).pending b.collisions

  -- The entries committed one after the other.
  unfoldable pub commit_all : CommitBarrier P O → List (CommitEntry P O) → CommitBarrier P O
  commit_all b [] = b
  commit_all b (e ∷ es) = commit_all (commit b e) es
