-- ===== src/Compilation/CommitBarrier/Sharing.antt =====
-- What committing an entry records: whether a rival wrote one of its keys.
use ferritex.Prelude.{
  ◌≤◌, ◌≡◌, refl, ap, ◌∙◌, Bool, true, false, ◌&&◌, ◌||◌, not, List, [], ◌∷◌, ◌++◌, arith, Str,
  length, ltb, ◌=?◌, list_eq, list_beq_iff, nat_eq,
}
use ferritex.Prelude.BTreeSet
use ferritex.Prelude.BTreeSet.{BTreeSet, contains, length-insert-le, contains-insert}
use ferritex.Prelude.Order.{list_ord, nat_ord}
use ferritex.Compilation.CommitBarrier.{
  CommitEntry, CommitBarrier, AuthorityKey, AuthorityKeyCollision, StageOrder, authority_keys,
  key_eq, key_ord, stage_order,
}
use ferritex.Compilation.CommitBarrier.Operations.{
  same_stage, sharing, record_in, has_collisions, commit, commit_key, commit_keys, commit_all,
}
use ferritex.Compilation.CommitBarrier.Ordering.{pending-commit, pending-commit_key}

record_in_nonempty :
    (cs : List AuthorityKeyCollision) (key : AuthorityKey) (stage : StageOrder) (ids : List Str)
    → ltb 0 (length (record_in cs key stage ids)) ≡ true
unfolding record_in
record_in_nonempty [] key stage ids = refl
record_in_nonempty (c ∷ cs) key stage ids = ground arith

two_ids : (p q : Str) → (q =? p) ≡ false → length (BTreeSet.insert (p ∷ []) q) ≡ 2
unfolding BTreeSet.insert
two_ids p q h = ground (arith, list_beq_iff p q, list_beq_iff q p)

module _ {P O : Type 0} where
  -- `q` is of another partition than `e` and for its stage.
  abbrev pub rival : CommitEntry P O → CommitEntry P O → Bool
  rival q e = not ((q.partition_id =? e.partition_id) || not (same_stage q e))

  -- Some rival of `e` writes `key`.
  abbrev pub shared : List (CommitEntry P O) → CommitEntry P O → AuthorityKey → Bool
  shared [] e key = false
  shared (q ∷ qs) e key = (rival q e && contains (authority_keys q.payload) key) || shared qs e key

  length-sharing-le :
      (qs : List (CommitEntry P O)) (e : CommitEntry P O) (key : AuthorityKey) (ids : BTreeSet Str)
      → length ids ≤ length (sharing qs e key ids)
  unfolding sharing
  length-sharing-le [] e key ids = omega arith
  length-sharing-le (q ∷ qs) e key ids = ground (
    arith,
    length-insert-le ids q.partition_id,
    length-sharing-le qs e key ids,
    length-sharing-le qs e key (BTreeSet.insert ids q.partition_id),
  )

  -- The set grows over the entry's own partition exactly if a rival writes the key.
  ltb-sharing :
      (qs : List (CommitEntry P O)) (e : CommitEntry P O) (key : AuthorityKey)
      → ltb 1 (length (sharing qs e key (e.partition_id ∷ []))) ≡ shared qs e key
  unfolding sharing
  ltb-sharing [] e key = refl
  ltb-sharing (q ∷ qs) e key = ground (
    arith,
    ltb-sharing qs e key,
    two_ids e.partition_id q.partition_id,
    length-sharing-le qs e key (BTreeSet.insert (e.partition_id ∷ []) q.partition_id),
  )

  unfoldable pub any_shared : List AuthorityKey → List (CommitEntry P O) → CommitEntry P O → Bool
  any_shared [] qs e = false
  any_shared (k ∷ ks) qs e = shared qs e k || any_shared ks qs e

  has_collisions-commit_key :
      (b : CommitBarrier P O) (e : CommitEntry P O) (key : AuthorityKey)
      → has_collisions (commit_key b e key) ≡ (has_collisions b || shared b.pending e key)
  unfolding commit_key
  has_collisions-commit_key b e key = ground (
    arith,
    ltb-sharing b.pending e key,
    record_in_nonempty b.collisions key (stage_order e.payload)
        (sharing b.pending e key (e.partition_id ∷ [])),
  )

  has_collisions-commit_keys :
      (keys : List AuthorityKey) (b : CommitBarrier P O) (e : CommitEntry P O)
      → has_collisions (commit_keys b e keys) ≡ (has_collisions b || any_shared keys b.pending e)
  unfolding commit_keys any_shared
  has_collisions-commit_keys [] b e = ground arith
  has_collisions-commit_keys (k ∷ ks) b e = ground (
    arith,
    has_collisions-commit_keys ks (commit_key b e k) e,
    has_collisions-commit_key b e k,
    pending-commit_key b e k,
  )

  has_collisions-commit :
      (b : CommitBarrier P O) (e : CommitEntry P O)
      → has_collisions (commit b e)
        ≡ (has_collisions b || any_shared (authority_keys e.payload) b.pending e)
  unfolding commit
  has_collisions-commit b e = has_collisions-commit_keys (authority_keys e.payload) b e

  -- Some entry writes a key that a rival before it wrote.
  unfoldable pub clash : List (CommitEntry P O) → List (CommitEntry P O) → Bool
  unfolding any_shared
  clash ps [] = false
  clash ps (e ∷ es) = any_shared (authority_keys e.payload) ps e || clash (ps ++ e ∷ []) es

  pub has_collisions-commit_all :
      (es : List (CommitEntry P O)) (b : CommitBarrier P O)
      → has_collisions (commit_all b es) ≡ (has_collisions b || clash b.pending es)
  unfolding commit_all clash
  has_collisions-commit_all [] b = ground arith
  has_collisions-commit_all (e ∷ es) b =
      has_collisions-commit_all es (commit b e)
      ∙ ap (λ qs. has_collisions (commit b e) || clash qs es) (pending-commit b e)
      ∙ ground (arith, has_collisions-commit b e)
