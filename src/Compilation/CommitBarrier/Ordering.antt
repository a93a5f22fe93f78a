-- ===== src/Compilation/CommitBarrier/Ordering.antt =====
-- The order of what the barrier gives out.
use ferritex.Prelude.{
  ℕ, ◌≡◌, refl, sym, ap, ◌∙◌, List, [], ◌∷◌, ◌++◌, Str, append_assoc, append-nil, arith, list_eq,
  nat_eq,
}
use ferritex.Prelude.Order.{list_ord, nat_ord, pair_eq, pair_ord}
use ferritex.Prelude.Sorting.{IsSortedBy, of_key, sort_by-IsSortedBy, of_key-sort_by, sorted_unique}
use ferritex.Compilation.CommitBarrier.{CommitEntry, CommitBarrier, AuthorityKey, authority_keys}
use ferritex.Compilation.CommitBarrier.Operations.{
  new_barrier, place, commit, commit_key, commit_keys, commit_all, sort_pending, into_ordered,
}

module _ {P O : Type 0} where
  pub pending-commit_key :
      (b : CommitBarrier P O) (e : CommitEntry P O) (key : AuthorityKey)
      → (commit_key b e key).pending ≡ b.pending
  unfolding commit_key
  pending-commit_key b e key = ground arith

  pub pending-commit_keys :
      (keys : List AuthorityKey) (b : CommitBarrier P O) (e : CommitEntry P O)
      → (commit_keys b e keys).pending ≡ b.pending
  unfolding commit_keys
  pending-commit_keys [] b e = refl
  pending-commit_keys (k ∷ ks) b e =
      pending-commit_keys ks (commit_key b e k) e ∙ pending-commit_key b e k

  pub pending-commit :
      (b : CommitBarrier P O) (e : CommitEntry P O) → (commit b e).pending ≡ b.pending ++ e ∷ []
  unfolding commit
  pending-commit b e = ap (λ es. es ++ e ∷ []) (pending-commit_keys (authority_keys e.payload) b e)

  pub pending-commit_all :
      (es : List (CommitEntry P O)) (b : CommitBarrier P O)
      → (commit_all b es).pending ≡ b.pending ++ es
  unfolding commit_all
  pending-commit_all [] b = sym (append-nil b.pending)
  pending-commit_all (e ∷ es) b =
      pending-commit_all es (commit b e)
      ∙ ap (λ qs. qs ++ es) (pending-commit b e)
      ∙ append_assoc b.pending (e ∷ []) es

  -- What the barrier gives out is in ascending order of stage and partition, and of each partition's
  -- entries for a stage it is those that were committed, in the order in which they were.
  pub into_ordered_lem :
      (n : ℕ) (es : List (CommitEntry P O))
      → IsSortedBy place (into_ordered (commit_all (new_barrier n) es))
        × ((p : ℕ × Str)
            → of_key place p (into_ordered (commit_all (new_barrier n) es)) ≡ of_key place p es)
  unfolding into_ordered sort_pending
  into_ordered_lem n es = (
    sort_by-IsSortedBy place (commit_all (new_barrier n) es).pending,
    λ p.
        of_key-sort_by place p (commit_all (new_barrier n) es).pending
        ∙ ap (of_key place p) (pending-commit_all es (new_barrier n)),
  )

  -- Partitions may be compiled in any interleaving: if two sequences of commits hold the same entries
  -- of each partition for each stage in the same order, `into_ordered` gives the same list of entries.
  pub into_ordered_independent :
      (n m : ℕ) (es fs : List (CommitEntry P O))
      → ((p : ℕ × Str) → of_key place p es ≡ of_key place p fs)
      → into_ordered (commit_all (new_barrier n) es) ≡ into_ordered (commit_all (new_barrier m) fs)
  into_ordered_independent n m es fs h =
      let (s, k) = into_ordered_lem n es in
      let (t, l) = into_ordered_lem m fs in sorted_unique place _ _ s t (λ p. k p ∙ h p ∙ sym (l p))
