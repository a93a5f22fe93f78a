-- ===== src/Compilation/CommitBarrier/Collisions.antt =====
-- When the barrier reports a collision.
use ferritex.Prelude.{
  ℕ, ◌≡◌, ◌≢◌, ◌↔◌, refl, sym, ap, ◌∙◌, true, false, ◌&&◌, List, [], ◌∷◌, ◌++◌, arith, length, ltb,
  ◌=?◌, eq_of_=?, =?_refl, list_eq, list_beq_iff, nat_eq, inl, inr, Bool-cases,
}
use ferritex.Prelude.BTreeSet.{contains}
use ferritex.Prelude.Order.{list_ord, nat_ord}
use ferritex.Compilation.CommitBarrier.{
  CommitEntry, AuthorityKey, AuthorityKeyCollision, authority_keys, key_eq, key_ord, stage_order,
  stage_number,
}
use ferritex.Compilation.CommitBarrier.Operations.{
  new_barrier, commit_all, sort_pending, into_ordered, into_ordered_or_collisions, ordered_result,
}
use ferritex.Compilation.CommitBarrier.Sharing.{
  rival, shared, any_shared, clash, has_collisions-commit_all,
}

module _ {P O : Type 0} where
  -- The two are of one partition, or for different stages, or write no key in common.
  abbrev pub IsApart : CommitEntry P O → CommitEntry P O → Type 0
  IsApart e q =
      q.partition_id ≢ e.partition_id
      → stage_number (stage_order q.payload) ≡ stage_number (stage_order e.payload)
      → (k : AuthorityKey) → contains (authority_keys e.payload) k ≡ true
      → contains (authority_keys q.payload) k ≡ true
      → ⊥

  abbrev pub IsApartFrom : CommitEntry P O → List (CommitEntry P O) → Type 0
  IsApartFrom e [] = Unit
  IsApartFrom e (q ∷ qs) = IsApart e q × IsApartFrom e qs

  -- Any two of the entries are apart.
  abbrev pub AreApart : List (CommitEntry P O) → Type 0
  AreApart [] = Unit
  AreApart (e ∷ es) = IsApartFrom e es × AreApart es

  IsApart-sym : (e q : CommitEntry P O) → IsApart e q → IsApart q e
  IsApart-sym e q h d s k a b = h (λ p. d (sym p)) (sym s) k b a

  Unshared : List AuthorityKey → List (CommitEntry P O) → CommitEntry P O → Type 0
  Unshared ks qs e = (k : AuthorityKey) → contains ks k ≡ true → shared qs e k ≡ false

  Unshared-iff :
      (ks : List AuthorityKey) (qs : List (CommitEntry P O)) (e : CommitEntry P O)
      → (any_shared ks qs e ≡ false) ↔ Unshared ks qs e
  unfolding any_shared Unshared contains
  Unshared-iff [] qs e = (λ h k c. absurd (ground arith), λ h. refl)
  Unshared-iff (k ∷ ks) qs e = (
    λ h j c. elim (Bool-cases (k =? j)) [
      | inl t ↦ ap (λ i. shared qs e i) (sym (eq_of_=? t)) ∙ ground arith
      | inr f ↦ (Unshared-iff ks qs e).0 (ground arith) j (ground arith)
    ],
    λ h. ground (
      arith,
      h k (ground (arith, =?_refl k)),
      (Unshared-iff ks qs e).1 (λ j c. h j (ground arith)),
    ),
  )

  apart_rival :
      (e q : CommitEntry P O) (k : AuthorityKey)
      → IsApart e q
      → contains (authority_keys e.payload) k ≡ true
      → (rival q e && contains (authority_keys q.payload) k) ≡ false
  apart_rival e q k h c = elim (Bool-cases (rival q e && contains (authority_keys q.payload) k)) [
    | inr f ↦ f
    | inl t ↦ absurd (
        h (λ p. ground (arith, t, (list_beq_iff q.partition_id e.partition_id).1 p))
          (ground (arith, t)) k c (ground (arith, t)))
  ]

  rival-IsApart :
      (e q : CommitEntry P O)
      → ((k : AuthorityKey)
          → contains (authority_keys e.payload) k ≡ true
          → (rival q e && contains (authority_keys q.payload) k) ≡ false)
      → IsApart e q
  rival-IsApart e q h d s k a b =
      ground (arith, h k a, b, s, d, list_beq_iff q.partition_id e.partition_id)

  from_Unshared :
      (e : CommitEntry P O) (qs : List (CommitEntry P O))
      → Unshared (authority_keys e.payload) qs e ↔ IsApartFrom e qs
  unfolding Unshared
  from_Unshared e [] = (λ h. tt, λ h k c. refl)
  from_Unshared e (q ∷ qs) = (
    λ h. (
      rival-IsApart e q (λ k c. ground (arith, h k c)),
      (from_Unshared e qs).0 (λ k c. ground (arith, h k c)),
    ),
    λ h k c. ground (arith, apart_rival e q k h.0 c, (from_Unshared e qs).1 h.1 k c),
  )

  Against : List (CommitEntry P O) → List (CommitEntry P O) → Type 0
  Against ps [] = Unit
  Against ps (e ∷ es) = IsApartFrom e ps × Against ps es

  from_append :
      (f e : CommitEntry P O) (ps : List (CommitEntry P O))
      → IsApartFrom f (ps ++ e ∷ []) ↔ (IsApartFrom f ps × IsApart f e)
  from_append f e [] = (λ h. (tt, h.0), λ h. (h.1, tt))
  from_append f e (p ∷ ps) = (
    λ h. let r = (from_append f e ps).0 h.1 in ((h.0, r.0), r.1),
    λ h. (h.0.0, (from_append f e ps).1 (h.0.1, h.1)),
  )

  Against-append :
      (ps es : List (CommitEntry P O)) (e : CommitEntry P O)
      → Against (ps ++ e ∷ []) es ↔ (Against ps es × IsApartFrom e es)
  unfolding Against
  Against-append ps [] e = (λ h. (tt, tt), λ h. tt)
  Against-append ps (f ∷ es) e = (
    λ h.
        let r = (Against-append ps es e).0 h.1 in
        let t = (from_append f e ps).0 h.0 in ((t.0, r.0), (IsApart-sym f e t.1, r.1)),
    λ h. (
      (from_append f e ps).1 (h.0.0, IsApart-sym e f h.1.0),
      (Against-append ps es e).1 (h.0.1, h.1.1),
    ),
  )

  clash_iff :
      (ps es : List (CommitEntry P O)) → (clash ps es ≡ false) ↔ (Against ps es × AreApart es)
  unfolding clash Against
  clash_iff ps [] = (λ h. (tt, tt), λ h. refl)
  clash_iff ps (e ∷ es) = (
    λ h.
        let r = (clash_iff (ps ++ e ∷ []) es).0 (ground arith) in
        let t = (Against-append ps es e).0 r.0 in
        let k = (Unshared-iff (authority_keys e.payload) ps e).0 (ground arith) in
        (((from_Unshared e ps).0 k, t.0), (t.1, r.1)),
    λ h.
        let r = (Against-append ps es e).1 (h.0.1, h.1.0) in
        let k = (Unshared-iff (authority_keys e.payload) ps e).1 ((from_Unshared e ps).1 h.0.0) in
        ground (arith, k, (clash_iff (ps ++ e ∷ []) es).1 (r, h.1.1)),
  )

  Against-nothing : (es : List (CommitEntry P O)) → Against [] es
  unfolding Against
  Against-nothing [] = tt
  Against-nothing (e ∷ es) = (tt, Against-nothing es)

  ordered_result_iff :
      (pending : List (CommitEntry P O)) (cs : List AuthorityKeyCollision)
      → (ordered_result pending cs ≡ inl pending) ↔ (ltb 0 (length cs) ≡ false)
  ordered_result_iff pending [] = (λ h. refl, λ h. refl)
  ordered_result_iff pending (c ∷ cs) = (λ h. absurd cc, λ h. absurd (ground arith))

  -- The barrier gives the ordered entries out as `Ok`, and not with collisions, exactly if no two
  -- entries of different partitions and one stage write a key in common, be what they write to it the
  -- same or not.
  pub ok_iff_apart :
      (n : ℕ) (es : List (CommitEntry P O))
      → (into_ordered_or_collisions (commit_all (new_barrier n) es)
          ≡ inl (into_ordered (commit_all (new_barrier n) es)))
        ↔ AreApart es
  unfolding into_ordered_or_collisions into_ordered sort_pending
  ok_iff_apart n es =
      let b = commit_all (new_barrier n) es in
      let r = ordered_result_iff (sort_pending b).pending b.collisions in
      let c = has_collisions-commit_all es (new_barrier n) in
      (
        λ h. ((clash_iff [] es).0 (sym c ∙ r.0 h)).1,
        λ h. r.1 (c ∙ (clash_iff [] es).1 (Against-nothing es, h)),
      )
