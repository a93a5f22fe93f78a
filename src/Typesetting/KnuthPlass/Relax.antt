-- ===== src/Typesetting/KnuthPlass/Relax.antt =====
-- A candidate's state is the best offer of the entries before it.
use ferritex.Prelude.{
  ℕ, suc, ◌+◌, ◌≤◌, ◌≡◌, ◌⊎◌, inl, inr, refl, sym, ap, ap₂, ◌∙◌, subst, Bool, true, false, Option,
  none, some, [], ◌∷◌, length, get_elem?, drop, ℤ, ltb_ℤ, arith, if◌then◌else◌,
}
use ferritex.Prelude.Integer.{◌≤ℤ◌, ltb-le}
use ferritex.Prelude.Elements.{some_inj, no_some, drop-get, drop-suc, lt_suc}
use ferritex.Typesetting.KnuthPlass.{BreakCandidate, PathState, ◌>>=◌}
use ferritex.Typesetting.KnuthPlass.Search.{
  Edge, Table, first_state, replaced, through, offered, relax, relax_all, best_state,
}
use ferritex.Typesetting.KnuthPlass.Path.{
  IsOffer, at_start, behind, IsBest, no_offer, best_offer, HasCosts,
}

same_cost : (new s : PathState) → s ≡ new → new.cost ≤ℤ s.cost
same_cost new s e = rw e (omega arith)

less_le : (a b c : ℤ) → ltb_ℤ a b ≡ true → b ≤ℤ c → a ≤ℤ c
less_le a b c h k = ground arith

abbrev only : ℤ → PathState
only k = record { cost = k; predecessor = none }

module _ (edge : Edge) (start : ℕ) (table : Table) (c : BreakCandidate) where
  more_offers :
      {n m : ℕ} {s : PathState}
      → n ≤ m
      → IsOffer edge start table c n s
      → IsOffer edge start table c m s
  more_offers h (at_start q) = at_start q
  more_offers h (behind lt g q) = behind (omega (arith, lt, h)) g q

  -- An offer of one predecessor more is an offer of those before or the one through it.
  new-IsOffer :
      (j : ℕ) (p : BreakCandidate) (state : Option PathState) (cost : Option ℤ) (s : PathState)
      → get_elem? table j ≡ some (p, state)
      → edge p.next_start c ≡ some cost
      → IsOffer edge start table c (suc j) s
      → IsOffer edge start table c j s
        ⊎ ((previous : PathState) × (l : ℤ) × (state ≡ some previous)
            × (cost ≡ some l)
            × (s ≡ through j previous l))
  new-IsOffer j p state cost s g e (at_start q) = inl (at_start q)
  new-IsOffer j p state cost s g e (behind {j = i} {p = p'} {s = s'} {l = l} lt h q) =
      elim (lt_suc i j lt) [
        | inl below ↦ inl (behind below h q)
        | inr same ↦
            let g' = sym g ∙ sym (ap (get_elem? table) same) ∙ h in
            inr (s', l, (cc), (cc), ap (λ k. through k s' l) same)
      ]

  kept :
      {j : ℕ} {current : Option PathState}
      → ((s : PathState) → IsOffer edge start table c (suc j) s → IsOffer edge start table c j s)
      → IsBest edge start table c j current
      → IsBest edge start table c (suc j) current
  kept back (no_offer h) = no_offer (λ s o. h s (back s o))
  kept back (best_offer o h) = best_offer (more_offers (omega arith) o) (λ s o'. h s (back s o'))

  replaced-IsBest :
      {j : ℕ} {new : PathState} {current : Option PathState}
      → ((s : PathState)
          → IsOffer edge start table c (suc j) s
          → IsOffer edge start table c j s ⊎ (s ≡ new))
      → IsOffer edge start table c (suc j) new
      → IsBest edge start table c j current
      → IsBest edge start table c (suc j) (replaced new current)
  unfolding replaced
  replaced-IsBest {new = new} back o (no_offer h) =
      best_offer o
        (λ s o'. elim (back s o') [ inl old ↦ absurd (h s old) | inr e ↦ same_cost new s e ])
  replaced-IsBest {j = j} {new = new} back o (best_offer {s = s} old h) =
      chosen (ltb_ℤ new.cost s.cost) refl
    where
      chosen :
          (b : Bool)
          → ltb_ℤ new.cost s.cost ≡ b
          → IsBest edge start table c (suc j) (if b then some new else some s)
      chosen true less = best_offer o (λ s' o'. elim (back s' o') [
        | inl older ↦ less_le new.cost s.cost s'.cost less (h s' older)
        | inr e ↦ same_cost new s' e
      ])
      chosen false not_less = best_offer (more_offers (omega arith) old) (λ s' o'.
          elim (back s' o') [
            | inl older ↦ h s' older
            | inr e ↦ rw e (ltb-le new.cost s.cost not_less)
          ])

  relax-IsBest :
      (j : ℕ) (p : BreakCandidate) (state current : Option PathState)
      → HasCosts edge c
      → get_elem? table j ≡ some (p, state)
      → IsBest edge start table c j current
      → (next : Option PathState) × (relax edge c j p state current ≡ some next)
        × IsBest edge start table c (suc j) next
  unfolding relax offered
  relax-IsBest j p none current h g b =
      let (cost, e) = h p.next_start in
      (
        current,
        refl,
        kept
            (λ s o. elim (new-IsOffer j p none cost s g e o) [
              | inl old ↦ old
              | inr (previous, l, bad, q, r) ↦ absurd (cc)
            ])
            b,
      )
  relax-IsBest j p (some previous) current h g b =
      let (cost, e) = h p.next_start in
      (
        offered j previous cost current,
        ap (λ k. k >>= (λ cost'. some (offered j previous cost' current))) e,
        offered-IsBest cost e,
      )
    where
      offered-IsBest :
          (cost : Option ℤ)
          → edge p.next_start c ≡ some cost
          → IsBest edge start table c (suc j) (offered j previous cost current)
      offered-IsBest none e =
          kept
            (λ s o. elim (new-IsOffer j p (some previous) none s g e o) [
              | inl old ↦ old
              | inr (_, l, q, bad, r) ↦ absurd (cc)
            ])
            b
      offered-IsBest (some k) e =
          replaced-IsBest
            (λ s o. elim (new-IsOffer j p (some previous) (some k) s g e o) [
              | inl old ↦ inl old
              | inr (s', l, q, r, t) ↦
                  let f = some_inj _ _ q in
                  let f' = some_inj _ _ r in inr (t ∙ sym (ap₂ (through j) f f'))
            ])
            (behind (omega arith) g e) b

  relax_all-IsBest :
      (j : ℕ) (entries : Table) (current : Option PathState)
      → HasCosts edge c
      → drop j table ≡ entries
      → IsBest edge start table c j current
      → (state : Option PathState) × (relax_all edge c j entries current ≡ some state)
        × IsBest edge start table c (j + length entries) state
  unfolding relax_all
  relax_all-IsBest j [] current h d b =
      (current, refl, subst (λ n. IsBest edge start table c n current) (omega arith) b)
  relax_all-IsBest j ((p, entry) ∷ entries) current h d b =
      let (next, e, b') =
        relax-IsBest j p entry current h (drop-get j table (p, entry) entries d) b in
      let (state, f, b'') =
        relax_all-IsBest (suc j) entries next h (drop-suc j table (p, entry) entries d) b' in
      (
        state,
        ap (λ k. k >>= (λ next'. relax_all edge c (suc j) entries next')) e ∙ f,
        subst (λ n. IsBest edge start table c n state) (omega arith) b'',
      )

  first_offer :
      (s : PathState)
      → IsOffer edge start table c 0 s
      → (k : ℤ) × (edge start c ≡ some (some k)) × (s ≡ only k)
  first_offer s (at_start {k = k} q) = (k, q, refl)
  first_offer s (behind lt g q) = absurd (omega arith)

  pub best_state-IsBest :
      HasCosts edge c
      → (state : Option PathState) × (best_state edge start table c ≡ some state)
        × IsBest edge start table c (length table) state
  unfolding best_state
  best_state-IsBest h =
      let (cost, e) = h start in
      let (state, f, b) =
        relax_all-IsBest 0 table (first_state cost) h refl (first-IsBest cost e) in
      (
        state,
        ap (λ k. k >>= (λ cost'. relax_all edge c 0 table (first_state cost'))) e ∙ f,
        subst (λ n. IsBest edge start table c n state) (omega arith) b,
      )
    where
      first-IsBest :
          (cost : Option ℤ)
          → edge start c ≡ some cost
          → IsBest edge start table c 0 (first_state cost)
      first-IsBest none e =
          no_offer (λ s o. let (k, q, r) = first_offer s o in absurd (no_some k (sym e ∙ q)))
      first-IsBest (some k) e = best_offer (at_start e) (λ s o.
          let (l, q, r) = first_offer s o in
          same_cost _ s (r ∙ ap only (some_inj _ _ (some_inj _ _ (sym q ∙ e)))))
