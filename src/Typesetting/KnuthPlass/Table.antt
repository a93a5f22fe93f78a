-- ===== src/Typesetting/KnuthPlass/Table.antt =====
-- The table that the search fills: each entry is the best offer of those before it.
use ferritex.Prelude.{
  ℕ, suc, ◌≤◌, ◌≡◌, inl, inr, refl, sym, ap, ◌∙◌, subst, Option, some, List, [], ◌∷◌, ◌++◌,
  append-nil, map, length, get_elem?, arith,
}
use ferritex.Prelude.Elements.{get-append, get_snoc}
use ferritex.Typesetting.KnuthPlass.{BreakCandidate, PathState, ◌>>=◌}
use ferritex.Typesetting.KnuthPlass.Search.{Edge, Table, best_states}
use ferritex.Typesetting.KnuthPlass.Path.{
  IsOffer, at_start, behind, IsBest, no_offer, best_offer, IsFilled, HasCosts,
}
use ferritex.Typesetting.KnuthPlass.Relax.{best_state-IsBest}

module _ (edge : Edge) (start : ℕ) (table rest : Table) (c : BreakCandidate) where
  longer :
      {n : ℕ} {s : PathState}
      → n ≤ length table
      → IsOffer edge start table c n s
      → IsOffer edge start (table ++ rest) c n s
  longer h (at_start q) = at_start q
  longer h (behind {j = j} lt g q) =
      behind lt (get-append table rest j (omega (arith, lt, h)) ∙ g) q

  shorter :
      {n : ℕ} {s : PathState}
      → n ≤ length table
      → IsOffer edge start (table ++ rest) c n s
      → IsOffer edge start table c n s
  shorter h (at_start q) = at_start q
  shorter h (behind {j = j} lt g q) =
      behind lt (sym (get-append table rest j (omega (arith, lt, h))) ∙ g) q

  append-IsBest :
      {n : ℕ} {state : Option PathState}
      → n ≤ length table
      → IsBest edge start table c n state
      → IsBest edge start (table ++ rest) c n state
  append-IsBest h (no_offer f) = no_offer (λ s o. f s (shorter h o))
  append-IsBest h (best_offer o f) = best_offer (longer h o) (λ s o'. f s (shorter h o'))

abbrev pub candidates_of : Table → List BreakCandidate
candidates_of table = map (λ entry. entry.0) table

snoc_candidates :
    (table : Table) (entry : BreakCandidate × Option PathState) (cs : List BreakCandidate)
    → candidates_of (table ++ entry ∷ []) ++ cs ≡ candidates_of table ++ entry.0 ∷ cs
snoc_candidates [] entry cs = refl
snoc_candidates (e ∷ table) entry cs = ap (λ rest. e.0 ∷ rest) (snoc_candidates table entry cs)

module _ (edge : Edge) (start : ℕ) where
  snoc-IsFilled :
      (table : Table) (c : BreakCandidate) (state : Option PathState)
      → IsFilled edge start table
      → IsBest edge start table c (length table) state
      → IsFilled edge start (table ++ (c, state) ∷ [])
  snoc-IsFilled table c state f b i c' state' g =
      elim (get_snoc table (c, state) (c', state') i g) [
        | inl (lt, old) ↦
            append-IsBest edge start table _ c' (omega (arith, lt)) (f i c' state' old)
        | inr (at, e) ↦
            let last = append-IsBest edge start table ((c, state) ∷ []) c (omega arith) b in
            let here =
              subst (λ n. IsBest edge start (table ++ (c, state) ∷ []) c n state) (sym at) last in
            subst
              (λ (q : BreakCandidate × Option PathState).
                IsBest edge start (table ++ (c, state) ∷ []) q.0 i q.1)
              (sym e) here
      ]

  -- The search fills the table for all candidates, each entry with the best offer.
  pub best_states-IsFilled :
      (table : Table) (cs : List BreakCandidate)
      → ((i : ℕ) (c : BreakCandidate) → get_elem? cs i ≡ some c → HasCosts edge c)
      → IsFilled edge start table
      → (result : Table) × (best_states edge start table cs ≡ some result)
        × (candidates_of result ≡ candidates_of table ++ cs)
        × IsFilled edge start result
  unfolding best_states
  best_states-IsFilled table [] h f = (table, refl, sym (append-nil _), f)
  best_states-IsFilled table (c ∷ cs) h f =
      let (state, e, b) = best_state-IsBest edge start table c (h 0 c refl) in
      let entry = (c, state) ∷ [] in
      let (result, e', m, f') =
        best_states-IsFilled (table ++ entry) cs (λ i. h (suc i))
          (snoc-IsFilled table c state f b) in
      (
        result,
        ap (λ k. k >>= (λ s. best_states edge start (table ++ (c, s) ∷ []) cs)) e ∙ e',
        m ∙ snoc_candidates table (c, state) cs,
        f',
      )
