-- ===== src/Typesetting/KnuthPlass/Optimal.antt =====
-- The path that the search finds is the cheapest.
use ferritex.Prelude.{
  ℕ, zero, suc, ◌<◌, ◌≡◌, ◌⊎◌, inl, inr, sym, ap, ◌∙◌, subst, Option, none, some, List, [], ◌∷◌,
  ◌++◌, append_assoc, append-nil, length, get_elem?, ℤ, ◌+ℤ◌, arith,
}
use ferritex.Prelude.Integer.{◌≤ℤ◌, le-add, le-trans}
use ferritex.Prelude.Elements.{some_inj, no_some, last_elem}
use ferritex.Typesetting.KnuthPlass.{BreakCandidate, PathState, ◌>>=◌, Panics}
use ferritex.Typesetting.KnuthPlass.Search.{
  Edge, Table, pushed, breaks_to, followed, link_of, link_to, path_found, path_in, best_path,
}
use ferritex.Typesetting.KnuthPlass.Path.{
  IsPath, one_line, one_more, IsOffer, at_start, behind, IsBest, no_offer, best_offer, IsFilled,
  HasCosts, HasRoom,
}
use ferritex.Typesetting.KnuthPlass.Table.{candidates_of, best_states-IsFilled}

get-candidates :
    (table : Table) (i : ℕ) (c : BreakCandidate) (state : Option PathState)
    → get_elem? table i ≡ some (c, state)
    → get_elem? (candidates_of table) i ≡ some c
get-candidates [] i c state g = absurd (cc)
get-candidates (e ∷ table) zero c state g =
    ap (λ (q : BreakCandidate × Option PathState). some q.0) (some_inj _ _ g)
get-candidates (e ∷ table) (suc i) c state g = get-candidates table i c state g

entry_of :
    (table : Table) (i : ℕ) (c : BreakCandidate)
    → get_elem? (candidates_of table) i ≡ some c
    → (state : Option PathState) × (get_elem? table i ≡ some (c, state))
entry_of [] i c g = absurd (cc)
entry_of (e ∷ table) zero c g = (e.1, ap (λ q. some (q, e.1)) (some_inj _ _ g))
entry_of (e ∷ table) (suc i) c g = entry_of table i c g

module _ (edge : Edge) (start : ℕ) (table : Table) (f : IsFilled edge start table) where
  abbrev IsRoomy : Type 0
  IsRoomy = HasRoom edge start (candidates_of table)

  abbrev Reaches : ℕ → ℕ → PathState → Type 0
  Reaches n i s =
      (breaks : List ℕ) × IsPath edge start (candidates_of table) i breaks s.cost
      × ((after : List ℕ) → breaks_to n table i after ≡ some (breaks ++ after))

  abbrev followed_from : ℕ → List ℕ → Panics (BreakCandidate × Option PathState) → Panics (List ℕ)
  followed_from n after entry =
      entry >>= (λ x. link_of table x.1 >>= (λ link. followed (breaks_to n table) after link))

  abbrev linked : ℕ → ℕ → List ℕ → Panics (BreakCandidate × Option PathState) → Panics (List ℕ)
  linked n j after entry =
      entry
      >>= (λ x. some (some (j, x.0.break_index)))
      >>= (λ link. followed (breaks_to n table) after link)

  pushed-append :
      (breaks : List ℕ) (o : Option ℕ) (after : List ℕ)
      → breaks ++ pushed o after ≡ (breaks ++ pushed o []) ++ after
  pushed-append breaks none after = ap (λ b. b ++ after) (sym (append-nil breaks))
  pushed-append breaks (some b) after = sym (append_assoc breaks (b ∷ []) after)

  offer-Reaches :
      {n i : ℕ} {c : BreakCandidate} {s : PathState}
      → IsRoomy
      → ((j : ℕ) (p : BreakCandidate) (s : PathState)
          → j < n
          → get_elem? table j ≡ some (p, some s)
          → Reaches n j s)
      → i < suc n
      → get_elem? table i ≡ some (c, some s)
      → IsOffer edge start table c i s
      → Reaches (suc n) i s
  unfolding breaks_to link_to
  offer-Reaches {n = n} {i = i} {c = c} {s = s} r ih lt g (at_start q) =
      ([], one_line (get-candidates table i c (some s) g) q, λ after. ap (followed_from n after) g)
  offer-Reaches {n = n} {i = i} {c = c} r ih lt g
        (behind {j = j} {p = p} {s = s} {l = l} below g' q) =
      let (breaks, path, e) = ih j p s (omega (arith, lt, below)) g' in
      let path' =
        one_more below path (get-candidates table j p (some s) g') (get-candidates table i c _ g)
          q in
      (
        breaks ++ pushed p.break_index [],
        subst (IsPath edge start (candidates_of table) i (breaks ++ pushed p.break_index []))
            (sym (r i _ _ path')) path',
        λ after.
            ap (followed_from n after) g
            ∙ ap (linked n j after) g'
            ∙ e (pushed p.break_index after)
            ∙ ap some (pushed-append breaks p.break_index after),
      )

  IsOffer-of :
      {i : ℕ} {c : BreakCandidate} {s : PathState}
      → IsBest edge start table c i (some s)
      → IsOffer edge start table c i s
        × ((s' : PathState) → IsOffer edge start table c i s' → s.cost ≤ℤ s'.cost)
  IsOffer-of (best_offer o h) = (o, h)

  -- The links from a state lead back along a path of its cost.
  breaks_to-IsPath :
      (n i : ℕ) (c : BreakCandidate) (s : PathState)
      → IsRoomy
      → i < n
      → get_elem? table i ≡ some (c, some s)
      → Reaches n i s
  breaks_to-IsPath zero i c s r lt g = absurd (omega arith)
  breaks_to-IsPath (suc n) i c s r lt g =
      offer-Reaches r (λ j p s'. breaks_to-IsPath n j p s' r) lt g (IsOffer-of (f i c (some s) g)).0

  -- A candidate with an offer has a state, which costs no more.
  state_under :
      (i : ℕ) (c : BreakCandidate) (s' : PathState)
      → get_elem? (candidates_of table) i ≡ some c
      → IsOffer edge start table c i s'
      → (s : PathState) × (get_elem? table i ≡ some (c, some s)) × (s.cost ≤ℤ s'.cost)
  state_under i c s' g o = let (state, e) = entry_of table i c g in under state e (f i c state e)
    where
      under :
          (state : Option PathState)
          → get_elem? table i ≡ some (c, state)
          → IsBest edge start table c i state
          → (s : PathState) × (get_elem? table i ≡ some (c, some s)) × (s.cost ≤ℤ s'.cost)
      under none e (no_offer h) = absurd (h s' o)
      under (some s) e b = (s, e, (IsOffer-of b).1 s' o)

  cheapest_state :
      (i : ℕ) (breaks : List ℕ) (k : ℤ)
      → IsRoomy
      → IsPath edge start (candidates_of table) i breaks k
      → (c : BreakCandidate) × (s : PathState) × (get_elem? table i ≡ some (c, some s))
        × (s.cost ≤ℤ k)
  cheapest_state i breaks k r (one_line {c = c} g q) =
      let (s, e, le) = state_under i c _ g (at_start q) in (c, s, e, le)
  cheapest_state i breaks k r
        (one_more {j = j} {p = p} {c = c} {breaks = breaks'} {k = k'} {l = l} lt path g h q) =
      let (p', s, e, le) = cheapest_state j breaks' k' r path in
      let same = some_inj _ _ (sym (get-candidates table j p' (some s) e) ∙ g) in
      let q' = ap (λ b. edge b.next_start c) same ∙ q in
      let (s', e', le') = state_under i c _ h (behind lt e q') in
      let (_, path', _) = breaks_to-IsPath (suc j) j p' s r (omega arith) e in
      let sum = r i _ _ (one_more lt path' (get-candidates table j p' (some s) e) h q') in
      (
        c,
        s',
        e',
        le-trans s'.cost (s.cost +ℤ l) (k' +ℤ l) (subst (λ z. s'.cost ≤ℤ z) sum le')
            (le-add s.cost k' l le),
      )

-- The breaks of a cheapest path to a candidate.
pub record IsCheapest (edge : Edge) (start : ℕ) (cs : List BreakCandidate) (last : ℕ)
    (breaks : List ℕ) : Type 0 where
  pub cost : ℤ
  pub path : IsPath edge start cs last breaks cost
  pub least : (breaks' : List ℕ) (k : ℤ) → IsPath edge start cs last breaks' k → cost ≤ℤ k

-- A search gives the breaks of a cheapest path, or nothing where no path leads to the candidate.
abbrev pub IsOptimal : Edge → ℕ → List BreakCandidate → ℕ → Panics (Option (List ℕ)) → Type 0
IsOptimal edge start cs last result =
    ((breaks : List ℕ) × (result ≡ some (some breaks)) × IsCheapest edge start cs last breaks)
    ⊎ ((result ≡ some none) × ((breaks : List ℕ) (k : ℤ) → IsPath edge start cs last breaks k → ⊥))

path_in-IsOptimal :
    (edge : Edge) (start : ℕ) (table : Table) (last : ℕ) (c : BreakCandidate)
    → IsFilled edge start table
    → HasRoom edge start (candidates_of table)
    → get_elem? (candidates_of table) last ≡ some c
    → IsOptimal edge start (candidates_of table) last (path_in table (suc last))
path_in-IsOptimal edge start table last c f r g =
    let (state, e) = entry_of table last c g in ending state e
  where
    ending :
        (state : Option PathState)
        → get_elem? table last ≡ some (c, state)
        → IsOptimal edge start (candidates_of table) last (path_in table (suc last))
    ending none e = inr (
      ap (λ x. x >>= (λ entry. path_found table last entry.1)) e,
      λ breaks k p.
          let (c', s, e', _) = cheapest_state edge start table f last breaks k r p in
          no_some s (ap (λ x. some x.1) (some_inj _ _ (sym e ∙ e'))),
    )
    ending (some s) e =
        let (breaks, path, found) =
          breaks_to-IsPath edge start table f (suc last) last c s r (omega arith) e in
        inl (
          breaks,
          ap (λ x. x >>= (λ entry. path_found table last entry.1)) e
              ∙ ap (λ x. x >>= (λ bs. some (some bs))) (found [] ∙ ap some (append-nil breaks)),
          record {
            cost = s.cost;
            path = path;
            least = λ breaks' k p.
                let (c', s', e', le) = cheapest_state edge start table f last breaks' k r p in
                subst (λ (t : PathState). t.cost ≤ℤ k)
                  (some_inj _ _ (
                    ap (λ (x : BreakCandidate × Option PathState). x.1)
                      (some_inj _ _ (sym e' ∙ e))))
                  le;
          },
        )

pub best_path-IsOptimal :
    (edge : Edge) (start : ℕ) (c : BreakCandidate) (cs : List BreakCandidate)
    → ((i : ℕ) (d : BreakCandidate) → get_elem? (c ∷ cs) i ≡ some d → HasCosts edge d)
    → HasRoom edge start (c ∷ cs)
    → IsOptimal edge start (c ∷ cs) (length cs) (best_path edge start (c ∷ cs))
unfolding best_path
best_path-IsOptimal edge start c cs h r =
    let (table, e, m, f) =
      best_states-IsFilled edge start [] (c ∷ cs) h (λ i d state g. absurd (cc)) in
    let (d, g) = last_elem c cs in
    let o =
      path_in-IsOptimal edge start table (length cs) d f (subst (HasRoom edge start) (sym m) r)
        (ap (λ ds. get_elem? ds (length cs)) m ∙ g) in
    subst (IsOptimal edge start (c ∷ cs) (length cs))
      (sym (ap (λ x. x >>= (λ t. path_in t (suc (length cs)))) e))
      (subst (λ ds. IsOptimal edge start ds (length cs) (path_in table (suc (length cs)))) m o)
