-- ===== src/Typesetting/KnuthPlass/Path.antt =====
-- The ways to break a paragraph, and what the table of the search holds about them.
use ferritex.Prelude.{ℕ, ◌<◌, ◌≡◌, Option, none, some, List, [], ◌++◌, get_elem?, ℤ, ◌+ℤ◌}
use ferritex.Prelude.Integer.{◌≤ℤ◌, i128}
use ferritex.Typesetting.KnuthPlass.{BreakCandidate, PathState}
use ferritex.Typesetting.KnuthPlass.Search.{Edge, Table, through, pushed}

-- Lines up to the candidate at an index, broken at the given items, and the sum of their demerits.
pub data IsPath (edge : Edge) (start : ℕ) (cs : List BreakCandidate) : ℕ → List ℕ → ℤ → Type 0 where
  one_line :
      {i : ℕ} {c : BreakCandidate} {k : ℤ}
      → get_elem? cs i ≡ some c
      → edge start c ≡ some (some k)
      → IsPath edge start cs i [] k
  one_more :
      {i j : ℕ} {p c : BreakCandidate} {breaks : List ℕ} {k l : ℤ}
      → j < i
      → IsPath edge start cs j breaks k
      → get_elem? cs j ≡ some p
      → get_elem? cs i ≡ some c
      → edge p.next_start c ≡ some (some l)
      → IsPath edge start cs i (breaks ++ pushed p.break_index []) (k +ℤ l)

-- A state that the table's first entries offer for a candidate.
pub data IsOffer (edge : Edge) (start : ℕ) (table : Table) (c : BreakCandidate)
    : ℕ → PathState → Type 0 where
  at_start :
      {n : ℕ} {k : ℤ}
      → edge start c ≡ some (some k)
      → IsOffer edge start table c n (record { cost = k; predecessor = none })
  behind :
      {n j : ℕ} {p : BreakCandidate} {s : PathState} {l : ℤ}
      → j < n
      → get_elem? table j ≡ some (p, some s)
      → edge p.next_start c ≡ some (some l)
      → IsOffer edge start table c n (through j s l)

-- A cheapest offer, or nothing where there is none.
pub data IsBest (edge : Edge) (start : ℕ) (table : Table) (c : BreakCandidate) (n : ℕ)
    : Option PathState → Type 0 where
  no_offer :
      ((s : PathState) → IsOffer edge start table c n s → ⊥) → IsBest edge start table c n none
  best_offer :
      {s : PathState}
      → IsOffer edge start table c n s
      → ((s' : PathState) → IsOffer edge start table c n s' → s.cost ≤ℤ s'.cost)
      → IsBest edge start table c n (some s)

-- Each entry is the best that the entries before it offer.
abbrev pub IsFilled : Edge → ℕ → Table → Type 0
IsFilled edge start table =
    (i : ℕ) (c : BreakCandidate) (state : Option PathState)
    → get_elem? table i ≡ some (c, state)
    → IsBest edge start table c i state

-- No cost of a line to the candidate panics.
abbrev pub HasCosts : Edge → BreakCandidate → Type 0
HasCosts edge c = (start : ℕ) → (k : Option ℤ) × (edge start c ≡ some k)

-- The sums of demerits are `i128` values.
abbrev pub HasRoom : Edge → ℕ → List BreakCandidate → Type 0
HasRoom edge start cs =
    (i : ℕ) (breaks : List ℕ) (k : ℤ) → IsPath edge start cs i breaks k → i128 k ≡ k
