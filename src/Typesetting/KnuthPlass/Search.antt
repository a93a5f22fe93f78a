-- ===== src/Typesetting/KnuthPlass/Search.antt =====
-- `compute_best_path`: the best way to each candidate, from the first candidate on. `best_states` is
-- the table's part that is filled, with the candidates.
use ferritex.Prelude.{
  ℕ, zero, suc, Bool, Option, none, some, List, [], ◌∷◌, ◌++◌, length, get_elem?, if◌then◌else◌, ℤ,
  ◌+ℤ◌, ltb_ℤ,
}
use ferritex.Prelude.Integer.{i128}
use ferritex.Typesetting.KnuthPlass.{Panics, ◌>>=◌, BreakParams, BreakCandidate, Metrics, PathState}
use ferritex.Typesetting.KnuthPlass.Cost.{edge_cost}

-- The demerits of a line from a start to a candidate, `some none` where there is no such line.
abbrev pub Edge : Type 0
Edge = ℕ → BreakCandidate → Panics (Option ℤ)

abbrev pub Table : Type 0
Table = List (BreakCandidate × Option PathState)

abbrev pub first_state : Option ℤ → Option PathState
first_state none = none
first_state (some cost) = some (record { cost = cost; predecessor = none })

unfoldable pub replaced : PathState → Option PathState → Option PathState
replaced new none = some new
replaced new (some current) = if ltb_ℤ new.cost current.cost then some new else some current

abbrev pub through : ℕ → PathState → ℤ → PathState
through predecessor previous cost = record {
  cost = i128 (previous.cost +ℤ cost);
  predecessor = some predecessor;
}

unfoldable pub offered : ℕ → PathState → Option ℤ → Option PathState → Option PathState
offered predecessor previous none current = current
offered predecessor previous (some cost) current =
    replaced (through predecessor previous cost) current

-- A round of the inner loop, at a predecessor.
unfoldable pub relax :
    Edge
    → BreakCandidate
    → ℕ
    → BreakCandidate
    → Option PathState
    → Option PathState
    → Panics (Option PathState)
relax edge c j p none current = some current
relax edge c j p (some previous) current = do
  cost ← edge p.next_start c
  some (offered j previous cost current)

unfoldable pub relax_all :
    Edge → BreakCandidate → ℕ → Table → Option PathState → Panics (Option PathState)
relax_all edge c j [] current = some current
relax_all edge c j ((p, state) ∷ entries) current = do
  next ← relax edge c j p state current
  relax_all edge c (suc j) entries next

unfoldable pub best_state : Edge → ℕ → Table → BreakCandidate → Panics (Option PathState)
best_state edge start table c = do cost ← edge start c; relax_all edge c 0 table (first_state cost)

unfoldable pub best_states : Edge → ℕ → Table → List BreakCandidate → Panics Table
best_states edge start table [] = some table
best_states edge start table (c ∷ cs) = do
  state ← best_state edge start table c
  best_states edge start (table ++ (c, state) ∷ []) cs

abbrev pub pushed : Option ℕ → List ℕ → List ℕ
pushed none breaks = breaks
pushed (some index) breaks = index ∷ breaks

-- The predecessor that a state was reached through, and where it breaks.
unfoldable pub link_to : Table → Option ℕ → Panics (Option (ℕ × Option ℕ))
link_to table none = some none
link_to table (some j) = do (p, state) ← get_elem? table j; some (some (j, p.break_index))

abbrev pub link_of : Table → Option PathState → Panics (Option (ℕ × Option ℕ))
link_of table none = some none
link_of table (some state) = link_to table state.predecessor

abbrev pub followed :
    (ℕ → List ℕ → Panics (List ℕ)) → List ℕ → Option (ℕ × Option ℕ) → Panics (List ℕ)
followed go breaks none = some breaks
followed go breaks (some (j, break_index)) = go j (pushed break_index breaks)

-- The `while let` loop: it pushes the breaks from the last to the first, and reverses them. Out of
-- fuel is `none`.
unfoldable pub breaks_to : ℕ → Table → ℕ → List ℕ → Panics (List ℕ)
breaks_to zero table i breaks = none
breaks_to (suc n) table i breaks = do
  (c, state) ← get_elem? table i
  link ← link_of table state
  followed (breaks_to n table) breaks link

abbrev pub path_found : Table → ℕ → Option PathState → Panics (Option (List ℕ))
path_found table last none = some none
path_found table last (some state) = do
  breaks ← breaks_to (suc last) table last []
  some (some breaks)

abbrev pub path_in : Table → ℕ → Panics (Option (List ℕ))
path_in table zero = some none
path_in table (suc last) = do (c, state) ← get_elem? table last; path_found table last state

unfoldable pub best_path : Edge → ℕ → List BreakCandidate → Panics (Option (List ℕ))
best_path edge start candidates = do
  table ← best_states edge start [] candidates
  path_in table (length candidates)

unfoldable pub compute_best_path :
    List Metrics → List BreakCandidate → ℕ → BreakParams → Bool → Panics (Option (List ℕ))
compute_best_path prefix_metrics candidates paragraph_start params allow_overfull =
    best_path (λ line_start c. edge_cost prefix_metrics line_start c params allow_overfull)
      paragraph_start candidates
