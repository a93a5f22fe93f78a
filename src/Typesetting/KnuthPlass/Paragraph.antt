-- ===== src/Typesetting/KnuthPlass/Paragraph.antt =====
-- `solve_paragraph` and `find_breakpoints`.
use ferritex.Prelude.{
  ℕ, ◌+◌, Bool, true, false, not, Option, none, some, List, [], ◌∷◌, ◌++◌, leb, if◌then◌else◌,
  unwrap_or, ltb_ℤ,
}
use ferritex.Typesetting.KnuthPlass.{
  Panics, ◌>>=◌, HListItem, char, glue, kern, inline_box, penalty, penalty_forced, BreakParams,
  BreakCandidate, Metrics,
}
use ferritex.Typesetting.KnuthPlass.Candidates.{
  advance_line_start, trim_paragraph_end, collect_candidates,
}
use ferritex.Typesetting.KnuthPlass.Cost.{build_prefix_metrics}
use ferritex.Typesetting.KnuthPlass.Search.{compute_best_path}

-- The second search, with overfull lines, where the first finds nothing.
unfoldable pub or_overfull :
    List Metrics → List BreakCandidate → ℕ → BreakParams → Option (List ℕ) → Panics (List ℕ)
or_overfull prefix_metrics candidates paragraph_start params (some breaks) = some breaks
or_overfull prefix_metrics candidates paragraph_start params none = do
  breaks ← compute_best_path prefix_metrics candidates paragraph_start params true
  some (unwrap_or breaks [])

unfoldable pub solve_candidates :
    List Metrics → ℕ → BreakParams → List BreakCandidate → Panics (List ℕ)
solve_candidates prefix_metrics paragraph_start params [] = some []
solve_candidates prefix_metrics paragraph_start params (c ∷ cs) = do
  breaks ← compute_best_path prefix_metrics (c ∷ cs) paragraph_start params false
  or_overfull prefix_metrics (c ∷ cs) paragraph_start params breaks

unfoldable pub solve_paragraph :
    List HListItem → List Metrics → ℕ → ℕ → BreakParams → Panics (List ℕ)
solve_paragraph hlist prefix_metrics paragraph_start paragraph_end params =
    if leb paragraph_end paragraph_start
    then some []
    else (collect_candidates hlist paragraph_start paragraph_end
        >>= solve_candidates prefix_metrics paragraph_start params)

abbrev pub is_forced : HListItem → Bool
is_forced (penalty value) = not (ltb_ℤ penalty_forced value)
is_forced (char _ _ _ _) = false
is_forced (glue _ _ _ _ _) = false
is_forced (kern _) = false
is_forced (inline_box _ _ _ _) = false

-- The breaks of a paragraph that ends before an index.
unfoldable pub paragraph_breaks :
    List HListItem → List Metrics → BreakParams → ℕ → ℕ → Panics (List ℕ)
paragraph_breaks hlist prefix_metrics params paragraph_start index = do
  paragraph_end ← trim_paragraph_end hlist paragraph_start index
  solve_paragraph hlist prefix_metrics paragraph_start paragraph_end params

-- The loop, on the items from an index on.
unfoldable pub breaks_from :
    List HListItem → List Metrics → BreakParams → List HListItem → ℕ → ℕ → Panics (List ℕ)
breaks_from hlist prefix_metrics params [] index paragraph_start =
    paragraph_breaks hlist prefix_metrics params paragraph_start index
breaks_from hlist prefix_metrics params (item ∷ items) index paragraph_start =
    let next_start =
      if is_forced item then advance_line_start hlist (index + 1) else paragraph_start in
    let rest = breaks_from hlist prefix_metrics params items (index + 1) next_start in
    if not (is_forced item) then rest else do
      breaks ← paragraph_breaks hlist prefix_metrics params paragraph_start index
      later ← rest
      some (breaks ++ index ∷ later)

unfoldable pub find_breakpoints : List HListItem → BreakParams → Panics (List ℕ)
find_breakpoints [] params = some []
find_breakpoints (item ∷ items) params =
    let hlist = item ∷ items in breaks_from hlist (build_prefix_metrics hlist) params hlist 0 0
