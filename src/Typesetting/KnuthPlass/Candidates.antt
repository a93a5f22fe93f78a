-- ===== src/Typesetting/KnuthPlass/Candidates.antt =====
-- Where a paragraph may be broken.
use ferritex.Prelude.{
  ℕ, zero, suc, ◌+◌, ◌-◌, Bool, true, false, ◌&&◌, not, Option, none, some, List, [], ◌∷◌, ◌++◌,
  get_elem?, ltb, if◌then◌else◌, pos, ltb_ℤ,
}
use ferritex.Typesetting.KnuthPlass.{
  Panics, ◌>>=◌, HListItem, char, glue, kern, inline_box, penalty, penalty_forbidden,
  penalty_forced, at_glue, at_penalty, terminal, BreakCandidate,
}

abbrev pub is_glue : HListItem → Bool
is_glue (glue _ _ _ _ _) = true
is_glue (char _ _ _ _) = false
is_glue (kern _) = false
is_glue (inline_box _ _ _ _) = false
is_glue (penalty _) = false

-- The items that glue may be broken behind.
abbrev pub is_box : Option HListItem → Bool
is_box none = false
is_box (some (glue _ _ _ _ _)) = false
is_box (some (char _ _ _ _)) = true
is_box (some (kern _)) = true
is_box (some (inline_box _ _ _ _)) = true
is_box (some (penalty _)) = false

-- The loop of `advance_line_start`, on the items from the index on.
unfoldable pub skip_glue : List HListItem → ℕ → ℕ
skip_glue [] index = index
skip_glue (item ∷ items) index =
    let rest = skip_glue items (index + 1) in if is_glue item then rest else index

abbrev pub items_from : ℕ → List HListItem → List HListItem
items_from zero items = items
items_from (suc n) [] = []
items_from (suc n) (item ∷ items) = items_from n items

unfoldable pub advance_line_start : List HListItem → ℕ → ℕ
advance_line_start hlist index = skip_glue (items_from index hlist) index

-- What `trim_paragraph_end` takes away from the end.
abbrev pub is_trimmed : HListItem → Bool
is_trimmed (glue _ _ _ _ _) = true
is_trimmed (penalty value) = ltb_ℤ penalty_forced value
is_trimmed (char _ _ _ _) = false
is_trimmed (kern _) = false
is_trimmed (inline_box _ _ _ _) = false

unfoldable pub trim_paragraph_end : List HListItem → ℕ → ℕ → Panics ℕ
trim_paragraph_end hlist paragraph_start zero = some zero
trim_paragraph_end hlist paragraph_start (suc paragraph_end) =
    let rest = trim_paragraph_end hlist paragraph_start paragraph_end in
    if not (ltb paragraph_start (suc paragraph_end)) then some (suc paragraph_end) else do
      item ← get_elem? hlist paragraph_end
      if is_trimmed item then rest else some (suc paragraph_end)

-- The candidates that an item gives: none or one.
unfoldable pub candidates_at : List HListItem → ℕ → ℕ → HListItem → List BreakCandidate
candidates_at hlist paragraph_start index (glue _ _ _ _ _) =
    if ltb paragraph_start index && is_box (get_elem? hlist (index - 1))
    then record {
      break_index = some (index - 1);
      measure_end = index;
      next_start = advance_line_start hlist (index + 1);
      penalty = pos 0;
      kind = at_glue;
    }
      ∷ []
    else []
candidates_at hlist paragraph_start index (penalty value) =
    if ltb_ℤ value penalty_forbidden && ltb_ℤ penalty_forced value
    then record {
      break_index = some index;
      measure_end = index + 1;
      next_start = advance_line_start hlist (index + 1);
      penalty = value;
      kind = at_penalty;
    }
      ∷ []
    else []
candidates_at hlist paragraph_start index (char _ _ _ _) = []
candidates_at hlist paragraph_start index (kern _) = []
candidates_at hlist paragraph_start index (inline_box _ _ _ _) = []

abbrev pub terminal_candidate : ℕ → BreakCandidate
terminal_candidate paragraph_end = record {
  break_index = none;
  measure_end = paragraph_end;
  next_start = paragraph_end;
  penalty = pos 0;
  kind = terminal;
}

-- The candidates of `count` items from `index` on, then the one at the end.
unfoldable pub candidates_from : List HListItem → ℕ → ℕ → ℕ → Panics (List BreakCandidate)
candidates_from hlist paragraph_start index zero = some (terminal_candidate index ∷ [])
candidates_from hlist paragraph_start index (suc count) = do
  item ← get_elem? hlist index
  rest ← candidates_from hlist paragraph_start (index + 1) count
  some (candidates_at hlist paragraph_start index item ++ rest)

abbrev pub collect_candidates : List HListItem → ℕ → ℕ → Panics (List BreakCandidate)
collect_candidates hlist paragraph_start paragraph_end =
    candidates_from hlist paragraph_start paragraph_start (paragraph_end - paragraph_start)
