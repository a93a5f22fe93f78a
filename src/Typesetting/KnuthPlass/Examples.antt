-- ===== src/Typesetting/KnuthPlass/Examples.antt =====
-- Paragraphs, broken.
use mathlib.Core.List.{Memᴰ}
use ferritex.Prelude.{
  ℕ, ◌≡◌, refl, true, none, some, List, [], ◌∷◌, get_elem?, ◌+ℤ◌, pos, negsuc, arith,
}
use ferritex.Typesetting.KnuthPlass.{
  normal, HListItem, char, glue, penalty, BreakParams, default_params, BreakCandidate, at_glue,
  terminal,
}
use ferritex.Typesetting.KnuthPlass.Cost.{
  build_prefix_metrics, edge_cost, metrics_between, prefixes_from, next_metrics, line_cost,
  adjusted, adjustment_feasibility, cube, demerits, saturating_abs,
}
use ferritex.Prelude.Integer.{i64, i128, ◌-ℤ◌, ◌*ℤ◌, div_i128}
use ferritex.Typesetting.KnuthPlass.Candidates.{
  trim_paragraph_end, candidates_from, candidates_at, advance_line_start, skip_glue,
}
use ferritex.Typesetting.KnuthPlass.Search.{
  compute_best_path, best_path, best_states, best_state, relax_all, relax, offered, replaced,
  breaks_to, link_to,
}
use ferritex.Typesetting.KnuthPlass.Optimal.{IsOptimal}
use ferritex.Typesetting.KnuthPlass.Edges.{compute_best_path-IsOptimal}
use ferritex.Typesetting.KnuthPlass.Feasible.{can_break}
use ferritex.Typesetting.KnuthPlass.Breaks.{find_breakpoints_lem}
use ferritex.Typesetting.KnuthPlass.Paragraphs.{IsSized}
use ferritex.Typesetting.KnuthPlass.Paragraph.{
  is_forced, find_breakpoints, breaks_from, paragraph_breaks, solve_paragraph, solve_candidates,
  or_overfull,
}

abbrev letter : HListItem
letter = char 97 (pos 10) none 0

abbrev space : HListItem
space =
    glue (pos 4) (record { value = pos 2; order = normal })
      (record { value = pos 1; order = normal }) none 0

abbrev narrow : BreakParams
narrow = record default_params { line_width = pos 24 }

abbrev words : List HListItem
words = letter ∷ space ∷ letter ∷ space ∷ letter ∷ penalty (negsuc 9999) ∷ letter ∷ []

-- The forced break and the best one before it.
words_broken : find_breakpoints words narrow ≡ some (2 ∷ 5 ∷ [])
unfolding find_breakpoints breaks_from paragraph_breaks trim_paragraph_end solve_paragraph
    candidates_from candidates_at solve_candidates or_overfull compute_best_path best_path
    best_states best_state relax_all relax offered replaced breaks_to link_to edge_cost
    metrics_between prefixes_from next_metrics line_cost i64 i128 ◌+ℤ◌ ◌-ℤ◌ ◌*ℤ◌ div_i128
    advance_line_start skip_glue adjusted adjustment_feasibility cube demerits saturating_abs
words_broken = refl

abbrev wide : BreakParams
wide = record default_params { line_width = pos 80 }

word_fits : find_breakpoints (letter ∷ letter ∷ letter ∷ []) wide ≡ some []
unfolding find_breakpoints breaks_from paragraph_breaks trim_paragraph_end solve_paragraph
    candidates_from candidates_at solve_candidates or_overfull compute_best_path best_path
    best_states best_state relax_all relax offered replaced breaks_to link_to edge_cost
    metrics_between prefixes_from next_metrics line_cost i64 i128 ◌+ℤ◌ ◌-ℤ◌ ◌*ℤ◌ div_i128
    advance_line_start skip_glue adjusted adjustment_feasibility cube demerits saturating_abs
word_fits = refl

abbrev behind_first : BreakCandidate
behind_first = record {
  break_index = some 0;
  measure_end = 1;
  next_start = 2;
  penalty = pos 0;
  kind = at_glue;
}

abbrev behind_second : BreakCandidate
behind_second = record {
  break_index = some 2;
  measure_end = 3;
  next_start = 4;
  penalty = pos 0;
  kind = at_glue;
}

abbrev at_end : BreakCandidate
at_end = record {
  break_index = none;
  measure_end = 5;
  next_start = 5;
  penalty = pos 0;
  kind = terminal;
}

compute_best_path-IsOptimal_example :
    IsOptimal
      (λ line_start d. edge_cost (build_prefix_metrics words) line_start d narrow true)
      0
      (behind_first ∷ behind_second ∷ at_end ∷ [])
      2
      (compute_best_path
        (build_prefix_metrics words)
        (behind_first ∷ behind_second ∷ at_end ∷ [])
        0
        narrow
        true)
unfolding prefixes_from next_metrics i64 ◌+ℤ◌
compute_best_path-IsOptimal_example =
    compute_best_path-IsOptimal (build_prefix_metrics words) behind_first
      (behind_second ∷ at_end ∷ []) 0 narrow true (omega arith) (omega arith) refl refl
      (omega arith)

words-IsSized : IsSized words narrow
unfolding prefixes_from next_metrics i64 ◌+ℤ◌
words-IsSized = record {
  line_width = omega arith;
  line_penalty = omega arith;
  metrics = refl;
  penalties = refl;
  length = omega arith;
}

find_breakpoints_lem_example :
    (breaks : List ℕ) × (find_breakpoints words narrow ≡ some breaks)
    × ((b : ℕ) → Memᴰ b breaks → can_break words b ≡ true)
    × ((i : ℕ) (item : HListItem)
        → get_elem? words i ≡ some item
        → is_forced item ≡ true
        → Memᴰ i breaks)
find_breakpoints_lem_example = find_breakpoints_lem words narrow words-IsSized
