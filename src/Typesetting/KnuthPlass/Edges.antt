-- ===== src/Typesetting/KnuthPlass/Edges.antt =====
-- The search on metrics and candidates of a size that a document has.
use ferritex.Prelude.{
  ℕ, ◌+◌, ◌*◌, ◌^◌, ◌<◌, ◌≤◌, ◌≡◌, refl, sym, ap, ◌∙◌, subst, Bool, true, false, ◌&&◌, not, Option,
  none, some, List, ◌∷◌, length, get_elem?, if◌then◌else◌, if_both, ℤ, pos, arith, leb, ◌=?◌,
  int_eq,
}
use ferritex.Prelude.Integer.{◌-ℤ◌, abs_ℤ, i64, abs-add}
use ferritex.Prelude.Elements.{some_inj, get_lt, leb-false}
use ferritex.Typesetting.KnuthPlass.{BreakCandidate, BreakParams, Metrics, ◌>>=◌, Panics}
use ferritex.Typesetting.KnuthPlass.Cost.{metrics_between, line_cost, cost_if, edge_cost, demerits}
use ferritex.Typesetting.KnuthPlass.Search.{Edge, compute_best_path}
use ferritex.Typesetting.KnuthPlass.Path.{IsPath, one_line, one_more, HasRoom}
use ferritex.Typesetting.KnuthPlass.Optimal.{IsOptimal, best_path-IsOptimal}
use ferritex.Typesetting.KnuthPlass.Bounds.{feasibility_HasBadness, demerits-bound, i128_id}
use ferritex.Typesetting.KnuthPlass.Sizes.{
  all_modest, all_inside, IsModest, inside_at, difference-bound, between_total,
}

-- A cost that does not panic, and is at most `2 ^ 66` in size where there is one.
abbrev HasCost : Panics (Option ℤ) → Type 0
HasCost r = (cost : Option ℤ) × (r ≡ some cost) × ((k : ℤ) → cost ≡ some k → abs_ℤ k ≤ 2 ^ 66)

no_cost : HasCost (some none)
no_cost = (none, refl, λ k e. absurd (cc))

module _ (params : BreakParams) (width_small : abs_ℤ params.line_width < 2 ^ 38)
    (penalty_small : abs_ℤ params.line_penalty ≤ 2 ^ 31) where
  cost_if_bound :
      (c : BreakCandidate) (allow feasible : Bool) (badness : ℕ)
      → abs_ℤ c.penalty ≤ 2 ^ 31
      → badness ≤ 1000000
      → HasCost (some (cost_if params c allow (feasible, pos badness)))
  cost_if_bound c allow feasible badness h k = by_test (not allow && not feasible)
    where
      by_test :
          (b : Bool)
          → HasCost (
              some
                (if b then none else some (demerits params.line_penalty (pos badness) c.penalty)))
      by_test true = no_cost
      by_test false = (
        _,
        refl,
        λ k' e.
            subst (λ z. abs_ℤ z ≤ 2 ^ 66) (some_inj _ _ e)
              (demerits-bound params.line_penalty c.penalty badness penalty_small h k),
      )

  line_cost-HasCost :
      (m : Metrics) (c : BreakCandidate) (allow : Bool)
      → IsModest (2 ^ 39) m
      → abs_ℤ c.penalty ≤ 2 ^ 31
      → HasCost (line_cost m c params allow)
  unfolding line_cost
  line_cost-HasCost m c allow (mw, mst, msh) h =
      let delta = i64 (params.line_width -ℤ m.width) in
      let (feasible, badness, le, e) =
        feasibility_HasBadness delta m c.kind params
          (omega (
            arith,
            mw,
            width_small,
            difference-bound params.line_width m.width (omega (arith, mw, width_small)),
          ))
          (omega (arith, mst)) (omega (arith, msh)) in
      let (cost, e', bound) = cost_if_bound c allow feasible badness h le in
      if_both HasCost (m.width =? pos 0) no_cost
        (cost, ap (λ x. x >>= (λ fitted. some (cost_if params c allow fitted))) e ∙ e', bound)

  edge_cost-HasCost :
      (ms : List Metrics) (start : ℕ) (c : BreakCandidate) (allow : Bool)
      → all_modest ms ≡ true
      → c.measure_end < length ms
      → abs_ℤ c.penalty ≤ 2 ^ 31
      → HasCost (edge_cost ms start c params allow)
  unfolding edge_cost
  edge_cost-HasCost ms start c allow h k l = by_test (leb c.measure_end start) refl
    where
      by_test :
          (b : Bool)
          → leb c.measure_end start ≡ b
          → HasCost (
              if b
              then some none
              else (metrics_between ms start c.measure_end >>= (λ m. line_cost m c params allow)))
      by_test true e = no_cost
      by_test false e =
          let (m, f, modest) = between_total ms start c.measure_end h (leb-false _ _ e) k in
          subst (λ x. HasCost (x >>= (λ m. line_cost m c params allow))) (sym f)
            (line_cost-HasCost m c allow modest l)

  module _ (ms : List Metrics) (cs : List BreakCandidate) (start : ℕ) (allow : Bool)
      (modest : all_modest ms ≡ true) (inside : all_inside (length ms) cs ≡ true) where
    abbrev edge : Edge
    edge s c = edge_cost ms s c params allow

    edge-HasCost : (i s : ℕ) (c : BreakCandidate) → get_elem? cs i ≡ some c → HasCost (edge s c)
    edge-HasCost i s c g =
        let (k, l) = inside_at (length ms) cs i c inside g in
        edge_cost-HasCost ms s c allow modest k l

    edge_bound :
        (i s : ℕ) (c : BreakCandidate) (k : ℤ)
        → get_elem? cs i ≡ some c
        → edge s c ≡ some (some k)
        → abs_ℤ k ≤ 2 ^ 66
    edge_bound i s c k g q =
        let (cost, e, bound) = edge-HasCost i s c g in bound k (some_inj _ _ (sym e ∙ q))

    path_bound :
        (i : ℕ) (breaks : List ℕ) (k : ℤ)
        → IsPath edge start cs i breaks k
        → abs_ℤ k ≤ (i + 1) * 2 ^ 66
    path_bound i breaks k (one_line {c = c} g q) = omega (arith, edge_bound i start c k g q)
    path_bound i breaks k
          (one_more {j = j} {p = p} {c = c} {breaks = breaks'} {k = k'} {l = l} lt path g h q) =
        omega
          (arith, lt, path_bound j breaks' k' path, edge_bound i p.next_start c l h q, abs-add k' l)

    index_bound :
        (i : ℕ) (breaks : List ℕ) (k : ℤ) → IsPath edge start cs i breaks k → i < length cs
    index_bound i breaks k (one_line {c = c} g q) = get_lt cs i c g
    index_bound i breaks k (one_more {c = c} lt path g h q) = get_lt cs i c h

    edge-HasRoom : length cs < 2 ^ 60 → HasRoom edge start cs
    edge-HasRoom few i breaks k p =
        i128_id k (omega (arith, few, path_bound i breaks k p, index_bound i breaks k p))

-- For sums of widths, of stretch and of shrink up to each position and a line width that are below
-- `2 ^ 38` in size, penalties that are `i32`, candidates that end within the items and fewer than
-- `2 ^ 60` of them, the search does not panic: it gives the breaks of a path to the last candidate whose
-- demerits are least among all paths, summed without a wrap-around, or nothing exactly where no path
-- leads there.
pub compute_best_path-IsOptimal :
    (ms : List Metrics) (c : BreakCandidate) (cs : List BreakCandidate) (start : ℕ)
    (params : BreakParams) (allow_overfull : Bool)
    → abs_ℤ params.line_width < 2 ^ 38
    → abs_ℤ params.line_penalty ≤ 2 ^ 31
    → all_modest ms ≡ true
    → all_inside (length ms) (c ∷ cs) ≡ true
    → length (c ∷ cs) < 2 ^ 60
    → IsOptimal
        (λ line_start d. edge_cost ms line_start d params allow_overfull)
        start
        (c ∷ cs)
        (length cs)
        (compute_best_path ms (c ∷ cs) start params allow_overfull)
unfolding compute_best_path
compute_best_path-IsOptimal ms c cs start params allow w p modest inside few =
    best_path-IsOptimal _ start c cs
      (λ i d g s.
        let (cost, e, _) = edge-HasCost params w p ms (c ∷ cs) start allow modest inside i s d g in
        (cost, e))
      (edge-HasRoom params w p ms (c ∷ cs) start allow modest inside few)
