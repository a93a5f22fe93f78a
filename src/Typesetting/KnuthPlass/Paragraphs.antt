-- ===== src/Typesetting/KnuthPlass/Paragraphs.antt =====
-- The breaks of one paragraph.
use mathlib.Core.List.{Memᴰ}
use mathlib.Core.List.Memᴰ
use ferritex.Prelude.{
  ℕ, zero, suc, ◌-◌, ◌^◌, ◌<◌, ◌≤◌, ◌≡◌, ◌⊎◌, inl, inr, refl, sym, ap, ap₂, ◌∙◌, subst, Bool, true,
  false, ◌&&◌, not, Option, none, some, List, [], ◌∷◌, length, if◌then◌else◌, if_both, ℤ, arith,
  ltb, leb, lt→ltb, unwrap_or,
}
use ferritex.Prelude.Integer.{abs_ℤ}
use ferritex.Prelude.Elements.{elem_at, mem_at, leb-false}
use ferritex.Typesetting.KnuthPlass.{HListItem, BreakCandidate, BreakParams, Metrics, ◌>>=◌, Panics}
use ferritex.Typesetting.KnuthPlass.Candidates.{is_trimmed, collect_candidates, trim_paragraph_end}
use ferritex.Typesetting.KnuthPlass.Cost.{prefixes_from, build_prefix_metrics, next_metrics}
use ferritex.Typesetting.KnuthPlass.Search.{Edge, pushed, compute_best_path}
use ferritex.Typesetting.KnuthPlass.Path.{IsPath, one_line, one_more}
use ferritex.Typesetting.KnuthPlass.Edges.{compute_best_path-IsOptimal}
use ferritex.Typesetting.KnuthPlass.Paragraph.{
  or_overfull, solve_candidates, solve_paragraph, paragraph_breaks,
}
use ferritex.Typesetting.KnuthPlass.Feasible.{
  can_break, all_i32, AreFeasible, candidates_from-AreFeasible,
}
use ferritex.Typesetting.KnuthPlass.Sizes.{all_modest, all_inside}

length-prefixes_from :
    (m : Metrics) (items : List HListItem) → length (prefixes_from m items) ≡ suc (length items)
unfolding prefixes_from
length-prefixes_from m [] = refl
length-prefixes_from m (item ∷ items) = ap suc (length-prefixes_from (next_metrics m item) items)

-- An end that is not behind an index.
abbrev EndsBy : ℕ → Panics ℕ → Type 0
EndsBy n r = (e : ℕ) × (r ≡ some e) × (e ≤ n)

trim_total :
    (hlist : List HListItem) (start end : ℕ)
    → end ≤ length hlist
    → EndsBy end (trim_paragraph_end hlist start end)
unfolding trim_paragraph_end
trim_total hlist start zero h = (0, refl, omega arith)
trim_total hlist start (suc end) h =
    let (e, p, le) = trim_total hlist start end (omega (arith, h)) in
    let (item, g) = elem_at hlist end (omega (arith, h)) in
    if_both (EndsBy (suc end)) (not (ltb start (suc end))) (suc end, refl, omega arith)
      (subst
        (λ x. EndsBy (suc end) (
          x >>= (λ i. if is_trimmed i then trim_paragraph_end hlist start end else some (suc end))))
        (sym g)
        (if_both (EndsBy (suc end)) (is_trimmed item) (e, p, omega (arith, le))
          (suc end, refl, omega arith)))

-- The breaks are all at items where a line may end.
abbrev pub AreBreaks : List HListItem → List ℕ → Type 0
AreBreaks hlist breaks = (b : ℕ) → Memᴰ b breaks → can_break hlist b ≡ true

-- A run that gives such breaks.
abbrev pub GivesBreaks : List HListItem → Panics (List ℕ) → Type 0
GivesBreaks hlist r = (breaks : List ℕ) × (r ≡ some breaks) × AreBreaks hlist breaks

all_inside_of :
    (hlist : List HListItem) (n : ℕ) (cs : List BreakCandidate)
    → n ≡ suc (length hlist)
    → AreFeasible hlist cs
    → all_inside n cs ≡ true
all_inside_of hlist n [] e f = refl
all_inside_of hlist n (c ∷ cs) e f =
    let first = f c (Memᴰ.head refl) in
    ap₂ (λ x y. x && y)
      (ap₂ (λ x y. x && y) (lt→ltb c.measure_end n (omega (arith, e, first.ends))) first.i32)
      (all_inside_of hlist n cs e (λ d m. f d (Memᴰ.tail m)))

path_breaks :
    (hlist : List HListItem) (edge : Edge) (start : ℕ) (cs : List BreakCandidate) (i : ℕ)
    (breaks : List ℕ) (k : ℤ)
    → AreFeasible hlist cs
    → IsPath edge start cs i breaks k
    → AreBreaks hlist breaks
path_breaks hlist edge start cs i breaks k f (one_line g q) b m = absurd (Memᴰ.not-nil m)
path_breaks hlist edge start cs i breaks k f
      (one_more {j = j} {p = p} {breaks = breaks'} {k = k'} lt path g h q) b m =
    elim (Memᴰ.append_cases breaks' m) [
      | inl before ↦ path_breaks hlist edge start cs j breaks' k' f path b before
      | inr at ↦ pushed_break p.break_index refl at
    ]
  where
    pushed_break :
        (o : Option ℕ) → p.break_index ≡ o → Memᴰ b (pushed o []) → can_break hlist b ≡ true
    pushed_break none e m = absurd (Memᴰ.not-nil m)
    pushed_break (some c) e m =
        (f p (mem_at cs j p g)).breaks b (e ∙ ap some (sym (Memᴰ.eq_of_singleton m)))

-- A document whose sums of sizes up to each position, and whose penalties, are ones that occur.
pub record IsSized (hlist : List HListItem) (params : BreakParams) : Type 0 where
  pub line_width : abs_ℤ params.line_width < 2 ^ 38
  pub line_penalty : abs_ℤ params.line_penalty ≤ 2 ^ 31
  pub metrics : all_modest (build_prefix_metrics hlist) ≡ true
  pub penalties : all_i32 hlist ≡ true
  pub length : length hlist < 2 ^ 59

module _ (hlist : List HListItem) (params : BreakParams) (sized : IsSized hlist params) where
  abbrev pub prefix : List Metrics
  prefix = build_prefix_metrics hlist

  -- A search gives breaks or nothing, without a panic.
  abbrev Searches : Panics (Option (List ℕ)) → Type 0
  Searches r =
      ((breaks : List ℕ) × (r ≡ some (some breaks)) × AreBreaks hlist breaks) ⊎ (r ≡ some none)

  search-Searches :
      (start : ℕ) (c : BreakCandidate) (cs : List BreakCandidate) (allow : Bool)
      → AreFeasible hlist (c ∷ cs)
      → length (c ∷ cs) < 2 ^ 60
      → Searches (compute_best_path prefix (c ∷ cs) start params allow)
  search-Searches start c cs allow f few =
      let n = length-prefixes_from _ hlist in
      elim (compute_best_path-IsOptimal prefix c cs start params allow sized.line_width
        sized.line_penalty sized.metrics (all_inside_of hlist (length prefix) (c ∷ cs) n f) few) [
          | inl (breaks, e, best) ↦ inl (
            breaks,
            e,
            path_breaks hlist _ start (c ∷ cs) (length cs) breaks best.cost f best.path,
          )
          | inr (e, _) ↦ inr e
        ]

  pub none-AreBreaks : AreBreaks hlist []
  none-AreBreaks b m = absurd (Memᴰ.not-nil m)

  solve_candidates-GivesBreaks :
      (start : ℕ) (cs : List BreakCandidate)
      → AreFeasible hlist cs
      → length cs < 2 ^ 60
      → GivesBreaks hlist (solve_candidates prefix start params cs)
  unfolding solve_candidates or_overfull
  solve_candidates-GivesBreaks start [] f few = ([], refl, none-AreBreaks)
  solve_candidates-GivesBreaks start (c ∷ cs) f few =
      elim (search-Searches start c cs false f few) [
        | inl (breaks, e, ok) ↦
            (breaks, ap (λ x. x >>= or_overfull prefix (c ∷ cs) start params) e, ok)
        | inr e ↦ elim (search-Searches start c cs true f few) [
          | inl (breaks, e', ok) ↦ (
            breaks,
            ap (λ x. x >>= or_overfull prefix (c ∷ cs) start params) e
                ∙ ap (λ x. x >>= (λ b. some (unwrap_or b []))) e',
            ok,
          )
          | inr e' ↦ (
            [],
            ap (λ x. x >>= or_overfull prefix (c ∷ cs) start params) e
                ∙ ap (λ x. x >>= (λ b. some (unwrap_or b []))) e',
            none-AreBreaks,
          )
        ]
      ]

  pub paragraph_breaks-GivesBreaks :
      (start index : ℕ)
      → index ≤ length hlist
      → GivesBreaks hlist (paragraph_breaks hlist prefix params start index)
  unfolding paragraph_breaks solve_paragraph
  paragraph_breaks-GivesBreaks start index h =
      let (end, e, le) = trim_total hlist start index h in
      subst (λ x. GivesBreaks hlist (x >>= (λ end. solve_paragraph hlist prefix start end params)))
        (sym e) (solved end (omega (arith, le, h)))
    where
      solved :
          (end : ℕ)
          → end ≤ length hlist
          → GivesBreaks hlist (solve_paragraph hlist prefix start end params)
      solved end le = by_test (leb end start) refl
        where
          by_test :
              (b : Bool)
              → leb end start ≡ b
              → GivesBreaks hlist (
                  if b
                  then some []
                  else (collect_candidates hlist start end
                      >>= solve_candidates prefix start params))
          by_test true t = ([], refl, none-AreBreaks)
          by_test false t =
              let (cs, e, f, _, few) =
                candidates_from-AreFeasible hlist start start (end - start) sized.penalties
                  (omega (arith, leb-false end start t, le)) in
              subst (λ x. GivesBreaks hlist (x >>= solve_candidates prefix start params)) (sym e)
                (solve_candidates-GivesBreaks start cs f (omega (arith, few, le, sized.length)))
