-- ===== src/Typesetting/KnuthPlass/Breaks.antt =====
-- The breaks of a whole list of items.
use mathlib.Core.List.{Memᴰ}
use mathlib.Core.List.Memᴰ
use ferritex.Prelude.{
  ℕ, zero, suc, ◌+◌, ◌≡◌, ◌⊎◌, inl, inr, refl, sym, ap, ap₂, ◌∙◌, subst, Bool, true, false, not,
  some, List, [], ◌∷◌, ◌++◌, length, get_elem?, drop, if◌then◌else◌, arith,
}
use ferritex.Prelude.Elements.{some_inj, drop-get, drop-suc, suc_add, false-true}
use ferritex.Typesetting.KnuthPlass.{HListItem, BreakParams, ◌>>=◌, Panics}
use ferritex.Typesetting.KnuthPlass.Candidates.{advance_line_start}
use ferritex.Typesetting.KnuthPlass.Cost.{build_prefix_metrics}
use ferritex.Typesetting.KnuthPlass.Paragraph.{
  is_forced, paragraph_breaks, breaks_from, find_breakpoints,
}
use ferritex.Typesetting.KnuthPlass.Feasible.{can_break, forced-can_break}
use ferritex.Typesetting.KnuthPlass.Paragraphs.{
  AreBreaks, IsSized, none-AreBreaks, paragraph_breaks-GivesBreaks,
}

module _ (hlist : List HListItem) (params : BreakParams) (sized : IsSized hlist params) where
  -- The forced breaks among the items from an index on are all there.
  abbrev KeepsForced : List HListItem → ℕ → List ℕ → Type 0
  KeepsForced items index breaks =
      (i : ℕ) (item : HListItem)
      → get_elem? items i ≡ some item
      → is_forced item ≡ true
      → Memᴰ (index + i) breaks

  abbrev Breaks : List HListItem → ℕ → Panics (List ℕ) → Type 0
  Breaks items index r =
      (breaks : List ℕ) × (r ≡ some breaks)
      × AreBreaks hlist breaks
      × KeepsForced items index breaks

  breaks_from-Breaks :
      (items : List HListItem) (index start : ℕ)
      → drop index hlist ≡ items
      → index + length items ≡ length hlist
      → Breaks items index (breaks_from hlist (build_prefix_metrics hlist) params items index start)
  unfolding breaks_from
  breaks_from-Breaks [] index start d n =
      let (breaks, e, ok) =
        paragraph_breaks-GivesBreaks hlist params sized start index (omega (arith, n)) in
      (breaks, e, ok, λ i item g f. absurd (cc))
  breaks_from-Breaks (item ∷ items) index start d n =
      let next_start = if is_forced item then advance_line_start hlist (index + 1) else start in
      let behind =
        subst (λ k. drop k hlist ≡ items) {x = suc index} (suc_add index)
          (drop-suc index hlist item items d) in
      by_test (breaks_from hlist (build_prefix_metrics hlist) params items (index + 1) next_start)
        (breaks_from-Breaks items (index + 1) next_start behind (omega (arith, n))) (is_forced item)
        refl
    where
      by_test :
          (rest : Panics (List ℕ))
          → Breaks items (index + 1) rest
          → (b : Bool) → is_forced item ≡ b
          → Breaks (item ∷ items) index (
              if not b
              then rest
              else (paragraph_breaks hlist (build_prefix_metrics hlist) params start index
                  >>= (λ breaks. rest >>= (λ more. some (breaks ++ index ∷ more)))))
      by_test rest (more, e, ok, kept) false t = (more, e, ok, not_forced)
        where
          not_forced : KeepsForced (item ∷ items) index more
          not_forced zero other g f =
              absurd (false-true (sym t ∙ ap is_forced (some_inj _ _ g) ∙ f))
          not_forced (suc i) other g f = subst (λ k. Memᴰ k more) (omega arith) (kept i other g f)
      by_test rest (more, e, ok, kept) true t =
          let (breaks, e', ok') =
            paragraph_breaks-GivesBreaks hlist params sized start index (omega (arith, n)) in
          (
            breaks ++ index ∷ more,
            ap₂ (λ x y. x >>= (λ b. y >>= (λ m. some (b ++ index ∷ m)))) e' e,
            (λ b m. elim (Memᴰ.append_cases breaks m) [
              | inl before ↦ ok' b before
              | inr from ↦ at_or_behind b (Memᴰ.cases_cons from)
            ]),
            forced breaks,
          )
        where
          at_or_behind : (b : ℕ) → (b ≡ index) ⊎ Memᴰ b more → can_break hlist b ≡ true
          at_or_behind b (inl at) =
              subst (λ k. can_break hlist k ≡ true) (sym at)
                (forced-can_break hlist index item (drop-get index hlist item items d) t)
          at_or_behind b (inr behind) = ok b behind

          forced : (breaks : List ℕ) → KeepsForced (item ∷ items) index (breaks ++ index ∷ more)
          forced breaks zero other g f = Memᴰ.append_right breaks (Memᴰ.head (omega arith))
          forced breaks (suc i) other g f =
              Memᴰ.append_right breaks
                (Memᴰ.tail (subst (λ k. Memᴰ k more) (omega arith) (kept i other g f)))

-- For fewer than `2 ^ 59` items whose sums of widths, of stretch and of shrink up to each position stay
-- below `2 ^ 38` in size, with penalties that are `i32` and a line width and penalty of such sizes,
-- `find_breakpoints` gives breaks, without a panic: all at items where a line may end, and every forced
-- one among them.
pub find_breakpoints_lem :
    (hlist : List HListItem) (params : BreakParams)
    → IsSized hlist params
    → (breaks : List ℕ) × (find_breakpoints hlist params ≡ some breaks)
      × ((b : ℕ) → Memᴰ b breaks → can_break hlist b ≡ true)
      × ((i : ℕ) (item : HListItem)
          → get_elem? hlist i ≡ some item
          → is_forced item ≡ true
          → Memᴰ i breaks)
unfolding find_breakpoints
find_breakpoints_lem [] params sized =
    ([], refl, none-AreBreaks [] params sized, λ i item g f. absurd (cc))
find_breakpoints_lem (item ∷ items) params sized =
    let (breaks, e, ok, kept) =
      breaks_from-Breaks (item ∷ items) params sized (item ∷ items) 0 0 refl (omega arith) in
    (breaks, e, ok, λ i other g f. subst (λ k. Memᴰ k breaks) (omega arith) (kept i other g f))
