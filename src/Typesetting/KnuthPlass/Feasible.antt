-- ===== src/Typesetting/KnuthPlass/Feasible.antt =====
-- The candidates of a paragraph stand where a line may be broken, and end within the items.
use mathlib.Core.List.{Memᴰ}
use mathlib.Core.List.Memᴰ
use ferritex.Prelude.{
  ℕ, zero, suc, ◌+◌, ◌-◌, ◌^◌, ◌<◌, ◌≤◌, ◌≡◌, inl, inr, refl, sym, ap, ap₂, ◌∙◌, subst, Bool, true,
  false, ◌&&◌, ◌||◌, Option, none, some, List, [], ◌∷◌, ◌++◌, length, length-append, get_elem?,
  if◌then◌else◌, ltb_ℤ, arith, ltb, leb,
}
use ferritex.Prelude.Integer.{abs_ℤ}
use ferritex.Prelude.Elements.{some_inj, get_lt, elem_at, and_true, or_true}
use ferritex.Typesetting.KnuthPlass.{
  HListItem, char, glue, kern, inline_box, penalty, penalty_forbidden, penalty_forced,
  BreakCandidate, ◌>>=◌,
}
use ferritex.Typesetting.KnuthPlass.Candidates.{
  is_box, is_glue, candidates_at, candidates_from, terminal_candidate,
}
use ferritex.Typesetting.KnuthPlass.Paragraph.{is_forced}

abbrev is_glue? : Option HListItem → Bool
is_glue? none = false
is_glue? (some item) = is_glue item

abbrev allows_break : Option HListItem → Bool
allows_break (some (penalty value)) = ltb_ℤ value penalty_forbidden
allows_break none = false
allows_break (some (char _ _ _ _)) = false
allows_break (some (glue _ _ _ _ _)) = false
allows_break (some (kern _)) = false
allows_break (some (inline_box _ _ _ _)) = false

-- A line may end at a penalty that does not forbid it, and at a box with glue behind it.
abbrev pub can_break : List HListItem → ℕ → Bool
can_break hlist i =
    allows_break (get_elem? hlist i)
    || (is_box (get_elem? hlist i) && is_glue? (get_elem? hlist (i + 1)))

abbrev pub has_i32 : HListItem → Bool
has_i32 (penalty value) = leb (abs_ℤ value) (2 ^ 31)
has_i32 (char _ _ _ _) = true
has_i32 (glue _ _ _ _ _) = true
has_i32 (kern _) = true
has_i32 (inline_box _ _ _ _) = true

-- Every penalty is an `i32`.
abbrev pub all_i32 : List HListItem → Bool
all_i32 [] = true
all_i32 (item ∷ items) = has_i32 item && all_i32 items

pub record IsFeasible (hlist : List HListItem) (c : BreakCandidate) : Type 0 where
  pub ends : c.measure_end < suc (length hlist)
  pub i32 : leb (abs_ℤ c.penalty) (2 ^ 31) ≡ true
  pub breaks : (b : ℕ) → c.break_index ≡ some b → can_break hlist b ≡ true

abbrev pub AreFeasible : List HListItem → List BreakCandidate → Type 0
AreFeasible hlist cs = (c : BreakCandidate) → Memᴰ c cs → IsFeasible hlist c

item_i32 :
    (items : List HListItem) (i : ℕ) (item : HListItem)
    → all_i32 items ≡ true
    → get_elem? items i ≡ some item
    → has_i32 item ≡ true
item_i32 [] i item h g = absurd (cc)
item_i32 (x ∷ items) zero item h g =
    ap has_i32 (sym (some_inj _ _ g)) ∙ (and_true (has_i32 x) (all_i32 items) h).0
item_i32 (x ∷ items) (suc i) item h g =
    item_i32 items i item (and_true (has_i32 x) (all_i32 items) h).1 g

module _ (hlist : List HListItem) where
  -- No candidate, or one that is feasible.
  abbrev OneFeasible : List BreakCandidate → Type 0
  OneFeasible cs = AreFeasible hlist cs × (length cs ≤ 1)

  none-OneFeasible : OneFeasible []
  none-OneFeasible = (λ c m. absurd (Memᴰ.not-nil m), omega arith)

  if-OneFeasible :
      (b : Bool) (c : BreakCandidate)
      → (b ≡ true → IsFeasible hlist c)
      → OneFeasible (if b then c ∷ [] else [])
  if-OneFeasible true c h =
      (λ d m. subst (IsFeasible hlist) (sym (Memᴰ.eq_of_singleton m)) (h refl), omega arith)
  if-OneFeasible false c h = none-OneFeasible

  candidates_at-OneFeasible :
      (start index : ℕ) (item : HListItem)
      → has_i32 item ≡ true
      → get_elem? hlist index ≡ some item
      → OneFeasible (candidates_at hlist start index item)
  unfolding candidates_at
  candidates_at-OneFeasible start index (char _ _ _ _) h g = none-OneFeasible
  candidates_at-OneFeasible start index (kern _) h g = none-OneFeasible
  candidates_at-OneFeasible start index (inline_box _ _ _ _) h g = none-OneFeasible
  candidates_at-OneFeasible start index (penalty value) h g =
      if-OneFeasible (ltb_ℤ value penalty_forbidden && ltb_ℤ penalty_forced value) _ (λ t. record {
        ends = omega (arith, get_lt hlist index (penalty value) g);
        i32 = h;
        breaks = λ b e.
            let (allowed, _) =
              and_true (ltb_ℤ value penalty_forbidden) (ltb_ℤ penalty_forced value) t in
            subst (λ i. can_break hlist i ≡ true) (some_inj _ _ e)
              (ap (λ x. allows_break x || (is_box x && is_glue? (get_elem? hlist (index + 1)))) g
                ∙ ap (λ x. x || (false && is_glue? (get_elem? hlist (index + 1)))) allowed);
      })
  candidates_at-OneFeasible start index (glue w st sh li fo) h g =
      if-OneFeasible (ltb start index && is_box (get_elem? hlist (index - 1))) _ (λ t. record {
        ends = omega (arith, get_lt hlist index (glue w st sh li fo) g);
        i32 = refl;
        breaks = λ b e.
            let (inner, box) =
              and_true (ltb start index) (is_box (get_elem? hlist (index - 1))) t in
            subst (λ i. can_break hlist i ≡ true) (some_inj _ _ e)
              (glue_breaks (index - 1) box (ap (get_elem? hlist) (lt_pred start index inner) ∙ g));
      })
    where
      lt_pred : (start index : ℕ) → ltb start index ≡ true → index - 1 + 1 ≡ index
      lt_pred start index h = ground arith

      glue_breaks :
          (i : ℕ)
          → is_box (get_elem? hlist i) ≡ true
          → get_elem? hlist (i + 1) ≡ some (glue w st sh li fo)
          → can_break hlist i ≡ true
      glue_breaks i box g' =
          ap₂ (λ x y. allows_break (get_elem? hlist i) || (x && is_glue? y)) box g'
          ∙ or_true (allows_break (get_elem? hlist i))

  end-IsFeasible : (index : ℕ) → index ≤ length hlist → IsFeasible hlist (terminal_candidate index)
  end-IsFeasible index le = record {
    ends = omega (arith, le);
    i32 = refl;
    breaks = λ b e. absurd (cc);
  }

  -- The candidates of a part of the items.
  pub candidates_from-AreFeasible :
      (start index count : ℕ)
      → all_i32 hlist ≡ true
      → index + count ≤ length hlist
      → (cs : List BreakCandidate) × (candidates_from hlist start index count ≡ some cs)
        × AreFeasible hlist cs
        × (1 ≤ length cs)
        × (length cs ≤ suc count)
  unfolding candidates_from
  candidates_from-AreFeasible start index zero h le = (
    terminal_candidate index ∷ [],
    refl,
    (λ c m.
        subst (IsFeasible hlist) (sym (Memᴰ.eq_of_singleton m))
          (end-IsFeasible index (omega (arith, le)))),
    omega arith,
    omega arith,
  )
  candidates_from-AreFeasible start index (suc count) h le =
      let (rest, e, f, one, few) =
        candidates_from-AreFeasible start (index + 1) count h (omega (arith, le)) in
      let (item, g) = elem_at hlist index (omega (arith, le)) in
      let (f', few') =
        candidates_at-OneFeasible start index item (item_i32 hlist index item h g) g in
      let at = candidates_at hlist start index item in
      (
        at ++ rest,
        ap₂ (λ x y. x >>= (λ i. y >>= (λ r. some (candidates_at hlist start index i ++ r)))) g e,
        λ c m. elim (Memᴰ.append_cases at m) [ inl here ↦ f' c here | inr there ↦ f c there ],
        omega (arith, one, length-append at rest),
        omega (arith, few, few', length-append at rest),
      )

forced_allows : (item : HListItem) → is_forced item ≡ true → allows_break (some item) ≡ true
forced_allows (penalty value) f = ground arith
forced_allows (char _ _ _ _) f = absurd (cc)
forced_allows (glue _ _ _ _ _) f = absurd (cc)
forced_allows (kern _) f = absurd (cc)
forced_allows (inline_box _ _ _ _) f = absurd (cc)

pub forced-can_break :
    (hlist : List HListItem) (i : ℕ) (item : HListItem)
    → get_elem? hlist i ≡ some item
    → is_forced item ≡ true
    → can_break hlist i ≡ true
forced-can_break hlist i item g f =
    let behind = is_box (get_elem? hlist i) && is_glue? (get_elem? hlist (i + 1)) in
    ap (λ x. allows_break x || behind) g ∙ ap (λ x. x || behind) (forced_allows item f)
