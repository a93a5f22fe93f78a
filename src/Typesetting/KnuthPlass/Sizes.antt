-- ===== src/Typesetting/KnuthPlass/Sizes.antt =====
-- Metrics and candidates of a size that a document has.
use ferritex.Prelude.{
  ℕ, zero, suc, ◌+◌, ◌^◌, ◌<◌, ◌≤◌, ◌≡◌, refl, sym, ap₂, subst, Bool, true, ◌&&◌, some, List, [],
  ◌∷◌, length, get_elem?, ℤ, arith, ltb, leb, leb→le, ltb→lt, int_eq,
}
use ferritex.Prelude.Integer.{◌-ℤ◌, abs_ℤ, i64, IsWithin, abs-sub}
use ferritex.Prelude.Elements.{some_inj, and_true}
use ferritex.Typesetting.KnuthPlass.{BreakCandidate, Metrics, ◌>>=◌}
use ferritex.Typesetting.KnuthPlass.Cost.{metrics_between}
use ferritex.Typesetting.KnuthPlass.Bounds.{i64_id}

-- Sums up to a position that are below `2 ^ 38` scaled points in size, some 1400 kilometres.
abbrev pub is_modest : Metrics → Bool
is_modest m =
    ltb (abs_ℤ m.width) (2 ^ 38) && ltb (abs_ℤ m.stretch) (2 ^ 38) && ltb (abs_ℤ m.shrink) (2 ^ 38)

abbrev pub all_modest : List Metrics → Bool
all_modest [] = true
all_modest (m ∷ ms) = is_modest m && all_modest ms

-- A candidate that ends within the items, with a penalty that is an `i32`.
abbrev pub is_inside : ℕ → BreakCandidate → Bool
is_inside n c = ltb c.measure_end n && leb (abs_ℤ c.penalty) (2 ^ 31)

abbrev pub all_inside : ℕ → List BreakCandidate → Bool
all_inside n [] = true
all_inside n (c ∷ cs) = is_inside n c && all_inside n cs

abbrev pub IsModest : ℕ → Metrics → Type 0
IsModest n m = IsWithin n m.width × IsWithin n m.stretch × IsWithin n m.shrink

pub IsModest-at :
    (ms : List Metrics) (i : ℕ)
    → all_modest ms ≡ true
    → i < length ms
    → (m : Metrics) × (get_elem? ms i ≡ some m) × IsModest (2 ^ 38) m
IsModest-at [] i h lt = absurd (omega arith)
IsModest-at (m ∷ ms) zero h lt =
    let (a, _) = and_true (is_modest m) (all_modest ms) h in
    let (b, c) =
      and_true (ltb (abs_ℤ m.width) (2 ^ 38) && ltb (abs_ℤ m.stretch) (2 ^ 38))
        (ltb (abs_ℤ m.shrink) (2 ^ 38)) a in
    let (d, e) = and_true (ltb (abs_ℤ m.width) (2 ^ 38)) (ltb (abs_ℤ m.stretch) (2 ^ 38)) b in
    (m, refl, (ltb→lt _ _ d, ltb→lt _ _ e, ltb→lt _ _ c))
IsModest-at (m ∷ ms) (suc i) h lt =
    IsModest-at ms i (and_true (is_modest m) (all_modest ms) h).1 (omega (arith, lt))

pub inside_at :
    (n : ℕ) (cs : List BreakCandidate) (i : ℕ) (c : BreakCandidate)
    → all_inside n cs ≡ true
    → get_elem? cs i ≡ some c
    → (c.measure_end < n) × (abs_ℤ c.penalty ≤ 2 ^ 31)
inside_at n [] i c h g = absurd (cc)
inside_at n (d ∷ cs) zero c h g =
    let (a, b) = and_true (is_inside n d) (all_inside n cs) h in
    let (e, f) = and_true (ltb d.measure_end n) (leb (abs_ℤ d.penalty) (2 ^ 31)) a in
    subst (λ (x : BreakCandidate). (x.measure_end < n) × (abs_ℤ x.penalty ≤ 2 ^ 31))
      (some_inj _ _ g) (ltb→lt _ _ e, leb→le _ _ f)
inside_at n (d ∷ cs) (suc i) c h g =
    inside_at n cs i c (and_true (is_inside n d) (all_inside n cs) h).1 g

abbrev difference : Metrics → Metrics → Metrics
difference e s = record {
  width = i64 (e.width -ℤ s.width);
  stretch = i64 (e.stretch -ℤ s.stretch);
  shrink = i64 (e.shrink -ℤ s.shrink);
}

pub difference-bound :
    (a b : ℤ) → abs_ℤ a + abs_ℤ b < 2 ^ 40 → abs_ℤ (i64 (a -ℤ b)) ≤ abs_ℤ a + abs_ℤ b
difference-bound a b h =
    let bound = abs-sub a b in
    subst (λ z. abs_ℤ z ≤ abs_ℤ a + abs_ℤ b) (sym (i64_id (a -ℤ b) (omega (arith, bound, h)))) bound

IsWithin-difference :
    (a b : ℤ) → IsWithin (2 ^ 38) a → IsWithin (2 ^ 38) b → IsWithin (2 ^ 39) (i64 (a -ℤ b))
IsWithin-difference a b h k = omega (arith, h, k, difference-bound a b (omega (arith, h, k)))

pub between_total :
    (ms : List Metrics) (start end : ℕ)
    → all_modest ms ≡ true
    → start < end
    → end < length ms
    → (m : Metrics) × (metrics_between ms start end ≡ some m) × IsModest (2 ^ 39) m
unfolding metrics_between
between_total ms start end h lt k =
    let (a, e, (aw, ast, ash)) = IsModest-at ms start h (omega (arith, lt, k)) in
    let (b, f, (bw, bst, bsh)) = IsModest-at ms end h k in
    let width = IsWithin-difference b.width a.width bw aw in
    let stretch = IsWithin-difference b.stretch a.stretch bst ast in
    let shrink = IsWithin-difference b.shrink a.shrink bsh ash in
    (
      difference b a,
      ap₂
          (λ x y. x >>= (λ end_metrics.
            y >>= (λ start_metrics. some (difference end_metrics start_metrics))))
          f e,
      (width, stretch, shrink),
    )
