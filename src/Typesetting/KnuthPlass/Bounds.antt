-- ===== src/Typesetting/KnuthPlass/Bounds.antt =====
-- Where the arithmetic of the demerits neither wraps around nor panics.
use ferritex.Prelude.{
  ℕ, zero, suc, ◌-◌, ◌*◌, ◌/◌, ◌^◌, ◌<◌, ◌≤◌, ◌≡◌, inl, inr, refl, sym, ap, ap₂, ◌∙◌, subst, Bool,
  true, false, not, Option, some, Bool-cases, if_both, ℤ, pos, negsuc, ◌+ℤ◌, ltb_ℤ, arith, ◌==◌,
  ◌&&◌, ◌=?◌, int_eq,
}
use native.Mathlib.Nat.{mul-le-mul, mul-pos}
use ferritex.Prelude.Integer.{
  ◌*ℤ◌, abs_ℤ, min_ℤ, max_ℤ, i64, i128, div_i128, IsWithin, wrap_id, if_true, if_false, abs-add,
  abs-sub, abs-mul, pos_mul,
}
use ferritex.Typesetting.KnuthPlass.{BreakParams, Metrics, CandidateKind, max_badness, ◌>>=◌}
use ferritex.Typesetting.KnuthPlass.Cost.{
  is_terminal, adjusted, adjustment_feasibility, demerits, cube, saturating_abs,
}

pub i64_id : (z : ℤ) → IsWithin (2 ^ 40) z → i64 z ≡ z
unfolding i64
i64_id z h = wrap_id (2 ^ 63) z (omega (arith, h))

pub i128_id : (z : ℤ) → IsWithin (2 ^ 127) z → i128 z ≡ z
unfolding i128
i128_id z h = wrap_id (2 ^ 127) z h

times_le : (a b m n : ℕ) → a ≤ m → b ≤ n → a * b ≤ m * n
times_le a b m n h k = mul-le-mul h k

-- `pow(3)` of a number that is at most `2 ^ 40` does not wrap around.
cube_pos : (n : ℕ) → n < 2 ^ 40 → (cube (pos n) ≡ pos (n * n * n)) × (n * n * n < 2 ^ 120)
unfolding cube
cube_pos n h =
    let sq = times_le n n (2 ^ 40 - 1) (2 ^ 40 - 1) (omega (arith, h)) (omega (arith, h)) in
    let cb = times_le (n * n) n ((2 ^ 40 - 1) * (2 ^ 40 - 1)) (2 ^ 40 - 1) sq (omega (arith, h)) in
    let e = ap (λ z. z *ℤ pos n) (pos_mul n n) ∙ pos_mul (n * n) n in
    let lt = lt_of_cube (n * n * n) cb in
    (ap i128 e ∙ i128_id (pos (n * n * n)) (omega (arith, lt)), lt)
  where
    lt_of_cube : (m : ℕ) → m ≤ (2 ^ 40 - 1) * (2 ^ 40 - 1) * (2 ^ 40 - 1) → m < 2 ^ 120
    lt_of_cube m h = omega (arith, h)

-- The badness that a line gets is a number up to the largest.
abbrev pub HasBadness : Option (Bool × ℤ) → Type 0
HasBadness r =
    (feasible : Bool) × (badness : ℕ) × (badness ≤ 1000000) × (r ≡ some (feasible, pos badness))

min_bounded : (q : ℕ) → (b : ℕ) × (b ≤ 1000000) × (min_ℤ (pos q) max_badness ≡ pos b)
min_bounded q = elim (Bool-cases (ltb_ℤ max_badness (pos q))) [
  | inl more ↦ (1000000, omega arith, if_true _ _ more)
  | inr less ↦ (q, ground arith, if_false _ _ less)
]

div_pos : (a b : ℕ) → 0 < b → (q : ℕ) × (div_i128 (pos a) (pos b) ≡ some (pos q))
unfolding div_i128
div_pos a zero h = absurd (omega arith)
div_pos a (suc b) h = (a / suc b, refl)

abbrev rated : BreakParams → ℤ → Bool × ℤ
rated params quotient =
    let badness = min_ℤ quotient max_badness in
    (not (ltb_ℤ (max_ℤ params.tolerance (pos 0)) badness), i64 badness)

positive : (n : ℕ) → not (ltb_ℤ (pos 0) (pos (suc n))) ≡ false
positive n = ground arith

quotient_HasBadness :
    (params : BreakParams) (stretching : Bool) (n d : ℕ)
    → suc n < 2 ^ 40
    → d < 2 ^ 40
    → HasBadness (adjusted params stretching (pos (suc n)) (pos d))
unfolding adjusted
quotient_HasBadness params stretching n d h k =
    let (e, lt) = cube_pos d k in
    let (e', lt') = cube_pos (suc n) h in
    let top =
      ap (λ z. i128 (pos 100 *ℤ z)) e
      ∙ ap i128 (pos_mul 100 (d * d * d))
      ∙ i128_id (pos (100 * (d * d * d))) (omega (arith, lt)) in
    let (q, f) =
      div_pos (100 * (d * d * d)) (suc n * suc n * suc n)
        (mul-pos (mul-pos (omega arith) (omega arith)) (omega arith)) in
    let (b, le, g) = min_bounded q in
    (
      (rated params (pos q)).0,
      b,
      le,
      if_false _ _ (positive n)
          ∙ ap₂ (λ x y. div_i128 x y >>= (λ z. some (rated params z))) top e'
          ∙ ap (λ x. x >>= (λ z. some (rated params z))) f
          ∙ ap (λ z. some ((rated params (pos q)).0, z))
              (ap i64 g ∙ i64_id (pos b) (omega (arith, le))),
    )

negative : (n : ℕ) → not (ltb_ℤ (pos 0) (negsuc n)) ≡ true
negative n = ground arith

adjusted-HasBadness :
    (params : BreakParams) (stretching : Bool) (adjustment : ℤ) (d : ℕ)
    → IsWithin (2 ^ 40) adjustment
    → d < 2 ^ 40
    → HasBadness (adjusted params stretching adjustment (pos d))
unfolding adjusted
adjusted-HasBadness params true (pos zero) d h k = (false, 500000, omega arith, refl)
adjusted-HasBadness params false (pos zero) d h k = (false, 1000000, omega arith, refl)
adjusted-HasBadness params stretching (pos (suc n)) d h k =
    quotient_HasBadness params stretching n d (omega (arith, h)) k
adjusted-HasBadness params true (negsuc n) d h k =
    (false, 500000, omega arith, if_true _ _ (negative n))
adjusted-HasBadness params false (negsuc n) d h k =
    (false, 1000000, omega arith, if_true _ _ (negative n))

not_positive : (n : ℕ) → ltb_ℤ (pos 0) (negsuc n) ≡ false
not_positive n = ground arith

not_least : (n : ℕ) → suc n < 2 ^ 40 → (n == 2 ^ 63 - 1) ≡ false
not_least n h = ground arith

easy : HasBadness (some (true, pos 0))
easy = (true, 0, omega arith, refl)

pub feasibility_HasBadness :
    (delta : ℤ) (m : Metrics) (kind : CandidateKind) (params : BreakParams)
    → IsWithin (2 ^ 40) delta
    → IsWithin (2 ^ 40) m.stretch
    → IsWithin (2 ^ 40) m.shrink
    → HasBadness (adjustment_feasibility delta m kind params)
unfolding adjustment_feasibility saturating_abs
feasibility_HasBadness (pos n) m kind params h k l =
    if_both HasBadness (not (ltb_ℤ (pos n) (pos 0)) && is_terminal kind) easy (
      if_both HasBadness ((pos n) =? pos 0) easy (
        if_both HasBadness (ltb_ℤ (pos 0) (pos n))
          (adjusted-HasBadness params true m.stretch n k (omega (arith, h)))
          (adjusted-HasBadness params false m.shrink n l (omega (arith, h)))))
feasibility_HasBadness (negsuc n) m kind params h k l =
    if_both HasBadness (not (ltb_ℤ (negsuc n) (pos 0)) && is_terminal kind) easy (
      if_both HasBadness ((negsuc n) =? pos 0) easy (
        subst HasBadness
          (sym (if_false (adjusted params true m.stretch (negsuc n)) _ (not_positive n)))
          (subst (λ z. HasBadness (adjusted params false m.shrink z))
            (sym (if_false (pos (2 ^ 63 - 1)) _ (not_least n (omega (arith, h)))))
            (adjusted-HasBadness params false m.shrink (suc n) l (omega (arith, h))))))

i128-bound : (z : ℤ) (n : ℕ) → abs_ℤ z ≤ n → n < 2 ^ 127 → abs_ℤ (i128 z) ≤ n
i128-bound z n h k = subst (λ y. abs_ℤ y ≤ n) (sym (i128_id z (omega (arith, h, k)))) h

square-bound : (z : ℤ) (n : ℕ) → abs_ℤ z ≤ n → n * n < 2 ^ 127 → abs_ℤ (i128 (z *ℤ z)) ≤ n * n
square-bound z n h k =
    i128-bound (z *ℤ z) (n * n)
      (subst (λ m. m ≤ n * n) (sym (abs-mul z z)) (times_le (abs_ℤ z) (abs_ℤ z) n n h h)) k

pub demerits-bound :
    (line_penalty value : ℤ) (badness : ℕ)
    → abs_ℤ line_penalty ≤ 2 ^ 31
    → abs_ℤ value ≤ 2 ^ 31
    → badness ≤ 1000000
    → abs_ℤ (demerits line_penalty (pos badness) value) ≤ 2 ^ 66
unfolding demerits
demerits-bound line_penalty value badness h k l =
    let base = i128 (line_penalty +ℤ pos badness) in
    let on_base =
      i128-bound (line_penalty +ℤ pos badness) (2 ^ 32)
        (omega (arith, abs-add line_penalty (pos badness), h, l)) (omega arith) in
    let sum = i128 (base +ℤ value) in
    let on_sum =
      i128-bound (base +ℤ value) (2 ^ 33) (omega (arith, abs-add base value, on_base, k))
        (omega arith) in
    let squared = square-bound sum (2 ^ 33) on_sum (omega arith) in
    let positive_part = square-bound base (2 ^ 32) on_base (omega arith) in
    let negative_part = square-bound value (2 ^ 31) k (omega arith) in
    let difference = abs-sub (i128 (base *ℤ base)) (i128 (value *ℤ value)) in
    if_both (λ z. abs_ℤ z ≤ 2 ^ 66) (not (ltb_ℤ value (pos 0))) squared
      (i128-bound _ (2 ^ 66) (omega (arith, difference, positive_part, negative_part))
        (omega arith))
