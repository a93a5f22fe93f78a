-- ===== src/Prelude/Integer.antt =====
-- Arithmetic on signed integers, their order, and the wrap-around of Rust's `i64` and `i128`.
use Prim.Native.Nat.{ℕ, zero, suc, ◌+◌, ◌-◌, ◌*◌, ◌/◌, ◌%◌, ◌^◌, ◌<◌, ◌≤◌}
use mathlib.Core.Path.{◌≡◌, refl}
use mathlib.Core.Bool.{Bool, true, false}
use mathlib.Core.Option.{Option, none, some}
use native.Mathlib.Omega.{arith}
use native.Mathlib.Nat.{mod-eq_of_lt}
use ferritex.Prelude.Tests.{ltb, ◌==◌, if◌then◌else◌, lt→ltb}
use ferritex.Prelude.Int.{ℤ, pos, negsuc, pos_part, neg_part, sub_ℕ, ◌+ℤ◌, ltb_ℤ}

abbrev pub neg_ℤ : ℤ → ℤ
neg_ℤ z = sub_ℕ (neg_part z) (pos_part z)

infixl 65 ◌-ℤ◌
unfoldable pub ◌-ℤ◌ : ℤ → ℤ → ℤ
a -ℤ b = sub_ℕ (pos_part a + neg_part b) (neg_part a + pos_part b)

infixl 70 ◌*ℤ◌
unfoldable pub ◌*ℤ◌ : ℤ → ℤ → ℤ
a *ℤ b =
    sub_ℕ (pos_part a * pos_part b + neg_part a * neg_part b)
      (pos_part a * neg_part b + neg_part a * pos_part b)

abbrev pub abs_ℤ : ℤ → ℕ
abs_ℤ z = pos_part z + neg_part z

abbrev pub min_ℤ : ℤ → ℤ → ℤ
min_ℤ a b = if ltb_ℤ b a then b else a

abbrev pub max_ℤ : ℤ → ℤ → ℤ
max_ℤ a b = if ltb_ℤ a b then b else a

infix 50 ◌≤ℤ◌
abbrev pub ◌≤ℤ◌ : ℤ → ℤ → Type 0
a ≤ℤ b = pos_part a + neg_part b ≤ pos_part b + neg_part a

-- A result of `2 * half` values that wraps around, as in a release build: the values are from
-- `- half` to `half - 1`.
abbrev pub wrap : ℕ → ℤ → ℤ
wrap half (pos n) =
    let r = n % (2 * half) in if ltb r half then pos r else negsuc (2 * half - 1 - r)
wrap half (negsuc n) =
    let r = n % (2 * half) in if ltb r half then negsuc r else pos (2 * half - 1 - r)

-- `+= 1` on a `u32` and a `u64`.
abbrev pub next_u32 : ℕ → ℕ
next_u32 n = (n + 1) % 2 ^ 32

abbrev pub next_u64 : ℕ → ℕ
next_u64 n = (n + 1) % 2 ^ 64

unfoldable pub i64 : ℤ → ℤ
i64 = wrap (2 ^ 63)

unfoldable pub i128 : ℤ → ℤ
i128 = wrap (2 ^ 127)

-- `/` on `i128` rounds to 0, and panics where the divisor is 0 or the quotient is 2 ^ 127.
unfoldable pub div_i128 : ℤ → ℤ → Option ℤ
div_i128 a (pos zero) = none
div_i128 (pos a) (pos (suc b)) = some (pos (a / suc b))
div_i128 (negsuc a) (pos (suc b)) = some (neg_ℤ (pos (suc a / suc b)))
div_i128 (pos a) (negsuc b) = some (neg_ℤ (pos (a / suc b)))
div_i128 (negsuc a) (negsuc b) =
    let q = suc a / suc b in if q == 2 ^ 127 then none else some (pos q)

-- The numbers of at most `half` in size, `half` itself excluded.
abbrev pub IsWithin : ℕ → ℤ → Type 0
IsWithin half z = abs_ℤ z < half

pub if_true : {A : Type 0} (x y : A) {b : Bool} → b ≡ true → (if b then x else y) ≡ x
if_true x y e = rw e refl

pub if_false : {A : Type 0} (x y : A) {b : Bool} → b ≡ false → (if b then x else y) ≡ y
if_false x y e = rw e refl

pub wrap_id : (half : ℕ) (z : ℤ) → IsWithin half z → wrap half z ≡ z
wrap_id half (pos n) h =
    let e = mod-eq_of_lt {n = n} {m = 2 * half} (omega arith) in
    rw e (if_true _ _ (lt→ltb n half (omega arith)))
wrap_id half (negsuc n) h =
    let e = mod-eq_of_lt {n = n} {m = 2 * half} (omega arith) in
    rw e (if_true _ _ (lt→ltb n half (omega arith)))

pub ltb-le : (a b : ℤ) → ltb_ℤ a b ≡ false → b ≤ℤ a
ltb-le a b h = ground arith

pub le-add : (a b c : ℤ) → a ≤ℤ b → (a +ℤ c) ≤ℤ (b +ℤ c)
unfolding ◌+ℤ◌
le-add a b c h = ground arith

pub le-trans : (a b c : ℤ) → a ≤ℤ b → b ≤ℤ c → a ≤ℤ c
le-trans a b c h k = omega (arith, h, k)

pub abs-add : (a b : ℤ) → abs_ℤ (a +ℤ b) ≤ abs_ℤ a + abs_ℤ b
unfolding ◌+ℤ◌
abs-add a b = ground arith

pub abs-sub : (a b : ℤ) → abs_ℤ (a -ℤ b) ≤ abs_ℤ a + abs_ℤ b
unfolding ◌-ℤ◌
abs-sub a b = ground arith

pub abs-mul : (a b : ℤ) → abs_ℤ (a *ℤ b) ≡ abs_ℤ a * abs_ℤ b
unfolding ◌*ℤ◌
abs-mul (pos a) (pos b) = ground arith
abs-mul (pos a) (negsuc b) = ground arith
abs-mul (negsuc a) (pos b) = ground arith
abs-mul (negsuc a) (negsuc b) = ground arith

pub pos_mul : (a b : ℕ) → pos a *ℤ pos b ≡ pos (a * b)
unfolding ◌*ℤ◌
pos_mul a b = ground arith
