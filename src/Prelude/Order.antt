-- ===== src/Prelude/Order.antt =====
-- `Ord` of Rust: a Boolean strict order that compares any two elements, taken as an instance.
use Prim.Native.Nat.{ℕ}
use mathlib.Core.Path.{◌≡◌, refl, ap₂}
use mathlib.Core.Logic.{◌↔◌}
use mathlib.Core.Bool.{Bool, true, false, ◌&&◌, ◌||◌}
use mathlib.Core.List.{List, [], ◌∷◌}
use native.Mathlib.Omega.{arith}
use ferritex.Prelude.Tests.{ltb, Bool-cases}
use ferritex.Prelude.Equality.{Eq, ◌=?◌, nat_eq, list_eq}

pub record Ord {ℓ} (A : Type ℓ) ⦃e : Eq A⦄ : Type ℓ where
  pub lt : A → A → Bool
  pub lt_irrefl : (a : A) → lt a a ≡ false
  pub lt_trans : (a b c : A) → lt a b ≡ true → lt b c ≡ true → lt a c ≡ true
  pub lt_connex : (a b : A) → lt a b ≡ false → lt b a ≡ false → a ≡ b

abbrev pub ◌<?◌ {ℓ} : {A : Type ℓ} ⦃e : Eq A⦄ ⦃o : Ord A⦄ → A → A → Bool
◌<?◌ ⦃e⦄ ⦃o⦄ = o.lt

infix 50 ◌<?◌
pub ltb_irrefl : (a : ℕ) → ltb a a ≡ false
ltb_irrefl a = ground arith

pub ltb_trans : (a b c : ℕ) → ltb a b ≡ true → ltb b c ≡ true → ltb a c ≡ true
ltb_trans a b c h k = ground arith

pub ltb_connex : (a b : ℕ) → ltb a b ≡ false → ltb b a ≡ false → a ≡ b
ltb_connex a b h k = ground arith

instance abbrev pub nat_ord : Ord ℕ
nat_ord = record { lt = ltb; lt_irrefl = ltb_irrefl; lt_trans = ltb_trans; lt_connex = ltb_connex }

module _ {ℓ} {A : Type ℓ} ⦃e : Eq A⦄ ⦃o : Ord A⦄ where
  pub lt_asym : (a b : A) → (a <? b) ≡ true → (b <? a) ≡ false
  lt_asym a b h = ground (arith, o.lt_trans a b a, o.lt_irrefl a)

  pub not_lt_trans : (a b c : A) → (b <? a) ≡ false → (c <? b) ≡ false → (c <? a) ≡ false
  not_lt_trans a b c h k = ground (
    arith,
    o.lt_trans c a b,
    o.lt_connex a b,
    o.lt_irrefl a,
    e.beq_iff a b,
    Bool-cases (a <? b),
    Bool-cases (c <? a),
  )

module _ {ℓ} {A : Type ℓ} ⦃e : Eq A⦄ ⦃o : Ord A⦄ where
  -- The lexicographic order.
  unfoldable pub list_lt : List A → List A → Bool
  list_lt [] [] = false
  list_lt [] (y ∷ ys) = true
  list_lt (x ∷ xs) [] = false
  list_lt (x ∷ xs) (y ∷ ys) = (x <? y) || ((x =? y) && list_lt xs ys)

  pub list_lt_irrefl : (xs : List A) → list_lt xs xs ≡ false
  unfolding list_lt
  list_lt_irrefl [] = refl
  list_lt_irrefl (x ∷ xs) = ground (arith, o.lt_irrefl x, list_lt_irrefl xs)

  pub list_lt_trans :
      (xs ys zs : List A) → list_lt xs ys ≡ true → list_lt ys zs ≡ true → list_lt xs zs ≡ true
  unfolding list_lt
  list_lt_trans [] [] zs h k = absurd (ground arith)
  list_lt_trans xs (y ∷ ys) [] h k = absurd (ground arith)
  list_lt_trans [] (y ∷ ys) (z ∷ zs) h k = refl
  list_lt_trans (x ∷ xs) [] zs h k = absurd (ground arith)
  list_lt_trans (x ∷ xs) (y ∷ ys) (z ∷ zs) h k =
      ground (
        arith,
        o.lt_trans x y z,
        list_lt_trans xs ys zs,
        e.beq_iff x y,
        e.beq_iff y z,
        e.beq_iff x z,
      )

  pub list_lt_connex : (xs ys : List A) → list_lt xs ys ≡ false → list_lt ys xs ≡ false → xs ≡ ys
  unfolding list_lt
  list_lt_connex [] [] h k = refl
  list_lt_connex [] (y ∷ ys) h k = absurd (ground arith)
  list_lt_connex (x ∷ xs) [] h k = absurd (ground arith)
  list_lt_connex (x ∷ xs) (y ∷ ys) h k =
      ap₂ (λ (u : A) us. u ∷ us) (ground (arith, o.lt_connex x y, e.beq_iff x y, e.beq_iff y x))
        (list_lt_connex xs ys (ground (arith, o.lt_connex x y, e.beq_iff x y, e.beq_iff y x))
          (ground (arith, o.lt_connex x y, e.beq_iff x y, e.beq_iff y x)))

  instance abbrev pub list_ord : Ord (List A)
  list_ord = record {
    lt = list_lt;
    lt_irrefl = list_lt_irrefl;
    lt_trans = list_lt_trans;
    lt_connex = list_lt_connex;
  }

module _ {ℓ κ} {A : Type ℓ} {B : Type κ} ⦃e : Eq A⦄ ⦃f : Eq B⦄ where
  unfoldable pub pair_beq : A × B → A × B → Bool
  pair_beq (a, b) (c, d) = (a =? c) && (b =? d)

  pub pair_beq_iff : (x y : A × B) → (pair_beq x y ≡ true) ↔ (x ≡ y)
  unfolding pair_beq
  pair_beq_iff (a, b) (c, d) = ground (arith, e.beq_iff a c, f.beq_iff b d)

  instance abbrev pub pair_eq : Eq (A × B)
  pair_eq = record { beq = pair_beq; beq_iff = pair_beq_iff }

module _ {ℓ κ} {A : Type ℓ} {B : Type κ} ⦃e : Eq A⦄ ⦃o : Ord A⦄ ⦃f : Eq B⦄ ⦃q : Ord B⦄ where
  -- `cmp` of the first components, `then` that of the second.
  unfoldable pub pair_lt : A × B → A × B → Bool
  pair_lt (a, b) (c, d) = (a <? c) || ((a =? c) && (b <? d))

  pub pair_lt_irrefl : (x : A × B) → pair_lt x x ≡ false
  unfolding pair_lt
  pair_lt_irrefl (a, b) = ground (arith, o.lt_irrefl a, q.lt_irrefl b)

  pub pair_lt_trans : (x y z : A × B) → pair_lt x y ≡ true → pair_lt y z ≡ true → pair_lt x z ≡ true
  unfolding pair_lt
  pair_lt_trans (a, b) (a', b') (a'', b'') h k = ground (
    arith,
    o.lt_trans a a' a'',
    q.lt_trans b b' b'',
    e.beq_iff a a',
    e.beq_iff a' a'',
    e.beq_iff a a'',
  )

  pub pair_lt_connex : (x y : A × B) → pair_lt x y ≡ false → pair_lt y x ≡ false → x ≡ y
  unfolding pair_lt
  pair_lt_connex (a, b) (c, d) h k =
      ap₂ (λ (u : A) (w : B). (u, w))
        (ground (arith, o.lt_connex a c, e.beq_iff a c, e.beq_iff c a))
        (ground (arith, o.lt_connex a c, e.beq_iff a c, e.beq_iff c a, q.lt_connex b d))

  instance abbrev pub pair_ord : Ord (A × B)
  pair_ord = record {
    lt = pair_lt;
    lt_irrefl = pair_lt_irrefl;
    lt_trans = pair_lt_trans;
    lt_connex = pair_lt_connex;
  }
