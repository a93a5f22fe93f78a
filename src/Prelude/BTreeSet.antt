-- ===== src/Prelude/BTreeSet.antt =====
-- `std::collections::BTreeSet`: its elements in ascending order.
use Prim.Native.Nat.{◌≤◌}
use mathlib.Core.Path.{◌≡◌, refl}
use mathlib.Core.Bool.{Bool, false, ◌||◌}
use mathlib.Core.List.{List, [], ◌∷◌}
use native.Mathlib.Omega.{arith}
use ferritex.Prelude.Tests.{if◌then◌else◌}
use ferritex.Prelude.Lists.{length}
use ferritex.Prelude.Equality.{Eq, ◌=?◌}
use ferritex.Prelude.Order.{Ord, ◌<?◌}

abbrev pub BTreeSet {ℓ} : Type ℓ → Type ℓ
BTreeSet A = List A

module _ {ℓ} {A : Type ℓ} ⦃e : Eq A⦄ where
  unfoldable pub contains : BTreeSet A → A → Bool
  contains [] a = false
  contains (x ∷ s) a = (x =? a) || contains s a

module _ {ℓ} {A : Type ℓ} ⦃e : Eq A⦄ ⦃o : Ord A⦄ where
  unfoldable pub insert : BTreeSet A → A → BTreeSet A
  insert [] a = a ∷ []
  insert (x ∷ s) a =
      let rest = insert s a in if x <? a then x ∷ rest else if x =? a then x ∷ s else a ∷ x ∷ s

  -- `extend`
  unfoldable pub extend : BTreeSet A → List A → BTreeSet A
  extend s [] = s
  extend s (x ∷ xs) = extend (insert s x) xs

  pub contains-insert :
      (s : BTreeSet A) (a b : A) → contains (insert s a) b ≡ ((a =? b) || contains s b)
  unfolding insert contains
  contains-insert [] a b = refl
  contains-insert (x ∷ s) a b =
      ground (arith, contains-insert s a b, e.beq_iff x a, e.beq_iff x b, e.beq_iff a b)

  pub contains-extend :
      (xs : List A) (s : BTreeSet A) (b : A)
      → contains (extend s xs) b ≡ (contains s b || contains xs b)
  unfolding extend contains
  contains-extend [] s b = ground arith
  contains-extend (x ∷ xs) s b =
      ground (arith, contains-extend xs (insert s x) b, contains-insert s x b)

  pub length-insert-le : (s : BTreeSet A) (a : A) → length s ≤ length (insert s a)
  unfolding insert
  length-insert-le [] a = omega arith
  length-insert-le (x ∷ s) a = ground (arith, length-insert-le s a)
