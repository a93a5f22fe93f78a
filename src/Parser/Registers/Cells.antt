-- ===== src/Parser/Registers/Cells.antt =====
-- One register seen alone: its entry now, and what each group has saved of it, innermost first.
-- `shown` lists the values that it has now and after each of the pending ends of groups.
use ferritex.Prelude.{
  ◌≡◌, refl, ap, ap₂, ◌∙◌, Bool, true, false, Option, none, some, List, [], ◌∷◌, map, arith,
  unwrap_or, Eq,
}
use ferritex.Prelude.HashMap.{HashMap, get, get-insert, get-remove}
use ferritex.Parser.Registers.{restore_register, restore_all}

abbrev pub Saved {ℓ} : Type ℓ → Type ℓ
Saved V = List (Option (Option V))

module _ {ℓ} {V : Type ℓ} where
  -- The abstract scopes: what each operation means for the values of one register.
  abbrev pub enter : List V → List V
  enter [] = []
  enter (v ∷ vs) = v ∷ v ∷ vs

  abbrev pub leave : List V → List V
  leave [] = []
  leave (v ∷ []) = v ∷ []
  leave (v ∷ w ∷ vs) = w ∷ vs

  abbrev pub assign : Bool → V → List V → List V
  assign true v ws = map (λ _. v) ws
  assign false v [] = []
  assign false v (w ∷ ws) = v ∷ ws

  unfoldable pub shown : V → Option V → Saved V → List V
  shown d c [] = unwrap_or c d ∷ []
  shown d c (o ∷ os) = unwrap_or c d ∷ shown d (unwrap_or o c) os

  pub shown-leave :
      (d : V) (c : Option V) (o : Option (Option V)) (os : Saved V)
      → shown d (unwrap_or o c) os ≡ leave (shown d c (o ∷ os))
  unfolding shown
  shown-leave d c o [] = refl
  shown-leave d c o (p ∷ os) = refl

  pub shown-enter :
      (d : V) (c : Option V) (os : Saved V) → shown d c (none ∷ os) ≡ enter (shown d c os)
  unfolding shown
  shown-enter d c [] = refl
  shown-enter d c (p ∷ os) = refl

  pub shown-global :
      (d v : V) (c c' : Option V) (os : Saved V)
      → unwrap_or c' d ≡ v
      → shown d c' (map (λ _. none) os) ≡ assign true v (shown d c os)
  unfolding shown
  shown-global d v c c' [] h = ap (λ x. x ∷ []) h
  shown-global d v c c' (o ∷ os) h = ap₂ ◌∷◌ h (shown-global d v (unwrap_or o c) c' os h)

  -- What a local assignment leaves in the innermost save.
  abbrev pub keep_first : Option V → Saved V → Saved V
  keep_first c [] = []
  keep_first c (none ∷ os) = some c ∷ os
  keep_first c (some p ∷ os) = some p ∷ os

  pub shown-local :
      (d v : V) (c c' : Option V) (os : Saved V)
      → unwrap_or c' d ≡ v
      → shown d c' (keep_first c os) ≡ assign false v (shown d c os)
  unfolding shown
  shown-local d v c c' [] h = ap (λ x. x ∷ []) h
  shown-local d v c c' (none ∷ os) h = ap (λ x. x ∷ shown d c os) h
  shown-local d v c c' (some p ∷ os) h = ap (λ x. x ∷ shown d p os) h

module _ {ℓ κ} {K : Type ℓ} {V : Type κ} ⦃e : Eq K⦄ where
  pub get-restore_all :
      (g : HashMap K (Option V)) (m : HashMap K V) (k : K)
      → get (restore_all g m) k ≡ unwrap_or (get g k) (get m k)
  unfolding get restore_all restore_register
  get-restore_all [] m k = refl
  get-restore_all ((j, none) ∷ g) m k =
      get-remove (restore_all g m) j k ∙ ground (arith, get-restore_all g m k)
  get-restore_all ((j, some v) ∷ g) m k =
      get-insert (restore_all g m) j v k ∙ ground (arith, get-restore_all g m k)
