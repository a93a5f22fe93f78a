-- ===== src/Prelude/HashMap.antt =====
-- `std::collections::HashMap` (and `BTreeMap`) as an association list. Where the program iterates
-- over a map it does not rely on the order, or sorts.
use mathlib.Core.Path.{◌≡◌, refl, sym, ap, ◌∙◌}
use mathlib.Core.Logic.{◌⊎◌, inl, inr}
use mathlib.Core.Option.{Option, none, some}
use mathlib.Core.List.{List, [], ◌∷◌}
use mathlib.Core.Bool.{false}
use native.Mathlib.Omega.{arith}
use ferritex.Prelude.Tests.{if◌then◌else◌, Bool-cases}
use ferritex.Prelude.Equality.{Eq, ◌=?◌, eq_of_=?}

abbrev pub HashMap {ℓ κ} : Type ℓ → Type κ → Type (ℓ ⊔ κ)
HashMap K V = List (K × V)

abbrev pub map_option {ℓ} : {V : Type ℓ} → (V → V) → Option V → Option V
map_option f none = none
map_option f (some v) = some (f v)

some_inj {ℓ} : {V : Type ℓ} (v w : V) → some v ≡ some w → v ≡ w
some_inj v w p = cc

module _ {ℓ κ} {K : Type ℓ} {V : Type κ} ⦃e : Eq K⦄ where
  unfoldable pub get : HashMap K V → K → Option V
  get [] k = none
  get ((j, v) ∷ m) k = if j =? k then some v else get m k

  unfoldable pub insert : HashMap K V → K → V → HashMap K V
  insert [] k v = (k, v) ∷ []
  insert ((j, w) ∷ m) k v = if j =? k then (k, v) ∷ m else (j, w) ∷ insert m k v

  unfoldable pub remove : HashMap K V → K → HashMap K V
  remove [] k = []
  remove ((j, w) ∷ m) k = let rest = remove m k in if j =? k then rest else (j, w) ∷ rest

  pub get-insert :
      (m : HashMap K V) (k : K) (v : V) (j : K)
      → get (insert m k v) j ≡ (if k =? j then some v else get m j)
  unfolding get insert
  get-insert [] k v j = refl
  get-insert ((i, w) ∷ m) k v j =
      ground (arith, e.beq_iff i k, e.beq_iff i j, e.beq_iff k j, get-insert m k v j)

  pub get-remove :
      (m : HashMap K V) (k j : K) → get (remove m k) j ≡ (if k =? j then none else get m j)
  unfolding get remove
  get-remove [] k j = ground arith
  get-remove ((i, w) ∷ m) k j =
      ground (arith, e.beq_iff i k, e.beq_iff i j, e.beq_iff k j, get-remove m k j)

  -- `entry(k).or_insert_with(|| v)`
  unfoldable pub or_insert : HashMap K V → K → V → HashMap K V
  or_insert m k v = elim (get m k) [ none ↦ insert m k v | some w ↦ m ]

  pub get-or_insert :
      (m : HashMap K V) (k : K) (v : V) (j : K)
      → get (or_insert m k v) j
        ≡ (if k =? j then elim (get m k) [ none ↦ some v | some w ↦ some w ] else get m j)
  unfolding or_insert
  get-or_insert m k v j = ground (arith, get-insert m k v j, e.beq_iff k j)

  -- An update through `get_mut`, where there is a value.
  unfoldable pub modify : HashMap K V → K → (V → V) → HashMap K V
  modify m k f = elim (get m k) [ none ↦ m | some v ↦ insert m k (f v) ]

  modify_cases :
      (m : HashMap K V) (k : K) (f : V → V) (j : K) (o : Option V)
      → get m k ≡ o
      → get (elim o [ none ↦ m | some v ↦ insert m k (f v) ]) j
        ≡ (if k =? j then map_option f (get m j) else get m j)
  modify_cases m k f j none p = elim (Bool-cases (k =? j)) [
    | inl t ↦
        let same : get m j ≡ none = ap (get m) (sym (eq_of_=? t)) ∙ p in
        rw t (same ∙ ap (map_option f) (sym same))
    | inr n ↦ rw n
  ]
  modify_cases m k f j (some v) p = elim (Bool-cases (k =? j)) [
    | inl t ↦
        let same : get m j ≡ some v = ap (get m) (sym (eq_of_=? t)) ∙ p in
        get-insert m k (f v) j ∙ rw t (ap (map_option f) (sym same))
    | inr n ↦ get-insert m k (f v) j ∙ rw n
  ]

  pub get-modify :
      (m : HashMap K V) (k : K) (f : V → V) (j : K)
      → get (modify m k f) j ≡ (if k =? j then map_option f (get m j) else get m j)
  unfolding modify
  get-modify m k f j = modify_cases m k f j (get m k) refl

  -- What a value that is found says of the map before the operation.
  pub insert_inv :
      (m : HashMap K V) (k : K) (v : V) (j : K) (w : V)
      → get (insert m k v) j ≡ some w
      → ((k ≡ j) × (v ≡ w)) ⊎ (((k =? j) ≡ false) × (get m j ≡ some w))
  insert_inv m k v j w h = elim (Bool-cases (k =? j)) [
    | inl t ↦ inl (eq_of_=? t, some_inj v w (sym (get-insert m k v j ∙ rw t refl) ∙ h))
    | inr n ↦ inr (n, sym (get-insert m k v j ∙ rw n refl) ∙ h)
  ]

  pub remove_inv :
      (m : HashMap K V) (k j : K) (w : V)
      → get (remove m k) j ≡ some w
      → ((k =? j) ≡ false) × (get m j ≡ some w)
  remove_inv m k j w h = elim (Bool-cases (k =? j)) [
    | inl t ↦ absurd (empty (sym (get-remove m k j ∙ rw t refl) ∙ h))
    | inr n ↦ (n, sym (get-remove m k j ∙ rw n refl) ∙ h)
  ]
    where
      empty : none ≡ some w → ⊥
      empty p = cc

  pub modify_inv :
      (m : HashMap K V) (k : K) (f : V → V) (j : K) (w : V)
      → get (modify m k f) j ≡ some w
      → (v : V) × (get m j ≡ some v) × ((f v ≡ w) ⊎ (v ≡ w))
  modify_inv m k f j w h = elim (Bool-cases (k =? j)) [
    | inl t ↦ mapped (get m j) refl (sym (get-modify m k f j ∙ rw t refl) ∙ h)
    | inr n ↦ (w, sym (get-modify m k f j ∙ rw n refl) ∙ h, inr refl)
  ]
    where
      mapped :
          (o : Option V)
          → get m j ≡ o
          → map_option f o ≡ some w
          → (v : V) × (get m j ≡ some v) × ((f v ≡ w) ⊎ (v ≡ w))
      mapped none p q = absurd (cc)
      mapped (some v) p q = (v, p, inl (some_inj (f v) w q))
