-- ===== src/Prelude/Sorting.antt =====
-- `sort_by` with a key, a stable sort, and what determines its result.
use mathlib.Core.Path.{◌≡◌, refl, sym, ap, ap₂, ◌∙◌}
use mathlib.Core.Bool.{Bool, true, false}
use mathlib.Core.List.{List, [], ◌∷◌, cons≢nil}
use mathlib.Core.Logic.{inl, inr}
use native.Mathlib.Omega.{arith}
use ferritex.Prelude.Tests.{if◌then◌else◌, Bool-cases}
use ferritex.Prelude.Equality.{Eq, ◌=?◌, =?_refl}
use ferritex.Prelude.Order.{Ord, ◌<?◌, lt_asym, not_lt_trans}

module _ {ℓ κ} {A : Type ℓ} {K : Type κ} ⦃e : Eq K⦄ ⦃o : Ord K⦄ where
  unfoldable pub insert_by : (A → K) → A → List A → List A
  insert_by key x [] = x ∷ []
  insert_by key x (y ∷ ys) =
      let rest = insert_by key x ys in if key y <? key x then y ∷ rest else x ∷ y ∷ ys

  unfoldable pub sort_by : (A → K) → List A → List A
  sort_by key [] = []
  sort_by key (x ∷ xs) = insert_by key x (sort_by key xs)

  -- No key in the list is under `k`.
  abbrev AtLeast : (A → K) → K → List A → Type 0
  AtLeast key k [] = Unit
  AtLeast key k (x ∷ xs) = ((key x <? k) ≡ false) × AtLeast key k xs

  abbrev pub IsSortedBy : (A → K) → List A → Type 0
  IsSortedBy key [] = Unit
  IsSortedBy key (x ∷ xs) = AtLeast key (key x) xs × IsSortedBy key xs

  -- The elements with key `k`, in their order.
  unfoldable pub of_key : (A → K) → K → List A → List A
  of_key key k [] = []
  of_key key k (x ∷ xs) = let rest = of_key key k xs in if key x =? k then x ∷ rest else rest

  insert_by-AtLeast :
      (key : A → K) (k : K) (x : A) (xs : List A)
      → (key x <? k) ≡ false
      → AtLeast key k xs
      → AtLeast key k (insert_by key x xs)
  unfolding insert_by
  insert_by-AtLeast key k x [] h b = (h, tt)
  insert_by-AtLeast key k x (y ∷ ys) h b = elim (Bool-cases (key y <? key x)) [
    | inl t ↦ rw t (b.0, insert_by-AtLeast key k x ys h b.1)
    | inr f ↦ rw f (h, b)
  ]

  weaken_AtLeast :
      (key : A → K) (j k : K) (xs : List A) → (k <? j) ≡ false → AtLeast key k xs → AtLeast key j xs
  weaken_AtLeast key j k [] h b = tt
  weaken_AtLeast key j k (x ∷ xs) h b =
      (not_lt_trans j k (key x) h b.0, weaken_AtLeast key j k xs h b.1)

  insert_by-IsSortedBy :
      (key : A → K) (x : A) (xs : List A) → IsSortedBy key xs → IsSortedBy key (insert_by key x xs)
  unfolding insert_by
  insert_by-IsSortedBy key x [] s = (tt, tt)
  insert_by-IsSortedBy key x (y ∷ ys) s = elim (Bool-cases (key y <? key x)) [
    | inl t ↦ rw t (
      insert_by-AtLeast key (key y) x ys (lt_asym (key y) (key x) t) s.0,
      insert_by-IsSortedBy key x ys s.1,
    )
    | inr f ↦ rw f ((f, weaken_AtLeast key (key x) (key y) ys f s.0), s)
  ]

  pub sort_by-IsSortedBy : (key : A → K) (xs : List A) → IsSortedBy key (sort_by key xs)
  unfolding sort_by
  sort_by-IsSortedBy key [] = tt
  sort_by-IsSortedBy key (x ∷ xs) =
      insert_by-IsSortedBy key x (sort_by key xs) (sort_by-IsSortedBy key xs)

  of_key-insert_by :
      (key : A → K) (k : K) (x : A) (xs : List A)
      → of_key key k (insert_by key x xs) ≡ of_key key k (x ∷ xs)
  unfolding insert_by of_key
  of_key-insert_by key k x [] = refl
  of_key-insert_by key k x (y ∷ ys) =
      ground (
        arith,
        of_key-insert_by key k x ys,
        e.beq_iff (key x) k,
        e.beq_iff (key y) k,
        o.lt_irrefl k,
      )

  -- Sorting is stable: the elements of one key keep their order.
  pub of_key-sort_by :
      (key : A → K) (k : K) (xs : List A) → of_key key k (sort_by key xs) ≡ of_key key k xs
  unfolding sort_by of_key
  of_key-sort_by key k [] = refl
  of_key-sort_by key k (x ∷ xs) =
      of_key-insert_by key k x (sort_by key xs)
      ∙ ap (λ ys. if key x =? k then x ∷ ys else ys) (of_key-sort_by key k xs)

  of_key-AtLeast :
      (key : A → K) (j k : K) (xs : List A)
      → (j <? k) ≡ true
      → AtLeast key k xs
      → of_key key j xs ≡ []
  unfolding of_key
  of_key-AtLeast key j k [] h b = refl
  of_key-AtLeast key j k (x ∷ xs) h b =
      ground (arith, of_key-AtLeast key j k xs h b.1, e.beq_iff (key x) j, h, b.0)

  of_key_head :
      (key : A → K) (x : A) (xs : List A) → of_key key (key x) (x ∷ xs) ≡ x ∷ of_key key (key x) xs
  unfolding of_key
  of_key_head key x xs = rw (=?_refl (key x)) refl

  -- A sorted list whose first key is over `j` has no element of key `j`.
  of_key_over :
      (key : A → K) (j : K) (y : A) (ys : List A)
      → (j <? key y) ≡ true
      → AtLeast key (key y) ys
      → of_key key j (y ∷ ys) ≡ []
  unfolding of_key
  of_key_over key j y ys h b =
      ground (arith, of_key-AtLeast key j (key y) ys h b, e.beq_iff (key y) j, o.lt_irrefl j)

  heads_agree :
      (key : A → K) (x y : A) (xs ys : List A)
      → IsSortedBy key (x ∷ xs)
      → IsSortedBy key (y ∷ ys)
      → ((k : K) → of_key key k (x ∷ xs) ≡ of_key key k (y ∷ ys))
      → key x ≡ key y
  heads_agree key x y xs ys s t h =
      o.lt_connex (key x) (key y) (not_before (key x <? key y) refl)
        (not_after (key y <? key x) refl)
    where
      not_before : (b : Bool) → (key x <? key y) ≡ b → b ≡ false
      not_before false p = refl
      not_before true p =
          absurd
            (cons≢nil (sym (of_key_head key x xs) ∙ h (key x) ∙ of_key_over key (key x) y ys p t.0))

      not_after : (b : Bool) → (key y <? key x) ≡ b → b ≡ false
      not_after false p = refl
      not_after true p = absurd (
          cons≢nil
            (sym (of_key_head key y ys) ∙ sym (h (key y)) ∙ of_key_over key (key y) x xs p s.0))

  tails_agree :
      (key : A → K) (x : A) (xs ys : List A) (k : K)
      → of_key key k (x ∷ xs) ≡ of_key key k (x ∷ ys)
      → of_key key k xs ≡ of_key key k ys
  unfolding of_key
  tails_agree key x xs ys k h = ground (arith, h)

  -- A sorted list is determined by its elements of each key.
  pub sorted_unique :
      (key : A → K) (xs ys : List A)
      → IsSortedBy key xs
      → IsSortedBy key ys
      → ((k : K) → of_key key k xs ≡ of_key key k ys)
      → xs ≡ ys
  unfolding of_key
  sorted_unique key [] [] s t h = refl
  sorted_unique key [] (y ∷ ys) s t h =
      absurd (cons≢nil (sym (of_key_head key y ys) ∙ sym (h (key y))))
  sorted_unique key (x ∷ xs) [] s t h = absurd (cons≢nil (sym (of_key_head key x xs) ∙ h (key x)))
  sorted_unique key (x ∷ xs) (y ∷ ys) s t h =
      let same = heads_agree key x y xs ys s t h in
      let heads =
        sym (of_key_head key x xs)
        ∙ h (key x)
        ∙ ap (λ k. of_key key k (y ∷ ys)) same
        ∙ of_key_head key y ys in
      let head = first heads in
      ap₂ (λ (a : A) rest. a ∷ rest) head
        (sorted_unique key xs ys s.1 t.1
          (λ k. tails_agree key x xs ys k (h k ∙ ap (λ (a : A). of_key key k (a ∷ ys)) (sym head))))
    where
      first : {a b : A} {us vs : List A} → a ∷ us ≡ b ∷ vs → a ≡ b
      first p = cc
