-- ===== src/Parser/MacroEngine/Catcodes.antt =====
-- The category code overrides of the innermost scope, as a sorted list.
use ferritex.Prelude.{
  ℕ, ◌≤◌, ◌≡◌, refl, ap, ◌∙◌, sym, Option, none, some, List, [], ◌∷◌, arith, ltb, ◌==◌, Bool-cases,
  inl, inr, if◌then◌else◌, nat_eq,
}
use ferritex.Prelude.HashMap
use ferritex.Prelude.HashMap.{HashMap}
use ferritex.Parser.Token.{CatCode}
use ferritex.Parser.MacroEngine.{
  MacroEngine, on_last, last, insert_by_key, sort_by_key, overrides, set_catcode,
  get_catcode_overrides,
}

abbrev Bounds : ℕ → List (ℕ × CatCode) → Type 0
Bounds k [] = Unit
Bounds k (x ∷ xs) = (k ≤ x.0) × Bounds k xs

-- Keys in ascending order.
abbrev pub IsSorted : List (ℕ × CatCode) → Type 0
IsSorted [] = Unit
IsSorted (x ∷ xs) = Bounds x.0 xs × IsSorted xs

insert-Bounds :
    (k : ℕ) (x : ℕ × CatCode) (xs : List (ℕ × CatCode))
    → k ≤ x.0
    → Bounds k xs
    → Bounds k (insert_by_key x xs)
unfolding insert_by_key
insert-Bounds k x [] h b = (h, tt)
insert-Bounds k x (y ∷ ys) h b = elim (Bool-cases (ltb y.0 x.0)) [
  | inl t ↦ rw t (b.0, insert-Bounds k x ys h b.1)
  | inr f ↦ rw f (h, b)
]

weaken-Bounds : (j k : ℕ) (xs : List (ℕ × CatCode)) → j ≤ k → Bounds k xs → Bounds j xs
weaken-Bounds j k [] h b = tt
weaken-Bounds j k (x ∷ xs) h b = (omega (arith, b.0), weaken-Bounds j k xs h b.1)

insert-IsSorted :
    (x : ℕ × CatCode) (xs : List (ℕ × CatCode)) → IsSorted xs → IsSorted (insert_by_key x xs)
unfolding insert_by_key
insert-IsSorted x [] s = (tt, tt)
insert-IsSorted x (y ∷ ys) s = elim (Bool-cases (ltb y.0 x.0)) [
  | inl t ↦ rw t (insert-Bounds y.0 x ys (ground arith) s.0, insert-IsSorted x ys s.1)
  | inr f ↦ rw f ((ground arith, weaken-Bounds x.0 y.0 ys (ground arith) s.0), s)
]

sort-IsSorted : (xs : List (ℕ × CatCode)) → IsSorted (sort_by_key xs)
unfolding sort_by_key
sort-IsSorted [] = tt
sort-IsSorted (x ∷ xs) = insert-IsSorted x (sort_by_key xs) (sort-IsSorted xs)

get-insert_by_key :
    (x : ℕ × CatCode) (xs : List (ℕ × CatCode)) (k : ℕ)
    → HashMap.get (insert_by_key x xs) k ≡ HashMap.get (x ∷ xs) k
unfolding insert_by_key HashMap.get
get-insert_by_key x [] k = refl
get-insert_by_key x (y ∷ ys) k = ground (arith, get-insert_by_key x ys k)

get-sort_by_key : (m : List (ℕ × CatCode)) (k : ℕ) → HashMap.get (sort_by_key m) k ≡ HashMap.get m k
unfolding sort_by_key HashMap.get
get-sort_by_key [] k = refl
get-sort_by_key (x ∷ xs) k =
    get-insert_by_key x (sort_by_key xs) k ∙ ground (arith, get-sort_by_key xs k)

abbrev look_override : Option (List (ℕ × CatCode)) → ℕ → Option CatCode
look_override none k = none
look_override (some m) k = HashMap.get m k

abbrev pub Holds {ℓ} : {A : Type ℓ} → (A → Type 0) → Option A → Type 0
Holds P none = ⊥
Holds P (some a) = P a

-- Setting a code in an engine that has a scope succeeds, and the list of overrides afterwards is in
-- ascending order, maps the character to that code, and every other character as before.
pub set-get_catcode :
    (e : MacroEngine) (m : HashMap ℕ CatCode) (ms : List (HashMap ℕ CatCode)) (c : ℕ)
    (cat : CatCode)
    → e.catcode_stack ≡ m ∷ ms
    → (e' : MacroEngine) × (after : List (ℕ × CatCode)) × (before : List (ℕ × CatCode))
      × (set_catcode e c cat ≡ some e')
      × (get_catcode_overrides e' ≡ some after)
      × (get_catcode_overrides e ≡ some before)
      × IsSorted after
      × ((k : ℕ) → HashMap.get after k ≡ (if c == k then some cat else HashMap.get before k))
unfolding set_catcode get_catcode_overrides
set-get_catcode e m ms c cat h = (
  record e { catcode_stack = HashMap.insert m c cat ∷ ms },
  sort_by_key (HashMap.insert m c cat),
  sort_by_key m,
  ap
      (λ ss. elim (on_last (λ s. HashMap.insert s c cat) ss) [
        | none ↦ none
        | some ts ↦ some (record e { catcode_stack = ts })
      ])
      h,
  refl,
  ap (λ ss. overrides (last ss)) h,
  sort-IsSorted (HashMap.insert m c cat),
  λ k.
      get-sort_by_key (HashMap.insert m c cat) k
      ∙ HashMap.get-insert m c cat k
      ∙ ap (λ o. if c == k then some cat else o) (sym (get-sort_by_key m k)),
)
