-- ===== src/Prelude/Elements.antt =====
-- Elements of lists by their index, and small facts on tests.
use mathlib.Core.List.{Memᴰ}
use ferritex.Prelude.{
  ℕ, zero, suc, ◌+◌, ◌<◌, ◌≡◌, ◌⊎◌, inl, inr, refl, sym, ap, Bool, true, false, ◌&&◌, ◌||◌, none,
  some, List, [], ◌∷◌, ◌++◌, length, get_elem?, drop, leb, arith,
}

pub some_inj : {A : Type 0} (a b : A) → some a ≡ some b → a ≡ b
some_inj a b h = cc

pub no_some : {A : Type 0} (a : A) → some none ≡ some (some a) → ⊥
no_some a h = absurd (cc)

pub drop-get :
    {A : Type 0} (n : ℕ) (xs : List A) (x : A) (ys : List A)
    → drop n xs ≡ x ∷ ys
    → get_elem? xs n ≡ some x
drop-get zero [] x ys d = absurd (cc)
drop-get zero (y ∷ xs) x ys d = cc
drop-get (suc n) [] x ys d = absurd (cc)
drop-get (suc n) (y ∷ xs) x ys d = drop-get n xs x ys d

pub drop-suc :
    {A : Type 0} (n : ℕ) (xs : List A) (x : A) (ys : List A)
    → drop n xs ≡ x ∷ ys
    → drop (suc n) xs ≡ ys
drop-suc zero [] x ys d = absurd (cc)
drop-suc zero (y ∷ xs) x ys d = cc
drop-suc (suc n) [] x ys d = absurd (cc)
drop-suc (suc n) (y ∷ xs) x ys d = drop-suc n xs x ys d

pub get-append :
    {A : Type 0} (xs ys : List A) (i : ℕ) → i < length xs → get_elem? (xs ++ ys) i ≡ get_elem? xs i
get-append [] ys i h = absurd (omega arith)
get-append (x ∷ xs) ys zero h = refl
get-append (x ∷ xs) ys (suc i) h = get-append xs ys i (omega (arith, h))

-- An entry of a list with one more is one of the list or the last.
pub get_snoc :
    {A : Type 0} (xs : List A) (x y : A) (i : ℕ)
    → get_elem? (xs ++ x ∷ []) i ≡ some y
    → ((i < length xs) × (get_elem? xs i ≡ some y)) ⊎ ((i ≡ length xs) × (y ≡ x))
get_snoc [] x y zero h = inr (refl, sym (some_inj _ _ h))
get_snoc [] x y (suc i) h = absurd (cc)
get_snoc (z ∷ xs) x y zero h = inl (omega arith, h)
get_snoc (z ∷ xs) x y (suc i) h = elim (get_snoc xs x y i h) [
  | inl (k, g) ↦ inl (omega (arith, k), g)
  | inr (k, g) ↦ inr (ap suc k, g)
]

pub get_lt : {A : Type 0} (xs : List A) (i : ℕ) (x : A) → get_elem? xs i ≡ some x → i < length xs
get_lt [] i x g = absurd (cc)
get_lt (y ∷ ys) zero x g = omega arith
get_lt (y ∷ ys) (suc i) x g = omega (arith, get_lt ys i x g)

pub elem_at :
    {A : Type 0} (xs : List A) (i : ℕ) → i < length xs → (x : A) × (get_elem? xs i ≡ some x)
elem_at [] i h = absurd (omega arith)
elem_at (x ∷ xs) zero h = (x, refl)
elem_at (x ∷ xs) (suc i) h = elem_at xs i (omega (arith, h))

pub last_elem :
    {A : Type 0} (x : A) (xs : List A) → (y : A) × (get_elem? (x ∷ xs) (length xs) ≡ some y)
last_elem x [] = (x, refl)
last_elem x (y ∷ xs) = last_elem y xs

pub mem_at : {A : Type 0} (xs : List A) (i : ℕ) (x : A) → get_elem? xs i ≡ some x → Memᴰ x xs
mem_at [] i x g = absurd (cc)
mem_at (y ∷ xs) zero x g = Memᴰ.head (sym (some_inj _ _ g))
mem_at (y ∷ xs) (suc i) x g = Memᴰ.tail (mem_at xs i x g)

pub and_true : (a b : Bool) → (a && b) ≡ true → (a ≡ true) × (b ≡ true)
and_true true true h = (refl, refl)
and_true true false h = absurd (cc)
and_true false b h = absurd (cc)

pub leb-false : (a b : ℕ) → leb a b ≡ false → b < a
leb-false a b h = ground arith

pub lt_suc : (i j : ℕ) → i < suc j → (i < j) ⊎ (i ≡ j)
lt_suc i j h = ground arith

pub or_true : (b : Bool) → (b || true) ≡ true
or_true true = refl
or_true false = refl

pub suc_add : (n : ℕ) → suc n ≡ n + 1
suc_add n = omega arith

pub false-true : false ≡ true → ⊥
false-true h = cc
