-- ===== src/Prelude/Decimal.antt =====
-- The decimal digits that `Display` prints for an unsigned integer.
use Prim.Native.Nat.{ℕ, zero, suc, ◌+◌, ◌-◌, ◌*◌, ◌/◌, ◌%◌, ◌<◌}
use mathlib.Core.Path.{◌≡◌, refl, sym, ap, ◌∙◌}
use mathlib.Core.List.{List, [], ◌∷◌, ◌++◌}
use mathlib.Core.Logic.{inl, inr}
use native.Mathlib.Omega.{arith}
use ferritex.Prelude.Lists.{length}
use ferritex.Prelude.Tests.{ltb, ltb→lt, ◌==◌, if◌then◌else◌, Bool-cases}

-- The digits of `n` in front of those given; each round takes one off.
unfoldable pub digits_before : ℕ → ℕ → List ℕ → List ℕ
digits_before zero n digits = digits
digits_before (suc fuel) n digits =
    let more = digits_before fuel (n / 10) ((48 + n % 10) ∷ digits) in
    if ltb n 10 then (48 + n) ∷ digits else more

-- No number has more digits than itself and one.
abbrev pub display : ℕ → List ℕ
unfolding digits_before
display n = digits_before (suc n) n []

-- What a text of digits stands for, behind `v`.
value : ℕ → List ℕ → ℕ
value v [] = v
value v (d ∷ ds) = value (10 * v + (d - 48)) ds

value-digits_before :
    (fuel n : ℕ) (digits : List ℕ)
    → n < fuel
    → value 0 (digits_before fuel n digits) ≡ value n digits
unfolding value digits_before
value-digits_before zero n digits h = absurd (omega arith)
value-digits_before (suc fuel) n digits h = elim (Bool-cases (ltb n 10)) [
  | inl one ↦ rw one (ap (λ m. value m digits) (omega arith))
  | inr more ↦ rw more (
      value-digits_before fuel (n / 10) ((48 + n % 10) ∷ digits) (ground arith)
      ∙ ap (λ m. value m digits) (omega arith))
]

pub display_inj : (m n : ℕ) → display m ≡ display n → m ≡ n
unfolding value digits_before
display_inj m n h =
    sym (value-digits_before (suc m) m [] (omega arith))
    ∙ ap (value 0) h
    ∙ value-digits_before (suc n) n [] (omega arith)

abbrev zeros : ℕ → List ℕ → List ℕ
zeros zero digits = digits
zeros (suc n) digits = 48 ∷ zeros n digits

-- `{:0w}`: zeros in front up to a width.
abbrev pub padded : ℕ → ℕ → List ℕ
unfolding digits_before
padded w n = zeros (w - length (display n)) (display n)

-- What the digits in front of a colon stand for, behind `v`.
read : ℕ → List ℕ → ℕ
read v [] = v
read v (d ∷ ds) = let more = read (10 * v + (d - 48)) ds in if d == 58 then v else more

digits_before-append :
    (fuel n : ℕ) (digits rest : List ℕ)
    → digits_before fuel n digits ++ rest ≡ digits_before fuel n (digits ++ rest)
unfolding digits_before
digits_before-append zero n digits rest = refl
digits_before-append (suc fuel) n digits rest = elim (Bool-cases (ltb n 10)) [
  | inl one ↦ rw one refl
  | inr more ↦ rw more (digits_before-append fuel (n / 10) ((48 + n % 10) ∷ digits) rest)
]

read_digit : (v d : ℕ) (ds : List ℕ) → d < 10 → read v ((48 + d) ∷ ds) ≡ read (10 * v + d) ds
unfolding read
read_digit v d ds h = ground arith

read-digits_before :
    (fuel n : ℕ) (digits : List ℕ) → n < fuel → read 0 (digits_before fuel n digits) ≡ read n digits
unfolding digits_before
read-digits_before zero n digits h = absurd (omega arith)
read-digits_before (suc fuel) n digits h = elim (Bool-cases (ltb n 10)) [
  | inl one ↦
      rw one (read_digit 0 n digits (ltb→lt n 10 one) ∙ ap (λ m. read m digits) (omega arith))
  | inr more ↦ rw more (
      read-digits_before fuel (n / 10) ((48 + n % 10) ∷ digits) (ground arith)
      ∙ read_digit (n / 10) (n % 10) digits (omega arith)
      ∙ ap (λ m. read m digits) (omega arith))
]

read-zeros : (k : ℕ) (ds rest : List ℕ) → read 0 (zeros k ds ++ rest) ≡ read 0 (ds ++ rest)
read-zeros zero ds rest = refl
read-zeros (suc k) ds rest =
    read_digit 0 0 (zeros k ds ++ rest) (omega arith) ∙ read-zeros k ds rest

read_colon : (n : ℕ) (rest : List ℕ) → read n (58 ∷ rest) ≡ n
unfolding read
read_colon n rest = refl

read-padded : (w n : ℕ) (rest : List ℕ) → read 0 (padded w n ++ 58 ∷ rest) ≡ n
unfolding digits_before
read-padded w n rest =
    read-zeros (w - length (display n)) (display n) (58 ∷ rest)
    ∙ ap (read 0) (digits_before-append (suc n) n [] (58 ∷ rest))
    ∙ read-digits_before (suc n) n (58 ∷ rest) (omega arith)
    ∙ read_colon n rest

pub padded_inj :
    (w m n : ℕ) (xs ys : List ℕ) → padded w m ++ 58 ∷ xs ≡ padded w n ++ 58 ∷ ys → m ≡ n
unfolding digits_before
padded_inj w m n xs ys h = sym (read-padded w m xs) ∙ ap (read 0) h ∙ read-padded w n ys
