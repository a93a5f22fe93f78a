-- ===== src/Parser/Token.antt =====
-- The data types of crates/ferritex-core/src/parser/tokenizer.rs that the parser's parts share, with
-- the equality that they derive. A `char` is its code point, a `String` the list of those.
use ferritex.Prelude.{
  ℕ, ◌≡◌, refl, sym, ap, ◌∙◌, ◌↔◌, Bool, true, false, ◌&&◌, arith, Str, Eq, ◌=?◌, ◌==◌, ==_iff,
  nat_eq, list_eq, list_beq_iff, if◌then◌else◌,
}

pub data CatCode : Type 0 where
  escape begin_group end_group math_shift alignment_tab end_of_line parameter superscript : CatCode
  subscript ignored space letter other active comment invalid : CatCode

-- the discriminants of `#[repr(u8)]`
abbrev pub cat_number : CatCode → ℕ
cat_number escape = 0
cat_number begin_group = 1
cat_number end_group = 2
cat_number math_shift = 3
cat_number alignment_tab = 4
cat_number end_of_line = 5
cat_number parameter = 6
cat_number superscript = 7
cat_number subscript = 8
cat_number ignored = 9
cat_number space = 10
cat_number letter = 11
cat_number other = 12
cat_number active = 13
cat_number comment = 14
cat_number invalid = 15

abbrev cat_of : ℕ → CatCode
cat_of n =
    if n == 0
    then escape
    else if n == 1
    then begin_group
    else if n == 2
    then end_group
    else if n == 3
    then math_shift
    else if n == 4
    then alignment_tab
    else if n == 5
    then end_of_line
    else if n == 6
    then parameter
    else if n == 7
    then superscript
    else if n == 8
    then subscript
    else if n == 9
    then ignored
    else if n == 10
    then space
    else if n == 11
    then letter
    else if n == 12
    then other
    else if n == 13
    then active
    else if n == 14
    then comment
    else invalid

cat_of-cat_number : (c : CatCode) → cat_of (cat_number c) ≡ c
cat_of-cat_number escape = refl
cat_of-cat_number _ = refl

abbrev pub cat_beq : CatCode → CatCode → Bool
cat_beq a b = cat_number a == cat_number b

pub cat_beq_iff : (a b : CatCode) → (cat_beq a b ≡ true) ↔ (a ≡ b)
cat_beq_iff a b = (
  λ h. sym (cat_of-cat_number a) ∙ ap cat_of ((==_iff _ _).0 h) ∙ cat_of-cat_number b,
  λ h. (==_iff _ _).1 (ap cat_number h),
)

instance abbrev pub cat_eq : Eq CatCode
cat_eq = record { beq = cat_beq; beq_iff = cat_beq_iff }

pub data TokenKind : Type 0 where
  control_word : Str → TokenKind
  control_symbol : ℕ → TokenKind
  char_token : ℕ → CatCode → TokenKind
  parameter_token : ℕ → TokenKind

abbrev pub kind_beq : TokenKind → TokenKind → Bool
kind_beq (control_word a) (control_word b) = a =? b
kind_beq (control_symbol a) (control_symbol b) = a == b
kind_beq (char_token a c) (char_token b d) = (a == b) && (c =? d)
kind_beq (parameter_token a) (parameter_token b) = a == b
kind_beq _ _ = false

pub kind_beq_iff : (a b : TokenKind) → (kind_beq a b ≡ true) ↔ (a ≡ b)
kind_beq_iff (control_word a) (control_word b) = ground (arith, list_beq_iff a b)
kind_beq_iff (char_token a c) (char_token b d) = ground (arith, cat_beq_iff c d)
kind_beq_iff _ _ = ground arith

instance abbrev pub kind_eq : Eq TokenKind
kind_eq = record { beq = kind_beq; beq_iff = kind_beq_iff }

pub record Token : Type 0 where
  pub kind : TokenKind
  pub line : ℕ
  pub column : ℕ
