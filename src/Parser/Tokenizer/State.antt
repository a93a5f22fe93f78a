-- ===== src/Parser/Tokenizer/State.antt =====
-- The state of the tokenizer of crates/ferritex-core/src/parser/tokenizer.rs, its category codes, and
-- the monad of its methods. `rest` is `input[index..]`. Lines and columns wrap around as `u32`.
use ferritex.Prelude.{
  ℕ, suc, ◌+◌, ◌*◌, Bool, ◌&&◌, ◌||◌, Option, none, some, List, Str, leb, ◌==◌, if◌then◌else◌,
  length,
}
use ferritex.Parser.Token.{
  CatCode, escape, begin_group, end_group, math_shift, alignment_tab, end_of_line, parameter,
  superscript, subscript, ignored, space, letter, other, active, comment, invalid,
}

abbrev is_ascii_letter : ℕ → Bool
is_ascii_letter b = leb b'A' b && leb b b'Z' || leb b'a' b && leb b b'z'

unfoldable pub default_catcode_table : ℕ → CatCode
default_catcode_table b =
    if is_ascii_letter b
    then letter
    else if b == b'%'
    then comment
    else if b == b'~'
    then active
    else if b == b'_'
    then subscript
    else if b == b'^'
    then superscript
    else if b == b'#'
    then parameter
    else if b == b'&'
    then alignment_tab
    else if b == b'$'
    then math_shift
    else if b == b'}'
    then end_group
    else if b == b'{'
    then begin_group
    else if b == 92
    then escape
    else if b == 127
    then invalid
    else if b == 32
    then space
    else if b == 13
    then end_of_line
    else if b == 10
    then end_of_line
    else if b == 0
    then ignored
    else other

pub record TokenizerDiagnostic : Type 0 where
  pub line : ℕ
  pub column : ℕ
  pub byte : ℕ

pub data LineState : Type 0 where
  new_line skip_spaces mid_line : LineState

pub data Mode : Type 0 where
  normal : Mode
  reading_control_sequence : ℕ → ℕ → Str → Mode
  skipping_comment : Mode

pub record DecodedChar : Type 0 where
  pub ch : ℕ
  pub line : ℕ
  pub column : ℕ

pub record Tokenizer : Type 0 where
  pub rest : List ℕ
  pub lookahead : Option DecodedChar
  pub catcodes : ℕ → CatCode
  pub line : ℕ
  pub column : ℕ
  pub line_state : LineState
  pub mode : Mode

unfoldable pub new_tokenizer : List ℕ → Tokenizer
new_tokenizer input = record {
  rest = input;
  lookahead = none;
  catcodes = default_catcode_table;
  line = 1;
  column = 1;
  line_state = new_line;
  mode = normal;
}

unfoldable pub set_catcode : Tokenizer → ℕ → CatCode → Tokenizer
set_catcode s char_code cat = record s {
  catcodes = λ b. if b == char_code then cat else s.catcodes b;
}

-- What a method gives: a value, an error returned by `?`, a panic (`expect`, `unreachable!`), or no
-- result because the fuel of a loop has run out.
pub data Result (A : Type 0) : Type 0 where
  ok : A → Result A
  err : TokenizerDiagnostic → Result A
  panic : Result A
  no_fuel : Result A

abbrev pub M : Type 0 → Type 0
M A = Tokenizer → Result A × Tokenizer

abbrev pub pure : {A : Type 0} → A → M A
pure a s = (ok a, s)

abbrev pub bind_result : {A B : Type 0} → Result A → Tokenizer → (A → M B) → Result B × Tokenizer
bind_result (ok a) s f = f a s
bind_result (err e) s f = (err e, s)
bind_result panic s f = (panic, s)
bind_result no_fuel s f = (no_fuel, s)

infixl 5 ◌>>=◌ ◌>>◌
abbrev pub ◌>>=◌ : {A B : Type 0} → M A → (A → M B) → M B
◌>>=◌ m f s = bind_result (m s).0 (m s).1 f

abbrev pub ◌>>◌ : {A B : Type 0} → M A → M B → M B
m >> k = m >>= λ _. k

-- One turn of a loop: go round again, or leave it with a value.
pub data Turn (A : Type 0) : Type 0 where
  again : Turn A
  done : A → Turn A

unfoldable pub loop : {A : Type 0} → ℕ → M (Turn A) → M A
loop ℕ.zero body s = (no_fuel, s)
loop (suc fuel) body s =
    bind_result (body s).0 (body s).1
      (λ t s'. elim t [ again ↦ loop fuel body s' | done a ↦ (ok a, s') ])

abbrev pub look : Option DecodedChar → ℕ
look none = 0
look (some d) = 1

-- What is left to read: two for a byte, one for a character that has been decoded.
abbrev pub size : Tokenizer → ℕ
size s = 2 * length s.rest + look s.lookahead

-- The fuel of every loop.
abbrev pub fuel_for : Tokenizer → ℕ
fuel_for s = 2 * size s + 2
