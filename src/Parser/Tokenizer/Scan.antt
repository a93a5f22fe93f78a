-- ===== src/Parser/Tokenizer/Scan.antt =====
-- The methods of the tokenizer that read characters and give tokens. Each `loop { … }` of the source is
-- `loop` over the method of one turn.
use ferritex.Prelude.{
  ℕ, ◌-◌, ◌%◌, Bool, true, false, not, ◌&&◌, ◌||◌, Option, none, some, List, [], ◌∷◌, ◌++◌, codes,
  ltb, leb, ◌==◌, if◌then◌else◌, ◌=?◌,
}
use ferritex.Parser.Token.{
  CatCode, escape, end_of_line, parameter, ignored, space, letter, other, comment, cat_eq, Token,
  TokenKind, control_word, control_symbol, char_token, parameter_token,
}
use ferritex.Parser.Tokenizer.State.{
  Tokenizer, DecodedChar, LineState, new_line, skip_spaces, mid_line, Mode, normal,
  reading_control_sequence, skipping_comment, Result, ok, err, panic, M, pure, ◌>>=◌, ◌>>◌, Turn,
  again, done, loop, fuel_for,
}
use ferritex.Parser.Tokenizer.Decode.{Decoded, decode_next_char}

-- `peek_char`: a character that is not UTF-8 stays as the lookahead when its error is returned.
abbrev pub peek_decoded : Decoded → Result (Option DecodedChar) × Tokenizer
peek_decoded (none, s) = (ok none, s)
peek_decoded (some (d, some e), s) = (err e, record s { lookahead = some d })
peek_decoded (some (d, none), s) = (ok (some d), record s { lookahead = some d })

abbrev pub peek_lookahead : Option DecodedChar → M (Option DecodedChar)
peek_lookahead (some d) s = (ok (some d), s)
peek_lookahead none s = peek_decoded (decode_next_char s)

unfoldable pub peek_char : M (Option DecodedChar)
peek_char s = peek_lookahead s.lookahead s

abbrev pub take_lookahead : M (Option DecodedChar)
take_lookahead s = (ok s.lookahead, record s { lookahead = none })

unfoldable pub take_char : M (Option DecodedChar)
unfolding peek_char
take_char = do peek_char; take_lookahead

-- `take_char()?.expect(…)`
abbrev pub or_panic : Option DecodedChar → M DecodedChar
or_panic none s = (panic, s)
or_panic (some d) s = (ok d, s)

unfoldable pub take_expected : M DecodedChar
unfolding take_char
take_expected = do taken ← take_char; or_panic taken

abbrev pub set_line_state : LineState → M (Unit {0})
set_line_state l s = (ok tt, record s { line_state = l })

abbrev pub set_mode : Mode → M (Unit {0})
set_mode m s = (ok tt, record s { mode = m })

unfoldable pub catcode_for_char : Tokenizer → ℕ → CatCode
catcode_for_char s ch = if ltb ch 256 then s.catcodes ch else other

abbrev pub first_of_rest : List ℕ → Option ℕ
first_of_rest [] = none
first_of_rest (b ∷ bs) = some b

unfoldable pub peek_next_raw_byte : Tokenizer → Option ℕ
peek_next_raw_byte s = first_of_rest s.rest

abbrev pub is_line_end : Option ℕ → Bool
is_line_end none = false
is_line_end (some b) = b == 10 || b == 13

abbrev pub is_digit : Option ℕ → Bool
is_digit none = false
is_digit (some b) = leb b'1' b && leb b b'9'

abbrev pub token_at : TokenKind → ℕ → ℕ → Token
token_at kind line column = record { kind = kind; line = line; column = column }

abbrev pub char_at : DecodedChar → CatCode → Token
char_at d cat = token_at (char_token d.ch cat) d.line d.column

-- The arms of `consume_current_char`.
unfoldable pub consume_other : CatCode → M (Option Token)
unfolding take_expected
consume_other cat = do
  taken ← take_expected
  set_line_state mid_line
  pure (some (char_at taken cat))

unfoldable pub consume_parameter : DecodedChar → M (Option Token)
unfolding take_expected
consume_parameter current = do
  take_char
  digit ← take_expected
  set_line_state mid_line
  pure (some (token_at (parameter_token (digit.ch % 256 - b'0')) current.line current.column))

unfoldable pub consume_line_end : DecodedChar → Bool → M (Option Token)
unfolding take_char peek_next_raw_byte
consume_line_end current at_line_start = do
  take_char
  set_line_state new_line
  λ s.
      if at_line_start || is_line_end (peek_next_raw_byte s)
      then (ok none, s)
      else (ok (some (token_at (char_token 32 space) current.line current.column)), s)

unfoldable pub consume_space : Bool → M (Option Token)
unfolding take_expected
consume_space true = do take_expected; pure none
consume_space false = do
  taken ← take_expected
  set_line_state skip_spaces
  pure (some (char_at taken space))

unfoldable pub consume_escape : DecodedChar → M (Option Token)
unfolding take_char
consume_escape current = do
  take_char
  set_line_state mid_line
  set_mode (reading_control_sequence current.line current.column [])
  pure none

abbrev pub consume_cat : CatCode → DecodedChar → Bool → M (Option Token)
consume_cat ignored current at_line_start = do take_char; pure none
consume_cat escape current at_line_start = consume_escape current
consume_cat end_of_line current at_line_start = consume_line_end current at_line_start
consume_cat space current at_line_start = consume_space at_line_start
consume_cat comment current at_line_start = do take_char; set_mode skipping_comment; pure none
consume_cat parameter current at_line_start = λ s.
    (if is_digit (peek_next_raw_byte s) then consume_parameter current else consume_other parameter)
      s
consume_cat cat current at_line_start = consume_other cat

unfoldable pub consume_current_char : DecodedChar → Bool → M (Option Token)
unfolding catcode_for_char consume_other consume_parameter consume_line_end consume_space
    consume_escape
consume_current_char current at_line_start s =
    consume_cat (catcode_for_char s current.ch) current at_line_start s

-- One turn of `next_normal_token`, by the state of the line and the category of the character.
abbrev pub at_new_line : CatCode → DecodedChar → M (Turn (Option Token))
at_new_line ignored current = do take_char; pure again
at_new_line space current = do take_char; pure again
at_new_line end_of_line current = do
  take_char
  pure (done (some (token_at (control_word (codes "par")) current.line current.column)))
at_new_line _ current = do token ← consume_current_char current true; pure (done token)

abbrev pub at_skip_spaces : CatCode → M (Turn (Option Token))
at_skip_spaces ignored = do take_char; pure again
at_skip_spaces space = do take_char; pure again
at_skip_spaces end_of_line = do take_char; set_line_state new_line; pure again
at_skip_spaces _ = do set_line_state mid_line; pure again

abbrev pub normal_char : LineState → Option DecodedChar → M (Turn (Option Token))
normal_char _ none = pure (done none)
normal_char new_line (some current) = λ s. at_new_line (catcode_for_char s current.ch) current s
normal_char skip_spaces (some current) = λ s. at_skip_spaces (catcode_for_char s current.ch) s
normal_char mid_line (some current) = do
  token ← consume_current_char current false
  pure (done token)

unfoldable pub normal_turn : M (Turn (Option Token))
unfolding consume_current_char
normal_turn s = (do o ← peek_char; normal_char s.line_state o) s

unfoldable pub next_normal_token : M (Option Token)
unfolding normal_turn loop
next_normal_token s = loop (fuel_for s) normal_turn s

-- The word that has been read, when it ends.
abbrev pub finish_mode : Mode → M (Turn (Option Token))
finish_mode (reading_control_sequence line column name) s = (
  ok (done (some (token_at (control_word name) line column))),
  record s { mode = normal; line_state = skip_spaces },
)
finish_mode normal s = (panic, s)
finish_mode skipping_comment s = (panic, s)

abbrev pub push_name : ℕ → Mode → Mode
push_name ch (reading_control_sequence line column name) =
    reading_control_sequence line column (name ++ ch ∷ [])
push_name ch normal = normal
push_name ch skipping_comment = skipping_comment

-- A character that is no letter ends the word, or is a control symbol if the name is empty.
abbrev pub after_name : Mode → M (Turn (Option Token))
after_name (reading_control_sequence line column []) = do
  symbol ← take_expected
  set_mode normal
  set_line_state mid_line
  pure (done (some (token_at (control_symbol symbol.ch) line column)))
after_name (reading_control_sequence line column (c ∷ cs)) =
    finish_mode (reading_control_sequence line column (c ∷ cs))
after_name normal = λ s. (panic, s)
after_name skipping_comment = λ s. (panic, s)

unfoldable pub name_letter : M (Turn (Option Token))
unfolding take_expected
name_letter = do
  taken ← take_expected
  λ s. (ok again, record s { mode = push_name taken.ch s.mode })

abbrev pub control_char : Option DecodedChar → M (Turn (Option Token))
control_char none = λ s. finish_mode s.mode s
control_char (some next) =
    λ s. (if catcode_for_char s next.ch =? letter then name_letter else after_name s.mode) s

unfoldable pub control_turn : M (Turn (Option Token))
unfolding peek_char name_letter catcode_for_char
control_turn = do o ← peek_char; control_char o

unfoldable pub next_control_sequence_token : M (Option Token)
unfolding control_turn loop
next_control_sequence_token s = loop (fuel_for s) control_turn s

abbrev pub end_comment : M (Turn (Unit {0}))
end_comment s = (ok (done tt), record s { mode = normal; line_state = new_line })

abbrev pub comment_char : Option DecodedChar → M (Turn (Unit {0}))
comment_char none = end_comment
comment_char (some next) = do
  taken ← take_expected
  if taken.ch == 10 || taken.ch == 13
      then end_comment
      else if not (taken.line == next.line) || not (taken.column == next.column)
      then (λ s. (panic, s))
      else pure again

unfoldable pub comment_turn : M (Turn (Unit {0}))
unfolding peek_char take_expected
comment_turn = do o ← peek_char; comment_char o

unfoldable pub skip_comment : M (Unit {0})
unfolding comment_turn loop
skip_comment s = loop (fuel_for s) comment_turn s

abbrev pub is_empty : List ℕ → Bool
is_empty [] = true
is_empty (b ∷ bs) = false

abbrev pub is_none : Option DecodedChar → Bool
is_none none = true
is_none (some d) = false

abbrev pub is_normal : Mode → Bool
is_normal normal = true
is_normal _ = false

unfoldable pub is_finished : Tokenizer → Bool
is_finished s = is_none s.lookahead && is_empty s.rest && is_normal s.mode

abbrev pub outcome : Mode → M (Option Token)
outcome normal = next_normal_token
outcome (reading_control_sequence line column name) = next_control_sequence_token
outcome skipping_comment = do skip_comment; pure none

abbrev pub settle : Option Token → M (Turn (Option Token))
settle (some token) s = (ok (done (some token)), s)
settle none s = if is_finished s then (ok (done none), s) else (ok again, s)

unfoldable pub token_turn : M (Turn (Option Token))
unfolding next_normal_token next_control_sequence_token skip_comment is_finished
token_turn s = (do o ← outcome s.mode; settle o) s

-- `next_token`: `ok none` is the end of the input, and `err` an error that is given as an item.
unfoldable pub next_token : M (Option Token)
unfolding token_turn loop
next_token s = loop (fuel_for s) token_turn s
