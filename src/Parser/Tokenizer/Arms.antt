-- ===== src/Parser/Tokenizer/Arms.antt =====
-- Each arm of `consume_current_char`, on a character that has been peeked: it returns, and consumes it.
use ferritex.Prelude.{
  ℕ, ◌+◌, ◌*◌, ◌%◌, ◌-◌, ◌≤◌, ◌<◌, ◌≡◌, refl, ap, ◌∙◌, sym, subst, Bool, true, false, Option, none,
  some, List, [], ◌∷◌, arith, length, if◌then◌else◌,
}
use ferritex.Prelude.Integer.{next_u32}
use ferritex.Parser.Token.{
  CatCode, escape, end_of_line, parameter, ignored, space, comment, cat_eq, Token, parameter_token,
}
use ferritex.Parser.Tokenizer.State.{
  Tokenizer, DecodedChar, mid_line, Mode, normal, reading_control_sequence, skipping_comment,
  Result, ok, bind_result, size, look,
}
use ferritex.Parser.Tokenizer.Decode.{decode_next_char, decode_bytes, accept, advance_position}
use ferritex.Parser.Tokenizer.Scan.{
  peek_decoded, peek_lookahead, take_expected, take_lookahead, or_panic, is_digit, first_of_rest,
  peek_next_raw_byte, token_at, consume_cat, consume_other, consume_parameter, consume_line_end,
  consume_space, consume_escape,
}
use ferritex.Parser.Tokenizer.Progress.{Ensures, take-Ensures, expect-Ensures}

abbrev pub mode_weight : Mode → ℕ
mode_weight normal = 0
mode_weight (reading_control_sequence line column name) = 1
mode_weight skipping_comment = 1

-- What is left to do: the input, and a mode to come back from.
abbrev pub weight : Tokenizer → ℕ
weight s = 2 * size s + mode_weight s.mode

abbrev pub Below : ℕ → {A : Type 0} → A → Tokenizer → Type 0
Below n a s = weight s < n

abbrev pub BelowE : ℕ → Tokenizer → Type 0
BelowE n s = weight s < n

-- A digit behind the lookahead is the next character, and is read without an error.
digit_decodes :
    (s : Tokenizer) (b : ℕ) (bs : List ℕ)
    → is_digit (some b) ≡ true
    → decode_bytes s (b ∷ bs) ≡ (
      some (record { ch = b; line = s.line; column = s.column }, none),
      record s { rest = bs; column = next_u32 s.column },
    )
unfolding accept advance_position
digit_decodes s b bs h = ground arith

abbrev taken_from : Result (Option DecodedChar) × Tokenizer → Result DecodedChar × Tokenizer
taken_from p = let q = bind_result p.0 p.1 (λ _. take_lookahead) in bind_result q.0 q.1 or_panic

digit_step :
    (s : Tokenizer) (xs : List ℕ)
    → s.rest ≡ xs
    → s.lookahead ≡ none
    → is_digit (first_of_rest xs) ≡ true
    → (d : DecodedChar) × (s' : Tokenizer) × (take_expected s ≡ (ok d, s'))
      × (s'.mode ≡ s.mode)
      × (size s' ≤ size s)
unfolding take_expected decode_next_char
digit_step s [] p l h = absurd (cc)
digit_step s (b ∷ bs) p l h =
    let d : DecodedChar = record { ch = b; line = s.line; column = s.column } in
    (
      d,
      record s { rest = bs; column = next_u32 s.column; lookahead = none },
      ap (λ o. taken_from (peek_lookahead o s)) l
          ∙ ap (λ xs. taken_from (peek_decoded (decode_bytes s xs))) p
          ∙ ap (λ r. taken_from (peek_decoded r)) (digit_decodes s b bs h),
      refl,
      omega (arith, ap length p),
    )

module _ (n : ℕ) (s : Tokenizer) (current : DecodedChar) (peeked : s.lookahead ≡ some current)
    (is_normal : s.mode ≡ normal) (fits : 2 * size s ≤ n) where
  consume_other-Ensures : (cat : CatCode) → Ensures (Below n) (BelowE n) (consume_other cat s)
  unfolding consume_other
  consume_other-Ensures cat =
      expect-Ensures (Below n) (BelowE n) _ s current peeked
        (omega (arith, ap mode_weight is_normal, ap look peeked))

  consume_space-Ensures :
      (at_line_start : Bool) → Ensures (Below n) (BelowE n) (consume_space at_line_start s)
  unfolding consume_space
  consume_space-Ensures true =
      expect-Ensures (Below n) (BelowE n) _ s current peeked
        (omega (arith, ap mode_weight is_normal, ap look peeked))
  consume_space-Ensures false =
      expect-Ensures (Below n) (BelowE n) _ s current peeked
        (omega (arith, ap mode_weight is_normal, ap look peeked))

  consume_escape-Ensures : Ensures (Below n) (BelowE n) (consume_escape current s)
  unfolding consume_escape
  consume_escape-Ensures =
      take-Ensures (Below n) (BelowE n) _ s current peeked (omega (arith, ap look peeked))

  line_end_result :
      (b : Bool) (t : Token) (s' : Tokenizer)
      → weight s' < n
      → Ensures {A = Option Token}
          (Below n)
          (BelowE n)
          (if b then (ok none, s') else (ok (some t), s'))
  line_end_result true t s' h = h
  line_end_result false t s' h = h

  consume_line_end-Ensures :
      (at_line_start : Bool)
      → Ensures (Below n) (BelowE n) (consume_line_end current at_line_start s)
  unfolding consume_line_end
  consume_line_end-Ensures b =
      take-Ensures (Below n) (BelowE n) _ s current peeked
        (line_end_result _ _ _ (omega (arith, ap mode_weight is_normal, ap look peeked)))

  consume_parameter-Ensures :
      is_digit (peek_next_raw_byte s) ≡ true
      → Ensures (Below n) (BelowE n) (consume_parameter current s)
  unfolding consume_parameter peek_next_raw_byte
  consume_parameter-Ensures h =
      let s₁ : Tokenizer = record s { lookahead = none } in
      let (d, s', p, m, z) = digit_step s₁ s.rest refl refl h in
      take-Ensures (Below n) (BelowE n) _ s current peeked (
        subst
          (λ (r : Result DecodedChar × Tokenizer). Ensures (Below n) (BelowE n) (
            bind_result r.0 r.1 (λ digit s₂. (
              ok (
                  some (
                    token_at (parameter_token (digit.ch % 256 - b'0')) current.line
                      current.column)),
              record s₂ { line_state = mid_line },
            ))))
          (sym p) (omega (arith, ap mode_weight m, ap mode_weight is_normal, ap look peeked)))

  parameter_result :
      (b : Bool)
      → is_digit (peek_next_raw_byte s) ≡ b
      → Ensures
          (Below n)
          (BelowE n)
          ((if b then consume_parameter current else consume_other parameter) s)
  parameter_result true h = consume_parameter-Ensures h
  parameter_result false h = consume_other-Ensures parameter

  pub consume-Ensures :
      (cat : CatCode) (at_line_start : Bool)
      → Ensures (Below n) (BelowE n) (consume_cat cat current at_line_start s)
  consume-Ensures ignored b =
      take-Ensures (Below n) (BelowE n) _ s current peeked
        (omega (arith, ap mode_weight is_normal, ap look peeked))
  consume-Ensures escape b = consume_escape-Ensures
  consume-Ensures end_of_line b = consume_line_end-Ensures b
  consume-Ensures space b = consume_space-Ensures b
  consume-Ensures comment b =
      take-Ensures (Below n) (BelowE n) _ s current peeked (omega (arith, ap look peeked))
  consume-Ensures parameter b = parameter_result _ refl
  consume-Ensures cat b = consume_other-Ensures cat
