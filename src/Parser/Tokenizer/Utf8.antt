-- ===== src/Parser/Tokenizer/Utf8.antt =====
-- Decoding is the inverse of the UTF-8 encoding, and line ends are one whatever their bytes.
use ferritex.Prelude.{
  ℕ, ◌+◌, ◌/◌, ◌%◌, ◌≤◌, ◌<◌, ◌≡◌, ◌≢◌, refl, ap, ◌∙◌, ◌⊎◌, none, some, List, [], ◌∷◌, ◌++◌, arith,
  ltb, if◌then◌else◌, Bool-cases, inl, inr,
}
use ferritex.Prelude.Integer.{next_u32}
use ferritex.Parser.Tokenizer.State.{Tokenizer}
use ferritex.Parser.Tokenizer.Decode.{
  Decoded, decode_next_char, decode_bytes, accept, advance_position, all_continuation, from_utf8,
  utf8_sequence_width, is_utf8_continuation_byte, behind_line_end,
}
use ferritex.Parser.Tokenizer.Scan.{first_of_rest}

-- The encoding of a scalar value.
unfoldable pub encode_utf8 : ℕ → List ℕ
encode_utf8 c =
    if ltb c 0x80
    then c ∷ []
    else if ltb c 0x800
    then (0xC0 + c / 64) ∷ (0x80 + c % 64) ∷ []
    else if ltb c 0x10000
    then (0xE0 + c / 4096) ∷ (0x80 + c / 64 % 64) ∷ (0x80 + c % 64) ∷ []
    else (0xF0 + c / 262144) ∷ (0x80 + c / 4096 % 64) ∷ (0x80 + c / 64 % 64) ∷ (0x80 + c % 64) ∷ []

-- A Unicode scalar value.
pub record IsScalar (c : ℕ) : Type 0 where
  pub in_range : c ≤ 0x10FFFF
  pub no_surrogate : (c < 0xD800) ⊎ (0xE000 ≤ c)

two_bytes :
    (s : Tokenizer) (c : ℕ) (bs : List ℕ)
    → 0x80 ≤ c
    → c < 0x800
    → decode_bytes s ((0xC0 + c / 64) ∷ (0x80 + c % 64) ∷ bs) ≡ accept s c bs
unfolding all_continuation from_utf8 utf8_sequence_width is_utf8_continuation_byte
two_bytes s c bs h k = ground arith

three_bytes :
    (s : Tokenizer) (c : ℕ) (bs : List ℕ)
    → 0x800 ≤ c
    → c < 0x10000
    → (c < 0xD800) ⊎ (0xE000 ≤ c)
    → decode_bytes s ((0xE0 + c / 4096) ∷ (0x80 + c / 64 % 64) ∷ (0x80 + c % 64) ∷ bs)
      ≡ accept s c bs
unfolding all_continuation from_utf8 utf8_sequence_width is_utf8_continuation_byte
three_bytes s c bs h k g = ground arith

four_bytes :
    (s : Tokenizer) (c : ℕ) (bs : List ℕ)
    → 0x10000 ≤ c
    → c ≤ 0x10FFFF
    → decode_bytes s
        ((0xF0 + c / 262144) ∷ (0x80 + c / 4096 % 64) ∷ (0x80 + c / 64 % 64) ∷ (0x80 + c % 64) ∷ bs)
      ≡ accept s c bs
unfolding all_continuation from_utf8 utf8_sequence_width is_utf8_continuation_byte
four_bytes s c bs h k = ground arith

-- The character, at the position where it begins, and the state behind it on the same line.
abbrev pub decoded_as : Tokenizer → ℕ → List ℕ → Decoded
decoded_as s c rest = (
  some (record { ch = c; line = s.line; column = s.column }, none),
  record s { rest = rest; column = next_u32 s.column },
)

accept_same_line :
    (s : Tokenizer) (c : ℕ) (rest : List ℕ)
    → c ≢ 10
    → c ≢ 13
    → accept s c rest ≡ decoded_as s c rest
unfolding accept advance_position
accept_same_line s c rest h k = ground arith

one_byte :
    (s : Tokenizer) (c : ℕ) (bs : List ℕ)
    → c < 0x80
    → c ≢ 10
    → c ≢ 13
    → decode_bytes s (c ∷ bs) ≡ accept s c bs
one_byte s c bs h k l = ground arith

encoded :
    (s : Tokenizer) (c : ℕ) (rest : List ℕ)
    → IsScalar c
    → c ≢ 10
    → c ≢ 13
    → decode_bytes s (encode_utf8 c ++ rest) ≡ accept s c rest
unfolding encode_utf8
encoded s c rest h k l = elim (Bool-cases (ltb c 0x80)) [
  | inl one ↦ rw one (one_byte s c rest (ground arith) k l)
  | inr more ↦ rw more (elim (Bool-cases (ltb c 0x800)) [
    | inl two ↦ rw two (two_bytes s c rest (ground arith) (ground arith))
    | inr wide ↦ rw wide (elim (Bool-cases (ltb c 0x10000)) [
      | inl three ↦ rw three (three_bytes s c rest (ground arith) (ground arith) h.no_surrogate)
      | inr four ↦ rw four (four_bytes s c rest (ground arith) h.in_range)
    ])
  ])
]

-- Behind the encoding of a scalar value, line ends apart, `decode_next_char` gives that character at
-- the present position, with no diagnostic, and leaves what follows it, one column further.
pub decode-encode :
    (s : Tokenizer) (c : ℕ) (rest : List ℕ)
    → IsScalar c
    → c ≢ 10
    → c ≢ 13
    → s.rest ≡ encode_utf8 c ++ rest
    → decode_next_char s ≡ decoded_as s c rest
unfolding decode_next_char
decode-encode s c rest h k l p =
    ap (decode_bytes s) p ∙ encoded s c rest h k l ∙ accept_same_line s c rest k l

-- A line end, and the state at the start of the next line.
abbrev pub line_ended : Tokenizer → List ℕ → Decoded
line_ended s rest = (
  some (record { ch = 10; line = s.line; column = s.column }, none),
  record s { rest = rest; line = next_u32 s.line; column = 1 },
)

not_line_feed : (bs : List ℕ) → first_of_rest bs ≢ some 10 → behind_line_end 13 bs ≡ bs
not_line_feed [] h = refl
not_line_feed (b ∷ bs) h = ground arith

ended :
    (s : Tokenizer) (xs rest : List ℕ)
    → s.rest ≡ xs
    → decode_bytes s xs ≡ accept s 10 rest
    → decode_next_char s ≡ line_ended s rest
unfolding decode_next_char accept advance_position
ended s xs rest p q = ap (decode_bytes s) p ∙ q

-- The bytes of a line end with these behind it: a line feed, a carriage return with a line feed, or a
-- carriage return that no line feed follows.
pub data IsLineEnd (rest : List ℕ) : List ℕ → Type 0 where
  line_feed : IsLineEnd rest (10 ∷ [])
  both : IsLineEnd rest (13 ∷ 10 ∷ [])
  carriage_return : first_of_rest rest ≢ some 10 → IsLineEnd rest (13 ∷ [])

-- A line feed, a carriage return with a line feed, and a carriage return alone are each decoded as one
-- line end, all of which is consumed.
pub line_ends_agree :
    (s : Tokenizer) (end rest : List ℕ)
    → IsLineEnd rest end
    → s.rest ≡ end ++ rest
    → decode_next_char s ≡ line_ended s rest
line_ends_agree s end rest line_feed p =
    ended s (10 ∷ rest) rest p (ap (λ r. accept s 10 r) (feed rest))
  where
    feed : (bs : List ℕ) → behind_line_end 10 bs ≡ bs
    feed [] = refl
    feed (b ∷ bs) = refl
line_ends_agree s end rest both p = ended s (13 ∷ 10 ∷ rest) rest p refl
line_ends_agree s end rest (carriage_return h) p =
    ended s (13 ∷ rest) rest p (ap (λ r. accept s 10 r) (not_line_feed rest h))
