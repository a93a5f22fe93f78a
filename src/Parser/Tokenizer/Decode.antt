-- ===== src/Parser/Tokenizer/Decode.antt =====
-- `decode_next_char` of crates/ferritex-core/src/parser/tokenizer.rs: line ends, ASCII, UTF-8, and the
-- replacement character for bytes that are not UTF-8.
use ferritex.Prelude.{
  ℕ, ◌+◌, ◌-◌, ◌*◌, Bool, true, false, ◌&&◌, ◌||◌, Option, none, some, List, [], ◌∷◌, ltb, leb,
  ◌==◌, length, take, drop, if◌then◌else◌,
}
use ferritex.Prelude.Integer.{next_u32}
use ferritex.Parser.Tokenizer.State.{Tokenizer, TokenizerDiagnostic, DecodedChar}

unfoldable pub utf8_sequence_width : ℕ → Option ℕ
utf8_sequence_width first =
    if leb 0xC2 first && leb first 0xDF
    then some 2
    else if leb 0xE0 first && leb first 0xEF
    then some 3
    else if leb 0xF0 first && leb first 0xF4
    then some 4
    else none

unfoldable pub is_utf8_continuation_byte : ℕ → Bool
is_utf8_continuation_byte byte = leb 0x80 byte && leb byte 0xBF

unfoldable pub all_continuation : List ℕ → Bool
unfolding is_utf8_continuation_byte
all_continuation [] = true
all_continuation (b ∷ bs) = is_utf8_continuation_byte b && all_continuation bs

-- The scalar value of a sequence: no shorter one exists, no surrogate, at most 0x10FFFF.
abbrev pub scalar_if : Bool → ℕ → Option ℕ
scalar_if true c = some c
scalar_if false c = none

-- `std::str::from_utf8` and the first `char`, on a lead byte with its continuation bytes
unfoldable pub from_utf8 : List ℕ → Option ℕ
from_utf8 (a ∷ b ∷ []) = let c = (a - 0xC0) * 64 + (b - 0x80) in scalar_if (leb 0x80 c) c
from_utf8 (a ∷ b ∷ d ∷ []) =
    let c = (a - 0xE0) * 4096 + (b - 0x80) * 64 + (d - 0x80) in
    scalar_if (leb 0x800 c && (ltb c 0xD800 || leb 0xE000 c)) c
from_utf8 (a ∷ b ∷ d ∷ e ∷ []) =
    let c = (a - 0xF0) * 262144 + (b - 0x80) * 4096 + (d - 0x80) * 64 + (e - 0x80) in
    scalar_if (leb 0x10000 c && leb c 0x10FFFF) c
from_utf8 _ = none

unfoldable pub advance_position : Tokenizer → ℕ → Tokenizer
advance_position s ch =
    if ch == 10 || ch == 13
    then record s { line = next_u32 s.line; column = 1 }
    else record s { column = next_u32 s.column }

abbrev pub Decoded : Type 0
Decoded = Option (DecodedChar × Option TokenizerDiagnostic) × Tokenizer

-- A character that took the input up to `rest`.
unfoldable pub accept : Tokenizer → ℕ → List ℕ → Decoded
unfolding advance_position
accept s ch rest = (
  some (record { ch = ch; line = s.line; column = s.column }, none),
  advance_position (record s { rest = rest }) ch,
)

unfoldable pub decode_invalid_byte : Tokenizer → ℕ → List ℕ → Decoded
unfolding advance_position
decode_invalid_byte s byte rest = (
  some (
    record { ch = 0xFFFD; line = s.line; column = s.column },
    some (record { line = s.line; column = s.column; byte = byte }),
  ),
  advance_position (record s { rest = rest }) 0xFFFD,
)

-- The bytes behind a line end: the line feed of a CRLF goes with it.
abbrev pub behind_line_end : ℕ → List ℕ → List ℕ
behind_line_end first [] = []
behind_line_end first (b ∷ bs) = if first == 13 && b == 10 then bs else b ∷ bs

abbrev pub decode_scalar : Tokenizer → ℕ → List ℕ → Option ℕ → List ℕ → Decoded
decode_scalar s first bs none after = decode_invalid_byte s first bs
decode_scalar s first bs (some ch) after = accept s ch after

abbrev pub decode_width : Tokenizer → ℕ → List ℕ → Option ℕ → Decoded
decode_width s first bs none = decode_invalid_byte s first bs
decode_width s first bs (some width) =
    if ltb (length (first ∷ bs)) width
    then decode_invalid_byte s first bs
    else if all_continuation (take (width - 1) bs)
    then decode_scalar s first bs (from_utf8 (first ∷ take (width - 1) bs)) (drop (width - 1) bs)
    else decode_invalid_byte s first bs

abbrev pub decode_bytes : Tokenizer → List ℕ → Decoded
decode_bytes s [] = (none, s)
decode_bytes s (first ∷ bs) =
    if first == 13 || first == 10
    then accept s 10 (behind_line_end first bs)
    else if ltb first 128
    then accept s first bs
    else decode_width s first bs (utf8_sequence_width first)

unfoldable pub decode_next_char : Tokenizer → Decoded
unfolding accept decode_invalid_byte all_continuation from_utf8 utf8_sequence_width
decode_next_char s = decode_bytes s s.rest
