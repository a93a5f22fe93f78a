-- ===== src/Parser/Tokenizer/Examples.antt =====
-- Tests of the tokenizer, and its theorems at concrete inputs.
use ferritex.Prelude.{◌+◌, ◌*◌, ◌≤◌, ◌≡◌, ◌≢◌, refl, inl, some, List, [], ◌∷◌, codes, length, arith}
use ferritex.Parser.Token.{control_word, char_token, parameter_token, letter, space, other}
use ferritex.Parser.Tokenizer.State.{Tokenizer, new_tokenizer, default_catcode_table}
use ferritex.Parser.Tokenizer.Decode.{decode_next_char}
use ferritex.Parser.Tokenizer.Scan.{next_token, token_at, first_of_rest}
use ferritex.Parser.Tokenizer.Progress.{Ensures}
use ferritex.Parser.Tokenizer.Arms.{weight, BelowE}
use ferritex.Parser.Tokenizer.Totality.{
  Tokenized, Item, token, bad_byte, collect, next_token-Ensures, tokenize_ends,
}
use ferritex.Parser.Tokenizer.Utf8.{
  encode_utf8, decoded_as, decode-encode, line_ended, line_ends_agree, both, carriage_return,
}

-- The sources of the tests in tokenizer.rs.
hello :
    collect 60 (new_tokenizer (92 ∷ codes "hello w"))
    ≡ some (
        token (token_at (control_word (codes "hello")) 1 1)
        ∷ token (token_at (char_token 119 letter) 1 8)
        ∷ [])
unfolding collect next_token new_tokenizer default_catcode_table decode_next_char
hello = refl

line_end_to_space :
    collect 60 (new_tokenizer (97 ∷ 13 ∷ 10 ∷ 35 ∷ 49 ∷ 255 ∷ []))
    ≡ some (
        token (token_at (char_token 97 letter) 1 1)
        ∷ token (token_at (char_token 32 space) 1 2)
        ∷ token (token_at (parameter_token 1) 2 1)
        ∷ bad_byte (record { line = 2; column = 3; byte = 255 })
        ∷ token (token_at (char_token 0xFFFD other) 2 3)
        ∷ [])
unfolding collect next_token new_tokenizer default_catcode_table decode_next_char
line_end_to_space = refl

abbrev start : Tokenizer
start = new_tokenizer (97 ∷ 13 ∷ 10 ∷ [])

next_token-Ensures_example :
    Ensures (Tokenized (weight start)) (BelowE (weight start)) (next_token start)
next_token-Ensures_example = next_token-Ensures start

tokenize_ends_example :
    (items : List Item) × (collect (4 * 3 + 1) (new_tokenizer (97 ∷ 195 ∷ 10 ∷ [])) ≡ some items)
    × (length items ≤ 4 * 3)
tokenize_ends_example = tokenize_ends (97 ∷ 195 ∷ 10 ∷ [])

decode-encode_example :
    decode_next_char (new_tokenizer (226 ∷ 130 ∷ 172 ∷ 97 ∷ []))
    ≡ decoded_as (new_tokenizer (226 ∷ 130 ∷ 172 ∷ 97 ∷ [])) 0x20AC (97 ∷ [])
unfolding encode_utf8 new_tokenizer
decode-encode_example =
    decode-encode (new_tokenizer (226 ∷ 130 ∷ 172 ∷ 97 ∷ [])) 0x20AC (97 ∷ [])
      (record { in_range = omega arith; no_surrogate = inl (omega arith) }) (omega arith)
      (omega arith) refl

line_ends_agree_example :
    decode_next_char (new_tokenizer (13 ∷ 97 ∷ []))
    ≡ line_ended (new_tokenizer (13 ∷ 97 ∷ [])) (97 ∷ [])
unfolding new_tokenizer
line_ends_agree_example =
    line_ends_agree (new_tokenizer (13 ∷ 97 ∷ [])) (13 ∷ []) (97 ∷ []) (carriage_return no_feed)
      refl
  where
    no_feed : first_of_rest (97 ∷ []) ≢ some 10
    no_feed h = absurd (ground arith)

crlf_decoded :
    decode_next_char (new_tokenizer (13 ∷ 10 ∷ 97 ∷ []))
    ≡ line_ended (new_tokenizer (13 ∷ 10 ∷ 97 ∷ [])) (97 ∷ [])
unfolding new_tokenizer
crlf_decoded =
    line_ends_agree (new_tokenizer (13 ∷ 10 ∷ 97 ∷ [])) (13 ∷ 10 ∷ []) (97 ∷ []) both refl
