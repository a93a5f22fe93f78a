-- ===== src/Parser/Conditionals/Skip.antt =====
-- `skip_false_branch` of crates/ferritex-core/src/parser/conditionals.rs. Its loop, and the loop of
-- `consume_unless_conditional_start` that it calls, read one token at a time: they are one recursion
-- on the tokens, with `after_unless` while the inner loop is running.
use ferritex.Prelude.{
  ℕ, zero, suc, ◌+◌, Bool, false, Option, none, some, List, [], ◌∷◌, Str, codes, ◌=?◌, nat_eq,
  list_eq, if◌then◌else◌, ◌≡◌, refl, Bool-cases, inl, inr,
}
use ferritex.Parser.Token.{Token, TokenKind, control_word, char_token, space, cat_eq}
use ferritex.Parser.Conditionals.{
  SkipOutcome, resumed, end_of_input, ConditionalState, is_skipping, top_is_ifcase, process_else,
  process_or, process_fi, control_sequence_name, is_conditional_start,
}

-- The arms of the loop, in the order of its tests.
pub data Role : Type 0 where
  unless_word start_word fi_word else_word or_word text : Role

abbrev role_of_name : Option Str → Role
role_of_name none = text
role_of_name (some name) =
    if name =? codes "fi"
    then fi_word
    else if name =? codes "else"
    then else_word
    else if name =? codes "or"
    then or_word
    else text

is_unless : Option Str → Bool
is_unless none = false
is_unless (some name) = name =? codes "unless"

unfoldable pub role : Token → Role
unfolding is_conditional_start control_sequence_name is_unless
role t =
    if is_unless (control_sequence_name t)
    then unless_word
    else if is_conditional_start t
    then start_word
    else role_of_name (control_sequence_name t)

-- What `consume_unless_conditional_start` passes over: spaces and `\par`.
abbrev gap_kind : TokenKind → Bool
gap_kind (char_token c cat) = cat =? space
gap_kind (control_word name) = name =? codes "par"
gap_kind _ = false

unfoldable pub is_gap : Token → Bool
is_gap t = gap_kind t.kind

pub data Phase : Type 0 where
  reading after_unless : Phase

-- One round: go on with a phase, a depth and a state, or return `Resumed` with a state.
pub data Round : Type 0 where
  continue : Phase → ℕ → ConditionalState → Round
  stop : ConditionalState → Round

-- `process_else` or `process_or` has run: return, unless the state is still skipping.
abbrev pub resume_unless_skipping : ConditionalState → Round
resume_unless_skipping c = if is_skipping c then continue reading 0 c else stop c

abbrev pub read_role : Role → ℕ → ConditionalState → Round
read_role unless_word depth c = continue after_unless depth c
read_role start_word depth c = continue reading (depth + 1) c
read_role fi_word zero c = stop (process_fi c).0
read_role fi_word (suc depth) c = continue reading depth c
read_role else_word zero c = resume_unless_skipping (process_else c).0
read_role else_word (suc depth) c = continue reading (suc depth) c
read_role or_word zero c =
    if top_is_ifcase c then resume_unless_skipping (process_or c).0 else continue reading 0 c
read_role or_word (suc depth) c = continue reading (suc depth) c
read_role text depth c = continue reading depth c

unfoldable pub read_token : Phase → ℕ → ConditionalState → Token → Round
unfolding role is_gap
read_token reading depth c t = read_role (role t) depth c
read_token after_unless depth c t =
    if is_gap t
    then continue after_unless depth c
    else continue reading (if is_conditional_start t then depth + 1 else depth) c

unfoldable pub skip_from :
    Phase → ℕ → ConditionalState → List Token → SkipOutcome × ConditionalState × List Token
unfolding read_token
skip_from phase depth c [] = (end_of_input, c, [])
skip_from phase depth c (t ∷ ts) = elim (read_token phase depth c t) [
  | continue phase' depth' c' ↦ skip_from phase' depth' c' ts
  | stop c' ↦ (resumed, c', ts)
]

unfoldable pub skip_false_branch :
    ConditionalState → List Token → SkipOutcome × ConditionalState × List Token
unfolding skip_from
skip_false_branch c tokens = skip_from reading 0 c tokens

-- `consume_unless_conditional_start` as it stands in the source: whether a conditional starts, and
-- what is left of the tokens.
unfoldable pub consume_unless_conditional_start : List Token → Bool × List Token
consume_unless_conditional_start [] = (false, [])
consume_unless_conditional_start (t ∷ ts) =
    if is_gap t then consume_unless_conditional_start ts else (is_conditional_start t, ts)

-- The phase `after_unless` is the call of it.
after_unless-eq_call :
    (depth : ℕ) (c : ConditionalState) (ts : List Token)
    → skip_from after_unless depth c ts ≡ (
        let (starts, rest) = consume_unless_conditional_start ts in
        skip_from reading (if starts then depth + 1 else depth) c rest)
unfolding skip_from consume_unless_conditional_start
after_unless-eq_call depth c [] = refl
after_unless-eq_call depth c (t ∷ ts) = elim (Bool-cases (is_gap t)) [
  | inl gap ↦ rw (gap, skip_from) (after_unless-eq_call depth c ts)
  | inr other ↦ rw (other, skip_from)
]
