-- ===== src/Parser/Conditionals/Examples.antt =====
-- Tests of the conditionals, and their theorems at concrete inputs.
use ferritex.Prelude.{
  ◌≡◌, refl, false, not, List, [], ◌∷◌, ◌++◌, codes, String, pos, ◌=?◌, int_eq, list_beq, arith,
}
use ferritex.Parser.Token.{Token, control_word, char_token, letter, space}
use ferritex.Parser.Conditionals.{
  resumed, simple, ConditionalState, is_skipping, process_if_at, process_ifcase_at, process_else,
  is_conditional_start,
}
use ferritex.Parser.Conditionals.Skip.{role, is_gap, skip_false_branch, skip_from, reading}
use ferritex.Parser.Conditionals.Bodies.{Body, body_end, body_plain, body_unless, skip-Body}
use ferritex.Parser.Conditionals.Branches.{
  skip_to_fi, skip_to_else, skip_to_case, in_else, taken, or_text, ifcase_selects, process_ors,
  among,
}

abbrev word : String → Token
word name = record { kind = control_word (codes name); line = 1; column = 1 }

abbrev letter_a : Token
letter_a = record { kind = char_token 97 letter; line = 1; column = 1 }

abbrev blank : Token
blank = record { kind = char_token 32 space; line = 1; column = 1 }

abbrev closed : ConditionalState
closed = record { stack = [] }

-- `a \unless \iftrue a \else a \fi a`
abbrev branch : List Token
branch =
    letter_a
    ∷ word "unless"
    ∷ blank
    ∷ word "iftrue"
    ∷ letter_a
    ∷ word "else"
    ∷ letter_a
    ∷ word "fi"
    ∷ letter_a
    ∷ []

branch_skipped :
    skip_false_branch (process_if_at closed false 3) (branch ++ word "else" ∷ letter_a ∷ [])
    ≡ (resumed, in_else closed 3, letter_a ∷ [])
unfolding skip_false_branch role is_gap list_beq process_if_at process_else is_skipping
branch_skipped = refl

branch-Body : Body 0 branch
unfolding role is_gap is_conditional_start list_beq
branch-Body = body_plain letter_a tt (
    body_unless (word "unless") (word "iftrue") (word "fi") (blank ∷ []) refl (refl, tt) refl refl
      (body_plain letter_a tt (body_plain (word "else") tt (body_plain letter_a tt body_end))) refl
      (body_plain letter_a tt body_end))

skip_to_fi_example :
    skip_false_branch (process_if_at closed false 3) (branch ++ word "fi" ∷ letter_a ∷ [])
    ≡ (resumed, closed, letter_a ∷ [])
unfolding role list_beq process_if_at
skip_to_fi_example =
    skip_to_fi (record { line = 3; executing = false; kind = simple false }) [] (word "fi")
      (letter_a ∷ []) branch-Body refl

skip_to_else_example :
    skip_false_branch (process_if_at closed false 3) (branch ++ word "else" ∷ letter_a ∷ [])
    ≡ (resumed, in_else closed 3, letter_a ∷ [])
unfolding role list_beq
skip_to_else_example = skip_to_else closed 3 (word "else") (letter_a ∷ []) branch-Body refl

skip_to_case_example :
    skip_false_branch
      (process_ifcase_at closed (pos 2) 3)
      (or_text ((branch, word "or") ∷ ([], word "or") ∷ []) (letter_a ∷ []))
    ≡ (resumed, record { stack = taken 3 2 ∷ [] }, letter_a ∷ [])
unfolding role list_beq
skip_to_case_example =
    skip_to_case closed 3 branch (word "or") (([], word "or") ∷ []) (letter_a ∷ [])
      (branch-Body, refl, (body_end, refl, tt)) (omega arith)

ifcase_selects_example :
    (is_skipping (process_ors 2 (process_ifcase_at closed (pos 2) 0)) ≡ not (pos 2 =? pos 2))
    × (is_skipping (process_else (process_ors 2 (process_ifcase_at closed (pos 2) 0))).0
        ≡ among (pos 2) 2)
ifcase_selects_example = ifcase_selects closed (pos 2) 0 2 (omega arith)

skip-Body_example :
    skip_from reading 0 closed (branch ++ letter_a ∷ [])
    ≡ skip_from reading 0 closed (letter_a ∷ [])
skip-Body_example = skip-Body branch-Body closed (letter_a ∷ [])
