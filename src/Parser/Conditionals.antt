-- ===== src/Parser/Conditionals.antt =====
-- crates/ferritex-core/src/parser/conditionals.rs: the stack of open conditionals, and the loop that
-- skips a branch that is not taken. The head of `stack` is the last element of the `Vec`. A method
-- that changes the state returns the new one beside its result. A token source is the list of the
-- tokens that it will give; what a function leaves of it is returned.
pub mod Skip
pub mod Bodies
pub mod Branches
mod Examples
use ferritex.Prelude.{
  ℕ, zero, suc, ◌+◌, Bool, true, false, not, ◌||◌, Option, none, some, List, [], ◌∷◌, Str, codes,
  ◌=?◌, ◌==◌, ℤ, pos, negsuc, ltb_ℤ, int_eq, nat_eq, list_eq, if◌then◌else◌,
}
use ferritex.Parser.Token.{Token, TokenKind, control_word, kind_eq, cat_eq}

pub data SkipOutcome : Type 0 where
  resumed end_of_input : SkipOutcome

pub data ConditionalKind : Type 0 where
  simple : Bool → ConditionalKind
  case : ℤ → ℤ → Bool → Bool → ConditionalKind

pub record ConditionalFrame : Type 0 where
  pub line : ℕ
  pub executing : Bool
  pub kind : ConditionalKind

pub record ConditionalState : Type 0 where
  pub stack : List ConditionalFrame

abbrev frame_skips : List ConditionalFrame → Bool
frame_skips [] = false
frame_skips (f ∷ fs) = not f.executing

unfoldable pub is_skipping : ConditionalState → Bool
is_skipping c = frame_skips c.stack

abbrev first_line : List ConditionalFrame → Option ℕ
first_line [] = none
first_line (f ∷ fs) = some f.line

unfoldable pub current_open_line : ConditionalState → Option ℕ
current_open_line c = first_line c.stack

abbrev is_case : ConditionalKind → Bool
is_case (simple e) = false
is_case (case t n m e) = true

abbrev first_is_case : List ConditionalFrame → Bool
first_is_case [] = false
first_is_case (f ∷ fs) = is_case f.kind

unfoldable pub top_is_ifcase : ConditionalState → Bool
top_is_ifcase c = first_is_case c.stack

unfoldable pub process_if_at : ConditionalState → Bool → ℕ → ConditionalState
process_if_at c condition line = record {
  stack = record { line = line; executing = condition; kind = simple false } ∷ c.stack;
}

unfoldable pub process_ifcase_at : ConditionalState → ℤ → ℕ → ConditionalState
process_ifcase_at c value line = record {
  stack =
      record {
        line = line;
        executing = value =? pos 0;
        kind = case value (pos 0) (value =? pos 0) false;
      }
      ∷ c.stack;
}

abbrev else_frame : ConditionalFrame → ConditionalKind → ConditionalFrame
else_frame f (simple true) = record f { executing = false }
else_frame f (simple false) = record f { executing = not f.executing; kind = simple true }
else_frame f (case t n m true) = record f { executing = false }
else_frame f (case t n m false) = record f { executing = not m; kind = case t n m true }

abbrev else_stack : List ConditionalFrame → List ConditionalFrame × Bool
else_stack [] = ([], false)
else_stack (f ∷ fs) = (else_frame f f.kind ∷ fs, true)

unfoldable pub process_else : ConditionalState → ConditionalState × Bool
process_else c = let (fs, done) = else_stack c.stack in (record { stack = fs }, done)

-- `current_case += 1` on an `i32`, as it wraps
unfoldable pub increment_i32 : ℤ → ℤ
increment_i32 (pos n) = if n == 2147483647 then negsuc 2147483647 else pos (n + 1)
increment_i32 (negsuc zero) = pos 0
increment_i32 (negsuc (suc n)) = negsuc n

abbrev or_frame : ConditionalFrame → ConditionalKind → ConditionalFrame × Bool
unfolding increment_i32
or_frame f (simple e) = (f, false)
or_frame f (case t n m true) = (record f { executing = false }, true)
or_frame f (case t n true false) =
    (record f { executing = false; kind = case t (increment_i32 n) true false }, true)
or_frame f (case t n false false) =
    let n' = increment_i32 n in
    if t =? n'
    then (record f { executing = true; kind = case t n' true false }, true)
    else (record f { executing = false; kind = case t n' false false }, true)

abbrev or_stack : List ConditionalFrame → List ConditionalFrame × Bool
unfolding increment_i32
or_stack [] = ([], false)
or_stack (f ∷ fs) = let (f', done) = or_frame f f.kind in (f' ∷ fs, done)

unfoldable pub process_or : ConditionalState → ConditionalState × Bool
unfolding increment_i32
process_or c = let (fs, done) = or_stack c.stack in (record { stack = fs }, done)

abbrev fi_stack : List ConditionalFrame → List ConditionalFrame × Bool
fi_stack [] = ([], false)
fi_stack (f ∷ fs) = (fs, true)

unfoldable pub process_fi : ConditionalState → ConditionalState × Bool
process_fi c = let (fs, done) = fi_stack c.stack in (record { stack = fs }, done)

unfoldable pub evaluate_ifnum : ℤ → ℕ → ℤ → Bool
evaluate_ifnum left relation right =
    if relation == b'<'
    then ltb_ℤ left right
    else if relation == b'='
    then left =? right
    else if relation == b'>'
    then ltb_ℤ right left
    else false

unfoldable pub tokens_equal : Token → Token → Bool
tokens_equal left right = left.kind =? right.kind

abbrev name_of : TokenKind → Option Str
name_of (control_word name) = some name
name_of _ = none

unfoldable pub control_sequence_name : Token → Option Str
control_sequence_name t = name_of t.kind

abbrev conditional_names : List Str
conditional_names =
    codes "unless"
    ∷ codes "iftrue"
    ∷ codes "iffalse"
    ∷ codes "ifnum"
    ∷ codes "ifx"
    ∷ codes "ifcase"
    ∷ codes "ifdim"
    ∷ codes "ifodd"
    ∷ codes "ifvoid"
    ∷ codes "ifhbox"
    ∷ codes "ifvbox"
    ∷ codes "ifeof"
    ∷ codes "ifhmode"
    ∷ codes "ifvmode"
    ∷ codes "ifmmode"
    ∷ codes "ifinner"
    ∷ codes "ifcat"
    ∷ codes "if"
    ∷ codes "ifdefined"
    ∷ codes "ifcsname"
    ∷ []

contains : List Str → Str → Bool
contains [] name = false
contains (n ∷ ns) name = (n =? name) || contains ns name

abbrev is_conditional_name : Option Str → Bool
is_conditional_name none = false
is_conditional_name (some name) = contains conditional_names name

unfoldable pub is_conditional_start : Token → Bool
unfolding control_sequence_name contains
is_conditional_start t = is_conditional_name (control_sequence_name t)
