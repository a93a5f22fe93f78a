-- ===== src/Parser/Conditionals/Branches.antt =====
-- Which branch the loop resumes at, and which case of `\ifcase` is executed.
use ferritex.Prelude.{
  ℕ, zero, suc, ◌+◌, ◌<◌, ◌≡◌, refl, ap, ◌∙◌, Bool, true, false, not, List, [], ◌∷◌, ◌++◌, arith,
  length, ℤ, pos, negsuc, leb, ◌==◌, int_eq, ◌=?◌,
}
use ferritex.Parser.Token.{Token}
use ferritex.Parser.Conditionals.{
  resumed, simple, case, ConditionalFrame, ConditionalState, is_skipping, top_is_ifcase,
  process_if_at, process_ifcase_at, process_else, process_or, process_fi, increment_i32,
}
use ferritex.Parser.Conditionals.Skip.{
  fi_word, else_word, or_word, role, reading, continue, stop, resume_unless_skipping, read_token,
  skip_from, skip_false_branch,
}
use ferritex.Parser.Conditionals.Bodies.{Body, skip-Body, skip-stop, skip-continue, read-role}

-- A skipped branch that `\fi` ends: the innermost conditional is closed, those around it are as
-- they were, and reading resumes behind the `\fi`.
pub skip_to_fi :
    (f : ConditionalFrame) (outer : List ConditionalFrame) {body : List Token} (close : Token)
    (rest : List Token)
    → Body 0 body
    → role close ≡ fi_word
    → skip_false_branch (record { stack = f ∷ outer }) (body ++ close ∷ rest)
      ≡ (resumed, record { stack = outer }, rest)
unfolding skip_false_branch
skip_to_fi f outer close rest b h =
    skip-Body b (record { stack = f ∷ outer }) (close ∷ rest)
    ∙ skip-stop reading 0 (record { stack = f ∷ outer }) close rest
        (read-role 0 _ close fi_word h ∙ unfold process_fi in refl)

abbrev pub in_else : ConditionalState → ℕ → ConditionalState
in_else c line = record {
  stack = record { line = line; executing = true; kind = simple true } ∷ c.stack;
}

-- A false `\if` with an `\else`: reading resumes behind the `\else`, in the branch taken.
pub skip_to_else :
    (c : ConditionalState) (line : ℕ) {body : List Token} (other : Token) (rest : List Token)
    → Body 0 body
    → role other ≡ else_word
    → skip_false_branch (process_if_at c false line) (body ++ other ∷ rest)
      ≡ (resumed, in_else c line, rest)
unfolding skip_false_branch process_if_at
skip_to_else c line other rest b h =
    skip-Body b (process_if_at c false line) (other ∷ rest)
    ∙ skip-stop reading 0 (process_if_at c false line) other rest
        (read-role 0 _ other else_word h ∙ unfold process_else is_skipping in refl)

-- The frame of an `\ifcase` that is skipped: its number, and the case that it stands at.
abbrev pub waiting : ℕ → ℕ → ℕ → ConditionalFrame
waiting line target current = record {
  line = line;
  executing = false;
  kind = case (pos target) (pos current) false false;
}

abbrev pub taken : ℕ → ℕ → ConditionalFrame
taken line target = record {
  line = line;
  executing = true;
  kind = case (pos target) (pos target) true false;
}

-- Branches, each ended by its `\or`, and what follows the last one.
abbrev pub or_text : List (List Token × Token) → List Token → List Token
or_text [] rest = rest
or_text ((body, or) ∷ bs) rest = body ++ or ∷ or_text bs rest

abbrev pub AreCases : List (List Token × Token) → Type 0
AreCases [] = Unit
AreCases ((body, or) ∷ bs) = Body 0 body × (role or ≡ or_word) × AreCases bs

read-or :
    (c : ConditionalState) (t : Token)
    → role t ≡ or_word
    → top_is_ifcase c ≡ true
    → read_token reading 0 c t ≡ resume_unless_skipping (process_or c).0
read-or c t h k = read-role 0 c t or_word h ∙ rw k

-- `\or` steps to the next case, and resumes if it is the one that is asked for.
or-next :
    (line target current : ℕ) (fs : List ConditionalFrame)
    → current + 1 < target
    → target < 2147483648
    → resume_unless_skipping (process_or (record { stack = waiting line target current ∷ fs })).0
      ≡ continue reading 0 (record { stack = waiting line target (current + 1) ∷ fs })
unfolding process_or increment_i32 is_skipping
or-next line target current fs h k = ground arith

or-last :
    (line target current : ℕ) (fs : List ConditionalFrame)
    → target ≡ current + 1
    → target < 2147483648
    → resume_unless_skipping (process_or (record { stack = waiting line target current ∷ fs })).0
      ≡ stop (record { stack = taken line target ∷ fs })
unfolding process_or increment_i32 is_skipping
or-last line target current fs e k = ground arith

is_case_waiting :
    (line target current : ℕ) (fs : List ConditionalFrame)
    → top_is_ifcase (record { stack = waiting line target current ∷ fs }) ≡ true
unfolding top_is_ifcase
is_case_waiting line target current fs = refl

skip-cases :
    (bs : List (List Token × Token)) (line target current : ℕ) (fs : List ConditionalFrame)
    (b : List Token) (o : Token) (rest : List Token)
    → AreCases ((b, o) ∷ bs)
    → target ≡ current + suc (length bs)
    → target < 2147483648
    → skip_from reading 0
        (record { stack = waiting line target current ∷ fs })
        (or_text ((b, o) ∷ bs) rest)
      ≡ (resumed, record { stack = taken line target ∷ fs }, rest)
skip-cases [] line target current fs b o rest (hb, ho, hs) e k =
    skip-Body hb _ (o ∷ rest)
    ∙ skip-stop reading 0 _ o rest (
        read-or _ o ho (is_case_waiting line _ current fs)
        ∙ or-last line target current fs (omega arith) k)
skip-cases ((b', o') ∷ bs) line target current fs b o rest (hb, ho, hs) e k =
    skip-Body hb _ (o ∷ or_text ((b', o') ∷ bs) rest)
    ∙ skip-continue reading 0 _ o (or_text ((b', o') ∷ bs) rest) (
        read-or _ o ho (is_case_waiting line _ current fs)
        ∙ or-next line target current fs (omega arith) k)
    ∙ skip-cases bs line target (current + 1) fs b' o' rest hs (omega arith) k

ifcase_waits :
    (c : ConditionalState) (line n : ℕ)
    → process_ifcase_at c (pos (suc n)) line ≡ record { stack = waiting line (suc n) 0 ∷ c.stack }
unfolding process_ifcase_at
ifcase_waits c line n = ground arith

-- `\ifcase n` with n > 0: the loop passes over n branches and resumes behind the n-th `\or`, at
-- the case that is asked for. Here n is at most the largest `i32`.
pub skip_to_case :
    (c : ConditionalState) (line : ℕ) (b : List Token) (o : Token) (bs : List (List Token × Token))
    (rest : List Token)
    → AreCases ((b, o) ∷ bs)
    → suc (length bs) < 2147483648
    → skip_false_branch
        (process_ifcase_at c (pos (suc (length bs))) line)
        (or_text ((b, o) ∷ bs) rest)
      ≡ (resumed, record { stack = taken line (suc (length bs)) ∷ c.stack }, rest)
unfolding skip_false_branch
skip_to_case c line b o bs rest h k =
    ap (λ x. skip_from reading 0 x (or_text ((b, o) ∷ bs) rest)) (ifcase_waits c line (length bs))
    ∙ skip-cases bs line (suc (length bs)) 0 c.stack b o rest h (omega arith) k

-- `process_or` n times
unfoldable pub process_ors : ℕ → ConditionalState → ConditionalState
process_ors zero c = c
process_ors (suc n) c = process_ors n (process_or c).0

-- The frame of an `\ifcase` after its number and the `\or`s so far.
abbrev case_frame : ℕ → ℤ → ℕ → ConditionalFrame
case_frame line (pos t) n = record {
  line = line;
  executing = t == n;
  kind = case (pos t) (pos n) (leb t n) false;
}
case_frame line (negsuc t) n = record {
  line = line;
  executing = false;
  kind = case (negsuc t) (pos n) false false;
}

case-step :
    (v : ℤ) (line n : ℕ) (fs : List ConditionalFrame)
    → n + 1 < 2147483648
    → (process_or (record { stack = case_frame line v n ∷ fs })).0
      ≡ record { stack = case_frame line v (n + 1) ∷ fs }
unfolding process_or increment_i32
case-step (pos t) line n fs h = ground arith
case-step (negsuc t) line n fs h = ground arith

case-steps :
    (m : ℕ) (v : ℤ) (line n : ℕ) (fs : List ConditionalFrame)
    → n + m < 2147483648
    → process_ors m (record { stack = case_frame line v n ∷ fs })
      ≡ record { stack = case_frame line v (n + m) ∷ fs }
unfolding process_ors
case-steps zero v line n fs h = ap (λ k. record { stack = case_frame line v k ∷ fs }) (omega arith)
case-steps (suc m) v line n fs h =
    ap (process_ors m) (case-step v line n fs (omega arith))
    ∙ case-steps m v line (n + 1) fs (omega arith)
    ∙ ap (λ k. record { stack = case_frame line v k ∷ fs }) (omega arith)

ifcase_frame :
    (v : ℤ) (c : ConditionalState) (line : ℕ)
    → process_ifcase_at c v line ≡ record { stack = case_frame line v 0 ∷ c.stack }
unfolding process_ifcase_at
ifcase_frame (pos t) c line = ground arith
ifcase_frame (negsuc t) c line = ground arith

-- Whether a number names one of the cases 0 to n.
abbrev pub among : ℤ → ℕ → Bool
among (pos t) n = leb t n
among (negsuc t) n = false

case-skipping :
    (v : ℤ) (line n : ℕ) (fs : List ConditionalFrame)
    → is_skipping (record { stack = case_frame line v n ∷ fs }) ≡ not (v =? pos n)
unfolding is_skipping
case-skipping (pos t) line n fs = refl
case-skipping (negsuc t) line n fs = refl

case-else :
    (v : ℤ) (line n : ℕ) (fs : List ConditionalFrame)
    → is_skipping (process_else (record { stack = case_frame line v n ∷ fs })).0 ≡ among v n
unfolding is_skipping process_else
case-else (pos t) line n fs = ground arith
case-else (negsuc t) line n fs = refl

-- After `\ifcase v` and n times `\or` the branch is executed exactly when v is n. A following
-- `\else` is executed exactly when v is none of the cases 0 to n: negative, or larger than n.
pub ifcase_selects :
    (c : ConditionalState) (v : ℤ) (line n : ℕ)
    → n < 2147483648
    → (is_skipping (process_ors n (process_ifcase_at c v line)) ≡ not (v =? pos n))
      × (is_skipping (process_else (process_ors n (process_ifcase_at c v line))).0 ≡ among v n)
ifcase_selects c v line n h =
    let e =
      ap (process_ors n) (ifcase_frame v c line)
      ∙ case-steps n v line 0 c.stack (omega arith)
      ∙ ap (λ k. record { stack = case_frame line v k ∷ c.stack }) (omega arith) in
    (
      ap is_skipping e ∙ case-skipping v line n c.stack,
      ap (λ x. is_skipping (process_else x).0) e ∙ case-else v line n c.stack,
    )
