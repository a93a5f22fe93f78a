-- ===== src/Parser/Tokenizer/Words.antt =====
-- The loops that read a control sequence and skip a comment: each ends, without a panic, back in the
-- normal mode.
use ferritex.Prelude.{
  ℕ, ◌+◌, ◌*◌, ◌≤◌, ◌<◌, ◌≡◌, refl, ap, ◌∙◌, sym, subst, Bool, true, false, not, ◌||◌, Option, none,
  some, [], ◌∷◌, arith, ◌==◌, ==_refl, if◌then◌else◌, ◌=?◌,
}
use ferritex.Parser.Token.{letter, cat_eq, Token}
use ferritex.Parser.Tokenizer.State.{
  Tokenizer, DecodedChar, Mode, normal, reading_control_sequence, skipping_comment, panic, pure,
  Turn, again, size, look, fuel_for,
}
use ferritex.Parser.Tokenizer.Scan.{
  catcode_for_char, finish_mode, push_name, after_name, name_letter, control_char, control_turn,
  end_comment, next_control_sequence_token, comment_char, comment_turn, skip_comment,
}
use ferritex.Parser.Tokenizer.Progress.{
  Ensures, AfterTurn, loop-Ensures, peek-Ensures, expect-Ensures,
}
use ferritex.Parser.Tokenizer.Arms.{weight, mode_weight, Below, BelowE}

abbrev pub IsReading : Mode → Type 0
IsReading (reading_control_sequence line column name) = Unit
IsReading _ = ⊥

record InWord (n : ℕ) (s : Tokenizer) : Type 0 where
  reads : IsReading s.mode
  fits : 2 * size s + 1 ≤ n

abbrev WordTurn : ℕ → ℕ → Turn (Option Token) → Tokenizer → Type 0
WordTurn n m = AfterTurn (Below n) (InWord n) size m

push_reads : (c : ℕ) (m : Mode) → IsReading m → IsReading (push_name c m)
push_reads c (reading_control_sequence line column name) h = h
push_reads c normal h = h
push_reads c skipping_comment h = h

reading_weight : (m : Mode) → IsReading m → mode_weight m ≡ 1
reading_weight (reading_control_sequence line column name) h = refl
reading_weight normal h = absurd h
reading_weight skipping_comment h = absurd h

module _ (n m : ℕ) (s : Tokenizer) (i : InWord n s) where
  finish_turn :
      (mode : Mode) → IsReading mode → Ensures (WordTurn n m) (BelowE n) (finish_mode mode s)
  finish_turn (reading_control_sequence line column name) h = omega (arith, i.fits)
  finish_turn normal h = absurd h
  finish_turn skipping_comment h = absurd h

  module _ (d : DecodedChar) (peeked : s.lookahead ≡ some d) where
    after_turn :
        (mode : Mode) → IsReading mode → Ensures (WordTurn n m) (BelowE n) (after_name mode s)
    after_turn (reading_control_sequence line column []) h =
        expect-Ensures (WordTurn n m) (BelowE n) _ s d peeked
          (omega (arith, i.fits, ap look peeked))
    after_turn (reading_control_sequence line column (c ∷ cs)) h = omega (arith, i.fits)
    after_turn normal h = absurd h
    after_turn skipping_comment h = absurd h

    letter_turn : size s ≤ m → Ensures (WordTurn n m) (BelowE n) (name_letter s)
    unfolding name_letter
    letter_turn h = expect-Ensures (WordTurn n m) (BelowE n) _ s d peeked (
      record {
        reads = push_reads d.ch s.mode i.reads;
        fits = omega (arith, i.fits, ap look peeked);
      },
      omega (arith, ap look peeked),
    )

    word_turn :
        (b : Bool)
        → size s ≤ m
        → Ensures (WordTurn n m) (BelowE n) ((if b then name_letter else after_name s.mode) s)
    word_turn true h = letter_turn h
    word_turn false h = after_turn s.mode i.reads

control_turn-Ensures :
    (n : ℕ) (s : Tokenizer) → InWord n s → Ensures (WordTurn n (size s)) (BelowE n) (control_turn s)
unfolding control_turn
control_turn-Ensures n s i =
    peek-Ensures (WordTurn n (size s)) (BelowE n) control_char s
      (λ l r. finish_turn n (size s) s i s.mode i.reads)
      (λ d s' p.
        word_turn n (size s) s'
          (record {
            reads = subst IsReading (sym p.mode) i.reads;
            fits = omega (arith, p.smaller, i.fits);
          })
          d p.lookahead (catcode_for_char s' d.ch =? letter) p.smaller)
      (λ s' m z. omega (arith, i.fits, ap mode_weight m, reading_weight s.mode i.reads))

pub next_control_sequence_token-Ensures :
    (s : Tokenizer)
    → IsReading s.mode
    → Ensures (Below (weight s)) (BelowE (weight s)) (next_control_sequence_token s)
unfolding next_control_sequence_token
next_control_sequence_token-Ensures s h =
    loop-Ensures (Below (weight s)) (BelowE (weight s)) (InWord (weight s)) size control_turn
      (control_turn-Ensures (weight s)) (fuel_for s) s
      (record { reads = h; fits = omega (arith, reading_weight s.mode h) }) (omega arith)

record InComment (n : ℕ) (s : Tokenizer) : Type 0 where
  skips : s.mode ≡ skipping_comment
  fits : 2 * size s + 1 ≤ n

abbrev CommentTurn : ℕ → ℕ → Turn (Unit {0}) → Tokenizer → Type 0
CommentTurn n m = AfterTurn (Below n) (InComment n) size m

-- The character that is taken is the one that was peeked, so the `unreachable!` is not met.
comment_branch :
    (n m : ℕ) (s' : Tokenizer) (b : Bool) (line column : ℕ)
    → InComment n s'
    → size s' < m
    → Ensures (CommentTurn n m) (BelowE n) (
        (if b
            then end_comment
            else if not (line == line) || not (column == column)
            then (λ s. (panic, s))
            else pure again)
          s')
comment_branch n m s' true line column i h = omega (arith, i.fits)
comment_branch n m s' false line column i h = rw (==_refl line, ==_refl column) (i, h)

comment_turn-Ensures :
    (n : ℕ) (s : Tokenizer)
    → InComment n s
    → Ensures (CommentTurn n (size s)) (BelowE n) (comment_turn s)
unfolding comment_turn
comment_turn-Ensures n s i =
    peek-Ensures (CommentTurn n (size s)) (BelowE n) comment_char s (λ l r. omega (arith, i.fits))
      (λ d s' p. expect-Ensures (CommentTurn n (size s)) (BelowE n) _ s' d p.lookahead (
        comment_branch n (size s) (record s' { lookahead = none }) _ d.line d.column
          (record {
            skips = p.mode ∙ i.skips;
            fits = omega (arith, i.fits, p.smaller, ap look p.lookahead);
          })
          (omega (arith, p.smaller, ap look p.lookahead))))
      (λ s' m z. omega (arith, i.fits, ap mode_weight (m ∙ i.skips)))

pub skip_comment-Ensures :
    (s : Tokenizer)
    → s.mode ≡ skipping_comment
    → Ensures (Below (weight s)) (BelowE (weight s)) (skip_comment s)
unfolding skip_comment
skip_comment-Ensures s h =
    loop-Ensures (Below (weight s)) (BelowE (weight s)) (InComment (weight s)) size comment_turn
      (comment_turn-Ensures (weight s)) (fuel_for s) s
      (record { skips = h; fits = omega (arith, ap mode_weight h) }) (omega arith)
