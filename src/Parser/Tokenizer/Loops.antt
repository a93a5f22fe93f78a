-- ===== src/Parser/Tokenizer/Loops.antt =====
-- The loops of the tokenizer: each ends, without a panic, and leaves less to do.
use ferritex.Prelude.{
  ℕ, ◌+◌, ◌*◌, ◌≤◌, ◌<◌, ◌≡◌, refl, ap, ◌∙◌, Bool, true, false, ◌&&◌, ◌⊎◌, Option, none, some, List,
  [], ◌∷◌, arith, length, inl, inr,
}
use ferritex.Parser.Token.{CatCode, end_of_line, ignored, space, cat_eq, Token}
use ferritex.Parser.Tokenizer.State.{
  Tokenizer, DecodedChar, LineState, new_line, skip_spaces, mid_line, normal, pure, ◌>>=◌, Turn,
  done, size, look, fuel_for,
}
use ferritex.Parser.Tokenizer.Scan.{
  catcode_for_char, consume_current_char, at_new_line, at_skip_spaces, normal_char, normal_turn,
  next_normal_token, is_finished, is_empty,
}
use ferritex.Parser.Tokenizer.Progress.{
  Ensures, Ensures-bind, AfterTurn, loop-Ensures, peek-Ensures, take-Ensures,
}
use ferritex.Parser.Tokenizer.Arms.{weight, mode_weight, Below, BelowE, consume-Ensures}

abbrev pub line_weight : LineState → ℕ
line_weight new_line = 0
line_weight skip_spaces = 1
line_weight mid_line = 0

line_weight-le : (l : LineState) → line_weight l ≤ 1
line_weight-le new_line = omega arith
line_weight-le skip_spaces = omega arith
line_weight-le mid_line = omega arith

-- After a normal token: the input is finished, or there is less to do.
abbrev pub Normally : ℕ → Option Token → Tokenizer → Type 0
Normally n none s = (is_finished s ≡ true) ⊎ (weight s < n)
Normally n (some t) s = weight s < n

record InNormal (n : ℕ) (s : Tokenizer) : Type 0 where
  is_normal : s.mode ≡ normal
  fits : 2 * size s ≤ n

abbrev normal_measure : Tokenizer → ℕ
normal_measure s = 2 * size s + line_weight s.line_state

abbrev NormalTurn : ℕ → ℕ → Turn (Option Token) → Tokenizer → Type 0
NormalTurn n m = AfterTurn (Normally n) (InNormal n) normal_measure m

below-Normally : (n : ℕ) (o : Option Token) (s : Tokenizer) → weight s < n → Normally n o s
below-Normally n none s h = inr h
below-Normally n (some t) s h = h

finished_at_end :
    (s : Tokenizer)
    → s.lookahead ≡ none
    → length s.rest ≡ 0
    → s.mode ≡ normal
    → is_finished s ≡ true
unfolding is_finished
finished_at_end s l r m = rw (l, m) (empty s.rest r)
  where
    empty : (xs : List ℕ) → length xs ≡ 0 → is_empty xs && true ≡ true
    empty [] h = refl
    empty (x ∷ xs) h = absurd (omega arith)

module _ (n m : ℕ) (s : Tokenizer) (d : DecodedChar) (peeked : s.lookahead ≡ some d)
    (i : InNormal n s) where
  consumed_turn :
      (at_line_start : Bool)
      → Ensures
          (NormalTurn n m)
          (BelowE n)
          ((consume_current_char d at_line_start >>= λ token. pure (done token)) s)
  unfolding consume_current_char
  consumed_turn b =
      Ensures-bind (Below n) (NormalTurn n m) (BelowE n) (consume_current_char d b s) _
        (consume-Ensures n s d peeked i.is_normal i.fits (catcode_for_char s d.ch) b)
        (λ o s' h. below-Normally n o s' h)

  new_line_turn :
      (cat : CatCode)
      → normal_measure s ≤ m
      → s.line_state ≡ new_line
      → Ensures (NormalTurn n m) (BelowE n) (at_new_line cat d s)
  new_line_turn ignored h l = take-Ensures (NormalTurn n m) (BelowE n) _ s d peeked (
    record { is_normal = i.is_normal; fits = omega (arith, i.fits, ap look peeked) },
    omega (arith, ap look peeked),
  )
  new_line_turn space h l = take-Ensures (NormalTurn n m) (BelowE n) _ s d peeked (
    record { is_normal = i.is_normal; fits = omega (arith, i.fits, ap look peeked) },
    omega (arith, ap look peeked),
  )
  new_line_turn end_of_line h l =
      take-Ensures (NormalTurn n m) (BelowE n) _ s d peeked
        (omega (arith, i.fits, ap mode_weight i.is_normal, ap look peeked))
  new_line_turn cat h l = consumed_turn true

  skip_spaces_turn :
      (cat : CatCode)
      → normal_measure s ≤ m
      → s.line_state ≡ skip_spaces
      → Ensures (NormalTurn n m) (BelowE n) (at_skip_spaces cat s)
  skip_spaces_turn ignored h l = take-Ensures (NormalTurn n m) (BelowE n) _ s d peeked (
    record { is_normal = i.is_normal; fits = omega (arith, i.fits, ap look peeked) },
    omega (arith, ap look peeked),
  )
  skip_spaces_turn space h l = take-Ensures (NormalTurn n m) (BelowE n) _ s d peeked (
    record { is_normal = i.is_normal; fits = omega (arith, i.fits, ap look peeked) },
    omega (arith, ap look peeked),
  )
  skip_spaces_turn end_of_line h l = take-Ensures (NormalTurn n m) (BelowE n) _ s d peeked (
    record { is_normal = i.is_normal; fits = omega (arith, i.fits, ap look peeked) },
    omega (arith, ap look peeked, ap line_weight l),
  )
  skip_spaces_turn cat h l =
      (record { is_normal = i.is_normal; fits = i.fits }, omega (arith, ap line_weight l))

  char_turn :
      (l : LineState)
      → s.line_state ≡ l
      → normal_measure s ≤ m
      → Ensures (NormalTurn n m) (BelowE n) (normal_char l (some d) s)
  char_turn new_line l h = new_line_turn (catcode_for_char s d.ch) h l
  char_turn skip_spaces l h = skip_spaces_turn (catcode_for_char s d.ch) h l
  char_turn mid_line l h = consumed_turn false

normal_turn-Ensures :
    (n : ℕ) (s : Tokenizer)
    → InNormal n s
    → Ensures (NormalTurn n (normal_measure s)) (BelowE n) (normal_turn s)
unfolding normal_turn
normal_turn-Ensures n s i =
    peek-Ensures (NormalTurn n (normal_measure s)) (BelowE n) (normal_char s.line_state) s
      (λ l r. at_end s.line_state (finished_at_end s l r i.is_normal))
      (λ d s' p.
        char_turn n (normal_measure s) s' d p.lookahead
          (record { is_normal = p.mode ∙ i.is_normal; fits = omega (arith, p.smaller, i.fits) })
          s.line_state p.line_state (omega (arith, p.smaller, ap line_weight p.line_state)))
      (λ s' m z. omega (arith, i.fits, ap mode_weight (m ∙ i.is_normal)))
  where
    at_end :
        (l : LineState)
        → is_finished s ≡ true
        → Ensures (NormalTurn n (normal_measure s)) (BelowE n) (normal_char l none s)
    at_end new_line h = inl h
    at_end skip_spaces h = inl h
    at_end mid_line h = inl h

pub next_normal_token-Ensures :
    (s : Tokenizer)
    → s.mode ≡ normal
    → Ensures (Normally (weight s)) (BelowE (weight s)) (next_normal_token s)
unfolding next_normal_token
next_normal_token-Ensures s h =
    loop-Ensures (Normally (weight s)) (BelowE (weight s)) (InNormal (weight s)) normal_measure
      normal_turn (normal_turn-Ensures (weight s)) (fuel_for s) s
      (record { is_normal = h; fits = omega arith }) (omega (arith, line_weight-le s.line_state))
