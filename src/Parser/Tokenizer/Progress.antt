-- ===== src/Parser/Tokenizer/Progress.antt =====
-- Rules for the methods of the tokenizer: what a method ensures, what reading a character consumes, and
-- when a loop ends.
use ferritex.Prelude.{
  ℕ, zero, suc, ◌-◌, ◌≤◌, ◌<◌, ◌≡◌, refl, ap, ◌∙◌, sym, subst, ◌||◌, Option, none, some, List, [],
  ◌∷◌, arith, length, take, drop, length-drop-le, ltb, ◌==◌, Bool-cases, inl, inr,
}
use ferritex.Parser.Tokenizer.State.{
  Tokenizer, DecodedChar, Result, ok, err, panic, no_fuel, M, bind_result, ◌>>=◌, Turn, again, done,
  loop, size,
}
use ferritex.Parser.Tokenizer.Decode.{
  Decoded, decode_next_char, decode_bytes, decode_width, decode_scalar, accept, decode_invalid_byte,
  all_continuation, from_utf8, utf8_sequence_width, behind_line_end,
}
use ferritex.Parser.Tokenizer.Scan.{
  peek_char, peek_lookahead, peek_decoded, take_char, take_expected, take_lookahead, or_panic,
}

-- A result that is no panic and has not run out of fuel: `Q` of a value, `E` of an error's state.
abbrev pub Ensures :
    {A : Type 0} → (A → Tokenizer → Type 0) → (Tokenizer → Type 0) → Result A × Tokenizer → Type 0
Ensures Q E (ok a, s) = Q a s
Ensures Q E (err e, s) = E s
Ensures Q E (panic, s) = ⊥
Ensures Q E (no_fuel, s) = ⊥

pub Ensures-bind :
    {A B : Type 0} (P : A → Tokenizer → Type 0) (Q : B → Tokenizer → Type 0)
    (E : Tokenizer → Type 0) (r : Result A × Tokenizer) (f : A → M B)
    → Ensures P E r
    → ((a : A) (s : Tokenizer) → P a s → Ensures Q E (f a s))
    → Ensures Q E (bind_result r.0 r.1 f)
Ensures-bind P Q E (ok a, s) f h k = k a s h
Ensures-bind P Q E (err e, s) f h k = h
Ensures-bind P Q E (panic, s) f h k = h
Ensures-bind P Q E (no_fuel, s) f h k = h

-- A turn that leaves the loop ensures `Q`; one that goes round keeps `I` and lowers the measure.
abbrev pub AfterTurn :
    {A : Type 0}
    → (A → Tokenizer → Type 0)
    → (Tokenizer → Type 0)
    → (Tokenizer → ℕ)
    → ℕ
    → Turn A
    → Tokenizer
    → Type 0
AfterTurn Q I measure n again s = I s × (measure s < n)
AfterTurn Q I measure n (done a) s = Q a s

module _ {A : Type 0} (Q : A → Tokenizer → Type 0) (E I : Tokenizer → Type 0)
    (measure : Tokenizer → ℕ) (body : M (Turn A))
    (turn : (s : Tokenizer) → I s → Ensures (AfterTurn Q I measure (measure s)) E (body s)) where
  -- With a measure below the fuel the loop ends.
  pub loop-Ensures :
      (fuel : ℕ) (s : Tokenizer) → I s → measure s < fuel → Ensures Q E (loop fuel body s)
  unfolding loop
  loop-Ensures zero s i h = absurd (omega arith)
  loop-Ensures (suc fuel) s i h =
      Ensures-bind (AfterTurn Q I measure (measure s)) Q E (body s) _ (turn s i)
        (next (loop-Ensures fuel))
    where
      next :
          ((s' : Tokenizer) → I s' → measure s' < fuel → Ensures Q E (loop fuel body s'))
          → (t : Turn A) (s' : Tokenizer) → AfterTurn Q I measure (measure s) t s'
          → Ensures Q E (elim t [ again ↦ loop fuel body s' | done a ↦ (ok a, s') ])
      next ih again s' k = ih s' k.0 (omega (arith, k.1))
      next ih (done a) s' k = k

-- Decoding consumes a byte at least, and touches the input and the position only.
pub record Consumes (n : ℕ) (s s' : Tokenizer) : Type 0 where
  pub shorter : length s'.rest < n
  pub lookahead : s'.lookahead ≡ s.lookahead
  pub mode : s'.mode ≡ s.mode
  pub line_state : s'.line_state ≡ s.line_state

abbrev pub DecodeFacts : ℕ → Tokenizer → Decoded → Type 0
DecodeFacts n s (none, s') = (s' ≡ s) × (n ≡ 0)
DecodeFacts n s (some d, s') = Consumes n s s'

accept_facts :
    (n : ℕ) (s : Tokenizer) (ch : ℕ) (r : List ℕ) → length r < n → DecodeFacts n s (accept s ch r)
unfolding accept
accept_facts n s ch r h = ground arith

invalid_facts :
    (n : ℕ) (s : Tokenizer) (b : ℕ) (r : List ℕ)
    → length r < n
    → DecodeFacts n s (decode_invalid_byte s b r)
unfolding decode_invalid_byte
invalid_facts n s b r h = ground arith

length-behind : (first : ℕ) (bs : List ℕ) → length (behind_line_end first bs) ≤ length bs
length-behind first [] = omega arith
length-behind first (b ∷ bs) = ground arith

scalar_facts :
    (n : ℕ) (s : Tokenizer) (first : ℕ) (bs : List ℕ) (c : Option ℕ) (after : List ℕ)
    → length bs < n
    → length after < n
    → DecodeFacts n s (decode_scalar s first bs c after)
scalar_facts n s first bs none after h k = invalid_facts n s first bs h
scalar_facts n s first bs (some c) after h k = accept_facts n s c after k

width_facts :
    (s : Tokenizer) (first : ℕ) (bs : List ℕ) (w : Option ℕ)
    → DecodeFacts (suc (length bs)) s (decode_width s first bs w)
width_facts s first bs none = invalid_facts _ s first bs (omega arith)
width_facts s first bs (some w) = elim (Bool-cases (ltb (length (first ∷ bs)) w)) [
  | inl short ↦ rw short (invalid_facts _ s first bs (omega arith))
  | inr long ↦ rw long (elim (Bool-cases (all_continuation (take (w - 1) bs))) [
    | inl good ↦ rw good (
        scalar_facts _ s first bs (from_utf8 (first ∷ take (w - 1) bs)) (drop (w - 1) bs)
          (omega arith) (omega (arith, length-drop-le (w - 1) bs)))
    | inr bad ↦ rw bad (invalid_facts _ s first bs (omega arith))
  ])
]

decode_facts : (s : Tokenizer) (xs : List ℕ) → DecodeFacts (length xs) s (decode_bytes s xs)
decode_facts s [] = (refl, refl)
decode_facts s (first ∷ bs) = elim (Bool-cases (first == 13 || first == 10)) [
  | inl line_end ↦
      rw line_end
        (accept_facts _ s 10 (behind_line_end first bs) (omega (arith, length-behind first bs)))
  | inr other ↦ rw other (elim (Bool-cases (ltb first 128)) [
    | inl ascii ↦ rw ascii (accept_facts _ s first bs (omega arith))
    | inr wide ↦ rw wide (width_facts s first bs (utf8_sequence_width first))
  ])
]

-- The character that a peek has left as the lookahead; what remains is not more than before.
pub record Peeked (s s' : Tokenizer) (d : DecodedChar) : Type 0 where
  pub lookahead : s'.lookahead ≡ some d
  pub mode : s'.mode ≡ s.mode
  pub line_state : s'.line_state ≡ s.line_state
  pub smaller : size s' ≤ size s

module _ {B : Type 0} (Q : B → Tokenizer → Type 0) (E : Tokenizer → Type 0)
    (f : Option DecodedChar → M B) where
  decoded-Ensures :
      (s : Tokenizer) (r : Decoded)
      → DecodeFacts (length s.rest) s r
      → s.lookahead ≡ none
      → (length s.rest ≡ 0 → Ensures Q E (f none s))
      → ((d : DecodedChar) (s' : Tokenizer) → Peeked s s' d → Ensures Q E (f (some d) s'))
      → ((s' : Tokenizer) → s'.mode ≡ s.mode → size s' < size s → E s')
      → Ensures Q E (bind_result (peek_decoded r).0 (peek_decoded r).1 f)
  decoded-Ensures s (none, s') h l k₀ k₁ k₂ = subst (λ x. Ensures Q E (f none x)) (sym h.0) (k₀ h.1)
  decoded-Ensures s (some (d, none), s') h l k₀ k₁ k₂ =
      k₁ d (record s' { lookahead = some d })
        (record {
          lookahead = refl;
          mode = h.mode;
          line_state = h.line_state;
          smaller = omega (arith, h.shorter);
        })
  decoded-Ensures s (some (d, some e), s') h l k₀ k₁ k₂ =
      k₂ (record s' { lookahead = some d }) h.mode (omega (arith, h.shorter))

  lookahead-Ensures :
      (s : Tokenizer) (o : Option DecodedChar)
      → s.lookahead ≡ o
      → (s.lookahead ≡ none → length s.rest ≡ 0 → Ensures Q E (f none s))
      → ((d : DecodedChar) (s' : Tokenizer) → Peeked s s' d → Ensures Q E (f (some d) s'))
      → ((s' : Tokenizer) → s'.mode ≡ s.mode → size s' < size s → E s')
      → Ensures Q E (bind_result (peek_lookahead o s).0 (peek_lookahead o s).1 f)
  unfolding decode_next_char
  lookahead-Ensures s none l k₀ k₁ k₂ =
      decoded-Ensures s (decode_bytes s s.rest) (decode_facts s s.rest) l (k₀ l) k₁ k₂
  lookahead-Ensures s (some d) l k₀ k₁ k₂ =
      k₁ d s (record { lookahead = l; mode = refl; line_state = refl; smaller = omega arith })

  pub peek-Ensures :
      (s : Tokenizer)
      → (s.lookahead ≡ none → length s.rest ≡ 0 → Ensures Q E (f none s))
      → ((d : DecodedChar) (s' : Tokenizer) → Peeked s s' d → Ensures Q E (f (some d) s'))
      → ((s' : Tokenizer) → s'.mode ≡ s.mode → size s' < size s → E s')
      → Ensures Q E ((peek_char >>= f) s)
  unfolding peek_char
  peek-Ensures s = lookahead-Ensures s s.lookahead refl

-- A character that has been peeked is taken.
pub take_char-peeked :
    (s : Tokenizer) (d : DecodedChar)
    → s.lookahead ≡ some d
    → take_char s ≡ (ok (some d), record s { lookahead = none })
unfolding take_char
take_char-peeked s d h =
    ap (λ o. bind_result (peek_lookahead o s).0 (peek_lookahead o s).1 (λ _. take_lookahead)) h
    ∙ ap (λ o. (ok o, record s { lookahead = none })) h

pub take_expected-peeked :
    (s : Tokenizer) (d : DecodedChar)
    → s.lookahead ≡ some d
    → take_expected s ≡ (ok d, record s { lookahead = none })
unfolding take_expected
take_expected-peeked s d h =
    ap (λ (r : Result (Option DecodedChar) × Tokenizer). bind_result r.0 r.1 or_panic)
      (take_char-peeked s d h)

module _ {B : Type 0} (Q : B → Tokenizer → Type 0) (E : Tokenizer → Type 0) where
  pub take-Ensures :
      (f : Option DecodedChar → M B) (s : Tokenizer) (d : DecodedChar)
      → s.lookahead ≡ some d
      → Ensures Q E (f (some d) (record s { lookahead = none }))
      → Ensures Q E ((take_char >>= f) s)
  take-Ensures f s d h k =
      subst (λ (r : Result (Option DecodedChar) × Tokenizer). Ensures Q E (bind_result r.0 r.1 f))
        (sym (take_char-peeked s d h)) k

  pub expect-Ensures :
      (f : DecodedChar → M B) (s : Tokenizer) (d : DecodedChar)
      → s.lookahead ≡ some d
      → Ensures Q E (f d (record s { lookahead = none }))
      → Ensures Q E ((take_expected >>= f) s)
  expect-Ensures f s d h k =
      subst (λ (r : Result DecodedChar × Tokenizer). Ensures Q E (bind_result r.0 r.1 f))
        (sym (take_expected-peeked s d h)) k
