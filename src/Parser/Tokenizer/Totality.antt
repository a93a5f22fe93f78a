-- ===== src/Parser/Tokenizer/Totality.antt =====
-- `next_token` always returns, and the items of any input come to an end.
use ferritex.Prelude.{
  ℕ, zero, suc, ◌+◌, ◌*◌, ◌≤◌, ◌<◌, ◌≡◌, refl, ap, sym, subst, true, false, ◌⊎◌, inl, inr, Option,
  none, some, List, [], ◌∷◌, arith, length, Bool-cases,
}
use ferritex.Parser.Token.{Token}
use ferritex.Parser.Tokenizer.State.{
  Tokenizer, TokenizerDiagnostic, Mode, normal, reading_control_sequence, skipping_comment, Result,
  ok, err, panic, no_fuel, fuel_for, new_tokenizer,
}
use ferritex.Parser.Tokenizer.Scan.{
  is_finished, outcome, settle, token_turn, next_token, skip_comment,
}
use ferritex.Parser.Tokenizer.Progress.{Ensures, Ensures-bind, AfterTurn, loop-Ensures}
use ferritex.Parser.Tokenizer.Arms.{weight, mode_weight, Below, BelowE}
use ferritex.Parser.Tokenizer.Loops.{Normally, next_normal_token-Ensures}
use ferritex.Parser.Tokenizer.Words.{
  IsReading, next_control_sequence_token-Ensures, skip_comment-Ensures,
}

-- What `next_token` ensures: at `none` the input is finished, and a token has consumed some of it.
abbrev pub Tokenized : ℕ → Option Token → Tokenizer → Type 0
Tokenized n none s = is_finished s ≡ true
Tokenized n (some t) s = weight s < n

mode_weight-le : (m : Mode) → mode_weight m ≤ 1
mode_weight-le normal = omega arith
mode_weight-le (reading_control_sequence line column name) = omega arith
mode_weight-le skipping_comment = omega arith

below-Normally : (n : ℕ) (o : Option Token) (s : Tokenizer) → weight s < n → Normally n o s
below-Normally n none s h = inr h
below-Normally n (some t) s h = h

weaken :
    {A : Type 0} (Q R : A → Tokenizer → Type 0) (E : Tokenizer → Type 0) (r : Result A × Tokenizer)
    → ((a : A) (s : Tokenizer) → Q a s → R a s)
    → Ensures Q E r
    → Ensures R E r
weaken Q R E (ok a, s) k h = k a s h
weaken Q R E (err e, s) k h = h
weaken Q R E (panic, s) k h = h
weaken Q R E (no_fuel, s) k h = h

outcome-Ensures :
    (s : Tokenizer) (m : Mode)
    → s.mode ≡ m
    → Ensures (Normally (weight s)) (BelowE (weight s)) (outcome m s)
outcome-Ensures s normal h = next_normal_token-Ensures s h
outcome-Ensures s (reading_control_sequence line column name) h =
    weaken (Below (weight s)) (Normally (weight s)) (BelowE (weight s)) _
      (below-Normally (weight s))
      (next_control_sequence_token-Ensures s (subst IsReading (sym h) tt))
outcome-Ensures s skipping_comment h =
    Ensures-bind (Below (weight s)) (Normally (weight s)) (BelowE (weight s)) (skip_comment s) _
      (skip_comment-Ensures s h) (λ a s' k. inr k)

abbrev Within : ℕ → Tokenizer → Type 0
Within n s = weight s ≤ n

unfinished :
    (n m : ℕ) (s : Tokenizer)
    → m ≤ n
    → is_finished s ≡ false
    → (is_finished s ≡ true) ⊎ (weight s < m)
    → Within n s × (weight s < m)
unfinished n m s k more (inl finished) = cc
unfinished n m s k more (inr h) = (omega arith, h)

settle-Ensures :
    (n m : ℕ) (o : Option Token) (s : Tokenizer)
    → m ≤ n
    → Normally m o s
    → Ensures (AfterTurn (Tokenized n) (Within n) weight m) (BelowE n) (settle o s)
settle-Ensures n m (some t) s k h = omega arith
settle-Ensures n m none s k h = elim (Bool-cases (is_finished s)) [
  | inl finished ↦ rw finished finished
  | inr more ↦ rw more (unfinished n m s k more h)
]

weaken_error :
    {A : Type 0} (Q : A → Tokenizer → Type 0) (n m : ℕ) (r : Result A × Tokenizer)
    → m ≤ n
    → Ensures Q (BelowE m) r
    → Ensures Q (BelowE n) r
weaken_error Q n m (ok a, s) k h = h
weaken_error Q n m (err e, s) k h = omega arith
weaken_error Q n m (panic, s) k h = h
weaken_error Q n m (no_fuel, s) k h = h

token_turn-Ensures :
    (n : ℕ) (s : Tokenizer)
    → Within n s
    → Ensures (AfterTurn (Tokenized n) (Within n) weight (weight s)) (BelowE n) (token_turn s)
unfolding token_turn
token_turn-Ensures n s i =
    Ensures-bind (Normally (weight s)) _ (BelowE n) (outcome s.mode s) settle
      (weaken_error (Normally (weight s)) n (weight s) _ i (outcome-Ensures s s.mode refl))
      (λ o s' h. settle-Ensures n (weight s) o s' i h)

-- From every state `next_token` returns: it meets no `expect` and no `unreachable!`, and no loop of
-- it runs for ever. At `none` the input is finished. A token or an error leaves less to do.
pub next_token-Ensures :
    (s : Tokenizer) → Ensures (Tokenized (weight s)) (BelowE (weight s)) (next_token s)
unfolding next_token
next_token-Ensures s =
    loop-Ensures (Tokenized (weight s)) (BelowE (weight s)) (Within (weight s)) weight token_turn
      (token_turn-Ensures (weight s)) (fuel_for s) s (omega arith)
      (omega (arith, mode_weight-le s.mode))

-- The items of the iterator, until it is at its end.
pub data Item : Type 0 where
  token : Token → Item
  bad_byte : TokenizerDiagnostic → Item

abbrev prepend : Item → Option (List Item) → Option (List Item)
prepend i none = none
prepend i (some items) = some (i ∷ items)

abbrev collect_item :
    (Tokenizer → Option (List Item)) → Result (Option Token) × Tokenizer → Option (List Item)
collect_item rest (ok none, s) = some []
collect_item rest (ok (some t), s) = prepend (token t) (rest s)
collect_item rest (err e, s) = prepend (bad_byte e) (rest s)
collect_item rest (panic, s) = none
collect_item rest (no_fuel, s) = none

-- `none` if the fuel runs out, or at a panic.
unfoldable pub collect : ℕ → Tokenizer → Option (List Item)
collect zero s = none
collect (suc fuel) s = collect_item (λ s'. collect fuel s') (next_token s)

Collected : ℕ → Option (List Item) → Type 0
Collected n o = (items : List Item) × (o ≡ some items) × (length items ≤ n)

prepend-Collected :
    (i : Item) (n : ℕ) (o : Option (List Item)) → Collected n o → Collected (suc n) (prepend i o)
unfolding Collected
prepend-Collected i n o (items, p, h) = (i ∷ items, ap (prepend i) p, omega arith)

grow : (n m : ℕ) (o : Option (List Item)) → n ≤ m → Collected n o → Collected m o
unfolding Collected
grow n m o k (items, p, h) = (items, p, omega arith)

item_Collected :
    (n : ℕ) (rest : Tokenizer → Option (List Item)) (r : Result (Option Token) × Tokenizer)
    → ((s' : Tokenizer) → weight s' < n → Collected (weight s') (rest s'))
    → Ensures (Tokenized n) (BelowE n) r
    → Collected n (collect_item rest r)
unfolding Collected
item_Collected n rest (ok none, s') ih k = ([], refl, omega arith)
item_Collected n rest (ok (some t), s') ih k =
    grow (suc (weight s')) n _ k (prepend-Collected (token t) (weight s') _ (ih s' k))
item_Collected n rest (err e, s') ih k =
    grow (suc (weight s')) n _ k (prepend-Collected (bad_byte e) (weight s') _ (ih s' k))
item_Collected n rest (panic, s') ih k = absurd k
item_Collected n rest (no_fuel, s') ih k = absurd k

collect_from : (fuel : ℕ) (s : Tokenizer) → weight s < fuel → Collected (weight s) (collect fuel s)
unfolding collect
collect_from zero s h = absurd (omega arith)
collect_from (suc fuel) s h =
    item_Collected (weight s) (λ s'. collect fuel s') (next_token s)
      (λ s' k. collect_from fuel s' (omega arith)) (next_token-Ensures s)

-- Every input, also one that is not UTF-8, comes to an end without a panic, after at most four items
-- for each byte.
pub tokenize_ends :
    (input : List ℕ)
    → (items : List Item) × (collect (4 * length input + 1) (new_tokenizer input) ≡ some items)
      × (length items ≤ 4 * length input)
unfolding Collected new_tokenizer
tokenize_ends input =
    let (items, p, h) = collect_from (4 * length input + 1) (new_tokenizer input) (omega arith) in
    (items, p, omega arith)
