-- ===== src/Parser/Conditionals/Bodies.antt =====
-- The text of a branch, and how the loop passes over it.
use native.Mathlib.Numerals.{add-one}
use ferritex.Prelude.{
  ℕ, zero, suc, ◌≡◌, refl, ap, ◌∙◌, true, false, List, [], ◌∷◌, ◌++◌, append_assoc,
}
use ferritex.Parser.Token.{Token}
use ferritex.Parser.Conditionals.{resumed, ConditionalState, is_conditional_start}
use ferritex.Parser.Conditionals.Skip.{
  Role, unless_word, start_word, fi_word, else_word, or_word, text, role, is_gap, Phase, reading,
  after_unless, continue, stop, read_role, read_token, skip_from,
}

-- A token that is text to the loop at this depth: inside a nested conditional, its branches too.
abbrev pub IsPlain : ℕ → Role → Type 0
IsPlain depth text = Unit
IsPlain (suc depth) else_word = Unit
IsPlain (suc depth) or_word = Unit
IsPlain _ _ = ⊥

abbrev pub IsGap : List Token → Type 0
IsGap [] = Unit
IsGap (t ∷ ts) = (is_gap t ≡ true) × IsGap ts

-- The text of a branch: plain tokens, whole conditionals, and whole conditionals behind `\unless`.
pub data Body : ℕ → List Token → Type 0 where
  body_end : {depth : ℕ} → Body depth []
  body_plain :
      {depth : ℕ} {ts : List Token} (t : Token)
      → IsPlain depth (role t)
      → Body depth ts
      → Body depth (t ∷ ts)
  body_nested :
      {depth : ℕ} {xs ts : List Token} (start close : Token)
      → role start ≡ start_word
      → Body (suc depth) xs
      → role close ≡ fi_word
      → Body depth ts
      → Body depth (start ∷ (xs ++ close ∷ ts))
  body_unless :
      {depth : ℕ} {xs ts : List Token} (unless start close : Token) (gap : List Token)
      → role unless ≡ unless_word
      → IsGap gap
      → is_gap start ≡ false
      → is_conditional_start start ≡ true
      → Body (suc depth) xs
      → role close ≡ fi_word
      → Body depth ts
      → Body depth (unless ∷ (gap ++ start ∷ (xs ++ close ∷ ts)))

read_role-plain :
    (r : Role) (depth : ℕ) (c : ConditionalState)
    → IsPlain depth r
    → read_role r depth c ≡ continue reading depth c
read_role-plain text depth c h = refl
read_role-plain else_word (suc depth) c h = refl
read_role-plain or_word (suc depth) c h = refl
read_role-plain else_word zero c h = absurd h
read_role-plain or_word zero c h = absurd h
read_role-plain unless_word depth c h = absurd h
read_role-plain start_word depth c h = absurd h
read_role-plain fi_word depth c h = absurd h

-- One round that goes on.
pub skip-continue :
    (p : Phase) (d : ℕ) (c : ConditionalState) (t : Token) (ts : List Token) {p' : Phase} {d' : ℕ}
    {c' : ConditionalState}
    → read_token p d c t ≡ continue p' d' c'
    → skip_from p d c (t ∷ ts) ≡ skip_from p' d' c' ts
unfolding skip_from
skip-continue p d c t ts h = rw (h, skip_from)

pub skip-stop :
    (p : Phase) (d : ℕ) (c : ConditionalState) (t : Token) (ts : List Token) {c' : ConditionalState}
    → read_token p d c t ≡ stop c'
    → skip_from p d c (t ∷ ts) ≡ (resumed, c', ts)
unfolding skip_from
skip-stop p d c t ts h = rw (h, skip_from)

pub read-role :
    (d : ℕ) (c : ConditionalState) (t : Token) (r : Role)
    → role t ≡ r
    → read_token reading d c t ≡ read_role r d c
unfolding read_token
read-role d c t r h = ap (λ x. read_role x d c) h

skip-gap :
    (gap : List Token) (d : ℕ) (c : ConditionalState) (rest : List Token)
    → IsGap gap
    → skip_from after_unless d c (gap ++ rest) ≡ skip_from after_unless d c rest
unfolding read_token
skip-gap [] d c rest h = refl
skip-gap (t ∷ ts) d c rest h =
    skip-continue after_unless d c t (ts ++ rest) (rw h.0) ∙ skip-gap ts d c rest h.1

-- The end of a nested conditional, when its own text has been passed over.
skip-close :
    (xs : List Token) (close : Token) (d : ℕ) (c : ConditionalState) (ts : List Token)
    → skip_from reading (suc d) c (xs ++ close ∷ ts) ≡ skip_from reading (suc d) c (close ∷ ts)
    → role close ≡ fi_word
    → skip_from reading (suc d) c (xs ++ close ∷ ts) ≡ skip_from reading d c ts
skip-close xs close d c ts ih f =
    ih ∙ skip-continue reading (suc d) c close ts (read-role (suc d) c close fi_word f)

skip-start :
    (start : Token) (d : ℕ) (c : ConditionalState) (ts : List Token)
    → role start ≡ start_word
    → skip_from reading d c (start ∷ ts) ≡ skip_from reading (suc d) c ts
skip-start start d c ts s =
    skip-continue reading d c start ts
      (read-role d c start start_word s ∙ ap (λ n. continue reading n c) (add-one d))

skip-unless :
    (unless start : Token) (gap : List Token) (d : ℕ) (c : ConditionalState) (ts : List Token)
    → role unless ≡ unless_word
    → IsGap gap
    → is_gap start ≡ false
    → is_conditional_start start ≡ true
    → skip_from reading d c (unless ∷ (gap ++ start ∷ ts)) ≡ skip_from reading (suc d) c ts
unfolding read_token
skip-unless unless start gap d c ts u g n s =
    skip-continue reading d c unless (gap ++ start ∷ ts) (read-role d c unless unless_word u)
    ∙ skip-gap gap d c (start ∷ ts) g
    ∙ skip-continue after_unless d c start ts (rw (n, s))
    ∙ ap (λ m. skip_from reading m c ts) (add-one d)

regroup :
    (xs ts rest : List Token) (close : Token)
    → (xs ++ close ∷ ts) ++ rest ≡ xs ++ close ∷ (ts ++ rest)
regroup xs ts rest close = simp append_assoc

-- The loop passes over the text of a branch: what follows it is read at the same depth and with the
-- same state as without it.
pub skip-Body :
    {d : ℕ} {body : List Token}
    → Body d body
    → (c : ConditionalState) (rest : List Token)
    → skip_from reading d c (body ++ rest) ≡ skip_from reading d c rest
skip-Body body_end c rest = refl
skip-Body {d} (body_plain {ts} t p b) c rest =
    skip-continue reading d c t (ts ++ rest)
      (read-role d c t (role t) refl ∙ read_role-plain (role t) d c p)
    ∙ skip-Body b c rest
skip-Body {d} (body_nested {xs} {ts} start close s b f b') c rest =
    ap (λ x. skip_from reading d c (start ∷ x)) (regroup xs ts rest close)
    ∙ skip-start start d c (xs ++ close ∷ (ts ++ rest)) s
    ∙ skip-close xs close d c (ts ++ rest) (skip-Body b c (close ∷ (ts ++ rest))) f
    ∙ skip-Body b' c rest
skip-Body {d} (body_unless {xs} {ts} unless start close gap u g n s b f b') c rest =
    ap (λ x. skip_from reading d c (unless ∷ x))
      (append_assoc gap (start ∷ (xs ++ close ∷ ts)) rest
        ∙ ap (λ x. gap ++ start ∷ x) (regroup xs ts rest close))
    ∙ skip-unless unless start gap d c (xs ++ close ∷ (ts ++ rest)) u g n s
    ∙ skip-close xs close d c (ts ++ rest) (skip-Body b c (close ∷ (ts ++ rest))) f
    ∙ skip-Body b' c rest
