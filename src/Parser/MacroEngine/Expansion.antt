-- ===== src/Parser/MacroEngine/Expansion.antt =====
-- What `expand` makes of a macro's body.
use ferritex.Prelude.{
  ℕ, ◌-◌, suc, zero, ◌≡◌, refl, ap, ap₂, ◌∙◌, some, List, [], ◌∷◌, ◌++◌, Str, get_elem?, arith,
}
use ferritex.Parser.Token.{
  Token, TokenKind, control_word, control_symbol, char_token, parameter_token,
}
use ferritex.Parser.MacroEngine.{
  MacroDef, MacroEngine, lookup, expand, expand_body, expand_kind, expand_def, or_nothing,
}

-- The tokens hold no parameter.
abbrev IsPlainKind : TokenKind → Type 0
IsPlainKind (parameter_token n) = ⊥
IsPlainKind _ = Unit

abbrev pub IsParameterFree : List Token → Type 0
IsParameterFree [] = Unit
IsParameterFree (t ∷ ts) = IsPlainKind t.kind × IsParameterFree ts

-- A part of a macro's body: tokens that stand for themselves, or the parameter of a number, which
-- counts from 1, where it was read.
pub data Piece : Type 0 where
  verbatim : (tokens : List Token) → Piece
  parameter : (before line column : ℕ) → Piece

abbrev pub body_of : List Piece → List Token
body_of [] = []
body_of (verbatim tokens ∷ ps) = tokens ++ body_of ps
body_of (parameter before line column ∷ ps) =
    record { kind = parameter_token (suc before); line = line; column = column } ∷ body_of ps

abbrev pub AreVerbatim : List Piece → Type 0
AreVerbatim [] = Unit
AreVerbatim (verbatim tokens ∷ ps) = IsParameterFree tokens × AreVerbatim ps
AreVerbatim (parameter before line column ∷ ps) = AreVerbatim ps

-- The argument with some before it, and no tokens where fewer were given.
abbrev pub argument_behind : ℕ → List (List Token) → List Token
argument_behind before [] = []
argument_behind zero (a ∷ args) = a
argument_behind (suc before) (a ∷ args) = argument_behind before args

abbrev pub filled : List (List Token) → List Piece → List Token
filled args [] = []
filled args (verbatim tokens ∷ ps) = tokens ++ filled args ps
filled args (parameter before line column ∷ ps) = argument_behind before args ++ filled args ps

pred_suc : (n : ℕ) → suc n - 1 ≡ n
pred_suc n = omega arith

argument_found :
    (before : ℕ) (args : List (List Token))
    → or_nothing (get_elem? args (suc before - 1)) ≡ argument_behind before args
argument_found before args =
    ap (λ i. or_nothing (get_elem? args i)) (pred_suc before) ∙ found before args
  where
    found : (n : ℕ) (xs : List (List Token)) → or_nothing (get_elem? xs n) ≡ argument_behind n xs
    found n [] = refl
    found zero (x ∷ xs) = refl
    found (suc n) (x ∷ xs) = found n xs

expand_kind_plain :
    (args : List (List Token)) (t : Token) (k : TokenKind)
    → IsPlainKind k
    → expand_kind args t k ≡ t ∷ []
expand_kind_plain args t (parameter_token n) h = absurd h
expand_kind_plain args t (control_word n) h = refl
expand_kind_plain args t (control_symbol n) h = refl
expand_kind_plain args t (char_token n c) h = refl

-- Tokens that stand for themselves are taken over, and what follows them is expanded.
expand_body_verbatim :
    (args : List (List Token)) (tokens rest : List Token)
    → IsParameterFree tokens
    → expand_body args (tokens ++ rest) ≡ tokens ++ expand_body args rest
unfolding expand_body
expand_body_verbatim args [] rest h = refl
expand_body_verbatim args (t ∷ ts) rest h =
    ap₂ (λ (xs ys : List Token). xs ++ ys) (expand_kind_plain args t t.kind h.0)
      (expand_body_verbatim args ts rest h.1)

expand_body-body_of :
    (args : List (List Token)) (ps : List Piece)
    → AreVerbatim ps
    → expand_body args (body_of ps) ≡ filled args ps
unfolding expand_body
expand_body-body_of args [] h = refl
expand_body-body_of args (verbatim tokens ∷ ps) h =
    expand_body_verbatim args tokens (body_of ps) h.0
    ∙ ap (λ rest. tokens ++ rest) (expand_body-body_of args ps h.1)
expand_body-body_of args (parameter before line column ∷ ps) h =
    ap₂ (λ (xs ys : List Token). xs ++ ys) (argument_found before args)
      (expand_body-body_of args ps h)

-- A defined macro expands to its body with every parameter, counted from 1, replaced by the argument
-- of its number, or by nothing where fewer arguments were given, and every other token taken over.
pub expand-body_of :
    (e : MacroEngine) (name : Str) (def : MacroDef) (args : List (List Token)) (ps : List Piece)
    → lookup e name ≡ some def
    → def.body ≡ body_of ps
    → AreVerbatim ps
    → expand e name args ≡ filled args ps
unfolding expand
expand-body_of e name def args ps p q h =
    ap (expand_def args) p ∙ ap (expand_body args) q ∙ expand_body-body_of args ps h
