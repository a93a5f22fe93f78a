-- ===== src/Parser/MacroEngine/Commands.antt =====
-- Sequences of operations on the macro engine. No sequence panics, and the stacks keep one height.
use ferritex.Prelude.{
  ℕ, suc, ◌<◌, ◌≡◌, refl, ap, ◌∙◌, Bool, true, false, Option, none, some, List, [], ◌∷◌, arith, Str,
  length, length-map, nat_eq, list_eq,
}
use ferritex.Prelude.HashMap
use ferritex.Prelude.HashMap.{HashMap}
use ferritex.Parser.Token.{CatCode}
use ferritex.Parser.MacroEngine.{
  MacroDef, EnvironmentDef, MacroEngine, new_engine, copy_last, pop_inner, on_last, push_group,
  pop_group, define_local, define_global, let_assign, define_environment, define_global_environment,
  set_catcode,
}

pub data Command : Type 0 where
  begin end : Command
  define : Str → MacroDef → Bool → Command
  assign : Str → Option MacroDef → Bool → Command
  define_env : Str → EnvironmentDef → Bool → Command
  catcode : ℕ → CatCode → Command

-- The `true` of a command is a global definition.
abbrev pub step : Command → MacroEngine → Option MacroEngine
step begin e = some (push_group e)
step end e = some (pop_group e)
step (define name def true) e = some (define_global e name def)
step (define name def false) e = define_local e name def
step (assign target source global) e = let_assign e target source global
step (define_env name def true) e = some (define_global_environment e name def)
step (define_env name def false) e = define_environment e name def
step (catcode char_code cat) e = set_catcode e char_code cat

unfoldable pub run : List Command → MacroEngine → Option MacroEngine
run [] e = some e
run (c ∷ cs) e = elim (step c e) [ none ↦ none | some e' ↦ run cs e' ]

pub record IsValid (e : MacroEngine) : Type 0 where
  pub occupied : 0 < length e.scope_stack
  pub environments : length e.environment_scope_stack ≡ length e.scope_stack
  pub catcodes : length e.catcode_stack ≡ length e.scope_stack

module _ {ℓ} {S : Type ℓ} where
  length-copy_last :
      (d : S) (ss : List S) → 0 < length ss → length (copy_last d ss) ≡ suc (length ss)
  length-copy_last d [] h = absurd (omega arith)
  length-copy_last d (s ∷ ss) h = refl

  length-pop_inner : (ss : List S) → 0 < length ss → 0 < length (pop_inner ss)
  length-pop_inner [] h = h
  length-pop_inner (s ∷ []) h = h
  length-pop_inner (s ∷ t ∷ ss) h = omega arith

  on_last-some :
      (f : S → S) (ss : List S)
      → 0 < length ss
      → (ts : List S) × (on_last f ss ≡ some ts) × (length ts ≡ length ss)
  on_last-some f [] h = absurd (omega arith)
  on_last-some f (s ∷ ss) h = (f s ∷ ss, refl, refl)

module _ {ℓ κ} {S : Type ℓ} {T : Type κ} where
  length-pop_inner_eq :
      (ss : List S) (ts : List T)
      → length ts ≡ length ss
      → length (pop_inner ts) ≡ length (pop_inner ss)
  length-pop_inner_eq [] [] h = refl
  length-pop_inner_eq (s ∷ []) (t ∷ []) h = refl
  length-pop_inner_eq (s ∷ s' ∷ ss) (t ∷ t' ∷ ts) h = omega arith
  length-pop_inner_eq [] (t ∷ ts) h = absurd (omega arith)
  length-pop_inner_eq (s ∷ ss) [] h = absurd (omega arith)
  length-pop_inner_eq (s ∷ []) (t ∷ t' ∷ ts) h = absurd (omega arith)
  length-pop_inner_eq (s ∷ s' ∷ ss) (t ∷ []) h = absurd (omega arith)

-- A command gives an engine that is valid.
abbrev pub Steps : Option MacroEngine → Type 0
Steps none = ⊥
Steps (some e) = IsValid e

update-Steps {ℓ} :
    {S : Type ℓ} (f : S → S) (ss : List S) (put : List S → MacroEngine)
    → 0 < length ss
    → ((ts : List S) → length ts ≡ length ss → IsValid (put ts))
    → Steps (elim (on_last f ss) [ none ↦ none | some ts ↦ some (put ts) ])
update-Steps f [] put h k = absurd (omega arith)
update-Steps f (s ∷ ss) put h k = k (f s ∷ ss) refl

pub step-IsValid : (c : Command) (e : MacroEngine) → IsValid e → Steps (step c e)
unfolding push_group pop_group define_local define_global let_assign define_environment
    define_global_environment set_catcode
step-IsValid begin e v = omega (
  arith,
  length-copy_last [] e.scope_stack v.occupied,
  length-copy_last [] e.environment_scope_stack (omega arith),
  length-copy_last [] e.catcode_stack (omega arith),
)
step-IsValid end e v = record {
  occupied = length-pop_inner e.scope_stack v.occupied;
  environments = length-pop_inner_eq e.scope_stack e.environment_scope_stack v.environments;
  catcodes = length-pop_inner_eq e.scope_stack e.catcode_stack v.catcodes;
}
step-IsValid (define name def true) e v =
    omega (arith, length-map e.scope_stack (λ s. HashMap.insert s name def))
step-IsValid (define name def false) e v =
    update-Steps _ e.scope_stack (λ ss. record e { scope_stack = ss }) v.occupied
      (λ ts h. omega arith)
step-IsValid (assign target (some def) true) e v =
    omega (
      arith,
      length-map e.scope_stack (λ s. HashMap.insert s target (record def { name = target })),
    )
step-IsValid (assign target (some def) false) e v =
    update-Steps _ e.scope_stack (λ ss. record e { scope_stack = ss }) v.occupied
      (λ ts h. omega arith)
step-IsValid (assign target none true) e v =
    omega (arith, length-map e.scope_stack (λ s. HashMap.remove s target))
step-IsValid (assign target none false) e v =
    update-Steps _ e.scope_stack (λ ss. record e { scope_stack = ss }) v.occupied
      (λ ts h. omega arith)
step-IsValid (define_env name def true) e v =
    omega (arith, length-map e.environment_scope_stack (λ s. HashMap.insert s name def))
step-IsValid (define_env name def false) e v =
    update-Steps _ e.environment_scope_stack (λ ss. record e { environment_scope_stack = ss })
      (omega arith) (λ ts h. omega arith)
step-IsValid (catcode char_code cat) e v =
    update-Steps _ e.catcode_stack (λ ss. record e { catcode_stack = ss }) (omega arith)
      (λ ts h. omega arith)

pub new_engine-IsValid : IsValid new_engine
new_engine-IsValid = omega arith

pub step-some :
    (c : Command) (e : MacroEngine)
    → IsValid e
    → (e' : MacroEngine) × (step c e ≡ some e') × IsValid e'
step-some c e v = go (step c e) (step-IsValid c e v)
  where
    go : (o : Option MacroEngine) → Steps o → (e' : MacroEngine) × (o ≡ some e') × IsValid e'
    go none h = absurd h
    go (some e₁) h = (e₁, refl, h)

pub run-cons :
    (c : Command) (cs : List Command) (e e' : MacroEngine)
    → step c e ≡ some e'
    → run (c ∷ cs) e ≡ run cs e'
unfolding run
run-cons c cs e e' h = ap (λ o. elim o [ none ↦ none | some e₁ ↦ run cs e₁ ]) h

-- From a valid engine no sequence of operations panics, and it ends in a valid engine: the three
-- stacks have one height, and it is not 0.
pub run-IsValid :
    (cs : List Command) (e : MacroEngine)
    → IsValid e
    → (e' : MacroEngine) × (run cs e ≡ some e') × IsValid e'
unfolding run
run-IsValid [] e v = (e, refl, v)
run-IsValid (c ∷ cs) e v =
    let (e₁, p, v₁) = step-some c e v in
    let (e₂, q, v₂) = run-IsValid cs e₁ v₁ in (e₂, run-cons c cs e e₁ p ∙ q, v₂)
