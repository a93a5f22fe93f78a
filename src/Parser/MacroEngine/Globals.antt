-- ===== src/Parser/MacroEngine/Globals.antt =====
-- A global definition is seen in every scope, and outlives the groups that it is made in.
use ferritex.Prelude.{
  ◌<◌, ◌≡◌, refl, ◌∙◌, sym, subst, true, false, Option, none, some, List, [], ◌∷◌, map, arith, Str,
  length, ◌=?◌, list_eq, nat_eq, list_beq_iff,
}
use ferritex.Prelude.HashMap
use ferritex.Prelude.HashMap.{HashMap}
use ferritex.Parser.MacroEngine.{
  MacroDef, MacroEngine, copy_last, pop_inner, on_last, push_group, pop_group, define_local, look,
  lookup, define_global, let_assign, define_environment, define_global_environment, set_catcode,
}
use ferritex.Parser.MacroEngine.Commands.{
  Command, begin, end, define, assign, define_env, catcode, step, run, run-cons, IsValid, step-some,
}

-- No operation defines `name` or gives it another meaning.
abbrev pub Avoids : Str → List Command → Type 0
Avoids name [] = Unit
Avoids name (define other def global ∷ cs) = ((other =? name) ≡ false) × Avoids name cs
Avoids name (assign other source global ∷ cs) = ((other =? name) ≡ false) × Avoids name cs
Avoids name (c ∷ cs) = Avoids name cs

-- `name` means `o` in every scope.
abbrev Everywhere {ℓ} : {V : Type ℓ} → Str → Option V → List (HashMap Str V) → Type ℓ
Everywhere name o [] = Unit
Everywhere name o (s ∷ ss) = (HashMap.get s name ≡ o) × Everywhere name o ss

module _ {ℓ} {V : Type ℓ} (name : Str) where
  Everywhere-insert :
      (v : V) (ss : List (HashMap Str V))
      → Everywhere name (some v) (map (λ s. HashMap.insert s name v) ss)
  Everywhere-insert v [] = tt
  Everywhere-insert v (s ∷ ss) =
      (rw (HashMap.get-insert, (list_beq_iff name name).1 refl), Everywhere-insert v ss)

  Everywhere-remove :
      (ss : List (HashMap Str V)) → Everywhere name none (map (λ s. HashMap.remove s name) ss)
  Everywhere-remove [] = tt
  Everywhere-remove (s ∷ ss) =
      (rw (HashMap.get-remove, (list_beq_iff name name).1 refl), Everywhere-remove ss)

  module _ (o : Option V) (f : HashMap Str V → HashMap Str V)
      (keeps : (s : HashMap Str V) → HashMap.get (f s) name ≡ HashMap.get s name) where
    Everywhere-map :
        (ss : List (HashMap Str V)) → Everywhere name o ss → Everywhere name o (map f ss)
    Everywhere-map [] h = tt
    Everywhere-map (s ∷ ss) h = (keeps s ∙ h.0, Everywhere-map ss h.1)

  Everywhere-copy :
      (o : Option V) (ss : List (HashMap Str V))
      → 0 < length ss
      → Everywhere name o ss
      → Everywhere name o (copy_last [] ss)
  Everywhere-copy o [] p h = absurd (omega arith)
  Everywhere-copy o (s ∷ ss) p h = (h.0, h)

  Everywhere-pop :
      (o : Option V) (ss : List (HashMap Str V))
      → Everywhere name o ss
      → Everywhere name o (pop_inner ss)
  Everywhere-pop o [] h = h
  Everywhere-pop o (s ∷ []) h = h
  Everywhere-pop o (s ∷ t ∷ ss) h = h.1

  Everywhere-look :
      (o : Option V) (ss : List (HashMap Str V))
      → 0 < length ss
      → Everywhere name o ss
      → look ss name ≡ o
  Everywhere-look o [] p h = absurd (omega arith)
  Everywhere-look o (s ∷ ss) p h = h.0

  insert_other :
      (other : Str) (v : V)
      → (other =? name) ≡ false
      → (s : HashMap Str V) → HashMap.get (HashMap.insert s other v) name ≡ HashMap.get s name
  insert_other other v h s = rw (HashMap.get-insert, h)

  remove_other :
      (other : Str)
      → (other =? name) ≡ false
      → (s : HashMap Str V) → HashMap.get (HashMap.remove s other) name ≡ HashMap.get s name
  remove_other other h s = rw (HashMap.get-remove, h)

abbrev Sees : Str → Option MacroDef → Option MacroEngine → Type 0
Sees name o none = Unit
Sees name o (some e) = Everywhere name o e.scope_stack

module _ (name : Str) (o : Option MacroDef) where
  last_Sees :
      (e : MacroEngine) (f : HashMap Str MacroDef → HashMap Str MacroDef)
      → ((s : HashMap Str MacroDef) → HashMap.get (f s) name ≡ HashMap.get s name)
      → Everywhere name o e.scope_stack
      → Sees name o (elim (on_last f e.scope_stack) [
        | none ↦ none
        | some ts ↦ some (record e { scope_stack = ts })
      ])
  last_Sees e f k h = go e.scope_stack h
    where
      go :
          (ss : List (HashMap Str MacroDef))
          → Everywhere name o ss
          → Sees name o
              (elim (on_last f ss) [ none ↦ none | some ts ↦ some (record e { scope_stack = ts }) ])
      go [] h = tt
      go (s ∷ ss) h = (k s ∙ h.0, h.1)

  other_Sees {ℓ} :
      {S : Type ℓ} (e : MacroEngine) (f : S → S) (ss : List S) (put : List S → MacroEngine)
      → ((ts : List S) → (put ts).scope_stack ≡ e.scope_stack)
      → Everywhere name o e.scope_stack
      → Sees name o (elim (on_last f ss) [ none ↦ none | some ts ↦ some (put ts) ])
  other_Sees e f [] put k h = tt
  other_Sees e f (s ∷ ss) put k h = subst (Everywhere name o) (sym (k (f s ∷ ss))) h

  step-Sees :
      (c : Command) (cs : List Command) (e : MacroEngine)
      → IsValid e
      → Avoids name (c ∷ cs)
      → Everywhere name o e.scope_stack
      → Sees name o (step c e) × Avoids name cs
  unfolding push_group pop_group define_local define_global let_assign define_environment
      define_global_environment set_catcode
  step-Sees begin cs e v a h = (Everywhere-copy name o e.scope_stack v.occupied h, a)
  step-Sees end cs e v a h = (Everywhere-pop name o e.scope_stack h, a)
  step-Sees (define other def true) cs e v a h =
      (Everywhere-map name o _ (insert_other name other def a.0) e.scope_stack h, a.1)
  step-Sees (define other def false) cs e v a h =
      (last_Sees e _ (insert_other name other def a.0) h, a.1)
  step-Sees (assign other (some def) true) cs e v a h =
      (Everywhere-map name o _ (insert_other name other _ a.0) e.scope_stack h, a.1)
  step-Sees (assign other (some def) false) cs e v a h =
      (last_Sees e _ (insert_other name other _ a.0) h, a.1)
  step-Sees (assign other none true) cs e v a h =
      (Everywhere-map name o _ (remove_other name other a.0) e.scope_stack h, a.1)
  step-Sees (assign other none false) cs e v a h =
      (last_Sees e _ (remove_other name other a.0) h, a.1)
  step-Sees (define_env other def true) cs e v a h = (h, a)
  step-Sees (define_env other def false) cs e v a h = (
    other_Sees e _ e.environment_scope_stack (λ ss. record e { environment_scope_stack = ss })
        (λ ts. refl) h,
    a,
  )
  step-Sees (catcode char_code cat) cs e v a h =
      (other_Sees e _ e.catcode_stack (λ ss. record e { catcode_stack = ss }) (λ ts. refl) h, a)

  run_Sees :
      (cs : List Command) (e : MacroEngine)
      → IsValid e
      → Avoids name cs
      → Everywhere name o e.scope_stack
      → (e' : MacroEngine) × (run cs e ≡ some e') × (lookup e' name ≡ o)
  unfolding run lookup
  run_Sees [] e v a h = (e, refl, Everywhere-look name o e.scope_stack v.occupied h)
  run_Sees (c ∷ cs) e v a h =
      let (e₁, p, v₁) = step-some c e v in
      let (k, a₁) = step-Sees c cs e v a h in
      let (e₂, q, r) = run_Sees cs e₁ v₁ a₁ (subst (Sees name o) p k) in
      (e₂, run-cons c cs e e₁ p ∙ q, r)

-- After a global definition the name means what was defined, whatever groups begin and end, until
-- an operation defines or assigns that name again.
pub global_definition_survives :
    (name : Str) (def : MacroDef) (cs : List Command) (e : MacroEngine)
    → IsValid e
    → Avoids name cs
    → (e' : MacroEngine) × (run (define name def true ∷ cs) e ≡ some e')
      × (lookup e' name ≡ some def)
unfolding define_global
global_definition_survives name def cs e v a =
    let (e₁, p, v₁) = step-some (define name def true) e v in
    let (e₂, q, r) =
      run_Sees name (some def) cs e₁ v₁ a
        (subst (Sees name (some def)) p (Everywhere-insert name def e.scope_stack)) in
    (e₂, run-cons (define name def true) cs e e₁ p ∙ q, r)

-- After a global `\let` to a name that has no meaning the target has none either, on the same terms.
pub global_let_undefines :
    (name : Str) (cs : List Command) (e : MacroEngine)
    → IsValid e
    → Avoids name cs
    → (e' : MacroEngine) × (run (assign name none true ∷ cs) e ≡ some e') × (lookup e' name ≡ none)
unfolding let_assign
global_let_undefines name cs e v a =
    let (e₁, p, v₁) = step-some (assign name none true) e v in
    let (e₂, q, r) =
      run_Sees name none cs e₁ v₁ a
        (subst (Sees name none) p (Everywhere-remove name e.scope_stack)) in
    (e₂, run-cons (assign name none true) cs e e₁ p ∙ q, r)
