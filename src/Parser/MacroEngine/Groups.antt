-- ===== src/Parser/MacroEngine/Groups.antt =====
-- A group in which every definition is local is undone exactly.
use ferritex.Prelude.{
  ℕ, zero, suc, ◌+◌, ◌<◌, ◌≡◌, refl, ◌∙◌, subst, true, false, Option, none, some, List, [], ◌∷◌,
  arith, Str, length, drop, nat_eq, list_eq,
}
use ferritex.Prelude.HashMap
use ferritex.Parser.MacroEngine.{
  MacroDef, MacroEngine, copy_last, pop_inner, on_last, push_group, pop_group, define_local,
  let_assign, define_environment, set_catcode,
}
use ferritex.Parser.MacroEngine.Commands.{
  Command, begin, end, define, assign, define_env, catcode, step, run, run-cons, IsValid, step-some,
  step-IsValid,
}

-- The operations inside a group, from depth `n` below its start: groups that are begun are ended,
-- no other is, and nothing is defined globally.
abbrev pub IsGroupBody : ℕ → List Command → Type 0
IsGroupBody zero [] = Unit
IsGroupBody (suc n) [] = ⊥
IsGroupBody n (begin ∷ cs) = IsGroupBody (suc n) cs
IsGroupBody zero (end ∷ cs) = ⊥
IsGroupBody (suc n) (end ∷ cs) = IsGroupBody n cs
IsGroupBody n (define name def true ∷ cs) = ⊥
IsGroupBody n (define name def false ∷ cs) = IsGroupBody n cs
IsGroupBody n (assign target source true ∷ cs) = ⊥
IsGroupBody n (assign target source false ∷ cs) = IsGroupBody n cs
IsGroupBody n (define_env name def true ∷ cs) = ⊥
IsGroupBody n (define_env name def false ∷ cs) = IsGroupBody n cs
IsGroupBody n (catcode char_code cat ∷ cs) = IsGroupBody n cs

module _ {ℓ} {S : Type ℓ} where
  -- The stack `base` under `n` + 1 others.
  pub record IsOver (n : ℕ) (base ss : List S) : Type ℓ where
    pub below : drop (suc n) ss ≡ base
    pub height : length ss ≡ suc n + length base

  IsOver-copy :
      (n : ℕ) (d : S) (base ss : List S) → IsOver n base ss → IsOver (suc n) base (copy_last d ss)
  IsOver-copy n d base [] h = absurd (omega (arith, h.height))
  IsOver-copy n d base (s ∷ ss) h = record { below = h.below; height = omega (arith, h.height) }

  IsOver-pop : (n : ℕ) (base ss : List S) → IsOver (suc n) base ss → IsOver n base (pop_inner ss)
  IsOver-pop n base [] h = absurd (omega (arith, h.height))
  IsOver-pop n base (s ∷ []) h = absurd (omega (arith, h.height))
  IsOver-pop n base (s ∷ t ∷ ss) h = record { below = h.below; height = omega (arith, h.height) }

  IsOver-start : (d : S) (ss : List S) → 0 < length ss → IsOver 0 ss (copy_last d ss)
  IsOver-start d [] h = absurd (omega arith)
  IsOver-start d (s ∷ ss) h = record { below = refl; height = omega arith }

  over_end : (base ss : List S) → 0 < length base → IsOver 0 base ss → pop_inner ss ≡ base
  over_end base [] p h = absurd (omega (arith, h.height))
  over_end base (s ∷ []) p h = absurd (omega (arith, h.height))
  over_end base (s ∷ t ∷ ss) p h = h.below

pub record IsAbove (n : ℕ) (e e' : MacroEngine) : Type 0 where
  pub scopes : IsOver n e.scope_stack e'.scope_stack
  pub environments : IsOver n e.environment_scope_stack e'.environment_scope_stack
  pub catcodes : IsOver n e.catcode_stack e'.catcode_stack

abbrev Keeps : ℕ → MacroEngine → Option MacroEngine → Type 0
Keeps n e none = Unit
Keeps n e (some e') = IsAbove n e e'

update-Keeps {ℓ} :
    {S : Type ℓ} (n : ℕ) (e : MacroEngine) (f : S → S) (base ss : List S)
    (put : List S → MacroEngine)
    → IsOver n base ss
    → ((ts : List S) → IsOver n base ts → IsAbove n e (put ts))
    → Keeps n e (elim (on_last f ss) [ none ↦ none | some ts ↦ some (put ts) ])
update-Keeps n e f base [] put h k = tt
update-Keeps n e f base (s ∷ ss) put h k =
    k (f s ∷ ss) (record { below = h.below; height = h.height })

put_scopes :
    (n : ℕ) (e e' : MacroEngine) (f : HashMap.HashMap Str MacroDef → HashMap.HashMap Str MacroDef)
    → IsAbove n e e'
    → Keeps n e (elim (on_last f e'.scope_stack) [
      | none ↦ none
      | some ts ↦ some (record e' { scope_stack = ts })
    ])
put_scopes n e e' f h =
    update-Keeps n e f e.scope_stack e'.scope_stack (λ ss. record e' { scope_stack = ss }) h.scopes
      (λ ts k. record { scopes = k; environments = h.environments; catcodes = h.catcodes })

-- The depth that the next operations start from.
abbrev after : ℕ → Command → ℕ
after n begin = suc n
after (suc n) end = n
after n _ = n

step-IsAbove :
    (c : Command) (cs : List Command) (n : ℕ) (e e' : MacroEngine)
    → IsGroupBody n (c ∷ cs)
    → IsAbove n e e'
    → Keeps (after n c) e (step c e') × IsGroupBody (after n c) cs
unfolding push_group pop_group define_local let_assign define_environment set_catcode
step-IsAbove begin cs n e e' b h = (
  record {
    scopes = IsOver-copy n [] _ _ h.scopes;
    environments = IsOver-copy n [] _ _ h.environments;
    catcodes = IsOver-copy n [] _ _ h.catcodes;
  },
  b,
)
step-IsAbove end cs zero e e' b h = absurd b
step-IsAbove end cs (suc n) e e' b h = (
  record {
    scopes = IsOver-pop n _ _ h.scopes;
    environments = IsOver-pop n _ _ h.environments;
    catcodes = IsOver-pop n _ _ h.catcodes;
  },
  b,
)
step-IsAbove (define name def true) cs n e e' b h = absurd b
step-IsAbove (define name def false) cs n e e' b h = (put_scopes n e e' _ h, b)
step-IsAbove (assign target source true) cs n e e' b h = absurd b
step-IsAbove (assign target (some def) false) cs n e e' b h = (put_scopes n e e' _ h, b)
step-IsAbove (assign target none false) cs n e e' b h = (put_scopes n e e' _ h, b)
step-IsAbove (define_env name def true) cs n e e' b h = absurd b
step-IsAbove (define_env name def false) cs n e e' b h = (
  update-Keeps n e _ e.environment_scope_stack e'.environment_scope_stack
      (λ ss. record e' { environment_scope_stack = ss }) h.environments
      (λ ts k. record { scopes = h.scopes; environments = k; catcodes = h.catcodes }),
  b,
)
step-IsAbove (catcode char_code cat) cs n e e' b h = (
  update-Keeps n e _ e.catcode_stack e'.catcode_stack (λ ss. record e' { catcode_stack = ss })
      h.catcodes
      (λ ts k. record { scopes = h.scopes; environments = h.environments; catcodes = k }),
  b,
)

run-IsAbove :
    (cs : List Command) (n : ℕ) (e e' : MacroEngine)
    → IsGroupBody n cs
    → IsValid e'
    → IsAbove n e e'
    → (e₂ : MacroEngine) × (run cs e' ≡ some e₂) × IsAbove 0 e e₂
unfolding run
run-IsAbove [] zero e e' b v h = (e', refl, h)
run-IsAbove [] (suc n) e e' b v h = absurd b
run-IsAbove (c ∷ cs) n e e' b v h =
    let (e₁, p, v₁) = step-some c e' v in
    let (k, b₁) = step-IsAbove c cs n e e' b h in
    let (e₂, q, r) = run-IsAbove cs (after n c) e e₁ b₁ v₁ (subst (Keeps (after n c) e) p k) in
    (e₂, run-cons c cs e' e₁ p ∙ q, r)

-- A group in which nothing is defined globally, with any groups inside it, runs without a panic,
-- and its end gives back the very engine that it started from.
pub engine_group_restores :
    (cs : List Command) (e : MacroEngine)
    → IsValid e
    → IsGroupBody 0 cs
    → (e' : MacroEngine) × (run cs (push_group e) ≡ some e') × (pop_group e' ≡ e)
unfolding push_group pop_group
engine_group_restores cs e v b =
    let above : IsAbove 0 e (push_group e) = record {
      scopes = IsOver-start [] e.scope_stack v.occupied;
      environments = IsOver-start [] e.environment_scope_stack (omega arith);
      catcodes = IsOver-start [] e.catcode_stack (omega arith);
    } in
    let (e₂, p, h) = run-IsAbove cs 0 e (push_group e) b (step-IsValid begin e v) above in
    (
      e₂,
      p,
      λ i. record {
        scope_stack = over_end _ _ v.occupied h.scopes i;
        environment_scope_stack = over_end _ _ (omega arith) h.environments i;
        catcode_stack = over_end _ _ (omega arith) h.catcodes i;
      },
    )
