-- ===== src/Parser/Registers/Groups.antt =====
-- What a group undoes and what it keeps, for every sequence of operations.
use ferritex.Prelude.{
  ℕ, zero, suc, ◌≡◌, refl, ap, ◌∙◌, sym, Bool, true, false, List, [], ◌∷◌, ◌++◌, ◌=?◌,
  if◌then◌else◌, map, arith, length, subst, ==_refl,
}
use ferritex.Parser.Registers.{
  RegisterStore, push_group, pop_group, compat_int_beq_iff, compat_dimen_beq_iff,
}
use ferritex.Parser.Registers.Cells.{enter, leave, assign}
use ferritex.Parser.Registers.Field.{values-push, values-pop}
use ferritex.Parser.Registers.Banks.{
  Bank, counts, dimens, skips, muskips, toks, compat_ints, compat_dimens, Key, Val, keys, field,
  fetch, store,
}
use ferritex.Parser.Registers.Scoping.{history, effect, store_lem}
use ferritex.Parser.Registers.Runs.{
  Command, begin, end, write, run, scope_run, history-run, history-fetch,
}

-- The operations inside a group, from depth `n` below its start: groups that are begun are ended,
-- no other is, and every assignment is local.
abbrev pub IsGroupBody : ℕ → List Command → Type 0
IsGroupBody zero [] = Unit
IsGroupBody (suc n) [] = ⊥
IsGroupBody n (begin ∷ cs) = IsGroupBody (suc n) cs
IsGroupBody zero (end ∷ cs) = ⊥
IsGroupBody (suc n) (end ∷ cs) = IsGroupBody n cs
IsGroupBody n (write b j v true ∷ cs) = ⊥
IsGroupBody n (write b j v false ∷ cs) = IsGroupBody n cs

module _ {V : Type 0} (v x : V) (rest : List V) where
  local_head :
      (t : Bool) → (y : V) × ((if t then assign false v (x ∷ rest) else x ∷ rest) ≡ y ∷ rest)
  local_head true = (v, refl)
  local_head false = (x, refl)

effect-local :
    (b' b : Bank) (j : Key b') (v : Val b') (i : Key b) (x : Val b) (rest : List (Val b))
    → (y : Val b) × (effect b' b j v false i (x ∷ rest) ≡ y ∷ rest)
effect-local counts counts j v i x rest = local_head v x rest _
effect-local dimens dimens j v i x rest = local_head v x rest _
effect-local skips skips j v i x rest = local_head v x rest _
effect-local muskips muskips j v i x rest = local_head v x rest _
effect-local toks toks j v i x rest = local_head v x rest _
effect-local compat_ints compat_ints j v i x rest = local_head v x rest _
effect-local compat_dimens compat_dimens j v i x rest = local_head v x rest _
effect-local _ _ j v i x rest = (x, refl)

-- The scopes below the depth of the body stay as they are.
body-scopes :
    (b : Bank) (i : Key b) (cs : List Command) (n : ℕ) (x : Val b) (xs base : List (Val b))
    → length xs ≡ n
    → IsGroupBody n cs
    → (y : Val b) × (scope_run b i cs (x ∷ (xs ++ base)) ≡ y ∷ base)
unfolding scope_run
body-scopes b i [] zero x [] base e h = (x, refl)
body-scopes b i [] zero x (y ∷ xs) base e h = absurd (omega arith)
body-scopes b i [] (suc n) x xs base e h = absurd h
body-scopes b i (begin ∷ cs) n x xs base e h =
    body-scopes b i cs (suc n) x (x ∷ xs) base (ap suc e) h
body-scopes b i (end ∷ cs) zero x xs base e h = absurd h
body-scopes b i (end ∷ cs) (suc n) x [] base e h = absurd (omega arith)
body-scopes b i (end ∷ cs) (suc n) x (y ∷ xs) base e h =
    body-scopes b i cs n y xs base (omega arith) h
body-scopes b i (write b' j v true ∷ cs) n x xs base e h = absurd h
body-scopes b i (write b' j v false ∷ cs) n x xs base e h =
    let (y, p) = effect-local b' b j v i x (xs ++ base) in
    let (z, q) = body-scopes b i cs n y xs base e h in (z, ap (scope_run b i cs) p ∙ q)

leave-body :
    (b : Bank) (i : Key b) (cs : List Command) (x : Val b) (rest : List (Val b))
    → IsGroupBody zero cs
    → leave (scope_run b i cs (enter (x ∷ rest))) ≡ x ∷ rest
leave-body b i cs x rest h =
    let (y, p) = body-scopes b i cs zero x [] (x ∷ rest) refl h in ap leave p

-- A group whose assignments are all local, with any groups inside it, leaves every register of
-- every bank as it was before the group, now and after each pending end of an outer group.
pub group_restores :
    (b : Bank) (i : Key b) (cs : List Command) (s : RegisterStore)
    → IsGroupBody zero cs
    → history b i (pop_group (run cs (push_group s))) ≡ history b i s
group_restores b i cs s h =
    let (vs, p) = history-fetch b i s in
    values-pop ⦃e = keys b⦄ (field b) i (run cs (push_group s))
    ∙ ap leave (history-run b i cs (push_group s))
    ∙ ap (λ x. leave (scope_run b i cs x)) (values-push ⦃e = keys b⦄ (field b) i s ∙ ap enter p)
    ∙ leave-body b i cs (fetch b s i) vs h
    ∙ sym p

-- The operation assigns to register `i` of bank `b`.
abbrev pub touches : (b : Bank) → Key b → Command → Bool
touches b i begin = false
touches b i end = false
touches counts i (write counts j v g) = ◌=?◌ ⦃e = keys counts⦄ j i
touches dimens i (write dimens j v g) = ◌=?◌ ⦃e = keys dimens⦄ j i
touches skips i (write skips j v g) = ◌=?◌ ⦃e = keys skips⦄ j i
touches muskips i (write muskips j v g) = ◌=?◌ ⦃e = keys muskips⦄ j i
touches toks i (write toks j v g) = ◌=?◌ ⦃e = keys toks⦄ j i
touches compat_ints i (write compat_ints j v g) = ◌=?◌ ⦃e = keys compat_ints⦄ j i
touches compat_dimens i (write compat_dimens j v g) = ◌=?◌ ⦃e = keys compat_dimens⦄ j i
touches _ i (write _ j v g) = false

abbrev pub Avoids : (b : Bank) → Key b → List Command → Type 0
Avoids b i [] = Unit
Avoids b i (c ∷ cs) = (touches b i c ≡ false) × Avoids b i cs

abbrev AllAre : {V : Type 0} → V → List V → Type 0
AllAre v [] = Unit
AllAre v (x ∷ xs) = (x ≡ v) × AllAre v xs

AllAre-map : {V : Type 0} (v : V) (xs : List V) → AllAre v (map (λ _. v) xs)
AllAre-map v [] = tt
AllAre-map v (x ∷ xs) = (refl, AllAre-map v xs)

effect_self :
    (b : Bank) (i : Key b) (v : Val b) (vs : List (Val b))
    → effect b b i v true i vs ≡ map (λ _. v) vs
effect_self counts i v vs = rw (==_refl i)
effect_self dimens i v vs = rw (==_refl i)
effect_self skips i v vs = rw (==_refl i)
effect_self muskips i v vs = rw (==_refl i)
effect_self toks i v vs = rw (==_refl i)
effect_self compat_ints i v vs = rw ((compat_int_beq_iff i i).1 refl)
effect_self compat_dimens i v vs = rw ((compat_dimen_beq_iff i i).1 refl)

module _ {V : Type 0} (f : List V → List V) (vs : List V) where
  not_touched : (t : Bool) → t ≡ false → (if t then f vs else vs) ≡ vs
  not_touched true h = cc
  not_touched false h = refl

effect-untouched :
    (b' b : Bank) (j : Key b') (v : Val b') (g : Bool) (i : Key b) (vs : List (Val b))
    → touches b i (write b' j v g) ≡ false
    → effect b' b j v g i vs ≡ vs
effect-untouched counts counts j v g i vs h = not_touched (assign g v) vs _ h
effect-untouched dimens dimens j v g i vs h = not_touched (assign g v) vs _ h
effect-untouched skips skips j v g i vs h = not_touched (assign g v) vs _ h
effect-untouched muskips muskips j v g i vs h = not_touched (assign g v) vs _ h
effect-untouched toks toks j v g i vs h = not_touched (assign g v) vs _ h
effect-untouched compat_ints compat_ints j v g i vs h = not_touched (assign g v) vs _ h
effect-untouched compat_dimens compat_dimens j v g i vs h = not_touched (assign g v) vs _ h
effect-untouched _ _ j v g i vs h = refl

enter-AllAre : {V : Type 0} (v : V) (xs : List V) → AllAre v xs → AllAre v (enter xs)
enter-AllAre v [] h = tt
enter-AllAre v (x ∷ xs) h = (h.0, h)

leave-AllAre : {V : Type 0} (v : V) (xs : List V) → AllAre v xs → AllAre v (leave xs)
leave-AllAre v [] h = tt
leave-AllAre v (x ∷ []) h = h
leave-AllAre v (x ∷ y ∷ xs) h = h.1

scope_run-AllAre :
    (b : Bank) (i : Key b) (v : Val b) (cs : List Command) (vs : List (Val b))
    → Avoids b i cs
    → AllAre v vs
    → AllAre v (scope_run b i cs vs)
unfolding scope_run
scope_run-AllAre b i v [] vs a h = h
scope_run-AllAre b i v (begin ∷ cs) vs a h =
    scope_run-AllAre b i v cs (enter vs) a.1 (enter-AllAre v vs h)
scope_run-AllAre b i v (end ∷ cs) vs a h =
    scope_run-AllAre b i v cs (leave vs) a.1 (leave-AllAre v vs h)
scope_run-AllAre b i v (write b' j w g ∷ cs) vs a h =
    scope_run-AllAre b i v cs (effect b' b j w g i vs) a.1
      (rw (effect-untouched b' b j w g i vs a.0) h)

-- After a global assignment the register reads as the value assigned, whatever groups begin and
-- end, until an operation assigns to that register again.
pub global_survives :
    (b : Bank) (i : Key b) (v : Val b) (cs : List Command) (s : RegisterStore)
    → Avoids b i cs
    → fetch b (run cs (store b s i v true)) i ≡ v
global_survives b i v cs s a =
    let (vs, p) = history-fetch b i (run cs (store b s i v true)) in
    let all : AllAre v (scope_run b i cs (map (λ _. v) (history b i s))) =
      scope_run-AllAre b i v cs _ a (AllAre-map v (history b i s)) in
    let e =
      history-run b i cs (store b s i v true)
      ∙ ap (scope_run b i cs) (store_lem b b s i v true i ∙ effect_self b i v (history b i s)) in
    (subst (AllAre v) (sym e ∙ p) all).0
