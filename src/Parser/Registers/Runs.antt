-- ===== src/Parser/Registers/Runs.antt =====
-- Sequences of operations on the register store, against the scopes of one register at a time.
use ferritex.Prelude.{ℕ, zero, suc, ◌≡◌, refl, ap, ◌∙◌, sym, Bool, List, [], ◌∷◌, length}
use ferritex.Parser.Registers.{RegisterStore, push_group, pop_group}
use ferritex.Parser.Registers.Cells.{enter, leave}
use ferritex.Parser.Registers.Field.{values, pending, values-push, values-pop}
use ferritex.Parser.Registers.Banks.{Bank, Key, Val, keys, field, fetch, store, fetch-eq-read}
use ferritex.Parser.Registers.Scoping.{history, effect, store_lem}

pub data Command : Type 0 where
  begin end : Command
  write : (b : Bank) → Key b → Val b → Bool → Command

abbrev pub step : Command → RegisterStore → RegisterStore
step begin s = push_group s
step end s = pop_group s
step (write b j v global) s = store b s j v global

unfoldable pub run : List Command → RegisterStore → RegisterStore
run [] s = s
run (c ∷ cs) s = run cs (step c s)

-- The scopes of one register: a stack of values, which a group doubles at the top and drops.
abbrev pub scope_step : (b : Bank) → Key b → Command → List (Val b) → List (Val b)
scope_step b i begin vs = enter vs
scope_step b i end vs = leave vs
scope_step b i (write b' j v global) vs = effect b' b j v global i vs

unfoldable pub scope_run : (b : Bank) → Key b → List Command → List (Val b) → List (Val b)
scope_run b i [] vs = vs
scope_run b i (c ∷ cs) vs = scope_run b i cs (scope_step b i c vs)

history-step :
    (b : Bank) (i : Key b) (c : Command) (s : RegisterStore)
    → history b i (step c s) ≡ scope_step b i c (history b i s)
history-step b i begin s = values-push ⦃e = keys b⦄ (field b) i s
history-step b i end s = values-pop ⦃e = keys b⦄ (field b) i s
history-step b i (write b' j v global) s = store_lem b' b s j v global i

-- Whatever the operations, the values that a register shows now and after each pending end of a
-- group are those of a stack of scopes, in which a group copies the top value, a local assignment
-- replaces the top, and a global one replaces every value.
pub history-run :
    (b : Bank) (i : Key b) (cs : List Command) (s : RegisterStore)
    → history b i (run cs s) ≡ scope_run b i cs (history b i s)
unfolding run scope_run
history-run b i [] s = refl
history-run b i (c ∷ cs) s =
    history-run b i cs (step c s) ∙ ap (scope_run b i cs) (history-step b i c s)

pub history-fetch :
    (b : Bank) (i : Key b) (s : RegisterStore)
    → (vs : List (Val b)) × (history b i s ≡ fetch b s i ∷ vs)
unfolding values pending
history-fetch b i s = from (length s.save_stack)
  where
    from : (n : ℕ) → (vs : List (Val b)) × (pending ⦃e = keys b⦄ (field b) i n s ≡ fetch b s i ∷ vs)
    from zero = ([], ap (λ v. v ∷ []) (sym (fetch-eq-read b s i)))
    from (suc n) = (
      pending ⦃e = keys b⦄ (field b) i n (pop_group s),
      ap (λ v. v ∷ pending ⦃e = keys b⦄ (field b) i n (pop_group s)) (sym (fetch-eq-read b s i)),
    )
