-- ===== src/Parser/Registers/Field.antt =====
-- One of the seven maps of the store, with the maps that the groups save of it, behind its laws.
-- `values` reads a register now and after each pending `pop_group`, by running `pop_group`.
use ferritex.Prelude.{
  ℕ, zero, suc, ◌≡◌, refl, ap, ap₂, ◌∙◌, sym, Option, List, [], ◌∷◌, map, unwrap_or, length, Eq,
}
use ferritex.Prelude.HashMap.{HashMap, get}
use ferritex.Parser.Registers.{
  RegisterStore, GroupSave, empty_save, push_group, pop_group, restore_all,
}
use ferritex.Parser.Registers.Cells.{shown, shown-leave, shown-enter, enter, leave, get-restore_all}

pub record Field (K V : Type 0) ⦃e : Eq K⦄ : Type 0 where
  pub current : RegisterStore → HashMap K V
  pub saved : GroupSave → HashMap K (Option V)
  pub with_saved : GroupSave → HashMap K (Option V) → GroupSave
  pub default : K → V
  pub saved-with_saved : (g : GroupSave) (m : HashMap K (Option V)) → saved (with_saved g m) ≡ m
  pub current_push : (s : RegisterStore) → current (push_group s) ≡ current s
  pub saved_empty : saved empty_save ≡ []
  pub current_pop :
      (s : RegisterStore) (g : GroupSave) (gs : List GroupSave)
      → s.save_stack ≡ g ∷ gs
      → current (pop_group s) ≡ restore_all (saved g) (current s)

save_stack-push : (s : RegisterStore) → (push_group s).save_stack ≡ empty_save ∷ s.save_stack
unfolding push_group
save_stack-push s = refl

save_stack-pop :
    (s : RegisterStore) (g : GroupSave) (gs : List GroupSave)
    → s.save_stack ≡ g ∷ gs
    → (pop_group s).save_stack ≡ gs
unfolding pop_group
save_stack-pop s g gs h = simp h

pop-outermost : (s : RegisterStore) → s.save_stack ≡ [] → pop_group s ≡ s
unfolding pop_group
pop-outermost s h = simp h

module _ {K V : Type 0} ⦃e : Eq K⦄ (f : Field K V) (i : K) where
  open f use {current, saved, default, current_push, saved_empty, current_pop}

  abbrev pub read : RegisterStore → V
  read s = unwrap_or (get (current s) i) (default i)

  unfoldable pub pending : ℕ → RegisterStore → List V
  pending zero s = read s ∷ []
  pending (suc n) s = read s ∷ pending n (pop_group s)

  unfoldable pub values : RegisterStore → List V
  unfolding pending
  values s = pending (length s.save_stack) s

  unfoldable pub slots : List GroupSave → List (Option (Option V))
  slots gs = map (λ g. get (saved g) i) gs

  abbrev pub shown_of : HashMap K V → List GroupSave → List V
  shown_of m gs = shown (default i) (get m i) (slots gs)

  pending-eq-shown :
      (gs : List GroupSave) (s : RegisterStore)
      → s.save_stack ≡ gs
      → pending (length gs) s ≡ shown_of (current s) gs
  unfolding pending shown slots
  pending-eq-shown [] s h = refl
  pending-eq-shown (g ∷ gs) s h =
      ap (λ x. read s ∷ x)
        (pending-eq-shown gs (pop_group s) (save_stack-pop s g gs h)
          ∙ ap (λ m. shown_of m gs) (current_pop s g gs h)
          ∙ ap (λ c. shown (default i) c (slots gs)) (get-restore_all (saved g) (current s) i))

  pub values-eq-shown :
      (s : RegisterStore) (gs : List GroupSave)
      → s.save_stack ≡ gs
      → values s ≡ shown_of (current s) gs
  unfolding values
  values-eq-shown s gs h = ap (λ x. pending (length x) s) h ∙ pending-eq-shown gs s h

  pub values-push : (s : RegisterStore) → values (push_group s) ≡ enter (values s)
  unfolding slots
  values-push s =
      values-eq-shown (push_group s) _ (save_stack-push s)
      ∙ ap₂ (λ m o. shown (default i) (get m i) (get o i ∷ slots s.save_stack)) (current_push s)
          saved_empty
      ∙ unfold get in
        shown-enter (default i) (get (current s) i) (slots s.save_stack)
        ∙ sym (ap enter (values-eq-shown s _ refl))

  pop-cases :
      (gs : List GroupSave) (s : RegisterStore)
      → s.save_stack ≡ gs
      → values (pop_group s) ≡ leave (values s)
  unfolding shown slots
  pop-cases [] s h =
      ap values (pop-outermost s h)
      ∙ values-eq-shown s [] h
      ∙ sym (ap leave (values-eq-shown s [] h))
  pop-cases (g ∷ gs) s h =
      values-eq-shown (pop_group s) gs (save_stack-pop s g gs h)
      ∙ ap (λ m. shown_of m gs) (current_pop s g gs h)
      ∙ ap (λ c. shown (default i) c (slots gs)) (get-restore_all (saved g) (current s) i)
      ∙ shown-leave (default i) (get (current s) i) (get (saved g) i) (slots gs)
      ∙ sym (ap leave (values-eq-shown s (g ∷ gs) h))

  pub values-pop : (s : RegisterStore) → values (pop_group s) ≡ leave (values s)
  values-pop s = pop-cases s.save_stack s refl
