-- ===== src/Parser/Registers/Effect.antt =====
-- What a global and a local assignment to one key of a map do to the values of every key.
use ferritex.Prelude.{
  ◌≡◌, refl, ap, ap₂, ◌∙◌, sym, true, false, Option, none, some, List, [], ◌∷◌, map, Eq, ◌=?◌,
  if◌then◌else◌, Bool-cases, inl, inr, subst,
}
use ferritex.Prelude.HashMap.{get, remove, or_insert, get-remove, get-or_insert}
use ferritex.Parser.Registers.{RegisterStore, GroupSave, on_last}
use ferritex.Parser.Registers.Cells.{shown, shown-global, shown-local, keep_first, assign}
use ferritex.Parser.Registers.Sparse.{IsUpdate}
use ferritex.Parser.Registers.Field.{Field, values, slots, values-eq-shown}

module _ {K V : Type 0} ⦃e : Eq K⦄ (f : Field K V) where
  open f use {current, saved, with_saved, default, saved-with_saved}

  abbrev pub forget : K → GroupSave → GroupSave
  forget j g = with_saved g (remove (saved g) j)

  abbrev pub save : RegisterStore → K → GroupSave → GroupSave
  save s j g = with_saved g (or_insert (saved g) j (get (current s) j))

  -- `v` has been written to `j` in the map.
  abbrev pub Written : RegisterStore → RegisterStore → K → V → Type 0
  Written s s' j v = IsUpdate (default j) (current s) (current s') j v

  pub slots-forget_self :
      (i : K) (gs : List GroupSave) → slots f i (map (forget i) gs) ≡ map (λ _. none) (slots f i gs)
  unfolding slots
  slots-forget_self i [] = refl
  slots-forget_self i (g ∷ gs) =
      ap₂ ◌∷◌ (rw (saved-with_saved, get-remove, (e.beq_iff i i).1 refl)) (slots-forget_self i gs)

  pub slots-forget_ne :
      (j i : K)
      → (j =? i) ≡ false
      → (gs : List GroupSave) → slots f i (map (forget j) gs) ≡ slots f i gs
  unfolding slots
  slots-forget_ne j i h [] = refl
  slots-forget_ne j i h (g ∷ gs) =
      ap₂ ◌∷◌ (rw (saved-with_saved, get-remove, h)) (slots-forget_ne j i h gs)

  pub slots-save_self :
      (s : RegisterStore) (i : K) (gs : List GroupSave)
      → slots f i (on_last (save s i) gs) ≡ keep_first (get (current s) i) (slots f i gs)
  unfolding slots on_last
  slots-save_self s i [] = refl
  slots-save_self s i (g ∷ gs) =
      rw (saved-with_saved, get-or_insert, (e.beq_iff i i).1 refl) (kept (get (saved g) i))
    where
      kept :
          (o : Option (Option V))
          → (elim o [ none ↦ some (get (current s) i) | some w ↦ some w ]) ∷ slots f i gs
            ≡ keep_first (get (current s) i) (o ∷ slots f i gs)
      kept none = refl
      kept (some w) = refl

  pub slots-save_ne :
      (s : RegisterStore) (j i : K)
      → (j =? i) ≡ false
      → (gs : List GroupSave) → slots f i (on_last (save s j) gs) ≡ slots f i gs
  unfolding slots on_last
  slots-save_ne s j i h [] = refl
  slots-save_ne s j i h (g ∷ gs) =
      ap (λ x. x ∷ slots f i gs) (rw (saved-with_saved, get-or_insert, h))

  -- The values of a key, from its entry and slots in the new store.
  values-slots :
      (s s' : RegisterStore) (i : K) (x : List (Option (Option V)))
      → slots f i s'.save_stack ≡ x
      → values f i s' ≡ shown (default i) (get (current s') i) x
  values-slots s s' i x h =
      values-eq-shown f i s' _ refl ∙ ap (λ y. shown (default i) (get (current s') i) y) h

  pub values-same :
      (s s' : RegisterStore) (i : K)
      → get (current s') i ≡ get (current s) i
      → slots f i s'.save_stack ≡ slots f i s.save_stack
      → values f i s' ≡ values f i s
  values-same s s' i c h =
      values-slots s s' i _ h
      ∙ ap (λ y. shown (default i) y (slots f i s.save_stack)) c
      ∙ sym (values-eq-shown f i s _ refl)

  global_self :
      (s s' : RegisterStore) (i : K) (v : V)
      → Written s s' i v
      → s'.save_stack ≡ map (forget i) s.save_stack
      → values f i s' ≡ assign true v (values f i s)
  global_self s s' i v w h =
      values-slots s s' i _ (ap (slots f i) h ∙ slots-forget_self i s.save_stack)
      ∙ shown-global (default i) v (get (current s) i) (get (current s') i) (slots f i s.save_stack)
          w.at_key
      ∙ sym (ap (assign true v) (values-eq-shown f i s _ refl))

  local_self :
      (s s' : RegisterStore) (i : K) (v : V)
      → Written s s' i v
      → s'.save_stack ≡ on_last (save s i) s.save_stack
      → values f i s' ≡ assign false v (values f i s)
  local_self s s' i v w h =
      values-slots s s' i _ (ap (slots f i) h ∙ slots-save_self s i s.save_stack)
      ∙ shown-local (default i) v (get (current s) i) (get (current s') i) (slots f i s.save_stack)
          w.at_key
      ∙ sym (ap (assign false v) (values-eq-shown f i s _ refl))

  pub values-global :
      (s s' : RegisterStore) (j i : K) (v : V)
      → Written s s' j v
      → s'.save_stack ≡ map (forget j) s.save_stack
      → values f i s' ≡ (if j =? i then assign true v (values f i s) else values f i s)
  values-global s s' j i v w h = elim (Bool-cases (j =? i)) [
    | inl t ↦ rw t (
        subst (λ k. values f k s' ≡ assign true v (values f k s)) ((e.beq_iff j i).0 t)
          (global_self s s' j v w h))
    | inr n ↦ rw n (
        values-same s s' i (w.elsewhere i n)
          (ap (slots f i) h ∙ slots-forget_ne j i n s.save_stack))
  ]

  pub values-local :
      (s s' : RegisterStore) (j i : K) (v : V)
      → Written s s' j v
      → s'.save_stack ≡ on_last (save s j) s.save_stack
      → values f i s' ≡ (if j =? i then assign false v (values f i s) else values f i s)
  values-local s s' j i v w h = elim (Bool-cases (j =? i)) [
    | inl t ↦ rw t (
        subst (λ k. values f k s' ≡ assign false v (values f k s)) ((e.beq_iff j i).0 t)
          (local_self s s' j v w h))
    | inr n ↦ rw n (
        values-same s s' i (w.elsewhere i n)
          (ap (slots f i) h ∙ slots-save_ne s j i n s.save_stack))
  ]

  -- A write to another map.
  slots-all :
      (i : K) (h : GroupSave → GroupSave)
      → ((g : GroupSave) → saved (h g) ≡ saved g)
      → (gs : List GroupSave) → slots f i (map h gs) ≡ slots f i gs
  unfolding slots
  slots-all i h p [] = refl
  slots-all i h p (g ∷ gs) = ap₂ (λ m x. get m i ∷ x) (p g) (slots-all i h p gs)

  slots-last :
      (i : K) (h : GroupSave → GroupSave)
      → ((g : GroupSave) → saved (h g) ≡ saved g)
      → (gs : List GroupSave) → slots f i (on_last h gs) ≡ slots f i gs
  unfolding slots on_last
  slots-last i h p [] = refl
  slots-last i h p (g ∷ gs) = ap (λ m. get m i ∷ slots f i gs) (p g)

  pub values-all_other :
      (s s' : RegisterStore) (i : K) (h : GroupSave → GroupSave)
      → current s' ≡ current s
      → s'.save_stack ≡ map h s.save_stack
      → ((g : GroupSave) → saved (h g) ≡ saved g)
      → values f i s' ≡ values f i s
  values-all_other s s' i h c q p =
      values-same s s' i (ap (λ m. get m i) c) (ap (slots f i) q ∙ slots-all i h p s.save_stack)

  pub values-last_other :
      (s s' : RegisterStore) (i : K) (h : GroupSave → GroupSave)
      → current s' ≡ current s
      → s'.save_stack ≡ on_last h s.save_stack
      → ((g : GroupSave) → saved (h g) ≡ saved g)
      → values f i s' ≡ values f i s
  values-last_other s s' i h c q p =
      values-same s s' i (ap (λ m. get m i) c) (ap (slots f i) q ∙ slots-last i h p s.save_stack)
