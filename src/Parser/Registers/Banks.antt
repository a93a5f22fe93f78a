-- ===== src/Parser/Registers/Banks.antt =====
-- The seven banks of registers as fields of the store, and the setters and getters by bank.
use ferritex.Prelude.{ℕ, ◌≡◌, refl, Bool, List, [], ◌∷◌, ℤ, pos, nat_eq, Eq}
use ferritex.Parser.Token.{Token}
use ferritex.Parser.Registers.{
  CompatIntRegister, CompatDimenRegister, default_int, default_dimen, compat_int_eq,
  compat_dimen_eq, RegisterStore, GroupSave, push_group, pop_group, restore_all, set_count,
  set_dimen, set_skip, set_muskip, set_toks, set_compat_int, set_compat_dimen, get_count, get_dimen,
  get_skip, get_muskip, get_toks, get_compat_int, get_compat_dimen,
}
use ferritex.Parser.Registers.Field.{Field, read}

pub data Bank : Type 0 where
  counts dimens skips muskips toks compat_ints compat_dimens : Bank

abbrev pub Key : Bank → Type 0
Key compat_ints = CompatIntRegister
Key compat_dimens = CompatDimenRegister
Key _ = ℕ

abbrev pub Val : Bank → Type 0
Val toks = List Token
Val _ = ℤ

abbrev pub keys : (b : Bank) → Eq (Key b)
keys counts = nat_eq
keys dimens = nat_eq
keys skips = nat_eq
keys muskips = nat_eq
keys toks = nat_eq
keys compat_ints = compat_int_eq
keys compat_dimens = compat_dimen_eq

-- The getter and the setter of a bank.
abbrev pub fetch : (b : Bank) → RegisterStore → Key b → Val b
fetch counts = get_count
fetch dimens = get_dimen
fetch skips = get_skip
fetch muskips = get_muskip
fetch toks = get_toks
fetch compat_ints = get_compat_int
fetch compat_dimens = get_compat_dimen

abbrev pub store : (b : Bank) → RegisterStore → Key b → Val b → Bool → RegisterStore
store counts = set_count
store dimens = set_dimen
store skips = set_skip
store muskips = set_muskip
store toks = set_toks
store compat_ints = set_compat_int
store compat_dimens = set_compat_dimen

pub counts-pop :
    (s : RegisterStore) (g : GroupSave) (gs : List GroupSave)
    → s.save_stack ≡ g ∷ gs
    → (pop_group s).counts ≡ restore_all g.counts s.counts
unfolding pop_group
counts-pop s g gs h = simp h

pub counts-push : (s : RegisterStore) → (push_group s).counts ≡ s.counts
unfolding push_group
counts-push s = refl

abbrev pub counts_field : Field ℕ (ℤ)
counts_field = record {
  current = λ s. s.counts;
  saved = λ g. g.counts;
  with_saved = λ g m. record g { counts = m };
  default = λ _. pos 0;
  saved-with_saved = λ g m. refl;
  current_push = counts-push;
  saved_empty = refl;
  current_pop = counts-pop;
}

pub dimens-pop :
    (s : RegisterStore) (g : GroupSave) (gs : List GroupSave)
    → s.save_stack ≡ g ∷ gs
    → (pop_group s).dimens ≡ restore_all g.dimens s.dimens
unfolding pop_group
dimens-pop s g gs h = simp h

pub dimens-push : (s : RegisterStore) → (push_group s).dimens ≡ s.dimens
unfolding push_group
dimens-push s = refl

abbrev pub dimens_field : Field ℕ (ℤ)
dimens_field = record {
  current = λ s. s.dimens;
  saved = λ g. g.dimens;
  with_saved = λ g m. record g { dimens = m };
  default = λ _. pos 0;
  saved-with_saved = λ g m. refl;
  current_push = dimens-push;
  saved_empty = refl;
  current_pop = dimens-pop;
}

pub skips-pop :
    (s : RegisterStore) (g : GroupSave) (gs : List GroupSave)
    → s.save_stack ≡ g ∷ gs
    → (pop_group s).skips ≡ restore_all g.skips s.skips
unfolding pop_group
skips-pop s g gs h = simp h

pub skips-push : (s : RegisterStore) → (push_group s).skips ≡ s.skips
unfolding push_group
skips-push s = refl

abbrev pub skips_field : Field ℕ (ℤ)
skips_field = record {
  current = λ s. s.skips;
  saved = λ g. g.skips;
  with_saved = λ g m. record g { skips = m };
  default = λ _. pos 0;
  saved-with_saved = λ g m. refl;
  current_push = skips-push;
  saved_empty = refl;
  current_pop = skips-pop;
}

pub muskips-pop :
    (s : RegisterStore) (g : GroupSave) (gs : List GroupSave)
    → s.save_stack ≡ g ∷ gs
    → (pop_group s).muskips ≡ restore_all g.muskips s.muskips
unfolding pop_group
muskips-pop s g gs h = simp h

pub muskips-push : (s : RegisterStore) → (push_group s).muskips ≡ s.muskips
unfolding push_group
muskips-push s = refl

abbrev pub muskips_field : Field ℕ (ℤ)
muskips_field = record {
  current = λ s. s.muskips;
  saved = λ g. g.muskips;
  with_saved = λ g m. record g { muskips = m };
  default = λ _. pos 0;
  saved-with_saved = λ g m. refl;
  current_push = muskips-push;
  saved_empty = refl;
  current_pop = muskips-pop;
}

pub toks-pop :
    (s : RegisterStore) (g : GroupSave) (gs : List GroupSave)
    → s.save_stack ≡ g ∷ gs
    → (pop_group s).toks ≡ restore_all g.toks s.toks
unfolding pop_group
toks-pop s g gs h = simp h

pub toks-push : (s : RegisterStore) → (push_group s).toks ≡ s.toks
unfolding push_group
toks-push s = refl

abbrev pub toks_field : Field ℕ (List Token)
toks_field = record {
  current = λ s. s.toks;
  saved = λ g. g.toks;
  with_saved = λ g m. record g { toks = m };
  default = λ _. [];
  saved-with_saved = λ g m. refl;
  current_push = toks-push;
  saved_empty = refl;
  current_pop = toks-pop;
}

pub compat_ints-pop :
    (s : RegisterStore) (g : GroupSave) (gs : List GroupSave)
    → s.save_stack ≡ g ∷ gs
    → (pop_group s).compat_ints ≡ restore_all g.compat_ints s.compat_ints
unfolding pop_group
compat_ints-pop s g gs h = simp h

pub compat_ints-push : (s : RegisterStore) → (push_group s).compat_ints ≡ s.compat_ints
unfolding push_group
compat_ints-push s = refl

abbrev pub compat_ints_field : Field CompatIntRegister (ℤ)
compat_ints_field = record {
  current = λ s. s.compat_ints;
  saved = λ g. g.compat_ints;
  with_saved = λ g m. record g { compat_ints = m };
  default = default_int;
  saved-with_saved = λ g m. refl;
  current_push = compat_ints-push;
  saved_empty = refl;
  current_pop = compat_ints-pop;
}

pub compat_dimens-pop :
    (s : RegisterStore) (g : GroupSave) (gs : List GroupSave)
    → s.save_stack ≡ g ∷ gs
    → (pop_group s).compat_dimens ≡ restore_all g.compat_dimens s.compat_dimens
unfolding pop_group
compat_dimens-pop s g gs h = simp h

pub compat_dimens-push : (s : RegisterStore) → (push_group s).compat_dimens ≡ s.compat_dimens
unfolding push_group
compat_dimens-push s = refl

abbrev pub compat_dimens_field : Field CompatDimenRegister (ℤ)
compat_dimens_field = record {
  current = λ s. s.compat_dimens;
  saved = λ g. g.compat_dimens;
  with_saved = λ g m. record g { compat_dimens = m };
  default = default_dimen;
  saved-with_saved = λ g m. refl;
  current_push = compat_dimens-push;
  saved_empty = refl;
  current_pop = compat_dimens-pop;
}

abbrev pub field : (b : Bank) → Field (Key b) (Val b) ⦃e = keys b⦄
field counts = counts_field
field dimens = dimens_field
field skips = skips_field
field muskips = muskips_field
field toks = toks_field
field compat_ints = compat_ints_field
field compat_dimens = compat_dimens_field

pub fetch-eq-read :
    (b : Bank) (s : RegisterStore) (i : Key b) → fetch b s i ≡ read ⦃e = keys b⦄ (field b) i s
unfolding get_count get_dimen get_skip get_muskip get_toks get_compat_int get_compat_dimen
fetch-eq-read counts s i = refl
fetch-eq-read dimens s i = refl
fetch-eq-read skips s i = refl
fetch-eq-read muskips s i = refl
fetch-eq-read toks s i = refl
fetch-eq-read compat_ints s i = refl
fetch-eq-read compat_dimens s i = refl
