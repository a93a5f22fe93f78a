-- ===== src/Parser/Registers.antt =====
-- crates/ferritex-core/src/parser/registers.rs: TeX's registers, with the save stack that undoes
-- local assignments when a group ends. A `u16` index is a number, an `i32` an integer. The head of
-- `save_stack` is the last element of the `Vec`, the innermost group.
pub mod Cells
pub mod Field
pub mod Effect
pub mod Banks
pub mod Sparse
pub mod Scoping
pub mod Runs
pub mod Groups
mod Examples
use ferritex.Prelude.{
  ℕ, ◌≡◌, ◌↔◌, Bool, true, false, Option, none, some, List, [], ◌∷◌, map, arith, Eq, ◌=?◌, ℤ, pos,
  unwrap_or, if◌then◌else◌, nat_eq, int_eq,
}
use ferritex.Prelude.HashMap.{HashMap, get, insert, remove, or_insert}
use ferritex.Parser.Token.{Token}

pub data CompatIntRegister : Type 0 where
  pdf_output pdf_tex_version : CompatIntRegister

pub data CompatDimenRegister : Type 0 where
  pdf_page_width pdf_page_height : CompatDimenRegister

abbrev pub default_int : CompatIntRegister → ℤ
default_int pdf_output = pos 1
default_int pdf_tex_version = pos 140

abbrev pub default_dimen : CompatDimenRegister → ℤ
default_dimen pdf_page_width = pos 40258355
default_dimen pdf_page_height = pos 52101554

abbrev pub compat_int_beq : CompatIntRegister → CompatIntRegister → Bool
compat_int_beq pdf_output pdf_output = true
compat_int_beq pdf_tex_version pdf_tex_version = true
compat_int_beq _ _ = false

abbrev pub compat_dimen_beq : CompatDimenRegister → CompatDimenRegister → Bool
compat_dimen_beq pdf_page_width pdf_page_width = true
compat_dimen_beq pdf_page_height pdf_page_height = true
compat_dimen_beq _ _ = false

pub compat_int_beq_iff : (a b : CompatIntRegister) → (compat_int_beq a b ≡ true) ↔ (a ≡ b)
compat_int_beq_iff a b = ground arith

pub compat_dimen_beq_iff : (a b : CompatDimenRegister) → (compat_dimen_beq a b ≡ true) ↔ (a ≡ b)
compat_dimen_beq_iff a b = ground arith

instance abbrev pub compat_int_eq : Eq CompatIntRegister
compat_int_eq = record { beq = compat_int_beq; beq_iff = compat_int_beq_iff }

instance abbrev pub compat_dimen_eq : Eq CompatDimenRegister
compat_dimen_eq = record { beq = compat_dimen_beq; beq_iff = compat_dimen_beq_iff }

-- What a group has to restore: `none` for a register that had no entry.
pub record GroupSave : Type 0 where
  pub counts : HashMap ℕ (Option ℤ)
  pub dimens : HashMap ℕ (Option ℤ)
  pub skips : HashMap ℕ (Option ℤ)
  pub muskips : HashMap ℕ (Option ℤ)
  pub toks : HashMap ℕ (Option (List Token))
  pub compat_ints : HashMap CompatIntRegister (Option ℤ)
  pub compat_dimens : HashMap CompatDimenRegister (Option ℤ)

pub record RegisterStore : Type 0 where
  pub counts : HashMap ℕ ℤ
  pub dimens : HashMap ℕ ℤ
  pub skips : HashMap ℕ ℤ
  pub muskips : HashMap ℕ ℤ
  pub toks : HashMap ℕ (List Token)
  pub compat_ints : HashMap CompatIntRegister ℤ
  pub compat_dimens : HashMap CompatDimenRegister ℤ
  pub save_stack : List GroupSave

-- `GroupSave::default()` and `RegisterStore::default()`
abbrev pub empty_save : GroupSave
empty_save = record {
  counts = [];
  dimens = [];
  skips = [];
  muskips = [];
  toks = [];
  compat_ints = [];
  compat_dimens = [];
}

abbrev pub empty_store : RegisterStore
empty_store = record {
  counts = [];
  dimens = [];
  skips = [];
  muskips = [];
  toks = [];
  compat_ints = [];
  compat_dimens = [];
  save_stack = [];
}

module _ {ℓ κ} {K : Type ℓ} {V : Type κ} ⦃e : Eq K⦄ where
  pub restore_register : HashMap K V → K → Option V → HashMap K V
  restore_register m index none = remove m index
  restore_register m index (some value) = insert m index value

  -- The loops of `pop_group`. The keys of a map are distinct, so the order does not matter.
  pub restore_all : HashMap K (Option V) → HashMap K V → HashMap K V
  restore_all [] m = m
  restore_all ((index, previous) ∷ rest) m = restore_register (restore_all rest m) index previous

-- `for group_save in &mut self.save_stack`
abbrev pub on_all : (GroupSave → GroupSave) → List GroupSave → List GroupSave
on_all f gs = map f gs

-- `last_mut` with an update under it
pub on_last : (GroupSave → GroupSave) → List GroupSave → List GroupSave
on_last f [] = []
on_last f (g ∷ gs) = f g ∷ gs

unfoldable pub set_sparse_register : HashMap ℕ ℤ → ℕ → ℤ → HashMap ℕ ℤ
set_sparse_register m index value = if value =? pos 0 then remove m index else insert m index value

-- `value.is_empty()` is the match on the list.
unfoldable pub set_sparse_tokens_register :
    HashMap ℕ (List Token) → ℕ → List Token → HashMap ℕ (List Token)
set_sparse_tokens_register m index [] = remove m index
set_sparse_tokens_register m index (t ∷ ts) = insert m index (t ∷ ts)

unfoldable pub set_sparse_compat_register :
    HashMap CompatIntRegister ℤ → CompatIntRegister → ℤ → HashMap CompatIntRegister ℤ
set_sparse_compat_register m register value =
    if value =? default_int register then remove m register else insert m register value

unfoldable pub set_sparse_compat_dimen_register :
    HashMap CompatDimenRegister ℤ → CompatDimenRegister → ℤ → HashMap CompatDimenRegister ℤ
set_sparse_compat_dimen_register m register value =
    if value =? default_dimen register then remove m register else insert m register value

unfoldable pub push_group : RegisterStore → RegisterStore
push_group s = record s { save_stack = empty_save ∷ s.save_stack }

abbrev pop_save : List GroupSave → RegisterStore → RegisterStore
unfolding restore_all
pop_save [] s = s
pop_save (g ∷ gs) s = record {
  counts = restore_all g.counts s.counts;
  dimens = restore_all g.dimens s.dimens;
  skips = restore_all g.skips s.skips;
  muskips = restore_all g.muskips s.muskips;
  toks = restore_all g.toks s.toks;
  compat_ints = restore_all g.compat_ints s.compat_ints;
  compat_dimens = restore_all g.compat_dimens s.compat_dimens;
  save_stack = gs;
}

unfoldable pub pop_group : RegisterStore → RegisterStore
unfolding restore_all restore_register
pop_group s = pop_save s.save_stack s

-- The variant `Toks`, on which `set_register` is `unreachable!`, has no caller and no constructor.
pub data RegisterKind : Type 0 where
  count dimen skip muskip : RegisterKind

set_register : RegisterStore → ℕ → ℤ → Bool → RegisterKind → RegisterStore
unfolding on_last set_sparse_register
set_register s index value true count = record s {
  counts = set_sparse_register s.counts index value;
  save_stack = on_all (λ g. record g { counts = remove g.counts index }) s.save_stack;
}
set_register s index value true dimen = record s {
  dimens = set_sparse_register s.dimens index value;
  save_stack = on_all (λ g. record g { dimens = remove g.dimens index }) s.save_stack;
}
set_register s index value true skip = record s {
  skips = set_sparse_register s.skips index value;
  save_stack = on_all (λ g. record g { skips = remove g.skips index }) s.save_stack;
}
set_register s index value true muskip = record s {
  muskips = set_sparse_register s.muskips index value;
  save_stack = on_all (λ g. record g { muskips = remove g.muskips index }) s.save_stack;
}
set_register s index value false count = record s {
  counts = set_sparse_register s.counts index value;
  save_stack =
      on_last (λ g. record g { counts = or_insert g.counts index (get s.counts index) })
        s.save_stack;
}
set_register s index value false dimen = record s {
  dimens = set_sparse_register s.dimens index value;
  save_stack =
      on_last (λ g. record g { dimens = or_insert g.dimens index (get s.dimens index) })
        s.save_stack;
}
set_register s index value false skip = record s {
  skips = set_sparse_register s.skips index value;
  save_stack =
      on_last (λ g. record g { skips = or_insert g.skips index (get s.skips index) }) s.save_stack;
}
set_register s index value false muskip = record s {
  muskips = set_sparse_register s.muskips index value;
  save_stack =
      on_last (λ g. record g { muskips = or_insert g.muskips index (get s.muskips index) })
        s.save_stack;
}

unfoldable pub get_count : RegisterStore → ℕ → ℤ
get_count s index = unwrap_or (get s.counts index) (pos 0)

unfoldable pub get_dimen : RegisterStore → ℕ → ℤ
get_dimen s index = unwrap_or (get s.dimens index) (pos 0)

unfoldable pub get_skip : RegisterStore → ℕ → ℤ
get_skip s index = unwrap_or (get s.skips index) (pos 0)

unfoldable pub get_muskip : RegisterStore → ℕ → ℤ
get_muskip s index = unwrap_or (get s.muskips index) (pos 0)

unfoldable pub get_toks : RegisterStore → ℕ → List Token
get_toks s index = unwrap_or (get s.toks index) []

unfoldable pub get_compat_int : RegisterStore → CompatIntRegister → ℤ
get_compat_int s register = unwrap_or (get s.compat_ints register) (default_int register)

unfoldable pub get_compat_dimen : RegisterStore → CompatDimenRegister → ℤ
get_compat_dimen s register = unwrap_or (get s.compat_dimens register) (default_dimen register)

unfoldable pub set_count : RegisterStore → ℕ → ℤ → Bool → RegisterStore
unfolding set_register
set_count s index value global = set_register s index value global count

unfoldable pub set_dimen : RegisterStore → ℕ → ℤ → Bool → RegisterStore
unfolding set_register
set_dimen s index value global = set_register s index value global dimen

unfoldable pub set_skip : RegisterStore → ℕ → ℤ → Bool → RegisterStore
unfolding set_register
set_skip s index value global = set_register s index value global skip

unfoldable pub set_muskip : RegisterStore → ℕ → ℤ → Bool → RegisterStore
unfolding set_register
set_muskip s index value global = set_register s index value global muskip

unfoldable pub set_toks : RegisterStore → ℕ → List Token → Bool → RegisterStore
unfolding on_last set_sparse_tokens_register
set_toks s index value true = record s {
  toks = set_sparse_tokens_register s.toks index value;
  save_stack = on_all (λ g. record g { toks = remove g.toks index }) s.save_stack;
}
set_toks s index value false = record s {
  toks = set_sparse_tokens_register s.toks index value;
  save_stack =
      on_last (λ g. record g { toks = or_insert g.toks index (get s.toks index) }) s.save_stack;
}

unfoldable pub set_compat_int : RegisterStore → CompatIntRegister → ℤ → Bool → RegisterStore
unfolding on_last set_sparse_compat_register
set_compat_int s register value true = record s {
  compat_ints = set_sparse_compat_register s.compat_ints register value;
  save_stack = on_all (λ g. record g { compat_ints = remove g.compat_ints register }) s.save_stack;
}
set_compat_int s register value false = record s {
  compat_ints = set_sparse_compat_register s.compat_ints register value;
  save_stack =
      on_last
        (λ g. record g {
          compat_ints = or_insert g.compat_ints register (get s.compat_ints register);
        })
        s.save_stack;
}

unfoldable pub set_compat_dimen : RegisterStore → CompatDimenRegister → ℤ → Bool → RegisterStore
unfolding on_last set_sparse_compat_dimen_register
set_compat_dimen s register value true = record s {
  compat_dimens = set_sparse_compat_dimen_register s.compat_dimens register value;
  save_stack =
      on_all (λ g. record g { compat_dimens = remove g.compat_dimens register }) s.save_stack;
}
set_compat_dimen s register value false = record s {
  compat_dimens = set_sparse_compat_dimen_register s.compat_dimens register value;
  save_stack =
      on_last
        (λ g. record g {
          compat_dimens = or_insert g.compat_dimens register (get s.compat_dimens register);
        })
        s.save_stack;
}
