-- ===== src/Parser/Registers/Scoping.antt =====
-- Each setter, the start and the end of a group on the values of every register of every bank.
use ferritex.Prelude.{◌≡◌, refl, Bool, true, false, List, ◌=?◌, if◌then◌else◌}
use ferritex.Parser.Registers.{
  RegisterStore, set_count, set_dimen, set_skip, set_muskip, set_toks, set_compat_int,
  set_compat_dimen,
}
use ferritex.Parser.Registers.Cells.{assign}
use ferritex.Parser.Registers.Field.{values}
use ferritex.Parser.Registers.Sparse
use ferritex.Parser.Registers.Effect.{
  values-global, values-local, values-all_other, values-last_other,
}
use ferritex.Parser.Registers.Banks.{
  Bank, counts, dimens, skips, muskips, toks, compat_ints, compat_dimens, Key, Val, keys, field,
  store,
}

-- The values of a register now and after each pending end of a group, innermost first.
abbrev pub history : (b : Bank) → Key b → RegisterStore → List (Val b)
history b i s = values ⦃e = keys b⦄ (field b) i s

-- What an assignment to register `j` of the first bank means for register `i` of the second.
abbrev pub effect : (b' b : Bank) → Key b' → Val b' → Bool → Key b → List (Val b) → List (Val b)
effect counts counts j v global i vs = if ◌=?◌ ⦃e = keys counts⦄ j i then assign global v vs else vs
effect dimens dimens j v global i vs = if ◌=?◌ ⦃e = keys dimens⦄ j i then assign global v vs else vs
effect skips skips j v global i vs = if ◌=?◌ ⦃e = keys skips⦄ j i then assign global v vs else vs
effect muskips muskips j v global i vs =
    if ◌=?◌ ⦃e = keys muskips⦄ j i then assign global v vs else vs
effect toks toks j v global i vs = if ◌=?◌ ⦃e = keys toks⦄ j i then assign global v vs else vs
effect compat_ints compat_ints j v global i vs =
    if ◌=?◌ ⦃e = keys compat_ints⦄ j i then assign global v vs else vs
effect compat_dimens compat_dimens j v global i vs =
    if ◌=?◌ ⦃e = keys compat_dimens⦄ j i then assign global v vs else vs
effect _ _ j v global i vs = vs

pub store_lem :
    (b' b : Bank) (s : RegisterStore) (j : Key b') (v : Val b') (global : Bool) (i : Key b)
    → history b i (store b' s j v global) ≡ effect b' b j v global i (history b i s)
unfolding set_count set_dimen set_skip set_muskip set_toks set_compat_int set_compat_dimen
store_lem counts counts s j v true i =
    values-global ⦃e = keys counts⦄ (field counts) s _ j i v
      (Sparse.set_sparse_register-IsUpdate s.counts j v) refl
store_lem counts counts s j v false i =
    values-local ⦃e = keys counts⦄ (field counts) s _ j i v
      (Sparse.set_sparse_register-IsUpdate s.counts j v) refl
store_lem dimens dimens s j v true i =
    values-global ⦃e = keys dimens⦄ (field dimens) s _ j i v
      (Sparse.set_sparse_register-IsUpdate s.dimens j v) refl
store_lem dimens dimens s j v false i =
    values-local ⦃e = keys dimens⦄ (field dimens) s _ j i v
      (Sparse.set_sparse_register-IsUpdate s.dimens j v) refl
store_lem skips skips s j v true i =
    values-global ⦃e = keys skips⦄ (field skips) s _ j i v
      (Sparse.set_sparse_register-IsUpdate s.skips j v) refl
store_lem skips skips s j v false i =
    values-local ⦃e = keys skips⦄ (field skips) s _ j i v
      (Sparse.set_sparse_register-IsUpdate s.skips j v) refl
store_lem muskips muskips s j v true i =
    values-global ⦃e = keys muskips⦄ (field muskips) s _ j i v
      (Sparse.set_sparse_register-IsUpdate s.muskips j v) refl
store_lem muskips muskips s j v false i =
    values-local ⦃e = keys muskips⦄ (field muskips) s _ j i v
      (Sparse.set_sparse_register-IsUpdate s.muskips j v) refl
store_lem toks toks s j v true i =
    values-global ⦃e = keys toks⦄ (field toks) s _ j i v
      (Sparse.set_sparse_tokens_register-IsUpdate s.toks j v) refl
store_lem toks toks s j v false i =
    values-local ⦃e = keys toks⦄ (field toks) s _ j i v
      (Sparse.set_sparse_tokens_register-IsUpdate s.toks j v) refl
store_lem compat_ints compat_ints s j v true i =
    values-global ⦃e = keys compat_ints⦄ (field compat_ints) s _ j i v
      (Sparse.set_sparse_compat_register-IsUpdate s.compat_ints j v) refl
store_lem compat_ints compat_ints s j v false i =
    values-local ⦃e = keys compat_ints⦄ (field compat_ints) s _ j i v
      (Sparse.set_sparse_compat_register-IsUpdate s.compat_ints j v) refl
store_lem compat_dimens compat_dimens s j v true i =
    values-global ⦃e = keys compat_dimens⦄ (field compat_dimens) s _ j i v
      (Sparse.set_sparse_compat_dimen_register-IsUpdate s.compat_dimens j v) refl
store_lem compat_dimens compat_dimens s j v false i =
    values-local ⦃e = keys compat_dimens⦄ (field compat_dimens) s _ j i v
      (Sparse.set_sparse_compat_dimen_register-IsUpdate s.compat_dimens j v) refl
store_lem b' b s j v true i = values-all_other ⦃e = keys b⦄ (field b) s _ i _ refl refl (λ g. refl)
store_lem b' b s j v false i =
    values-last_other ⦃e = keys b⦄ (field b) s _ i _ refl refl (λ g. refl)
