-- ===== src/Parser/Registers/Sparse.antt =====
-- A sparse map holds no default value: reading a key after a write gives the value all the same.
use ferritex.Prelude.{
  ℕ, ◌≡◌, refl, Bool, true, false, List, [], ◌∷◌, ℤ, pos, nat_eq, int_eq, Eq, ◌=?◌, if◌then◌else◌,
  unwrap_or, int_beq_iff, sym,
}
use ferritex.Prelude.HashMap.{HashMap, get, insert, remove, get-insert, get-remove}
use ferritex.Parser.Token.{Token}
use ferritex.Parser.Registers.{
  CompatIntRegister, CompatDimenRegister, default_int, default_dimen, compat_int_eq,
  compat_dimen_eq, set_sparse_register, set_sparse_tokens_register, set_sparse_compat_register,
  set_sparse_compat_dimen_register,
}

-- The map reads as `v` at `j`, and as before elsewhere.
pub record IsUpdate {K V : Type 0} ⦃e : Eq K⦄ (d : V) (m m' : HashMap K V) (j : K) (v : V)
    : Type 0 where
  pub at_key : unwrap_or (get m' j) d ≡ v
  pub elsewhere : (i : K) → (j =? i) ≡ false → get m' i ≡ get m i

module _ {K V : Type 0} ⦃e : Eq K⦄ (m : HashMap K V) (j : K) where
  insert-IsUpdate : (d v : V) → IsUpdate d m (insert m j v) j v
  insert-IsUpdate d v = record {
    at_key = rw (get-insert, (e.beq_iff j j).1 refl);
    elsewhere = λ i h. rw (get-insert, h);
  }

  remove-IsUpdate : (d v : V) → d ≡ v → IsUpdate d m (remove m j) j v
  remove-IsUpdate d v p = record {
    at_key = rw (get-remove, (e.beq_iff j j).1 refl) p;
    elsewhere = λ i h. rw (get-remove, h);
  }

  branch-IsUpdate :
      (d v : V) (b : Bool)
      → (b ≡ true → d ≡ v)
      → IsUpdate d m (if b then remove m j else insert m j v) j v
  branch-IsUpdate d v true h = remove-IsUpdate d v (h refl)
  branch-IsUpdate d v false h = insert-IsUpdate d v

pub set_sparse_register-IsUpdate :
    (m : HashMap ℕ ℤ) (j : ℕ) (v : ℤ) → IsUpdate (pos 0) m (set_sparse_register m j v) j v
unfolding set_sparse_register
set_sparse_register-IsUpdate m j v =
    branch-IsUpdate m j (pos 0) v _ (λ h. sym ((int_beq_iff v (pos 0)).0 h))

pub set_sparse_compat_register-IsUpdate :
    (m : HashMap CompatIntRegister ℤ) (j : CompatIntRegister) (v : ℤ)
    → IsUpdate (default_int j) m (set_sparse_compat_register m j v) j v
unfolding set_sparse_compat_register
set_sparse_compat_register-IsUpdate m j v =
    branch-IsUpdate m j (default_int j) v _ (λ h. sym ((int_beq_iff v (default_int j)).0 h))

pub set_sparse_compat_dimen_register-IsUpdate :
    (m : HashMap CompatDimenRegister ℤ) (j : CompatDimenRegister) (v : ℤ)
    → IsUpdate (default_dimen j) m (set_sparse_compat_dimen_register m j v) j v
unfolding set_sparse_compat_dimen_register
set_sparse_compat_dimen_register-IsUpdate m j v =
    branch-IsUpdate m j (default_dimen j) v _ (λ h. sym ((int_beq_iff v (default_dimen j)).0 h))

pub set_sparse_tokens_register-IsUpdate :
    (m : HashMap ℕ (List Token)) (j : ℕ) (v : List Token)
    → IsUpdate [] m (set_sparse_tokens_register m j v) j v
unfolding set_sparse_tokens_register
set_sparse_tokens_register-IsUpdate m j [] = remove-IsUpdate m j [] [] refl
set_sparse_tokens_register-IsUpdate m j (t ∷ ts) = insert-IsUpdate m j [] (t ∷ ts)
