-- ===== src/Incremental/Partition/Identifiers.antt =====
-- The identifiers of the parts of a plan.
use ferritex.Prelude.{
  ℕ, zero, suc, ◌+◌, ◌≡◌, ◌≢◌, refl, sym, ap, ◌∙◌, subst, Bool, true, false, Option, none, some,
  List, [], ◌∷◌, ◌++◌, Str, ◌==◌, if◌then◌else◌, get_elem?, arith,
}
use ferritex.Prelude.Decimal.{padded, padded_inj}
use ferritex.Prelude.Elements.{some_inj}
use ferritex.Incremental.Partition.{
  PathBuf, SectionOutlineEntry, PartitionKind, DocumentWorkUnit, display_title, prefix_of,
  partition_strategy, slugify_partition_title, work_unit, units_from, units_of, plan,
}

append_cancel : {A : Type 0} (xs ys zs : List A) → xs ++ ys ≡ xs ++ zs → ys ≡ zs
append_cancel [] ys zs h = h
append_cancel (x ∷ xs) ys zs h = append_cancel xs ys zs (cc)

tail_inj : (xs ys : List ℕ) → 58 ∷ xs ≡ 58 ∷ ys → xs ≡ ys
tail_inj xs ys h = cc

module _ (to_lowercase : ℕ → List ℕ) (trim : Str → Str) (file_stem : PathBuf → Option Str) where
  -- The unit of an entry is named by its ordinal.
  IsNamed : PartitionKind → ℕ → Str → Type 0
  IsNamed kind ordinal id =
      (slug : Str) × (id ≡ prefix_of kind ++ (58 ∷ (padded 4 (ordinal + 1) ++ (58 ∷ slug))))

  units_from-IsNamed :
      (input : PathBuf) (level : ℕ) (kind : PartitionKind) (ordinal : ℕ)
      (es : List SectionOutlineEntry) (i : ℕ) (u : DocumentWorkUnit)
      → get_elem? (units_from to_lowercase trim file_stem input level kind ordinal es) i ≡ some u
      → IsNamed kind (ordinal + i) u.partition_id
  unfolding units_from work_unit IsNamed
  units_from-IsNamed input level kind ordinal [] i u g = absurd (cc)
  units_from-IsNamed input level kind ordinal (e ∷ es) i u g =
      by_level (λ k. units_from-IsNamed input level kind (ordinal + 1) es k u)
        (λ k. units_from-IsNamed input level kind ordinal es k u) (e.level == level) i g
    where
      counted : List DocumentWorkUnit
      counted = units_from to_lowercase trim file_stem input level kind (ordinal + 1) es

      passed : List DocumentWorkUnit
      passed = units_from to_lowercase trim file_stem input level kind ordinal es

      unit : DocumentWorkUnit
      unit = work_unit to_lowercase trim file_stem input kind ordinal e

      by_level :
          ((k : ℕ) → get_elem? counted k ≡ some u → IsNamed kind (ordinal + 1 + k) u.partition_id)
          → ((k : ℕ) → get_elem? passed k ≡ some u → IsNamed kind (ordinal + k) u.partition_id)
          → (b : Bool) (k : ℕ) → get_elem? (if b then unit ∷ counted else passed) k ≡ some u
          → IsNamed kind (ordinal + k) u.partition_id
      by_level behind same true zero g =
          subst (λ n. IsNamed kind n u.partition_id) {x = ordinal} {y = ordinal + 0} (omega arith)
            (
              slugify_partition_title to_lowercase trim file_stem (display_title e),
              ap (λ (v : DocumentWorkUnit). v.partition_id) (sym (some_inj _ _ g)),
            )
      by_level behind same true (suc k) g =
          subst (λ n. IsNamed kind n u.partition_id) {x = ordinal + 1 + k} {y = ordinal + suc k}
            (omega arith) (behind k g)
      by_level behind same false k g = same k g

  ordinals_inj :
      (kind : PartitionKind) (m n : ℕ) (id : Str) → IsNamed kind m id → IsNamed kind n id → m ≡ n
  unfolding IsNamed
  ordinals_inj kind m n id (s, p) (t, q) =
      let same = append_cancel (prefix_of kind) _ _ (sym p ∙ q) in
      let e = padded_inj 4 (m + 1) (n + 1) s t (tail_inj _ _ same) in omega (arith, e)

  units_of_distinct :
      (input : PathBuf) (es : List SectionOutlineEntry) (strategy : Option (ℕ × PartitionKind))
      (i j : ℕ) (u v : DocumentWorkUnit)
      → get_elem? (units_of to_lowercase trim file_stem input es strategy) i ≡ some u
      → get_elem? (units_of to_lowercase trim file_stem input es strategy) j ≡ some v
      → u.partition_id ≡ v.partition_id
      → i ≡ j
  unfolding units_of
  units_of_distinct input es none zero zero u v g h e = refl
  units_of_distinct input es none (suc i) j u v g h e = absurd (cc)
  units_of_distinct input es none zero (suc j) u v g h e = absurd (cc)
  units_of_distinct input es (some (level, kind)) i j u v g h e =
      let a = units_from-IsNamed input level kind 0 es i u g in
      let b = units_from-IsNamed input level kind 0 es j v h in
      let n =
        ordinals_inj kind (0 + i) (0 + j) u.partition_id a
          (subst (IsNamed kind (0 + j)) (sym e) b) in
      omega (arith, n)

  -- Two parts of a plan have different identifiers, whatever their titles.
  pub identifiers_distinct :
      (input : PathBuf) (document_class : Str) (es : List SectionOutlineEntry) (i j : ℕ)
      (u v : DocumentWorkUnit)
      → get_elem? (plan to_lowercase trim file_stem input document_class es).work_units i ≡ some u
      → get_elem? (plan to_lowercase trim file_stem input document_class es).work_units j ≡ some v
      → i ≢ j
      → u.partition_id ≢ v.partition_id
  unfolding plan
  identifiers_distinct input document_class es i j u v g h apart e =
      apart (units_of_distinct input es (partition_strategy document_class es) i j u v g h e)
