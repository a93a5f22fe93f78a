-- ===== src/Policy/PathAccess.antt =====
-- crates/ferritex-core/src/policy/path_access.rs: which paths a job may read and write.
use ferritex.Prelude.{
  ◌≡◌, ◌↔◌, ◌⊎◌, inl, inr, refl, ap, ap₂, ◌∙◌, sym, Bool, true, false, ◌||◌, ◌&&◌, List, [], ◌∷◌,
  ◌++◌, map, Str, ◌=?◌, eq_of_=?, =?_refl, if◌then◌else◌, arith, list_eq, list_beq, nat_eq,
}
use ferritex.Prelude.Order.{pair_eq}
use ferritex.Policy.{
  Component, root_dir, normal, PathBuf, normalize_path, component_eq, component_beq_iff,
}
use ferritex.Policy.Normalize.{IsAbsolute, resolve, normalize_path-resolve}

pub data PathAccessDecision : Type 0 where
  allowed denied : PathAccessDecision

pub record PathAccessPolicy : Type 0 where
  pub allowed_read_dirs : List PathBuf
  pub allowed_write_dirs : List PathBuf

-- `Path::starts_with`, by components.
unfoldable pub starts_with : PathBuf → PathBuf → Bool
starts_with path [] = true
starts_with [] (d ∷ dir) = false
starts_with (c ∷ path) (d ∷ dir) = (c =? d) && starts_with path dir

unfoldable pub starts_with_any : PathBuf → List PathBuf → Bool
starts_with_any path [] = false
starts_with_any path (dir ∷ dirs) =
    starts_with path (normalize_path dir) || starts_with_any path dirs

abbrev pub check : PathBuf → List PathBuf → PathAccessDecision
check path allowed_dirs =
    if starts_with_any (normalize_path path) allowed_dirs then allowed else denied

unfoldable pub check_read : PathAccessPolicy → PathBuf → PathAccessDecision
check_read policy path = check path policy.allowed_read_dirs

unfoldable pub check_write : PathAccessPolicy → PathBuf → PathAccessDecision
check_write policy path = check path policy.allowed_write_dirs

abbrev pub AreAbsolute : List PathBuf → Type 0
AreAbsolute [] = Unit
AreAbsolute (dir ∷ dirs) = IsAbsolute dir × AreAbsolute dirs

-- The path leads into one of the directories, or into a directory below it.
abbrev pub IsUnderSome : PathBuf → List PathBuf → Type 0
IsUnderSome path [] = ⊥
IsUnderSome path (dir ∷ dirs) =
    ((below : List Str) × (resolve path ≡ resolve dir ++ below)) ⊎ IsUnderSome path dirs

normal_inj : {s t : Str} → normal s ≡ normal t → s ≡ t
normal_inj p = ap name p
  where
    name : Component → Str
    name (normal s) = s
    name root_dir = []
    name _ = []

under_of_starts_with :
    (names dirs : List Str)
    → starts_with (map normal names) (map normal dirs) ≡ true
    → (below : List Str) × (names ≡ dirs ++ below)
unfolding starts_with
under_of_starts_with names [] h = (names, refl)
under_of_starts_with [] (d ∷ ds) h = absurd (ground arith)
under_of_starts_with (n ∷ ns) (d ∷ ds) h =
    let (below, p) = under_of_starts_with ns ds (ground arith) in
    let same = normal_inj ((component_beq_iff (normal n) (normal d)).0 (ground arith)) in
    (below, ap₂ (λ (x : Str) xs. x ∷ xs) same p)

starts_with_refl :
    (dirs below : List Str) → starts_with (map normal (dirs ++ below)) (map normal dirs) ≡ true
unfolding starts_with
starts_with_refl [] below = refl
starts_with_refl (d ∷ ds) below =
    ground (arith, (component_beq_iff (normal d) (normal d)).1 refl, starts_with_refl ds below)

starts_with_iff :
    (path dir : PathBuf)
    → IsAbsolute path
    → IsAbsolute dir
    → (starts_with (normalize_path path) (normalize_path dir) ≡ true)
      ↔ ((below : List Str) × (resolve path ≡ resolve dir ++ below))
unfolding starts_with ferritex.Prelude.Order.pair_beq list_beq
starts_with_iff path dir a d = (
  λ h.
      under_of_starts_with (resolve path) (resolve dir)
        (sym (roots (resolve path) (resolve dir)) ∙ sym both ∙ h),
  λ (below, p).
      both
      ∙ roots (resolve path) (resolve dir)
      ∙ ap (λ names. starts_with (map normal names) (map normal (resolve dir))) p
      ∙ starts_with_refl (resolve dir) below,
)
  where
    both :
        starts_with (normalize_path path) (normalize_path dir)
        ≡ starts_with (root_dir ∷ map normal (resolve path)) (root_dir ∷ map normal (resolve dir))
    both = ap₂ starts_with (normalize_path-resolve path a) (normalize_path-resolve dir d)

    roots :
        (ns ds : List Str)
        → starts_with (root_dir ∷ map normal ns) (root_dir ∷ map normal ds)
          ≡ starts_with (map normal ns) (map normal ds)
    roots ns ds = refl

starts_with_any_iff :
    (path : PathBuf) (dirs : List PathBuf)
    → IsAbsolute path
    → AreAbsolute dirs
    → (starts_with_any (normalize_path path) dirs ≡ true) ↔ IsUnderSome path dirs
unfolding starts_with_any
starts_with_any_iff path [] a ds = (λ h. absurd (ground arith), λ h. absurd h)
starts_with_any_iff path (dir ∷ dirs) a ds = (
  λ h. elim (or_cases _ _ h) [
    | inl p ↦ inl ((starts_with_iff path dir a ds.0).0 p)
    | inr q ↦ inr ((starts_with_any_iff path dirs a ds.1).0 q)
  ],
  λ h. elim h [
    | inl p ↦ ground (arith, (starts_with_iff path dir a ds.0).1 p)
    | inr q ↦ ground (arith, (starts_with_any_iff path dirs a ds.1).1 q)
  ],
)
  where
    or_cases : (b c : Bool) → (b || c) ≡ true → (b ≡ true) ⊎ (c ≡ true)
    or_cases true c h = inl refl
    or_cases false c h = inr h

-- With absolute directories in the policy, an absolute path may be read if and only if its components
-- lead into one of the read directories or below it, and written if and only if they lead into one of
-- the write directories or below it: no `..` leads out of them.
pub access_iff :
    (policy : PathAccessPolicy) (path : PathBuf)
    → IsAbsolute path
    → AreAbsolute policy.allowed_read_dirs
    → AreAbsolute policy.allowed_write_dirs
    → ((check_read policy path ≡ allowed) ↔ IsUnderSome path policy.allowed_read_dirs)
      × ((check_write policy path ≡ allowed) ↔ IsUnderSome path policy.allowed_write_dirs)
unfolding check_read check_write
access_iff policy path a r w =
    (checked policy.allowed_read_dirs r, checked policy.allowed_write_dirs w)
  where
    decided : (b : Bool) → ((if b then allowed else denied) ≡ allowed) ↔ (b ≡ true)
    decided true = (λ h. refl, λ h. refl)
    decided false = (λ h. absurd cc, λ h. absurd (ground arith))

    checked :
        (dirs : List PathBuf)
        → AreAbsolute dirs
        → (check path dirs ≡ allowed) ↔ IsUnderSome path dirs
    checked dirs ds =
        let d = decided (starts_with_any (normalize_path path) dirs) in
        let s = starts_with_any_iff path dirs a ds in (λ h. s.0 (d.0 h), λ h. d.1 (s.1 h))
