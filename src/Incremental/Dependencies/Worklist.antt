-- ===== src/Incremental/Dependencies/Worklist.antt =====
-- The worklist of `affected_paths` ends, and what it has found is closed and reachable.
use ferritex.Prelude.{
  ℕ, zero, suc, ◌+◌, ◌≤◌, ◌<◌, ◌≡◌, ◌⊎◌, inl, inr, refl, ap, ◌∙◌, sym, subst, Bool, true, false,
  ◌||◌, List, [], ◌∷◌, some, length, ◌=?◌, eq_of_=?, =?_refl, list_eq, nat_eq, if◌then◌else◌,
  Bool-cases, arith,
}
use ferritex.Prelude.HashMap.{HashMap}
use ferritex.Prelude.BTreeSet
use ferritex.Prelude.BTreeSet.{BTreeSet, contains, contains-insert}
use ferritex.Prelude.Order.{list_ord, nat_ord}
use ferritex.Incremental.Dependencies.{PathBuf, push_new, spread}
use ferritex.Incremental.Dependencies.Reverse.{parents}

-- How many of the paths are not in the set.
pub missing : BTreeSet PathBuf → List PathBuf → ℕ
missing affected [] = 0
missing affected (p ∷ ps) =
    let rest = missing affected ps in if contains affected p then rest else suc rest

pub missing-nothing : (ps : List PathBuf) → missing [] ps ≡ length ps
unfolding missing contains
missing-nothing [] = refl
missing-nothing (p ∷ ps) = ap suc (missing-nothing ps)

missing-insert-le :
    (affected : BTreeSet PathBuf) (p : PathBuf) (ps : List PathBuf)
    → missing (BTreeSet.insert affected p) ps ≤ missing affected ps
unfolding missing
missing-insert-le affected p [] = omega arith
missing-insert-le affected p (q ∷ ps) =
    ground (arith, contains-insert affected p q, missing-insert-le affected p ps)

missing-insert-lt :
    (affected : BTreeSet PathBuf) (p : PathBuf) (ps : List PathBuf)
    → contains affected p ≡ false
    → contains ps p ≡ true
    → missing (BTreeSet.insert affected p) ps < missing affected ps
unfolding missing contains
missing-insert-lt affected p [] h k = absurd (ground arith)
missing-insert-lt affected p (q ∷ ps) h k = elim (Bool-cases (q =? p)) [
  | inl t ↦
      subst (λ r. missing (BTreeSet.insert affected p) (r ∷ ps) < missing affected (r ∷ ps))
        (sym (eq_of_=? t))
        (ground (arith, contains-insert affected p p, =?_refl p, missing-insert-le affected p ps))
  | inr f ↦ ground (arith, contains-insert affected p q, missing-insert-lt affected p ps h)
]

-- Every path of the list is among those.
abbrev Within : List PathBuf → List PathBuf → Type 0
Within all ps = (p : PathBuf) → contains ps p ≡ true → contains all p ≡ true

-- Pushing turns missing paths into a longer stack.
pub push_new-missing :
    (all : List PathBuf) (ps : List PathBuf) (affected : BTreeSet PathBuf) (stack : List PathBuf)
    → Within all ps
    → missing (push_new affected stack ps).0 all + length (push_new affected stack ps).1
      ≤ missing affected all + length stack
unfolding push_new contains
push_new-missing all [] affected stack w = omega arith
push_new-missing all (p ∷ ps) affected stack w = elim (Bool-cases (contains affected p)) [
  | inl t ↦ rw t (push_new-missing all ps affected stack (λ q h. w q (ground arith)))
  | inr f ↦ rw f (
      omega (
        arith,
        push_new-missing all ps (BTreeSet.insert affected p) (p ∷ stack)
            (λ q h. w q (ground arith)),
        missing-insert-lt affected p all f (w p (ground (arith, =?_refl p))),
      ))
]

pub contains-push_new :
    (ps : List PathBuf) (affected : BTreeSet PathBuf) (stack : List PathBuf) (q : PathBuf)
    → contains (push_new affected stack ps).0 q ≡ (contains affected q || contains ps q)
unfolding push_new contains
contains-push_new [] affected stack q = ground arith
contains-push_new (p ∷ ps) affected stack q = elim (Bool-cases (contains affected p)) [
  | inl t ↦ rw t (
      contains-push_new ps affected stack q
      ∙ known (p =? q) (contains affected q) (contains ps q)
          (λ e. ap (contains affected) (sym (eq_of_=? e)) ∙ t))
  | inr f ↦ rw f (
      contains-push_new ps (BTreeSet.insert affected p) (p ∷ stack) q
      ∙ ground (arith, contains-insert affected p q))
]
  where
    known : (e a b : Bool) → (e ≡ true → a ≡ true) → (a || b) ≡ (a || (e || b))
    known true a b h = ground (arith, h refl)
    known false a b h = refl

-- What enters the set enters the stack, and nothing leaves that.
pub stack-push_new :
    (ps : List PathBuf) (affected : BTreeSet PathBuf) (stack : List PathBuf) (q : PathBuf)
    → (contains stack q ≡ true → contains (push_new affected stack ps).1 q ≡ true)
      × (contains (push_new affected stack ps).0 q ≡ true
          → (contains affected q ≡ true) ⊎ (contains (push_new affected stack ps).1 q ≡ true))
unfolding push_new contains
stack-push_new [] affected stack q = (λ h. h, λ h. inl h)
stack-push_new (p ∷ ps) affected stack q = elim (Bool-cases (contains affected p)) [
  | inl t ↦ rw t (stack-push_new ps affected stack q)
  | inr f ↦ rw f (
      let (keep, enter) = stack-push_new ps (BTreeSet.insert affected p) (p ∷ stack) q in
      (
        λ h. keep (ground arith),
        λ h. elim (enter h) [
          | inr k ↦ inr k
          | inl k ↦ elim (Bool-cases (p =? q)) [
            | inl e ↦ inr (keep (ground arith))
            | inr n ↦ inl (ground (arith, contains-insert affected p q))
          ]
        ],
      ))
]

pub from-push_new :
    (ps : List PathBuf) (affected : BTreeSet PathBuf) (stack : List PathBuf) (q : PathBuf)
    → contains (push_new affected stack ps).1 q ≡ true
    → (contains stack q ≡ true) ⊎ (contains ps q ≡ true)
unfolding push_new contains
from-push_new [] affected stack q h = inl h
from-push_new (p ∷ ps) affected stack q h = elim (Bool-cases (contains affected p)) [
  | inl t ↦ later (
      from-push_new ps affected stack q (
        subst
          (λ b.
            contains
              (if b
                then push_new affected stack ps
                else push_new (BTreeSet.insert affected p) (p ∷ stack) ps).1
              q
            ≡ true)
          t h))
  | inr f ↦ sooner (
      from-push_new ps (BTreeSet.insert affected p) (p ∷ stack) q (
        subst
          (λ b.
            contains
              (if b
                then push_new affected stack ps
                else push_new (BTreeSet.insert affected p) (p ∷ stack) ps).1
              q
            ≡ true)
          f h))
]
  where
    later :
        (contains stack q ≡ true) ⊎ (contains ps q ≡ true)
        → (contains stack q ≡ true) ⊎ (((p =? q) || contains ps q) ≡ true)
    later (inl k) = inl k
    later (inr k) = inr (ground arith)

    sooner :
        (((p =? q) || contains stack q) ≡ true) ⊎ (contains ps q ≡ true)
        → (contains stack q ≡ true) ⊎ (((p =? q) || contains ps q) ≡ true)
    sooner (inr k) = inr (ground arith)
    sooner (inl k) = elim (Bool-cases (p =? q)) [
      | inl e ↦ inr (ground arith)
      | inr n ↦ inl (ground arith)
    ]

or_cases : (b c : Bool) → (b || c) ≡ true → (b ≡ true) ⊎ (c ≡ true)
or_cases true c h = inl refl
or_cases false c h = inr h

module _ (all : List PathBuf) (reverse : HashMap PathBuf (BTreeSet PathBuf)) where
  -- A path of the set is on the stack, or its parents are in the set.
  abbrev Done : BTreeSet PathBuf → List PathBuf → Type 0
  Done affected stack =
      (q : PathBuf)
      → contains affected q ≡ true
      → (contains stack q ≡ true)
        ⊎ ((f : PathBuf) → contains (parents reverse q) f ≡ true → contains affected f ≡ true)

  abbrev Result : (PathBuf → Type 0) → BTreeSet PathBuf → BTreeSet PathBuf → Type 0
  Result P affected result =
      ((q : PathBuf) → contains affected q ≡ true → contains result q ≡ true)
      × Done result []
      × ((q : PathBuf) → contains result q ≡ true → P q)

  Done-round :
      (p : PathBuf) (affected : BTreeSet PathBuf) (stack : List PathBuf)
      → Done affected (p ∷ stack)
      → Done
          (push_new affected stack (parents reverse p)).0
          (push_new affected stack (parents reverse p)).1
  unfolding contains
  Done-round p affected stack d q h =
      let (keep, enter) = stack-push_new (parents reverse p) affected stack q in
      let grow = λ (f : PathBuf). contains-push_new (parents reverse p) affected stack f in
      elim (enter h) [
        | inr on ↦ inl on
        | inl old ↦ elim (d q old) [
          | inr closed ↦ inr (λ f k. ground (arith, grow f, closed f k))
          | inl on ↦ elim (Bool-cases (p =? q)) [
            | inl e ↦ inr (λ f k. ground (
              arith,
              grow f,
              subst (λ r. contains (parents reverse r) f ≡ true) (sym (eq_of_=? e)) k,
            ))
            | inr n ↦ inl (keep (ground arith))
          ]
        ]
      ]

  pub spread_lem :
      (P : PathBuf → Type 0)
      → ((path : PathBuf) → Within all (parents reverse path))
      → ((path f : PathBuf) → P path → contains (parents reverse path) f ≡ true → P f)
      → (fuel : ℕ) (affected : BTreeSet PathBuf) (stack : List PathBuf)
      → missing affected all + length stack ≤ fuel
      → Done affected stack
      → ((q : PathBuf) → contains affected q ≡ true → P q)
      → ((q : PathBuf) → contains stack q ≡ true → P q)
      → (result : BTreeSet PathBuf) × (spread fuel reverse affected stack ≡ some result)
        × Result P affected result
  unfolding spread contains
  spread_lem P w step fuel affected [] h d r s = (affected, refl, (λ q k. k, d, r))
  spread_lem P w step zero affected (p ∷ stack) h d r s = absurd (omega arith)
  spread_lem P w step (suc fuel) affected (p ∷ stack) h d r s =
      let ps = parents reverse p in
      let found =
        λ (q : PathBuf) (k : contains ps q ≡ true). step p q (s p (ground (arith, =?_refl p))) k in
      let (result, e, (more, closed, sound)) =
        spread_lem P w step fuel (push_new affected stack ps).0 (push_new affected stack ps).1
          (omega (arith, push_new-missing all ps affected stack (w p)))
          (Done-round p affected stack d)
          (λ q k. elim (or_cases _ _ (sym (contains-push_new ps affected stack q) ∙ k)) [
            | inl old ↦ r q old
            | inr new ↦ found q new
          ])
          (λ q k. elim (from-push_new ps affected stack q k) [
            | inl old ↦ s q (ground arith)
            | inr new ↦ found q new
          ]) in
      (
        result,
        e,
        (λ q k. more q (ground (arith, contains-push_new ps affected stack q)), closed, sound),
      )
