-- ===== src/Application/RecompileScheduler/Runs.antt =====
-- Sequences of calls of the scheduler: no change is lost, and one compile runs at a time.
use ferritex.Prelude.{
  ℕ, ◌+◌, ◌≤◌, ◌≡◌, ◌⊎◌, inl, inr, refl, sym, ap, ◌∙◌, subst, zero, suc, Bool, true, false, ◌||◌,
  ◌&&◌, not, ◌==◌, Bool-cases, Option, none, some, List, [], ◌∷◌, arith, list_eq, nat_eq,
}
use ferritex.Prelude.BTreeSet.{contains, contains-extend}
use ferritex.Prelude.Order.{list_ord, nat_ord}
use ferritex.Application.RecompileScheduler.{
  within_window, has_pending_changes, PathBuf, RecompileScheduler, enqueue, start_next_at,
  finish_current,
}

-- Times stand with the calls that read the clock.
pub data Call : Type 0 where
  enqueued : ℕ → List PathBuf → Call
  start_next : ℕ → Call
  finished : Call

abbrev pub step : Call → RecompileScheduler → RecompileScheduler
step (enqueued now changes) s = enqueue s now changes
step (start_next now) s = (start_next_at s now).1
step finished s = finish_current s

-- What the call gave to compile.
abbrev pub batch : Call → RecompileScheduler → Option (List PathBuf)
batch (enqueued now changes) s = none
batch (start_next now) s = (start_next_at s now).0
batch finished s = none

unfoldable pub run : List Call → RecompileScheduler → RecompileScheduler
run [] s = s
run (c ∷ cs) s = run cs (step c s)

-- `p` is in some batch that the calls give out.
abbrev pub holds_change : Option (List PathBuf) → PathBuf → Bool
holds_change none p = false
holds_change (some changes) p = contains changes p

unfoldable pub compiled : List Call → RecompileScheduler → PathBuf → Bool
compiled [] s p = false
compiled (c ∷ cs) s p = holds_change (batch c s) p || compiled cs (step c s) p

-- `p` is among the changes that some call enqueues.
abbrev reports : Call → PathBuf → Bool
reports (enqueued now changes) p = contains changes p
reports (start_next now) p = false
reports finished p = false

unfoldable pub reported : List Call → PathBuf → Bool
reported [] p = false
reported (c ∷ cs) p = reports c p || reported cs p

abbrev waiting : RecompileScheduler → ℕ → Bool
waiting s now = not (s.settle_window == 0) && within_window now s.settle_window s.last_enqueue_at

abbrev Started : RecompileScheduler → ℕ → Type 0
Started s now =
    (s.compile_in_flight ≡ false)
    × (has_pending_changes s ≡ true)
    × (waiting s now ≡ false)
    × (start_next_at s now
        ≡ (some s.pending_changes, record s { compile_in_flight = true; pending_changes = [] }))

start_cases : (s : RecompileScheduler) (now : ℕ) → (start_next_at s now ≡ (none, s)) ⊎ Started s now
unfolding start_next_at
start_cases s now = elim (Bool-cases (s.compile_in_flight || not (has_pending_changes s))) [
  | inl busy ↦ inl (rw busy refl)
  | inr free ↦ elim (Bool-cases (waiting s now)) [
    | inl soon ↦ inl (rw free (rw soon refl))
    | inr settled ↦ inr (ground arith, ground arith, settled, rw free (rw settled refl))
  ]
]

step_changes :
    (c : Call) (s : RecompileScheduler) (p : PathBuf)
    → (holds_change (batch c s) p || contains (step c s).pending_changes p)
      ≡ (contains s.pending_changes p || reports c p)
unfolding enqueue finish_current start_next_at contains
step_changes (enqueued now changes) s p = contains-extend changes s.pending_changes p
step_changes (start_next now) s p = ground arith
step_changes finished s p = ground arith

-- No change is lost and none is made up: after any calls a path was given out to be compiled or is
-- pending if and only if it was pending before or was enqueued.
pub no_change_lost :
    (cs : List Call) (s : RecompileScheduler) (p : PathBuf)
    → (compiled cs s p || contains (run cs s).pending_changes p)
      ≡ (contains s.pending_changes p || reported cs p)
unfolding run compiled reported
no_change_lost [] s p = ground arith
no_change_lost (c ∷ cs) s p = ground (arith, step_changes c s p, no_change_lost cs (step c s) p)

-- Whether a compile runs, as the caller sees it: from a batch until `finish_current`.
abbrev flight : Call → Option (List PathBuf) → Bool → Bool
flight (enqueued now changes) o b = b
flight (start_next now) none b = b
flight (start_next now) (some changes) b = true
flight finished o b = false

-- No batch is given out while a compile runs.
abbrev pub Waits : Bool → Option (List PathBuf) → Type 0
Waits running none = Unit
Waits running (some changes) = running ≡ false

abbrev pub OneAtATime : Bool → List Call → RecompileScheduler → Type 0
OneAtATime running [] s = Unit
OneAtATime running (c ∷ cs) s =
    Waits running (batch c s) × OneAtATime (flight c (batch c s) running) cs (step c s)

abbrev Agrees : ℕ → Bool → Option (List PathBuf) × RecompileScheduler → Type 0
Agrees now running r = r.1.compile_in_flight ≡ flight (start_next now) r.0 running

step-flight :
    (c : Call) (s : RecompileScheduler)
    → (step c s).compile_in_flight ≡ flight c (batch c s) s.compile_in_flight
unfolding enqueue finish_current start_next_at
step-flight (enqueued now changes) s = refl
step-flight (start_next now) s = elim (start_cases s now) [
  | inl quiet ↦ subst (Agrees now s.compile_in_flight) (sym quiet) refl
  | inr (free, some_pending, settled, e) ↦ subst (Agrees now s.compile_in_flight) (sym e) refl
]
step-flight finished s = refl

step_Waits : (c : Call) (s : RecompileScheduler) → Waits s.compile_in_flight (batch c s)
unfolding start_next_at
step_Waits (enqueued now changes) s = tt
step_Waits (start_next now) s = elim (start_cases s now) [
  | inl quiet ↦ subst (λ r. Waits s.compile_in_flight r.0) (sym quiet) tt
  | inr (free, some_pending, settled, e) ↦ subst (λ r. Waits s.compile_in_flight r.0) (sym e) free
]
step_Waits finished s = tt

-- At most one compile runs: whatever calls are made, no batch is given out between a batch and the
-- next `finish_current`.
pub one_at_a_time : (cs : List Call) (s : RecompileScheduler) → OneAtATime s.compile_in_flight cs s
one_at_a_time [] s = tt
one_at_a_time (c ∷ cs) s = (
  step_Waits c s,
  subst (λ b. OneAtATime b cs (step c s)) (step-flight c s) (one_at_a_time cs (step c s)),
)

-- The changes have settled: no `enqueue` came within the window before `now`.
abbrev pub HasSettled : RecompileScheduler → ℕ → Type 0
HasSettled s now = (last : ℕ) → s.last_enqueue_at ≡ some last → last + s.settle_window ≤ now

settled_iff :
    (window now : ℕ) (o : Option ℕ)
    → (not (window == 0) && within_window now window o) ≡ false
    → (window ≡ 0) ⊎ ((last : ℕ) → o ≡ some last → last + window ≤ now)
settled_iff window now none h = inr (λ last p. absurd cc)
settled_iff zero now (some l) h = inl refl
settled_iff (suc w) now (some l) h =
    inr (λ last p. omega (arith, some_inj l last p, over w now l h))
  where
    some_inj : (a b : ℕ) → some a ≡ some b → a ≡ b
    some_inj a b p = cc

    over :
        (w now l : ℕ)
        → (not (suc w == 0) && within_window now (suc w) (some l)) ≡ false
        → l + suc w ≤ now
    over w now l h = ground arith

settled_waiting :
    (window now : ℕ) (o : Option ℕ)
    → ((last : ℕ) → o ≡ some last → last + window ≤ now)
    → (not (window == 0) && within_window now window o) ≡ false
settled_waiting window now none h = ground arith
settled_waiting window now (some l) h = ground (arith, h l refl)

start_free :
    (s : RecompileScheduler) (now : ℕ)
    → s.compile_in_flight ≡ false
    → has_pending_changes s ≡ true
    → waiting s now ≡ false
    → start_next_at s now
      ≡ (some s.pending_changes, record s { compile_in_flight = true; pending_changes = [] })
unfolding start_next_at
start_free s now free some_pending settled = rw free (rw some_pending (rw settled refl))

-- When no compile runs, changes are pending and they have settled, `start_next_at` gives all of them
-- out; if it gives a batch out, it is all that was pending, no compile ran, and a window that is not 0
-- has passed since the last `enqueue`.
pub start_when_settled :
    (s : RecompileScheduler) (now : ℕ)
    → (s.compile_in_flight ≡ false
        → has_pending_changes s ≡ true
        → HasSettled s now
        → (start_next_at s now).0 ≡ some s.pending_changes)
      × ((changes : List PathBuf)
          → (start_next_at s now).0 ≡ some changes
          → (changes ≡ s.pending_changes)
            × (s.compile_in_flight ≡ false)
            × (has_pending_changes s ≡ true)
            × ((s.settle_window ≡ 0) ⊎ HasSettled s now))
start_when_settled s now = (
  λ free some_pending settled.
      ap (λ r. r.0)
        (start_free s now free some_pending
          (settled_waiting s.settle_window now s.last_enqueue_at settled)),
  λ changes p. elim (start_cases s now) [
    | inl quiet ↦ absurd (nothing changes (sym (ap (λ r. r.0) quiet) ∙ p))
    | inr (free, some_pending, settled, e) ↦ (
      same changes s.pending_changes (sym p ∙ ap (λ r. r.0) e),
      free,
      some_pending,
      settled_iff s.settle_window now s.last_enqueue_at settled,
    )
  ],
)
  where
    nothing : (changes : List PathBuf) → none ≡ some changes → ⊥
    nothing changes p = cc

    same : (a b : List PathBuf) → some a ≡ some b → a ≡ b
    same a b p = cc
