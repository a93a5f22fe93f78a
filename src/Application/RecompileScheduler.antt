-- ===== src/Application/RecompileScheduler.antt =====
-- crates/ferritex-application/src/recompile_scheduler.rs: which changed files the next compile is
-- told of. An `Instant` and a `Duration` are numbers of one unit; `Instant::now()` is an argument.
pub mod Runs
mod Examples
use ferritex.Prelude.{
  ℕ, ◌-◌, Bool, true, false, ◌||◌, ◌&&◌, not, Option, none, some, List, [], ◌∷◌, Str, length, ltb,
  ◌==◌, if◌then◌else◌, list_eq, nat_eq,
}
use ferritex.Prelude.BTreeSet
use ferritex.Prelude.BTreeSet.{BTreeSet}
use ferritex.Prelude.Order.{list_ord, nat_ord}

-- A path compares as the list of its components.
abbrev pub PathBuf : Type 0
PathBuf = List Str

pub record RecompileScheduler : Type 0 where
  pub compile_in_flight : Bool
  pub pending_changes : BTreeSet PathBuf
  pub settle_window : ℕ
  pub last_enqueue_at : Option ℕ

abbrev pub with_settle_window : ℕ → RecompileScheduler
with_settle_window window = record {
  compile_in_flight = false;
  pending_changes = [];
  settle_window = window;
  last_enqueue_at = none;
}

unfoldable pub enqueue : RecompileScheduler → ℕ → List PathBuf → RecompileScheduler
enqueue s now changes = record s {
  pending_changes = BTreeSet.extend s.pending_changes changes;
  last_enqueue_at = some now;
}

abbrev pub has_pending_changes : RecompileScheduler → Bool
has_pending_changes s = ltb 0 (length s.pending_changes)

-- `now.duration_since(last) < window`; `duration_since` stops at 0.
abbrev pub within_window : ℕ → ℕ → Option ℕ → Bool
within_window now window none = false
within_window now window (some last) = ltb (now - last) window

unfoldable pub start_next_at : RecompileScheduler → ℕ → Option (List PathBuf) × RecompileScheduler
start_next_at s now =
    if s.compile_in_flight || not (has_pending_changes s)
    then (none, s)
    else if not (s.settle_window == 0) && within_window now s.settle_window s.last_enqueue_at
    then (none, s)
    else (some s.pending_changes, record s { compile_in_flight = true; pending_changes = [] })

unfoldable pub finish_current : RecompileScheduler → RecompileScheduler
finish_current s = record s { compile_in_flight = false }
