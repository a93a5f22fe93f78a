-- ===== src/Application/RecompileScheduler/Examples.antt =====
-- Tests of the scheduler, and its theorems at concrete inputs.
use ferritex.Prelude.{
  ◌≡◌, ◌⊎◌, refl, true, false, ◌||◌, some, List, [], ◌∷◌, codes, list_eq, list_beq, nat_eq,
}
use ferritex.Prelude.BTreeSet.{insert, extend, contains}
use ferritex.Prelude.Order.{list_ord, nat_ord, list_lt}
use ferritex.Application.RecompileScheduler.{
  PathBuf, RecompileScheduler, with_settle_window, enqueue, start_next_at, has_pending_changes,
}
use ferritex.Application.RecompileScheduler.Runs.{
  Call, enqueued, start_next, finished, run, compiled, reported, OneAtATime, HasSettled,
  no_change_lost, one_at_a_time, start_when_settled,
}

abbrev main_path : PathBuf
main_path = codes "main.tex" ∷ []

abbrev chapter_path : PathBuf
chapter_path = codes "chap1.tex" ∷ []

abbrev calls : List Call
calls =
    enqueued 0 (main_path ∷ chapter_path ∷ main_path ∷ [])
    ∷ start_next 100
    ∷ start_next 200
    ∷ enqueued 210 (main_path ∷ [])
    ∷ start_next 500
    ∷ finished
    ∷ start_next 500
    ∷ []

first_batch :
    (start_next_at
      (run (enqueued 0 (main_path ∷ chapter_path ∷ main_path ∷ []) ∷ []) (with_settle_window 200))
      200).0
    ≡ some (chapter_path ∷ main_path ∷ [])
unfolding run enqueue start_next_at extend insert list_beq list_lt
first_batch = refl

no_change_lost_example :
    (compiled calls (with_settle_window 200) chapter_path
      || contains (run calls (with_settle_window 200)).pending_changes chapter_path)
    ≡ (contains [] chapter_path || reported calls chapter_path)
no_change_lost_example = no_change_lost calls (with_settle_window 200) chapter_path

one_at_a_time_example : OneAtATime false calls (with_settle_window 200)
one_at_a_time_example = one_at_a_time calls (with_settle_window 200)

abbrev settled : RecompileScheduler
settled = record {
  compile_in_flight = false;
  pending_changes = main_path ∷ [];
  settle_window = 200;
  last_enqueue_at = some 10;
}

start_when_settled_example :
    (settled.compile_in_flight ≡ false
      → has_pending_changes settled ≡ true
      → HasSettled settled 210
      → (start_next_at settled 210).0 ≡ some settled.pending_changes)
    × ((changes : List PathBuf)
        → (start_next_at settled 210).0 ≡ some changes
        → (changes ≡ settled.pending_changes)
          × (settled.compile_in_flight ≡ false)
          × (has_pending_changes settled ≡ true)
          × ((settled.settle_window ≡ 0) ⊎ HasSettled settled 210))
start_when_settled_example = start_when_settled settled 210
