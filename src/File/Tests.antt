-- ===== src/File/Tests.antt =====
-- Concrete runs of the protocol of a file, and its theorems at concrete inputs.
use go_winio.Base.{ℕ, ◌+◌, ◌<◌, ◌≤◌, ◌≡◌, ◌≢◌, refl, arith, true, false, none, some, [], ◌∷◌, ok}
use go_winio.Threads.{update}
use go_winio.File.{eof, read_result}
use go_winio.File.System.{
  cancel_at, Pc, selecting, running, System, move, cancel_all, Reach, start, later, idle, ready,
  issued, swapped, waiting, prepare, pend, swap,
}
use go_winio.File.Invariant.{in_flight, past_cancel, handle_closed_once}
use go_winio.File.Progress.{Leads, close_ends}
use go_winio.File.Deadline.{
  DeadlineHandler, new_handler, never, past, future, set, run, call, elapse, IsConsistent, fresh,
  set-fresh, run-IsConsistent,
}

-- Goroutine 0 has issued a read when goroutine 1 closes the file and cancels it.
abbrev reading : ℕ → Pc
reading = update (update (λ _. idle) 0 ready) 0 (issued running)

abbrev sweeping : System
sweeping = record { closing = true; wg = 1; closes = 0; pc = update reading 1 swapped }

abbrev swept : System
swept = record sweeping { pc = update (λ j. cancel_at (sweeping.pc j)) 1 waiting }

sweeping_reached : Reach 2 false true true sweeping
sweeping_reached =
    later (later (later start (move 0 (omega arith) (prepare refl))) (move 0 (omega arith) pend))
      (move 1 (omega arith) (swap refl))

swept_reached : Reach 2 false true true swept
swept_reached = later sweeping_reached (cancel_all 1 (omega arith) refl)

handle_closed_once_example :
    (swept.closes ≤ 1)
    × ((i : ℕ) → i < 2 → 0 < swept.closes → in_flight (swept.pc i) ≡ 0)
    × ((i : ℕ) → i < 2 → in_flight (swept.pc i) ≤ swept.wg)
    × ((i j : ℕ)
        → i < 2
        → j < 2
        → 0 < past_cancel (swept.pc i) + swept.closes
        → swept.pc j ≢ selecting running)
handle_closed_once_example = handle_closed_once swept_reached

close_ends_example : (t : System) × Leads 2 false false false swept t × (t.closes ≡ 1)
close_ends_example = close_ends swept_reached refl

set-fresh_example : set past (fresh future) ≡ ok (fresh past)
set-fresh_example = set-fresh past (fresh future) (refl, refl)

-- The timer is about to close the channel when a new deadline is set.
run-IsConsistent_example :
    (d : DeadlineHandler) × (run
        (call future ∷ elapse ∷ elapse ∷ call past ∷ call never ∷ [])
        new_handler
      ≡ ok d)
    × IsConsistent d
run-IsConsistent_example =
    run-IsConsistent (call future ∷ elapse ∷ elapse ∷ call past ∷ call never ∷ []) new_handler refl

end_of_file :
    read_result 8 (record { bytes = 0; err = none }) ≡ record { bytes = 0; err = some eof }
unfolding read_result
end_of_file = refl
