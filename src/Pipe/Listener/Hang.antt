-- ===== src/Pipe/Listener/Hang.antt =====
-- A `Close` that does not return unless `Close` is called again: the connect that it aborts has failed in
-- another way.
use go_winio.Base.{ℕ, ◌≡◌, ◌≢◌, refl, arith, Bool, true, false, none, some, inl}
use go_winio.Pipe.Listener.Answers.{Inv, Step-Inv, Reach-Inv}
use go_winio.Threads.{update}
use go_winio.Pipe.Listener.{
  other, ListenerPc, choosing, aborting, ClientPc, idle, accepting, awaiting, accepted, closing,
  wait_done, ListenerState, abort_error, behind_response, is_closed_error, is_close_call, Step,
  Leads, here, first, Reach, start, later, making, connecting, connected,
}
use go_winio.Pipe.Listener.{
  call_accept, call_close, take_accept, take_close, make_fails, make, connect_ends, take_result,
  abort, abort_ends, take_abort, retry, respond, close_handle, close_done, accept_done,
  close_returns, return,
}

-- Goroutine 0 in `Accept` and goroutine 1 in `Close`, which has taken its place in `wait_done`.
abbrev both_called : ℕ → ClientPc
both_called = update (update (λ _. idle) 0 accepting) 1 closing

abbrev aborted_pcs : ℕ → ClientPc
aborted_pcs = update (update both_called 0 awaiting) 1 wait_done

abbrev at : ListenerPc → (ℕ → ClientPc) → ListenerState
at l pc = record { listener = l; closes = 0; pc = pc }

-- The connect of goroutine 0 has offered the error when the listener takes the `Close`.
aborted : (k : ℕ) → Reach false (at (aborting 0 (some (some (other k)))) aborted_pcs)
aborted k =
    later
      (later
        (later
          (later (later (later start (call_accept 0 refl)) (call_close 1 refl))
            (take_accept 0 refl refl))
          (make 0 refl))
        (connect_ends 0 (some (other k)) refl refl))
      (abort 0 1 (some (some (other k))) refl refl (inl refl))

-- The state in which the error has been passed on.
abbrev pub hung : ℕ → ListenerState
hung k = at choosing (update aborted_pcs 0 (accepted (some (other k))))

hung_reached : (k : ℕ) → Reach false (hung k)
unfolding abort_error behind_response
hung_reached k =
    later (later (aborted k) (take_abort 0 (some (other k)) refl))
      (respond 0 (some (other k)) refl refl)

-- The listener is not on its way to stop.
abbrev can_stop : ListenerPc → Bool
can_stop choosing = false
can_stop (making i) = false
can_stop (connecting i none) = false
can_stop (connecting i (some e)) = is_closed_error e
can_stop (connected i e) = is_closed_error e
can_stop _ = true

-- Goroutine 1 waits, no other one is in the `select` of `Close`, and the listener goes on.
record Stuck (s : ListenerState) : Type 0 where
  waits : s.pc 1 ≡ wait_done
  alone : (i : ℕ) → s.pc i ≢ closing
  goes_on : can_stop s.listener ≡ false

Step-Stuck :
    {s t : ListenerState} (st : Step false s t)
    → is_close_call st ≡ false
    → Inv s
    → Stuck s
    → Stuck t
unfolding behind_response
Step-Stuck (call_close i e) q v h = cc
Step-Stuck (call_accept i e) q v h = record {
  waits = ground (arith, h.waits, v.waits 1);
  alone = λ j e'. ground (arith, h.alone j, e');
  goes_on = ground (arith, h.goes_on);
}
Step-Stuck (take_accept i l e) q v h = record {
  waits = ground (arith, h.waits, v.waits 1);
  alone = λ j e'. ground (arith, h.alone j, e');
  goes_on = ground (arith, h.goes_on);
}
Step-Stuck (take_close i l e) q v h = absurd (h.alone i e)
Step-Stuck (make_fails i x l n) q v h = record {
  waits = ground (arith, h.waits, v.waits 1);
  alone = λ j e'. ground (arith, h.alone j, e');
  goes_on = ground (arith, h.goes_on);
}
Step-Stuck (make i l) q v h = record {
  waits = ground (arith, h.waits, v.waits 1);
  alone = λ j e'. ground (arith, h.alone j, e');
  goes_on = ground (arith, h.goes_on);
}
Step-Stuck (connect_ends i x l n) q v h = record {
  waits = ground (arith, h.waits, v.waits 1);
  alone = λ j e'. ground (arith, h.alone j, e');
  goes_on = ground (arith, h.goes_on);
}
Step-Stuck (take_result i x l) q v h = record {
  waits = ground (arith, h.waits, v.waits 1);
  alone = λ j e'. ground (arith, h.alone j, e');
  goes_on = ground (arith, h.goes_on);
}
Step-Stuck (abort i k c l e ok) q v h = absurd (h.alone k e)
Step-Stuck (abort_ends i x l n ok) q v h = record {
  waits = ground (arith, h.waits, v.waits 1);
  alone = λ j e'. ground (arith, h.alone j, e');
  goes_on = ground (arith, h.goes_on);
}
Step-Stuck (take_abort i x l) q v h = record {
  waits = ground (arith, h.waits, v.waits 1);
  alone = λ j e'. ground (arith, h.alone j, e');
  goes_on = ground (arith, h.goes_on);
}
Step-Stuck (retry i x l n) q v h = record {
  waits = ground (arith, h.waits, v.waits 1);
  alone = λ j e'. ground (arith, h.alone j, e');
  goes_on = ground (arith, h.goes_on);
}
Step-Stuck (respond i x l n) q v h = record {
  waits = ground (arith, h.waits, v.waits 1);
  alone = λ j e'. ground (arith, h.alone j, e');
  goes_on = ground (arith, h.goes_on);
}
Step-Stuck (close_handle l) q v h = record {
  waits = ground (arith, h.waits, v.waits 1);
  alone = λ j e'. ground (arith, h.alone j, e');
  goes_on = ground (arith, h.goes_on);
}
Step-Stuck (close_done l) q v h = record {
  waits = ground (arith, h.waits, v.waits 1);
  alone = λ j e'. ground (arith, h.alone j, e');
  goes_on = ground (arith, h.goes_on);
}
Step-Stuck (accept_done i l e) q v h = record {
  waits = ground (arith, h.waits, v.waits 1);
  alone = λ j e'. ground (arith, h.alone j, e');
  goes_on = ground (arith, h.goes_on);
}
Step-Stuck (close_returns i l e) q v h = record {
  waits = ground (arith, h.waits, v.waits 1);
  alone = λ j e'. ground (arith, h.alone j, e');
  goes_on = ground (arith, h.goes_on);
}
Step-Stuck (return i x e) q v h = record {
  waits = ground (arith, h.waits, v.waits 1);
  alone = λ j e'. ground (arith, h.alone j, e');
  goes_on = ground (arith, h.goes_on);
}

stays : {s t : ListenerState} → Leads false s t → Inv s → Stuck s → Stuck t
stays here v h = h
stays (first st q way) v h = stays way (Step-Inv st v) (Step-Stuck st q v h)

hung-Stuck : (k : ℕ) → Stuck (hung k)
hung-Stuck k = record { waits = refl; alone = λ i e. ground (arith, e); goes_on = refl }

-- For every error of its own with which a connect fails just when the listener is closed, a state is
-- reached in which the error has been passed on to `Accept`, `Close` has been taken and the listener
-- waits for calls again; and whatever happens then, the taken `Close` does not return until some
-- goroutine calls `Close` again.
pub close_hangs :
    (k : ℕ)
    → (s : ListenerState) × Reach false s
      × (s.listener ≡ choosing)
      × (s.pc 0 ≡ accepted (some (other k)))
      × (s.pc 1 ≡ wait_done)
      × ((t : ListenerState) → Leads false s t → t.pc 1 ≡ wait_done)
close_hangs k = (
  hung k,
  hung_reached k,
  refl,
  refl,
  refl,
  λ t way. (stays way (Reach-Inv (hung_reached k)) (hung-Stuck k)).waits,
)
