-- ===== src/Pipe/Listener/Answers.antt =====
-- The goroutine that waits for the response to its `Accept` is the one that the listener serves, and the
-- first handle is closed once.
use go_winio.Base.{ℕ, ◌≤◌, ◌≡◌, ◌≢◌, refl, ap, arith, Bool, Option, none, some}
use mathlib.Core.Logic.{◌↔◌}
use go_winio.Pipe.Listener.{
  ListenerPc, making, connecting, aborting, connected, handle_closed, stopped, awaiting,
  ListenerState, behind_response, Step, Reach, start, later,
}
use go_winio.Pipe.Listener.{
  call_accept, call_close, take_accept, take_close, make_fails, make, connect_ends, take_result,
  abort, abort_ends, take_abort, retry, respond, close_handle, close_done, accept_done,
  close_returns, return,
}

-- The goroutine that the listener serves.
abbrev pub serves : ListenerPc → Option ℕ
serves (making i) = some i
serves (connecting i c) = some i
serves (aborting i c) = some i
serves (connected i e) = some i
serves _ = none

abbrev pub closed_handle : ListenerPc → ℕ
closed_handle handle_closed = 1
closed_handle stopped = 1
closed_handle _ = 0

pub record Inv (s : ListenerState) : Type 0 where
  pub served : (i : ℕ) → s.pc i ≡ awaiting → serves s.listener ≡ some i
  pub waits : (i : ℕ) → serves s.listener ≡ some i → s.pc i ≡ awaiting
  pub once : s.closes ≡ closed_handle s.listener

pub Step-Inv : {expected : Bool} {s t : ListenerState} → Step expected s t → Inv s → Inv t
unfolding behind_response
Step-Inv (call_accept i e) inv = record {
  served = λ j h. ground (arith, inv.served j);
  waits = λ j h. ground (arith, inv.waits j);
  once = ground (arith, inv.once);
}
Step-Inv (call_close i e) inv = record {
  served = λ j h. ground (arith, inv.served j);
  waits = λ j h. ground (arith, inv.waits j);
  once = ground (arith, inv.once);
}
Step-Inv (take_accept i l e) inv = record {
  served = λ j h. ground (arith, inv.served j);
  waits = λ j h. ground (arith, inv.waits j);
  once = ground (arith, inv.once);
}
Step-Inv (take_close i l e) inv = record {
  served = λ j h. ground (arith, inv.served j);
  waits = λ j h. ground (arith, inv.waits j);
  once = ground (arith, inv.once);
}
Step-Inv (make_fails i x l n) inv = record {
  served = λ j h. ground (arith, inv.served j);
  waits = λ j h. ground (arith, inv.waits j);
  once = ground (arith, inv.once);
}
Step-Inv (make i l) inv = record {
  served = λ j h. ground (arith, inv.served j);
  waits = λ j h. ground (arith, inv.waits j);
  once = ground (arith, inv.once);
}
Step-Inv (connect_ends i x l n) inv = record {
  served = λ j h. ground (arith, inv.served j);
  waits = λ j h. ground (arith, inv.waits j);
  once = ground (arith, inv.once);
}
Step-Inv (take_result i x l) inv = record {
  served = λ j h. ground (arith, inv.served j);
  waits = λ j h. ground (arith, inv.waits j);
  once = ground (arith, inv.once);
}
Step-Inv (abort i k c l e ok) inv = record {
  served = λ j h. ground (arith, inv.served j);
  waits = λ j h. ground (arith, inv.waits j);
  once = ground (arith, inv.once);
}
Step-Inv (abort_ends i x l n ok) inv = record {
  served = λ j h. ground (arith, inv.served j);
  waits = λ j h. ground (arith, inv.waits j);
  once = ground (arith, inv.once);
}
Step-Inv (take_abort i x l) inv = record {
  served = λ j h. ground (arith, inv.served j);
  waits = λ j h. ground (arith, inv.waits j);
  once = ground (arith, inv.once);
}
Step-Inv (retry i x l n) inv = record {
  served = λ j h. ground (arith, inv.served j);
  waits = λ j h. ground (arith, inv.waits j);
  once = ground (arith, inv.once);
}
Step-Inv (respond i x l n) inv = record {
  served = λ j h. ground (arith, inv.served j);
  waits = λ j h. ground (arith, inv.waits j);
  once = ground (arith, inv.once);
}
Step-Inv (close_handle l) inv = record {
  served = λ j h. ground (arith, inv.served j);
  waits = λ j h. ground (arith, inv.waits j);
  once = ground (arith, inv.once);
}
Step-Inv (close_done l) inv = record {
  served = λ j h. ground (arith, inv.served j);
  waits = λ j h. ground (arith, inv.waits j);
  once = ground (arith, inv.once);
}
Step-Inv (accept_done i l e) inv = record {
  served = λ j h. ground (arith, inv.served j);
  waits = λ j h. ground (arith, inv.waits j);
  once = ground (arith, inv.once);
}
Step-Inv (close_returns i l e) inv = record {
  served = λ j h. ground (arith, inv.served j);
  waits = λ j h. ground (arith, inv.waits j);
  once = ground (arith, inv.once);
}
Step-Inv (return i x e) inv = record {
  served = λ j h. ground (arith, inv.served j);
  waits = λ j h. ground (arith, inv.waits j);
  once = ground (arith, inv.once);
}

pub Reach-Inv : {expected : Bool} {s : ListenerState} → Reach expected s → Inv s
Reach-Inv start = record { served = λ i h. cc; waits = λ i h. cc; once = refl }
Reach-Inv (later r st) = Step-Inv st (Reach-Inv r)

-- In every reachable state the goroutine that waits for the response to its `Accept` is the one that the
-- listener serves; so there is at most one, and none once the listener has stopped; and the first handle
-- is closed once, before that.
pub accepts_are_answered :
    {expected : Bool} {s : ListenerState}
    → Reach expected s
    → ((i : ℕ) → (s.pc i ≡ awaiting) ↔ (serves s.listener ≡ some i))
      × ((i j : ℕ) → s.pc i ≡ awaiting → s.pc j ≡ awaiting → i ≡ j)
      × (s.closes ≤ 1)
      × (s.listener ≡ stopped → (s.closes ≡ 1) × ((i : ℕ) → s.pc i ≢ awaiting))
accepts_are_answered {s = s} r =
    let inv = Reach-Inv r in
    (
      (λ i. (inv.served i, inv.waits i)),
      (λ i j h k. cc (inv.served i h, inv.served j k)),
      ground (arith, inv.once),
      λ e. (ground (arith, inv.once), λ i h. cc (inv.served i h, ap serves e)),
    )
