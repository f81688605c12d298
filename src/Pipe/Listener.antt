-- ===== src/Pipe/Listener.antt =====
-- pipe.go: the goroutine of a listener and any number of goroutines that call `Accept` and `Close`. A
-- send and the receive that takes it, on a channel without a buffer, are one step. What the kernel and
-- the clients of the pipe do is left open: each connect ends at any time with any result.
use go_winio.Base.{ℕ, ◌+◌, ◌≡◌, Bool, true, false, Option, none, some, ◌⊎◌}
use go_winio.Threads.{update}
pub mod Answers
pub mod Closing
pub mod Hang

-- ErrPipeListenerClosed, ErrFileClosed, ERROR_NO_DATA, and any other error by a number.
pub data ListenError : Type 0 where
  listener_closed closed_file no_data : ListenError
  other : ℕ → ListenError

-- Where `listenerRoutine` stands; the number is the goroutine whose `Accept` it serves, and the
-- result that of the goroutine that connects, once it offers it.
pub data ListenerPc : Type 0 where
  choosing : ListenerPc
  making : ℕ → ListenerPc
  connecting : ℕ → Option (Option ListenError) → ListenerPc
  aborting : ℕ → Option (Option ListenError) → ListenerPc  -- behind `p.Close()`
  connected : ℕ → Option ListenError → ListenerPc  -- behind `makeConnectedServerPipe`
  stopping : ListenerPc
  handle_closed : ListenerPc
  stopped : ListenerPc  -- `doneCh` is closed

pub data ClientPc : Type 0 where
  idle : ClientPc
  accepting : ClientPc  -- in the `select` of `Accept`
  awaiting : ClientPc  -- before its response
  accepted : Option ListenError → ClientPc
  closing : ClientPc  -- in the `select` of `Close`
  wait_done : ClientPc
  closed : ClientPc

-- `closes` counts the calls of `windows.Close` on `firstHandle`.
pub record ListenerState : Type 0 where
  pub listener : ListenerPc
  pub closes : ℕ
  pub pc : ℕ → ClientPc

abbrev pub new_listener : ListenerState
new_listener = record { listener = choosing; closes = 0; pc = λ _. idle }

-- The error behind an aborted connect.
unfoldable pub abort_error : Option ListenError → Option ListenError
abort_error none = some listener_closed
abort_error (some closed_file) = some listener_closed
abort_error e = e

abbrev pub is_no_data : Option ListenError → Bool
is_no_data (some no_data) = true
is_no_data _ = false

-- ErrPipeListenerClosed, which only `makeConnectedServerPipe` itself returns, not what it calls.
abbrev pub is_closed_error : Option ListenError → Bool
is_closed_error (some listener_closed) = true
is_closed_error _ = false

-- The loop goes on unless the listener is closed.
unfoldable pub behind_response : Option ListenError → ListenerPc
behind_response (some listener_closed) = stopping
behind_response _ = choosing

-- The results that closing the handle of a connect is meant to give.
abbrev pub is_expected : Option ListenError → Bool
is_expected none = true
is_expected (some closed_file) = true
is_expected _ = false

abbrev pub is_expected_offer : Option (Option ListenError) → Bool
is_expected_offer none = true
is_expected_offer (some e) = is_expected e

-- The steps. If `expected` is true, a connect that is aborted ends with no other results than those.
pub data Step (expected : Bool) (s : ListenerState) : ListenerState → Type 0 where
  call_accept :
      (i : ℕ) → s.pc i ≡ idle → Step expected s (record s { pc = update s.pc i accepting })
  call_close : (i : ℕ) → s.pc i ≡ idle → Step expected s (record s { pc = update s.pc i closing })
  take_accept :
      (i : ℕ)
      → s.listener ≡ choosing
      → s.pc i ≡ accepting
      → Step expected s (record s { listener = making i; pc = update s.pc i awaiting })
  take_close :
      (i : ℕ)
      → s.listener ≡ choosing
      → s.pc i ≡ closing
      → Step expected s (record s { listener = stopping; pc = update s.pc i wait_done })
  make_fails :
      (i : ℕ) (e : ListenError)
      → s.listener ≡ making i
      → is_closed_error (some e) ≡ false
      → Step expected s (record s { listener = connected i (some e) })
  make :
      (i : ℕ) → s.listener ≡ making i → Step expected s (record s { listener = connecting i none })
  connect_ends :
      (i : ℕ) (e : Option ListenError)
      → s.listener ≡ connecting i none
      → is_closed_error e ≡ false
      → Step expected s (record s { listener = connecting i (some e) })
  take_result :
      (i : ℕ) (e : Option ListenError)
      → s.listener ≡ connecting i (some e)
      → Step expected s (record s { listener = connected i e })
  abort :
      (i j : ℕ) (c : Option (Option ListenError))
      → s.listener ≡ connecting i c
      → s.pc j ≡ closing
      → (expected ≡ false) ⊎ (is_expected_offer c ≡ true)
      → Step expected s (record s { listener = aborting i c; pc = update s.pc j wait_done })
  abort_ends :
      (i : ℕ) (e : Option ListenError)
      → s.listener ≡ aborting i none
      → is_closed_error e ≡ false
      → (expected ≡ false) ⊎ (is_expected e ≡ true)
      → Step expected s (record s { listener = aborting i (some e) })
  take_abort :
      (i : ℕ) (e : Option ListenError)
      → s.listener ≡ aborting i (some e)
      → Step expected s (record s { listener = connected i (abort_error e) })
  retry :
      (i : ℕ) (e : Option ListenError)
      → s.listener ≡ connected i e
      → is_no_data e ≡ true
      → Step expected s (record s { listener = making i })
  respond :
      (i : ℕ) (e : Option ListenError)
      → s.listener ≡ connected i e
      → is_no_data e ≡ false
      → Step expected s (record s { listener = behind_response e; pc = update s.pc i (accepted e) })
  close_handle :
      s.listener ≡ stopping
      → Step expected s (record s { listener = handle_closed; closes = s.closes + 1 })
  close_done : s.listener ≡ handle_closed → Step expected s (record s { listener = stopped })
  accept_done :
      (i : ℕ)
      → s.listener ≡ stopped
      → s.pc i ≡ accepting
      → Step expected s (record s { pc = update s.pc i (accepted (some listener_closed)) })
  close_returns :
      (i : ℕ)
      → s.listener ≡ stopped
      → (s.pc i ≡ closing) ⊎ (s.pc i ≡ wait_done)
      → Step expected s (record s { pc = update s.pc i closed })
  return :
      (i : ℕ) (e : Option ListenError)
      → s.pc i ≡ accepted e
      → Step expected s (record s { pc = update s.pc i idle })

-- Whether a step is a call of `Close`.
abbrev pub is_close_call : {expected : Bool} {s t : ListenerState} → Step expected s t → Bool
is_close_call (call_close i e) = true
is_close_call _ = false

-- Steps from `s` on, during which no goroutine calls `Close`.
pub data Leads (expected : Bool) : ListenerState → ListenerState → Type 0 where
  here : {s : ListenerState} → Leads expected s s
  first :
      {s t u : ListenerState} (st : Step expected s t)
      → is_close_call st ≡ false
      → Leads expected t u
      → Leads expected s u

pub data Reach (expected : Bool) : ListenerState → Type 0 where
  start : Reach expected new_listener
  later : {s t : ListenerState} → Reach expected s → Step expected s t → Reach expected t
