-- ===== src/Pipe/Listener/Closing.antt =====
-- A `Close` of the listener can always come to its end without another one, if an aborted connect gives the results that
-- closing its handle is meant to give.
use go_winio.Base.{
  ℕ, ◌+◌, ◌≡◌, refl, ap, sym, ◌∙◌, arith, Bool, true, false, Option, none, some, ◌⊎◌, inl, inr,
  ◌==◌, ==_iff, Bool-cases,
}
use go_winio.Threads.{update}
use go_winio.Pipe.Listener.{
  ListenError, listener_closed, ListenerPc, choosing, making, connecting, aborting, connected,
  stopping, handle_closed, stopped, ClientPc, awaiting, accepted, closing, wait_done, closed,
  ListenerState, abort_error, is_no_data, behind_response, is_expected, is_expected_offer,
  is_close_call, Step, Leads, here, first, Reach, start, later,
}
use go_winio.Pipe.Listener.{
  call_accept, call_close, take_accept, take_close, make_fails, make, connect_ends, take_result,
  abort, abort_ends, take_abort, retry, respond, close_handle, close_done, accept_done,
  close_returns, return,
}
use go_winio.Pipe.Listener.Answers.{serves, Inv, Reach-Inv}

-- The listener is on its way to stop.
abbrev is_shutting : ListenerPc → Bool
is_shutting (aborting i c) = true
is_shutting (connected i (some listener_closed)) = true
is_shutting stopping = true
is_shutting handle_closed = true
is_shutting stopped = true
is_shutting _ = false

abbrev is_clean : ListenerPc → Bool
is_clean (aborting i c) = is_expected_offer c
is_clean _ = true

record Shutting (s : ListenerState) : Type 0 where
  awaited : (i : ℕ) → s.pc i ≡ wait_done → is_shutting s.listener ≡ true
  clean : is_clean s.listener ≡ true

Step-Shutting : {s t : ListenerState} → Step true s t → Shutting s → Shutting t
unfolding behind_response abort_error
Step-Shutting (call_accept i e) inv = record {
  awaited = λ j h. ground (arith, inv.awaited j);
  clean = ground (arith, inv.clean);
}
Step-Shutting (call_close i e) inv = record {
  awaited = λ j h. ground (arith, inv.awaited j);
  clean = ground (arith, inv.clean);
}
Step-Shutting (take_accept i l e) inv = record {
  awaited = λ j h. ground (arith, inv.awaited j);
  clean = ground (arith, inv.clean);
}
Step-Shutting (take_close i l e) inv = record {
  awaited = λ j h. ground (arith, inv.awaited j);
  clean = ground (arith, inv.clean);
}
Step-Shutting (make_fails i x l n) inv = record {
  awaited = λ j h. ground (arith, inv.awaited j);
  clean = ground (arith, inv.clean);
}
Step-Shutting (make i l) inv = record {
  awaited = λ j h. ground (arith, inv.awaited j);
  clean = ground (arith, inv.clean);
}
Step-Shutting (connect_ends i x l n) inv = record {
  awaited = λ j h. ground (arith, inv.awaited j);
  clean = ground (arith, inv.clean);
}
Step-Shutting (take_result i x l) inv = record {
  awaited = λ j h. ground (arith, inv.awaited j);
  clean = ground (arith, inv.clean);
}
Step-Shutting (abort i k c l e ok) inv = record {
  awaited = λ j h. ground (arith, inv.awaited j);
  clean = ground (arith, inv.clean);
}
Step-Shutting (abort_ends i x l n ok) inv = record {
  awaited = λ j h. ground (arith, inv.awaited j);
  clean = ground (arith, inv.clean);
}
Step-Shutting (take_abort i x l) inv = record {
  awaited = λ j h. ground (arith, inv.awaited j);
  clean = ground (arith, inv.clean);
}
Step-Shutting (retry i x l n) inv = record {
  awaited = λ j h. ground (arith, inv.awaited j);
  clean = ground (arith, inv.clean);
}
Step-Shutting (respond i x l n) inv = record {
  awaited = λ j h. ground (arith, inv.awaited j);
  clean = ground (arith, inv.clean);
}
Step-Shutting (close_handle l) inv = record {
  awaited = λ j h. ground (arith, inv.awaited j);
  clean = ground (arith, inv.clean);
}
Step-Shutting (close_done l) inv = record {
  awaited = λ j h. ground (arith, inv.awaited j);
  clean = ground (arith, inv.clean);
}
Step-Shutting (accept_done i l e) inv = record {
  awaited = λ j h. ground (arith, inv.awaited j);
  clean = ground (arith, inv.clean);
}
Step-Shutting (close_returns i l e) inv = record {
  awaited = λ j h. ground (arith, inv.awaited j);
  clean = ground (arith, inv.clean);
}
Step-Shutting (return i x e) inv = record {
  awaited = λ j h. ground (arith, inv.awaited j);
  clean = ground (arith, inv.clean);
}

Reach-Shutting : {s : ListenerState} → Reach true s → Shutting s
Reach-Shutting start = record { awaited = λ i h. cc; clean = refl }
Reach-Shutting (later r st) = Step-Shutting st (Reach-Shutting r)

-- A goroutine in `Close`.
abbrev pub InClose : ClientPc → Type 0
InClose p = (p ≡ closing) ⊎ (p ≡ wait_done)

module _ (i : ℕ) where
  abbrev pub Returns : ListenerState → Type 0
  Returns s = (t : ListenerState) × Leads true s t × (t.pc i ≡ closed)

  by : {s t : ListenerState} (st : Step true s t) → is_close_call st ≡ false → Returns t → Returns s
  by st c (u, way, e) = (u, first st c way, e)

  from_stopped : (s : ListenerState) → s.listener ≡ stopped → InClose (s.pc i) → Returns s
  from_stopped s l c =
      (record s { pc = update s.pc i closed }, first (close_returns i l c) refl here, ground arith)

  from_handle_closed :
      (s : ListenerState) → s.listener ≡ handle_closed → InClose (s.pc i) → Returns s
  from_handle_closed s l c =
      by (close_done l) refl (from_stopped (record s { listener = stopped }) refl c)

  from_stopping : (s : ListenerState) → s.listener ≡ stopping → InClose (s.pc i) → Returns s
  from_stopping s l c =
      by (close_handle l) refl
        (from_handle_closed (record s { listener = handle_closed; closes = s.closes + 1 }) refl c)

  from_choosing : (s : ListenerState) → s.listener ≡ choosing → s.pc i ≡ closing → Returns s
  from_choosing s l c = by (take_close i l c) refl (
      from_stopping (record s { listener = stopping; pc = update s.pc i wait_done }) refl
        (inr (ground arith)))

  -- The response goes to another goroutine.
  responded :
      (s : ListenerState) (j : ℕ) (e : Option ListenError)
      → s.pc j ≡ awaiting
      → InClose (s.pc i)
      → update s.pc j (accepted e) i ≡ s.pc i
  responded s j e w c = elim (Bool-cases (j == i)) [
    | inl same ↦ absurd (ground (arith, ==_iff j i))
    | inr d ↦ rw d
  ]

  from_closed_result :
      (s : ListenerState) (j : ℕ)
      → s.listener ≡ connected j (some listener_closed)
      → s.pc j ≡ awaiting
      → InClose (s.pc i)
      → Returns s
  unfolding behind_response
  from_closed_result s j l w c = by (respond j (some listener_closed) l refl) refl (
      from_stopping
        (record s { listener = stopping; pc = update s.pc j (accepted (some listener_closed)) })
        refl (rw (responded s j (some listener_closed) w c) c))

  from_aborted :
      (s : ListenerState) (j : ℕ) (e : Option ListenError)
      → s.listener ≡ aborting j (some e)
      → is_expected e ≡ true
      → s.pc j ≡ awaiting
      → InClose (s.pc i)
      → Returns s
  unfolding abort_error
  from_aborted s j e l x w c = by (take_abort j e l) refl (
      from_closed_result (record s { listener = connected j (abort_error e) }) j (ground arith) w c)

  from_aborting :
      (s : ListenerState) (j : ℕ) (o : Option (Option ListenError))
      → s.listener ≡ aborting j o
      → is_expected_offer o ≡ true
      → s.pc j ≡ awaiting
      → InClose (s.pc i)
      → Returns s
  from_aborting s j none l x w c =
      by (abort_ends j none l refl (inr refl)) refl
        (from_aborted (record s { listener = aborting j (some none) }) j none refl refl w c)
  from_aborting s j (some e) l x w c = from_aborted s j e l x w c

  -- Taking the `Close` does not move the goroutine that waits for its response.
  still_awaiting :
      (s : ListenerState) (j : ℕ)
      → s.pc j ≡ awaiting
      → s.pc i ≡ closing
      → update s.pc i wait_done j ≡ awaiting
  still_awaiting s j w c = elim (Bool-cases (i == j)) [
    | inl same ↦ absurd (ground (arith, ==_iff i j))
    | inr d ↦ rw d w
  ]

  from_waiting :
      (s : ListenerState) (j : ℕ)
      → s.listener ≡ connecting j none
      → s.pc j ≡ awaiting
      → s.pc i ≡ closing
      → Returns s
  from_waiting s j l w c = by (abort j i none l c (inr refl)) refl (
      from_aborting (record s { listener = aborting j none; pc = update s.pc i wait_done }) j none
        refl refl (still_awaiting s j w c) (inr (ground arith)))

  from_making :
      (s : ListenerState) (j : ℕ)
      → s.listener ≡ making j
      → s.pc j ≡ awaiting
      → s.pc i ≡ closing
      → Returns s
  from_making s j l w c =
      by (make j l) refl (from_waiting (record s { listener = connecting j none }) j refl w c)

  -- Behind the response the listener stops or takes the `Close`.
  from_response :
      (s : ListenerState) (j : ℕ) (e : Option ListenError)
      → s.listener ≡ behind_response e
      → s.pc i ≡ closing
      → Returns s
  unfolding behind_response
  from_response s j none l c = from_choosing s l c
  from_response s j (some listener_closed) l c = from_stopping s l (inl c)
  from_response s j (some e) l c = from_choosing s l c

  from_connected :
      (s : ListenerState) (j : ℕ) (e : Option ListenError)
      → s.listener ≡ connected j e
      → s.pc j ≡ awaiting
      → s.pc i ≡ closing
      → Returns s
  from_connected s j e l w c = elim (Bool-cases (is_no_data e)) [
    | inl n ↦ by (retry j e l n) refl (from_making (record s { listener = making j }) j refl w c)
    | inr n ↦ by (respond j e l n) refl (
        from_response (record s { listener = behind_response e; pc = update s.pc j (accepted e) }) j
          e refl (responded s j e w (inl c) ∙ c))
  ]

  from_connecting :
      (s : ListenerState) (j : ℕ) (o : Option (Option ListenError))
      → s.listener ≡ connecting j o
      → s.pc j ≡ awaiting
      → s.pc i ≡ closing
      → Returns s
  from_connecting s j none l w c = from_waiting s j l w c
  from_connecting s j (some e) l w c =
      by (take_result j e l) refl
        (from_connected (record s { listener = connected j e }) j e refl w c)

  from_closing :
      (s : ListenerState)
      → Inv s
      → Shutting s
      → s.pc i ≡ closing
      → (l : ListenerPc) → s.listener ≡ l
      → Returns s
  from_closing s inv sh c choosing l = from_choosing s l c
  from_closing s inv sh c (making j) l = from_making s j l (inv.waits j (ap serves l)) c
  from_closing s inv sh c (connecting j o) l = from_connecting s j o l (inv.waits j (ap serves l)) c
  from_closing s inv sh c (connected j e) l = from_connected s j e l (inv.waits j (ap serves l)) c
  from_closing s inv sh c (aborting j o) l =
      from_aborting s j o l (sym (ap is_clean l) ∙ sh.clean) (inv.waits j (ap serves l)) (inl c)
  from_closing s inv sh c stopping l = from_stopping s l (inl c)
  from_closing s inv sh c handle_closed l = from_handle_closed s l (inl c)
  from_closing s inv sh c stopped l = from_stopped s l (inl c)

  from_wait_done :
      (s : ListenerState)
      → Inv s
      → Shutting s
      → s.pc i ≡ wait_done
      → (l : ListenerPc) → s.listener ≡ l
      → is_shutting l ≡ true
      → Returns s
  from_wait_done s inv sh c (aborting j o) l x =
      from_aborting s j o l (sym (ap is_clean l) ∙ sh.clean) (inv.waits j (ap serves l)) (inr c)
  from_wait_done s inv sh c (connected j (some listener_closed)) l x =
      from_closed_result s j l (inv.waits j (ap serves l)) (inr c)
  from_wait_done s inv sh c stopping l x = from_stopping s l (inr c)
  from_wait_done s inv sh c handle_closed l x = from_handle_closed s l (inr c)
  from_wait_done s inv sh c stopped l x = from_stopped s l (inr c)
  from_wait_done s inv sh c _ l x = absurd (cc)

-- If an aborted connect ends without an error or with ErrFileClosed, then from every reachable state in
-- which a goroutine is in `Close`, some sequence of steps in which no goroutine calls `Close` again makes
-- its `Close` return.
pub close_can_return :
    (i : ℕ) {s : ListenerState}
    → Reach true s
    → InClose (s.pc i)
    → (t : ListenerState) × Leads true s t × (t.pc i ≡ closed)
close_can_return i {s} r c =
    let inv = Reach-Inv r in
    let sh = Reach-Shutting r in
    elim c [
      | inl e ↦ from_closing i s inv sh e s.listener refl
      | inr e ↦ from_wait_done i s inv sh e s.listener refl (sh.awaited i e)
    ]
