-- ===== src/Hvsock/Dial/Sockets.antt =====
-- No call leaks a socket, and `Dial` connects no more often than it is told to.
use go_winio.Base.{
  ℕ, zero, suc, ◌+◌, ◌≤◌, ◌<◌, ◌≡◌, refl, arith, Bool, true, false, Option, none, some, Result, ok,
  err, panic, Bool-cases, inl, inr,
}
use go_winio.Hvsock.Dial.{
  SocketCalls, DialError, can_redial, then_do, outcome, closing_on_error, checked_context,
  made_file, new_hv_socket, waited, redial_wait, after_wait, after_connect, connect_loop,
  finish_dial, dial_on_socket, dial, listen_on_socket, listen_hvsock, accept_on_socket, accept,
  Dialing, Outcome, connect_failed, context, socket_failed, bind_failed, io_failed, accept_failed,
  listen_failed, option_failed, name_failed,
}

-- What the calls do to the number of open sockets and to the number of calls of ConnectEx.
pub record Counts {S : Type 0} (c : SocketCalls S) (sockets attempts : S → ℕ) : Type 0 where
  pub opens : (s s' : S) → c.socket s ≡ (none, s') → sockets s' ≡ sockets s + 1
  pub opens_none : (s s' : S) (e : ℕ) → c.socket s ≡ (some e, s') → sockets s' ≡ sockets s
  pub socket_attempts : (s : S) → attempts (c.socket s).1 ≡ attempts s
  pub closes : (s : S) → 0 < sockets s → sockets (c.close s) + 1 ≡ sockets s
  pub close_attempts : (s : S) → attempts (c.close s) ≡ attempts s
  pub connects :
      (s : S)
      → (sockets (c.connect_ex s).1 ≡ sockets s) × (attempts (c.connect_ex s).1 ≡ attempts s + 1)
  pub others :
      (s : S)
      → let Kept = λ (s' : S). (sockets s' ≡ sockets s) × (attempts s' ≡ attempts s) in
        Kept (c.make_file s).1
        × Kept (c.bind s).1
        × Kept (c.prepare_io s).1
        × Kept (c.accept_ex s).1
        × Kept (c.listen s).1
        × Kept (c.set_sock_opt s).1
        × Kept (c.get_sock_name s).1
        × Kept (c.wait s).1

module _ {S : Type 0} (c : SocketCalls S) (sockets attempts : S → ℕ)
    (laws : Counts c sockets attempts) where
  -- As many sockets are open as before, and at most `k` attempts were made.
  abbrev Within : ℕ → S → S → Type 0
  Within k s s' = (sockets s' ≡ sockets s) × (attempts s' ≤ attempts s + k)

  Within-outcome :
      (k : ℕ) (s : S) (failed : ℕ → DialError) (x : Option ℕ × S)
      → Within k s x.1
      → Within k s (outcome failed x).1
  unfolding outcome
  Within-outcome k s failed (none, s') w = w
  Within-outcome k s failed (some e, s') w = w

  Within-then_do :
      (j k : ℕ) (s : S) (x : Outcome S) (f : Dialing S)
      → Within j s x.1
      → ((s1 : S) → Within k s1 (f s1).1)
      → Within (j + k) s (then_do x f).1
  unfolding then_do
  Within-then_do j k s (ok u, s1) f w h = let (a, b) = h s1 in omega (arith, w, a, b)
  Within-then_do j k s (err e, s1) f w h = omega arith
  Within-then_do j k s (panic, s1) f w h = omega arith

  -- One call and what follows it.
  call_first :
      (k : ℕ) (s : S) (failed : ℕ → DialError) (x : Option ℕ × S) (f : Dialing S)
      → (sockets x.1 ≡ sockets s) × (attempts x.1 ≡ attempts s)
      → ((s1 : S) → Within k s1 (f s1).1)
      → Within k s (then_do (outcome failed x) f).1
  call_first k s failed x f w h =
      let (a, b) =
        Within-then_do 0 k s (outcome failed x) f (Within-outcome 0 s failed x (omega arith)) h in
      omega (arith, a, b)

  Within-redial_wait : (no_wait : Bool) (s : S) → Within 0 s (redial_wait c no_wait s).1
  unfolding redial_wait
  Within-redial_wait true s = omega arith
  Within-redial_wait false s = go (c.wait s) (laws.others s).7
    where
      go :
          (x : Bool × S)
          → (sockets x.1 ≡ sockets s) × (attempts x.1 ≡ attempts s)
          → Within 0 s (waited c x).1
      go (true, s') w = unfold waited in omega arith
      go (false, s') w = unfold waited in omega arith

  Within-after_connect :
      (no_wait : Bool) (k : ℕ) (s : S) (again : Dialing S) (x : Option ℕ × S)
      → Within 1 s x.1
      → ((s1 : S) → Within k s1 (again s1).1)
      → Within (1 + k) s (after_connect c no_wait again x).1
  unfolding after_connect
  Within-after_connect no_wait k s again (none, s') w h = omega arith
  Within-after_connect no_wait k s again (some e, s') w h = elim (Bool-cases (can_redial e)) [
    | inl y ↦ rw y (waiting (redial_wait c no_wait s') (Within-redial_wait no_wait s'))
    | inr n ↦ rw n (omega arith)
  ]
    where
      waiting : (y : Option ℕ × S) → Within 0 s' y.1 → Within (1 + k) s (after_wait c again y).1
      waiting (none, s1) v = unfold after_wait in (let (a, b) = h s1 in omega (arith, a, b, v, w))
      waiting (some x, s1) v = unfold after_wait in omega (arith, v, w)

  Within-connect_loop :
      (no_wait : Bool) (k : ℕ) (s : S) → Within (k + 1) s (connect_loop c no_wait k s).1
  unfolding connect_loop
  Within-connect_loop no_wait zero s =
      Within-outcome (0 + 1) s connect_failed (c.connect_ex s) (omega (arith, laws.connects s))
  Within-connect_loop no_wait (suc k) s =
      let (a, b) =
        Within-after_connect no_wait (k + 1) s (λ s'. connect_loop c no_wait k s') (c.connect_ex s)
          (omega (arith, laws.connects s)) (λ s1. Within-connect_loop no_wait k s1) in
      omega (arith, a, b)

  Within-checked_context : (s : S) → Within 0 s (checked_context c s).1
  unfolding checked_context
  Within-checked_context s = Within-outcome 0 s context (c.ctx_err s, s) (omega arith)

  call_last :
      (s : S) (failed : ℕ → DialError) (x : Option ℕ × S)
      → (sockets x.1 ≡ sockets s) × (attempts x.1 ≡ attempts s)
      → Within 0 s (outcome failed x).1
  call_last s failed x w = Within-outcome 0 s failed x (omega arith)

  Within-finish_dial : (s : S) → Within 0 s (finish_dial c s).1
  unfolding finish_dial
  Within-finish_dial s = call_first 0 s option_failed (c.set_sock_opt s) _ (laws.others s).5 (λ s1.
      call_first 0 s1 name_failed (c.get_sock_name s1) _ (laws.others s1).6 Within-checked_context)

  Within-dial_on_socket :
      (no_wait : Bool) (k : ℕ) (s : S) → Within (k + 1) s (dial_on_socket c no_wait k s).1
  unfolding dial_on_socket
  Within-dial_on_socket no_wait k s =
      call_first (k + 1) s bind_failed (c.bind s) _ (laws.others s).1 (λ s1.
        call_first (k + 1) s1 io_failed (c.prepare_io s1) _ (laws.others s1).2 (λ s2.
          let (a, b) =
            Within-then_do (k + 1) 0 s2 (connect_loop c no_wait k s2) (finish_dial c)
              (Within-connect_loop no_wait k s2) Within-finish_dial in
          omega (arith, a, b)))

  Within-listen_on_socket : (s : S) → Within 0 s (listen_on_socket c s).1
  unfolding listen_on_socket
  Within-listen_on_socket s =
      call_first 0 s bind_failed (c.bind s) _ (laws.others s).1
        (λ s1. call_last s1 listen_failed (c.listen s1) (laws.others s1).4)

  Within-accept_on_socket : (s : S) → Within 0 s (accept_on_socket c s).1
  unfolding accept_on_socket
  Within-accept_on_socket s = call_first 0 s io_failed (c.prepare_io s) _ (laws.others s).2 (λ s1.
      call_first 0 s1 accept_failed (c.accept_ex s1) _ (laws.others s1).3
        (λ s2. call_last s2 option_failed (c.set_sock_opt s2) (laws.others s2).5))

  -- A call that returns a socket leaves one more open, a call that fails none.
  abbrev opened : Result DialError (Unit {0}) → ℕ
  opened (ok u) = 1
  opened _ = 0

  abbrev pub Accounted : ℕ → S → Outcome S → Type 0
  Accounted k s x = (sockets x.1 ≡ sockets s + opened x.0) × (attempts x.1 ≤ attempts s + k)

  Accounted-new_hv_socket : (s : S) → Accounted 0 s (new_hv_socket c s)
  unfolding new_hv_socket then_do outcome
  Accounted-new_hv_socket s = go (c.socket s) refl (laws.socket_attempts s)
    where
      go :
          (x : Option ℕ × S)
          → c.socket s ≡ x
          → attempts x.1 ≡ attempts s
          → Accounted 0 s (then_do (outcome socket_failed x) (λ s1. made_file c (c.make_file s1)))
      go (some e, s1) x h = omega (arith, laws.opens_none s s1 e x)
      go (none, s1) x h = made (c.make_file s1) (laws.others s1).0 (laws.opens s s1 x)
        where
          made :
              (y : Option ℕ × S)
              → (sockets y.1 ≡ sockets s1) × (attempts y.1 ≡ attempts s1)
              → sockets s1 ≡ sockets s + 1
              → Accounted 0 s (made_file c y)
          made (none, s2) k o = unfold made_file in omega arith
          made (some e, s2) k o =
              unfold made_file in omega (arith, laws.closes s2, laws.close_attempts s2)

  Accounted-closing :
      (k : ℕ) (s s1 : S) (x : Outcome S)
      → (sockets s1 ≡ sockets s + 1) × (attempts s1 ≤ attempts s)
      → Within k s1 x.1
      → Accounted k s (closing_on_error c x)
  unfolding closing_on_error
  Accounted-closing k s s1 (ok u, s2) o w = omega arith
  Accounted-closing k s s1 (err e, s2) o w = omega (arith, laws.closes s2, laws.close_attempts s2)
  Accounted-closing k s s1 (panic, s2) o w = omega (arith, laws.closes s2, laws.close_attempts s2)

  -- On a new socket.
  on_socket :
      (k : ℕ) (s : S) (f : Dialing S)
      → ((s1 : S) → Within k s1 (f s1).1)
      → Accounted k s (then_do (new_hv_socket c s) (λ s1. closing_on_error c (f s1)))
  on_socket k s f h = go (new_hv_socket c s) (Accounted-new_hv_socket s)
    where
      go :
          (x : Outcome S)
          → Accounted 0 s x
          → Accounted k s (then_do x (λ s1. closing_on_error c (f s1)))
      go (ok u, s1) a = unfold then_do in Accounted-closing k s s1 (f s1) (omega arith) (h s1)
      go (err e, s1) a = unfold then_do in omega arith
      go (panic, s1) a = unfold then_do in omega arith

  -- `Dial`, `ListenHvsock` and `Accept` leave one more socket open if they succeed, and no more if they
  -- fail, at whatever call; and `Dial` makes at most one attempt more than the retries it is given.
  pub sockets_counted :
      (no_wait : Bool) (retries : ℕ) (s : S)
      → Accounted (retries + 1) s (dial c no_wait retries s)
        × Accounted 0 s (listen_hvsock c s)
        × Accounted 0 s (accept c s)
  unfolding dial listen_hvsock accept
  sockets_counted no_wait k s = (
    go (c.ctx_err s),
    on_socket 0 s (listen_on_socket c) Within-listen_on_socket,
    on_socket 0 s (accept_on_socket c) Within-accept_on_socket,
  )
    where
      go :
          (e : Option ℕ)
          → Accounted (k + 1) s (
              then_do (outcome context (e, s)) (λ s1.
                then_do
                  (new_hv_socket c s1)
                  (λ s2. closing_on_error c (dial_on_socket c no_wait k s2))))
      go none =
          unfold then_do outcome in
          on_socket (k + 1) s (dial_on_socket c no_wait k)
            (λ s1. Within-dial_on_socket no_wait k s1)
      go (some e) = unfold then_do outcome in omega arith
