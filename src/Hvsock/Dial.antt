-- ===== src/Hvsock/Dial.antt =====
-- hvsock.go: `Dial`, `ListenHvsock` and `Accept` as sequences of system calls on a state `S` of the
-- system, each with an error number or none. A call of `asyncIO` belongs to the call that it ends.
use go_winio.Base.{
  ℕ, zero, suc, ◌==◌, Bool, true, false, ◌||◌, Option, none, some, if◌then◌else◌, Result, ok, err,
  panic,
}
pub mod Sockets

pub record SocketCalls (S : Type 0) : Type 0 where
  pub ctx_err : S → Option ℕ
  pub socket : S → Option ℕ × S
  pub make_file : S → Option ℕ × S
  pub close : S → S
  pub bind : S → Option ℕ × S
  pub prepare_io : S → Option ℕ × S
  pub connect_ex : S → Option ℕ × S
  pub accept_ex : S → Option ℕ × S
  pub listen : S → Option ℕ × S
  pub set_sock_opt : S → Option ℕ × S
  pub get_sock_name : S → Option ℕ × S
  pub wait : S → Bool × S  -- whether the timer came before the end of the context

-- The call that failed, with its error.
pub data DialError : Type 0 where
  context socket_failed bind_failed io_failed connect_failed : ℕ → DialError
  accept_failed listen_failed option_failed name_failed : ℕ → DialError

-- WSAECONNREFUSED, WSAENETUNREACH, WSAETIMEDOUT, ERROR_CONNECTION_REFUSED and
-- ERROR_CONNECTION_UNAVAIL.
pub can_redial : ℕ → Bool
can_redial e = e == 10061 || e == 10051 || e == 10060 || e == 1225 || e == 1201

abbrev pub Outcome : Type 0 → Type 0
Outcome S = Result DialError (Unit {0}) × S

-- A function that may fail and changes the state.
abbrev pub Dialing : Type 0 → Type 0
Dialing S = S → Outcome S

module _ {S : Type 0} where
  pub then_do : Outcome S → Dialing S → Outcome S
  then_do (ok u, s) f = f s
  then_do (err e, s) f = (err e, s)
  then_do (panic, s) f = (panic, s)

  pub outcome : (ℕ → DialError) → Option ℕ × S → Outcome S
  outcome failed (none, s) = (ok tt, s)
  outcome failed (some e, s) = (err (failed e), s)

  -- The deferred `sock.Close()`.
  pub closing_on_error : SocketCalls S → Outcome S → Outcome S
  closing_on_error c (ok u, s) = (ok u, s)
  closing_on_error c (r, s) = (r, c.close s)

module _ {S : Type 0} (c : SocketCalls S) where
  pub checked_context : Dialing S
  unfolding outcome
  checked_context s = outcome context (c.ctx_err s, s)

  made_file : Option ℕ × S → Outcome S
  made_file (none, s) = (ok tt, s)
  made_file (some e, s) = (err (socket_failed e), c.close s)

  -- `newHVSocket`, which closes the descriptor of which no file can be made.
  pub new_hv_socket : Dialing S
  unfolding then_do outcome made_file
  new_hv_socket s = then_do (outcome socket_failed (c.socket s)) (λ s1. made_file (c.make_file s1))

  waited : Bool × S → Option ℕ × S
  waited (true, s) = (none, s)
  waited (false, s) = (c.ctx_err s, s)

  -- `redialWait`; `no_wait` is a RetryWait of zero.
  pub redial_wait : Bool → S → Option ℕ × S
  unfolding waited
  redial_wait no_wait s = if no_wait then (none, s) else waited (c.wait s)

  after_wait : Dialing S → Option ℕ × S → Outcome S
  after_wait again (none, s) = again s
  after_wait again (some e, s) = (err (connect_failed e), s)

  after_connect : Bool → Dialing S → Option ℕ × S → Outcome S
  unfolding after_wait redial_wait can_redial
  after_connect no_wait again (none, s) = (ok tt, s)
  after_connect no_wait again (some e, s) =
      if can_redial e then after_wait again (redial_wait no_wait s) else (err (connect_failed e), s)

  -- The loop over the attempts, with so many retries left.
  pub connect_loop : Bool → ℕ → S → Outcome S
  unfolding outcome after_connect
  connect_loop no_wait zero s = outcome connect_failed (c.connect_ex s)
  connect_loop no_wait (suc k) s =
      after_connect no_wait (λ s'. connect_loop no_wait k s') (c.connect_ex s)

  -- What follows the connection.
  finish_dial : Dialing S
  unfolding then_do outcome checked_context
  finish_dial s =
      then_do (outcome option_failed (c.set_sock_opt s))
        (λ s1. then_do (outcome name_failed (c.get_sock_name s1)) (checked_context))

  dial_on_socket : Bool → ℕ → Dialing S
  unfolding then_do outcome connect_loop finish_dial
  dial_on_socket no_wait retries s = then_do (outcome bind_failed (c.bind s)) (λ s1.
      then_do (outcome io_failed (c.prepare_io s1))
        (λ s2. then_do (connect_loop no_wait retries s2) finish_dial))

  pub dial : Bool → ℕ → Dialing S
  unfolding then_do checked_context new_hv_socket closing_on_error dial_on_socket
  dial no_wait retries s = then_do (checked_context s) (λ s1.
      then_do (new_hv_socket s1) (λ s2. closing_on_error c (dial_on_socket no_wait retries s2)))

  listen_on_socket : Dialing S
  unfolding then_do outcome
  listen_on_socket s =
      then_do (outcome bind_failed (c.bind s)) (λ s1. outcome listen_failed (c.listen s1))

  -- `ListenHvsock`
  pub listen_hvsock : Dialing S
  unfolding then_do new_hv_socket closing_on_error listen_on_socket
  listen_hvsock s = then_do (new_hv_socket s) (λ s1. closing_on_error c (listen_on_socket s1))

  accept_on_socket : Dialing S
  unfolding then_do outcome
  accept_on_socket s = then_do (outcome io_failed (c.prepare_io s)) (λ s1.
      then_do (outcome accept_failed (c.accept_ex s1))
        (λ s2. outcome option_failed (c.set_sock_opt s2)))

  pub accept : Dialing S
  unfolding then_do new_hv_socket closing_on_error accept_on_socket
  accept s = then_do (new_hv_socket s) (λ s1. closing_on_error c (accept_on_socket s1))
