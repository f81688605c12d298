-- ===== src/Hvsock/Conn.antt =====
-- hvsock.go: reading from and writing to a connection. `SocketOps` is what the connection calls of its
-- socket, whose state is some `S`: one overlapped WSARecv or WSASend with its `asyncIO`.
use go_winio.Base.{
  ℕ, zero, suc, ◌+◌, ◌%◌, ◌^◌, ◌==◌, List, [], ◌∷◌, length, take, drop, Bool, true, false, Option,
  none, some, if◌then◌else◌, Result, ok, panic,
}
use go_winio.File.{FileError, file_closed}
pub mod WriteAll

pub record SocketOps (S : Type 0) : Type 0 where
  pub closing : S → Bool
  pub receive : S → ℕ → List ℕ × Option FileError × S
  pub send : S → List ℕ → ℕ × Option FileError × S

pub data ConnError : Type 0 where
  socket_closed end_of_stream : ConnError
  file_error : FileError → ConnError

-- `opErr`: a closed file is a closed socket here.
pub op_err : FileError → ConnError
op_err file_closed = socket_closed
op_err e = file_error e

module _ {S : Type 0} (ops : SocketOps S) where
  received : List ℕ × Option FileError × S → (List ℕ × Option ConnError) × S
  unfolding op_err
  received (bytes, some e, s) = (([], some (op_err e)), s)
  received ([], none, s) = (([], some end_of_stream), s)
  received (bytes, none, s) = ((bytes, none), s)

  -- `Read`, which takes the address of the buffer's first byte.
  pub read : S → ℕ → Result (Unit {0}) ((List ℕ × Option ConnError) × S)
  unfolding op_err received
  read s room =
      if ops.closing s
      then ok (([], some (op_err file_closed)), s)
      else if room == 0
      then panic
      else ok (received (ops.receive s (room % 2 ^ 32)))

  sent : ℕ × Option FileError × S → (ℕ × Option ConnError) × S
  unfolding op_err
  sent (n, some e, s) = ((0, some (op_err e)), s)
  sent (n, none, s) = ((n, none), s)

  -- `write`, for a buffer that is not empty: the socket is given as many bytes as the length in uint32 says.
  write_once : S → List ℕ → (ℕ × Option ConnError) × S
  unfolding op_err sent
  write_once s b =
      if ops.closing s
      then ((0, some (op_err file_closed)), s)
      else sent (ops.send s (take (length b % 2 ^ 32) b))

  -- A round of the loop of `Write`, from the outcome of its `write`, with what the other rounds do.
  after_once :
      (S → List ℕ → ℕ → Option ((ℕ × Option ConnError) × S))
      → List ℕ
      → ℕ
      → (ℕ × Option ConnError) × S
      → Option ((ℕ × Option ConnError) × S)
  after_once rest b t ((n, some x), s) = some ((t + n, some x), s)
  after_once rest b t ((n, none), s) = rest s (drop n b) (t + n)

  -- The loop of `Write`: `t` bytes are sent already.
  write_loop : ℕ → S → List ℕ → ℕ → Option ((ℕ × Option ConnError) × S)
  unfolding after_once
  write_loop fuel s [] t = some ((t, none), s)
  write_loop zero s (c ∷ b) t = none
  write_loop (suc fuel) s (c ∷ b) t =
      after_once (λ s' b' t'. write_loop fuel s' b' t') (c ∷ b) t (write_once s (c ∷ b))

  -- `Write`, with a round for each byte.
  pub write : S → List ℕ → Option ((ℕ × Option ConnError) × S)
  unfolding write_loop
  write s b = write_loop (length b) s b 0
