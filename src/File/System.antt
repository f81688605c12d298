-- ===== src/File/System.antt =====
-- file.go: `n` goroutines that read from, write to and close one file, in any order. The two sections
-- under `wgLock` are one step each: the read-locked one of `prepareIO`, which tests `closing` and
-- adds to the wait group, and the locked one of `closeHandle`, which swaps `closing`.
use go_winio.Base.{ℕ, ◌+◌, ◌-◌, ◌<◌, ◌≡◌, Bool, true, false, Option, some, ◌⊎◌, if◌then◌else◌}
use go_winio.Threads.{update}
use go_winio.File.{FileError, IoResult, file_closed, timeout, is_pending, received, received_late}

-- An operation that the kernel works on; after CancelIoEx it is `aborting`.
pub data Op : Type 0 where
  running aborting : Op
  complete : IoResult → Op

unfoldable pub cancel : Op → Op
cancel running = aborting
cancel op = op

-- Where a goroutine stands.
pub data Pc : Type 0 where
  idle : Pc
  ready : Pc  -- behind `prepareIO`
  issued : Op → Pc  -- in `asyncIO`, behind ERROR_IO_PENDING
  selecting : Op → Pc  -- in its `select`
  late : Op → Pc  -- in the branch of the timeout
  finished : IoResult → Pc  -- before `wg.Done`
  returned : IoResult → Pc
  swapped : Pc  -- in `closeHandle`, before `cancelIoEx`
  waiting : Pc  -- in `wg.Wait`
  freeing : Pc  -- before `windows.Close`
  left : Pc  -- behind `Close`

-- `closes` counts the calls of `windows.Close` on the handle.
pub record System : Type 0 where
  pub closing : Bool
  pub wg : ℕ
  pub closes : ℕ
  pub pc : ℕ → Pc

abbrev pub init : System
init = record { closing = false; wg = 0; closes = 0; pc = λ _. idle }

-- CancelIoEx on all operations of the handle.
unfoldable pub cancel_at : Pc → Pc
unfolding cancel
cancel_at (issued op) = issued (cancel op)
cancel_at (selecting op) = selecting (cancel op)
cancel_at (late op) = late (cancel op)
cancel_at p = p

-- One goroutine's moves that leave the others alone. The kernel completes an operation at any time
-- if `kernel` is true, and otherwise only one that is aborting. If `timed` is true, a deadline may pass at
-- any time, and otherwise none is set or passes.
pub data Move (socket kernel timed : Bool) (s : System) : Pc → System → Pc → Type 0 where
  prepare : s.closing ≡ false → Move socket kernel timed s idle (record s { wg = s.wg + 1 }) ready
  prepare_closed :
      s.closing ≡ true
      → Move socket kernel timed s idle s (returned (record { bytes = 0; err = some file_closed }))
  past_deadline :
      timed ≡ true
      → Move socket kernel timed s ready s (finished (record { bytes = 0; err = some timeout }))
  at_once :
      (r : IoResult) → is_pending r.err ≡ false → Move socket kernel timed s ready s (finished r)
  pend : Move socket kernel timed s ready s (issued running)
  check_closing :
      (op : Op)
      → Move socket kernel timed s (issued op) s (selecting (if s.closing then cancel op else op))
  receive :
      (r : IoResult) (e : Option FileError)
      → Move socket kernel timed s
          (selecting (complete r))
          s
          (finished (received s.closing socket e r))
  time_out :
      (op : Op) → timed ≡ true → Move socket kernel timed s (selecting op) s (late (cancel op))
  receive_late :
      (r : IoResult) → Move socket kernel timed s (late (complete r)) s (finished (received_late r))
  complete_issued :
      (op : Op) (r : IoResult)
      → (op ≡ aborting) ⊎ (kernel ≡ true)
      → Move socket kernel timed s (issued op) s (issued (complete r))
  complete_selecting :
      (op : Op) (r : IoResult)
      → (op ≡ aborting) ⊎ (kernel ≡ true)
      → Move socket kernel timed s (selecting op) s (selecting (complete r))
  complete_late :
      (op : Op) (r : IoResult)
      → (op ≡ aborting) ⊎ (kernel ≡ true)
      → Move socket kernel timed s (late op) s (late (complete r))
  done :
      (r : IoResult)
      → Move socket kernel timed s (finished r) (record s { wg = s.wg - 1 }) (returned r)
  swap : s.closing ≡ false → Move socket kernel timed s idle (record s { closing = true }) swapped
  swap_again : s.closing ≡ true → Move socket kernel timed s idle s left
  wait : s.wg ≡ 0 → Move socket kernel timed s waiting s freeing
  free : Move socket kernel timed s freeing (record s { closes = s.closes + 1 }) left
  again : (r : IoResult) → Move socket kernel timed s (returned r) s idle

pub data Step (n : ℕ) (socket kernel timed : Bool) (s : System) : System → Type 0 where
  move :
      (i : ℕ) {t : System} {p : Pc}
      → i < n
      → Move socket kernel timed s (s.pc i) t p
      → Step n socket kernel timed s (record t { pc = update s.pc i p })
  cancel_all :
      (i : ℕ)
      → i < n
      → s.pc i ≡ swapped
      → Step n socket kernel timed s (record s { pc = update (λ j. cancel_at (s.pc j)) i waiting })

-- The states that are reached from the first one.
pub data Reach (n : ℕ) (socket kernel timed : Bool) : System → Type 0 where
  start : Reach n socket kernel timed init
  later :
      {s t : System}
      → Reach n socket kernel timed s
      → Step n socket kernel timed s t
      → Reach n socket kernel timed t
