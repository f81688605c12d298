-- ===== src/File.antt =====
-- file.go: files with overlapped I/O. The errors of Windows that the code tells apart are constructors,
-- any other has its number.
use go_winio.Base.{ℕ, ◌==◌, Option, none, some, Bool, true, false, if◌then◌else◌, not, ◌&&◌}
pub mod System
pub mod Invariant
pub mod Progress
pub mod Deadline
mod Tests

pub data FileError : Type 0 where
  file_closed timeout eof broken_pipe operation_aborted io_pending more_data : FileError
  win32 : ℕ → FileError

-- What a completed operation leaves, and what a call returns.
pub record IoResult : Type 0 where
  pub bytes : ℕ
  pub err : Option FileError

abbrev pub is_aborted : Option FileError → Bool
is_aborted (some operation_aborted) = true
is_aborted _ = false

abbrev pub is_pending : Option FileError → Bool
is_pending (some io_pending) = true
is_pending _ = false

-- The first branch of the `select` of `asyncIO`: `closing` is read then, and `overlapped_error` is
-- the answer of WSAGetOverlappedResult.
pub received : Bool → Bool → Option FileError → IoResult → IoResult
received closing socket overlapped_error r =
    if is_aborted r.err
    then record r { err = if closing then some file_closed else r.err }
    else elim r.err [
      | none ↦ r
      | some e ↦ record r { err = if socket then overlapped_error else some e }
    ]

-- The second branch, behind the timeout.
pub received_late : IoResult → IoResult
received_late r = if is_aborted r.err then record r { err = some timeout } else r

read_error : ℕ → ℕ → Option FileError → IoResult
read_error room n none =
    if n == 0 && not (room == 0)
    then record { bytes = 0; err = some eof }
    else record { bytes = n; err = none }
read_error room n (some broken_pipe) = record { bytes = 0; err = some eof }
read_error room n (some e) = record { bytes = n; err = some e }

-- `Read` behind `asyncIO`, for a buffer of `room` bytes.
unfoldable pub read_result : ℕ → IoResult → IoResult
unfolding read_error
read_result room r = read_error room r.bytes r.err
