-- ===== src/Pipe.antt =====
-- pipe.go: named pipes. `FileOps` is what a pipe calls of its win32File on a handle whose state is
-- some `Q`: ReadFile and WriteFile as they complete, and FlushFileBuffers.
use go_winio.Base.{
  ℕ, ◌==◌, List, [], ◌∷◌, Bool, true, false, Option, none, some, length, take, if◌then◌else◌,
}
use go_winio.File.{FileError, more_data, eof, IoResult, read_result}
pub mod Stream
pub mod Listener
mod Tests

pub record FileOps (Q : Type 0) : Type 0 where
  pub read_file : Q → ℕ → List ℕ × Option FileError × Q
  pub write_file : Q → List ℕ → ℕ × Option FileError × Q
  pub flush : Q → Option FileError × Q

pub data PipeError : Type 0 where
  pipe_write_closed : PipeError
  file_error : FileError → PipeError

pub record MessageBytePipe : Type 0 where
  pub write_closed : Bool
  pub read_eof : Bool

abbrev pub new_pipe : MessageBytePipe
new_pipe = record { write_closed = false; read_eof = false }

module _ {Q : Type 0} (ops : FileOps Q) where
  abbrev Called : Type 0
  Called = Option PipeError × MessageBytePipe × Q

  -- `_, err = f.win32File.Write(nil)`, and what follows.
  end_message : MessageBytePipe → ℕ × Option FileError × Q → Called
  end_message p (n, some e, q) = (some (file_error e), p, q)
  end_message p (n, none, q) = (none, record p { write_closed = true }, q)

  flushed : MessageBytePipe → Option FileError × Q → Called
  unfolding end_message
  flushed p (some e, q) = (some (file_error e), p, q)
  flushed p (none, q) = end_message p (ops.write_file q [])

  pub close_write : MessageBytePipe → Q → Called
  unfolding flushed
  close_write p q =
      if p.write_closed then (some pipe_write_closed, p, q) else flushed p (ops.flush q)

  file_write : ℕ × Option FileError × Q → (ℕ × Option PipeError) × Q
  file_write (n, none, q) = ((n, none), q)
  file_write (n, some e, q) = ((n, some (file_error e)), q)

  pub write : MessageBytePipe → Q → List ℕ → (ℕ × Option PipeError) × Q
  unfolding file_write
  write p q b =
      if p.write_closed
      then ((0, some pipe_write_closed), q)
      else if length b == 0
      then ((0, none), q)
      else file_write (ops.write_file q b)

  -- `win32File.Read`
  file_read : Q → ℕ → (List ℕ × Option FileError) × Q
  file_read q room =
      let (bytes, e, q') = ops.read_file q room in
      let r = read_result room (record { bytes = length bytes; err = e }) in
      ((take r.bytes bytes, r.err), q')

  -- The error of `Read`, and whether later calls return EOF.
  noted :
      MessageBytePipe
      → (List ℕ × Option FileError) × Q
      → (List ℕ × Option FileError) × MessageBytePipe × Q
  noted p ((bytes, some eof), q) = ((bytes, some eof), record p { read_eof = true }, q)
  noted p ((bytes, some more_data), q) = ((bytes, none), p, q)
  noted p ((bytes, e), q) = ((bytes, e), p, q)

  pub read : MessageBytePipe → Q → ℕ → (List ℕ × Option FileError) × MessageBytePipe × Q
  unfolding noted file_read
  read p q room = if p.read_eof then (([], some eof), p, q) else noted p (file_read q room)
