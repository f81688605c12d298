-- ===== src/Pipe/Tests.antt =====
-- A pipe of messages, read in byte mode, as a list of messages, a listener in use, and the theorems on them.
use go_winio.Base.{
  ℕ, ◌<◌, ◌≤◌, ◌≡◌, ◌≢◌, refl, arith, Bool, true, false, none, some, Option, List, [], ◌∷◌, ◌++◌,
  length, length-append, length-take, ◌-◌, ◌⊎◌, Bool-cases, take, drop, leb, if◌then◌else◌, inl,
  inr, ap,
}
use mathlib.Core.Logic.{◌↔◌}
use go_winio.Io.{flatten}
use go_winio.Threads.{update}
use go_winio.File.{FileError, more_data, read_result}
use go_winio.Pipe.{FileOps, new_pipe, read, write, file_read, noted, file_write}
use go_winio.Pipe.Stream.{
  Consumes, stop, part, whole, IsMessagePipe, Session, Reach, start, later, wrote, did_read,
  pipe_is_stream,
}
use go_winio.Pipe.Listener
use go_winio.Pipe.Listener.{ListenerState}
use go_winio.Pipe.Listener.Answers.{serves, accepts_are_answered}
use go_winio.Pipe.Listener.Closing.{close_can_return}
use go_winio.Pipe.Listener.Hang.{close_hangs}

abbrev Messages : Type 0
Messages = List (List ℕ)

-- In byte mode a read takes as much as there is room for, up to an empty message.
fill : Messages → ℕ → List ℕ × Messages
fill [] room = ([], [])
fill ([] ∷ ms) room = ([], [] ∷ ms)
fill ((b ∷ m) ∷ ms) room =
    let (more, rest) = fill ms (room - length (b ∷ m)) in
    if leb (length (b ∷ m)) room
    then ((b ∷ m) ++ more, rest)
    else (take room (b ∷ m), drop room (b ∷ m) ∷ ms)

filled : List ℕ × Messages → List ℕ × Option FileError × Messages
filled (bytes, ms) = (bytes, none, ms)

read_messages : Messages → ℕ → List ℕ × Option FileError × Messages
unfolding fill filled
read_messages ([] ∷ ms) room = ([], none, ms)
read_messages ms room = filled (fill ms room)

abbrev message_ops : FileOps Messages
message_ops = record {
  read_file = read_messages;
  write_file = λ q b. (length b, none, q ++ (b ∷ []));
  flush = λ q. (none, q);
}

fill-Consumes :
    (ms : Messages) (room : ℕ)
    → Consumes (fill ms room).0 ms (fill ms room).1 × (length (fill ms room).0 ≤ room)
unfolding fill
fill-Consumes [] room = (stop, omega arith)
fill-Consumes ([] ∷ ms) room = (stop, omega arith)
fill-Consumes ((b ∷ m) ∷ ms) room =
    let (c, h) = fill-Consumes ms (room - length (b ∷ m)) in
    let x = (fill ms (room - length (b ∷ m))).0 in
    elim (Bool-cases (leb (length (b ∷ m)) room)) [
      | inl e ↦
          let fits : length (b ∷ m) ≤ room = ground (arith, e) in
          rw e (whole (omega arith) c, omega (arith, h, fits, length-append (b ∷ m) x))
      | inr e ↦
          let longer : room < length (b ∷ m) = ground (arith, e) in
          rw e (part room longer, omega (arith, length-take room (b ∷ m)))
    ]

fill_some :
    (m : List ℕ) (ms : Messages) (room : ℕ)
    → 0 < length m
    → 0 < room
    → 0 < length (fill (m ∷ ms) room).0
unfolding fill
fill_some [] ms room h r = absurd (omega (arith, h))
fill_some (b ∷ m) ms room h r = elim (Bool-cases (leb (length (b ∷ m)) room)) [
  | inl e ↦ rw e (omega arith)
  | inr e ↦ rw e (omega (arith, r, length-take room (b ∷ m)))
]

some_message :
    (q : Messages) (m : List ℕ) (ms : Messages) (room : ℕ)
    → q ≡ m ∷ ms
    → 0 < length m
    → 0 < room
    → (bytes : List ℕ) × (e : Option FileError) × (q' : Messages) × (read_messages q room
        ≡ (bytes, e, q'))
      × (0 < length bytes)
      × (length bytes ≤ room)
      × ((e ≡ none) ⊎ (e ≡ some more_data))
      × Consumes bytes (m ∷ ms) q'
unfolding read_messages filled
some_message q [] ms room e h r = absurd (omega (arith, h))
some_message q (b ∷ m) ms room e h r =
    let x = fill ((b ∷ m) ∷ ms) room in
    let (c, fits) = fill-Consumes ((b ∷ m) ∷ ms) room in
    (
      x.0,
      none,
      x.1,
      ap (λ (l : Messages). read_messages l room) e,
      fill_some (b ∷ m) ms room h r,
      fits,
      inl refl,
      c,
    )

empty_message :
    (q : Messages) (ms : Messages) (room : ℕ)
    → q ≡ [] ∷ ms
    → 0 < room
    → (q' : Messages) × (read_messages q room ≡ ([], none, q')) × (q' ≡ ms)
unfolding read_messages
empty_message q ms room e h = (ms, ap (λ (l : Messages). read_messages l room) e, refl)

message_ops-IsMessagePipe : IsMessagePipe message_ops (λ q. q)
message_ops-IsMessagePipe = record {
  written = λ q b. (q ++ (b ∷ []), refl, refl);
  flushed = λ q e. (q, refl, e);
  read_empty = empty_message;
  read_some = some_message;
}

-- Three bytes are written, and then two of them read.
abbrev written_three : Session Messages
written_three = record {
  writer = new_pipe;
  reader = new_pipe;
  q = (1 ∷ 2 ∷ 3 ∷ []) ∷ [];
  sent = 1 ∷ 2 ∷ 3 ∷ [];
  got = [];
}

abbrev read_two : Session Messages
read_two = record written_three { q = (3 ∷ []) ∷ []; got = 1 ∷ 2 ∷ [] }

written_three_reached : Reach message_ops (λ q. q) [] written_three
unfolding write file_write
written_three_reached = later (start refl) (wrote (1 ∷ 2 ∷ 3 ∷ []))

read_two_reached : Reach message_ops (λ q. q) [] read_two
unfolding read file_read noted read_result read_messages fill filled
read_two_reached = later written_three_reached (did_read 2 (omega arith) (inr (λ e. cc)))

pipe_is_stream_example :
    (read_two.got ++ flatten read_two.q ≡ read_two.sent)
    × (read_two.reader.read_eof ≡ true
        → (read_two.got ≡ read_two.sent) × (read_two.writer.write_closed ≡ true))
pipe_is_stream_example =
    pipe_is_stream message_ops (λ q. q) message_ops-IsMessagePipe read_two_reached

-- Goroutine 0 has called `Accept` and goroutine 1 `Close`, and the listener has taken the `Accept`.
abbrev taken : ListenerState
taken = record {
  listener = Listener.making 0;
  closes = 0;
  pc =
      update (update (update (λ _. Listener.idle) 0 Listener.accepting) 1 Listener.closing) 0
        Listener.awaiting;
}

taken_reached : (expected : Bool) → Listener.Reach expected taken
taken_reached expected =
    Listener.later
      (Listener.later (Listener.later Listener.start (Listener.call_accept 0 refl))
        (Listener.call_close 1 refl))
      (Listener.take_accept 0 refl refl)

accepts_are_answered_example :
    ((i : ℕ) → (taken.pc i ≡ Listener.awaiting) ↔ (serves taken.listener ≡ some i))
    × ((i j : ℕ) → taken.pc i ≡ Listener.awaiting → taken.pc j ≡ Listener.awaiting → i ≡ j)
    × (taken.closes ≤ 1)
    × (taken.listener ≡ Listener.stopped
        → (taken.closes ≡ 1) × ((i : ℕ) → taken.pc i ≢ Listener.awaiting))
accepts_are_answered_example = accepts_are_answered (taken_reached false)

close_can_return_example :
    (t : ListenerState) × Listener.Leads true taken t × (t.pc 1 ≡ Listener.closed)
close_can_return_example = close_can_return 1 (taken_reached true) (inl refl)

close_hangs_example :
    (s : ListenerState) × Listener.Reach false s
    × (s.listener ≡ Listener.choosing)
    × (s.pc 0 ≡ Listener.accepted (some (Listener.other 5)))
    × (s.pc 1 ≡ Listener.wait_done)
    × ((t : ListenerState) → Listener.Leads false s t → t.pc 1 ≡ Listener.wait_done)
close_hangs_example = close_hangs 5
