-- ===== src/Pipe/Stream.antt =====
-- Two ends of a message-mode pipe, read in byte mode or in message mode, as one stream of bytes. The
-- pipe itself is the kernel's: what it is documented to do with messages is a parameter.
use go_winio.Base.{
  ℕ, ◌≤◌, ◌<◌, ◌≡◌, ◌≢◌, refl, sym, ap, ◌∙◌, arith, List, [], ◌∷◌, ◌++◌, append-nil, append_assoc,
  true, false,
}
use go_winio.Base.{
  Option, none, some, length, take, drop, take-all, take-append-drop, length-drop, All, All-append,
  inl, inr, ◌⊎◌, ◌==◌, if_of_true, if_of_false,
}
use go_winio.Io.{flatten}
use go_winio.File.{FileError, more_data, eof, read_result}
use go_winio.Pipe.{
  FileOps, MessageBytePipe, new_pipe, pipe_write_closed, read, write, close_write, flushed,
  end_message, file_read, noted,
}

-- How bytes are taken from the front of unread messages: a part of the first message, or all of it and
-- perhaps more of the next ones. An empty message is not passed over.
pub data Consumes : List ℕ → List (List ℕ) → List (List ℕ) → Type 0 where
  stop : {ms : List (List ℕ)} → Consumes [] ms ms
  part :
      {m : List ℕ} {ms : List (List ℕ)} (n : ℕ)
      → n < length m
      → Consumes (take n m) (m ∷ ms) (drop n m ∷ ms)
  whole :
      {m bytes : List ℕ} {ms ms' : List (List ℕ)}
      → 0 < length m
      → Consumes bytes ms ms'
      → Consumes (m ++ bytes) (m ∷ ms) ms'

-- ReadFile and WriteFile on a pipe of messages whose unread ones are `messages`: a write adds a message.
-- A read into a buffer with room gives no bytes for an empty message. Of other ones it gives some bytes,
-- in byte mode perhaps of several messages, and in message mode with ERROR_MORE_DATA if a part is left.
-- FlushFileBuffers returns when all has been read.
pub record IsMessagePipe {Q : Type 0} (ops : FileOps Q) (messages : Q → List (List ℕ))
    : Type 0 where
  pub written :
      (q : Q) (b : List ℕ)
      → (q' : Q) × (ops.write_file q b ≡ (length b, none, q'))
        × (messages q' ≡ messages q ++ (b ∷ []))
  pub flushed :
      (q : Q) → messages q ≡ [] → (q' : Q) × (ops.flush q ≡ (none, q')) × (messages q' ≡ [])
  pub read_empty :
      (q : Q) (ms : List (List ℕ)) (room : ℕ)
      → messages q ≡ [] ∷ ms
      → 0 < room
      → (q' : Q) × (ops.read_file q room ≡ ([], none, q')) × (messages q' ≡ ms)
  pub read_some :
      (q : Q) (m : List ℕ) (ms : List (List ℕ)) (room : ℕ)
      → messages q ≡ m ∷ ms
      → 0 < length m
      → 0 < room
      → (bytes : List ℕ) × (e : Option FileError) × (q' : Q) × (ops.read_file q room
          ≡ (bytes, e, q'))
        × (0 < length bytes)
        × (length bytes ≤ room)
        × ((e ≡ none) ⊎ (e ≡ some more_data))
        × Consumes bytes (m ∷ ms) (messages q')

-- A writer and a reader with what was written and read so far.
pub record Session (Q : Type 0) : Type 0 where
  pub writer : MessageBytePipe
  pub reader : MessageBytePipe
  pub q : Q
  pub sent : List ℕ
  pub got : List ℕ

abbrev pub begin : {Q : Type 0} → Q → Session Q
begin q = record { writer = new_pipe; reader = new_pipe; q = q; sent = []; got = [] }

abbrev NonEmpty : List ℕ → Type 0
NonEmpty m = 0 < length m

Consumes-flatten :
    {bytes : List ℕ} {ms ms' : List (List ℕ)}
    → Consumes bytes ms ms'
    → bytes ++ flatten ms' ≡ flatten ms
Consumes-flatten stop = refl
Consumes-flatten (part {m} {ms} n h) =
    sym (append_assoc (take n m) (drop n m) (flatten ms))
    ∙ ap (λ (b : List ℕ). b ++ flatten ms) (take-append-drop n m)
Consumes-flatten (whole {m} {bytes} {ms} {ms'} h c) =
    append_assoc m bytes (flatten ms') ∙ ap (λ (b : List ℕ). m ++ b) (Consumes-flatten c)

Consumes-NonEmpty :
    {bytes : List ℕ} {ms ms' : List (List ℕ)}
    → Consumes bytes ms ms'
    → All NonEmpty ms
    → All NonEmpty ms'
Consumes-NonEmpty stop a = a
Consumes-NonEmpty (part {m} n h) (a, others) = (omega (arith, length-drop n m, h), others)
Consumes-NonEmpty (whole h c) (a, others) = Consumes-NonEmpty c others

flatten-append : (xs : List (List ℕ)) (b : List ℕ) → flatten (xs ++ (b ∷ [])) ≡ flatten xs ++ b
flatten-append [] b = append-nil b
flatten-append (x ∷ xs) b = rw (flatten-append xs b) (sym (append_assoc x (flatten xs) b))

module _ {Q : Type 0} (ops : FileOps Q) (messages : Q → List (List ℕ)) where
  abbrev after_write : Session Q → List ℕ → Session Q
  after_write s b =
      let x = write ops s.writer s.q b in record s { q = x.1; sent = s.sent ++ take x.0.0 b }

  abbrev after_read : Session Q → ℕ → Session Q
  after_read s room =
      let x = read ops s.reader s.q room in record s { reader = x.1; q = x.2; got = s.got ++ x.0.0 }

  abbrev after_close_write : Session Q → Session Q
  after_close_write s = let x = close_write ops s.writer s.q in record s { writer = x.1; q = x.2 }

  -- Calls that return: a `Read` waits for a message, and `CloseWrite` for the reader.
  pub data Step (s : Session Q) : Session Q → Type 0 where
    wrote : (b : List ℕ) → Step s (after_write s b)
    did_read :
        (room : ℕ)
        → 0 < room
        → (s.reader.read_eof ≡ true) ⊎ (messages s.q ≢ [])
        → Step s (after_read s room)
    closed_write : messages s.q ≡ [] → Step s (after_close_write s)

  pub data Reach (q : Q) : Session Q → Type 0 where
    start : messages q ≡ [] → Reach q (begin q)
    later : {s t : Session Q} → Reach q s → Step s t → Reach q t

  -- Where a session stands.
  data Phase (w r : MessageBytePipe) (q : Q) : Type 0 where
    open_phase :
        w.write_closed ≡ false → r.read_eof ≡ false → All NonEmpty (messages q) → Phase w r q
    end_sent : w.write_closed ≡ true → r.read_eof ≡ false → messages q ≡ [] ∷ [] → Phase w r q
    end_read : w.write_closed ≡ true → r.read_eof ≡ true → messages q ≡ [] → Phase w r q

  record Inv (s : Session Q) : Type 0 where
    stream : s.got ++ flatten (messages s.q) ≡ s.sent
    phase : Phase s.writer s.reader s.q

  module _ (laws : IsMessagePipe ops messages) where
    write_shut :
        (p : MessageBytePipe) (q : Q) (b : List ℕ)
        → p.write_closed ≡ true
        → write ops p q b ≡ ((0, some pipe_write_closed), q)
    unfolding write
    write_shut p q b h = rw h

    -- What a `Write` on an open pipe does.
    abbrev Written : MessageBytePipe → Q → List ℕ → Type 0
    Written p q b =
        (q' : Q) × (write ops p q b ≡ ((length b, none), q'))
        × (flatten (messages q') ≡ flatten (messages q) ++ b)
        × (All NonEmpty (messages q) → All NonEmpty (messages q'))

    write_open : (p : MessageBytePipe) (q : Q) (b : List ℕ) → p.write_closed ≡ false → Written p q b
    unfolding write
    write_open p q [] h = (q, rw h, sym (append-nil (flatten (messages q))), λ a. a)
    write_open p q (c ∷ b) h =
        let (q', e, m) = laws.written q (c ∷ b) in
        let not_empty : (length (c ∷ b) == 0) ≡ false = ground arith in
        (
          q',
          rw (h, not_empty, e),
          rw m (flatten-append (messages q) (c ∷ b)),
          rw m (λ a. All-append NonEmpty (messages q) ((c ∷ b) ∷ []) a (omega arith)),
        )

    read_shut :
        (p : MessageBytePipe) (q : Q) (room : ℕ)
        → p.read_eof ≡ true
        → read ops p q room ≡ (([], some eof), p, q)
    unfolding read
    read_shut p q room f = if_of_true p.read_eof _ _ f

    read_open :
        (p : MessageBytePipe) (q : Q) (room : ℕ)
        → p.read_eof ≡ false
        → read ops p q room ≡ noted ops p (file_read ops q room)
    unfolding read
    read_open p q room f = if_of_false p.read_eof _ _ f

    close_write_shut :
        (p : MessageBytePipe) (q : Q)
        → p.write_closed ≡ true
        → close_write ops p q ≡ (some pipe_write_closed, p, q)
    unfolding close_write
    close_write_shut p q w = if_of_true p.write_closed _ _ w

    close_write_open :
        (p : MessageBytePipe) (q : Q)
        → p.write_closed ≡ false
        → messages q ≡ []
        → (q' : Q) × (close_write ops p q ≡ (none, record p { write_closed = true }, q'))
          × (messages q' ≡ [] ∷ [])
    unfolding close_write flushed end_message
    close_write_open p q w m =
        let (q1, e1, m1) = laws.flushed q m in
        let (q2, e2, m2) = laws.written q1 [] in
        (q2, if_of_false p.write_closed _ _ w ∙ rw (e1, e2), rw m1 at m2)

    read_ok :
        (p : MessageBytePipe) (q : Q) (room : ℕ) (bytes : List ℕ) (q' : Q)
        → p.read_eof ≡ false
        → ops.read_file q room ≡ (bytes, none, q')
        → 0 < length bytes
        → read ops p q room ≡ ((bytes, none), p, q')
    unfolding file_read noted read_result
    read_ok p q room bytes q' f e h =
        let not_empty : (length bytes == 0) ≡ false = ground arith in
        read_open p q room f
        ∙ rw (e, not_empty)
            (ap (λ (t : List ℕ). ((t, none), p, q')) (take-all (length bytes) bytes (omega arith)))

    read_more :
        (p : MessageBytePipe) (q : Q) (room : ℕ) (bytes : List ℕ) (q' : Q)
        → p.read_eof ≡ false
        → ops.read_file q room ≡ (bytes, some more_data, q')
        → read ops p q room ≡ ((bytes, none), p, q')
    unfolding file_read noted read_result
    read_more p q room bytes q' f e =
        read_open p q room f
        ∙ rw e
            (ap (λ (t : List ℕ). ((t, none), p, q')) (take-all (length bytes) bytes (omega arith)))

    read_end :
        (p : MessageBytePipe) (q : Q) (room : ℕ) (q' : Q)
        → p.read_eof ≡ false
        → ops.read_file q room ≡ ([], none, q')
        → 0 < room
        → read ops p q room ≡ (([], some eof), record p { read_eof = true }, q')
    unfolding file_read noted read_result
    read_end p q room q' f e h =
        let room_left : (room == 0) ≡ false = ground arith in
        read_open p q room f ∙ rw (e, room_left)

    -- What a `Read` gives of a message, before the end of the stream.
    data Taken (p : MessageBytePipe) (q : Q) (room : ℕ) (m : List ℕ) (ms : List (List ℕ))
        : Type 0 where
      ended :
          (q' : Q)
          → m ≡ []
          → read ops p q room ≡ (([], some eof), record p { read_eof = true }, q')
          → messages q' ≡ ms
          → Taken p q room m ms
      some_of :
          (bytes : List ℕ) (q' : Q)
          → 0 < length m
          → 0 < length bytes
          → read ops p q room ≡ ((bytes, none), p, q')
          → Consumes bytes (m ∷ ms) (messages q')
          → Taken p q room m ms

    read_message :
        (p : MessageBytePipe) (q : Q) (room : ℕ) (m : List ℕ) (ms : List (List ℕ))
        → p.read_eof ≡ false
        → messages q ≡ m ∷ ms
        → 0 < room
        → Taken p q room m ms
    read_message p q room [] ms f e h =
        let (q', r, k) = laws.read_empty q ms room e h in
        ended q' refl (read_end p q room q' f r h) k
    read_message p q room (b ∷ m) ms f e h =
        let (bytes, x, q', r, l, fits, ok, c) =
          laws.read_some q (b ∷ m) ms room e (omega arith) h in
        elim ok [
          | inl n ↦
              let r' : ops.read_file q room ≡ (bytes, none, q') =
                r ∙ ap (λ (y : Option FileError). (bytes, y, q')) n in
              some_of bytes q' (omega arith) l (read_ok p q room bytes q' f r' l) c
          | inr n ↦
              let r' : ops.read_file q room ≡ (bytes, some more_data, q') =
                r ∙ ap (λ (y : Option FileError). (bytes, y, q')) n in
              some_of bytes q' (omega arith) l (read_more p q room bytes q' f r') c
        ]

    write-Inv : (s : Session Q) (b : List ℕ) → Inv s → Inv (after_write s b)
    write-Inv s b inv = go inv.phase
      where
        kept : s.writer.write_closed ≡ true → Inv (after_write s b)
        kept w =
            rw (write_shut s.writer s.q b w)
              (record { stream = inv.stream ∙ sym (append-nil s.sent); phase = inv.phase })

        go : Phase s.writer s.reader s.q → Inv (after_write s b)
        go (open_phase w r a) =
            (let (q', e, f, k) = write_open s.writer s.q b w in
              rw e (record { stream = added q' f; phase = open_phase w r (k a) }))
          where
            added :
                (q' : Q)
                → flatten (messages q') ≡ flatten (messages s.q) ++ b
                → s.got ++ flatten (messages q') ≡ s.sent ++ take (length b) b
            added q' f =
                rw (f, take-all (length b) b (omega arith), ← inv.stream)
                  (sym (append_assoc s.got (flatten (messages s.q)) b))
        go (end_sent w r m) = kept w
        go (end_read w r m) = kept w

    close_write-Inv : (s : Session Q) → messages s.q ≡ [] → Inv s → Inv (after_close_write s)
    close_write-Inv s m inv = go inv.phase
      where
        kept : s.writer.write_closed ≡ true → Inv (after_close_write s)
        kept w = rw (close_write_shut s.writer s.q w) inv

        go : Phase s.writer s.reader s.q → Inv (after_close_write s)
        go (open_phase w r a) =
            (let (q', e, m') = close_write_open s.writer s.q w m in
              rw e (record { stream = rw m' (rw m at inv.stream); phase = end_sent refl r m' }))
        go (end_sent w r m') = kept w
        go (end_read w r m') = kept w

    read-Inv :
        (s : Session Q) (room : ℕ)
        → 0 < room
        → (s.reader.read_eof ≡ true) ⊎ (messages s.q ≢ [])
        → Inv s
        → Inv (after_read s room)
    read-Inv s room h some_message inv = go inv.phase
      where
        ready : s.reader.read_eof ≡ false → messages s.q ≢ []
        ready f = elim some_message [ inl e ↦ absurd (cc (e, f)) | inr m ↦ m ]

        taken :
            s.writer.write_closed ≡ false
            → s.reader.read_eof ≡ false
            → (m : List ℕ) (ms : List (List ℕ)) → messages s.q ≡ m ∷ ms
            → All NonEmpty (m ∷ ms)
            → Taken s.reader s.q room m ms
            → Inv (after_read s room)
        taken w r m ms e (a, others) (ended q' z x k) = absurd (omega (arith, ap length z))
        taken w r m ms e all (some_of bytes q' l l' x c) = rw x (record {
          stream =
              append_assoc s.got bytes (flatten (messages q'))
              ∙ ap (λ (b : List ℕ). s.got ++ b) (Consumes-flatten c)
              ∙ (rw e at inv.stream);
          phase = open_phase w r (Consumes-NonEmpty c all);
        })

        opened :
            s.writer.write_closed ≡ false
            → s.reader.read_eof ≡ false
            → (ms : List (List ℕ)) → messages s.q ≡ ms
            → All NonEmpty ms
            → Inv (after_read s room)
        opened w r [] e a = absurd (ready r e)
        opened w r (m ∷ ms) e a = taken w r m ms e a (read_message s.reader s.q room m ms r e h)

        at_end :
            s.writer.write_closed ≡ true
            → messages s.q ≡ [] ∷ []
            → Taken s.reader s.q room [] []
            → Inv (after_read s room)
        at_end w m (ended q' z x k) = rw x (record {
          stream = rw (k, append-nil s.got) (rw m at inv.stream);
          phase = end_read w refl k;
        })
        at_end w m (some_of bytes q' l l' x c) = absurd (omega (arith, l))

        go : Phase s.writer s.reader s.q → Inv (after_read s room)
        go (open_phase w r a) = opened w r (messages s.q) refl a
        go (end_sent w r m) = at_end w m (read_message s.reader s.q room [] [] r m h)
        go (end_read w r m) =
            rw (read_shut s.reader s.q room r)
              (record { stream = rw (append-nil s.got) inv.stream; phase = inv.phase })

    Step-Inv : {s t : Session Q} → Step s t → Inv s → Inv t
    Step-Inv {s} (wrote b) inv = write-Inv s b inv
    Step-Inv {s} (did_read room h m) inv = read-Inv s room h m inv
    Step-Inv {s} (closed_write m) inv = close_write-Inv s m inv

    Reach-Inv : {q : Q} {s : Session Q} → Reach q s → Inv s
    Reach-Inv (start m) = record { stream = rw m refl; phase = open_phase refl refl (rw m tt) }
    Reach-Inv (later r st) = Step-Inv st (Reach-Inv r)

    ends :
        (s : Session Q)
        → Inv s
        → s.reader.read_eof ≡ true
        → (s.got ≡ s.sent) × (s.writer.write_closed ≡ true)
    ends s inv h = go inv.phase
      where
        go : Phase s.writer s.reader s.q → (s.got ≡ s.sent) × (s.writer.write_closed ≡ true)
        go (open_phase w r a) = absurd (cc (r, h))
        go (end_sent w r m) = absurd (cc (r, h))
        go (end_read w r m) = (sym (append-nil s.got) ∙ (rw m at inv.stream), w)

    -- A pipe of messages behaves as a stream of bytes, in whatever order the two ends are used and
    -- whatever the sizes of the buffers, if none is empty, be it read in byte mode or in message mode:
    -- the bytes read are those written, in order, less the ones in the unread messages; and the reader
    -- is at EOF only behind `CloseWrite`, when it has read all.
    pub pipe_is_stream :
        {q : Q} {s : Session Q}
        → Reach q s
        → (s.got ++ flatten (messages s.q) ≡ s.sent)
          × (s.reader.read_eof ≡ true → (s.got ≡ s.sent) × (s.writer.write_closed ≡ true))
    pipe_is_stream {s = s} r = let inv = Reach-Inv r in (inv.stream, ends s inv)

    -- While there are unread bytes, a `Read` into a buffer with room gives some of them.
    pub read_progress :
        {q : Q} {s : Session Q}
        → Reach q s
        → (room : ℕ) → 0 < room
        → 0 < length (flatten (messages s.q))
        → 0 < length (read ops s.reader s.q room).0.0
    read_progress {s = s} r room h more = go (Reach-Inv r).phase
      where
        some_bytes :
            {m : List ℕ} {ms : List (List ℕ)}
            → 0 < length m
            → Taken s.reader s.q room m ms
            → 0 < length (read ops s.reader s.q room).0.0
        some_bytes a (ended q' z x k) = absurd (omega (arith, ap length z))
        some_bytes a (some_of bytes q' l l' x c) = rw x l'

        opened :
            s.reader.read_eof ≡ false
            → (ms : List (List ℕ)) → messages s.q ≡ ms
            → All NonEmpty ms
            → 0 < length (read ops s.reader s.q room).0.0
        opened f [] e a = absurd (omega (arith, ap (λ (ms : List (List ℕ)). length (flatten ms)) e))
        opened f (m ∷ ms) e (a, others) = some_bytes a (read_message s.reader s.q room m ms f e h)

        go : Phase s.writer s.reader s.q → 0 < length (read ops s.reader s.q room).0.0
        go (open_phase w f a) = opened f (messages s.q) refl a
        go (end_sent w f m) =
            absurd (omega (arith, ap (λ (ms : List (List ℕ)). length (flatten ms)) m))
        go (end_read w f m) =
            absurd (omega (arith, ap (λ (ms : List (List ℕ)). length (flatten ms)) m))
