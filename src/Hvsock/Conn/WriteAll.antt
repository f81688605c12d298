-- ===== src/Hvsock/Conn/WriteAll.antt =====
-- `Write` ends, and what it says it sent was taken by the socket.
use go_winio.Base.{
  ℕ, zero, suc, ◌+◌, ◌-◌, ◌≤◌, ◌<◌, ◌≡◌, refl, sym, ◌∙◌, arith, List, [], ◌∷◌, ◌++◌, append-nil,
  append_assoc, length, take, drop, length-drop, take-all, ◌%◌, ◌^◌, false, Option, none, some,
  Bool-cases, inl, inr, take_split,
}
use go_winio.File.{FileError, file_closed}
use go_winio.Hvsock.Conn.{
  after_once, SocketOps, ConnError, op_err, write_once, write_loop, write, sent,
}

-- WSASend on a stream socket: without an error it takes at least one of the bytes that it is given, and
-- says how many; with one it may have taken some. `taken` is what the socket took so far.
pub record IsSocket {S : Type 0} (ops : SocketOps S) (taken : S → List ℕ) : Type 0 where
  pub sends :
      (s s' : S) (b : List ℕ) (n : ℕ)
      → 0 < length b
      → ops.send s b ≡ (n, none, s')
      → (0 < n) × (n ≤ length b) × (taken s' ≡ taken s ++ take n b)
  pub fails :
      (s s' : S) (b : List ℕ) (n : ℕ) (e : FileError)
      → ops.send s b ≡ (n, some e, s')
      → (k : ℕ) × (k ≤ length b) × (taken s' ≡ taken s ++ take k b)

module _ {S : Type 0} (ops : SocketOps S) (taken : S → List ℕ) (laws : IsSocket ops taken) where
  -- What one send comes to.
  data Sends (s : S) (b : List ℕ) : Type 0 where
    failed :
        (e : ConnError) (s' : S)
        → write_once ops s b ≡ ((0, some e), s')
        → (k : ℕ) × (k ≤ length b) × (taken s' ≡ taken s ++ take k b)
        → Sends s b
    took :
        (n : ℕ) (s' : S)
        → write_once ops s b ≡ ((n, none), s')
        → 0 < n
        → n ≤ length b
        → taken s' ≡ taken s ++ take n b
        → Sends s b

  write_once-Sends : (s : S) (b : List ℕ) → 0 < length b → length b < 2 ^ 32 → Sends s b
  unfolding write_once sent
  write_once-Sends s b h fits = elim (Bool-cases (ops.closing s)) [
    | inl c ↦ failed (op_err file_closed) s (rw c) (0, omega arith, sym (append-nil (taken s)))
    | inr c ↦ go (ops.send s b) refl c
  ]
    where
      whole : take (length b % 2 ^ 32) b ≡ b
      whole = take-all (length b % 2 ^ 32) b (omega (arith, fits))

      go : (x : ℕ × Option FileError × S) → ops.send s b ≡ x → ops.closing s ≡ false → Sends s b
      go (n, some e, s') x c = failed (op_err e) s' (rw (c, whole, x)) (laws.fails s s' b n e x)
      go (n, none, s') x c =
          (let (p, q, r) = laws.sends s s' b n h x in took n s' (rw (c, whole, x)) p q r)

  -- The outcome of `Write` from `t` bytes on, of which the socket took `gone`.
  record Outcome (s : S) (b : List ℕ) (t : ℕ) (r : (ℕ × Option ConnError) × S) : Type 0 where
    pub ahead : t ≤ r.0.0
    pub bounded : r.0.0 ≤ t + length b
    pub complete : r.0.1 ≡ none → r.0.0 ≡ t + length b
    pub gone : ℕ
    pub reported : r.0.0 - t ≤ gone
    pub inside : gone ≤ length b
    pub prefix : taken r.1 ≡ taken s ++ take gone b

  Looped : ℕ → S → List ℕ → ℕ → Type 0
  Looped fuel s b t =
      (r : (ℕ × Option ConnError) × S) × (write_loop ops fuel s b t ≡ some r) × Outcome s b t r

  after_send :
      (s s' : S) (b : List ℕ) (t n : ℕ) (r : (ℕ × Option ConnError) × S)
      → n ≤ length b
      → taken s' ≡ taken s ++ take n b
      → Outcome s' (drop n b) (t + n) r
      → Outcome s b t r
  after_send s s' b t n r h e o = record {
    ahead = omega (arith, o.ahead);
    bounded = omega (arith, o.bounded, length-drop n b);
    complete = λ c. omega (arith, o.complete c, length-drop n b);
    gone = n + o.gone;
    reported = omega (arith, o.ahead, o.reported);
    inside = omega (arith, o.inside, length-drop n b);
    prefix =
        o.prefix
        ∙ (rw (e, take_split n o.gone b)
            (append_assoc (taken s) (take n b) (take o.gone (drop n b))));
  }

  write_loop-Looped :
      (fuel : ℕ) (s : S) (b : List ℕ) (t : ℕ)
      → length b ≤ fuel
      → length b < 2 ^ 32
      → Looped fuel s b t
  unfolding Looped write_loop after_once
  write_loop-Looped fuel s [] t h fits = (
    ((t, none), s),
    refl,
    record {
      ahead = omega arith;
      bounded = omega arith;
      complete = λ c. omega arith;
      gone = 0;
      reported = omega arith;
      inside = omega arith;
      prefix = sym (append-nil (taken s));
    },
  )
  write_loop-Looped zero s (c ∷ b) t h fits = absurd (omega arith)
  write_loop-Looped (suc fuel) s (c ∷ b) t h fits =
      go (write_once-Sends s (c ∷ b) (omega arith) fits)
        (λ s' b' t' h' f'. write_loop-Looped fuel s' b' t' h' f')
    where
      go :
          Sends s (c ∷ b)
          → ((s' : S) (b' : List ℕ) (t' : ℕ)
              → length b' ≤ fuel
              → length b' < 2 ^ 32
              → Looped fuel s' b' t')
          → Looped (suc fuel) s (c ∷ b) t
      go (failed e s' x (k, inside, y)) rest = (
        ((t + 0, some e), s'),
        rw x,
        record {
          ahead = omega arith;
          bounded = omega arith;
          complete = λ c. cc;
          gone = k;
          reported = omega arith;
          inside = inside;
          prefix = y;
        },
      )
      go (took n s' x p q y) rest =
          (let (r, z, o) =
              rest s' (drop n (c ∷ b)) (t + n) (omega (arith, length-drop n (c ∷ b)))
                (omega (arith, length-drop n (c ∷ b), fits)) in
            (r, rw x z, after_send s s' (c ∷ b) t n r q y o))

  -- For a buffer of fewer than 2^32 bytes, `Write` needs no more rounds than there are bytes. What the
  -- socket took is a prefix of the bytes, at least as long as the length that `Write` returns; without an
  -- error that length is all of them, and with one the last send may have taken more.
  pub write_all :
      (s : S) (b : List ℕ)
      → length b < 2 ^ 32
      → (n m : ℕ) × (e : Option ConnError) × (s' : S) × (write ops s b ≡ some ((n, e), s'))
        × (n ≤ m)
        × (m ≤ length b)
        × (e ≡ none → n ≡ length b)
        × (taken s' ≡ taken s ++ take m b)
  unfolding write Looped
  write_all s b fits =
      let (r, z, o) = write_loop-Looped (length b) s b 0 (omega arith) fits in
      (
        r.0.0,
        o.gone,
        r.0.1,
        r.1,
        z,
        omega (arith, o.reported),
        o.inside,
        (λ c. omega (arith, o.complete c)),
        o.prefix,
      )
