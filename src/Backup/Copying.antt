-- ===== src/Backup/Copying.antt =====
-- `io.Copy` from a BackupStreamReader: it reads into a buffer of 32 KiB and writes what it got, until
-- the reader reports EOF. The source fills at most `served` bytes of a buffer at a time, and returns EOF
-- alone, behind its last byte.
use go_winio.Base.{
  ℕ, zero, suc, ◌+◌, ◌-◌, ◌^◌, ◌≤◌, ◌<◌, ◌≡◌, refl, sym, ap, ◌∙◌, arith, List, [], ◌∷◌, ◌++◌,
  append-nil, append_assoc, Option, none, some, length, length-append, take, drop, length-take,
  length-drop, take-append-drop, take-all, drop-all, leb, ◌==◌, if◌then◌else◌, Bool, false,
  Bool-cases, inl, inr, Result, ok, err, panic, le→leb,
}
use go_winio.Io.{IoError, eof, unexpected_eof, short_buffer, failed}
use go_winio.Backup.{
  Sink, sink_write, BackupStreamReader, read, read_limit, read_error, plain_error, lt_int64,
  sub_int64,
}
use go_winio.Backup.Headers.{appended}
use go_winio.Backup.Counts.{read_limit_lem, false_right, sub_int64_lem}

-- `out_of_rounds` is no error of Go: the fuel was not enough.
pub data CopyError : Type 0 where
  of_reader of_target : IoError → CopyError
  out_of_rounds : CopyError

abbrev pub Copied : Type 0
Copied = Result CopyError (ℕ × Sink × BackupStreamReader)

-- An error of the write goes before one of the read.
abbrev pub after_write :
    (BackupStreamReader → Sink → ℕ → Copied)
    → Option IoError
    → Option IoError
    → BackupStreamReader
    → Sink
    → ℕ
    → Copied
after_write again (some x) e r t n = err (of_target x)
after_write again none none r t n = again r t n
after_write again none (some eof) r t n = ok (n, t, r)
after_write again none (some unexpected_eof) r t n = err (of_reader unexpected_eof)
after_write again none (some short_buffer) r t n = err (of_reader short_buffer)
after_write again none (some (failed k)) r t n = err (of_reader (failed k))

unfoldable pub after_read :
    (BackupStreamReader → Sink → ℕ → Copied)
    → Result (Unit {0}) ((List ℕ × Option IoError) × BackupStreamReader)
    → Sink
    → ℕ
    → Copied
unfolding sink_write
after_read again panic t n = panic
after_read again (err u) t n = panic
after_read again (ok (([], e), r)) t n = after_write again none e r t n
after_read again (ok ((b ∷ bs, e), r)) t n =
    let (k, we, t') = sink_write t (b ∷ bs) in after_write again we e r t' (n + k)

abbrev copy_buffer : ℕ
copy_buffer = 32768

unfoldable pub copy_rounds : ℕ → ℕ → BackupStreamReader → Sink → ℕ → Copied
unfolding after_read
copy_rounds served zero r t n = err out_of_rounds
copy_rounds served (suc fuel) r t n =
    after_read (λ r' t' n'. copy_rounds served fuel r' t' n')
      (read r copy_buffer served (plain_error r copy_buffer)) t n

-- A round for each byte that is left, and one for EOF.
unfoldable pub copy_stream : ℕ → BackupStreamReader → Sink → Copied
unfolding copy_rounds
copy_stream served r t = copy_rounds served (suc r.bytes_left) r t 0

take-append-left : (n : ℕ) (xs ys : List ℕ) → n ≤ length xs → take n (xs ++ ys) ≡ take n xs
take-append-left zero xs ys h = refl
take-append-left (suc n) [] ys h = absurd (omega arith)
take-append-left (suc n) (x ∷ xs) ys h =
    ap (λ (t : List ℕ). x ∷ t) (take-append-left n xs ys (omega arith))

drop-append-left : (n : ℕ) (xs ys : List ℕ) → n ≤ length xs → drop n (xs ++ ys) ≡ drop n xs ++ ys
drop-append-left zero xs ys h = refl
drop-append-left (suc n) [] ys h = absurd (omega arith)
drop-append-left (suc n) (x ∷ xs) ys h = drop-append-left n xs ys (omega arith)

read_error_lem :
    (r : BackupStreamReader) (room left : ℕ)
    → 0 < length r.input
    → read_error (plain_error r room) left ≡ (if left == 0 then some eof else none)
unfolding read_error plain_error
read_error_lem r room left h =
    let more : (length r.input == 0) ≡ false = ground arith in rw more refl

abbrev pub at_content : Bool → List ℕ → List ℕ → BackupStreamReader
at_content seekable xs rest = record {
  input = xs ++ rest;
  seekable = seekable;
  bytes_left = length xs;
}

-- One read inside the content of a stream: EOF comes with its last byte.
read_content :
    (seekable : Bool) (xs rest : List ℕ) (served : ℕ)
    → 0 < length xs
    → length xs < 2 ^ 63
    → 0 < served
    → (n : ℕ) × (0 < n)
      × (n ≤ length xs)
      × (read
            (at_content seekable xs rest)
            copy_buffer
            served
            (plain_error (at_content seekable xs rest) copy_buffer)
          ≡ ok (
            (take n xs, if length xs - n == 0 then some eof else none),
            at_content seekable (drop n xs) rest,
          ))
unfolding read
read_content seekable xs rest served p h s =
    let r = at_content seekable xs rest in
    let limit = read_limit r copy_buffer in
    let n = if leb served limit then served else limit in
    let bound = read_limit_lem r copy_buffer h p (omega arith) (omega arith) in
    let fits : (0 < n) × (n ≤ length xs) = ground (arith, bound) in
    let got : take n (xs ++ rest) ≡ take n xs = take-append-left n xs rest fits.1 in
    let size : length (take n xs) ≡ n = omega (arith, length-take n xs, fits.1) in
    let count : sub_int64 (length xs) (length (take n xs)) ≡ length xs - n =
      ap (λ (k : ℕ). sub_int64 (length xs) k) size ∙ sub_int64_lem (length xs) n fits.1 h in
    let more : 0 < length (xs ++ rest) = omega (arith, length-append xs rest) in
    let running : (length xs == 0) ≡ false = ground arith in
    let positive : leb (2 ^ 63) (length xs) ≡ false = ground arith in
    (
      n,
      fits.0,
      fits.1,
      rw (running, positive, false_right (lt_int64 (length xs) copy_buffer))
          (rw
            (
              got,
              drop-append-left n xs rest fits.1,
              count,
              read_error_lem r copy_buffer (length xs - n) more,
            )
            (ap
              (λ (k : ℕ). ok (
                (take n xs, if length xs - n == 0 then some eof else none),
                record { input = drop n xs ++ rest; seekable = seekable; bytes_left = k },
              ))
              (sym (length-drop n xs)))),
    )

Sink-ext : (s t : Sink) → s.written ≡ t.written → s.room ≡ t.room → s ≡ t
Sink-ext s t p q = cc

appended-nil : (t : Sink) → appended t [] ≡ t
appended-nil t = Sink-ext (appended t []) t (append-nil t.written) (omega arith)

pub appended_twice :
    (t : Sink) (xs ys : List ℕ) → appended (appended t xs) ys ≡ appended t (xs ++ ys)
appended_twice t xs ys =
    Sink-ext _ _ (append_assoc t.written xs ys) (omega (arith, length-append xs ys))

-- Bytes that fit are written.
after_read_lem :
    (again : BackupStreamReader → Sink → ℕ → Copied) (got : List ℕ) (e : Option IoError)
    (r : BackupStreamReader) (t : Sink) (k : ℕ)
    → 0 < length got
    → length got ≤ t.room
    → after_read again (ok ((got, e), r)) t k
      ≡ after_write again none e r (appended t got) (k + length got)
unfolding after_read sink_write
after_read_lem again [] e r t k p h = absurd (omega arith)
after_read_lem again (b ∷ bs) e r t k p h = rw (le→leb (length (b ∷ bs)) t.room h) refl

module _ (seekable : Bool) (rest : List ℕ) (served : ℕ) (serves : 0 < served) where
  abbrev done : ℕ → Sink → Copied
  done k t = ok (k, t, at_content seekable [] rest)

  done-ext : (k l : ℕ) (s t : Sink) → k ≡ l → s ≡ t → done k s ≡ done l t
  done-ext k l s t p q = cc

  -- A part of the content was written; the rest is, too, or there is none.
  split_lem :
      (xs : List ℕ) (n : ℕ) (t : Sink) (k : ℕ)
      → done
          (k + length (take n xs) + length (drop n xs))
          (appended (appended t (take n xs)) (drop n xs))
        ≡ done (k + length xs) (appended t xs)
  split_lem xs n t k =
      let whole : take n xs ++ drop n xs ≡ xs = take-append-drop n xs in
      done-ext _ _ _ _
        (omega (arith, length-append (take n xs) (drop n xs), ap (λ (l : List ℕ). length l) whole))
        (appended_twice t (take n xs) (drop n xs) ∙ ap (λ (l : List ℕ). appended t l) whole)

  after_write_lem :
      (again : BackupStreamReader → Sink → ℕ → Copied) (xs : List ℕ) (n : ℕ) (t : Sink) (k : ℕ)
      → n ≤ length xs
      → again
          (at_content seekable (drop n xs) rest)
          (appended t (take n xs))
          (k + length (take n xs))
        ≡ done
            (k + length (take n xs) + length (drop n xs))
            (appended (appended t (take n xs)) (drop n xs))
      → after_write again none
          (if length xs - n == 0 then some eof else none)
          (at_content seekable (drop n xs) rest)
          (appended t (take n xs))
          (k + length (take n xs))
        ≡ done (k + length xs) (appended t xs)
  after_write_lem again xs n t k q ih = elim (Bool-cases (length xs - n == 0)) [
    | inl z ↦
        let full : length xs ≤ n = ground (arith, z) in
        let none_left : drop n xs ≡ [] = drop-all n xs full in
        rw z (rw (none_left, take-all n xs full) refl)
    | inr z ↦ rw z (ih ∙ split_lem xs n t k)
  ]

  copy_rounds_lem :
      (fuel : ℕ) (xs : List ℕ) (t : Sink) (k : ℕ)
      → length xs < fuel
      → length xs < 2 ^ 63
      → length xs ≤ t.room
      → copy_rounds served fuel (at_content seekable xs rest) t k
        ≡ done (k + length xs) (appended t xs)
  unfolding copy_rounds after_read read
  copy_rounds_lem zero xs t k f h m = absurd (omega arith)
  copy_rounds_lem (suc fuel) [] t k f h m =
      done-ext k (k + 0) t (appended t []) (omega arith) (sym (appended-nil t))
  copy_rounds_lem (suc fuel) (x ∷ xs) t k f h m =
      let (n, p, q, e) = read_content seekable (x ∷ xs) rest served (omega arith) h serves in
      let got = take n (x ∷ xs) in
      let size : length got ≡ n = omega (arith, length-take n (x ∷ xs), q) in
      let left : length (drop n (x ∷ xs)) ≡ length (x ∷ xs) - n = length-drop n (x ∷ xs) in
      let again : BackupStreamReader → Sink → ℕ → Copied =
        λ r' t' n'. copy_rounds served fuel r' t' n' in
      ap (λ w. after_read again w t k) e
      ∙ after_read_lem again got _ _ t k (omega (arith, size, p)) (omega (arith, size, q, m))
      ∙ after_write_lem again (x ∷ xs) n t k q (
          copy_rounds_lem fuel (drop n (x ∷ xs)) (appended t got) (k + length got)
            (omega (arith, left, p, f)) (omega (arith, left, h)) (omega (arith, left, size, m)))

  -- With room for the content of a stream, all of it is copied, in whatever pieces it is read.
  pub copy_stream_lem :
      (xs : List ℕ) (t : Sink)
      → length xs < 2 ^ 63
      → length xs ≤ t.room
      → copy_stream served (at_content seekable xs rest) t
        ≡ ok (length xs, appended t xs, at_content seekable [] rest)
  unfolding copy_stream
  copy_stream_lem xs t h m =
      copy_rounds_lem (suc (length xs)) xs t 0 (omega arith) h m
      ∙ done-ext _ _ _ _ (omega arith) refl
