-- ===== src/Backup/Counts.antt =====
-- What `Write` and `Read` do to the count of the bytes that are left of a stream.
use go_winio.Base.{
  ℕ, ◌+◌, ◌-◌, ◌^◌, ◌≤◌, ◌<◌, ◌≡◌, ◌≢◌, refl, sym, ap, arith, List, [], ◌∷◌, ◌++◌, append-nil,
}
use go_winio.Base.{
  Option, none, some, length, take, drop, take-all, take-append-drop, length-take, ltb, leb, ◌==◌,
  if◌then◌else◌, ◌&&◌, Bool, true, false, Bool-cases, inl, inr, ok, panic,
}
use go_winio.Io.{IoError, eof, unexpected_eof}
use go_winio.Utf16.{utf16_encode}
use go_winio.Backup.Headers.{Representable, header_bytes, next-header_bytes}
use go_winio.Backup.{
  BackupHeader, next, Sink, sink_write, BackupError, too_many, BackupStreamWriter, write,
  BackupStreamReader, read, read_limit, read_error, lt_int64, sub_int64,
}

-- What `Write` answers: a prefix of the bytes is written, and the count goes down by its length; there
-- is no error only if all of them are written; and if they are more than what is left, none is.
pub record Accounted (w : BackupStreamWriter) (bytes : List ℕ)
    (r : ℕ × Option BackupError × BackupStreamWriter) : Type 0 where
  pub count : r.0 + r.2.bytes_left ≡ w.bytes_left
  pub written : r.2.w.written ≡ w.w.written ++ take r.0 bytes
  pub complete : r.1 ≡ none → r.0 ≡ length bytes
  pub refused :
      w.bytes_left < length bytes → r ≡ (0, some (too_many (length bytes - w.bytes_left)), w)

lt_int64_lem : (a b : ℕ) → a < 2 ^ 63 → b < 2 ^ 63 → lt_int64 a b ≡ ltb a b
lt_int64_lem a b h k = ground arith

some-ne-none : {A : Type 0} (a : A) → some a ≡ none → ⊥
some-ne-none a h = cc

refused_case :
    (w : BackupStreamWriter) (bytes : List ℕ) (n : ℕ)
    → n ≡ length bytes - w.bytes_left
    → Accounted w bytes (0, some (too_many n), w)
refused_case w bytes n e = record {
  count = omega arith;
  written = sym (append-nil w.w.written);
  complete = λ z. absurd (some-ne-none _ z);
  refused = λ _. ap (λ (k : ℕ). (0, some (too_many k), w)) e;
}

-- The sink took the first `n` bytes.
accepted_case :
    (w : BackupStreamWriter) (bytes : List ℕ) (n left : ℕ) (e : Option BackupError) (s : Sink)
    → length bytes ≤ w.bytes_left
    → n + left ≡ w.bytes_left
    → s.written ≡ w.w.written ++ take n bytes
    → (e ≡ none → n ≡ length bytes)
    → Accounted w bytes (n, e, record { w = s; bytes_left = left })
accepted_case w bytes n left e s h p q c = record {
  count = p;
  written = q;
  complete = c;
  refused = λ k. absurd (omega arith);
}

pub sub_int64_lem : (a b : ℕ) → b ≤ a → a < 2 ^ 63 → sub_int64 a b ≡ a - b
sub_int64_lem a b h k = omega arith

-- On counts that int64 holds, `Write` accounts for every byte, whatever room the target has.
pub write-Accounted :
    (w : BackupStreamWriter) (bytes : List ℕ)
    → w.bytes_left < 2 ^ 63
    → length bytes < 2 ^ 63
    → Accounted w bytes (write w bytes)
unfolding write sink_write
write-Accounted w bytes h k =
    rw (lt_int64_lem w.bytes_left (length bytes) h k)
      (elim (Bool-cases (ltb w.bytes_left (length bytes))) [
        | inl e ↦
            rw e
              (refused_case w bytes _ (sub_int64_lem (length bytes) w.bytes_left (ground arith) k))
        | inr e ↦ rw e (elim (Bool-cases (leb (length bytes) w.w.room)) [
          | inl f ↦ rw f (
              accepted_case w bytes (length bytes) _ none _ (ground arith) (ground arith)
                (ap (λ (bs : List ℕ). w.w.written ++ bs)
                  (sym (take-all (length bytes) bytes (omega arith))))
                (λ _. refl))
          | inr f ↦ rw f (
              accepted_case w bytes w.w.room _ _ _ (ground arith) (ground arith) refl
                (λ z. absurd (some-ne-none _ z)))
        ])
      ])

empty_input : (xs : List ℕ) → xs ≡ [] → (length xs == 0) ≡ true
empty_input [] e = refl
empty_input (x ∷ xs) e = absurd (cons-ne-nil e)
  where
    cons-ne-nil : x ∷ xs ≡ [] → ⊥
    cons-ne-nil h = cc

pub read_limit_lem :
    (r : BackupStreamReader) (room : ℕ)
    → r.bytes_left < 2 ^ 63
    → 0 < r.bytes_left
    → 0 < room
    → room < 2 ^ 63
    → (read_limit r room ≤ room) × (read_limit r room ≤ r.bytes_left) × (0 < read_limit r room)
unfolding read_limit
read_limit_lem r room h p q k = rw (lt_int64_lem r.bytes_left room h k) (ground arith)

pub false_right : (b : Bool) → (b && false) ≡ false
false_right true = refl
false_right false = refl

-- What `Read` makes of the source's error, when it leaves so many bytes.
pub record Answered (e : Option IoError) (left : ℕ) (x : Option IoError) : Type 0 where
  pub end_of_source : e ≡ some eof → x ≡ some unexpected_eof
  pub other_error : (f : IoError) → e ≡ some f → f ≢ eof → x ≡ some f
  pub last_byte : e ≡ none → left ≡ 0 → x ≡ some eof
  pub more_bytes : e ≡ none → left ≢ 0 → x ≡ none

answered : (e : Option IoError) (left : ℕ) → Answered e left (read_error e left)
unfolding read_error
answered none left = record {
  end_of_source = λ h. cc;
  other_error = λ f h d. cc;
  last_byte = λ h z. ground (arith, z);
  more_bytes = λ h d. ground (arith, d);
}
answered (some eof) left = record {
  end_of_source = λ h. refl;
  other_error = λ f h d. absurd (d (cc));
  last_byte = λ h z. cc;
  more_bytes = λ h d. cc;
}
answered (some e) left = record {
  end_of_source = λ h. cc;
  other_error = λ f h d. h;
  last_byte = λ h z. cc;
  more_bytes = λ h d. cc;
}

-- `Read` with bytes left and a buffer, however many bytes the source serves and whatever error it returns
-- with them, gives a prefix of the input that fits, and the count goes down by its length. An EOF of the
-- source becomes ErrUnexpectedEOF, also with the last byte, and another error is passed on; without one
-- `Read` reports EOF with the last byte, and before it no error.
pub read_accounts :
    (r : BackupStreamReader) (room served : ℕ) (e : Option IoError)
    → r.bytes_left < 2 ^ 63
    → 0 < r.bytes_left
    → 0 < room
    → room < 2 ^ 63
    → (got : List ℕ) × (x : Option IoError) × (r' : BackupStreamReader) × (read r room served e
        ≡ ok ((got, x), r'))
      × (got ++ r'.input ≡ r.input)
      × (length got + r'.bytes_left ≡ r.bytes_left)
      × (length got ≤ room)
      × Answered e r'.bytes_left x
unfolding read
read_accounts r room served e h p q k =
    let limit = read_limit r room in
    let n = if leb served limit then served else limit in
    let got = take n r.input in
    let left = sub_int64 r.bytes_left (length got) in
    let bound = read_limit_lem r room h p q k in
    let shorter : (length got ≤ room) × (length got ≤ r.bytes_left) =
      ground (arith, length-take n r.input) in
    let count : left ≡ r.bytes_left - length got =
      sub_int64_lem r.bytes_left (length got) (omega arith) h in
    let running : (r.bytes_left == 0) ≡ false = ground arith in
    let positive : leb (2 ^ 63) r.bytes_left ≡ false = ground arith in
    (
      got,
      read_error e left,
      record r { input = drop n r.input; bytes_left = left },
      rw (running, positive, false_right (lt_int64 r.bytes_left room)),
      take-append-drop n r.input,
      omega arith,
      omega arith,
      answered e left,
    )

read_negative :
    (r : BackupStreamReader) (room served : ℕ) (e : Option IoError)
    → 2 ^ 63 ≤ r.bytes_left
    → r.bytes_left < 2 ^ 64
    → room < 2 ^ 63
    → read r room served e ≡ panic
unfolding read
read_negative r room served e h k q = ground arith

-- A header whose size is negative in int64, as that of a sparse block on the wire whose size is less
-- than the eight bytes of its offset, is returned by `Next`, and then `Read` panics.
pub read_negative_panics :
    (utf16_to_string : List ℕ → List ℕ) (hdr : BackupHeader) (rest : List ℕ) (seekable : Bool)
    (room served : ℕ) (x : Option IoError)
    → Representable hdr
    → utf16_to_string (utf16_encode hdr.name) ≡ hdr.name
    → 2 ^ 63 ≤ hdr.size
    → room < 2 ^ 63
    → (r : BackupStreamReader) × (next utf16_to_string
          (record { input = header_bytes hdr ++ rest; seekable = seekable; bytes_left = 0 })
        ≡ ok (hdr, r))
      × (read r room served x ≡ panic)
read_negative_panics u hdr rest seekable room served x p e h k = (
  record { input = rest; seekable = seekable; bytes_left = hdr.size },
  next-header_bytes u hdr rest seekable p e,
  read_negative _ room served x h p.size k,
)
