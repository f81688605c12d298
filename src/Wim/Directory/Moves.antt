-- ===== src/Wim/Directory/Moves.antt =====
-- How far the readers of wim/wim.go get: an entry or a stream whose names have whole units takes up as
-- many bytes as its length says.
use go_winio.Base.{
  ℕ, zero, suc, ◌+◌, ◌-◌, ◌*◌, ◌/◌, ◌%◌, ◌^◌, ◌≤◌, ◌<◌, ◌≡◌, refl, ap, ◌∙◌, arith, Bool, true,
  false, List, length, take, drop, drop-drop, length-drop, Option, none, some, leb, ltb, ◌==◌,
  Result, ok, err, panic, Returns, returns, fails, panics, Returns-map, Returns-bind, Returns-if,
  Returns-fail_if,
}
use go_winio.Base.Word.{le_value, le_field, lt_int64}
use mathlib.Core.Path.{subst}
use go_winio.Utf16.{read_units}
use go_winio.Io.{IoError}
use go_winio.Wim.Source.{
  Source, WimError, reading, oper_error, file_name, stream_length_check, stream_entry, not_eof,
  read_bytes, discard,
}
use go_winio.Wim.Resource.{FileData}
use go_winio.Wim.Directory.{
  stream_entry_bytes, stream_entry_size, Stream, File, read_name, find_data, stream_name,
  read_next_stream, stream_rounds, add_stream,
}

-- `n` bytes were read, and no more.
abbrev pub Moves : ℕ → Source → Source → Type 0
Moves n s s' = (n ≤ length s.bytes) × (s' ≡ record s { bytes = drop n s.bytes })

pub Moves-trans : (m n : ℕ) (s s1 s2 : Source) → Moves m s s1 → Moves n s1 s2 → Moves (m + n) s s2
Moves-trans m n s s1 s2 (p, e) (q, f) =
    let rest : length s1.bytes ≡ length s.bytes - m =
      ap (λ (x : Source). length x.bytes) e ∙ length-drop m s.bytes in
    (
      omega arith,
      f
          ∙ ap (λ (x : Source). record x { bytes = drop n x.bytes }) e
          ∙ ap (λ (b : List ℕ). record s { bytes = b }) (drop-drop m n s.bytes),
    )

pub Moves-eq : (m n : ℕ) (s s' : Source) → m ≡ n → Moves m s s' → Moves n s s'
Moves-eq m n s s' e p = subst (λ (k : ℕ). Moves k s s') e p

abbrev pub Read : ℕ → Source → List ℕ × Source → Type 0
Read n s (bs, s') = Moves n s s' × (bs ≡ take n s.bytes)

pub read_bytes-Read :
    (fault : IoError → WimError) (n : ℕ) (s : Source) → Returns (Read n s) (read_bytes fault n s)
unfolding read_bytes
read_bytes-Read fault n s =
    Returns-if (leb n (length s.bytes)) (λ c. returns _ ((ground (arith, c), refl), refl))
      (λ c. fails _)

pub discard-Moves :
    (fault : IoError → WimError) (n : ℕ) (s : Source) → Returns (Moves n s) (discard fault n s)
unfolding discard
discard-Moves fault n s =
    Returns-if (leb n (length s.bytes)) (λ c. returns _ (ground (arith, c), refl)) (λ c. fails _)

pub read_name-Moves :
    (n : ℕ) (s : Source) → Returns (λ (us, s'). Moves (n * 2) s s') (read_name n s)
unfolding read_name
read_name-Moves n s =
    Returns-bind (read_bytes-Read (oper_error file_name) (n * 2) s)
      (λ (bs, s1) (m, _). units (read_units n bs) s1 m)
  where
    units :
        (u : Option (List ℕ × List ℕ)) (s1 : Source)
        → Moves (n * 2) s s1
        → Returns {E = WimError}
            (λ (us, s'). Moves (n * 2) s s')
            (elim u [ none ↦ panic | some (vs, _) ↦ ok (vs, s1) ])
    units none s1 m = panics
    units (some (vs, r)) s1 m = returns _ m

stream_name-Moves :
    (n left : ℕ) (s : Source)
    → n % 2 ≡ 0
    → Returns
        (λ ((us, left'), s'). Moves n s s' × (n ≤ left) × (left' ≡ left - n))
        (stream_name n left s)
unfolding stream_name
stream_name-Moves n left s even =
    Returns-if (ltb n (2 ^ 15))
      (λ c. Returns-fail_if (ltb left n) _ λ fits.
        Returns-bind (read_name-Moves (n / 2) s) λ (us, s1) m.
          let whole : n / 2 * 2 ≡ n = omega arith in
          returns _ ((rw whole at m), ground (arith, fits), refl))
      (λ c. Returns-if (n == 2 ^ 16 - 1) (λ odd. absurd (odd_lem n even odd)) (λ _. panics))
  where
    odd_lem : (n : ℕ) → n % 2 ≡ 0 → (n == 2 ^ 16 - 1) ≡ true → ⊥
    odd_lem n even odd = ground arith

pub find_data-Any : {A : Type 0} (r : Result WimError A) → Returns (λ _. Unit {0}) r
find_data-Any (ok a) = returns a tt
find_data-Any (err e) = fails e
find_data-Any panic = panics

-- What a call returned, if it returned, has a property.
abbrev pub Onward : {A : Type 0} → (A → Type 0) → Result WimError A → Type 0
Onward P (ok a) = P a
Onward P (err e) = Unit {0}
Onward P panic = Unit {0}

-- The length of the name of the stream that stands at a reader.
abbrev pub stream_name_length : Source → ℕ
stream_name_length s = le_field 28 2 (take stream_entry_bytes (drop 8 s.bytes))

module _ (decode : List ℕ → List ℕ) (files : FileData) where
  pub read_next_stream-Moves :
      (s : Source)
      → stream_name_length s % 2 ≡ 0
      → Returns (λ ((t, len), s'). Moves len s s') (read_next_stream decode files s)
  unfolding read_next_stream
  read_next_stream-Moves s even =
      Returns-bind (read_bytes-Read (λ e. oper_error stream_length_check (not_eof e)) 8 s)
        λ (lb, s1) (m1, e1). Returns-fail_if (lt_int64 (le_value lb) stream_entry_size) _ λ long.
          Returns-bind (read_bytes-Read (oper_error stream_entry) stream_entry_bytes s1)
            λ (eb, s2) (m2, e2).
              let n = le_field 28 2 eb in
              let start : eb ≡ take stream_entry_bytes (drop 8 s.bytes) =
                e2 ∙ ap (λ (x : Source). take stream_entry_bytes x.bytes) m1.1 in
              let whole : n % 2 ≡ 0 = ap (λ (b : List ℕ). le_field 28 2 b % 2) start ∙ even in
              Returns-bind (stream_name-Moves n (le_value lb - stream_entry_size) s2 whole)
                λ ((us, left), s3) (m3, fits, e3).
                  Returns-bind
                    (find_data-Any (find_data stream_entry files (decode us) (take 20 (drop 8 eb))))
                    λ offset _.
                      Returns-bind (discard-Moves (λ e. reading (not_eof e)) left s3) λ s4 m4.
                        let after_start : Moves (8 + stream_entry_bytes) s s2 =
                          Moves-trans 8 stream_entry_bytes s s1 s2 m1 m2 in
                        let behind : Moves (n + left) s2 s4 = Moves-trans n left s2 s3 s4 m3 m4 in
                        let total : 8 + stream_entry_bytes + (n + left) ≡ le_value lb =
                          ground (arith, long, fits, e3) in
                        returns _ (
                          Moves-eq _ _ s s4 total (
                            Moves-trans (8 + stream_entry_bytes) (n + left) s s2 s4 after_start
                              behind))

  -- The names of the streams that stand at a reader have whole units.
  unfoldable pub EvenStreams : ℕ → Source → Type 0
  EvenStreams zero s = Unit {0}
  EvenStreams (suc n) s =
      (stream_name_length s % 2 ≡ 0)
      × Onward (λ (_, s1). EvenStreams n s1) (read_next_stream decode files s)

  -- The lengths of what was read are added to those before.
  abbrev Adds : ℕ → Source → (File × ℕ) × Source → Type 0
  Adds len s ((g, total), s') = (m : ℕ) × (total ≡ len + m) × Moves m s s'

  -- What the loop does with the next stream.
  stream_round :
      (again : File → ℕ → Source → Result WimError ((File × ℕ) × Source))
      → (More : Source → Type 0)
      → ((f : File) (len : ℕ) (s : Source)
          → len + length s.bytes < 2 ^ 63
          → More s
          → Returns (Adds len s) (again f len s))
      → (r : Result WimError ((Stream × ℕ) × Source)) (first : Bool) (f : File) (len : ℕ)
        (s : Source)
      → len + length s.bytes < 2 ^ 63
      → Returns (λ ((t, k), s'). Moves k s s') r
      → Onward (λ (_, s1). More s1) r
      → Returns (Adds len s) (elim r [
        | ok ((t, more), s1) ↦ again (add_stream first t f) ((len + more) % 2 ^ 64) s1
        | err e ↦ err e
        | panic ↦ panic
      ])
  stream_round again More ih (ok ((t, k), s1)) first f len s h (returns _ m) more =
      let left : length s1.bytes ≡ length s.bytes - k =
        ap (λ (x : Source). length x.bytes) m.1 ∙ length-drop k s.bytes in
      let sum : (len + k) % 2 ^ 64 ≡ len + k = omega (arith, h, m.0) in
      Returns-map
        (λ ((g, total), s') (j, e, m').
          (k + j, omega (arith, e, sum), Moves-trans k j s s1 s' m m'))
        (ih (add_stream first t f) ((len + k) % 2 ^ 64) s1 (omega (arith, sum, left, h, m.0)) more)
  stream_round again More ih (err e) first f len s h r more = fails e
  stream_round again More ih panic first f len s h r more = panics

  pub stream_rounds-Moves :
      (n : ℕ) (first : Bool) (f : File) (len : ℕ) (s : Source)
      → len + length s.bytes < 2 ^ 63
      → EvenStreams n s
      → Returns (Adds len s) (stream_rounds decode files n first f len s)
  unfolding stream_rounds EvenStreams
  stream_rounds-Moves zero first f len s h even = returns _ (0, omega arith, (omega arith, refl))
  stream_rounds-Moves (suc n) first f len s h (even, later) =
      stream_round (λ g k t. stream_rounds decode files n false g k t) (EvenStreams n)
        (λ g k t. stream_rounds-Moves n false g k t) (read_next_stream decode files s) first f len s
        h (read_next_stream-Moves s even) later
