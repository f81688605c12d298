-- ===== src/Backup/Headers.antt =====
-- A header is read back from what `WriteHeader` writes.
use go_winio.Base.{
  ℕ, ◌+◌, ◌-◌, ◌*◌, ◌/◌, ◌%◌, ◌^◌, ◌≤◌, ◌<◌, ◌≡◌, refl, sym, ap, arith, List, [], ◌∷◌, ◌++◌,
  append-nil, append_assoc,
}
use go_winio.Base.{
  none, length, length-append, ◌==◌, if◌then◌else◌, not, Bool, true, false, Bool-cases, inl, inr,
  le→leb, ok, Result,
}
use go_winio.Base.Word.{le64, of_le32}
use go_winio.Base.{◌≢◌}
use go_winio.Backup.{backup_sparse_block, BackupHeader, BackupError, Sink, sink_write}
use go_winio.Backup.{
  BackupStreamWriter, stream_id_bytes, then_write, set_left, write_header, BackupStreamReader,
  skip_rest,
}
use go_winio.Utf16.{utf16_encode, unit_bytes, read_units-unit_bytes, utf16_encode_units}
use go_winio.Backup.{read_stream_id, read_name, finish_header, next}

le32_lem :
    (n : ℕ)
    → n < 2 ^ 32
    → of_le32 (n % 256) (n / 256 % 256) (n / 65536 % 256) (n / 16777216 % 256) ≡ n
le32_lem n h = omega arith

low_half :
    (n : ℕ) → of_le32 (n % 256) (n / 256 % 256) (n / 65536 % 256) (n / 16777216 % 256) ≡ n % 2 ^ 32
low_half n = omega arith

le64_lem :
    (n : ℕ)
    → n < 2 ^ 64
    → of_le32 (n % 256) (n / 256 % 256) (n / 65536 % 256) (n / 16777216 % 256)
        + of_le32
            (n / 2 ^ 32 % 256)
            (n / 2 ^ 32 / 256 % 256)
            (n / 2 ^ 32 / 65536 % 256)
            (n / 2 ^ 32 / 16777216 % 256)
          * 2 ^ 32
      ≡ n
le64_lem n h = omega (arith, low_half n, low_half (n / 2 ^ 32))

abbrev pub wanted_bytes : Bool → List ℕ → List ℕ
wanted_bytes true bytes = bytes
wanted_bytes false bytes = []

-- The bytes of a header on the wire.
unfoldable pub header_bytes : BackupHeader → List ℕ
header_bytes hdr =
    let units = utf16_encode hdr.name in
    stream_id_bytes hdr units
    ++ (wanted_bytes (not (length units == 0)) (unit_bytes units)
        ++ wanted_bytes (hdr.id == backup_sparse_block) (le64 hdr.offset))

abbrev pub appended : Sink → List ℕ → Sink
appended s bytes = record { written = s.written ++ bytes; room = s.room - length bytes }

appended_nil : (s : Sink) → s ≡ appended s []
appended_nil s = let e : s.room - 0 ≡ s.room = omega arith in rw (append-nil s.written, e)

then_write_lem :
    (s : Sink) (left : ℕ) (wanted : Bool) (bytes : List ℕ)
    → length (wanted_bytes wanted bytes) ≤ s.room
    → then_write (none, record { w = s; bytes_left = left }) wanted bytes
      ≡ (none, record { w = appended s (wanted_bytes wanted bytes); bytes_left = left })
unfolding sink_write
then_write_lem s left true bytes h = rw (le→leb (length bytes) s.room h)
then_write_lem s left false bytes h =
    ap (λ (x : Sink). (none, record { w = x; bytes_left = left })) (appended_nil s)

abbrev wire_size : BackupHeader → ℕ
wire_size hdr = if hdr.id == backup_sparse_block then (hdr.size + 8) % 2 ^ 64 else hdr.size

wire_size_bound : (hdr : BackupHeader) → hdr.size < 2 ^ 64 → wire_size hdr < 2 ^ 64
wire_size_bound hdr h = ground arith

read_stream_id-bytes :
    (hdr : BackupHeader) (units rest : List ℕ)
    → hdr.id < 2 ^ 32
    → hdr.attributes < 2 ^ 32
    → hdr.size < 2 ^ 64
    → read_stream_id (stream_id_bytes hdr units ++ rest)
      ≡ ok (
        record {
          stream_id = hdr.id;
          attributes = hdr.attributes;
          size = wire_size hdr;
          name_size = length units * 2 % 2 ^ 32;
        },
        rest,
      )
unfolding read_stream_id stream_id_bytes
read_stream_id-bytes hdr units rest hi ha hs = rw (
  le32_lem hdr.id hi,
  le32_lem hdr.attributes ha,
  le64_lem (wire_size hdr) (wire_size_bound hdr hs),
  le32_lem (length units * 2 % 2 ^ 32) (omega arith),
)

-- What `WriteHeader` does with room enough: the bytes of the header are written, and the stream of
-- its size begins.
write_header-bytes :
    (w : BackupStreamWriter) (hdr : BackupHeader)
    → w.bytes_left ≡ 0
    → length (header_bytes hdr) ≤ w.w.room
    → (s : Sink) × (write_header w hdr ≡ (none, record { w = s; bytes_left = hdr.size }))
      × (s.written ≡ w.w.written ++ header_bytes hdr)
unfolding write_header set_left header_bytes
write_header-bytes w hdr e h =
    let units = utf16_encode hdr.name in
    let a = stream_id_bytes hdr units in
    let b = wanted_bytes (not (length units == 0)) (unit_bytes units) in
    let c = wanted_bytes (hdr.id == backup_sparse_block) (le64 hdr.offset) in
    let room : length a + (length b + length c) ≤ w.w.room =
      omega (arith, length-append a (b ++ c), length-append b c) in
    (
      appended (appended (appended w.w a) b) c,
      rw e (
          rw (then_write_lem w.w 0 true a (omega arith)) (
            rw
              (then_write_lem (appended w.w a) 0 (not (length units == 0)) (unit_bytes units)
                (omega arith))
              (rw (
                then_write_lem (appended (appended w.w a) b) 0 (hdr.id == backup_sparse_block)
                  (le64 hdr.offset) (omega arith))))),
      simp append_assoc,
    )

encode_rune_cons : (c : ℕ) (s : List ℕ) → length (utf16_encode (c ∷ s)) ≢ 0
encode_rune_cons c s e = absurd (omega (arith, (utf16_encode_units (c ∷ s)).1))

-- The name that the reader takes from the units of the writer.
read_name-wanted :
    (utf16_to_string : List ℕ → List ℕ) (name rest : List ℕ)
    → length (utf16_encode name) * 2 < 2 ^ 32
    → utf16_to_string (utf16_encode name) ≡ name
    → read_name utf16_to_string (length (utf16_encode name) * 2 % 2 ^ 32) (
        wanted_bytes (not (length (utf16_encode name) == 0)) (unit_bytes (utf16_encode name))
        ++ rest)
      ≡ ok (name, rest)
unfolding read_name
read_name-wanted u [] rest h e = unfold utf16_encode in refl
read_name-wanted u (c ∷ s) rest h e =
    let us = utf16_encode (c ∷ s) in
    let some_units : (length us == 0) ≡ false = ground (arith, encode_rune_cons c s) in
    let some_size : (length us * 2 % 2 ^ 32 == 0) ≡ false = ground (arith, encode_rune_cons c s) in
    let half : length us * 2 % 2 ^ 32 / 2 ≡ length us = omega arith in
    rw (some_units, some_size, half)
      (rw (read_units-unit_bytes us rest (utf16_encode_units (c ∷ s)).0)
        (ap (λ (t : List ℕ). ok (t, rest)) e))

-- The headers that survive the trip: their fields fit, and only a sparse block has an offset.
pub record Representable (hdr : BackupHeader) : Type 0 where
  pub id : hdr.id < 2 ^ 32
  pub attributes : hdr.attributes < 2 ^ 32
  pub size : hdr.size < 2 ^ 64
  pub offset : hdr.offset < 2 ^ 64
  pub name : length (utf16_encode hdr.name) * 2 < 2 ^ 32
  pub no_offset : hdr.id ≢ backup_sparse_block → hdr.offset ≡ 0

sub8 : (n : ℕ) → n < 2 ^ 64 → ((n + 8) % 2 ^ 64 + 2 ^ 64 - 8) % 2 ^ 64 ≡ n
sub8 n h = omega arith

finish_header_lem :
    (hdr : BackupHeader) (rest : List ℕ) (r : BackupStreamReader) (name_size : ℕ)
    → Representable hdr
    → finish_header
        (record {
          stream_id = hdr.id;
          attributes = hdr.attributes;
          size = wire_size hdr;
          name_size = name_size;
        })
        hdr.name
        r
        (wanted_bytes (hdr.id == backup_sparse_block) (le64 hdr.offset) ++ rest)
      ≡ ok (hdr, record r { input = rest; bytes_left = hdr.size })
unfolding finish_header
finish_header_lem hdr rest r name_size p = elim (Bool-cases (hdr.id == backup_sparse_block)) [
  | inl e ↦ rw (e, le64_lem hdr.offset p.offset) (back (sub8 hdr.size p.size))
  | inr e ↦ rw e (
      ap (λ (o : ℕ). ok (record hdr { offset = o }, after hdr.size))
        (sym (p.no_offset (not_sparse e))))
]
  where
    after : ℕ → BackupStreamReader
    after left = record r { input = rest; bytes_left = left }

    back :
        {n : ℕ}
        → n ≡ hdr.size
        → ◌≡◌ {A = Result BackupError (BackupHeader × BackupStreamReader)}
            (ok (record hdr { size = n }, after n))
            (ok (hdr, after hdr.size))
    back h = ap (λ (n : ℕ). ok (record hdr { size = n }, after n)) h

    not_sparse : (hdr.id == backup_sparse_block) ≡ false → hdr.id ≢ backup_sparse_block
    not_sparse h = ground arith

-- At a fresh header `Next` reads the header whose bytes are in front of the input.
pub next-header_bytes :
    (utf16_to_string : List ℕ → List ℕ) (hdr : BackupHeader) (rest : List ℕ) (seekable : Bool)
    → Representable hdr
    → utf16_to_string (utf16_encode hdr.name) ≡ hdr.name
    → next utf16_to_string
        (record { input = header_bytes hdr ++ rest; seekable = seekable; bytes_left = 0 })
      ≡ ok (hdr, record { input = rest; seekable = seekable; bytes_left = hdr.size })
unfolding next skip_rest header_bytes
next-header_bytes u hdr rest seekable p e =
    let us = utf16_encode hdr.name in
    let b = wanted_bytes (not (length us == 0)) (unit_bytes us) in
    let c = wanted_bytes (hdr.id == backup_sparse_block) (le64 hdr.offset) in
    rw (append_assoc (stream_id_bytes hdr us) (b ++ c) rest) (
      rw (read_stream_id-bytes hdr us ((b ++ c) ++ rest) p.id p.attributes p.size) (
        rw (append_assoc b c rest) (
          rw (read_name-wanted u hdr.name (c ++ rest) p.name e) (
            finish_header_lem hdr rest
              (record {
                input = stream_id_bytes hdr us ++ (b ++ (c ++ rest));
                seekable = seekable;
                bytes_left = 0;
              })
              (length us * 2 % 2 ^ 32) p))))

-- With room enough and after the stream before, `WriteHeader` appends bytes and begins a stream of the
-- header's size; a reader that meets these bytes, and anything behind them, reads the same header and
-- begins a stream of the same size.
pub next-write_header :
    (utf16_to_string : List ℕ → List ℕ) (w : BackupStreamWriter) (hdr : BackupHeader)
    (rest : List ℕ) (seekable : Bool)
    → w.bytes_left ≡ 0
    → length (header_bytes hdr) ≤ w.w.room
    → Representable hdr
    → utf16_to_string (utf16_encode hdr.name) ≡ hdr.name
    → (bytes : List ℕ) × (s : Sink) × (write_header w hdr
        ≡ (none, record { w = s; bytes_left = hdr.size }))
      × (s.written ≡ w.w.written ++ bytes)
      × (next utf16_to_string
            (record { input = bytes ++ rest; seekable = seekable; bytes_left = 0 })
          ≡ ok (hdr, record { input = rest; seekable = seekable; bytes_left = hdr.size }))
next-write_header u w hdr rest seekable e room p q =
    let (s, a, b) = write_header-bytes w hdr e room in
    (header_bytes hdr, s, a, b, next-header_bytes u hdr rest seekable p q)
