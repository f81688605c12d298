-- ===== src/Backup.antt =====
-- backup.go: the stream of headers and data that BackupRead and BackupWrite exchange. The reader's
-- source is the bytes that it will deliver before EOF, the writer's target takes bytes as long as it
-- has room. An int64 is its bit pattern; a name is the list of its code points.
use go_winio.Base.{
  ℕ, zero, suc, ◌+◌, ◌-◌, ◌*◌, ◌/◌, ◌%◌, ◌^◌, List, [], ◌∷◌, ◌++◌, Bool, true, false,
}
use go_winio.Base.{
  Option, none, some, length, take, drop, leb, ltb, ◌==◌, if◌then◌else◌, not, ◌&&◌, ◌||◌,
}
use go_winio.Base.{Result, ok, err, panic, ◌>>=◌}
use go_winio.Base.Word.{le16, le32, le64, of_le16, of_le32}
pub use go_winio.Base.Word.{lt_int64, sub_int64}
use go_winio.Io.{IoError, eof, unexpected_eof, failed}
use go_winio.Utf16.{utf16_encode, unit_bytes, read_units}
pub mod Headers
pub mod Counts
pub mod Copying
mod Tests

abbrev pub backup_sparse_block : ℕ
backup_sparse_block = 9

pub record BackupHeader : Type 0 where
  pub id : ℕ
  pub attributes : ℕ
  pub size : ℕ
  pub name : List ℕ
  pub offset : ℕ

-- `missing` and `too_many` are the errors of the writer's own.
pub data BackupError : Type 0 where
  missing too_many : ℕ → BackupError
  io : IoError → BackupError

-- An io.Writer: a write that does not fit takes what fits and fails.
pub record Sink : Type 0 where
  pub written : List ℕ
  pub room : ℕ

unfoldable pub sink_write : Sink → List ℕ → ℕ × Option IoError × Sink
sink_write w bytes =
    if leb (length bytes) w.room
    then (length bytes, none, record { written = w.written ++ bytes; room = w.room - length bytes })
    else (w.room, some (failed 0), record { written = w.written ++ take w.room bytes; room = 0 })

pub record BackupStreamWriter : Type 0 where
  pub w : Sink
  pub bytes_left : ℕ

-- The bytes of the structure `win32StreamID`; the size of a sparse block counts its offset.
pub stream_id_bytes : BackupHeader → List ℕ → List ℕ
stream_id_bytes hdr name =
    le32 hdr.id
    ++ (le32 hdr.attributes
        ++ (le64 (if hdr.id == backup_sparse_block then (hdr.size + 8) % 2 ^ 64 else hdr.size)
            ++ le32 (length name * 2 % 2 ^ 32)))

-- One `binary.Write`, and what follows it if there was no error.
abbrev then_write :
    Option BackupError × BackupStreamWriter
    → Bool
    → List ℕ
    → Option BackupError × BackupStreamWriter
then_write (some e, w) wanted bytes = (some e, w)
then_write (none, w) false bytes = (none, w)
then_write (none, w) true bytes =
    let (n, e, s) = sink_write w.w bytes in
    (elim e [ none ↦ none | some x ↦ some (io x) ], record w { w = s })

set_left : Option BackupError × BackupStreamWriter → ℕ → Option BackupError × BackupStreamWriter
set_left (some e, w) size = (some e, w)
set_left (none, w) size = (none, record w { bytes_left = size })

pub write_header : BackupStreamWriter → BackupHeader → Option BackupError × BackupStreamWriter
unfolding set_left sink_write
write_header w hdr =
    if not (w.bytes_left == 0)
    then (some (missing w.bytes_left), w)
    else (let name = utf16_encode hdr.name in
        let a = then_write (none, w) true (stream_id_bytes hdr name) in
        let b = then_write a (not (length name == 0)) (unit_bytes name) in
        let c = then_write b (hdr.id == backup_sparse_block) (le64 hdr.offset) in
        set_left c hdr.size)

-- `Write`
pub write : BackupStreamWriter → List ℕ → ℕ × Option BackupError × BackupStreamWriter
unfolding sink_write
write w bytes =
    if lt_int64 w.bytes_left (length bytes)
    then (0, some (too_many (sub_int64 (length bytes) w.bytes_left)), w)
    else (let (n, e, s) = sink_write w.w bytes in
        (
          n,
          elim e [ none ↦ none | some x ↦ some (io x) ],
          record { w = s; bytes_left = sub_int64 w.bytes_left n },
        ))

pub record BackupStreamReader : Type 0 where
  pub input : List ℕ
  pub seekable : Bool
  pub bytes_left : ℕ

-- The rest of the current stream is passed over: by a seek, which may go past the end, or by reading.
skip_rest : BackupStreamReader → Result BackupError BackupStreamReader
skip_rest r =
    if not (lt_int64 0 r.bytes_left)
    then ok r
    else if r.seekable
    then ok (record r { input = drop r.bytes_left r.input; bytes_left = 0 })
    else if ltb (length r.input) r.bytes_left
    then err (io unexpected_eof)
    else ok (record r { input = drop r.bytes_left r.input; bytes_left = 0 })

-- An error of `binary.Read`: EOF before the first byte, unexpected EOF behind it.
abbrev short_read : List ℕ → BackupError
short_read [] = io eof
short_read (b ∷ bs) = io unexpected_eof

pub record StreamId : Type 0 where
  pub stream_id : ℕ
  pub attributes : ℕ
  pub size : ℕ
  pub name_size : ℕ

read_stream_id : List ℕ → Result BackupError (StreamId × List ℕ)
read_stream_id
      (a ∷ b ∷ c ∷ d ∷ e ∷ f ∷ g ∷ h ∷ i ∷ j ∷ k ∷ l ∷ m ∷ n ∷ o ∷ p ∷ q ∷ r ∷ s ∷ t ∷ rest) =
    ok (
      record {
        stream_id = of_le32 a b c d;
        attributes = of_le32 e f g h;
        size = of_le32 i j k l + of_le32 m n o p * 2 ^ 32;
        name_size = of_le32 q r s t;
      },
      rest,
    )
read_stream_id bs = err (short_read bs)

-- The name, if there is one, in UTF-16.
read_name : (List ℕ → List ℕ) → ℕ → List ℕ → Result BackupError (List ℕ × List ℕ)
read_name utf16_to_string name_size bs =
    if name_size == 0 then ok ([], bs) else elim (read_units (name_size / 2) bs) [
      | none ↦ err (short_read bs)
      | some (us, rest) ↦ ok (utf16_to_string us, rest)
    ]

-- The offset of a sparse block.
read_offset : List ℕ → Result BackupError (ℕ × List ℕ)
read_offset (a ∷ b ∷ c ∷ d ∷ e ∷ f ∷ g ∷ h ∷ rest) =
    ok (of_le32 a b c d + of_le32 e f g h * 2 ^ 32, rest)
read_offset bs = err (short_read bs)

finish_header :
    StreamId
    → List ℕ
    → BackupStreamReader
    → List ℕ
    → Result BackupError (BackupHeader × BackupStreamReader)
unfolding read_offset
finish_header wsi name r bs =
    if wsi.stream_id == backup_sparse_block
    then (do
      (offset, rest) ← read_offset bs
      let size = sub_int64 wsi.size 8
      ok (
        record {
          id = wsi.stream_id;
          attributes = wsi.attributes;
          size = size;
          name = name;
          offset = offset;
        },
        record r { input = rest; bytes_left = size },
      ))
    else ok (
      record {
        id = wsi.stream_id;
        attributes = wsi.attributes;
        size = wsi.size;
        name = name;
        offset = 0;
      },
      record r { input = bs; bytes_left = wsi.size },
    )

-- `Next`; `windows.UTF16ToString` is the argument `utf16_to_string`.
pub next :
    (List ℕ → List ℕ) → BackupStreamReader → Result BackupError (BackupHeader × BackupStreamReader)
next utf16_to_string r = do
  r1 ← skip_rest r
  (wsi, bs) ← read_stream_id r1.input
  (name, rest) ← read_name utf16_to_string wsi.name_size bs
  finish_header wsi name r1 rest

-- The bytes that the source is asked for.
pub read_limit : BackupStreamReader → ℕ → ℕ
read_limit r room = if lt_int64 r.bytes_left room then r.bytes_left else room

-- The error that `Read` makes of the source's.
pub read_error : Option IoError → ℕ → Option IoError
read_error (some eof) left = some unexpected_eof
read_error (some e) left = some e
read_error none left = if left == 0 then some eof else none

-- `Read` with a buffer of `room` bytes, of which the source fills at most `served` and returns the error
-- `e` with them; a negative count of bytes left panics at the slice expression.
pub read :
    BackupStreamReader
    → ℕ
    → ℕ
    → Option IoError
    → Result (Unit {0}) ((List ℕ × Option IoError) × BackupStreamReader)
read r room served e =
    if r.bytes_left == 0
    then ok (([], some eof), r)
    else if lt_int64 r.bytes_left room && leb (2 ^ 63) r.bytes_left
    then panic
    else (let limit = read_limit r room in
        let n = if leb served limit then served else limit in
        let got = take n r.input in
        let left = sub_int64 r.bytes_left (length got) in
        ok ((got, read_error e left), record r { input = drop n r.input; bytes_left = left }))

-- The error of a source that returns EOF alone, behind its last byte.
pub plain_error : BackupStreamReader → ℕ → Option IoError
plain_error r room = if length r.input == 0 && not (read_limit r room == 0) then some eof else none
