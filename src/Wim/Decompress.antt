-- ===== src/Wim/Decompress.antt =====
-- wim/decompress.go: a compressed resource is a table of chunk offsets and the chunks. The section
-- reader is the bytes of the resource. An int64 is its bit pattern; the original size is not negative.
use go_winio.Base.{
  ℕ, zero, suc, ◌+◌, ◌-◌, ◌*◌, ◌/◌, ◌%◌, ◌^◌, List, [], ◌∷◌, ◌++◌, Bool, true, false,
}
use go_winio.Base.{Option, none, some, length, drop, get_or, leb, ltb, ◌==◌, if◌then◌else◌, not}
use go_winio.Base.{Result, ok, err, panic, ◌>>=◌, ◌>>◌, fail_if}
use go_winio.Base.Word.{of_le32}
use go_winio.Io.{IoError, eof, unexpected_eof}
pub mod Chunks
mod Tests

abbrev pub chunk_length : ℕ
chunk_length = 32768

-- What `reset` makes the reader `d`: a section of the resource, through the decompressor unless the
-- chunk is stored as it is.
pub record ChunkReader : Type 0 where
  pub offset : ℕ
  pub size : ℕ
  pub uncompressed : ℕ
  pub decompressed : Bool

pub record CompressedReader : Type 0 where
  pub resource_size : ℕ
  pub d : Option ChunkReader
  pub chunks : List ℕ
  pub cur_chunk : ℕ
  pub original_size : ℕ

-- `binary.Read` of `n` offsets of four or of eight bytes.
read_offsets32 : ℕ → List ℕ → Option (List ℕ)
read_offsets32 zero bs = some []
read_offsets32 (suc n) (a ∷ b ∷ c ∷ d ∷ bs) = elim (read_offsets32 n bs) [
  | none ↦ none
  | some rest ↦ some (of_le32 a b c d ∷ rest)
]
read_offsets32 (suc n) _ = none

read_offsets64 : ℕ → List ℕ → Option (List ℕ)
read_offsets64 zero bs = some []
read_offsets64 (suc n) (a ∷ b ∷ c ∷ d ∷ e ∷ f ∷ g ∷ h ∷ bs) = elim (read_offsets64 n bs) [
  | none ↦ none
  | some rest ↦ some ((of_le32 a b c d + of_le32 e f g h * 2 ^ 32) ∷ rest)
]
read_offsets64 (suc n) _ = none

add_base : ℕ → List ℕ → List ℕ
add_base base [] = []
add_base base (c ∷ cs) = (c + base) % 2 ^ 64 ∷ add_base base cs

-- `r.chunkOffset(n)`; an index behind the end of the table panics.
pub chunk_offset : CompressedReader → ℕ → Result IoError ℕ
chunk_offset r n =
    if n == length r.chunks
    then ok r.resource_size
    else if ltb n (length r.chunks)
    then ok (get_or r.chunks n 0)
    else panic

pub chunk_size : CompressedReader → ℕ → Result IoError ℕ
unfolding chunk_offset
chunk_size r n = do
  hi ← chunk_offset r (n + 1)
  lo ← chunk_offset r n
  ok ((hi + 2 ^ 64 - lo) % 2 ^ 64)

pub uncompressed_size : CompressedReader → ℕ → ℕ
uncompressed_size r n =
    if ltb (n + 1) (length r.chunks)
    then chunk_length
    else if r.original_size % chunk_length == 0
    then chunk_length
    else r.original_size % chunk_length

-- `reset`. `lzx.NewReader` accepts every size up to that of its window, which a chunk never exceeds.
pub reset : CompressedReader → ℕ → Result IoError CompressedReader
unfolding chunk_size uncompressed_size
reset r n = do
  fail_if (leb (length r.chunks) n) eof
  size ← chunk_size r n
  offset ← chunk_offset r n
  ok (record r {
    cur_chunk = n;
    d = some (record {
      offset = offset;
      size = size;
      uncompressed = uncompressed_size r n;
      decompressed = not (size == uncompressed_size r n);
    });
  })

read_table : List ℕ → ℕ → ℕ → Result IoError (List ℕ)
unfolding read_offsets32 read_offsets64 add_base
read_table resource original_size nchunks =
    if nchunks == 0
    then panic
    else if leb original_size 0xffffffff
    then elim (read_offsets32 (nchunks - 1) resource) [
      | none ↦ err unexpected_eof
      | some cs ↦ ok (add_base ((nchunks - 1) * 4) (0 ∷ cs))
    ]
    else elim (read_offsets64 (nchunks - 1) resource) [
      | none ↦ err unexpected_eof
      | some cs ↦ ok (add_base ((nchunks - 1) * 8) (0 ∷ cs))
    ]

-- `newCompressedReader`: the reader, and the bytes of its first chunk that are read and dropped. The
-- errors EOF and unexpected EOF of a short table are not told apart.
pub new_compressed_reader : List ℕ → ℕ → ℕ → Result IoError (CompressedReader × ℕ)
unfolding read_table reset
new_compressed_reader resource original_size offset = do
  chunks ← read_table resource original_size ((original_size + chunk_length - 1) / chunk_length)
  r ←
      reset
        (record {
          resource_size = length resource;
          d = none;
          chunks = chunks;
          cur_chunk = 0;
          original_size = original_size;
        })
        (offset / chunk_length)
  ok (r, offset % chunk_length)

-- What a round of the loop of `Read` comes to: the answer, or another round on the next chunk.
pub data ReadRound : Type 0 where
  answer : ℕ × Option IoError → CompressedReader → ReadRound
  again : CompressedReader → ReadRound

-- One round, from the answer of `r.d.Read(b)`.
pub read_round : CompressedReader → ℕ × Option IoError → Result (Unit {0}) ReadRound
unfolding reset
read_round r (n, some eof) = elim (reset r (r.cur_chunk + 1)) [
  | ok r' ↦ ok (again r')
  | err e ↦ ok (answer (n, some e) r)
  | panic ↦ panic
]
read_round r (n, e) = ok (answer (n, e) r)

pub close : CompressedReader → CompressedReader
close r = record r { d = none }
