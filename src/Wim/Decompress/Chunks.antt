-- ===== src/Wim/Decompress/Chunks.antt =====
-- The chunks of a resource cover it: their uncompressed sizes add up to its size, and a reader
-- that is opened at an offset starts in the chunk that contains it.
use go_winio.Base.{ℕ, zero, suc, ◌+◌, ◌-◌, ◌*◌, ◌/◌, ◌%◌, ◌^◌, ◌≤◌, ◌<◌, ◌≡◌, refl, arith}
use go_winio.Base.{
  not, le→leb, Option, some, get_or, length, leb, ◌==◌, if◌then◌else◌, ok, err, List,
}
use go_winio.Io.{eof}
use go_winio.Wim.Decompress.{
  ChunkReader, CompressedReader, uncompressed_size, reset, chunk_size, chunk_offset, read_round,
  answer, again,
}

-- The first `n` chunks, uncompressed.
abbrev pub uncompressed_before : CompressedReader → ℕ → ℕ
uncompressed_before r zero = 0
uncompressed_before r (suc n) = uncompressed_before r n + uncompressed_size r n

-- The table has an entry for each chunk, and there is a chunk.
pub record HasTable (r : CompressedReader) : Type 0 where
  pub entries : length r.chunks ≡ (r.original_size + 32767) / 32768
  pub not_empty : 0 < r.original_size

full_chunks :
    (r : CompressedReader) (n : ℕ) → n < length r.chunks → uncompressed_before r n ≡ n * 32768
unfolding uncompressed_size
full_chunks r zero h = omega arith
full_chunks r (suc n) h = ground (arith, full_chunks r n (omega arith))

all_chunks :
    (r : CompressedReader) (n : ℕ)
    → HasTable r
    → length r.chunks ≡ suc n
    → uncompressed_before r (suc n) ≡ r.original_size
unfolding uncompressed_size
all_chunks r n t e = ground (arith, full_chunks r n (omega arith))

-- The uncompressed sizes of all chunks add up to the size of the resource.
pub uncompressed_before_all :
    (r : CompressedReader) → HasTable r → uncompressed_before r (length r.chunks) ≡ r.original_size
uncompressed_before_all r t = go (length r.chunks) refl
  where
    go : (n : ℕ) → length r.chunks ≡ n → uncompressed_before r n ≡ r.original_size
    go zero e = absurd (omega (arith, t.entries, t.not_empty))
    go (suc n) e = all_chunks r n t e

-- Where a chunk ends that stands in the table.
abbrev pub chunk_end : CompressedReader → ℕ → ℕ
chunk_end r n = if n + 1 == length r.chunks then r.resource_size else get_or r.chunks (n + 1) 0

abbrev pub opened : CompressedReader → ℕ → CompressedReader
opened r n =
    let size = (chunk_end r n + 2 ^ 64 - get_or r.chunks n 0) % 2 ^ 64 in
    record r {
      cur_chunk = n;
      d = some (record {
        offset = get_or r.chunks n 0;
        size = size;
        uncompressed = uncompressed_size r n;
        decompressed = not (size == uncompressed_size r n);
      });
    }

reset-opened : (r : CompressedReader) (n : ℕ) → n < length r.chunks → reset r n ≡ ok (opened r n)
unfolding reset chunk_size chunk_offset
reset-opened r n h = ground arith

reset_eof : (r : CompressedReader) (n : ℕ) → length r.chunks ≤ n → reset r n ≡ err eof
unfolding reset
reset_eof r n h = rw (le→leb (length r.chunks) n h)

-- At the end of a chunk `Read` answers EOF if it was the last one, and goes on with the next one
-- otherwise: it is opened where the table says, to its uncompressed size, and it is decompressed
-- unless it takes as many bytes as it has uncompressed.
pub read_round_end :
    (r : CompressedReader) (n : ℕ)
    → (length r.chunks ≤ r.cur_chunk + 1 → read_round r (n, some eof) ≡ ok (answer (n, some eof) r))
      × (r.cur_chunk + 1 < length r.chunks
          → read_round r (n, some eof) ≡ ok (again (opened r (r.cur_chunk + 1))))
unfolding read_round
read_round_end r n = (
  (λ e. rw (reset_eof r (r.cur_chunk + 1) e, read_round)),
  (λ k. rw (reset-opened r (r.cur_chunk + 1) k, read_round)),
)

-- The table is read if the resource has so many bytes.
abbrev pub entry_width : ℕ → ℕ
entry_width original_size = if leb original_size 0xffffffff then 4 else 8

abbrev pub chunk_count : ℕ → ℕ
chunk_count original_size = (original_size + 32767) / 32768

abbrev Offsets : ℕ → Option (List ℕ) → Type 0
Offsets n r = (cs : List ℕ) × (r ≡ some cs) × (length cs ≡ n)

-- A reader that is opened at an offset: its chunk contains the offset, at the place up to which the
-- chunk's bytes are dropped, and is decompressed to as many bytes as the chunk has.
pub record OpenedAt (original_size offset : ℕ) (r : CompressedReader) (dropped : ℕ) : Type 0 where
  pub size : r.original_size ≡ original_size
  pub entries : length r.chunks ≡ chunk_count original_size
  pub in_table : r.cur_chunk < length r.chunks
  pub place : uncompressed_before r r.cur_chunk + dropped ≡ offset
  pub reader : ChunkReader
  pub opens : r.d ≡ some reader
  pub fits : dropped < reader.uncompressed
  pub starts : get_or r.chunks r.cur_chunk 0 ≡ reader.offset
  pub ends : reader.size ≡ (chunk_end r r.cur_chunk + 2 ^ 64 - reader.offset) % 2 ^ 64
  pub stored : reader.decompressed ≡ not (reader.size == reader.uncompressed)
