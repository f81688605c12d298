-- ===== src/Wim/Decompress/Tests.antt =====
-- A resource of three chunks, and the theorems on it.
use go_winio.Base.{◌≡◌, refl, arith, ◌++◌, ℕ, List, replicate, [], ◌∷◌, none, ok}
use go_winio.Wim.Decompress.{CompressedReader, uncompressed_size, chunk_size, chunk_offset}
use go_winio.Wim.Decompress.Chunks.{HasTable}

abbrev three_chunks : CompressedReader
three_chunks = record {
  resource_size = 900;
  d = none;
  chunks = 8 ∷ 300 ∷ 700 ∷ [];
  cur_chunk = 1;
  original_size = 70000;
}

three_chunks-HasTable : HasTable three_chunks
three_chunks-HasTable = record { entries = refl; not_empty = omega arith }

last_size : uncompressed_size three_chunks 2 ≡ 4464
unfolding uncompressed_size
last_size = refl

last_compressed : chunk_size three_chunks 2 ≡ ok 200
unfolding chunk_size chunk_offset
last_compressed = refl

-- The table of two offsets, and as many bytes as the chunks need.
abbrev resource : List ℕ
resource = (44 ∷ 1 ∷ 0 ∷ 0 ∷ []) ++ ((188 ∷ 2 ∷ 0 ∷ 0 ∷ []) ++ replicate 892 0)
