-- ===== src/Tar/Sparse/Contents.antt =====
-- `copySparse` writes the contents of the sparse file that the blocks describe.
use go_winio.Base.{
  ℕ, ◌+◌, ◌-◌, ◌^◌, ◌≤◌, ◌<◌, ◌≡◌, arith, List, [], ◌∷◌, ◌++◌, length, length-append,
  length-replicate, replicate, Bool, Result,
}
use go_winio.Utf16.{utf16_encode}
use go_winio.Backup.{BackupHeader, BackupError, backup_sparse_block, BackupStreamReader, next}
use go_winio.Backup.Headers.{header_bytes}

-- A block of a sparse file is the bytes that stand at an offset.
abbrev pub Block : Type 0
Block = ℕ × List ℕ

abbrev pub block_header : ℕ → ℕ → BackupHeader
block_header offset size = record {
  id = backup_sparse_block;
  attributes = 8;
  size = size;
  name = [];
  offset = offset;
}

-- The backup stream of the blocks; the last block is empty and stands at the end of the file.
abbrev pub stream : List Block → ℕ → List ℕ
stream [] size = header_bytes (block_header size 0)
stream ((offset, xs) ∷ bs) size =
    header_bytes (block_header offset (length xs)) ++ (xs ++ stream bs size)

abbrev pub zeros : ℕ → List ℕ
zeros n = replicate n 0

length-zeros : (n : ℕ) → length (zeros n) ≡ n
length-zeros n = length-replicate {A = ℕ} n 0

-- The bytes of the file from an offset on, with zeros between the blocks.
abbrev pub contents : ℕ → List Block → ℕ → List ℕ
contents cur [] size = zeros (size - cur)
contents cur ((offset, xs) ∷ bs) size =
    zeros (offset - cur) ++ (xs ++ contents (offset + length xs) bs size)

-- The blocks are not empty, do not overlap, and stand in order in a file whose size is an int64.
abbrev pub IsOrdered : ℕ → List Block → ℕ → Type 0
IsOrdered cur [] size = (cur ≤ size) × (size < 2 ^ 63)
IsOrdered cur ((offset, xs) ∷ bs) size =
    (cur ≤ offset) × (0 < length xs) × IsOrdered (offset + length xs) bs size

ordered_le :
    (cur : ℕ) (bs : List Block) (size : ℕ) → IsOrdered cur bs size → (cur ≤ size) × (size < 2 ^ 63)
ordered_le cur [] size o = o
ordered_le cur ((offset, xs) ∷ bs) size o =
    omega (arith, o.0, ordered_le (offset + length xs) bs size o.2)

pub length-contents :
    (cur : ℕ) (bs : List Block) (size : ℕ)
    → IsOrdered cur bs size
    → length (contents cur bs size) ≡ size - cur
length-contents cur [] size o = length-zeros (size - cur)
length-contents cur ((offset, xs) ∷ bs) size o =
    let later = ordered_le (offset + length xs) bs size o.2 in
    let rest = contents (offset + length xs) bs size in
    omega (
      arith,
      o.0,
      later,
      length-append (zeros (offset - cur)) (xs ++ rest),
      length-zeros (offset - cur),
      length-append xs rest,
      length-contents (offset + length xs) bs size o.2,
    )

abbrev pub at_bytes : Bool → List ℕ → BackupStreamReader
at_bytes seekable bytes = record { input = bytes; seekable = seekable; bytes_left = 0 }

module _ (utf16_to_string : List ℕ → List ℕ) (no_name : utf16_to_string (utf16_encode []) ≡ [])
    (served : ℕ) (serves : 0 < served) (seekable : Bool) where
  abbrev pub next_block : ℕ → ℕ → List ℕ → Result BackupError (BackupHeader × BackupStreamReader)
  next_block offset size rest =
      next utf16_to_string (at_bytes seekable (header_bytes (block_header offset size) ++ rest))
