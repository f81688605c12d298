-- ===== src/Tar/Sparse.antt =====
-- `copySparse` of backuptar/tar.go: the blocks of a sparse file from a backup stream into a tar file. The
-- target is the entry of the tar writer, with room for the bytes that its header announced.
pub mod Contents
use go_winio.Base.{
  ℕ, zero, suc, ◌+◌, ◌%◌, ◌^◌, List, [], ◌∷◌, length, replicate, Option, none, some, ◌==◌,
  if◌then◌else◌, not, Result, ok, err, panic,
}
use go_winio.Io.{IoError, eof, unexpected_eof}
use go_winio.Backup.{
  BackupHeader, BackupError, io, backup_sparse_block, Sink, sink_write, BackupStreamReader, next,
  lt_int64, sub_int64,
}
use go_winio.Backup.Copying.{CopyError, copy_stream}

-- `out_of_blocks` is no error of Go: the fuel was not enough.
pub data SparseError : Type 0 where
  no_header : BackupError → SparseError
  unexpected_stream : ℕ → SparseError
  cannot_seek_back : ℕ → ℕ → SparseError
  seek_failed : ℕ → IoError → SparseError
  copy_failed : CopyError → SparseError
  wrong_count : ℕ → ℕ → ℕ → SparseError
  out_of_blocks : SparseError

abbrev pub SparseResult : Type 0
SparseResult = Result SparseError (Sink × BackupStreamReader)

-- The loop goes on from an offset, with the target and the stream as they are.
abbrev pub Again : Type 0
Again = ℕ → Sink → BackupStreamReader → SparseResult

-- The end of the stream comes too early before the last block.
abbrev early_end : BackupError → BackupError
early_end (io eof) = io unexpected_eof
early_end e = e

unfoldable pub after_copy :
    Again → BackupHeader → Result CopyError (ℕ × Sink × BackupStreamReader) → SparseResult
after_copy again hdr panic = panic
after_copy again hdr (err e) = err (copy_failed e)
after_copy again hdr (ok (n, t, r)) =
    if not (n == hdr.size)
    then err (wrong_count n hdr.size hdr.offset)
    else again ((hdr.offset + n) % 2 ^ 64) t r

-- A block of no bytes is the last one.
unfoldable pub after_zeros :
    ℕ → Again → BackupHeader → BackupStreamReader → ℕ × Option IoError × Sink → SparseResult
unfolding after_copy copy_stream
after_zeros served again hdr r (n, some x, t) = err (seek_failed hdr.offset x)
after_zeros served again hdr r (n, none, t) =
    if hdr.size == 0 then ok (t, r) else after_copy again hdr (copy_stream served r t)

unfoldable pub after_header :
    ℕ → Again → ℕ → Sink → Result BackupError (BackupHeader × BackupStreamReader) → SparseResult
unfolding after_zeros sink_write
after_header served again cur t panic = panic
after_header served again cur t (err e) = err (no_header (early_end e))
after_header served again cur t (ok (hdr, r)) =
    if not (hdr.id == backup_sparse_block)
    then err (unexpected_stream hdr.id)
    else if lt_int64 hdr.offset cur
    then err (cannot_seek_back cur hdr.offset)
    else after_zeros served again hdr r (sink_write t (replicate (sub_int64 hdr.offset cur) 0))

unfoldable pub sparse_rounds :
    (List ℕ → List ℕ) → ℕ → ℕ → ℕ → Sink → BackupStreamReader → SparseResult
unfolding after_header
sparse_rounds utf16_to_string served zero cur t r = err out_of_blocks
sparse_rounds utf16_to_string served (suc fuel) cur t r =
    after_header served (λ cur' t' r'. sparse_rounds utf16_to_string served fuel cur' t' r') cur t
      (next utf16_to_string r)

-- Every block takes up some of the input, so that its length bounds the number of rounds.
unfoldable pub copy_sparse : (List ℕ → List ℕ) → ℕ → Sink → BackupStreamReader → SparseResult
unfolding sparse_rounds
copy_sparse utf16_to_string served t r =
    sparse_rounds utf16_to_string served (suc (length r.input)) 0 t r
