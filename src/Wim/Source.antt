-- ===== src/Wim/Source.antt =====
-- What the parser of wim/wim.go reads from, and the errors that it returns. A reader is the bytes that it
-- will deliver and the error that stands behind them.
use go_winio.Base.{ℕ, List, [], ◌∷◌, length, take, drop, leb, if◌then◌else◌, Result, ok, err, panic}
use go_winio.Io.{IoError, eof, unexpected_eof}

pub record Source : Type 0 where
  pub bytes : List ℕ
  pub final : IoError

-- The `Oper` of a `ParseError`.
pub data Oper : Type 0 where
  image_tag xml_data xml_info offset_table : Oper
  security_table security_table_sizes security_descriptor : Oper
  root_directory directory_length_check directory_entry file_name : Oper
  stream_length_check stream_entry : Oper

-- Its `Err`.
pub data Cause : Type 0 where
  because : IoError → Cause
  not_wim invalid_bom not_xml unsupported_resource_flag mismatched_image_count : Cause
  table_too_small not_one_root size_too_short no_room_for_names no_file_data : Cause
  no_subdirectory unexpected_subdirectory missing_reparse_stream : Cause

-- `ParseError` with its path, an error of the reader as it is, and the other errors of the package.
-- `out_of_rounds` is no error of Go: the fuel was not enough.
pub data WimError : Type 0 where
  parse_error : Oper → List ℕ → Cause → WimError
  reading : IoError → WimError
  unsupported_flags unsupported_compression_size : ℕ → WimError
  multi_part not_a_directory out_of_rounds : WimError

-- The error of a full read that got these bytes only.
unfoldable pub short_read : List ℕ → IoError → IoError
short_read [] e = e
short_read (b ∷ bs) e = elim e [ eof ↦ unexpected_eof | other ↦ other ]

-- `if err == io.EOF { err = io.ErrUnexpectedEOF }`
unfoldable pub not_eof : IoError → IoError
not_eof e = elim e [ eof ↦ unexpected_eof | other ↦ other ]

-- An error that becomes the cause of a ParseError, and one that is returned as it is.
abbrev pub oper_error : Oper → IoError → WimError
oper_error oper e = parse_error oper [] (because e)

abbrev pub with_error {ℓ} :
    {A : Type ℓ} → (IoError → WimError) → Result IoError A → Result WimError A
with_error fault (ok a) = ok a
with_error fault (err e) = err (fault e)
with_error fault panic = panic

abbrev pub at_oper {ℓ} : {A : Type ℓ} → Oper → Result IoError A → Result WimError A
at_oper oper r = with_error (oper_error oper) r

-- `binary.Read` or `ReadFull` of `n` bytes, with what an error is made into.
unfoldable pub read_bytes : (IoError → WimError) → ℕ → Source → Result WimError (List ℕ × Source)
unfolding short_read
read_bytes fault n s =
    if leb n (length s.bytes)
    then ok (take n s.bytes, record s { bytes = drop n s.bytes })
    else err (fault (short_read s.bytes s.final))

-- `io.CopyN(io.Discard, r, n)`.
unfoldable pub discard : (IoError → WimError) → ℕ → Source → Result WimError Source
discard fault n s =
    if leb n (length s.bytes) then ok (record s { bytes = drop n s.bytes }) else err (fault s.final)
