-- ===== src/Wim/Resource.antt =====
-- The resources of a WIM file in wim/wim.go: their descriptors, the readers that they are opened with,
-- and the offset table. The file is its bytes; a map from hashes is a list with the last entry first.
pub mod Table
use go_winio.Base.{
  ℕ, zero, suc, ◌+◌, ◌-◌, ◌/◌, ◌%◌, ◌^◌, bit_and, Bool, List, [], ◌∷◌, ◌++◌, length, take, drop,
  leb, ◌==◌, not, if◌then◌else◌, Result, ok, err, panic, ◌>>=◌, ◌>>◌, fail_if, put_key,
}
use go_winio.Base.Word.{le_field}
use go_winio.Io.{IoError, eof}
use go_winio.Wim.Source.{
  Source, WimError, parse_error, at_oper, because, offset_table, unsupported_resource_flag,
  mismatched_image_count, out_of_rounds, short_read,
}

pub record ResourceDescriptor : Type 0 where
  pub flags_and_compressed_size : ℕ
  pub offset : ℕ
  pub original_size : ℕ

-- The descriptor in 24 bytes of a structure.
abbrev pub descriptor_at : ℕ → List ℕ → ResourceDescriptor
descriptor_at i bs = record {
  flags_and_compressed_size = le_field i 8 bs;
  offset = le_field (i + 8) 8 bs;
  original_size = le_field (i + 16) 8 bs;
}

abbrev pub res_flag_metadata : ℕ
res_flag_metadata = 2

abbrev pub res_flag_compressed : ℕ
res_flag_compressed = 4

unfoldable pub flags : ResourceDescriptor → ℕ
flags r = r.flags_and_compressed_size / 2 ^ 56 % 2 ^ 8

unfoldable pub compressed_size : ResourceDescriptor → ℕ
compressed_size r = r.flags_and_compressed_size % 2 ^ 56

pub record StreamDescriptor : Type 0 where
  pub resource : ResourceDescriptor
  pub part_number : ℕ
  pub ref_count : ℕ
  pub hash : List ℕ

abbrev pub stream_descriptor_size : ℕ
stream_descriptor_size = 50

abbrev pub stream_descriptor : List ℕ → StreamDescriptor
stream_descriptor bs = record {
  resource = descriptor_at 0 bs;
  part_number = le_field 24 2 bs;
  ref_count = le_field 26 4 bs;
  hash = take 20 (drop 30 bs);
}

abbrev pub FileData : Type 0
FileData = List (List ℕ × ResourceDescriptor)

-- The flags other than those of metadata and of compression: free and spanned resources, and the upper
-- four bits.
abbrev pub unsupported : ℕ → Bool
unsupported f = not (bit_and f 0xf9 == 0)

-- The loop of `readOffsetTable` over the bytes of the table. Its check of the hashes is compiled out.
unfoldable pub table_rounds :
    ℕ
    → List ℕ
    → FileData
    → List ResourceDescriptor
    → Result WimError (FileData × List ResourceDescriptor)
unfolding flags short_read
table_rounds zero bs files images = err out_of_rounds
table_rounds (suc fuel) bs files images =
    let res = stream_descriptor bs in
    let next = drop stream_descriptor_size bs in
    let as_image = table_rounds fuel next files (images ++ (res.resource ∷ [])) in
    let as_file = table_rounds fuel next (put_key res.hash res.resource files) images in
    if length bs == 0
    then ok (files, images)
    else if not (leb stream_descriptor_size (length bs))
    then err (parse_error offset_table [] (because (short_read bs eof)))
    else if unsupported (flags res.resource)
    then err (parse_error offset_table [] unsupported_resource_flag)
    else if bit_and (flags res.resource) res_flag_metadata == 0
    then as_file
    else as_image

-- `io.NewSectionReader` over the file: the bytes of the section that the file has, which are none at an
-- offset behind its end. The offset is taken to be at least zero: below it the reads of the source fail,
-- where the model has a section without bytes.
abbrev pub section : List ℕ → ResourceDescriptor → List ℕ
section file r = take (r.flags_and_compressed_size % 2 ^ 56) (drop r.offset file)

-- The package's reader of compressed resources: the section, the original size and the offset give the
-- bytes from the offset on and the error behind them.
abbrev pub Decompress : Type 0
Decompress = List ℕ → ℕ → ℕ → Result IoError Source

module _ (decompress : Decompress) (file : List ℕ) where
  -- `resourceReaderWithOffset`. A seek to a negative offset fails, and its error is dropped.
  unfoldable pub resource_reader_with_offset : ResourceDescriptor → ℕ → Result IoError Source
  unfolding flags
  resource_reader_with_offset hdr offset =
      if bit_and (flags hdr) res_flag_compressed == 0
      then ok (record {
        bytes = if leb (2 ^ 63) offset then section file hdr else drop offset (section file hdr);
        final = eof;
      })
      else decompress (section file hdr) hdr.original_size offset

  unfoldable pub resource_reader : ResourceDescriptor → Result IoError Source
  unfolding resource_reader_with_offset
  resource_reader hdr = resource_reader_with_offset hdr 0

  unfoldable pub read_resource : ResourceDescriptor → Result IoError (List ℕ)
  unfolding resource_reader
  read_resource hdr = do s ← resource_reader hdr; elim s.final [ eof ↦ ok s.bytes | e ↦ err e ]

  -- A round for each entry and one for the end.
  unfoldable pub read_offset_table :
      ResourceDescriptor → ℕ → Result WimError (FileData × List ResourceDescriptor)
  unfolding read_resource table_rounds
  read_offset_table hdr image_count = do
    table ← at_oper offset_table (read_resource hdr)
    (files, images) ← table_rounds (suc (length table)) table [] []
    fail_if (not (length images == image_count))
        (parse_error offset_table [] mismatched_image_count)
    ok (files, images)
