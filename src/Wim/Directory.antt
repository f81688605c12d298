-- ===== src/Wim/Directory.antt =====
-- The entries of a directory and their alternate streams: `readNextEntry` and `readNextStream` of
-- wim/wim.go. An int64 is its bit pattern; UTF-16 is decoded by the argument `decode`.
pub mod Moves
pub mod Entries
use go_winio.Base.{
  ℕ, zero, suc, ◌+◌, ◌-◌, ◌*◌, ◌/◌, ◌%◌, ◌^◌, bit_and, Bool, true, false, ◌&&◌, ◌||◌, List, [], ◌∷◌,
  ◌++◌, length, take, drop, replicate, get_or, Option, none, some, leb, ltb, ◌==◌, not,
  if◌then◌else◌, Result, ok, err, panic, ◌>>=◌, ◌>>◌, fail_if, get_key, same_text,
}
use go_winio.Base.Slice.{slice}
use go_winio.Base.Word.{le_value, le_field, lt_int64, sub_int64}
use go_winio.Io.{IoError, eof, unexpected_eof}
use go_winio.Utf16.{read_units}
use go_winio.Wim.Source.{
  Source, Oper, directory_length_check, directory_entry, file_name, stream_length_check,
  stream_entry, WimError, parse_error, reading, size_too_short, no_room_for_names, no_file_data,
  no_subdirectory, unexpected_subdirectory, missing_reparse_stream, out_of_rounds, oper_error,
  not_eof, read_bytes, discard,
}
use go_winio.Wim.Resource.{ResourceDescriptor, FileData}

abbrev pub file_attribute_directory : ℕ
file_attribute_directory = 0x10

abbrev pub file_attribute_reparse_point : ℕ
file_attribute_reparse_point = 0x400

-- `direntry` in its 94 bytes.
pub record DirEntry : Type 0 where
  pub attributes : ℕ
  pub security_id : ℕ
  pub subdir_offset : ℕ
  pub creation_time : ℕ
  pub last_access_time : ℕ
  pub last_write_time : ℕ
  pub hash : List ℕ
  pub reparse_hard_link : ℕ
  pub stream_count : ℕ
  pub short_name_length : ℕ
  pub file_name_length : ℕ

abbrev pub dir_entry : List ℕ → DirEntry
dir_entry bs = record {
  attributes = le_field 0 4 bs;
  security_id = le_field 4 4 bs;
  subdir_offset = le_field 8 8 bs;
  creation_time = le_field 32 8 bs;
  last_access_time = le_field 40 8 bs;
  last_write_time = le_field 48 8 bs;
  hash = take 20 (drop 56 bs);
  reparse_hard_link = le_field 80 8 bs;
  stream_count = le_field 88 2 bs;
  short_name_length = le_field 90 2 bs;
  file_name_length = le_field 92 2 bs;
}

-- The sizes of the two structures, and with the length before them.
abbrev pub dir_entry_bytes : ℕ
dir_entry_bytes = 94

abbrev pub dir_entry_size : ℕ
dir_entry_size = 102

abbrev pub stream_entry_bytes : ℕ
stream_entry_bytes = 30

abbrev pub stream_entry_size : ℕ
stream_entry_size = 38

pub record Stream : Type 0 where
  pub name : List ℕ
  pub hash : List ℕ
  pub size : ℕ
  pub offset : ResourceDescriptor

pub record File : Type 0 where
  pub name : List ℕ
  pub short_name : List ℕ
  pub attributes : ℕ
  pub security_descriptor : List ℕ
  pub creation_time : ℕ
  pub last_access_time : ℕ
  pub last_write_time : ℕ
  pub hash : List ℕ
  pub size : ℕ
  pub link_id : ℕ
  pub reparse_tag : ℕ
  pub reparse_reserved : ℕ
  pub streams : List Stream
  pub offset : ResourceDescriptor
  pub subdir_offset : ℕ

abbrev pub zero_hash : List ℕ
zero_hash = replicate 20 0

abbrev pub no_resource : ResourceDescriptor
no_resource = record { flags_and_compressed_size = 0; offset = 0; original_size = 0 }

-- The file data of a hash; the hash of zeros has none.
unfoldable pub find_data : Oper → FileData → List ℕ → List ℕ → Result WimError ResourceDescriptor
unfolding same_text get_key
find_data oper files name hash =
    if same_text hash zero_hash then ok no_resource else elim (get_key hash files) [
      | none ↦ err (parse_error oper name no_file_data)
      | some r ↦ ok r
    ]

-- `binary.Read` of `n` units of a name.
unfoldable pub read_name : ℕ → Source → Result WimError (List ℕ × Source)
unfolding read_bytes read_units
read_name n s = do
  (bs, s1) ← read_bytes (oper_error file_name) (n * 2) s
  elim (read_units n bs) [ none ↦ panic | some (us, _) ↦ ok (us, s1) ]

-- `make([]uint16, nameLength/2)` and what is left then, of a signed length: -1 gives no units, and any
-- other negative length panics.
unfoldable pub stream_name : ℕ → ℕ → Source → Result WimError ((List ℕ × ℕ) × Source)
unfolding read_name
stream_name name_length left s =
    if ltb name_length (2 ^ 15)
    then (do
      fail_if (ltb left name_length) (parse_error stream_entry [] no_room_for_names)
      (us, s1) ← read_name (name_length / 2) s
      ok ((us, left - name_length), s1))
    else if name_length == 2 ^ 16 - 1
    then ok (([], left + 1), s)
    else panic

-- The loop over the streams of an entry: the first unnamed one is the file's own.
abbrev pub add_stream : Bool → Stream → File → File
add_stream first t f =
    if first && length t.name == 0
    then record f { hash = t.hash; size = t.size; offset = t.offset }
    else if not (length t.name == 0)
    then record f { streams = f.streams ++ (t ∷ []) }
    else f

abbrev pub is_reparse_point : ℕ → Bool
is_reparse_point attributes = not (bit_and attributes file_attribute_reparse_point == 0)

abbrev pub is_real_directory : ℕ → Bool
is_real_directory attributes =
    not (is_reparse_point attributes) && not (bit_and attributes file_attribute_directory == 0)

abbrev pub new_file : DirEntry → List ℕ → List ℕ → List ℕ → ResourceDescriptor → File
new_file d name short sd offset = record {
  name = name;
  short_name = short;
  attributes = d.attributes;
  security_descriptor = sd;
  creation_time = d.creation_time;
  last_access_time = d.last_access_time;
  last_write_time = d.last_write_time;
  hash = d.hash;
  size = offset.original_size;
  link_id = if is_reparse_point d.attributes then 0 else d.reparse_hard_link;
  reparse_tag = if is_reparse_point d.attributes then d.reparse_hard_link % 2 ^ 32 else 0;
  reparse_reserved = if is_reparse_point d.attributes then d.reparse_hard_link / 2 ^ 32 else 0;
  streams = [];
  offset = offset;
  subdir_offset = d.subdir_offset;
}

module _ (decode : List ℕ → List ℕ) (files : FileData) where
  -- `readNextStream`: the stream, and its length.
  unfoldable pub read_next_stream : Source → Result WimError ((Stream × ℕ) × Source)
  unfolding read_bytes discard not_eof stream_name find_data
  read_next_stream s = do
    (lb, s1) ← read_bytes (λ e. oper_error stream_length_check (not_eof e)) 8 s
    let len = le_value lb
    fail_if (lt_int64 len stream_entry_size) (parse_error stream_entry [] size_too_short)
    (eb, s2) ← read_bytes (oper_error stream_entry) stream_entry_bytes s1
    ((us, left), s3) ← stream_name (le_field 28 2 eb) (len - stream_entry_size) s2
    let name = decode us
    let hash = take 20 (drop 8 eb)
    offset ← find_data stream_entry files name hash
    s4 ← discard (λ e. reading (not_eof e)) left s3
    ok (
      (record { name = name; hash = hash; size = offset.original_size; offset = offset }, len),
      s4,
    )

  unfoldable pub stream_rounds :
      ℕ → Bool → File → ℕ → Source → Result WimError ((File × ℕ) × Source)
  unfolding read_next_stream
  stream_rounds zero first f len s = ok ((f, len), s)
  stream_rounds (suc n) first f len s = elim (read_next_stream s) [
    | ok ((t, more), s1) ↦ stream_rounds n false (add_stream first t f) ((len + more) % 2 ^ 64) s1
    | err e ↦ err e
    | panic ↦ panic
  ]

module _ (decode : List ℕ → List ℕ) (files : FileData) (sds : List (List ℕ)) where
  -- The two names in their units: the name, a zero, and the short name.
  unfoldable pub entry_names : DirEntry → List ℕ → Result WimError (List ℕ × List ℕ)
  unfolding slice
  entry_names d us = do
    name ← (if d.file_name_length == 0 then ok [] else slice us 0 (d.file_name_length / 2))
    short ←
        (if d.short_name_length == 0
          then ok []
          else slice us (d.file_name_length / 2 + 1) (length us))
    ok (
      if d.file_name_length == 0 then [] else decode name,
      if d.short_name_length == 0 then [] else decode short,
    )

  -- `img.sds[dentry.SecurityID]`
  unfoldable pub security_descriptor_of : ℕ → Result WimError (List ℕ)
  security_descriptor_of id =
      if id == 2 ^ 32 - 1
      then ok []
      else if ltb id (length sds)
      then ok (get_or sds id [])
      else panic

  -- The structure behind the length: the file as it is before its streams are read.
  unfoldable pub read_entry : ℕ → Source → Result WimError ((DirEntry × File) × Source)
  unfolding read_bytes read_name entry_names find_data security_descriptor_of discard not_eof
  read_entry len s = do
    fail_if (lt_int64 len dir_entry_size) (parse_error directory_entry [] size_too_short)
    (db, s1) ← read_bytes (oper_error directory_entry) dir_entry_bytes s
    let d = dir_entry db
    let left = len - dir_entry_size
    let names_len = (d.file_name_length + 2 + d.short_name_length) % 2 ^ 16
    fail_if (ltb left names_len) (parse_error directory_entry [] no_room_for_names)
    (us, s2) ← read_name (names_len / 2) s1
    (name, short) ← entry_names d us
    offset ← find_data directory_entry files name d.hash
    fail_if (is_real_directory d.attributes && d.subdir_offset == 0)
        (parse_error directory_entry name no_subdirectory)
    fail_if (not (is_real_directory d.attributes) && not (d.subdir_offset == 0))
        (parse_error directory_entry name unexpected_subdirectory)
    sd ← security_descriptor_of d.security_id
    s3 ← discard (λ e. reading (not_eof e)) (left - names_len) s2
    ok ((d, new_file d name short sd offset), s3)

  -- `readNextEntry`: the entry with the length of it and of its streams, or nothing at the end of the
  -- directory, where eight bytes were read.
  unfoldable pub read_next_entry : Source → Result WimError ((Option File × ℕ) × Source)
  unfolding read_bytes read_entry stream_rounds
  read_next_entry s = do
    (lb, s1) ← read_bytes (oper_error directory_length_check) 8 s
    let len = le_value lb
    if len == 0 then ok ((none, 8), s1) else (do
      ((d, f), s2) ← read_entry len s1
      ((f', total), s3) ← stream_rounds decode files d.stream_count true f len s2
      fail_if (is_reparse_point d.attributes && f'.size == 0)
          (parse_error directory_entry f.name missing_reparse_stream)
      ok ((some f', total), s3))
