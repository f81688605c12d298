-- ===== src/Wim/Image.antt =====
-- An image of a WIM file in wim/wim.go: the reader that is kept between the calls of `readdir`, with the
-- offset that the code believes it to stand at, and the table of the security descriptors.
pub mod Position
pub mod Counted
pub mod Stale
pub mod Uncompressed
pub mod Security
use go_winio.Base.{
  ℕ, zero, suc, ◌+◌, ◌-◌, ◌*◌, ◌/◌, ◌%◌, ◌^◌, bit_and, bit_or, Bool, true, false, ◌&&◌, ◌||◌, List,
  [], ◌∷◌, ◌++◌, length, take, drop, Option, none, some, leb, ltb, ◌==◌, not, if◌then◌else◌, Result,
  ok, err, panic, ◌>>=◌, ◌>>◌, fail_if,
}
use go_winio.Base.Word.{le_value, le_field, lt_int64, sub_int64}
use go_winio.Io.{IoError}
use go_winio.Wim.Source.{
  Source, security_table, security_table_sizes, security_descriptor, root_directory, WimError,
  parse_error, reading, table_too_small, not_one_root, not_a_directory, out_of_rounds, oper_error,
  with_error, not_eof, read_bytes, discard,
}
use go_winio.Wim.Resource.{ResourceDescriptor, FileData}
use go_winio.Wim.Directory.{
  File, read_next_entry, file_attribute_directory, file_attribute_reparse_point,
}

abbrev pub chunk_size : ℕ
chunk_size = 32768

pub record Image : Type 0 where
  pub sds : Option (List (List ℕ))
  pub root_offset : ℕ
  pub reader : Option Source
  pub cur_offset : ℕ

-- `reset`: the offset of no reader is -1.
unfoldable pub reset : Image → Image
reset img = record img { reader = none; cur_offset = 2 ^ 64 - 1 }

-- The descriptors of `readSecurityDescriptors` from their sizes, of which 32 bits count, with the bytes
-- that they take up.
unfoldable pub descriptor_rounds :
    List ℕ → ℕ → Source → Result WimError ((List (List ℕ) × ℕ) × Source)
unfolding read_bytes
descriptor_rounds [] n s = ok (([], n), s)
descriptor_rounds (size ∷ sizes) n s =
    elim (read_bytes (oper_error security_descriptor) (size % 2 ^ 32) s) [
      | err e ↦ err e
      | panic ↦ panic
      | ok (sd, s1) ↦ elim (descriptor_rounds sizes (n + size % 2 ^ 32) s1) [
        | err e ↦ err e
        | panic ↦ panic
        | ok ((sds, m), s2) ↦ ok ((sd ∷ sds, m), s2)
      ]
    ]

-- The sizes in eight bytes each.
unfoldable pub size_list : ℕ → List ℕ → List ℕ
size_list zero bs = []
size_list (suc n) bs = le_value (take 8 bs) ∷ size_list n (drop 8 bs)

-- `readSecurityDescriptors`: the descriptors and the offset behind the table, whose length is rounded up
-- to eight bytes. The counts in uint32 wrap around.
unfoldable pub read_security_descriptors : Source → Result WimError ((List (List ℕ) × ℕ) × Source)
unfolding read_bytes size_list descriptor_rounds discard
read_security_descriptors s = do
  (tb, s1) ← read_bytes (oper_error security_table) 8 s
  let entries = le_field 4 4 tb
  (zb, s2) ← read_bytes (oper_error security_table_sizes) (entries * 8) s1
  ((sds, n), s3) ← descriptor_rounds (size_list entries zb) (8 + entries * 8 % 2 ^ 32) s2
  let size = (le_field 0 4 tb + 7) % 2 ^ 32 / 8 * 8
  fail_if (ltb size n) (parse_error security_descriptor [] table_too_small)
  s4 ← discard (λ e. reading e) (size - n) s3
  ok ((sds, size), s4)

abbrev pub sds_of : Image → List (List ℕ)
sds_of img = elim img.sds [ none ↦ [] | some sds ↦ sds ]

module _ (decode : List ℕ → List ℕ) (files : FileData) where
  -- The loop of `readdir`: the entries, and the length of them all with the eight bytes at the end.
  unfoldable pub entry_rounds :
      List (List ℕ) → ℕ → ℕ → Source → Result WimError ((List File × ℕ) × Source)
  unfolding read_next_entry
  entry_rounds sds zero n s = err out_of_rounds
  entry_rounds sds (suc fuel) n s = elim (read_next_entry decode files sds s) [
    | err e ↦ err e
    | panic ↦ panic
    | ok ((none, k), s1) ↦ ok (([], (n + k) % 2 ^ 64), s1)
    | ok ((some f, k), s1) ↦ elim (entry_rounds sds fuel ((n + k) % 2 ^ 64) s1) [
      | err e ↦ err e
      | panic ↦ panic
      | ok ((fs, m), s2) ↦ ok ((f ∷ fs, m), s2)
    ]
  ]

  -- A round for each byte and one more.
  unfoldable pub read_entries : List (List ℕ) → Source → Result WimError ((List File × ℕ) × Source)
  unfolding entry_rounds
  read_entries sds s = entry_rounds sds (suc (length s.bytes)) 0 s

  module _ (open_at : ℕ → Result IoError Source) where
    -- Whether the kept reader is behind the offset or far before it.
    abbrev pub is_far : Image → ℕ → Bool
    is_far img offset =
        lt_int64 offset img.cur_offset || lt_int64 ((img.cur_offset + chunk_size) % 2 ^ 64) offset

    -- The kept reader, or a new one at the offset.
    abbrev pub reader_of :
        Option Source → ℕ → ℕ → Result IoError Source → Result WimError (Source × ℕ)
    reader_of (some s) cur offset x = ok (s, cur)
    reader_of none cur offset (ok s) = ok (s, offset)
    reader_of none cur offset (err e) = err (reading e)
    reader_of none cur offset panic = panic

    abbrev pub reader_at : Image → ℕ → Result WimError (Source × ℕ)
    reader_at img offset = reader_of img.reader img.cur_offset offset (open_at offset)

    -- The bytes between the reader and the offset are passed over; `curOffset` stays.
    unfoldable pub skip_to : ℕ → ℕ → Source → Result WimError Source
    unfolding discard not_eof
    skip_to cur offset s =
        if lt_int64 cur offset
        then discard (λ e. reading (not_eof e)) (sub_int64 offset cur) s
        else ok s

    abbrev pub after_entries :
        Image → ℕ → Result WimError ((List File × ℕ) × Source) → Result WimError (List File) × Image
    after_entries img cur (ok ((fs, n), s)) =
        (ok fs, record img { reader = some s; cur_offset = (cur + n) % 2 ^ 64 })
    after_entries img cur (err e) = (err e, reset img)
    after_entries img cur panic = (panic, img)

    abbrev pub after_skip : Image → ℕ → Result WimError Source → Result WimError (List File) × Image
    after_skip img cur (ok s) = after_entries img cur (read_entries (sds_of img) s)
    after_skip img cur (err e) = (err e, reset img)
    after_skip img cur panic = (panic, img)

    abbrev pub after_open :
        Image → ℕ → Result WimError (Source × ℕ) → Result WimError (List File) × Image
    after_open img offset (ok (s, cur)) = after_skip img cur (skip_to cur offset s)
    after_open img offset (err e) = (err e, img)
    after_open img offset panic = (panic, img)

    unfoldable pub readdir : Image → ℕ → Result WimError (List File) × Image
    unfolding reset skip_to read_entries
    readdir img offset =
        let img1 = if is_far img offset then reset img else img in
        after_open img1 offset (reader_at img1 offset)

    -- The one entry of the root directory.
    abbrev root_of : Result WimError (List File) → Result WimError File
    root_of (ok (f ∷ [])) = ok f
    root_of (ok []) = err (parse_error root_directory [] not_one_root)
    root_of (ok (f ∷ g ∷ fs)) = err (parse_error root_directory [] not_one_root)
    root_of (err e) = err e
    root_of panic = panic

    abbrev read_root : Image → Result WimError File × Image
    read_root img = let (r, img1) = readdir img img.root_offset in (root_of r, img1)

    abbrev after_table :
        Image → Result WimError ((List (List ℕ) × ℕ) × Source) → Result WimError File × Image
    after_table img (ok ((sds, n), s)) =
        read_root (record { sds = some sds; root_offset = n; reader = some s; cur_offset = n })
    after_table img (err e) = (err e, img)
    after_table img panic = (panic, img)

    abbrev with_table : Image → Result IoError Source → Result WimError File × Image
    with_table img (ok s) = after_table img (read_security_descriptors s)
    with_table img (err e) = (err (reading e), img)
    with_table img panic = (panic, img)

    -- `Image.Open`: the security descriptors are read at the first call.
    unfoldable pub open_root : Image → Result WimError File × Image
    unfolding readdir read_security_descriptors
    open_root img = elim img.sds [
      | none ↦ with_table img (open_at img.root_offset)
      | some _ ↦ read_root img
    ]

    -- `FileHeader.IsDir` and `File.Readdir`.
    unfoldable pub is_dir : File → Bool
    is_dir f =
        bit_and f.attributes (bit_or file_attribute_directory file_attribute_reparse_point)
        == file_attribute_directory

    unfoldable pub read_file_dir : Image → File → Result WimError (List File) × Image
    unfolding is_dir readdir
    read_file_dir img f =
        if not (is_dir f) then (err not_a_directory, img) else readdir img f.subdir_offset
