-- ===== src/Tar/Header.antt =====
-- The basic information of a file in a tar header: `BasicInfoHeader` and `FileInfoFromHeader` of
-- backuptar/tar.go. The times and constants of golang.org/x/sys/windows are parameters.
pub mod RoundTrip
use go_winio.Base.{
  ℕ, ◌+◌, ◌*◌, ◌%◌, ◌^◌, bit_and, bit_or, Bool, not, List, [], ◌∷◌, Option, none, some, ◌==◌,
  if◌then◌else◌, Result, ok, err, panic, ◌>>=◌, codes, get_key, put_key,
}
use go_winio.Tar.Decimal.{format_uint, parse_uint}
use go_winio.Tar.PaxTime.{Time, PaxError, unix, format_pax_time, parse_pax_time}

-- What is used of that package: the nanoseconds of a file time since 1970, as an int64, the file time
-- of such a number, and the attribute of a directory.
pub record Windows : Type 1 where
  pub Filetime : Type 0
  pub nanoseconds : Filetime → ℕ
  pub nsec_to_filetime : ℕ → Filetime
  pub file_attribute_directory : ℕ

pub record FileBasicInfo (F : Type 0) : Type 0 where
  pub creation_time : F
  pub last_access_time : F
  pub last_write_time : F
  pub change_time : F
  pub file_attributes : ℕ

-- What these functions use of `Header` of archive/tar, but for its format, which is always PAX. The type
-- flags are bytes.
pub record TarHeader : Type 0 where
  pub name : List ℕ
  pub size : ℕ
  pub mode : ℕ
  pub typeflag : ℕ
  pub mod_time : Time
  pub access_time : Time
  pub change_time : Time
  pub pax_records : List (List ℕ × List ℕ)

abbrev pub type_reg : ℕ
type_reg = b'0'

abbrev pub type_dir : ℕ
type_dir = b'5'

abbrev pub c_isdir : ℕ
c_isdir = 16384

abbrev pub hdr_file_attributes : List ℕ
hdr_file_attributes = codes "MSWINDOWS.fileattr"

abbrev pub hdr_creation_time : List ℕ
hdr_creation_time = codes "LIBARCHIVE.creationtime"

-- `filepath.ToSlash`.
unfoldable pub to_slash : List ℕ → List ℕ
to_slash [] = []
to_slash (c ∷ s) = (if c == b'\\' then b'/' else c) ∷ to_slash s

-- `Time.UnixNano`.
unfoldable pub unix_nano : Time → ℕ
unix_nano t = (t.sec * 10 ^ 9 + t.nsec) % 2 ^ 64

pub data InfoError : Type 0 where
  bad_attributes : InfoError
  bad_time : PaxError → InfoError

module _ (w : Windows) where
  abbrev pub is_directory : FileBasicInfo w.Filetime → Bool
  is_directory info = not (bit_and info.file_attributes w.file_attribute_directory == 0)

  -- `time.Unix(0, ft.Nanoseconds())`.
  unfoldable pub time_of : w.Filetime → Time
  unfolding unix
  time_of ft = unix 0 (w.nanoseconds ft)

  unfoldable pub basic_header : List ℕ → ℕ → FileBasicInfo w.Filetime → TarHeader
  unfolding to_slash time_of format_uint format_pax_time
  basic_header name size info = record {
    name = to_slash name;
    size = size;
    mode = 0;
    typeflag = type_reg;
    mod_time = time_of info.last_write_time;
    change_time = time_of info.change_time;
    access_time = time_of info.last_access_time;
    pax_records =
        put_key hdr_creation_time (format_pax_time (time_of info.creation_time))
          (put_key hdr_file_attributes (format_uint info.file_attributes) []);
  }

  unfoldable pub basic_info_header : List ℕ → ℕ → FileBasicInfo w.Filetime → TarHeader
  unfolding basic_header
  basic_info_header name size info =
      let hdr = basic_header name size info in
      if is_directory info
      then record hdr { mode = bit_or hdr.mode c_isdir; size = 0; typeflag = type_dir }
      else hdr

  -- The attributes of `FileInfoFromHeader`: of their record, or of the type flag.
  unfoldable pub header_attributes : TarHeader → Result InfoError ℕ
  unfolding parse_uint
  header_attributes hdr = elim (get_key hdr_file_attributes hdr.pax_records) [
    | none ↦ ok (if hdr.typeflag == type_dir then bit_or 0 w.file_attribute_directory else 0)
    | some s ↦ elim (parse_uint 32 s) [ none ↦ err bad_attributes | some n ↦ ok n ]
  ]

  unfoldable pub filetime_of : Time → w.Filetime
  unfolding unix_nano
  filetime_of t = w.nsec_to_filetime (unix_nano t)

  -- The creation time: of its record, or the time of the last write.
  unfoldable pub header_creation_time : TarHeader → Result InfoError w.Filetime
  unfolding filetime_of parse_pax_time
  header_creation_time hdr = elim (get_key hdr_creation_time hdr.pax_records) [
    | none ↦ ok (filetime_of hdr.mod_time)
    | some s ↦ elim (parse_pax_time s) [
      | ok t ↦ ok (filetime_of t)
      | err e ↦ err (bad_time e)
      | panic ↦ panic
    ]
  ]

  unfoldable pub file_info_from_header :
      TarHeader → Result InfoError (List ℕ × ℕ × FileBasicInfo w.Filetime)
  unfolding header_attributes header_creation_time filetime_of
  file_info_from_header hdr = do
    attributes ← header_attributes hdr
    creation ← header_creation_time hdr
    ok (
      hdr.name,
      if hdr.typeflag == type_reg then hdr.size else 0,
      record {
        creation_time = creation;
        last_access_time = filetime_of hdr.access_time;
        last_write_time = filetime_of hdr.mod_time;
        change_time = filetime_of hdr.change_time;
        file_attributes = attributes;
      },
    )
