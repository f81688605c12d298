-- ===== src/Tar/Header/RoundTrip.antt =====
-- `FileInfoFromHeader` reads back what `BasicInfoHeader` wrote.
use go_winio.Base.{
  ℕ, ◌^◌, ◌≤◌, ◌<◌, ◌≡◌, refl, ap, ◌∙◌, arith, List, [], some, ltb, ◌==◌, if◌then◌else◌, Bool-cases,
  inl, inr, ok, get_key, same_text,
}
use go_winio.Tar.Decimal.{format_uint}
use go_winio.Tar.Decimal.RoundTrip.{parse_uint-format_uint}
use go_winio.Tar.PaxTime.{Time, unix, format_pax_time}
use go_winio.Tar.PaxTime.RoundTrip.{IsTime, parse-format_pax_time}
use go_winio.Tar.Header.{
  hdr_file_attributes, hdr_creation_time, type_reg, Windows, FileBasicInfo, TarHeader, to_slash,
  unix_nano, is_directory, time_of, basic_header, basic_info_header, header_attributes, filetime_of,
  header_creation_time, file_info_from_header,
}

unix-IsTime : (ns : ℕ) → ns < 2 ^ 64 → IsTime (unix 0 ns)
unfolding unix
unix-IsTime ns h = elim (Bool-cases (ltb ns (2 ^ 63))) [
  | inl z ↦ rw z (record { sec_fits = omega arith; nsec_fits = omega arith })
  | inr z ↦ rw z (record { sec_fits = omega arith; nsec_fits = omega arith })
]

-- The nanoseconds of a time are those that it was made from, before 1970 as well.
unix_nano-unix : (ns : ℕ) → ns < 2 ^ 64 → unix_nano (unix 0 ns) ≡ ns
unfolding unix_nano unix
unix_nano-unix ns h = elim (Bool-cases (ltb ns (2 ^ 63))) [
  | inl z ↦ rw z (omega arith)
  | inr z ↦ let big : 2 ^ 63 ≤ ns = ground (arith, z) in rw z (omega arith)
]

module _ (w : Windows) where
  -- A file time that an int64 of nanoseconds holds, and that is made from it again.
  pub record IsExact (ft : w.Filetime) : Type 0 where
    pub fits : w.nanoseconds ft < 2 ^ 64
    pub again : w.nsec_to_filetime (w.nanoseconds ft) ≡ ft

  pub record IsKept (info : FileBasicInfo w.Filetime) : Type 0 where
    pub creation : IsExact info.creation_time
    pub access : IsExact info.last_access_time
    pub write : IsExact info.last_write_time
    pub change : IsExact info.change_time
    pub attributes : info.file_attributes < 2 ^ 32

  filetime_of-time_of : (ft : w.Filetime) → IsExact ft → filetime_of w (time_of w ft) ≡ ft
  unfolding filetime_of time_of
  filetime_of-time_of ft e =
      ap w.nsec_to_filetime (unix_nano-unix (w.nanoseconds ft) e.fits) ∙ e.again

  -- The three parts of `FileInfoFromHeader`, where the header has both records.
  attributes_of :
      (hdr : TarHeader) (n : ℕ)
      → get_key hdr_file_attributes hdr.pax_records ≡ some (format_uint n)
      → n < 2 ^ 32
      → header_attributes w hdr ≡ ok n
  unfolding header_attributes
  attributes_of hdr n e h =
      rw (header_attributes, e, parse_uint-format_uint 32 n (omega arith) (omega arith)) refl

  creation_of :
      (hdr : TarHeader) (t : Time)
      → get_key hdr_creation_time hdr.pax_records ≡ some (format_pax_time t)
      → IsTime t
      → header_creation_time w hdr ≡ ok (filetime_of w t)
  unfolding header_creation_time
  creation_of hdr t e h = rw (header_creation_time, e, parse-format_pax_time t h) refl

  info_of :
      (hdr : TarHeader) (n : ℕ) (c : w.Filetime)
      → header_attributes w hdr ≡ ok n
      → header_creation_time w hdr ≡ ok c
      → file_info_from_header w hdr
        ≡ ok (
          hdr.name,
          if hdr.typeflag == type_reg then hdr.size else 0,
          record {
            creation_time = c;
            last_access_time = filetime_of w hdr.access_time;
            last_write_time = filetime_of w hdr.mod_time;
            change_time = filetime_of w hdr.change_time;
            file_attributes = n;
          },
        )
  unfolding file_info_from_header
  info_of hdr n c p q = rw (p, q) refl

  -- Any header with these times and records is read as the information.
  any_header :
      (hdr : TarHeader) (info : FileBasicInfo w.Filetime)
      → IsKept info
      → hdr.pax_records ≡ (basic_header w [] 0 info).pax_records
      → hdr.access_time ≡ time_of w info.last_access_time
      → hdr.mod_time ≡ time_of w info.last_write_time
      → hdr.change_time ≡ time_of w info.change_time
      → file_info_from_header w hdr
        ≡ ok (hdr.name, if hdr.typeflag == type_reg then hdr.size else 0, info)
  unfolding basic_header get_key same_text time_of
  any_header hdr info k r a m c =
      info_of hdr info.file_attributes info.creation_time
        (attributes_of hdr _ (ap (λ rs. get_key hdr_file_attributes rs) r) k.attributes)
        (creation_of hdr (time_of w info.creation_time) (ap (λ rs. get_key hdr_creation_time rs) r)
            (unix-IsTime _ k.creation.fits)
          ∙ ap (λ (ft : w.Filetime). ok ft) (filetime_of-time_of _ k.creation))
      ∙ rw
          (
            a,
            m,
            c,
            filetime_of-time_of _ k.access,
            filetime_of-time_of _ k.write,
            filetime_of-time_of _ k.change,
          )
          refl

  pub file_info-basic_info :
      (name : List ℕ) (size : ℕ) (info : FileBasicInfo w.Filetime)
      → IsKept info
      → file_info_from_header w (basic_info_header w name size info)
        ≡ ok (to_slash name, if is_directory w info then 0 else size, info)
  unfolding basic_info_header basic_header
  file_info-basic_info name size info kept = elim (Bool-cases (is_directory w info)) [
    | inl z ↦ rw z (any_header _ info kept refl refl refl refl)
    | inr z ↦ rw z (any_header _ info kept refl refl refl refl)
  ]
