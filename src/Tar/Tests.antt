-- ===== src/Tar/Tests.antt =====
-- Concrete runs of backuptar, and its theorems at concrete inputs.
use go_winio.Base.{codes, ℕ, ◌-◌, ◌^◌, ◌≡◌, refl, [], ok, err, arith}
use go_winio.Base.{◌+◌, ◌*◌, ◌/◌, if◌then◌else◌, get_key}
use go_winio.Tar.Decimal.{
  padded, printed, format_uint, format_int, scan, parse_uint, signed, parse_int,
}
use go_winio.Tar.PaxTime.{
  Time, header, unix, split_dot, all_digits, is_empty, nine_digits, must_parse, parse_fraction,
  parse_split, parse_pax_time, trim_zeros, format_pax_time,
}
use go_winio.Tar.PaxTime.RoundTrip.{parse-format_pax_time}
use go_winio.Tar.Header.{
  Windows, FileBasicInfo, to_slash, unix_nano, is_directory, time_of, basic_header,
  basic_info_header, header_attributes, filetime_of, header_creation_time, file_info_from_header,
}
use go_winio.Tar.Sparse.Contents.{Block, contents}
use go_winio.Backup.{Sink}
use go_winio.Base.{List, ◌∷◌}
use go_winio.Tar.Header.RoundTrip.{IsKept, file_info-basic_info}

-- Half a second before the epoch, a second and two nanoseconds before, and a time without a fraction.
abbrev half_before : Time
half_before = record { sec = 2 ^ 64 - 1; nsec = 500000000 }

abbrev long_before : Time
long_before = record { sec = 2 ^ 64 - 2; nsec = 999999998 }

abbrev whole : Time
whole = record { sec = 1350244992; nsec = 0 }

half_text : format_pax_time half_before ≡ codes "-0.5"
unfolding format_pax_time trim_zeros is_empty format_uint printed padded
half_text = refl

long_text : format_pax_time long_before ≡ codes "-1.000000002"
unfolding format_pax_time trim_zeros is_empty format_uint printed padded
long_text = refl

whole_text : format_pax_time whole ≡ codes "1350244992"
unfolding format_pax_time format_int format_uint printed
whole_text = refl

-- Digits behind the ninth are cut off, and a second dot is refused.
long_fraction : parse_pax_time (codes "12.0000000019") ≡ ok (record { sec = 12; nsec = 1 })
unfolding parse_pax_time parse_split split_dot parse_int parse_uint scan signed is_empty
    parse_fraction all_digits nine_digits must_parse unix
long_fraction = refl

two_dots : parse_pax_time (codes "1.2.3") ≡ err header
unfolding parse_pax_time parse_split split_dot parse_int parse_uint scan signed is_empty
    parse_fraction all_digits
two_dots = refl

parse-format_pax_time_example : parse_pax_time (format_pax_time half_before) ≡ ok half_before
parse-format_pax_time_example =
    parse-format_pax_time half_before (record { sec_fits = omega arith; nsec_fits = omega arith })

-- File times as hundreds of nanoseconds since 1601, from 1970 on.
abbrev ticks_at_1970 : ℕ
ticks_at_1970 = 116444736000000000

abbrev some_windows : Windows
some_windows = record {
  Filetime = ℕ;
  nanoseconds = λ ft. (ft - ticks_at_1970) * 100;
  nsec_to_filetime = λ n. n / 100 + ticks_at_1970;
  file_attribute_directory = 16;
}

abbrev folder : FileBasicInfo ℕ
folder = record {
  creation_time = 116444736012345678;
  last_access_time = 116444736512345678;
  last_write_time = 116444736412345678;
  change_time = 116444736312345678;
  file_attributes = 18;
}

folder-IsKept : IsKept some_windows folder
folder-IsKept = record {
  creation = record { fits = omega arith; again = refl };
  access = record { fits = omega arith; again = refl };
  write = record { fits = omega arith; again = refl };
  change = record { fits = omega arith; again = refl };
  attributes = omega arith;
}

-- A header without the two records takes the attributes of its type flag and the time of the write.
bare_header :
    file_info_from_header some_windows
      (record (basic_info_header some_windows (codes "a\\b") 7 folder) { pax_records = [] })
    ≡ ok
        (codes "a/b", 0, record folder { creation_time = 116444736412345678; file_attributes = 16 })
unfolding file_info_from_header basic_info_header basic_header time_of filetime_of header_attributes
    header_creation_time get_key to_slash unix_nano unix
bare_header = refl

file_info-basic_info_example :
    file_info_from_header some_windows (basic_info_header some_windows (codes "a\\b") 7 folder)
    ≡ ok (to_slash (codes "a\\b"), if is_directory some_windows folder then 0 else 7, folder)
file_info-basic_info_example =
    file_info-basic_info some_windows (codes "a\\b") 7 folder folder-IsKept

-- Three bytes in two blocks of a file of eight bytes.
abbrev two_blocks : List Block
two_blocks = (2, 7 ∷ 8 ∷ []) ∷ (6, 9 ∷ []) ∷ []

abbrev entry : Sink
entry = record { written = 1 ∷ []; room = 8 }

-- The contents are what the two blocks describe.
two_blocks_contents : contents 0 two_blocks 8 ≡ 0 ∷ 0 ∷ 7 ∷ 8 ∷ 0 ∷ 0 ∷ 9 ∷ 0 ∷ []
two_blocks_contents = refl
