-- ===== src/Guid/Tests.antt =====
-- Concrete runs of guid.go, and its theorems at concrete inputs.
use go_winio.Base.{codes, ◌≡◌, refl, ok, err, arith}
use go_winio.Guid.{Guid, Bytes16, invalid_guid}
use go_winio.Guid.{from_array, to_array, from_windows_array, to_windows_array}
use go_winio.Guid.{hex, hex_digit, to_string, hex_value, parse_hex, parse_part, from_string}
use go_winio.Guid.Arrays.{InRange, from_array-to_array}
use go_winio.Guid.Text.{from_string-to_string}

abbrev sample : Guid
sample = record {
  data1 = 0x73c39589;
  data2 = 0x192e;
  data3 = 0x4c64;
  data4 = (0x9a, 0xcf, 0x6c, 0x5d, 0x0a, 0xa1, 0x85, 0x28);
}

abbrev sample_bytes : Bytes16
sample_bytes =
    (0x73, 0xc3, 0x95, 0x89, 0x19, 0x2e, 0x4c, 0x64, 0x9a, 0xcf, 0x6c, 0x5d, 0x0a, 0xa1, 0x85, 0x28)

sample_text : to_string sample ≡ codes "73c39589-192e-4c64-9acf-6c5d0aa18528"
unfolding to_string hex hex_digit
sample_text = refl

upper_case : from_string (codes "73C39589-192E-4C64-9ACF-6C5D0AA18528") ≡ ok sample
unfolding from_string parse_part parse_hex hex_value
upper_case = refl

bad_dash : from_string (codes "73C39589+192E-4C64-9ACF-6C5D0AA18528") ≡ err invalid_guid
unfolding from_string
bad_dash = refl

sample-InRange : InRange sample
sample-InRange = omega arith

from_string-to_string_example : from_string (to_string sample) ≡ ok sample
from_string-to_string_example = from_string-to_string sample sample-InRange

from_array-to_array_example :
    (from_array (to_array sample) ≡ sample)
    × (from_windows_array (to_windows_array sample) ≡ sample)
from_array-to_array_example = from_array-to_array sample sample-InRange
