-- ===== src/Guid.antt =====
-- pkg/guid/guid.go: GUIDs, their byte encodings, their text, their version and variant.
-- Arrays of bytes are tuples, a Go string is the list of its bytes.
pub mod Arrays
pub mod Fields
pub mod Text
mod Tests
use go_winio.Base.{
  ℕ, zero, suc, ◌+◌, ◌-◌, ◌*◌, ◌/◌, ◌%◌, ◌^◌, List, [], ◌∷◌, ◌++◌, Bool, true, false,
}
use go_winio.Base.{◌||◌, ◌&&◌, not, Option, none, some, length, take, drop, get_or, bit_and, bit_or}
use go_winio.Base.{ltb, leb, ◌==◌, if◌then◌else◌, Result, ok, err, panic, ◌>>=◌, ◌>>◌, fail_if}

abbrev pub Bytes8 : Type 0
Bytes8 = ℕ × ℕ × ℕ × ℕ × ℕ × ℕ × ℕ × ℕ

abbrev pub Bytes16 : Type 0
Bytes16 = ℕ × ℕ × ℕ × ℕ × ℕ × ℕ × ℕ × ℕ × ℕ × ℕ × ℕ × ℕ × ℕ × ℕ × ℕ × ℕ

pub record Guid : Type 0 where
  pub data1 : ℕ
  pub data2 : ℕ
  pub data3 : ℕ
  pub data4 : Bytes8

pub data Variant : Type 0 where
  unknown ncs rfc4122 microsoft future : Variant

-- `binary.BigEndian` and `binary.LittleEndian`.
pub data ByteOrder : Type 0 where
  big_endian little_endian : ByteOrder

abbrev uint32 : ByteOrder → ℕ → ℕ → ℕ → ℕ → ℕ
uint32 big_endian a b c d = a * 16777216 + b * 65536 + c * 256 + d
uint32 little_endian a b c d = d * 16777216 + c * 65536 + b * 256 + a

abbrev uint16 : ByteOrder → ℕ → ℕ → ℕ
uint16 big_endian a b = a * 256 + b
uint16 little_endian a b = b * 256 + a

abbrev put_uint32 : ByteOrder → ℕ → ℕ × ℕ × ℕ × ℕ
put_uint32 big_endian n = (n / 16777216 % 256, n / 65536 % 256, n / 256 % 256, n % 256)
put_uint32 little_endian n = (n % 256, n / 256 % 256, n / 65536 % 256, n / 16777216 % 256)

abbrev put_uint16 : ByteOrder → ℕ → ℕ × ℕ
put_uint16 big_endian n = (n / 256 % 256, n % 256)
put_uint16 little_endian n = (n % 256, n / 256 % 256)

from_array_in : Bytes16 → ByteOrder → Guid
from_array_in b order = record {
  data1 = uint32 order b.0 b.1 b.2 b.3;
  data2 = uint16 order b.4 b.5;
  data3 = uint16 order b.6 b.7;
  data4 = (b.8, b.9, b.10, b.11, b.12, b.13, b.14, b.15);
}

to_array_in : Guid → ByteOrder → Bytes16
to_array_in g order =
    let a = put_uint32 order g.data1 in
    let b = put_uint16 order g.data2 in
    let c = put_uint16 order g.data3 in
    let d = g.data4 in
    (a.0, a.1, a.2, a.3, b.0, b.1, c.0, c.1, d.0, d.1, d.2, d.3, d.4, d.5, d.6, d.7)

pub from_array : Bytes16 → Guid
unfolding from_array_in
from_array b = from_array_in b big_endian

pub to_array : Guid → Bytes16
unfolding to_array_in
to_array g = to_array_in g big_endian

pub from_windows_array : Bytes16 → Guid
unfolding from_array_in
from_windows_array b = from_array_in b little_endian

pub to_windows_array : Guid → Bytes16
unfolding to_array_in
to_windows_array g = to_array_in g little_endian

-- The first byte of `Data4`; an unknown variant panics.
variant_byte : ℕ → Variant → Result (Unit {0}) ℕ
variant_byte d ncs = ok (bit_and d 0x7f)
variant_byte d rfc4122 = ok (bit_or (bit_and d 0x3f) 0x80)
variant_byte d microsoft = ok (bit_or (bit_and d 0x1f) 0xc0)
variant_byte d future = ok (bit_or (bit_and d 0x0f) 0xe0)
variant_byte d unknown = panic

abbrev pub with_first : Bytes8 → ℕ → Bytes8
with_first d x = (x, d.1, d.2, d.3, d.4, d.5, d.6, d.7)

pub set_variant : Guid → Variant → Result (Unit {0}) Guid
unfolding variant_byte
set_variant g v = do d ← variant_byte g.data4.0 v; ok (record g { data4 = with_first g.data4 d })

variant_of_byte : ℕ → Variant
variant_of_byte b =
    if bit_and b 0x80 == 0
    then ncs
    else if bit_and b 0xc0 == 0x80
    then rfc4122
    else if bit_and b 0xe0 == 0xc0
    then microsoft
    else if bit_and b 0xe0 == 0xe0
    then future
    else unknown

pub variant : Guid → Variant
variant g = variant_of_byte g.data4.0

pub set_version : Guid → ℕ → Guid
set_version g v = record g { data3 = bit_or (bit_and g.data3 0x0fff) (v * 2 ^ 12 % 2 ^ 16) }

pub version : Guid → ℕ
version g = bit_and g.data3 0xF000 / 2 ^ 12 % 2 ^ 8

-- `NewV4` from the bytes that `rand.Read` filled in; `none` is its failure.
pub new_v4 : Option Bytes16 → Option (Result (Unit {0}) Guid)
new_v4 none = none
new_v4 (some b) = some (set_variant (set_version (from_array b) 4) rfc4122)

abbrev pub list_of_array : Bytes16 → List ℕ
list_of_array b =
    b.0 ∷ b.1 ∷ b.2 ∷ b.3 ∷ b.4 ∷ b.5 ∷ b.6 ∷ b.7 ∷ b.8 ∷ b.9 ∷ b.10 ∷ b.11 ∷ b.12 ∷ b.13 ∷ b.14
    ∷ b.15 ∷ []

-- `copy` of a slice into a zeroed array.
abbrev pub array_of_list : List ℕ → Bytes16
array_of_list s =
    let at = λ (i : ℕ). get_or s i 0 in
    (
      at 0,
      at 1,
      at 2,
      at 3,
      at 4,
      at 5,
      at 6,
      at 7,
      at 8,
      at 9,
      at 10,
      at 11,
      at 12,
      at 13,
      at 14,
      at 15,
    )

-- `NewV5` over the digest of `crypto/sha1`.
pub new_v5 : (List ℕ → List ℕ) → Guid → List ℕ → Result (Unit {0}) Guid
new_v5 sha1 namespace name =
    let sum = sha1 (list_of_array (to_array namespace) ++ name) in
    set_variant (set_version (from_array (array_of_list sum)) 5) rfc4122

hex_digit : ℕ → ℕ
hex_digit d = if ltb d 10 then b'0' + d else b'a' + (d - 10)

-- `%0wx`: as many digits as the width says. The fields fit their widths, so no digit is added.
hex : ℕ → ℕ → List ℕ
hex zero n = []
hex (suc w) n = hex w (n / 16) ++ (hex_digit (n % 16) ∷ [])

abbrev pub dash : ℕ
dash = b'-'

-- `String` and, as bytes, `MarshalText`.
pub to_string : Guid → List ℕ
to_string g =
    let d = g.data4 in
    hex 8 g.data1
    ++ (dash ∷ hex 4 g.data2)
    ++ (dash ∷ hex 4 g.data3)
    ++ (dash ∷ (hex 2 d.0 ++ hex 2 d.1))
    ++ (dash ∷ (hex 2 d.2 ++ hex 2 d.3 ++ hex 2 d.4 ++ hex 2 d.5 ++ hex 2 d.6 ++ hex 2 d.7))

pub data GuidError : Type 0 where
  invalid_guid : GuidError

-- The digits that `strconv.ParseUint` takes in base 16.
hex_value : ℕ → Option ℕ
hex_value c =
    if leb b'0' c && leb c b'9'
    then some (c - b'0')
    else if leb b'a' c && leb c b'f'
    then some (c - b'a' + 10)
    else if leb b'A' c && leb c b'F'
    then some (c - b'A' + 10)
    else none

-- The loop of `ParseUint(s, 16, bits)`, with `max` for `1<<bits - 1`.
parse_hex : ℕ → List ℕ → ℕ → Option ℕ
parse_hex max [] n = some n
parse_hex max (c ∷ s) n = elim (hex_value c) [
  | none ↦ none
  | some d ↦ if ltb max (n * 16 + d) then none else parse_hex max s (n * 16 + d)
]

-- `ParseUint(s[lo:hi], 16, bits)`; every error of it is reported in the same words.
parse_part : List ℕ → ℕ → ℕ → ℕ → Result GuidError ℕ
parse_part s lo hi bits =
    let part = take (hi - lo) (drop lo s) in
    if length part == 0
    then err invalid_guid
    else elim (parse_hex (2 ^ bits - 1) part 0) [ none ↦ err invalid_guid | some n ↦ ok n ]

-- `FromString` and, where the result is assigned, `UnmarshalText`. Behind the test of the length
-- every index is in range.
pub from_string : List ℕ → Result GuidError Guid
from_string s = do
  fail_if (not (length s == 36)) invalid_guid
  fail_if
      (not (get_or s 8 0 == dash)
        || not (get_or s 13 0 == dash)
        || not (get_or s 18 0 == dash)
        || not (get_or s 23 0 == dash))
      invalid_guid
  d1 ← parse_part s 0 8 32
  d2 ← parse_part s 9 13 16
  d3 ← parse_part s 14 18 16
  b0 ← parse_part s 19 21 8
  b1 ← parse_part s 21 23 8
  b2 ← parse_part s 24 26 8
  b3 ← parse_part s 26 28 8
  b4 ← parse_part s 28 30 8
  b5 ← parse_part s 30 32 8
  b6 ← parse_part s 32 34 8
  b7 ← parse_part s 34 36 8
  ok (record { data1 = d1; data2 = d2; data3 = d3; data4 = (b0, b1, b2, b3, b4, b5, b6, b7) })
