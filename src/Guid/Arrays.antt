-- ===== src/Guid/Arrays.antt =====
-- The byte encodings of a GUID undo one another, in both byte orders.
use go_winio.Base.{◌≡◌, arith, ◌<◌, ◌^◌}
use go_winio.Base.Word.{IsByte}
use go_winio.Guid.{Guid, Bytes8, Bytes16, ByteOrder, big_endian, little_endian}
use go_winio.Guid.{
  from_array_in, to_array_in, from_array, to_array, from_windows_array, to_windows_array,
}

abbrev pub AreBytes8 : Bytes8 → Type 0
AreBytes8 d =
    IsByte d.0
    × IsByte d.1
    × IsByte d.2
    × IsByte d.3
    × IsByte d.4
    × IsByte d.5
    × IsByte d.6
    × IsByte d.7

abbrev pub AreBytes16 : Bytes16 → Type 0
AreBytes16 b =
    (IsByte b.0 × IsByte b.1 × IsByte b.2 × IsByte b.3)
    × (IsByte b.4 × IsByte b.5 × IsByte b.6 × IsByte b.7)
    × AreBytes8 (b.8, b.9, b.10, b.11, b.12, b.13, b.14, b.15)

-- The ranges that the Go types give the fields.
pub record InRange (g : Guid) : Type 0 where
  pub data1_fits : g.data1 < 2 ^ 32
  pub data2_fits : g.data2 < 2 ^ 16
  pub data3_fits : g.data3 < 2 ^ 16
  pub data4_fits : AreBytes8 g.data4

from_array-to_array_in :
    (g : Guid) (order : ByteOrder) → InRange g → from_array_in (to_array_in g order) order ≡ g
unfolding from_array_in to_array_in
from_array-to_array_in g big_endian r = ground arith
from_array-to_array_in g little_endian r = ground arith

to_array-from_array_in :
    (b : Bytes16) (order : ByteOrder) → AreBytes16 b → to_array_in (from_array_in b order) order ≡ b
unfolding from_array_in to_array_in
to_array-from_array_in b big_endian r = ground arith
to_array-from_array_in b little_endian r = ground arith

-- A GUID is read back from its array of bytes, in the big-endian and in the Windows encoding, and
-- every array of bytes is the encoding of the GUID that is read from it.
pub from_array-to_array :
    (g : Guid)
    → InRange g
    → (from_array (to_array g) ≡ g) × (from_windows_array (to_windows_array g) ≡ g)
unfolding from_array to_array from_windows_array to_windows_array
from_array-to_array g r =
    (from_array-to_array_in g big_endian r, from_array-to_array_in g little_endian r)

pub to_array-from_array :
    (b : Bytes16)
    → AreBytes16 b
    → (to_array (from_array b) ≡ b) × (to_windows_array (from_windows_array b) ≡ b)
unfolding from_array to_array from_windows_array to_windows_array
to_array-from_array b r =
    (to_array-from_array_in b big_endian r, to_array-from_array_in b little_endian r)

pub from_array-InRange : (b : Bytes16) → AreBytes16 b → InRange (from_array b)
unfolding from_array
from_array-InRange b r = omega arith
