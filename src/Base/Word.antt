-- ===== src/Base/Word.antt =====
-- Fixed-width integers and the byte orders of `encoding/binary`.
use Prim.Native.Nat.{ℕ, ◌+◌, ◌-◌, ◌*◌, ◌/◌, ◌%◌, ◌^◌, ◌<◌}
use mathlib.Core.Bool.{Bool}
use go_winio.Base.Tests.{ltb}
use go_winio.Base.Lists.{take, drop}
use mathlib.Core.List.{List, [], ◌∷◌, ◌++◌}

abbrev pub IsByte : ℕ → Type 0
IsByte b = b < 256

abbrev pub IsU16 : ℕ → Type 0
IsU16 n = n < 2 ^ 16

abbrev pub IsU32 : ℕ → Type 0
IsU32 n = n < 2 ^ 32

abbrev pub IsU64 : ℕ → Type 0
IsU64 n = n < 2 ^ 64

-- `LittleEndian.PutUint16` and `PutUint32`.
abbrev pub le16 : ℕ → List ℕ
le16 n = n % 256 ∷ n / 256 % 256 ∷ []

abbrev pub le32 : ℕ → List ℕ
le32 n = n % 256 ∷ n / 256 % 256 ∷ n / 65536 % 256 ∷ n / 16777216 % 256 ∷ []

abbrev pub le64 : ℕ → List ℕ
le64 n = le32 n ++ le32 (n / 2 ^ 32)

-- `LittleEndian.Uint16` and `Uint32`.
abbrev pub of_le16 : ℕ → ℕ → ℕ
of_le16 a b = a + b * 256

abbrev pub of_le32 : ℕ → ℕ → ℕ → ℕ → ℕ
of_le32 a b c d = a + b * 256 + c * 65536 + d * 16777216

-- a < b in int64.
abbrev pub lt_int64 : ℕ → ℕ → Bool
lt_int64 a b = ltb ((a + 2 ^ 63) % 2 ^ 64) ((b + 2 ^ 63) % 2 ^ 64)

-- a - b in int64.
abbrev pub sub_int64 : ℕ → ℕ → ℕ
sub_int64 a b = (a + 2 ^ 64 - b) % 2 ^ 64

-- The number of little-endian bytes.
abbrev pub le_value : List ℕ → ℕ
le_value [] = 0
le_value (b ∷ bs) = b + le_value bs * 256

-- The number in `n` bytes at an offset.
abbrev pub le_field : ℕ → ℕ → List ℕ → ℕ
le_field offset n bs = le_value (take n (drop offset bs))
