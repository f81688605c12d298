-- ===== src/Guid/Fields.antt =====
-- The version and the variant of a GUID: what the setters write is what the getters read.
use go_winio.Base.{ℕ, ◌+◌, ◌*◌, ◌/◌, ◌%◌, ◌^◌, ◌<◌, ◌≡◌, ◌≢◌, refl, ap, ◌∙◌, arith, List, ◌++◌}
use go_winio.Base.{
  bit_and, bit_or, ◌==◌, ◌&&◌, not, ==_iff, Bool, true, false, some, ok, err, panic,
}
use go_winio.Base.Bits.{tabulated, tabulated_at}
use go_winio.Base.Word.{IsByte}
use go_winio.Guid.{Guid, Bytes16, Variant, unknown, ncs, rfc4122, microsoft, future}
use go_winio.Guid.{
  variant_byte, set_variant, variant_of_byte, variant, set_version, version, with_first,
}
use go_winio.Guid.{new_v4, new_v5, from_array, to_array, list_of_array, array_of_list}
use go_winio.Guid.Arrays.{InRange, AreBytes16, from_array-InRange}

is_variant : Variant → Variant → Bool
is_variant unknown unknown = true
is_variant ncs ncs = true
is_variant rfc4122 rfc4122 = true
is_variant microsoft microsoft = true
is_variant future future = true
is_variant _ _ = false

is_variant-eq : (v w : Variant) → is_variant v w ≡ true → v ≡ w
unfolding is_variant
is_variant-eq unknown w = ground arith
is_variant-eq ncs w = ground arith
is_variant-eq rfc4122 w = ground arith
is_variant-eq microsoft w = ground arith
is_variant-eq future w = ground arith

-- The version bits: a mask of the low twelve, and the four above them.
low_twelve_table : tabulated 65536 (λ x. bit_and x 0x0fff == x % 4096) ≡ true
unfolding tabulated
low_twelve_table = refl

high_four_table : tabulated 65536 (λ x. bit_and x 0xF000 == x / 4096 * 4096) ≡ true
unfolding tabulated
high_four_table = refl

join_table : tabulated 16 (λ v. tabulated 4096 (λ x. bit_or x (v * 4096) == x + v * 4096)) ≡ true
unfolding tabulated
join_table = refl

low_twelve : (x : ℕ) → x < 65536 → bit_and x 0x0fff ≡ x % 4096
low_twelve x h = (==_iff _ _).0 (tabulated_at 65536 _ x low_twelve_table h)

high_four : (x : ℕ) → x < 65536 → bit_and x 0xF000 ≡ x / 4096 * 4096
high_four x h = (==_iff _ _).0 (tabulated_at 65536 _ x high_four_table h)

join : (v x : ℕ) → v < 16 → x < 4096 → bit_or x (v * 4096) ≡ x + v * 4096
join v x hv hx = (==_iff _ _).0 (
    tabulated_at 4096 (λ y. bit_or y (v * 4096) == y + v * 4096) x
      (tabulated_at 16 (λ w. tabulated 4096 (λ y. bit_or y (w * 4096) == y + w * 4096)) v join_table
        hv)
      hx)

-- The new third field: the low twelve bits stay, and the version stands above them.
set_version_data3 :
    (g : Guid) (v : ℕ)
    → v < 16
    → g.data3 < 65536
    → (set_version g v).data3 ≡ g.data3 % 4096 + v * 4096
unfolding set_version
set_version_data3 g v hv h =
    rw (low_twelve g.data3 h, wide) (join v (g.data3 % 4096) hv (omega arith))
  where
    wide : v * 2 ^ 12 % 2 ^ 16 ≡ v * 4096
    wide = omega arith

version_lem : (g : Guid) → g.data3 < 65536 → version g ≡ g.data3 / 4096
unfolding version
version_lem g h = rw (high_four g.data3 h) (omega arith)

-- A version below 16 is read back after it was set; the other twelve bits of its field stay, and so do
-- the other fields.
pub version-set_version :
    (g : Guid) (v : ℕ)
    → v < 16
    → g.data3 < 2 ^ 16
    → (version (set_version g v) ≡ v)
      × ((set_version g v).data3 % 4096 ≡ g.data3 % 4096)
      × ((set_version g v).data1 ≡ g.data1)
      × ((set_version g v).data2 ≡ g.data2)
      × ((set_version g v).data4 ≡ g.data4)
version-set_version g v hv h =
    let e = set_version_data3 g v hv (omega arith) in
    let l = version_lem (set_version g v) (omega (arith, e)) in
    (
      omega (arith, e, l),
      omega (arith, e),
      unfold set_version in refl,
      unfold set_version in refl,
      unfold set_version in refl,
    )

written_variant : ℕ → Variant → Bool
unfolding variant_byte variant_of_byte is_variant
written_variant d v = elim (variant_byte d v) [
  | ok b ↦ is_variant (variant_of_byte b) v && b == b % 256
  | err e ↦ false
  | panic ↦ is_variant unknown v
]

variant_table : (v : Variant) → tabulated 256 (λ d. written_variant d v) ≡ true
unfolding tabulated written_variant
variant_table unknown = refl
variant_table ncs = refl
variant_table rfc4122 = refl
variant_table microsoft = refl
variant_table future = refl

known_table : tabulated 256 (λ b. not (is_variant (variant_of_byte b) unknown)) ≡ true
unfolding tabulated is_variant variant_of_byte
known_table = refl

-- On a byte no GUID has the unknown variant.
pub variant-ne-unknown : (g : Guid) → IsByte g.data4.0 → variant g ≢ unknown
unfolding variant is_variant
variant-ne-unknown g h e =
    let t =
      tabulated_at 256 (λ b. not (is_variant (variant_of_byte b) unknown)) g.data4.0 known_table
        h in
    cc t

from_written :
    (b : ℕ) (v : Variant)
    → (is_variant (variant_of_byte b) v && b == b % 256) ≡ true
    → (variant_of_byte b ≡ v) × IsByte b
from_written b v h =
    let (p, q) = parts (is_variant (variant_of_byte b) v) (b == b % 256) h in
    (is_variant-eq (variant_of_byte b) v p, omega (arith, (==_iff b (b % 256)).0 q))
  where
    parts : (x y : Bool) → (x && y) ≡ true → (x ≡ true) × (y ≡ true)
    parts true y k = (refl, k)
    parts false y k = (k, cc)

variant_byte_lem :
    (d : ℕ) (v : Variant)
    → IsByte d
    → v ≢ unknown
    → (b : ℕ) × (variant_byte d v ≡ ok b) × (variant_of_byte b ≡ v) × IsByte b
unfolding variant_byte written_variant
variant_byte_lem d unknown h n = absurd (n refl)
variant_byte_lem d ncs h n =
    let (p, q) =
      from_written _ ncs (tabulated_at 256 (λ x. written_variant x ncs) d (variant_table ncs) h) in
    (bit_and d 0x7f, refl, p, q)
variant_byte_lem d rfc4122 h n =
    let (p, q) =
      from_written _ rfc4122
        (tabulated_at 256 (λ x. written_variant x rfc4122) d (variant_table rfc4122) h) in
    (bit_or (bit_and d 0x3f) 0x80, refl, p, q)
variant_byte_lem d microsoft h n =
    let (p, q) =
      from_written _ microsoft
        (tabulated_at 256 (λ x. written_variant x microsoft) d (variant_table microsoft) h) in
    (bit_or (bit_and d 0x1f) 0xc0, refl, p, q)
variant_byte_lem d future h n =
    let (p, q) =
      from_written _ future
        (tabulated_at 256 (λ x. written_variant x future) d (variant_table future) h) in
    (bit_or (bit_and d 0x0f) 0xe0, refl, p, q)

-- A known variant is read back after it was set, whatever the byte was, and the other seven bytes
-- and three fields stay; to set the unknown variant panics.
pub variant-set_variant :
    (g : Guid) (v : Variant)
    → IsByte g.data4.0
    → v ≢ unknown
    → (g' : Guid) × (set_variant g v ≡ ok g')
      × (variant g' ≡ v)
      × (g' ≡ record g { data4 = with_first g.data4 g'.data4.0 })
      × IsByte g'.data4.0
unfolding set_variant variant
variant-set_variant g v h n =
    let (b, e, p, q) = variant_byte_lem g.data4.0 v h n in
    (record g { data4 = with_first g.data4 b }, rw e, p, refl, q)

-- What `NewV4` and `NewV5` return from sixteen bytes.
marked :
    (g : Guid) (v : ℕ)
    → v < 16
    → InRange g
    → (g' : Guid) × (set_variant (set_version g v) rfc4122 ≡ ok g')
      × (version g' ≡ v)
      × (variant g' ≡ rfc4122)
marked g v hv r =
    let (e, low, d1, d2, d4) = version-set_version g v hv (omega arith) in
    let byte : IsByte (set_version g v).data4.0 = rw d4 (omega arith) in
    let (g', p, q, w, b) = variant-set_variant (set_version g v) rfc4122 byte cc in
    (g', p, ap (λ (x : Guid). version x) w ∙ unfold version in e, q)

-- From every sixteen random bytes `NewV4` returns a GUID of version 4 and of the RFC 4122 variant.
pub version-new_v4 :
    (b : Bytes16)
    → AreBytes16 b
    → (g : Guid) × (new_v4 (some b) ≡ some (ok g)) × (version g ≡ 4) × (variant g ≡ rfc4122)
unfolding new_v4
version-new_v4 b h =
    let (g, p, q, r) = marked (from_array b) 4 (omega arith) (from_array-InRange b h) in
    (g, rw p, q, r)

-- Whatever digest of bytes SHA-1 returns, `NewV5` returns a GUID of version 5 and of the RFC 4122
-- variant.
pub version-new_v5 :
    (sha1 : List ℕ → List ℕ) (namespace : Guid) (name : List ℕ)
    → AreBytes16 (array_of_list (sha1 (list_of_array (to_array namespace) ++ name)))
    → (g : Guid) × (new_v5 sha1 namespace name ≡ ok g) × (version g ≡ 5) × (variant g ≡ rfc4122)
unfolding new_v5
version-new_v5 sha1 namespace name h =
    marked (from_array (array_of_list (sha1 (list_of_array (to_array namespace) ++ name)))) 5
      (omega arith) (from_array-InRange _ h)
