-- ===== src/Hvsock.antt =====
-- hvsock.go: addresses of Hyper-V sockets.
use go_winio.Base.{
  ℕ, ◌==◌, ◌+◌, List, [], ◌∷◌, ◌++◌, length, get_or, ltb, not, Result, ok, err, ◌>>=◌, ◌>>◌,
  fail_if,
}
use go_winio.Base.Word.{le16, of_le16}
use go_winio.Guid.{Guid, Bytes16, to_windows_array, from_windows_array}
pub mod Address
pub mod Conn
pub mod Dial
mod Tests

abbrev pub af_hvsock : ℕ
af_hvsock = 34

abbrev zero_guid : Guid
zero_guid = record { data1 = 0; data2 = 0; data3 = 0; data4 = (0, 0, 0, 0, 0, 0, 0, 0) }

pub hvsock_guid_wildcard : Guid
hvsock_guid_wildcard = zero_guid

pub hvsock_guid_broadcast : Guid
hvsock_guid_broadcast = record {
  data1 = 0xffffffff;
  data2 = 0xffff;
  data3 = 0xffff;
  data4 = (0xff, 0xff, 0xff, 0xff, 0xff, 0xff, 0xff, 0xff);
}

pub hvsock_guid_loopback : Guid
hvsock_guid_loopback = record {
  data1 = 0xe0e16197;
  data2 = 0xdd56;
  data3 = 0x4a10;
  data4 = (0x91, 0x95, 0x5e, 0xe7, 0xa1, 0x55, 0xa8, 0x38);
}

pub hvsock_guid_silo_host : Guid
hvsock_guid_silo_host = record {
  data1 = 0x36bd0c5c;
  data2 = 0x7276;
  data3 = 0x4223;
  data4 = (0x88, 0xba, 0x7d, 0x03, 0xb6, 0x54, 0xc5, 0x68);
}

pub hvsock_guid_children : Guid
hvsock_guid_children = record {
  data1 = 0x90db8b89;
  data2 = 0xd35;
  data3 = 0x4f79;
  data4 = (0x8c, 0xe9, 0x49, 0xea, 0xa, 0xc8, 0xb7, 0xcd);
}

pub hvsock_guid_parent : Guid
hvsock_guid_parent = record {
  data1 = 0xa42e7cda;
  data2 = 0xd03f;
  data3 = 0x480c;
  data4 = (0x9c, 0xc2, 0xa4, 0xde, 0x20, 0xab, 0xb8, 0x78);
}

vsock_service_template : Guid
vsock_service_template = record {
  data1 = 0;
  data2 = 0xfacb;
  data3 = 0x11e6;
  data4 = (0xbd, 0x58, 0x64, 0x00, 0x6a, 0x79, 0x86, 0xd3);
}

pub vsock_service_id : ℕ → Guid
unfolding vsock_service_template
vsock_service_id port = record vsock_service_template { data1 = port }

pub record HvsockAddr : Type 0 where
  pub vm_id : Guid
  pub service_id : Guid

pub record RawHvsockAddr : Type 0 where
  pub family : ℕ
  pub reserved : ℕ
  pub vm_id : Guid
  pub service_id : Guid

pub data AddrError : Type 0 where
  buffer_size addr_family : AddrError

pub raw : HvsockAddr → RawHvsockAddr
raw addr = record {
  family = af_hvsock;
  reserved = 0;
  vm_id = addr.vm_id;
  service_id = addr.service_id;
}

pub from_raw : RawHvsockAddr → HvsockAddr
from_raw r = record { vm_id = r.vm_id; service_id = r.service_id }

abbrev array_bytes : Bytes16 → List ℕ
array_bytes a =
    a.0 ∷ a.1 ∷ a.2 ∷ a.3 ∷ a.4 ∷ a.5 ∷ a.6 ∷ a.7 ∷ a.8 ∷ a.9 ∷ a.10 ∷ a.11 ∷ a.12 ∷ a.13 ∷ a.14
    ∷ a.15 ∷ []

-- The structure in memory: a GUID lies there as in its Windows array.
pub raw_bytes : RawHvsockAddr → List ℕ
raw_bytes r =
    le16 r.family
    ++ (le16 r.reserved
        ++ (array_bytes (to_windows_array r.vm_id) ++ array_bytes (to_windows_array r.service_id)))

abbrev array_at : List ℕ → ℕ → Bytes16
array_at b i =
    let at = λ (k : ℕ). get_or b (i + k) 0 in
    (
      at 0,
      at 1,
      at 2,
      at 3,
      at 4,
      at 5,
      at 6,
      at 7,
      at 8,
      at 9,
      at 10,
      at 11,
      at 12,
      at 13,
      at 14,
      at 15,
    )

-- The first 36 bytes as the structure.
overlaid : List ℕ → RawHvsockAddr
overlaid b = record {
  family = of_le16 (get_or b 0 0) (get_or b 1 0);
  reserved = of_le16 (get_or b 2 0) (get_or b 3 0);
  vm_id = from_windows_array (array_at b 4);
  service_id = from_windows_array (array_at b 20);
}

-- `FromBytes`
pub from_bytes : List ℕ → Result AddrError RawHvsockAddr
unfolding overlaid
from_bytes b = do
  fail_if (ltb (length b) 36) buffer_size
  fail_if (not ((overlaid b).family == af_hvsock)) addr_family
  ok (overlaid b)
