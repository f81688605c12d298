-- ===== src/Hvsock/Address.antt =====
-- Addresses survive their way through the memory of a system call.
use go_winio.Base.{
  ℕ, ◌≡◌, refl, ap, ◌∙◌, arith, List, ◌++◌, length, ltb, not-ltb, false, true, ◌==◌, ok,
}
use go_winio.Guid.Arrays.{InRange, from_array-to_array}
use go_winio.Hvsock.{
  af_hvsock, HvsockAddr, RawHvsockAddr, raw, from_raw, raw_bytes, from_bytes, overlaid,
}

overlaid-raw_bytes :
    (addr : HvsockAddr) (rest : List ℕ)
    → InRange addr.vm_id
    → InRange addr.service_id
    → overlaid (raw_bytes (raw addr) ++ rest) ≡ raw addr
unfolding overlaid raw_bytes raw
overlaid-raw_bytes addr rest p q =
    rw ((from_array-to_array addr.vm_id p).1, (from_array-to_array addr.service_id q).1)

long_enough :
    (addr : HvsockAddr) (rest : List ℕ) → ltb (length (raw_bytes (raw addr) ++ rest)) 36 ≡ false
unfolding raw_bytes raw
long_enough addr rest = not-ltb _ 36 (omega arith)

from_bytes_lem :
    (b : List ℕ) (r : RawHvsockAddr)
    → ltb (length b) 36 ≡ false
    → overlaid b ≡ r
    → (r.family == af_hvsock) ≡ true
    → from_bytes b ≡ ok r
unfolding from_bytes
from_bytes_lem b r h e f =
    let g : (overlaid b).family == af_hvsock ≡ true =
      ap (λ (x : RawHvsockAddr). x.family == af_hvsock) e ∙ f in
    rw (h, g) (ap (λ (x : RawHvsockAddr). ok x) e)

-- `FromBytes` reads from the memory of `raw`, whatever lies behind it, what `raw` put there, and
-- `fromRaw` makes the same address of it.
pub from_bytes-raw_bytes :
    (addr : HvsockAddr) (rest : List ℕ)
    → InRange addr.vm_id
    → InRange addr.service_id
    → (r : RawHvsockAddr) × (from_bytes (raw_bytes (raw addr) ++ rest) ≡ ok r) × (from_raw r ≡ addr)
unfolding from_raw raw
from_bytes-raw_bytes addr rest p q = (
  raw addr,
  from_bytes_lem (raw_bytes (raw addr) ++ rest) (raw addr) (long_enough addr rest)
      (overlaid-raw_bytes addr rest p q) refl,
  refl,
)
