-- ===== src/Lzx/E8/Inverse.antt =====
-- The translation of `decodeE8` against the encoding that it reverses.
use go_winio.Base.{ℕ, ◌+◌, ◌-◌, ◌%◌, ◌^◌, ◌<◌, ◌≡◌, arith, ltb, leb, ◌&&◌, if◌then◌else◌}
use go_winio.Lzx.E8.{translate, e8filesize}

-- What the compressor wrote for the relative target `rel` at position `p`: the absolute target where
-- it lies in the file, a relative one that would be taken for such a target moved out of the way.
abbrev pub encode_e8_value : ℕ → ℕ → ℕ
encode_e8_value p rel =
    let target = (rel + p) % 2 ^ 32 in
    if ltb target e8filesize
    then target
    else if leb (e8filesize - p) rel && ltb rel e8filesize
    then (rel + 2 ^ 32 - e8filesize) % 2 ^ 32
    else rel

-- At every position of a window the translation gives back each 32-bit value from its encoding, and
-- the encoding gives back each value from its translation.
pub translate-encode :
    (p v : ℕ)
    → p < 32768
    → v < 2 ^ 32
    → (translate p (encode_e8_value p v) ≡ v) × (encode_e8_value p (translate p v) ≡ v)
unfolding translate
translate-encode p v hp hv = (ground arith, ground arith)
