-- ===== src/Lzx/E8.antt =====
-- `decodeE8` of wim/lzx/lzx.go. An int32 is its bit pattern.
use go_winio.Base.{
  ℕ, zero, suc, ◌+◌, ◌-◌, ◌*◌, ◌/◌, ◌%◌, ◌^◌, ◌&&◌, ◌||◌, ltb, leb, ◌==◌, if◌then◌else◌,
}
use go_winio.Base.{Bool, true, false}
use go_winio.Lzx.{Array, set}
pub mod Inverse

abbrev pub e8filesize : ℕ
e8filesize = 12000000

abbrev pub maxe8offset : ℕ
maxe8offset = 0x3fffffff

-- The order of int32 on bit patterns, and `-x`.
abbrev pub le_int32 : ℕ → ℕ → Bool
le_int32 a b = leb ((a + 2 ^ 31) % 2 ^ 32) ((b + 2 ^ 31) % 2 ^ 32)

abbrev pub lt_int32 : ℕ → ℕ → Bool
lt_int32 a b = ltb ((a + 2 ^ 31) % 2 ^ 32) ((b + 2 ^ 31) % 2 ^ 32)

abbrev pub neg_int32 : ℕ → ℕ
neg_int32 a = (2 ^ 32 - a) % 2 ^ 32

-- `abs >= -currentPtr && abs < e8filesize`
abbrev pub is_translated : ℕ → ℕ → Bool
is_translated current_ptr abs = le_int32 (neg_int32 current_ptr) abs && lt_int32 abs e8filesize

abbrev pub relative : ℕ → ℕ → ℕ
relative current_ptr abs =
    if le_int32 0 abs then (abs + 2 ^ 32 - current_ptr) % 2 ^ 32 else (abs + e8filesize) % 2 ^ 32

-- `LittleEndian.Uint32(b[i:])` and `LittleEndian.PutUint32(b[i:], v)`
abbrev pub get_uint32 : Array → ℕ → ℕ
get_uint32 b i = b i + b (i + 1) * 256 + b (i + 2) * 65536 + b (i + 3) * 16777216

abbrev pub put_uint32 : Array → ℕ → ℕ → Array
put_uint32 b i v =
    set (set (set (set b i (v % 256)) (i + 1) (v / 256 % 256)) (i + 2) (v / 65536 % 256)) (i + 3)
      (v / 16777216 % 256)

-- The value of the four bytes behind a byte 0xe8 after the round at its position.
pub translate : ℕ → ℕ → ℕ
translate current_ptr abs = if is_translated current_ptr abs then relative current_ptr abs else abs

-- One round at a byte 0xe8.
decode_at : Array → ℕ → ℕ → Array
decode_at b off i =
    let current_ptr = (off % 2 ^ 32 + i) % 2 ^ 32 in
    let abs = get_uint32 b (i + 1) in
    if is_translated current_ptr abs then put_uint32 b (i + 1) (translate current_ptr abs) else b

-- The loop, for `n` positions from `i` on; behind an instruction it goes on four bytes later.
decode_loop : ℕ → ℕ → Array → ℕ → ℕ → Array
decode_loop zero n b off i = b
decode_loop (suc fuel) n b off i =
    let far = decode_loop fuel n (decode_at b off i) off (i + 5) in
    let near = decode_loop fuel n b off (i + 1) in
    if ltb i (n - 10) then (if b i == 0xe8 then far else near) else b

-- `decodeE8` on the first `n` bytes of `b`; a round for each byte is enough.
unfoldable pub decode_e8 : Array → ℕ → ℕ → Array
unfolding decode_loop decode_at translate
decode_e8 b n off = if ltb maxe8offset off || ltb n 10 then b else decode_loop n n b off 0
