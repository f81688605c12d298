-- ===== src/Lzx/Block.antt =====
-- `readBlockHeader`, `readCompressedBlock` and `readBlock` of wim/lzx/lzx.go.
pub mod Window
pub mod Overrun
use go_winio.Base.{ℕ, zero, suc, ◌+◌, ◌-◌, ◌*◌, ◌/◌, ◌%◌, ◌^◌, List, [], ◌∷◌, Bool, true, false}
use go_winio.Base.{
  Option, none, some, ◌&&◌, ◌||◌, not, ltb, leb, ◌==◌, if◌then◌else◌, get_or, length,
}
use go_winio.Base.Word.{of_le32}
use go_winio.Io.{read_full}
use go_winio.Lzx.{
  Array, set, write, LzxError, corrupt, io, Decompressor, window_size, max_block_size, buffer_size,
}
use go_winio.Lzx.{
  Outcome, returns, panics, stuck, M, ◌>>=◌, ◌>>◌, pure, in_range, get_state, fail_with, get_bits,
  ensure_at_least,
}
use go_winio.Lzx.Huffman.{Huffman, get_code}
use go_winio.Lzx.Trees.{Step, done, ended, ◌>>?◌, BlockTrees, read_trees, unless_failed}

abbrev verbatim_block : ℕ
verbatim_block = 1

abbrev aligned_offset_block : ℕ
aligned_offset_block = 2

abbrev uncompressed_block : ℕ
uncompressed_block = 3

abbrev footer_bits : List ℕ
footer_bits =
    0 ∷ 0 ∷ 0 ∷ 0 ∷ 1 ∷ 1 ∷ 2 ∷ 2 ∷ 3 ∷ 3 ∷ 4 ∷ 4 ∷ 5 ∷ 5 ∷ 6 ∷ 6 ∷ 7 ∷ 7 ∷ 8 ∷ 8 ∷ 9 ∷ 9 ∷ 10 ∷ 10
    ∷ 11 ∷ 11 ∷ 12 ∷ 12 ∷ 13 ∷ 13 ∷ 14 ∷ []

abbrev base_position : List ℕ
base_position =
    0 ∷ 1 ∷ 2 ∷ 3 ∷ 4 ∷ 6 ∷ 8 ∷ 12 ∷ 16 ∷ 24 ∷ 32 ∷ 48 ∷ 64 ∷ 96 ∷ 128 ∷ 192 ∷ 256 ∷ 384 ∷ 512 ∷ 768
    ∷ 1024 ∷ 1536 ∷ 2048 ∷ 3072 ∷ 4096 ∷ 6144 ∷ 8192 ∷ 12288 ∷ 16384 ∷ 24576 ∷ 32768 ∷ []

-- `uint16(binary.LittleEndian.Uint32(f.b[at:at+4]))`
abbrev lru_entry : Array → ℕ → ℕ
lru_entry b at = of_le32 (b at) (b (at + 1)) (b (at + 2)) (b (at + 3)) % 2 ^ 16

-- The byte that an uncompressed block of odd size is followed by.
realign : M (Step (Unit {0}))
realign f =
    if f.unaligned
    then (ensure_at_least 1 >>= λ e. elim e [
      | some x ↦ pure (ended x)
      | none ↦ λ g. returns (done tt) (record g { bo = g.bo + 1; unaligned = false })
    ])
        f
    else returns (done tt) f

read_size : ℕ → M (Step ℕ)
read_size full =
    if not (full == 0)
    then pure (done max_block_size)
    else (get_bits 16 >>= λ size.
        if ltb max_block_size size then pure (ended corrupt) else pure (done size))

-- `if f.err != nil { return 0, 0, f.err }`
no_error : M (Step (Unit {0}))
no_error f = elim f.error [ some e ↦ returns (ended e) f | none ↦ returns (done tt) f ]

-- The three match offsets in front of an uncompressed block.
load_lru : M (Step (Unit {0}))
load_lru f =
    if leb (f.bo + 12) buffer_size
    then returns (done tt) (record f {
      lru =
          set (set (set f.lru 0 (lru_entry f.b f.bo)) 1 (lru_entry f.b (f.bo + 4))) 2
            (lru_entry f.b (f.bo + 8));
      bo = f.bo + 12;
    })
    else panics

-- The case for an uncompressed block: the rest of the 16-bit word is dropped, a whole one if no bit
-- of it is left.
uncompressed_header : M (Step (Unit {0}))
unfolding load_lru
uncompressed_header = do
  f ← get_state
  in_range (leb f.nbits 16)
  _ ← get_bits (if f.nbits == 0 then 16 else f.nbits)
  e ← ensure_at_least 12
  elim e [ some x ↦ pure (ended x) | none ↦ load_lru ]

header_of_type : ℕ → M (Step (Unit {0}))
unfolding uncompressed_header
header_of_type t =
    if t == verbatim_block || t == aligned_offset_block
    then pure (done tt)
    else if t == uncompressed_block
    then uncompressed_header
    else pure (ended corrupt)

-- `readBlockHeader`: the type of the block and its size.
unfoldable pub read_block_header : M (Step (ℕ × ℕ))
unfolding realign read_size no_error header_of_type
read_block_header = realign >>? λ _.
    (get_bits 3 >>= λ block_type. get_bits 1 >>= λ full. read_size full >>? λ size.
    no_error >>? λ _. header_of_type block_type >>? λ _. pure (done (block_type % 256, size)))

-- The footer bits of a match offset; those of an aligned block end in a code of the aligned tree.
footer : Option Huffman → ℕ → M ℕ
footer aligned offsetbits = elim aligned [
  | none ↦ get_bits offsetbits
  | some h ↦
      if leb 3 offsetbits
      then (get_bits (offsetbits - 3) >>= λ v. get_code (some h) >>= λ a. pure (v * 8 % 2 ^ 16 + a))
      else get_bits offsetbits
]

-- The case of an offset among the last three, and the case of a new one.
recent_offset : ℕ → M ℕ
recent_offset slot f =
    let offset = f.lru slot in
    returns offset (record f { lru = set (set f.lru slot (f.lru 0)) 0 offset })

-- A new offset, which the last three take in.
push_offset : ℕ → ℕ → M ℕ
push_offset slot x f =
    let offset = (get_or base_position slot 0 + x + 2 ^ 16 - 2) % 2 ^ 16 in
    returns offset (record f { lru = set (set (set f.lru 2 (f.lru 1)) 1 (f.lru 0)) 0 offset })

new_offset : Option Huffman → ℕ → M ℕ
new_offset aligned slot = do
  in_range (ltb slot 31)
  x ←
      (if ltb 0 (get_or footer_bits slot 0)
        then footer aligned (get_or footer_bits slot 0)
        else pure 0)
  push_offset slot x

match_length : Option Huffman → ℕ → M ℕ
match_length lengths low =
    if low == 7
    then (get_code lengths >>= λ x. pure ((low + x + 2) % 2 ^ 16))
    else pure ((low + 2) % 2 ^ 16)

-- `for ; i < copyend; i++ { f.window[i] = f.window[i-matchoffset] }`
copy_match : ℕ → ℕ → ℕ → Array → Array
copy_match zero i offset window = window
copy_match (suc n) i offset window =
    copy_match n (i + 1) offset (set window i (window (i - offset)))

-- What a round of the loop comes to: the next `i`, or `break`.
pub data Next : Type 0 where
  goes_on : ℕ → Next
  break : Next

literal : ℕ → ℕ → M Next
literal i x f =
    if ltb i window_size
    then returns (goes_on (i + 1)) (record f { window = set f.window i (x % 256) })
    else panics

-- A match must lie in what was written, and end in the block.
copy_round : ℕ → ℕ → ℕ → ℕ → M Next
copy_round i end offset len f =
    if not (leb offset i && leb len (end - i))
    then (do fail_with corrupt; pure break) f
    else if leb (i + len) window_size
    then returns (goes_on (i + len)) (record f { window = copy_match len i offset f.window })
    else panics

match_round : BlockTrees → ℕ → ℕ → ℕ → M Next
match_round trees i end main = do
  len ← match_length trees.lengths ((main - 256) % 8)
  offset ←
      (if ltb ((main - 256) / 8) 3
        then recent_offset ((main - 256) / 8)
        else new_offset trees.aligned ((main - 256) / 8))
  copy_round i end offset len

round : BlockTrees → ℕ → ℕ → M Next
round trees i end = do
  main ← get_code trees.main
  unless_failed (λ _. break) (if ltb main 256 then literal i main else match_round trees i end main)

-- The loop on fuel; every round moves `i` on, so `end - start` rounds are enough.
compressed_loop : ℕ → BlockTrees → ℕ → ℕ → M ℕ
compressed_loop zero trees i end f = if ltb i end then stuck else returns i f
compressed_loop (suc fuel) trees i end f = elim (ltb i end) [
  | false ↦ returns i f
  | true ↦ elim (round trees i end f) [
    | returns (goes_on j) f' ↦ compressed_loop fuel trees j end f'
    | returns break f' ↦ returns i f'
    | panics ↦ panics
    | stuck ↦ stuck
  ]
]

-- `readCompressedBlock`: the number of bytes, and the error that the state keeps.
unfoldable pub read_compressed_block : ℕ → ℕ → BlockTrees → M (ℕ × Option LzxError)
unfolding compressed_loop round match_round literal match_length recent_offset new_offset
    push_offset footer copy_round copy_match
read_compressed_block start end trees = do
  i ← compressed_loop (end - start) trees start end
  f ← get_state
  pure (i - start, f.error)

-- The bytes of an uncompressed block that are in the buffer already.
buffered : Decompressor → ℕ → ℕ
buffered f size =
    if ltb f.bo f.bv then (if ltb (f.bv - f.bo) size then f.bv - f.bo else size) else 0

abbrev copy_from : Array → ℕ → Array → ℕ → ℕ → Array
copy_from window at b from n x =
    if leb at x && ltb x (at + n) then b (from + (x - at)) else window x

-- `io.ReadFull(f.r, f.window[lo:hi])`, behind `copied` bytes from the buffer.
read_rest : ℕ → ℕ → ℕ → M (ℕ × Option LzxError)
read_rest copied lo hi f =
    let (got, e, r') = read_full f.r (hi - lo) in
    if leb lo hi && leb hi window_size
    then returns (copied + length got, elim e [ none ↦ none | some x ↦ some (io x) ])
        (record f { r = r'; window = write f.window lo got })
    else panics

-- What the buffer holds of an uncompressed block goes to the window.
take_buffered : ℕ → ℕ → Decompressor → Decompressor
take_buffered start copied f = record f {
  window = copy_from f.window start f.b f.bo copied;
  bo = f.bo + copied;
}

copy_block : ℕ → ℕ → M (ℕ × Option LzxError)
copy_block start size f =
    let copied = buffered f size in
    if leb (start + copied) window_size && leb (f.bo + copied) buffer_size
    then read_rest copied ((start + copied) % 2 ^ 16) ((start + size) % 2 ^ 16)
        (take_buffered start copied f)
    else panics

-- The part of `readBlock` for an uncompressed block.
read_uncompressed : ℕ → ℕ → M (ℕ × Option LzxError)
unfolding buffered read_rest copy_block take_buffered
read_uncompressed start size f =
    copy_block start size (if size % 2 == 1 then record f { unaligned = true } else f)

block_of_type : ℕ → ℕ × ℕ → M (ℕ × Option LzxError)
unfolding read_uncompressed
block_of_type start (block_type, size) =
    if block_type == uncompressed_block
    then read_uncompressed start size
    else (read_trees (block_type == aligned_offset_block) >>= λ s. elim s [
      | ended e ↦ pure (0, some e)
      | done trees ↦ read_compressed_block start ((start + size) % 2 ^ 16) trees
    ])

-- `readBlock`
unfoldable pub read_block : ℕ → M (ℕ × Option LzxError)
unfolding block_of_type
read_block start = read_block_header >>= λ s. elim s [
  | ended e ↦ pure (0, some e)
  | done h ↦ block_of_type start h
]
