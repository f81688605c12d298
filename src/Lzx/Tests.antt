-- ===== src/Lzx/Tests.antt =====
-- Concrete runs of lzx.go, and its theorems at concrete inputs.
use go_winio.Base.{
  ℕ, ◌+◌, ◌-◌, ◌≤◌, ◌<◌, ◌^◌, ◌≡◌, ◌≢◌, refl, List, [], ◌∷◌, false, Option, none, some, arith,
}
use go_winio.Base.{get_or, ltb, if◌then◌else◌, replicate}
use mathlib.Core.Logic.{◌↔◌}
use go_winio.Io.{eof, read_at_least, read_full}
use go_winio.Lzx.{
  Decompressor, Outcome, returns, panics, stuck, LzxError, get_bits, need_bits, feed,
  ensure_at_least,
}
use go_winio.Lzx.Rules.{Ends}
use go_winio.Lzx.E8.{translate, decode_e8}
use go_winio.Lzx.E8.Inverse.{encode_e8_value, translate-encode}
use go_winio.Lzx.Huffman.{build_table}
use go_winio.Lzx.Huffman.Kraft.{longest, kraft, build_table-nil}
use go_winio.Lzx.Trees.{read_lens, read_tree, BlockTrees, done}
use go_winio.Lzx.Trees.Lengths.{TreeRead, read_tree-Ends, read_tree_nil_panics}
use go_winio.Lzx.Block.{read_block_header, read_compressed_block, read_block}
use go_winio.Lzx.Block.Window.{Outside, read_compressed_block-Ends}
use go_winio.Lzx.Block.Overrun.{read_block_overrun_panics}
use go_winio.Lzx.Stream.{new_reader, read}

-- A decompressor with bytes in its buffer.
abbrev with_buffer : List ℕ → ℕ → Decompressor
with_buffer bytes n = record {
  r = record { chunks = []; final = eof };
  error = none;
  unaligned = false;
  nbits = 0;
  c = 0;
  lru = λ i. 1;
  uncompressed = 4;
  window_reader = none;
  mainlens = λ _. 0;
  lenlens = λ _. 0;
  window = λ _. 0;
  b = λ i. get_or bytes i 0;
  bv = n;
  bo = 0;
}

abbrev outcome_state {ℓ} : {A : Type ℓ} → Outcome A → Decompressor → Decompressor
outcome_state (returns a f') f = f'
outcome_state panics f = f
outcome_state stuck f = f

-- An uncompressed block of four bytes, and a buffer whose header announces one of two bytes.
abbrev plain_stream : List ℕ
plain_stream =
    0x00 ∷ 0x60 ∷ 0x00 ∷ 0x40 ∷ 1 ∷ 0 ∷ 0 ∷ 0 ∷ 1 ∷ 0 ∷ 0 ∷ 0 ∷ 1 ∷ 0 ∷ 0 ∷ 0 ∷ 97 ∷ 98 ∷ 99 ∷ 100
    ∷ []

abbrev first_bytes : Option Decompressor → Option (List ℕ × Option LzxError)
first_bytes none = none
first_bytes (some f) = elim (read 3 10 f) [ returns a g ↦ some a | panics ↦ none | stuck ↦ none ]

read_plain :
    first_bytes (new_reader (record { chunks = plain_stream ∷ []; final = eof }) 4)
    ≡ some (97 ∷ 98 ∷ 99 ∷ 100 ∷ [], none)
unfolding read new_reader read_block read_block_header get_bits need_bits feed ensure_at_least
    read_at_least read_full decode_e8
read_plain = refl

translate-encode_example :
    (translate 100 (encode_e8_value 100 0xffffffb0) ≡ 0xffffffb0)
    × (encode_e8_value 100 (translate 100 0xffffffb0) ≡ 0xffffffb0)
translate-encode_example = translate-encode 100 0xffffffb0 (omega arith) (omega arith)

build_table-nil_example :
    (build_table (1 ∷ 2 ∷ 0 ∷ []) ≡ some none)
    ↔ (0 < longest (1 ∷ 2 ∷ 0 ∷ []))
      × (kraft (longest (1 ∷ 2 ∷ 0 ∷ [])) (1 ∷ 2 ∷ 0 ∷ []) ≢ 2 ^ longest (1 ∷ 2 ∷ 0 ∷ []))
build_table-nil_example = build_table-nil (1 ∷ 2 ∷ 0 ∷ []) (omega arith)

-- Twenty pre-tree lengths of one.
abbrev ones : Decompressor
ones = with_buffer (replicate 10 0x11) 10

abbrev twenty_ones : List ℕ
twenty_ones = replicate 20 1

ones_read : read_lens 20 4 ones ≡ returns twenty_ones (outcome_state (read_lens 20 4 ones) ones)
unfolding read_lens get_bits need_bits feed ensure_at_least
ones_read = refl

ones_no_error : (outcome_state (read_lens 20 4 ones) ones).error ≡ none
unfolding read_lens get_bits need_bits feed ensure_at_least
ones_no_error = refl

ones_refused : build_table twenty_ones ≡ some none
ones_refused = (build_table-nil twenty_ones (omega arith)).1 (omega arith, omega arith)

read_tree_nil_panics_example : read_tree (λ _. 0) 249 ones ≡ panics
read_tree_nil_panics_example =
    read_tree_nil_panics (λ _. 0) 249 ones (outcome_state (read_lens 20 4 ones) ones) twenty_ones
      (omega arith) ones_read ones_no_error ones_refused

read_tree-Ends_example : Ends (TreeRead (λ _. 0) 249 ones) (read_tree (λ _. 0) 249 ones)
read_tree-Ends_example = read_tree-Ends (λ _. 0) 249 ones (λ _. omega arith)

abbrev two_more : Decompressor
two_more = with_buffer (0x00 ∷ 0x60 ∷ 0x00 ∷ 0x20 ∷ replicate 12 1) 16

header_read :
    read_block_header two_more
    ≡ returns (done (3, 2)) (outcome_state (read_block_header two_more) two_more)
unfolding read_block_header get_bits need_bits feed ensure_at_least
header_read = refl

read_block_overrun_panics_example : read_block 32767 two_more ≡ panics
read_block_overrun_panics_example =
    read_block_overrun_panics 32767 2 two_more (outcome_state (read_block_header two_more) two_more)
      (omega arith) (omega arith) (omega arith) header_read

-- A tree with the codes 0 for the byte 97 and 1 for a match of two bytes at the first offset.
abbrev two_codes : BlockTrees
two_codes = record {
  main = some (record {
    nextra = 0;
    extra_size = 0;
    extra = λ _ _. 0;
    maxbits = 1;
    table = λ x. if ltb x 256 then 512 + 97 else 512 + 256;
  });
  lengths = none;
  aligned = none;
}

abbrev code_bits : Decompressor
code_bits = with_buffer (0x00 ∷ 0x40 ∷ 0 ∷ 0 ∷ []) 4

read_compressed_block-Ends_example :
    Ends
      (λ r f'. (r.0 ≤ 5 - 1) × Outside 1 5 code_bits.window f'.window)
      (read_compressed_block 1 5 two_codes code_bits)
read_compressed_block-Ends_example =
    read_compressed_block-Ends 1 5 two_codes code_bits (omega arith)
