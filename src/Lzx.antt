-- ===== src/Lzx.antt =====
-- wim/lzx/lzx.go: the decompressor of the WIM variant of LZX. This file has its state, and the
-- functions on the bit stream; the children have the Huffman tables, the trees and the blocks.
-- A Go array is a function of the index, with the test of the index beside each access.
use go_winio.Base.{ℕ, zero, suc, ◌+◌, ◌-◌, ◌*◌, ◌/◌, ◌%◌, ◌^◌, List, [], ◌∷◌, Bool, true, false}
use go_winio.Base.{
  length, Option, none, some, bit_or, ◌&&◌, ◌||◌, not, ltb, leb, ◌==◌, if◌then◌else◌,
}
use go_winio.Io.{IoError, eof, unexpected_eof, Reader, read_at_least}
pub mod Huffman
pub mod E8
pub mod Trees
pub mod Block
pub mod Stream
pub mod Rules
mod Tests

-- `errCorrupt`, the `errors.New("corrupt")` of `readTrees`, and the errors of package io.
pub data LzxError : Type 0 where
  corrupt corrupt_tree : LzxError
  io : IoError → LzxError

abbrev pub Array : Type 0
Array = ℕ → ℕ

-- `a[i] = v`
abbrev pub set : Array → ℕ → ℕ → Array
set a i v j = if j == i then v else a j

-- `copy(a[at:], bytes)`
abbrev pub write : Array → ℕ → List ℕ → Array
write a at [] = a
write a at (x ∷ xs) = write (set a at x) (at + 1) xs

abbrev pub maincodecount : ℕ
maincodecount = 496

abbrev pub maincodesplit : ℕ
maincodesplit = 256

abbrev pub lencodecount : ℕ
lencodecount = 249

abbrev pub tablebits : ℕ
tablebits = 9

abbrev pub max_block_size : ℕ
max_block_size = 32768

abbrev pub window_size : ℕ
window_size = 32768

abbrev pub max_tree_path_len : ℕ
max_tree_path_len = 16

-- `len(f.b)`
abbrev pub buffer_size : ℕ
buffer_size = 4096

pub record Decompressor : Type 0 where
  pub r : Reader
  pub error : Option LzxError
  pub unaligned : Bool
  pub nbits : ℕ
  pub c : ℕ
  pub lru : Array
  pub uncompressed : ℕ
  pub window_reader : Option ℕ
  pub mainlens : Array
  pub lenlens : Array
  pub window : Array
  pub b : Array
  pub bv : ℕ
  pub bo : ℕ

-- What a method comes to: its result and the new state, a run-time panic, or no fuel left.
pub data Outcome {ℓ} (A : Type ℓ) : Type ℓ where
  returns : A → Decompressor → Outcome A
  panics : Outcome A
  stuck : Outcome A

abbrev pub M {ℓ} : Type ℓ → Type ℓ
M A = Decompressor → Outcome A

infixl 5 ◌>>=◌ ◌>>◌
abbrev pub ◌>>=◌ {ℓ κ} : {A : Type ℓ} {B : Type κ} → M A → (A → M B) → M B
◌>>=◌ m k f = elim (m f) [ returns a f' ↦ k a f' | panics ↦ panics | stuck ↦ stuck ]

abbrev pub ◌>>◌ {ℓ} : {B : Type ℓ} → M (Unit {0}) → M B → M B
m >> k = m >>= λ _. k

abbrev pub pure {ℓ} : {A : Type ℓ} → A → M A
pure a f = returns a f

-- An index or a slice expression is out of range unless the test holds.
abbrev pub in_range : Bool → M (Unit {0})
in_range true f = returns tt f
in_range false f = panics

abbrev pub get_state : M Decompressor
get_state f = returns f f

-- `f.fail(err)`
unfoldable pub fail : LzxError → Decompressor → Decompressor
fail e f = record f { error = elim f.error [ none ↦ some e | some e' ↦ some e' ]; bo = 0; bv = 0 }

abbrev pub fail_with : LzxError → M (Unit {0})
fail_with e f = returns tt (fail e f)

-- The buffer with its unread part moved to the front.
abbrev pub moved : Decompressor → Array
moved f j = if ltb j (f.bv - f.bo) then f.b (f.bo + j) else f.b j

-- The part of `ensureAtLeast` behind `io.ReadAtLeast`. An end of input is answered but not kept.
refill : Decompressor → List ℕ × Option IoError × Reader → Outcome (Option LzxError)
refill f (got, none, r') = returns none (record f {
  r = r';
  b = write (moved f) (f.bv - f.bo) got;
  bv = f.bv - f.bo + length got;
  bo = 0;
})
refill f (got, some eof, r') =
    returns (some (io unexpected_eof)) (record f { r = r'; b = write (moved f) (f.bv - f.bo) got })
refill f (got, some e, r') =
    returns (some (io e)) (fail (io e) (record f { r = r'; b = write (moved f) (f.bv - f.bo) got }))

unfoldable pub ensure_at_least : ℕ → M (Option LzxError)
unfolding refill fail
ensure_at_least n f = if leb (f.bo + n) f.bv then returns none f else elim f.error [
  | some e ↦ returns (some e) f
  | none ↦
      if leb f.bo f.bv && leb f.bv buffer_size
      then refill f (read_at_least f.r (buffer_size - (f.bv - f.bo)) n)
      else panics
]

-- The next 16-bit word behind the bits of `f.c`; `16 - f.nbits` is a byte.
abbrev pub take_word : Decompressor → Decompressor
take_word f = record f {
  c =
      bit_or f.c
        (bit_or (f.b (f.bo + 1) * 256) (f.b f.bo) * 2 ^ ((16 + 256 - f.nbits) % 256) % 2 ^ 32);
  nbits = (f.nbits + 16) % 256;
  bo = f.bo + 2;
}

is_unexpected_eof : Option LzxError → Bool
is_unexpected_eof (some (io unexpected_eof)) = true
is_unexpected_eof _ = false

feed_word : M Bool
feed_word f = if ltb (f.bo + 1) buffer_size then returns true (take_word f) else panics

unfoldable pub feed : M Bool
unfolding is_unexpected_eof feed_word
feed = do e ← ensure_at_least 2; (if is_unexpected_eof e then pure false else feed_word)

-- `c := uint16(f.c >> (32 - n)); f.c <<= n; f.nbits -= n`
abbrev pub shift_out : ℕ → M ℕ
shift_out n f =
    returns (f.c / 2 ^ (32 - n) % 2 ^ 16)
      (record f { c = f.c * 2 ^ n % 2 ^ 32; nbits = (f.nbits + 256 - n) % 256 })

-- `if f.nbits < n { if !f.feed() { f.fail(io.ErrUnexpectedEOF) } }`
unfoldable pub need_bits : ℕ → M (Unit {0})
need_bits n f =
    if ltb f.nbits n
    then (do fed ← feed; if fed then pure tt else fail_with (io unexpected_eof)) f
    else returns tt f

unfoldable pub get_bits : ℕ → M ℕ
get_bits n = do need_bits n; shift_out n
