-- ===== src/Lzx/Huffman.antt =====
-- `buildTable` and `getCode` of wim/lzx/lzx.go.
pub mod Codes
pub mod Kraft
use go_winio.Base.{ℕ, zero, suc, ◌+◌, ◌-◌, ◌*◌, ◌/◌, ◌%◌, ◌^◌, List, [], ◌∷◌, Bool, true, false}
use go_winio.Base.{Option, none, some, bit_or, ◌&&◌, ◌||◌, not, ltb, leb, ◌==◌, if◌then◌else◌}
use go_winio.Io.{unexpected_eof}
use go_winio.Lzx.{Array, set, tablebits, max_tree_path_len, LzxError, corrupt, io, Decompressor}
use go_winio.Lzx.{
  Outcome, returns, panics, stuck, M, ◌>>=◌, ◌>>◌, pure, in_range, get_state, fail, fail_with, feed,
}

-- `extra` has `nextra` tables of `extra_size` entries each.
pub record Huffman : Type 0 where
  pub nextra : ℕ
  pub extra_size : ℕ
  pub extra : ℕ → Array
  pub maxbits : ℕ
  pub table : Array

-- `var a [n]uint`
abbrev pub zeros : Array
zeros _ = 0

abbrev pub table_size : ℕ
table_size = 2 ^ tablebits

-- `count[cl]++` and the maximum, over the code lengths; `none` is an index out of range.
count_lens : List ℕ → Array → ℕ → Option (Array × ℕ)
count_lens [] count max = some (count, max)
count_lens (cl ∷ cls) count max =
    let rest = count_lens cls (set count cl (count cl + 1)) (if ltb max cl then cl else max) in
    if leb cl max_tree_path_len then rest else none

-- The loop over `i` that finds the first code of each length; `n` counts the rounds that are left.
first_codes : ℕ → ℕ → Array → Array → ℕ → Array × ℕ
first_codes zero i count first code = (first, code)
first_codes (suc n) i count first code =
    first_codes n (i + 1) count (set first i (code * 2)) (code * 2 + count i)

-- The links to the extra tables: entry `code` of `core` and above has the number `code - core`.
abbrev linked : ℕ → Array
linked core x = if leb core x && ltb x table_size then (x - core) % 2 ^ 16 else 0

-- A run of `n` entries from `from` on is given the value `v`.
abbrev pub fill : Array → ℕ → ℕ → ℕ → Array
fill a from n v x = if leb from x && ltb x (from + n) then v else a x

empty_tables : ℕ → Array → Huffman
empty_tables max first =
    if ltb tablebits max
    then (let core = first (tablebits + 1) / 2 in
        record {
          nextra = table_size - core;
          extra_size = 2 ^ (max - tablebits);
          extra = λ _. zeros;
          maxbits = max;
          table = linked core;
        })
    else record { nextra = 0; extra_size = 0; extra = λ _. zeros; maxbits = max; table = zeros }

-- The entries of one code of at most `tablebits` bits.
short_code : Huffman → ℕ → ℕ → ℕ → Option Huffman
short_code h code cl v =
    let extended = code * 2 ^ (tablebits - cl) in
    let n = 2 ^ (tablebits - cl) in
    if leb (extended + n) table_size
    then some (record h { table = fill h.table extended n v })
    else none

-- The entries of one longer code, in the extra table of its first `tablebits` bits.
long_code : Huffman → ℕ → ℕ → ℕ → Option Huffman
long_code h code cl v =
    let prefix = code / 2 ^ (cl - tablebits) in
    let extended = code % 2 ^ (cl - tablebits) * 2 ^ (h.maxbits - cl) in
    let n = 2 ^ (h.maxbits - cl) in
    let link = h.table prefix in
    if ltb prefix table_size && ltb link h.nextra && leb (extended + n) h.extra_size
    then some
        (record h { extra = λ t. if t == link then fill (h.extra t) extended n v else h.extra t })
    else none

-- The loop over the code lengths, for the symbols from `i` on.
fill_codes : List ℕ → ℕ → Array → Huffman → Option Huffman
fill_codes [] i first h = some h
fill_codes (zero ∷ cls) i first h = fill_codes cls (i + 1) first h
fill_codes (suc k ∷ cls) i first h =
    let cl = suc k in
    let code = first cl in
    let v = bit_or (cl * 2 ^ 9 % 2 ^ 16) (i % 2 ^ 16) in
    elim (if leb cl tablebits then short_code h code cl v else long_code h code cl v) [
      | none ↦ none
      | some h' ↦ fill_codes cls (i + 1) (set first cl (code + 1)) h'
    ]

abbrev no_codes : Huffman
no_codes = record { nextra = 0; extra_size = 0; extra = λ _. zeros; maxbits = 0; table = zeros }

-- The part of `buildTable` behind the counts.
table_of : List ℕ → Array → ℕ → Option (Option Huffman)
table_of codelens count max =
    let (first, code) = first_codes max 1 count zeros 0 in
    if max == 0
    then some (some no_codes)
    else if not (code == 2 ^ max)
    then some none
    else elim (fill_codes codelens 0 first (empty_tables max first)) [
      | none ↦ none
      | some h ↦ some (some h)
    ]

-- The outer `none` is a panic, the inner one the answer nil.
pub build_table : List ℕ → Option (Option Huffman)
build_table codelens = elim (count_lens codelens zeros 0) [
  | none ↦ none
  | some (count, max) ↦ table_of codelens count max
]

-- The table lookup of `getCode`; the extra tables are read only where they are.
unfoldable pub lookup_code : Huffman → M ℕ
lookup_code h f =
    let e = h.table (f.c / 2 ^ (32 - tablebits)) in
    let at = f.c * 2 ^ tablebits % 2 ^ 32 / 2 ^ (32 - (h.maxbits - tablebits)) in
    if leb (2 ^ 9) e
    then returns e f
    else if ltb e h.nextra && ltb at h.extra_size
    then returns (h.extra e at) f
    else panics

-- Only the length of the code is consumed.
unfoldable pub consume : ℕ → M ℕ
consume e f =
    let n = e / 2 ^ 9 % 256 in
    if leb n f.nbits
    then returns (e % 2 ^ 9) (record f { c = f.c * 2 ^ n % 2 ^ 32; nbits = f.nbits - n })
    else returns 0 (fail (io unexpected_eof) f)

unfoldable pub top_up : M (Unit {0})
top_up f = if ltb f.nbits max_tree_path_len then (do _ ← feed; pure tt) f else returns tt f

-- A nil tree panics.
unfoldable pub get_code : Option Huffman → M ℕ
get_code none = λ f. panics
get_code (some h) =
    if ltb 0 h.maxbits
    then (do top_up; e ← lookup_code h; consume e)
    else (do fail_with corrupt; pure 0)
