-- ===== src/Lzx/Trees.antt =====
-- `readTree` and `readTrees` of wim/lzx/lzx.go: the code lengths of a block's trees.
pub mod Lengths
use go_winio.Base.{ℕ, zero, suc, ◌+◌, ◌-◌, ◌*◌, ◌/◌, ◌%◌, ◌^◌, List, [], ◌∷◌, Bool, true, false}
use go_winio.Base.{Option, none, some, ◌&&◌, ◌||◌, not, ltb, leb, ◌==◌, if◌then◌else◌}
use go_winio.Lzx.{Array, set, LzxError, corrupt, corrupt_tree, Decompressor}
use go_winio.Lzx.{maincodecount, maincodesplit, lencodecount}
use go_winio.Lzx.{Outcome, returns, panics, stuck, M, ◌>>=◌, ◌>>◌, pure, get_state, get_bits}
use go_winio.Lzx.Huffman.{Huffman, build_table, get_code, fill}

-- `var lens [k]byte; for i := range lens { lens[i] = byte(f.getBits(n)) }`
unfoldable pub read_lens : ℕ → ℕ → M (List ℕ)
read_lens zero n = pure []
read_lens (suc k) n = do l ← get_bits n; ls ← read_lens k n; pure (l % 256 ∷ ls)

-- `buildTable` as a statement.
build : List ℕ → M (Option Huffman)
build lens f = elim (build_table lens) [ none ↦ panics | some h ↦ returns h f ]

-- `(lens[i] + 17 - c) % 17` in bytes.
abbrev pub delta : ℕ → ℕ → ℕ
delta l c = (l + 17 + 256 - c) % 256 % 17

-- What one round does: it writes `count` lengths `value` from `i` on, or it ends the loop.
pub data Round : Type 0 where
  run : ℕ → ℕ → Round
  stop : LzxError → Round

-- A run of equal lengths must fit.
abbrev run_within : ℕ → ℕ → ℕ → ℕ → Round
run_within n i count value = if ltb n (i + count) then stop corrupt else run count value

-- The case for a run of one repeated length.
same_value : Option Huffman → Array → ℕ → ℕ → M Round
same_value h lens i same = do
  y ← get_code h
  pure (if ltb 16 (y % 256) then stop corrupt else run same (delta (lens i) (y % 256)))

same_round : Option Huffman → Array → ℕ → ℕ → M Round
same_round h lens n i = do
  x ← get_bits 1
  (if ltb n (i + (x + 4)) then pure (stop corrupt) else same_value h lens i (x + 4))

zero_round : ℕ → ℕ → ℕ → ℕ → M Round
zero_round n i bits least = do z ← get_bits bits; pure (run_within n i (z + least) 0)

-- The switch over the code `c`.
code_round : Option Huffman → Array → ℕ → ℕ → ℕ → M Round
code_round h lens n i c =
    if leb c 16
    then pure (run 1 (delta (lens i) c))
    else if c == 17
    then zero_round n i 4 4
    else if c == 18
    then zero_round n i 5 20
    else if c == 19
    then same_round h lens n i
    else pure (stop corrupt)

-- `if f.err != nil { return f.err }` before what follows.
abbrev pub unless_failed {ℓ} : {A : Type ℓ} → (LzxError → A) → M A → M A
unless_failed failed m f = elim f.error [ some e ↦ returns (failed e) f | none ↦ m f ]

-- One round of the loop: the code, the error that it may have left, and the switch.
tree_round : Option Huffman → Array → ℕ → ℕ → M Round
tree_round h lens n i = do x ← get_code h; unless_failed stop (code_round h lens n i (x % 256))

-- The loop over `i`, on fuel; the lengths that were written stay, also behind an error.
tree_loop : ℕ → Option Huffman → Array → ℕ → ℕ → M (Array × Option LzxError)
tree_loop zero h lens n i f = if ltb i n then stuck else returns (lens, f.error) f
tree_loop (suc fuel) h lens n i f = elim (ltb i n) [
  | false ↦ returns (lens, f.error) f
  | true ↦ elim (tree_round h lens n i f) [
    | returns (run k v) f' ↦ tree_loop fuel h (fill lens i k v) n (i + k) f'
    | returns (stop e) f' ↦ returns (lens, some e) f'
    | panics ↦ panics
    | stuck ↦ stuck
  ]
]

-- `readTree` on the `n` lengths of `lens`: the new lengths and the error. Every round writes a
-- length at least, so `n` rounds are enough. A pre-tree that `buildTable` refuses is nil.
unfoldable pub read_tree : Array → ℕ → M (Array × Option LzxError)
unfolding read_lens build tree_loop tree_round code_round same_round same_value zero_round
read_tree lens n = do
  pretree_len ← read_lens 20 4
  unless_failed (λ e. (lens, some e)) (build pretree_len >>= λ h. tree_loop n h lens n 0)

-- `lens[:]`
list_of : Array → ℕ → ℕ → List ℕ
list_of a i zero = []
list_of a i (suc n) = a i ∷ list_of a (i + 1) n

-- The two parts of `mainlens`, as slices that share its elements.
abbrev pub from : Array → ℕ → Array
from a k i = a (k + i)

abbrev pub joined : Array → ℕ → Array → Array
joined a k a' i = if ltb i k then a i else a' (i - k)

read_main_low : M (Option LzxError)
unfolding read_tree
read_main_low = do
  f ← get_state
  r ← read_tree f.mainlens maincodesplit
  (λ g.
      returns r.1
        (record g { mainlens = joined r.0 maincodesplit (from g.mainlens maincodesplit) }))

read_main_high : M (Option LzxError)
unfolding read_tree
read_main_high = do
  f ← get_state
  r ← read_tree (from f.mainlens maincodesplit) (maincodecount - maincodesplit)
  (λ g. returns r.1 (record g { mainlens = joined g.mainlens maincodesplit r.0 }))

read_length_tree : M (Option LzxError)
unfolding read_tree
read_length_tree = do
  f ← get_state
  r ← read_tree f.lenlens lencodecount
  (λ g. returns r.1 (record g { lenlens = r.0 }))

-- A step that may end the function with an error.
pub data Step (A : Type 0) : Type 0 where
  done : A → Step A
  ended : LzxError → Step A

infixl 5 ◌>>?◌
abbrev pub ◌>>?◌ : {A B : Type 0} → M (Step A) → (A → M (Step B)) → M (Step B)
m >>? k = m >>= λ s. elim s [ done a ↦ k a | ended e ↦ pure (ended e) ]

-- `if err != nil { return …, err }`
abbrev check : M (Option LzxError) → M (Step (Unit {0}))
check m = m >>= λ e. elim e [ none ↦ pure (done tt) | some x ↦ pure (ended x) ]

-- `if tree == nil { return …, errors.New("corrupt") }`
checked_build : List ℕ → M (Step (Option Huffman))
unfolding build
checked_build lens =
    build lens >>= λ h. elim h [ none ↦ pure (ended corrupt_tree) | some t ↦ pure (done (some t)) ]

read_aligned_tree : Bool → M (Step (Option Huffman))
unfolding checked_build read_lens
read_aligned_tree true = read_lens 8 3 >>= checked_build
read_aligned_tree false = pure (done none)

pub record BlockTrees : Type 0 where
  pub main : Option Huffman
  pub lengths : Option Huffman
  pub aligned : Option Huffman

-- `readTrees`; the trees of a call that fails are not used by the caller.
unfoldable pub read_trees : Bool → M (Step BlockTrees)
unfolding list_of read_aligned_tree read_main_low read_main_high read_length_tree
read_trees read_aligned = read_aligned_tree read_aligned >>? λ aligned. check read_main_low >>? λ _.
    check read_main_high >>? λ _.
    (get_state >>= λ f. checked_build (list_of f.mainlens 0 maincodecount)) >>? λ main.
    check read_length_tree >>? λ _.
    (get_state >>= λ f. checked_build (list_of f.lenlens 0 lencodecount)) >>? λ lengths.
    check (get_state >>= λ f. pure f.error) >>? λ _.
    pure (done (record { main = main; lengths = lengths; aligned = aligned }))
