-- ===== src/Lzx/Stream.antt =====
-- `Read` and `NewReader` of wim/lzx/lzx.go.
use go_winio.Base.{ℕ, zero, suc, ◌+◌, ◌-◌, ◌%◌, ◌^◌, List, [], ◌∷◌, true, false}
use go_winio.Base.{Option, none, some, ltb, leb, if◌then◌else◌}
use go_winio.Io.{Reader, eof}
use go_winio.Lzx.{Array, LzxError, io, Decompressor, window_size}
use go_winio.Lzx.{returns, panics, stuck, M}
use go_winio.Lzx.E8.{decode_e8}
use go_winio.Lzx.Block.{read_block}

-- The loop over the blocks, on fuel: the error that ends it, if any.
blocks : ℕ → ℕ → M (Option LzxError)
blocks zero n f = if ltb n f.uncompressed then stuck else returns none f
blocks (suc fuel) n f = elim (ltb n f.uncompressed) [
  | false ↦ returns none f
  | true ↦ elim (read_block (n % 2 ^ 16) f) [
    | returns (k, none) f' ↦ blocks fuel (n + k) f'
    | returns (k, some e) f' ↦ returns (some e) f'
    | panics ↦ panics
    | stuck ↦ stuck
  ]
]

-- Everything is uncompressed before the first byte is read.
unfoldable pub uncompress : ℕ → M (Option LzxError)
unfolding blocks
uncompress fuel f = elim f.window_reader [
  | some at ↦ returns none f
  | none ↦ elim (blocks fuel 0 f) [
    | returns none g ↦
        if leb g.uncompressed window_size
        then returns none
            (record g { window = decode_e8 g.window g.uncompressed 0; window_reader = some 0 })
        else panics
    | returns (some e) g ↦ returns (some e) g
    | panics ↦ panics
    | stuck ↦ stuck
  ]
]

segment : Array → ℕ → ℕ → List ℕ
segment a i zero = []
segment a i (suc n) = a i ∷ segment a (i + 1) n

-- `f.windowReader.Read(b)` at the position `at`, with `len(b)` for `room`.
read_window : ℕ → ℕ → M (List ℕ × Option LzxError)
unfolding segment
read_window room at f =
    if leb f.uncompressed at
    then returns ([], some (io eof)) f
    else (let n = if ltb (f.uncompressed - at) room then f.uncompressed - at else room in
        returns (segment f.window at n, none) (record f { window_reader = some (at + n) }))

-- `Read(b)`
unfoldable pub read : ℕ → ℕ → M (List ℕ × Option LzxError)
unfolding uncompress read_window
read fuel room f = elim (uncompress fuel f) [
  | returns (some e) g ↦ returns ([], some e) g
  | returns none g ↦ elim g.window_reader [ none ↦ panics | some at ↦ read_window room at g ]
  | panics ↦ panics
  | stuck ↦ stuck
]

-- `NewReader`; `none` is the error for a size above that of the window.
unfoldable pub new_reader : Reader → ℕ → Option Decompressor
new_reader r uncompressed_size =
    if ltb window_size uncompressed_size
    then none
    else some (record {
      r = r;
      error = none;
      unaligned = false;
      nbits = 0;
      c = 0;
      lru = λ i. if ltb i 3 then 1 else 0;
      uncompressed = uncompressed_size;
      window_reader = none;
      mainlens = λ _. 0;
      lenlens = λ _. 0;
      window = λ _. 0;
      b = λ _. 0;
      bv = 0;
      bo = 0;
    })
