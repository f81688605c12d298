-- ===== src/Io.antt =====
-- The parts of Go's package io that the readers of this repository call. A reader is given by the
-- chunks that its calls of `Read` will return and the error that stands behind them.
use go_winio.Base.{ℕ, zero, suc, ◌+◌, ◌-◌, ◌<◌, List, [], ◌∷◌, ◌++◌, Option, none, some}
use go_winio.Base.{length, take, drop, ltb, leb, ◌==◌, if◌then◌else◌}
pub mod Laws

pub data IoError : Type 0 where
  eof unexpected_eof short_buffer : IoError
  failed : ℕ → IoError

pub record Reader : Type 0 where
  pub chunks : List (List ℕ)
  pub final : IoError

-- `ReadAtLeast` behind its test of the buffer's length: `room` is what is left of the buffer, and
-- `got` what was read. A read returns no more than fits, and keeps the rest of the chunk.
unfoldable pub read_loop :
    IoError → List (List ℕ) → ℕ → ℕ → List ℕ → List ℕ × Option IoError × Reader
read_loop final [] min room got = (
  got,
  (if leb min (length got)
      then none
      else if ltb 0 (length got)
      then some (elim final [ eof ↦ unexpected_eof | other ↦ other ])
      else some final),
  record { chunks = []; final = final },
)
read_loop final (c ∷ cs) min room got =
    let more = read_loop final cs min (room - length c) (got ++ c) in
    if leb min (length got)
    then (got, none, record { chunks = c ∷ cs; final = final })
    else if leb (length c) room
    then more
    else (got ++ take room c, none, record { chunks = drop room c ∷ cs; final = final })

-- `ReadAtLeast(r, buf, min)` with `len(buf)` for `room`: the bytes, the error and the reader then.
unfoldable pub read_at_least : Reader → ℕ → ℕ → List ℕ × Option IoError × Reader
unfolding read_loop
read_at_least r room min =
    if ltb room min then ([], some short_buffer, r) else read_loop r.final r.chunks min room []

-- `ReadFull(r, buf)`
unfoldable pub read_full : Reader → ℕ → List ℕ × Option IoError × Reader
unfolding read_at_least
read_full r room = read_at_least r room room

-- All the bytes that a reader has left.
abbrev pub flatten : List (List ℕ) → List ℕ
flatten [] = []
flatten (c ∷ cs) = c ++ flatten cs
