-- ===== src/Io/Laws.antt =====
-- `ReadAtLeast` loses no byte, and succeeds if the reader has as many bytes as asked
-- for.
use go_winio.Base.{ℕ, ◌+◌, ◌-◌, ◌≤◌, ◌≡◌, refl, arith, List, [], ◌∷◌, ◌++◌}
use go_winio.Base.{none, length, take, drop, append_assoc}
use go_winio.Base.{length-append, length-take, take-append-drop}
use go_winio.Io.{IoError, Reader, read_loop, read_at_least, flatten}

-- What was read and what the reader has left are together what there was.
read_loop_bytes :
    (final : IoError) (cs : List (List ℕ)) (min room : ℕ) (got : List ℕ)
    → (read_loop final cs min room got).0 ++ flatten (read_loop final cs min room got).2.chunks
      ≡ got ++ flatten cs
unfolding read_loop
read_loop_bytes final [] min room got = refl
read_loop_bytes final (c ∷ cs) min room got = ground (
  arith,
  read_loop_bytes final cs min (room - length c) (got ++ c),
  append_assoc got c (flatten cs),
  append_assoc got (take room c) (drop room c ++ flatten cs),
  append_assoc (take room c) (drop room c) (flatten cs),
  take-append-drop room c,
)

read_loop_fits :
    (final : IoError) (cs : List (List ℕ)) (min room : ℕ) (got : List ℕ)
    → length (read_loop final cs min room got).0 ≤ length got + room
unfolding read_loop
read_loop_fits final [] min room got = omega arith
read_loop_fits final (c ∷ cs) min room got = ground (
  arith,
  read_loop_fits final cs min (room - length c) (got ++ c),
  length-append got c,
  length-append got (take room c),
  length-take room c,
)

-- With enough room the loop succeeds if the bytes suffice, and then it has read `min`.
read_loop_enough :
    (final : IoError) (cs : List (List ℕ)) (min room : ℕ) (got : List ℕ)
    → min ≤ length got + room
    → min ≤ length got + length (flatten cs)
    → ((read_loop final cs min room got).1 ≡ none)
      × (min ≤ length (read_loop final cs min room got).0)
unfolding read_loop
read_loop_enough final [] min room got fits h = ground arith
read_loop_enough final (c ∷ cs) min room got fits h = ground (
  arith,
  read_loop_enough final cs min (room - length c) (got ++ c),
  length-append got c,
  length-append c (flatten cs),
  length-append got (take room c),
  length-take room c,
)

module _ (r : Reader) (room min : ℕ) where
  -- Whatever the answer, the bytes read and the bytes left are the bytes that there were, and no
  -- more is read than the buffer holds.
  pub read_at_least_bytes :
      ((read_at_least r room min).0 ++ flatten (read_at_least r room min).2.chunks
        ≡ flatten r.chunks)
      × (length (read_at_least r room min).0 ≤ room)
  unfolding read_at_least
  read_at_least_bytes = ground (
    arith,
    read_loop_bytes r.final r.chunks min room [],
    read_loop_fits r.final r.chunks min room [],
  )

  pub read_at_least_enough :
      min ≤ room
      → min ≤ length (flatten r.chunks)
      → ((read_at_least r room min).1 ≡ none) × (min ≤ length (read_at_least r room min).0)
  unfolding read_at_least
  read_at_least_enough fits h = ground (arith, read_loop_enough r.final r.chunks min room [])
