-- ===== src/WString.antt =====
-- internal/stringbuffer/wstring.go: buffers of UTF-16 units. The buffer is its elements over its whole
-- capacity; a nil buffer has none. The pool is not modelled: `garbage` is what a pooled buffer holds.
use go_winio.Base.{ℕ, ◌+◌, ◌-◌, ◌*◌, ◌%◌, ◌^◌, List, [], ◌∷◌, ◌++◌, Bool, true, false}
use go_winio.Base.{length, take, replicate, leb, ltb, ◌==◌, if◌then◌else◌, Option, none, some}
pub mod Resize
mod Tests

pub record WideString : Type 0 where
  pub b : List ℕ

abbrev pub min_wstring_cap : ℕ
min_wstring_cap = 310

-- `NewWString`: the pool's `New` makes a zeroed buffer, a used one comes with its contents.
pub new_wstring : Option (List ℕ) → WideString
new_wstring none = record { b = replicate min_wstring_cap 0 }
new_wstring (some garbage) = record { b = garbage }

abbrev cap_field : WideString → ℕ
cap_field w = length w.b % 2 ^ 32

pub empty : WideString → Bool
empty w = cap_field w == 0

pub cap : WideString → ℕ
unfolding empty
cap w = if empty w then 0 else cap_field w

-- `Free`: the new state, and the buffer that the pool is given.
pub free : WideString → WideString × Option (List ℕ)
unfolding empty
free w = if empty w then (w, none) else (record { b = [] }, some w.b)

-- `copy(b2, b.b)` into a zeroed buffer of `c` elements.
copied : ℕ → List ℕ → List ℕ
copied c b = take c b ++ replicate (c - length b) 0

-- The capacity that `ResizeTo` allocates.
grown : ℕ → ℕ → ℕ
grown old c =
    let c1 = if leb c min_wstring_cap then min_wstring_cap else c in
    if leb c1 (2 * old % 2 ^ 32) then 2 * old % 2 ^ 32 else c1

pub resize_to : WideString → ℕ → WideString × ℕ
unfolding grown copied cap empty
resize_to w c =
    if leb c (cap w)
    then (w, cap w)
    else (let n = grown (cap w) c in
        (record { b = if empty w then replicate n 0 else copied n w.b }, n))

-- `Buffer`; `none` is nil.
pub buffer : WideString → Option (List ℕ)
unfolding empty
buffer w = if empty w then none else some w.b

-- `Pointer`, read through: the first unit.
pub pointer : WideString → Option ℕ
pointer w = elim w.b [ [] ↦ none | x ∷ xs ↦ some x ]

-- `String` before its decoding: the units in front of the first NUL.
until_nul : List ℕ → List ℕ
until_nul [] = []
until_nul (v ∷ vs) = let rest = until_nul vs in if v == 0 then [] else v ∷ rest

-- `utf16.Decode` of the standard library is the argument `decode`.
pub to_string : (List ℕ → List ℕ) → WideString → List ℕ
unfolding until_nul
to_string decode w = decode (until_nul w.b)
