-- ===== src/Utf16.antt =====
-- The coding of texts as UTF-16, and of its units as bytes, as the callers of unicode/utf16 and
-- encoding/binary use them. A text is the list of its code points.
use go_winio.Base.{
  ℕ, zero, suc, ◌+◌, ◌-◌, ◌*◌, ◌/◌, ◌%◌, ◌^◌, ◌≤◌, ◌<◌, ◌≡◌, refl, ap, arith, List, [], ◌∷◌, ◌++◌,
  append_assoc,
}
use go_winio.Base.{
  Option, none, some, length, length-append, All, All-append, leb, ltb, if◌then◌else◌, ◌&&◌,
}
use go_winio.Base.Word.{le16, of_le16}

-- `utf16.Encode` of one code point: a surrogate and what is no code point become U+FFFD.
unfoldable pub encode_rune : ℕ → List ℕ
encode_rune c =
    if ltb c 0x10000
    then (if leb 0xd800 c && ltb c 0xe000 then 0xfffd ∷ [] else c ∷ [])
    else if ltb c 0x110000
    then (0xd800 + (c - 0x10000) / 0x400) ∷ (0xdc00 + (c - 0x10000) % 0x400) ∷ []
    else 0xfffd ∷ []

unfoldable pub utf16_encode : List ℕ → List ℕ
unfolding encode_rune
utf16_encode [] = []
utf16_encode (c ∷ s) = encode_rune c ++ utf16_encode s

-- `binary.Write` of 16-bit units.
abbrev pub unit_bytes : List ℕ → List ℕ
unit_bytes [] = []
unit_bytes (u ∷ us) = le16 u ++ unit_bytes us

-- `binary.Read` of units.
unfoldable pub read_units : ℕ → List ℕ → Option (List ℕ × List ℕ)
read_units zero bs = some ([], bs)
read_units (suc n) (a ∷ b ∷ bs) = elim (read_units n bs) [
  | none ↦ none
  | some (us, rest) ↦ some (of_le16 a b ∷ us, rest)
]
read_units (suc n) _ = none

pub read_units-unit_bytes :
    (us rest : List ℕ)
    → All (λ u. u < 2 ^ 16) us
    → read_units (length us) (unit_bytes us ++ rest) ≡ some (us, rest)
unfolding read_units
read_units-unit_bytes [] rest h = refl
read_units-unit_bytes (u ∷ us) rest (p, h) =
    let e : of_le16 (u % 256) (u / 256 % 256) ≡ u = omega arith in
    rw (read_units-unit_bytes us rest h) (ap (λ (v : ℕ). some (v ∷ us, rest)) e)

encode_rune_units : (c : ℕ) → All (λ u. u < 2 ^ 16) (encode_rune c) × (0 < length (encode_rune c))
unfolding encode_rune
encode_rune_units c = ground arith

pub utf16_encode_units :
    (s : List ℕ) → All (λ u. u < 2 ^ 16) (utf16_encode s) × (length s ≤ length (utf16_encode s))
unfolding utf16_encode
utf16_encode_units [] = omega arith
utf16_encode_units (c ∷ s) =
    let (p, q) = encode_rune_units c in
    let (p', q') = utf16_encode_units s in
    (
      All-append _ (encode_rune c) (utf16_encode s) p p',
      omega (arith, length-append (encode_rune c) (utf16_encode s)),
    )

pub utf16_encode-append : (s t : List ℕ) → utf16_encode (s ++ t) ≡ utf16_encode s ++ utf16_encode t
unfolding utf16_encode
utf16_encode-append [] t = refl
utf16_encode-append (c ∷ s) t = rw (utf16_encode-append s t) (simp append_assoc)

pub unit_bytes-append : (us vs : List ℕ) → unit_bytes (us ++ vs) ≡ unit_bytes us ++ unit_bytes vs
unit_bytes-append [] vs = refl
unit_bytes-append (u ∷ us) vs = rw (unit_bytes-append us vs)

pub length-unit_bytes : (us : List ℕ) → length (unit_bytes us) ≡ length us * 2
length-unit_bytes [] = omega arith
length-unit_bytes (u ∷ us) = omega (arith, length-unit_bytes us)
