-- ===== src/Etw/Metadata/Tags.antt =====
-- `writeTags` ends, and its bytes are read back.
use go_winio.Base.{ℕ, ◌+◌, ◌-◌, ◌*◌, ◌/◌, ◌%◌, ◌^◌, ◌<◌, ◌≡◌, refl, arith, List, [], ◌∷◌, ◌++◌}
use go_winio.Base.{
  Option, none, some, true, bit_or, ◌==◌, ==_iff, ltb, if◌then◌else◌, inl, inr, ◌⊎◌, ◌≢◌, false, ap,
  ◌∙◌,
}
use native.Mathlib.Decide.{ℕ_discrete}
use go_winio.Base.Bits.{tabulated, tabulated_at}
use go_winio.Etw.Metadata.{tags_loop, tags_bytes}

-- The reading of the format: seven bits a byte, the highest group first, with the top bit set where
-- another byte follows. The first group counts from bit 21, each next one 128 times less.
pub read_tags : List ℕ → Option (ℕ × List ℕ)
read_tags [] = none
read_tags (b ∷ bs) =
    let more = read_tags bs in
    if ltb b 128
    then some (b * 2 ^ 21, bs)
    else elim more [ none ↦ none | some (x, rest) ↦ some ((b - 128) * 2 ^ 21 + x / 128, rest) ]

top_bit_table : tabulated 256 (λ b. bit_or b 0x80 == b % 128 + 128) ≡ true
unfolding tabulated
top_bit_table = refl

pub set_top_bit : (b : ℕ) → b < 256 → bit_or b 0x80 ≡ b % 128 + 128
set_top_bit b h = (==_iff _ _).0 (tabulated_at 256 _ b top_bit_table h)

-- The bytes of a value are there, and are read as its low 28 bits, whatever follows them.
abbrev pub ReadBack : ℕ → Option (List ℕ) → Type 0
ReadBack t none = ⊥
ReadBack t (some bytes) = (rest : List ℕ) → read_tags (bytes ++ rest) ≡ some (t % 2 ^ 28, rest)

byte_of : ℕ → ℕ
byte_of t = bit_or (t / 2 ^ 21 % 256) 0x80

last_byte :
    (t : ℕ) (rest : List ℕ)
    → t % 2 ^ 21 ≡ 0
    → read_tags (t / 2 ^ 21 % 128 ∷ rest) ≡ some (t % 2 ^ 28, rest)
unfolding read_tags
last_byte t rest h = ground arith

inner_byte :
    (t : ℕ) (bs rest : List ℕ)
    → read_tags bs ≡ some (t * 2 ^ 7 % 2 ^ 32 % 2 ^ 28, rest)
    → read_tags (byte_of t ∷ bs) ≡ some (t % 2 ^ 28, rest)
unfolding read_tags byte_of
inner_byte t bs rest h = ground (arith, set_top_bit (t / 2 ^ 21 % 256))

-- One byte, from the bytes that follow if there are some.
tags_step :
    (t : ℕ) (more : Option (List ℕ))
    → (t % 2 ^ 21 ≡ 0) ⊎ ReadBack (t * 2 ^ 7 % 2 ^ 32) more
    → ReadBack t (
        if t % 2 ^ 21 == 0
        then some (t / 2 ^ 21 % 128 ∷ [])
        else elim more [ none ↦ none | some bytes ↦ some (bit_or (t / 2 ^ 21 % 256) 0x80 ∷ bytes) ])
unfolding byte_of
tags_step t more h = elim (ℕ_discrete (t % 2 ^ 21) 0) [
  | yes e ↦ rw ((==_iff (t % 2 ^ 21) 0).1 e) (λ rest. last_byte t rest e)
  | no d ↦ rw (not_zero (t % 2 ^ 21) d) (go more (other h d))
]
  where
    not_zero : (k : ℕ) → k ≢ 0 → (k == 0) ≡ false
    not_zero k d = ground arith

    other : {A : Type 0} → (t % 2 ^ 21 ≡ 0) ⊎ A → t % 2 ^ 21 ≢ 0 → A
    other (inl e) d = absurd (d e)
    other (inr a) d = a

    go :
        (o : Option (List ℕ))
        → ReadBack (t * 2 ^ 7 % 2 ^ 32) o
        → ReadBack t
            (elim o [ none ↦ none | some bytes ↦ some (bit_or (t / 2 ^ 21 % 256) 0x80 ∷ bytes) ])
    go none r = r
    go (some bytes) r = λ rest. inner_byte t (bytes ++ rest) rest (r rest)

-- With one, two, three and four rounds the values with so many groups are written.
one_round : (t : ℕ) → t % 2 ^ 21 ≡ 0 → ReadBack t (tags_loop 1 t)
unfolding tags_loop
one_round t h = tags_step t none (inl h)

two_rounds : (t : ℕ) → t % 2 ^ 14 ≡ 0 → ReadBack t (tags_loop 2 t)
unfolding tags_loop
two_rounds t h = tags_step t _ (inr (one_round (t * 2 ^ 7 % 2 ^ 32) (omega arith)))

three_rounds : (t : ℕ) → t % 2 ^ 7 ≡ 0 → ReadBack t (tags_loop 3 t)
unfolding tags_loop
three_rounds t h = tags_step t _ (inr (two_rounds (t * 2 ^ 7 % 2 ^ 32) (omega arith)))

tags_loop-ReadBack : (t : ℕ) → ReadBack t (tags_loop 4 t)
unfolding tags_loop
tags_loop-ReadBack t = tags_step t _ (inr (three_rounds (t * 2 ^ 7 % 2 ^ 32) (omega arith)))

pub tags_bytes-ReadBack : (tags : ℕ) → ReadBack (tags % 2 ^ 28) (tags_bytes tags)
unfolding tags_bytes
tags_bytes-ReadBack tags = tags_loop-ReadBack (tags % 2 ^ 28)

-- Four rounds of the loop are enough for all tags, and the bytes are read as the low 28 bits of the
-- tags, whatever follows them.
pub read_tags-tags_bytes :
    (tags : ℕ) (rest : List ℕ)
    → (bytes : List ℕ) × (tags_bytes tags ≡ some bytes)
      × (read_tags (bytes ++ rest) ≡ some (tags % 2 ^ 28, rest))
unfolding tags_bytes
read_tags-tags_bytes tags rest =
    go (tags_loop 4 (tags % 2 ^ 28)) refl (tags_loop-ReadBack (tags % 2 ^ 28))
  where
    go :
        (o : Option (List ℕ))
        → tags_loop 4 (tags % 2 ^ 28) ≡ o
        → ReadBack (tags % 2 ^ 28) o
        → (bytes : List ℕ) × (tags_loop 4 (tags % 2 ^ 28) ≡ some bytes)
          × (read_tags (bytes ++ rest) ≡ some (tags % 2 ^ 28, rest))
    go none e r = absurd r
    go (some bytes) e r = (bytes, e, r rest ∙ ap (λ (n : ℕ). some (n, rest)) (omega arith))
