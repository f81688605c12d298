-- ===== src/Etw/Metadata/Fields.antt =====
-- The metadata of a field is read back from what `writeFieldInner` appends.
use go_winio.Base.{ℕ, ◌-◌, ◌%◌, ◌^◌, ◌<◌, ◌≡◌, ◌≢◌, refl, ap, ◌∙◌, arith, List, [], ◌∷◌, ◌++◌}
use go_winio.Base.{
  Option, none, some, bit_or, ◌==◌, ltb, if◌then◌else◌, Bool-cases, inl, inr, All, append_assoc,
  true, ◌&&◌,
}
use go_winio.Etw.Metadata.{
  EventMetadata, append, tags_bytes, type_bytes, size_bytes, write_field_inner,
}
use go_winio.Etw.Metadata.Tags.{read_tags, read_tags-tags_bytes, set_top_bit}

abbrev pub NamedRest : Type 0
NamedRest = List ℕ × List ℕ

-- A name up to its NUL, and what follows.
unfoldable pub read_name : List ℕ → Option NamedRest
read_name [] = none
read_name (b ∷ bs) =
    let more = read_name bs in
    if b == 0
    then some ([], bs)
    else elim more [ none ↦ none | some (name, rest) ↦ some (b ∷ name, rest) ]

-- The types and the tags: the top bit of a byte says whether the next part is there.
abbrev pub Types : Type 0
Types = ℕ × ℕ × ℕ × List ℕ

read_out : ℕ → List ℕ → Option Types
read_out in_type [] = none
read_out in_type (b ∷ bs) = if ltb b 128 then some (in_type, b, 0, bs) else elim (read_tags bs) [
  | none ↦ none
  | some (tags, rest) ↦ some (in_type, b - 128, tags, rest)
]

read_types : List ℕ → Option Types
read_types [] = none
read_types (b ∷ bs) = if ltb b 128 then some (b, 0, 0, bs) else read_out (b - 128) bs

-- The reading of the format of a field.
pub read_field : List ℕ → Option (List ℕ × Types)
read_field bs = elim (read_name bs) [
  | none ↦ none
  | some (name, rest) ↦ elim (read_types rest) [ none ↦ none | some t ↦ some (name, t) ]
]

pub read_name-append :
    (name rest : List ℕ)
    → All (λ c. c ≢ 0) name
    → read_name (name ++ (0 ∷ rest)) ≡ some (name, rest)
unfolding read_name
read_name-append [] rest h = refl
read_name-append (c ∷ name) rest (p, h) = ground (arith, read_name-append name rest h)

-- The bytes of the types are there, and are read back.
abbrev TypesRead : ℕ → ℕ → ℕ → Option (List ℕ) → Type 0
TypesRead in_type out_type tags none = ⊥
TypesRead in_type out_type tags (some bytes) =
    (rest : List ℕ) → read_types (bytes ++ rest) ≡ some (in_type, out_type, tags % 2 ^ 28, rest)

types_with_tags :
    (i o tags : ℕ) (bytes rest : List ℕ)
    → i < 128
    → o < 128
    → read_tags (bytes ++ rest) ≡ some (tags % 2 ^ 28, rest)
    → read_types (bit_or i 128 ∷ bit_or o 128 ∷ (bytes ++ rest)) ≡ some (i, o, tags % 2 ^ 28, rest)
unfolding read_types read_out
types_with_tags i o tags bytes rest hi ho h = ground (arith, set_top_bit i, set_top_bit o)

type_bytes-TypesRead : (i o tags : ℕ) → i < 128 → o < 128 → TypesRead i o tags (type_bytes i o tags)
unfolding type_bytes
type_bytes-TypesRead i o tags hi ho = elim (Bool-cases (o == 0 && tags == 0)) [
  | inl e ↦ rw e (λ rest. plain rest e)
  | inr e ↦ elim (Bool-cases (tags == 0)) [
    | inl z ↦ rw (e, z) (λ rest. typed rest z)
    | inr z ↦ rw (e, z) (tagged (tags_bytes tags) refl)
  ]
]
  where
    plain :
        (rest : List ℕ)
        → (o == 0 && tags == 0) ≡ true
        → read_types (i ∷ rest) ≡ some (i, o, tags % 2 ^ 28, rest)
    plain rest e = unfold read_types in ground arith

    typed :
        (rest : List ℕ)
        → (tags == 0) ≡ true
        → read_types (bit_or i 128 ∷ o ∷ rest) ≡ some (i, o, tags % 2 ^ 28, rest)
    typed rest z = unfold read_types read_out in ground (arith, set_top_bit i)

    tagged :
        (b : Option (List ℕ))
        → tags_bytes tags ≡ b
        → TypesRead i o tags
            (elim b [ none ↦ none | some bytes ↦ some (bit_or i 128 ∷ bit_or o 128 ∷ bytes) ])
    tagged none e = let (bytes, p, q) = read_tags-tags_bytes tags [] in cc
    tagged (some bytes) e = λ rest.
        (let (bytes', p, q) = read_tags-tags_bytes tags rest in
          types_with_tags i o tags bytes rest hi ho (same bytes' p q))
      where
        same :
            {rest : List ℕ} (bytes' : List ℕ)
            → tags_bytes tags ≡ some bytes'
            → read_tags (bytes' ++ rest) ≡ some (tags % 2 ^ 28, rest)
            → read_tags (bytes ++ rest) ≡ some (tags % 2 ^ 28, rest)
        same bytes' p q = cc

read_field-append :
    (name types : List ℕ) {t : Types}
    → All (λ c. c ≢ 0) name
    → read_types types ≡ some t
    → read_field ((name ++ (0 ∷ [])) ++ types) ≡ some (name, t)
unfolding read_field
read_field-append name types h e =
    rw (append_assoc name (0 ∷ []) types)
      (rw (read_name-append name types h, read_field) (rw (e, read_field)))

-- The bytes that are appended, of which the field is read whatever follows them.
pub write_field_inner_bytes :
    (em : EventMetadata) (name : List ℕ) (in_type out_type tags arr_size : ℕ)
    → All (λ c. c ≢ 0) name
    → in_type < 128
    → out_type < 128
    → (bytes : List ℕ) × (write_field_inner em name in_type out_type tags arr_size
        ≡ some (record { buffer = em.buffer ++ bytes }))
      × ((rest : List ℕ)
          → read_field (bytes ++ rest)
            ≡ some (name, (in_type, out_type, tags % 2 ^ 28, size_bytes arr_size ++ rest)))
unfolding write_field_inner
write_field_inner_bytes em name i o tags arr h hi ho =
    go (type_bytes i o tags) (type_bytes-TypesRead i o tags hi ho)
  where
    regroup : (a b c rest : List ℕ) → (a ++ (b ++ c)) ++ rest ≡ a ++ (b ++ (c ++ rest))
    regroup a b c rest = simp append_assoc

    go :
        (b : Option (List ℕ))
        → TypesRead i o tags b
        → (bytes : List ℕ) × ◌≡◌ {A = Option EventMetadata}
            (elim b [
              | none ↦ none
              | some x ↦ some (append em ((name ++ (0 ∷ [])) ++ (x ++ size_bytes arr)))
            ])
            (some (append em bytes))
          × ((rest : List ℕ)
              → read_field (bytes ++ rest)
                ≡ some (name, (i, o, tags % 2 ^ 28, size_bytes arr ++ rest)))
    go none r = absurd r
    go (some x) r = (
      (name ++ (0 ∷ [])) ++ (x ++ size_bytes arr),
      refl,
      λ rest.
          ap read_field (regroup (name ++ (0 ∷ [])) x (size_bytes arr) rest)
          ∙ read_field-append name (x ++ (size_bytes arr ++ rest)) h (r (size_bytes arr ++ rest)),
    )

-- For a name without NUL and types below 128, `writeFieldInner` appends bytes from which the name, the
-- types and the low 28 bits of the tags are read back; the array size, if it is not 0, comes next.
pub read_field-write_field_inner :
    (em : EventMetadata) (name : List ℕ) (in_type out_type tags arr_size : ℕ) (rest : List ℕ)
    → All (λ c. c ≢ 0) name
    → in_type < 128
    → out_type < 128
    → (bytes : List ℕ) × (write_field_inner em name in_type out_type tags arr_size
        ≡ some (record { buffer = em.buffer ++ bytes }))
      × (read_field (bytes ++ rest)
          ≡ some (name, (in_type, out_type, tags % 2 ^ 28, size_bytes arr_size ++ rest)))
read_field-write_field_inner em name i o tags arr rest h hi ho =
    let (bytes, p, q) = write_field_inner_bytes em name i o tags arr h hi ho in (bytes, p, q rest)
