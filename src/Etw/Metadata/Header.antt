-- ===== src/Etw/Metadata/Header.antt =====
-- The header of an event is read back from its metadata, of whose length it tells.
use go_winio.Base.{
  ℕ, ◌%◌, ◌^◌, ◌≡◌, ◌≢◌, refl, ap, ◌∙◌, arith, List, [], ◌∷◌, ◌++◌, length, append_assoc, All,
  Option, none, some, ok,
}
use go_winio.Base.Word.{le16}
use go_winio.Etw.Metadata.{
  EventMetadata, append, tags_bytes, write_tags, write_event_header, put_length, to_bytes,
}
use go_winio.Etw.Metadata.Tags.{ReadBack, read_tags, tags_bytes-ReadBack}
use go_winio.Etw.Metadata.Fields.{NamedRest, read_name, read_name-append}

-- The tags and the name, and what follows.
abbrev named : ℕ → Option NamedRest → Option (ℕ × NamedRest)
named tags none = none
named tags (some r) = some (tags, r)

abbrev tagged : Option (ℕ × List ℕ) → Option (ℕ × NamedRest)
tagged none = none
tagged (some (tags, rest)) = named tags (read_name rest)

pub read_header : List ℕ → Option (ℕ × NamedRest)
read_header bs = tagged (read_tags bs)

-- Behind the two bytes of the length stand the tags and the name.
pub write_event_header_bytes :
    (name : List ℕ) (tags : ℕ)
    → All (λ c. c ≢ 0) name
    → (bytes : List ℕ) × (write_event_header (record { buffer = [] }) name tags
        ≡ some (record { buffer = 0 ∷ 0 ∷ bytes }))
      × ((rest : List ℕ) → read_header (bytes ++ rest) ≡ some (tags % 2 ^ 28, (name, rest)))
unfolding write_event_header write_tags read_header
write_event_header_bytes name tags h = go (tags_bytes tags) (tags_bytes-ReadBack tags)
  where
    go :
        (b : Option (List ℕ))
        → ReadBack (tags % 2 ^ 28) b
        → (bytes : List ℕ) × ◌≡◌ {A = Option EventMetadata}
            (elim (elim b as (λ _. Option EventMetadata) [
              | none ↦ none
              | some x ↦ some (append (record { buffer = 0 ∷ 0 ∷ [] }) x)
            ]) [ none ↦ none | some em' ↦ some (append em' (name ++ (0 ∷ []))) ])
            (some (record { buffer = 0 ∷ 0 ∷ bytes }))
          × ((rest : List ℕ) → read_header (bytes ++ rest) ≡ some (tags % 2 ^ 28, (name, rest)))
    go none r = absurd r
    go (some x) r = (
      x ++ (name ++ (0 ∷ [])),
      refl,
      λ rest.
          ap read_header (append_assoc x (name ++ (0 ∷ [])) rest)
          ∙ ap (λ y. read_header (x ++ y)) (append_assoc name (0 ∷ []) rest)
          ∙ ap tagged (r (name ++ (0 ∷ rest)))
          ∙ ap (λ y. named (tags % 2 ^ 28 % 2 ^ 28) y) (read_name-append name rest h)
          ∙ ap (λ (n : ℕ). some (n, (name, rest))) (omega arith),
    )

-- The length stands in the first two bytes.
pub to_bytes_lem :
    (rest : List ℕ)
    → to_bytes (record { buffer = 0 ∷ 0 ∷ rest })
      ≡ ok (le16 (length (0 ∷ 0 ∷ rest) % 2 ^ 16) ++ rest)
unfolding to_bytes put_length
to_bytes_lem rest = refl
