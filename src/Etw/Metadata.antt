-- ===== src/Etw/Metadata.antt =====
-- pkg/etw/eventmetadata.go: the metadata of an event and of its fields.
use go_winio.Base.{
  ℕ, zero, suc, ◌+◌, ◌-◌, ◌*◌, ◌/◌, ◌%◌, ◌^◌, List, [], ◌∷◌, ◌++◌, Bool, true, false,
}
use go_winio.Base.{
  Option, none, some, bit_or, length, ◌&&◌, ◌==◌, if◌then◌else◌, Result, ok, err, panic,
}
use go_winio.Base.Word.{le16}
pub mod Tags
pub mod Fields
pub mod Header
mod Tests

pub record EventMetadata : Type 0 where
  pub buffer : List ℕ

-- The types of the SDK that the code names; `out_type_default` and the struct type are the ones that
-- it treats apart.
abbrev pub in_type_struct : ℕ
in_type_struct = 24

abbrev pub in_type_counted_array : ℕ
in_type_counted_array = 32

abbrev pub in_type_array : ℕ
in_type_array = 64

abbrev pub out_type_default : ℕ
out_type_default = 0

-- `PutUint16(em.buffer.Bytes(), uint16(em.buffer.Len()))`, which panics on a shorter buffer.
put_length : List ℕ → ℕ → Result (Unit {0}) (List ℕ)
put_length (a ∷ b ∷ rest) n = ok (le16 n ++ rest)
put_length _ n = panic

pub to_bytes : EventMetadata → Result (Unit {0}) (List ℕ)
to_bytes em = put_length em.buffer (length em.buffer % 2 ^ 16)

-- The loop of `writeTags`: the bytes that it writes. `tags & 0x1fffff` is `tags % 2 ^ 21`, and
-- `tags <<= 7` drops what leaves the 32 bits.
tags_loop : ℕ → ℕ → Option (List ℕ)
tags_loop zero tags = none
tags_loop (suc fuel) tags =
    let val = tags / 2 ^ 21 in
    let rest = tags_loop fuel (tags * 2 ^ 7 % 2 ^ 32) in
    if tags % 2 ^ 21 == 0
    then some (val % 128 ∷ [])
    else elim rest [ none ↦ none | some bytes ↦ some (bit_or (val % 256) 0x80 ∷ bytes) ]

-- Four groups of seven bits make the 28 bits of the tags.
pub tags_bytes : ℕ → Option (List ℕ)
tags_bytes tags = tags_loop 4 (tags % 2 ^ 28)

abbrev append : EventMetadata → List ℕ → EventMetadata
append em bytes = record { buffer = em.buffer ++ bytes }

pub write_tags : EventMetadata → ℕ → Option EventMetadata
write_tags em tags = elim (tags_bytes tags) [ none ↦ none | some bytes ↦ some (append em bytes) ]

pub write_event_header : EventMetadata → List ℕ → ℕ → Option EventMetadata
write_event_header em name tags = elim (write_tags (append em (le16 0)) tags) [
  | none ↦ none
  | some em' ↦ some (append em' (name ++ (0 ∷ [])))
]

-- The bytes of the types and the tags of a field.
type_bytes : ℕ → ℕ → ℕ → Option (List ℕ)
type_bytes in_type out_type tags =
    if out_type == out_type_default && tags == 0
    then some (in_type ∷ [])
    else if tags == 0
    then some (bit_or in_type 128 ∷ out_type ∷ [])
    else elim (tags_bytes tags) [
      | none ↦ none
      | some bytes ↦ some (bit_or in_type 128 ∷ bit_or out_type 128 ∷ bytes)
    ]

abbrev pub size_bytes : ℕ → List ℕ
size_bytes arr_size = if arr_size == 0 then [] else le16 arr_size

pub write_field_inner : EventMetadata → List ℕ → ℕ → ℕ → ℕ → ℕ → Option EventMetadata
write_field_inner em name in_type out_type tags arr_size = elim (type_bytes in_type out_type tags) [
  | none ↦ none
  | some bytes ↦ some (append em ((name ++ (0 ∷ [])) ++ (bytes ++ size_bytes arr_size)))
]

unfoldable pub write_field : EventMetadata → List ℕ → ℕ → ℕ → ℕ → Option EventMetadata
write_field em name in_type out_type tags = write_field_inner em name in_type out_type tags 0

unfoldable pub write_array : EventMetadata → List ℕ → ℕ → ℕ → ℕ → Option EventMetadata
write_array em name in_type out_type tags =
    write_field_inner em name (bit_or in_type in_type_array) out_type tags 0

pub write_counted_array : EventMetadata → List ℕ → ℕ → ℕ → ℕ → ℕ → Option EventMetadata
write_counted_array em name count in_type out_type tags =
    write_field_inner em name (bit_or in_type in_type_counted_array) out_type tags count

unfoldable pub write_struct : EventMetadata → List ℕ → ℕ → ℕ → Option EventMetadata
write_struct em name field_count tags = write_field_inner em name in_type_struct field_count tags 0
