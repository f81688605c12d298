-- ===== src/Ea.antt =====
-- Extended attributes, ea.go: FILE_FULL_EA_INFORMATION entries read from and written to a buffer.
-- A Go string is the list of its bytes, and `int` has 64 bits.
use go_winio.Base.{
  ℕ, zero, suc, ◌+◌, ◌-◌, ◌*◌, ◌/◌, ◌%◌, ◌^◌, List, [], ◌∷◌, ◌++◌, Bool, true, false,
}
use go_winio.Base.{◌||◌, not, Option, none, some, length, ltb, ◌==◌, if◌then◌else◌}
use go_winio.Base.{Result, ok, err, panic, ◌>>=◌, ◌>>◌, fail_if}
use go_winio.Base.Slice.{slice}
use go_winio.Base.Word.{le16, le32, of_le16, of_le32}
pub mod Parse
pub mod Write
pub mod RoundTrip
mod Tests

pub data EaError : Type 0 where
  invalid_ea_buffer ea_name_too_large ea_value_too_large : EaError

pub record FileFullEaInformation : Type 0 where
  pub next_entry_offset : ℕ
  pub flags : ℕ
  pub name_length : ℕ
  pub value_length : ℕ

-- `binary.Size` of the structure.
abbrev pub file_full_ea_information_size : ℕ
file_full_ea_information_size = 8

pub record ExtendedAttribute : Type 0 where
  pub name : List ℕ
  pub value : List ℕ
  pub flags : ℕ

-- `binary.Read` of the structure; it fails where the buffer is shorter.
read_info : List ℕ → Option FileFullEaInformation
read_info (n0 ∷ n1 ∷ n2 ∷ n3 ∷ fl ∷ nl ∷ v0 ∷ v1 ∷ rest) = some (record {
  next_entry_offset = of_le32 n0 n1 n2 n3;
  flags = fl;
  name_length = nl;
  value_length = of_le16 v0 v1;
})
read_info _ = none

-- The part of `parseEa` behind the read of the structure.
parse_body : List ℕ → FileFullEaInformation → Result EaError (ExtendedAttribute × List ℕ)
parse_body b info =
    let name_offset = file_full_ea_information_size in
    let value_offset = name_offset + info.name_length + 1 in
    do
      fail_if
          (ltb (length b) (info.value_length + value_offset)
            || ltb (length b) info.next_entry_offset)
          invalid_ea_buffer
      n ← slice b name_offset (name_offset + info.name_length)
      v ← slice b value_offset (value_offset + info.value_length)
      nb ←
          (if info.next_entry_offset == 0 then ok [] else slice b info.next_entry_offset (length b))
      ok (record { name = n; value = v; flags = info.flags }, nb)

pub parse_ea : List ℕ → Result EaError (ExtendedAttribute × List ℕ)
parse_ea b = elim (read_info b) [ none ↦ err invalid_ea_buffer | some info ↦ parse_body b info ]

-- The loop of `DecodeExtendedAttributes`, on fuel; `none` means that the fuel ran out.
decode_loop : ℕ → List ℕ → List ExtendedAttribute → Option (Result EaError (List ExtendedAttribute))
decode_loop fuel [] eas = some (ok eas)
decode_loop zero (b ∷ bs) eas = none
decode_loop (suc fuel) (b ∷ bs) eas = elim (parse_ea (b ∷ bs)) [
  | ok (ea, nb) ↦ decode_loop fuel nb (eas ++ (ea ∷ []))
  | err e ↦ some (err e)
  | panic ↦ some panic
]

pub decode_extended_attributes : List ℕ → Option (Result EaError (List ExtendedAttribute))
decode_extended_attributes b = decode_loop (length b) b []

-- `x &^ 3`
abbrev clear_low_two : ℕ → ℕ
clear_low_two x = x - x % 4

pub entry_size : ExtendedAttribute → ℕ
entry_size ea = (file_full_ea_information_size + length ea.name + 1 + length ea.value) % 2 ^ 32

pub with_padding : ExtendedAttribute → ℕ
with_padding ea = clear_low_two ((entry_size ea + 3) % 2 ^ 32)

-- `binary.Write` of the structure.
abbrev write_info : FileFullEaInformation → List ℕ
write_info info =
    le32 info.next_entry_offset ++ (info.flags ∷ info.name_length ∷ le16 info.value_length)

-- The buffer is what was written so far. A `bytes.Buffer` accepts every write.
pub write_ea : List ℕ → ExtendedAttribute → Bool → Result EaError (List ℕ)
write_ea buf ea last = do
  fail_if (not (length ea.name % 2 ^ 8 == length ea.name)) ea_name_too_large
  fail_if (not (length ea.value % 2 ^ 16 == length ea.value)) ea_value_too_large
  let next_offset = if last then 0 else with_padding ea
  let info = write_info (record {
    next_entry_offset = next_offset;
    flags = ea.flags;
    name_length = length ea.name % 2 ^ 8;
    value_length = length ea.value % 2 ^ 16;
  })
  pad ← slice (0 ∷ 0 ∷ 0 ∷ []) 0 ((with_padding ea + 2 ^ 32 - entry_size ea) % 2 ^ 32)
  ok ((((buf ++ info) ++ ea.name) ++ (0 ∷ [])) ++ ea.value ++ pad)

-- The loop of `EncodeExtendedAttributes`: `n` is `len(eas)`, and `i` counts the rounds.
encode_loop : ℕ → ℕ → List ExtendedAttribute → List ℕ → Result EaError (List ℕ)
encode_loop n i [] buf = ok buf
encode_loop n i (ea ∷ eas) buf = do
  buf' ← write_ea buf ea (i == (n - 1))
  encode_loop n (i + 1) eas buf'

pub encode_extended_attributes : List ExtendedAttribute → Result EaError (List ℕ)
unfolding encode_loop
encode_extended_attributes eas = encode_loop (length eas) 0 eas []
