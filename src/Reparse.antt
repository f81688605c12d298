-- ===== src/Reparse.antt =====
-- reparse.go: symbolic links and mount points as REPARSE_DATA_BUFFER structures. A target is the list
-- of its code points.
use go_winio.Base.{ℕ, ◌+◌, ◌-◌, ◌*◌, ◌/◌, ◌%◌, ◌^◌, List, [], ◌∷◌, ◌++◌, Bool, true, false}
use go_winio.Base.{
  none, some, length, drop, leb, ◌==◌, if◌then◌else◌, ◌&&◌, ◌||◌, Result, ok, err, panic, ◌>>=◌,
}
use go_winio.Base.Slice.{slice}
use go_winio.Base.Word.{le16, le32, of_le16, of_le32}
use go_winio.Utf16.{utf16_encode, unit_bytes, read_units}
pub mod RoundTrip
mod Tests

abbrev pub reparse_tag_mount_point : ℕ
reparse_tag_mount_point = 0xA0000003

abbrev pub reparse_tag_symlink : ℕ
reparse_tag_symlink = 0xA000000C

pub record ReparseDataBuffer : Type 0 where
  pub reparse_tag : ℕ
  pub reparse_data_length : ℕ
  pub reserved : ℕ
  pub substitute_name_offset : ℕ
  pub substitute_name_length : ℕ
  pub print_name_offset : ℕ
  pub print_name_length : ℕ

pub record ReparsePoint : Type 0 where
  pub target : List ℕ
  pub is_mount_point : Bool

pub data ReparseError : Type 0 where
  unsupported_reparse_point : ℕ → ReparseError
  short_name : ReparseError

-- The two 16-bit fields that the decoder reads, b[4:6] and b[6:8]; a shorter slice panics.
name_fields : List ℕ → Result ReparseError (ℕ × ℕ)
name_fields (a ∷ b ∷ c ∷ d ∷ e ∷ f ∷ g ∷ h ∷ rest) = ok (of_le16 e f, of_le16 g h)
name_fields bs = panic

decode_name : (List ℕ → List ℕ) → Bool → List ℕ → Result ReparseError ReparsePoint
unfolding name_fields
decode_name utf16_decode is_mount_point b = do
  (offset, name_length) ← name_fields b
  let name_offset =
      if is_mount_point then (8 + offset) % 2 ^ 16 else ((8 + offset) % 2 ^ 16 + 4) % 2 ^ 16
  bytes ← slice b name_offset ((name_offset + name_length) % 2 ^ 16)
  elim (read_units (name_length / 2) bytes) [
    | none ↦ err short_name
    | some (name, rest) ↦
        ok (record { target = utf16_decode name; is_mount_point = is_mount_point })
  ]

-- `DecodeReparsePointData`; `utf16.Decode` is the argument `utf16_decode`.
pub decode_reparse_point_data : (List ℕ → List ℕ) → ℕ → List ℕ → Result ReparseError ReparsePoint
decode_reparse_point_data utf16_decode tag b =
    if tag == reparse_tag_mount_point
    then decode_name utf16_decode true b
    else if tag == reparse_tag_symlink
    then decode_name utf16_decode false b
    else err (unsupported_reparse_point tag)

-- The tag, b[0:4], and the data, b[8:].
split_tag : List ℕ → Result ReparseError (ℕ × List ℕ)
split_tag (a ∷ b ∷ c ∷ d ∷ e ∷ f ∷ g ∷ h ∷ rest) = ok (of_le32 a b c d, rest)
split_tag bs = panic

pub decode_reparse_point : (List ℕ → List ℕ) → List ℕ → Result ReparseError ReparsePoint
unfolding split_tag
decode_reparse_point utf16_decode b = do
  (tag, data_bytes) ← split_tag b
  decode_reparse_point_data utf16_decode tag data_bytes

is_drive_letter : ℕ → Bool
is_drive_letter c = leb 0x61 c && leb c 0x7a || leb 0x41 c && leb c 0x5a

has_prefix : List ℕ → List ℕ → Bool
has_prefix s [] = true
has_prefix [] (c ∷ p) = false
has_prefix (d ∷ s) (c ∷ p) = c == d && has_prefix s p

is_drive_path : List ℕ → Bool
unfolding is_drive_letter
is_drive_path (c ∷ d ∷ s) = is_drive_letter c && d == 0x3a
is_drive_path s = false

-- The prefix of an NT path, `\??\`.
abbrev nt_prefix : List ℕ
nt_prefix = 0x5c ∷ 0x3f ∷ 0x3f ∷ 0x5c ∷ []

-- The NT path, and whether it is relative.
pub nt_target : List ℕ → List ℕ × Bool
unfolding has_prefix is_drive_path
nt_target target =
    if has_prefix target (0x5c ∷ 0x5c ∷ 0x3f ∷ 0x5c ∷ [])
    then (nt_prefix ++ drop 4 target, false)
    else if has_prefix target (0x5c ∷ 0x5c ∷ [])
    then (nt_prefix ++ (0x55 ∷ 0x4e ∷ 0x43 ∷ 0x5c ∷ drop 2 target), false)
    else if is_drive_path target
    then (nt_prefix ++ target, false)
    else (target, true)

-- `binary.Write` of the structure.
pub buffer_bytes : ReparseDataBuffer → List ℕ
buffer_bytes d =
    le32 d.reparse_tag
    ++ (le16 d.reparse_data_length
        ++ (le16 d.reserved
            ++ (le16 d.substitute_name_offset
                ++ (le16 d.substitute_name_length
                    ++ (le16 d.print_name_offset ++ le16 d.print_name_length)))))

-- The structure for names of so many units, with their NULs.
pub header_of : Bool → ℕ → ℕ → ReparseDataBuffer
header_of is_mount_point nt_length target_length = record {
  reparse_tag = if is_mount_point then reparse_tag_mount_point else reparse_tag_symlink;
  reparse_data_length =
      (8 + (nt_length * 2 + target_length * 2) + (if is_mount_point then 0 else 4)) % 2 ^ 16;
  reserved = 0;
  substitute_name_offset = 0;
  substitute_name_length = (nt_length - 1) * 2 % 2 ^ 16;
  print_name_offset = nt_length * 2 % 2 ^ 16;
  print_name_length = (target_length - 1) * 2 % 2 ^ 16;
}

flag_bytes : Bool → Bool → List ℕ
flag_bytes is_mount_point relative = if is_mount_point then [] else le32 (if relative then 1 else 0)

pub encode_reparse_point : ReparsePoint → List ℕ
unfolding flag_bytes nt_target
encode_reparse_point rp =
    let (nt, relative) = nt_target rp.target in
    let target16 = utf16_encode (rp.target ++ (0 ∷ [])) in
    let nt_target16 = utf16_encode (nt ++ (0 ∷ [])) in
    buffer_bytes (header_of rp.is_mount_point (length nt_target16) (length target16))
    ++ (flag_bytes rp.is_mount_point relative ++ (unit_bytes nt_target16 ++ unit_bytes target16))
