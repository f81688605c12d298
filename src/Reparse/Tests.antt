-- ===== src/Reparse/Tests.antt =====
-- Concrete reparse points, and the round trip on one.
use go_winio.Base.{
  ◌+◌, ◌*◌, ◌^◌, ◌<◌, ◌≡◌, refl, arith, [], ◌∷◌, length, true, false, ok, err, panic,
}
use go_winio.Utf16.{utf16_encode, encode_rune}
use go_winio.Reparse.{
  ReparsePoint, decode_reparse_point, encode_reparse_point, nt_target, has_prefix, is_drive_path,
  is_drive_letter, split_tag,
}
use go_winio.Reparse.{decode_reparse_point_data, unsupported_reparse_point}
use go_winio.Reparse.RoundTrip.{nt_units, target_units, decode-encode_reparse_point}

-- c:\a
abbrev drive_link : ReparsePoint
drive_link = record { target = b'c' ∷ b':' ∷ 0x5c ∷ b'a' ∷ []; is_mount_point = false }

-- \\s\a
share_path :
    nt_target (0x5c ∷ 0x5c ∷ b's' ∷ 0x5c ∷ b'a' ∷ [])
    ≡ (0x5c ∷ b'?' ∷ b'?' ∷ 0x5c ∷ b'U' ∷ b'N' ∷ b'C' ∷ 0x5c ∷ b's' ∷ 0x5c ∷ b'a' ∷ [], false)
unfolding nt_target has_prefix is_drive_path is_drive_letter
share_path = refl

relative_path : nt_target (b'a' ∷ b'b' ∷ []) ≡ (b'a' ∷ b'b' ∷ [], true)
unfolding nt_target has_prefix is_drive_path is_drive_letter
relative_path = refl

short_panics : decode_reparse_point (λ us. us) (1 ∷ 2 ∷ []) ≡ panic
unfolding decode_reparse_point split_tag
short_panics = refl

other_tag : decode_reparse_point_data (λ us. us) 7 [] ≡ err (unsupported_reparse_point 7)
unfolding decode_reparse_point_data
other_tag = refl

plain_text : utf16_encode drive_link.target ≡ drive_link.target
unfolding utf16_encode encode_rune
plain_text = refl

short_enough :
    12 + length (nt_units drive_link.target) * 2 + length (target_units drive_link.target) * 2
    < 2 ^ 16
unfolding nt_target has_prefix is_drive_path is_drive_letter utf16_encode encode_rune
short_enough = omega arith

decode-encode_reparse_point_example :
    decode_reparse_point (λ us. us) (encode_reparse_point drive_link) ≡ ok drive_link
decode-encode_reparse_point_example =
    decode-encode_reparse_point (λ us. us) drive_link plain_text short_enough
