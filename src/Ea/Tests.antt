-- ===== src/Ea/Tests.antt =====
-- Concrete runs of ea.go, and its theorems at concrete inputs.
use go_winio.Base.{ℕ, ◌≡◌, refl, List, [], ◌∷◌, All, some, ok, err, arith}
use go_winio.Base.Slice.{slice}
use go_winio.Ea.{ExtendedAttribute, invalid_ea_buffer, read_info, parse_body, parse_ea, decode_loop}
use go_winio.Ea.{
  decode_extended_attributes, entry_size, with_padding, write_ea, encode_extended_attributes,
}
use go_winio.Ea.Parse.{Returns, decode_extended_attributes-Returns}
use go_winio.Ea.Write.{Fits}
use go_winio.Ea.RoundTrip.{decode-encode}

-- Two attributes: "ab" with three bytes and flags 0x80, and "c" with none.
abbrev two_attributes : List ExtendedAttribute
two_attributes =
    record { name = b'a' ∷ b'b' ∷ []; value = 1 ∷ 2 ∷ 3 ∷ []; flags = 0x80 }
    ∷ record { name = b'c' ∷ []; value = []; flags = 0 }
    ∷ []

abbrev two_entries : List ℕ
two_entries =
    16 ∷ 0 ∷ 0 ∷ 0 ∷ 0x80 ∷ 2 ∷ 3 ∷ 0 ∷ b'a' ∷ b'b' ∷ 0 ∷ 1 ∷ 2 ∷ 3 ∷ 0 ∷ 0 ∷ 0 ∷ 0 ∷ 0 ∷ 0 ∷ 0 ∷ 1
    ∷ 0 ∷ 0 ∷ b'c' ∷ 0 ∷ 0 ∷ 0 ∷ []

encode_two : encode_extended_attributes two_attributes ≡ ok two_entries
unfolding encode_extended_attributes write_ea with_padding entry_size slice
encode_two = refl

decode_two : decode_extended_attributes two_entries ≡ some (ok two_attributes)
unfolding decode_extended_attributes decode_loop parse_ea parse_body read_info slice
decode_two = refl

decode_short : decode_extended_attributes (1 ∷ 2 ∷ []) ≡ some (err invalid_ea_buffer)
unfolding decode_extended_attributes decode_loop parse_ea parse_body read_info slice
decode_short = refl

two_fit : All Fits two_attributes
two_fit = omega arith

decode-encode_example :
    (buf : List ℕ) × (encode_extended_attributes two_attributes ≡ ok buf)
    × (decode_extended_attributes buf ≡ some (ok two_attributes))
decode-encode_example = decode-encode two_attributes two_fit

decode_Returns_example : Returns (decode_extended_attributes (1 ∷ 2 ∷ []))
decode_Returns_example = decode_extended_attributes-Returns (1 ∷ 2 ∷ [])
