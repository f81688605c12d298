-- ===== src/Reparse/RoundTrip.antt =====
-- A reparse point is read back from its encoding.
use go_winio.Base.{
  ℕ, ◌+◌, ◌-◌, ◌*◌, ◌/◌, ◌%◌, ◌^◌, ◌≤◌, ◌<◌, ◌≡◌, refl, sym, ap, arith, List, [], ◌∷◌, ◌++◌, Bool,
  true, false, append_assoc, append-nil, ◌∙◌,
}
use go_winio.Base.{Result, Option, err, ok, some, none, length, length-append, All, if◌then◌else◌}
use go_winio.Base.Slice.{slice-middle}
use go_winio.Base.Word.{le16, of_le16}
use go_winio.Utf16.{
  utf16_encode, encode_rune, unit_bytes, read_units, read_units-unit_bytes, utf16_encode_units,
}
use go_winio.Utf16.{utf16_encode-append, unit_bytes-append, length-unit_bytes}
use go_winio.Reparse.{
  ReparsePoint, ReparseError, short_name, decode_name, decode_reparse_point_data, split_tag,
  decode_reparse_point,
}
use go_winio.Reparse.{nt_target, buffer_bytes, header_of, flag_bytes, encode_reparse_point}

le16_lem : (n : ℕ) → n < 2 ^ 16 → of_le16 (n % 256) (n / 256 % 256) ≡ n
le16_lem n h = omega arith

-- The data behind the first eight bytes.
abbrev data_part : ℕ → ℕ → ℕ → ℕ → List ℕ → List ℕ
data_part so sl po pl names = le16 so ++ (le16 sl ++ (le16 po ++ (le16 pl ++ names)))

read_units_whole :
    (us : List ℕ)
    → All (λ v. v < 2 ^ 16) us
    → read_units (length us) (unit_bytes us) ≡ some (us, [])
read_units_whole us a =
    ap (λ (bs : List ℕ). read_units (length us) bs) (sym (append-nil (unit_bytes us)))
    ∙ read_units-unit_bytes us [] a

place_lem :
    (mount : Bool) (po : ℕ) (flags nt : List ℕ)
    → length flags ≡ (if mount then 0 else 4)
    → po ≡ length nt
    → 12 + po < 2 ^ 16
    → (if mount then (8 + po) % 2 ^ 16 else ((8 + po) % 2 ^ 16 + 4) % 2 ^ 16)
      ≡ 8 + length (flags ++ nt)
place_lem true po flags nt f p h = omega (arith, length-append flags nt)
place_lem false po flags nt f p h = omega (arith, length-append flags nt)

flags_bound : (mount : Bool) (n : ℕ) → n ≡ (if mount then 0 else 4) → n ≤ 4
flags_bound true n h = omega arith
flags_bound false n h = omega arith

decode_name-data_part :
    (u : List ℕ → List ℕ) (mount : Bool) (so sl po pl : ℕ) (flags nt units last : List ℕ)
    → All (λ v. v < 2 ^ 16) units
    → length flags ≡ (if mount then 0 else 4)
    → po ≡ length nt
    → pl ≡ length units * 2
    → 12 + po + pl < 2 ^ 16
    → decode_name u mount (data_part so sl po pl (flags ++ (nt ++ (unit_bytes units ++ last))))
      ≡ ok (record { target = u units; is_mount_point = mount })
unfolding decode_name
decode_name-data_part u mount so sl po pl flags nt units last a f p q h =
    let front = data_part so sl po pl (flags ++ nt) in
    let lo = if mount then (8 + po) % 2 ^ 16 else ((8 + po) % 2 ^ 16 + 4) % 2 ^ 16 in
    let place : lo ≡ length front = omega (arith, place_lem mount po flags nt f p (omega arith)) in
    let small : length front ≤ 12 + po =
      omega (arith, length-append flags nt, flags_bound mount (length flags) f) in
    let half : pl / 2 ≡ length units = omega arith in
    let stop : (lo + pl) % 2 ^ 16 ≡ length front + length (unit_bytes units) =
      omega (arith, length-unit_bytes units) in
    rw (le16_lem po (omega arith), le16_lem pl (omega arith))
      (rw (sym (append_assoc flags nt (unit_bytes units ++ last))) (
        rw
          (
            slice-middle {E = ReparseError} front (unit_bytes units) last lo ((lo + pl) % 2 ^ 16)
                place stop,
            half,
          )
          (ap named (read_units_whole units a))))
  where
    named : Option (List ℕ × List ℕ) → Result ReparseError ReparsePoint
    named o = elim o [
      | none ↦ err short_name
      | some (name, rest) ↦ ok (record { target = u name; is_mount_point = mount })
    ]

length-flag_bytes :
    (mount relative : Bool) → length (flag_bytes mount relative) ≡ (if mount then 0 else 4)
unfolding flag_bytes
length-flag_bytes true relative = refl
length-flag_bytes false relative = refl

nul_terminated :
    (s : List ℕ)
    → (unit_bytes (utf16_encode (s ++ (0 ∷ []))) ≡ unit_bytes (utf16_encode s) ++ (0 ∷ 0 ∷ []))
      × (length (utf16_encode (s ++ (0 ∷ []))) ≡ length (utf16_encode s) + 1)
unfolding utf16_encode encode_rune
nul_terminated s =
    rw (utf16_encode-append s (0 ∷ []))
      (unit_bytes-append (utf16_encode s) (0 ∷ []), length-append (utf16_encode s) (0 ∷ []))

-- The units of the NT path and of the target, with their NULs.
abbrev pub nt_units : List ℕ → List ℕ
nt_units target = utf16_encode ((nt_target target).0 ++ (0 ∷ []))

abbrev pub target_units : List ℕ → List ℕ
target_units target = utf16_encode (target ++ (0 ∷ []))

abbrev substitute_length : List ℕ → ℕ
substitute_length target = (length (nt_units target) - 1) * 2 % 2 ^ 16

decode_name_encoded :
    (u : List ℕ → List ℕ) (target : List ℕ) (mount relative : Bool) (dl : ℕ)
    → u (utf16_encode target) ≡ target
    → 12 + length (nt_units target) * 2 + length (target_units target) * 2 < 2 ^ 16
    → decode_name u mount (
        data_part 0 dl
          (length (nt_units target) * 2 % 2 ^ 16)
          ((length (target_units target) - 1) * 2 % 2 ^ 16)
          (flag_bytes mount relative
            ++ (unit_bytes (nt_units target) ++ unit_bytes (target_units target))))
      ≡ ok (record { target = target; is_mount_point = mount })
decode_name_encoded u target mount relative dl e h =
    let (p, q) = nul_terminated target in
    let nt = unit_bytes (nt_units target) in
    let po = length (nt_units target) * 2 % 2 ^ 16 in
    let pl = (length (target_units target) - 1) * 2 % 2 ^ 16 in
    rw p (
      decode_name-data_part u mount 0 dl po pl (flag_bytes mount relative) nt (utf16_encode target)
        (0 ∷ 0 ∷ []) (utf16_encode_units target).0 (length-flag_bytes mount relative)
        (omega (arith, length-unit_bytes (nt_units target))) (omega arith) (omega arith)
      ∙ ap (λ (t : List ℕ). ok (record { target = t; is_mount_point = mount })) e)

-- For a target that survives its coding, and whose encoding has a 16-bit length, decoding what
-- `EncodeReparsePoint` gives returns the reparse point.
pub decode-encode_reparse_point :
    (utf16_decode : List ℕ → List ℕ) (rp : ReparsePoint)
    → utf16_decode (utf16_encode rp.target) ≡ rp.target
    → 12 + length (nt_units rp.target) * 2 + length (target_units rp.target) * 2 < 2 ^ 16
    → decode_reparse_point utf16_decode (encode_reparse_point rp) ≡ ok rp
unfolding decode_reparse_point decode_reparse_point_data encode_reparse_point buffer_bytes header_of
    split_tag
decode-encode_reparse_point u rp e h = go rp.is_mount_point rp.target e h
  where
    go :
        (mount : Bool) (target : List ℕ)
        → u (utf16_encode target) ≡ target
        → 12 + length (nt_units target) * 2 + length (target_units target) * 2 < 2 ^ 16
        → decode_reparse_point u
            (encode_reparse_point (record { target = target; is_mount_point = mount }))
          ≡ ok (record { target = target; is_mount_point = mount })
    go true target e h =
        decode_name_encoded u target true (nt_target target).1 (substitute_length target) e h
    go false target e h =
        decode_name_encoded u target false (nt_target target).1 (substitute_length target) e h
