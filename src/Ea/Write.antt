-- ===== src/Ea/Write.antt =====
-- What `writeEa` appends, and when it refuses.
use go_winio.Base.{ℕ, ◌+◌, ◌-◌, ◌%◌, ◌^◌, ◌≤◌, ◌<◌, ◌≡◌, refl, ap, List, [], ◌∷◌, ◌++◌}
use go_winio.Base.{Bool, append_assoc, length, take, length-append, length-take, if◌then◌else◌}
use go_winio.Base.{ok, err, arith, ==_iff}
use go_winio.Base.Slice.{slice, slice-prefix}
use go_winio.Base.Word.{le16, le32}
use go_winio.Ea.{ExtendedAttribute, EaError, ea_name_too_large, ea_value_too_large}
use go_winio.Ea.{entry_size, with_padding, write_ea}

-- The lengths that the fields of an entry can hold.
pub record Fits (ea : ExtendedAttribute) : Type 0 where
  pub name_fits : length ea.name < 256
  pub value_fits : length ea.value < 65536

abbrev pub three_zeros : List ℕ
three_zeros = 0 ∷ 0 ∷ 0 ∷ []

abbrev pub padding : ExtendedAttribute → List ℕ
padding ea = take (with_padding ea - entry_size ea) three_zeros

-- The bytes of an entry with the given offset of the next one.
abbrev pub entry : ExtendedAttribute → ℕ → List ℕ
entry ea next =
    le32 next
    ++ (ea.flags ∷ length ea.name ∷ le16 (length ea.value))
    ++ (ea.name ++ (0 ∷ (ea.value ++ padding ea)))

pub entry_size_lem :
    (ea : ExtendedAttribute) → Fits ea → entry_size ea ≡ 9 + length ea.name + length ea.value
unfolding entry_size
entry_size_lem ea f = omega arith

pub with_padding_bounds :
    (ea : ExtendedAttribute)
    → Fits ea
    → (entry_size ea ≤ with_padding ea)
      × (with_padding ea ≤ entry_size ea + 3)
      × (with_padding ea % 4 ≡ 0)
      × (with_padding ea < 2 ^ 32)
unfolding with_padding
with_padding_bounds ea f =
    let e = entry_size_lem ea f in (omega arith, omega arith, omega arith, omega arith)

pub length-padding :
    (ea : ExtendedAttribute) → Fits ea → length (padding ea) ≡ with_padding ea - entry_size ea
length-padding ea f =
    let (lo, hi, m, b) = with_padding_bounds ea f in
    omega (arith, length-take (with_padding ea - entry_size ea) three_zeros)

pub length-entry :
    (ea : ExtendedAttribute) (next : ℕ) → Fits ea → length (entry ea next) ≡ with_padding ea
length-entry ea next f =
    let (lo, hi, m, b) = with_padding_bounds ea f in
    omega (
      arith,
      entry_size_lem ea f,
      length-padding ea f,
      length-append ea.name (0 ∷ (ea.value ++ padding ea)),
      length-append ea.value (padding ea),
    )

pad_length :
    (ea : ExtendedAttribute)
    → Fits ea
    → (with_padding ea + 2 ^ 32 - entry_size ea) % 2 ^ 32 ≡ with_padding ea - entry_size ea
pad_length ea f = let (lo, hi, m, b) = with_padding_bounds ea f in omega arith

pad_slice :
    (ea : ExtendedAttribute)
    → Fits ea
    → slice {E = EaError} three_zeros 0 ((with_padding ea + 2 ^ 32 - entry_size ea) % 2 ^ 32)
      ≡ ok (padding ea)
pad_slice ea f =
    let (lo, hi, m, b) = with_padding_bounds ea f in
    rw (pad_length ea f) (slice-prefix three_zeros (with_padding ea - entry_size ea) (omega arith))

regroup :
    (buf info n v p : List ℕ)
    → (((buf ++ info) ++ n) ++ (0 ∷ [])) ++ v ++ p ≡ buf ++ (info ++ (n ++ (0 ∷ (v ++ p))))
regroup buf info n v p = simp append_assoc

-- An entry that fits is appended to the buffer, with the offset 0 if it is the last one.
pub write_ea-entry :
    (buf : List ℕ) (ea : ExtendedAttribute) (last : Bool)
    → Fits ea
    → write_ea buf ea last ≡ ok (buf ++ entry ea (if last then 0 else with_padding ea))
unfolding write_ea
write_ea-entry buf ea last f =
    let en : length ea.name % 2 ^ 8 ≡ length ea.name = omega arith in
    let ev : length ea.value % 2 ^ 16 ≡ length ea.value = omega arith in
    rw
      (
        en,
        ev,
        (==_iff (length ea.name) (length ea.name)).1 refl,
        (==_iff (length ea.value) (length ea.value)).1 refl,
        pad_slice ea f,
      )
      (ap (λ (t : List ℕ). ok t) (regroup buf _ ea.name ea.value (padding ea)))

pub write_ea_name_too_large :
    (buf : List ℕ) (ea : ExtendedAttribute) (last : Bool)
    → 256 ≤ length ea.name
    → write_ea buf ea last ≡ err ea_name_too_large
unfolding write_ea
write_ea_name_too_large buf ea last h = ground arith

pub write_ea_value_too_large :
    (buf : List ℕ) (ea : ExtendedAttribute) (last : Bool)
    → length ea.name < 256
    → 65536 ≤ length ea.value
    → write_ea buf ea last ≡ err ea_value_too_large
unfolding write_ea
write_ea_value_too_large buf ea last g h = ground arith
