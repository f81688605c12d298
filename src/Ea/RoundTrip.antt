-- ===== src/Ea/RoundTrip.antt =====
-- `DecodeExtendedAttributes` reads back what `EncodeExtendedAttributes` wrote.
use go_winio.Base.{ℕ, zero, suc, ◌+◌, ◌-◌, ◌^◌, ◌≤◌, ◌<◌, ◌≡◌, ◌≢◌, refl, sym, ap, ◌∙◌}
use go_winio.Base.{List, [], ◌∷◌, ◌++◌, append-nil, append_assoc, some, true, false}
use go_winio.Base.{length, length-append, All, arith, ◌==◌, not-ltb}
use mathlib.Core.Path.{subst}
use go_winio.Base.{ok}
use go_winio.Base.Slice.{slice, slice-middle, slice-end}
use go_winio.Base.Word.{le16, le32}
use go_winio.Ea.{ExtendedAttribute, EaError, FileFullEaInformation, with_padding}
use go_winio.Ea.{read_info, parse_body, parse_ea, decode_loop, decode_extended_attributes}
use go_winio.Ea.{encode_loop, encode_extended_attributes}
use go_winio.Ea.Write.{Fits, entry, padding, write_ea-entry, length-entry}
use go_winio.Ea.Write.{entry_size_lem, with_padding_bounds}

abbrev info_of : ExtendedAttribute → ℕ → FileFullEaInformation
info_of ea next = record {
  next_entry_offset = next;
  flags = ea.flags;
  name_length = length ea.name;
  value_length = length ea.value;
}

read_info-entry :
    (ea : ExtendedAttribute) (next : ℕ) (rest : List ℕ)
    → Fits ea
    → next < 2 ^ 32
    → read_info (entry ea next ++ rest) ≡ some (info_of ea next)
unfolding read_info
read_info-entry ea next rest f h = ground arith

abbrev header : ExtendedAttribute → ℕ → List ℕ
header ea next = le32 next ++ (ea.flags ∷ length ea.name ∷ le16 (length ea.value))

-- The entry as the part in front of the name, or of the value, and the part behind it.
around_name :
    (ea : ExtendedAttribute) (next : ℕ) (rest : List ℕ)
    → entry ea next ++ rest
      ≡ header ea next ++ (ea.name ++ ((0 ∷ (ea.value ++ padding ea)) ++ rest))
around_name ea next rest =
    ap (λ (t : List ℕ). header ea next ++ t)
      (append_assoc ea.name (0 ∷ (ea.value ++ padding ea)) rest)

around_value :
    (ea : ExtendedAttribute) (next : ℕ) (rest : List ℕ)
    → entry ea next ++ rest
      ≡ (header ea next ++ (ea.name ++ (0 ∷ []))) ++ (ea.value ++ (padding ea ++ rest))
around_value ea next rest = simp append_assoc

slice_name :
    (ea : ExtendedAttribute) (next : ℕ) (rest : List ℕ)
    → slice {E = EaError} (entry ea next ++ rest) 8 (8 + length ea.name) ≡ ok ea.name
slice_name ea next rest =
    rw (around_name ea next rest)
      (slice-middle (header ea next) ea.name _ 8 (8 + length ea.name) refl (omega arith))

slice_value :
    (ea : ExtendedAttribute) (next : ℕ) (rest : List ℕ)
    → slice {E = EaError}
        (entry ea next ++ rest)
        (8 + length ea.name + 1)
        (8 + length ea.name + 1 + length ea.value)
      ≡ ok ea.value
slice_value ea next rest = rw (around_value ea next rest) (
    slice-middle (header ea next ++ (ea.name ++ (0 ∷ []))) ea.value _ (8 + length ea.name + 1)
      (8 + length ea.name + 1 + length ea.value) front (omega (arith, front)))
  where
    front : 8 + length ea.name + 1 ≡ length (header ea next ++ (ea.name ++ (0 ∷ [])))
    front = omega (arith, length-append ea.name (0 ∷ []))

slice_rest :
    (ea : ExtendedAttribute) (rest : List ℕ)
    → Fits ea
    → slice {E = EaError}
        (entry ea (with_padding ea) ++ rest)
        (with_padding ea)
        (length (entry ea (with_padding ea) ++ rest))
      ≡ ok rest
slice_rest ea rest f =
    slice-end (entry ea (with_padding ea)) rest (with_padding ea) _
      (sym (length-entry ea (with_padding ea) f)) refl

long_enough :
    (ea : ExtendedAttribute) (next : ℕ) (rest : List ℕ)
    → Fits ea
    → (length ea.value + (8 + length ea.name + 1) ≤ length (entry ea next ++ rest))
      × (with_padding ea ≤ length (entry ea next ++ rest))
long_enough ea next rest f =
    let (lo, hi, m, b) = with_padding_bounds ea f in
    let e = length-entry ea next f in
    let a = length-append (entry ea next) rest in
    let z = entry_size_lem ea f in (omega arith, omega arith)

module _ (ea : ExtendedAttribute) (f : Fits ea) where
  not_last : (with_padding ea == 0) ≡ false
  not_last = let (lo, hi, m, b) = with_padding_bounds ea f in ground (arith, entry_size_lem ea f)

  parse_body-entry :
      (rest : List ℕ)
      → parse_body (entry ea (with_padding ea) ++ rest) (info_of ea (with_padding ea))
        ≡ ok (ea, rest)
  unfolding parse_body
  parse_body-entry rest =
      let (enough, room) = long_enough ea (with_padding ea) rest f in
      rw (
        not-ltb _ _ enough,
        not-ltb _ _ room,
        slice_name ea (with_padding ea) rest,
        slice_value ea (with_padding ea) rest,
        not_last,
        slice_rest ea rest f,
      )

  parse_body-entry_last : parse_body (entry ea 0 ++ []) (info_of ea 0) ≡ ok (ea, [])
  unfolding parse_body
  parse_body-entry_last =
      let (enough, room) = long_enough ea 0 [] f in
      rw (
        not-ltb _ _ enough,
        slice_name ea 0 [],
        slice_value ea 0 [],
        not-ltb (length (entry ea 0 ++ [])) 0 (omega arith),
      )

  -- An entry with the offset of the next one is read, and the rest of the buffer is left.
  pub parse_ea-entry :
      (rest : List ℕ) → parse_ea (entry ea (with_padding ea) ++ rest) ≡ ok (ea, rest)
  unfolding parse_ea
  parse_ea-entry rest =
      let (lo, hi, m, b) = with_padding_bounds ea f in
      rw (read_info-entry ea (with_padding ea) rest f b, parse_ea) (parse_body-entry rest)

  parse_ea-entry_nil : parse_ea (entry ea 0 ++ []) ≡ ok (ea, [])
  unfolding parse_ea
  parse_ea-entry_nil = rw (read_info-entry ea 0 [] f (omega arith), parse_ea) parse_body-entry_last

  -- The last entry is read, and nothing is left.
  pub parse_ea-entry_last : parse_ea (entry ea 0) ≡ ok (ea, [])
  parse_ea-entry_last =
      subst (λ t. parse_ea t ≡ ok (ea, [])) (append-nil (entry ea 0)) parse_ea-entry_nil

-- The entries of a list, one behind the other.
abbrev entries : List ExtendedAttribute → List ℕ
entries [] = []
entries (ea ∷ []) = entry ea 0
entries (ea ∷ eb ∷ eas) = entry ea (with_padding ea) ++ entries (eb ∷ eas)

encode_loop-entries :
    (n i : ℕ) (eas : List ExtendedAttribute) (buf : List ℕ)
    → All Fits eas
    → n ≡ i + length eas
    → encode_loop n i eas buf ≡ ok (buf ++ entries eas)
unfolding encode_loop
encode_loop-entries n i [] buf h e = rw append-nil
encode_loop-entries n i (ea ∷ []) buf (f, _) e = rw (last, write_ea-entry buf ea true f)
  where
    last : (i == (n - 1)) ≡ true
    last = ground arith
encode_loop-entries n i (ea ∷ eb ∷ eas) buf (f, h) e =
    rw (inner, write_ea-entry buf ea false f)
      (encode_loop-entries n (i + 1) (eb ∷ eas) (buf ++ entry ea (with_padding ea)) h (omega arith)
        ∙ ap (λ (t : List ℕ). ok t) (append_assoc buf (entry ea (with_padding ea)) _))
  where
    inner : (i == (n - 1)) ≡ false
    inner = ground arith

decode_loop_step :
    (fuel : ℕ) (b nb : List ℕ) (eas : List ExtendedAttribute) (ea : ExtendedAttribute)
    → b ≢ []
    → parse_ea b ≡ ok (ea, nb)
    → decode_loop (suc fuel) b eas ≡ decode_loop fuel nb (eas ++ (ea ∷ []))
unfolding decode_loop
decode_loop_step fuel [] nb eas ea h e = absurd (h refl)
decode_loop_step fuel (b ∷ bs) nb eas ea h e = rw (e, decode_loop)

decode_loop-entries :
    (fuel : ℕ) (eas done : List ExtendedAttribute)
    → All Fits eas
    → length eas ≤ fuel
    → decode_loop fuel (entries eas) done ≡ some (ok (done ++ eas))
decode_loop-entries fuel [] done h k = rw append-nil (unfold decode_loop in refl)
decode_loop-entries zero (ea ∷ eas) done h k = absurd (omega arith)
decode_loop-entries (suc fuel) (ea ∷ []) done (f, _) k =
    decode_loop_step fuel (entry ea 0) [] done ea (cc) (parse_ea-entry_last ea f)
    ∙ unfold decode_loop in refl
decode_loop-entries (suc fuel) (ea ∷ eb ∷ eas) done (f, h) k =
    decode_loop_step fuel _ (entries (eb ∷ eas)) done ea (cc)
      (parse_ea-entry ea f (entries (eb ∷ eas)))
    ∙ decode_loop-entries fuel (eb ∷ eas) (done ++ (ea ∷ [])) h (omega arith)
    ∙ ap (λ (t : List ExtendedAttribute). some (ok t)) (append_assoc done (ea ∷ []) (eb ∷ eas))

length-entries : (eas : List ExtendedAttribute) → length eas ≤ length (entries eas)
length-entries [] = omega arith
length-entries (ea ∷ []) = omega arith
length-entries (ea ∷ eb ∷ eas) = omega (
  arith,
  length-append (entry ea (with_padding ea)) (entries (eb ∷ eas)),
  length-entries (eb ∷ eas),
)

-- Every list of attributes whose names have fewer than 256 and whose values fewer than 65536 bytes
-- is encoded, and the buffer is decoded to that list, flags included.
pub decode-encode :
    (eas : List ExtendedAttribute)
    → All Fits eas
    → (buf : List ℕ) × (encode_extended_attributes eas ≡ ok buf)
      × (decode_extended_attributes buf ≡ some (ok eas))
unfolding encode_extended_attributes decode_extended_attributes
decode-encode eas h = (
  entries eas,
  encode_loop-entries (length eas) 0 eas [] h (omega arith),
  decode_loop-entries (length (entries eas)) eas [] h (length-entries eas),
)
