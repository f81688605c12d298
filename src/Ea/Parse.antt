-- ===== src/Ea/Parse.antt =====
-- `parseEa` and `DecodeExtendedAttributes` on any buffer: they return, and they never panic.
use go_winio.Base.{ℕ, zero, suc, ◌-◌, ◌≤◌, ◌<◌, List, [], ◌∷◌, ◌++◌}
use go_winio.Base.{Option, none, some, length, drop, length-drop, length-take, arith}
use go_winio.Base.{Result, ok, err, panic}
use go_winio.Base.Slice.{slice}
use go_winio.Ea.{ExtendedAttribute, EaError, FileFullEaInformation}
use go_winio.Ea.{
  read_info, invalid_ea_buffer, parse_body, parse_ea, decode_loop, decode_extended_attributes,
}

-- A result that is no panic, and whose rest is shorter than the input.
abbrev Shrinks : ℕ → Result EaError (ExtendedAttribute × List ℕ) → Type 0
Shrinks n (ok (ea, nb)) = length nb < n
Shrinks n (err e) = Unit
Shrinks n panic = ⊥

parse_body-Shrinks :
    (b : List ℕ) (info : FileFullEaInformation)
    → 0 < length b
    → Shrinks (length b) (parse_body b info)
unfolding parse_body slice
parse_body-Shrinks b info h = ground (
  arith,
  length-drop info.next_entry_offset b,
  length-take (length b - info.next_entry_offset) (drop info.next_entry_offset b),
)

parse_info-Shrinks :
    (b : List ℕ) (i : Option FileFullEaInformation)
    → 0 < length b
    → Shrinks (length b) (elim i [ none ↦ err invalid_ea_buffer | some info ↦ parse_body b info ])
parse_info-Shrinks b none h = tt
parse_info-Shrinks b (some info) h = parse_body-Shrinks b info h

parse_ea-Shrinks : (b : List ℕ) → 0 < length b → Shrinks (length b) (parse_ea b)
unfolding parse_ea
parse_ea-Shrinks b h = parse_info-Shrinks b (read_info b) h

-- A result that is there and is no panic.
abbrev pub Returns {ℓ} : {A : Type ℓ} → Option (Result EaError A) → Type 0
Returns (some (ok a)) = Unit
Returns (some (err e)) = Unit
Returns (some panic) = ⊥
Returns none = ⊥

step-Returns :
    (fuel : ℕ) (eas : List ExtendedAttribute) (r : Result EaError (ExtendedAttribute × List ℕ))
    {n : ℕ}
    → n ≤ suc fuel
    → Shrinks n r
    → ((nb : List ℕ) (eas' : List ExtendedAttribute)
        → length nb ≤ fuel
        → Returns (decode_loop fuel nb eas'))
    → Returns (elim r [
      | ok (ea, nb) ↦ decode_loop fuel nb (eas ++ (ea ∷ []))
      | err e ↦ some (err e)
      | panic ↦ some panic
    ])
step-Returns fuel eas (ok (ea, nb)) h s ih = ih nb (eas ++ (ea ∷ [])) (omega arith)
step-Returns fuel eas (err e) h s ih = tt
step-Returns fuel eas panic h s ih = s

decode_loop-Returns :
    (fuel : ℕ) (b : List ℕ) (eas : List ExtendedAttribute)
    → length b ≤ fuel
    → Returns (decode_loop fuel b eas)
unfolding decode_loop
decode_loop-Returns fuel [] eas h = tt
decode_loop-Returns zero (b ∷ bs) eas h = absurd (omega arith)
decode_loop-Returns (suc fuel) (b ∷ bs) eas h =
    step-Returns fuel eas (parse_ea (b ∷ bs)) h (parse_ea-Shrinks (b ∷ bs) (omega arith))
      (λ nb eas' k. decode_loop-Returns fuel nb eas' k)

-- On every buffer the loop ends within one round for each byte, with a list or an error value: no
-- slice expression is out of range.
pub decode_extended_attributes-Returns : (b : List ℕ) → Returns (decode_extended_attributes b)
unfolding decode_extended_attributes
decode_extended_attributes-Returns b = decode_loop-Returns (length b) b [] (omega arith)
