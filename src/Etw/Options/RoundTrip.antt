-- ===== src/Etw/Options/RoundTrip.antt =====
-- What `SmartField` adds to an event is read back, whatever the value's type.
use go_winio.Base.{
  ℕ, ◌+◌, ◌^◌, ◌<◌, ◌≡◌, refl, sym, arith, Bool, List, [], ◌∷◌, ◌++◌, length, All, if◌then◌else◌,
  some,
}
use mathlib.Core.Path.{subst}
use go_winio.Base.Word.{le32}
use go_winio.Etw.Payload.{EventData, write_string, write_filetime}
use go_winio.Etw.Options.{
  Event, WordSize, FieldOpt, apply_all, write_bool, bool_field, string_field,
}
use go_winio.Etw.Options.Smart.{
  Kind, Value, bool_value, bool_values, string_value, string_values, number_value, number_values,
  error_value, time_value, derived_bool, derived_string, derived_number, struct_value,
  unsupported_value, Members, no_members, exported, unexported, number_field, number_array,
  smart_field, member_fields,
}
use go_winio.Etw.Options.Reading.{number, text, one, several, item_of, read_items}
use go_winio.Etw.Options.Adding.{Adds, field-Adds, array-Adds, nothing-Adds, both-Adds, struct-Adds}
use go_winio.Etw.Options.Coding.{Coded, number_lem, byte-Coded, string-Coded, values-Coded, map_all}
use go_winio.Etw.Options.Items.{
  HasNoNul, bool_datum, type_of, count, string_items, filetime, items, member_items, Fits,
  IsLoggable, AreLoggable,
}
use go_winio.Etw.Options.Numbers.{number_code}

bool-Coded : (b : Bool) → Coded 4 write_bool b (bool_datum b)
bool-Coded b = byte-Coded 4 (if b then 1 else 0) refl refl

bools-All : (bs : List Bool) → All (λ _. Unit {0}) bs
bools-All [] = tt
bools-All (b ∷ bs) = (tt, bools-All bs)

module _ (word : WordSize) (to_filetime : ℕ → ℕ × ℕ) where
  abbrev write_time : EventData → ℕ → EventData
  write_time ed v = write_filetime ed (to_filetime v).0 (to_filetime v).1

  filetime-Coded :
      (t : ℕ)
      → (to_filetime t).0 < 2 ^ 32
      → (to_filetime t).1 < 2 ^ 32
      → Coded 17 write_time t (number (filetime word to_filetime t))
  unfolding write_filetime
  filetime-Coded t h k = (
    le32 (to_filetime t).0 ++ le32 (to_filetime t).1,
    λ ed. refl,
    λ rest.
        number_lem 17 _ (le32 (to_filetime t).0 ++ le32 (to_filetime t).1) rest refl refl
          (omega (arith, h, k)),
  )

  number-Adds :
      (k : Kind) (name : List ℕ) (v : ℕ)
      → HasNoNul name
      → Fits word to_filetime k v
      → Adds
          (number_field word to_filetime k name v)
          (item_of name (type_of word to_filetime k) 0 (one (number v)) ∷ [])
  number-Adds k name v h fits =
      let c = number_code word to_filetime k in
      subst
        (λ (f : List ℕ → ℕ → FieldOpt).
          Adds (f name v) (item_of name (type_of word to_filetime k) 0 (one (number v)) ∷ []))
        (sym c.single)
        (field-Adds c.write (type_of word to_filetime k) 0 name v (number v) h c.small (omega arith)
          (c.coded v fits))

  numbers-Adds :
      (k : Kind) (name : List ℕ) (vs : List ℕ)
      → HasNoNul name
      → length vs < 2 ^ 16
      → All (Fits word to_filetime k) vs
      → Adds
          (number_array word to_filetime k name vs)
          (item_of name (type_of word to_filetime k + 64) 0 (several (map_all number vs)) ∷ [])
  numbers-Adds k name vs h few fits =
      let c = number_code word to_filetime k in
      let i = type_of word to_filetime k in
      subst
        (λ (f : List ℕ → List ℕ → FieldOpt).
          Adds (f name vs) (item_of name (i + 64) 0 (several (map_all number vs)) ∷ []))
        (sym c.slice)
        (array-Adds c.write i 0 name vs (map_all number vs) h c.flag c.small (omega arith) few
          (values-Coded i c.write number c.coded vs fits))

  length-member_fields :
      (name : List ℕ) (ms : Members)
      → length (member_fields word to_filetime name ms) ≡ count word to_filetime ms
  length-member_fields name no_members = refl
  length-member_fields name (exported v ms) = omega (arith, length-member_fields name ms)
  length-member_fields name (unexported v ms) = length-member_fields name ms

  string-Adds :
      (name s : List ℕ)
      → HasNoNul name
      → HasNoNul s
      → Adds (string_field name s) (string_items word to_filetime name s)
  string-Adds name s h k =
      field-Adds write_string 2 35 name s (text s) h (omega arith) (omega arith) (string-Coded s k)

  flag-Adds :
      (name : List ℕ) (b : Bool)
      → HasNoNul name
      → Adds (bool_field name b) (item_of name 4 3 (one (bool_datum b)) ∷ [])
  flag-Adds name b h =
      field-Adds write_bool 4 3 name b (bool_datum b) h (omega arith) (omega arith) (bool-Coded b)

  -- By the structure of the value, and of the fields of a struct.
  mutual
    value-Adds :
        (name : List ℕ) (v : Value)
        → HasNoNul name
        → IsLoggable word to_filetime v
        → Adds (smart_field word to_filetime name v) (items word to_filetime name v)
    value-Adds name (bool_value b) h k = flag-Adds name b h
    value-Adds name (bool_values bs) h few =
        array-Adds write_bool 4 3 name bs (map_all bool_datum bs) h refl (omega arith) (omega arith)
          few (values-Coded 4 write_bool bool_datum (λ b _. bool-Coded b) bs (bools-All bs))
    value-Adds name (string_value s) h k = string-Adds name s h k
    value-Adds name (string_values ss) h (few, k) =
        array-Adds write_string 2 35 name ss (map_all text ss) h refl (omega arith) (omega arith)
          few (values-Coded 2 write_string text string-Coded ss k)
    value-Adds name (number_value kind v) h k = number-Adds kind name v h k
    value-Adds name (number_values kind vs) h (few, k) = numbers-Adds kind name vs h few k
    value-Adds name (error_value s) h k = string-Adds name s h k
    value-Adds name (time_value t) h (low, high) =
        field-Adds write_time 17 38 name t (number (filetime word to_filetime t)) h (omega arith)
          (omega arith) (filetime-Coded t low high)
    value-Adds name (derived_bool b) h k = flag-Adds name b h
    value-Adds name (derived_string s) h k = string-Adds name s h k
    value-Adds name (derived_number kind v) h k = number-Adds kind name v h k
    value-Adds name (struct_value ms) h (few, k) =
        struct-Adds name _ (count word to_filetime ms) (member_items word to_filetime name ms) h
          (length-member_fields name ms) few (members-Adds name ms h k)
    value-Adds name (unsupported_value s) h k = string-Adds name s h k

    members-Adds :
        (name : List ℕ) (ms : Members)
        → HasNoNul name
        → AreLoggable word to_filetime ms
        → Adds
            (apply_all (member_fields word to_filetime name ms))
            (member_items word to_filetime name ms)
    members-Adds name no_members h k = nothing-Adds
    members-Adds name (exported v ms) h (k, ks) =
        both-Adds (smart_field word to_filetime name v) (member_fields word to_filetime name ms)
          (items word to_filetime name v) (member_items word to_filetime name ms)
          (value-Adds name v h k) (members-Adds name ms h ks)
    members-Adds name (unexported v ms) h k = members-Adds name ms h k

  -- For a name without NUL, and a value whose texts have none, whose numbers fit their types, whose slices
  -- have fewer than 2^16 values and whose structs fewer than 128 exported fields, `SmartField` appends bytes
  -- to the metadata and to the data of an event, and from these bytes the fields that stand for the value
  -- are read back, whatever follows them.
  pub read_items-smart_field :
      (name : List ℕ) (v : Value) (e : Event)
      → HasNoNul name
      → IsLoggable word to_filetime v
      → (m d : List ℕ) × (smart_field word to_filetime name v e
          ≡ some (record {
            em = record { buffer = e.em.buffer ++ m };
            ed = record { buffer = e.ed.buffer ++ d };
          }))
        × ((ms ds : List ℕ)
            → read_items (length (items word to_filetime name v)) (m ++ ms) (d ++ ds)
              ≡ some (items word to_filetime name v, ms, ds))
  unfolding Adds
  read_items-smart_field name v e h k = value-Adds name v h k e
