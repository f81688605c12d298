-- ===== src/Etw/Options/Smart.antt =====
-- `SmartField` of pkg/etw/fieldopt.go, by the type of the value.
use go_winio.Base.{ℕ, Bool, List, [], ◌∷◌}
use go_winio.Etw.Options.{
  FieldOpt, WordSize, bool_field, bool_array, string_field, string_array, int_field, int_array,
  int8_field, int8_array, int16_field, int16_array, int32_field, int32_array, int64_field,
  int64_array, uint_field, uint_array, uint8_field, uint8_array, uint16_field, uint16_array,
  uint32_field, uint32_array, uint64_field, uint64_array, uintptr_field, uintptr_array,
  float32_field, float32_array, float64_field, float64_array, struct_field, time_field,
}

pub data Kind : Type 0 where
  of_int of_int8 of_int16 of_int32 of_int64 of_uint of_uint8 of_uint16 of_uint32 of_uint64
        of_uintptr of_float32 of_float64 :
      Kind

-- A value of an interface. The derived ones have a type of their own whose kind is Boolean, string or
-- number; a slice of such a type or of a struct is unsupported, and an unsupported value is its text. A
-- struct has its fields, of which the exported ones can be read.
mutual
  pub data Value : Type 0 where
    bool_value : Bool → Value
    bool_values : List Bool → Value
    string_value : List ℕ → Value
    string_values : List (List ℕ) → Value
    number_value : Kind → ℕ → Value
    number_values : Kind → List ℕ → Value
    error_value : List ℕ → Value
    time_value : ℕ → Value
    derived_bool : Bool → Value
    derived_string : List ℕ → Value
    derived_number : Kind → ℕ → Value
    struct_value : Members → Value
    unsupported_value : List ℕ → Value

  pub data Members : Type 0 where
    no_members : Members
    exported unexported : Value → Members → Members

module _ (word : WordSize) (to_filetime : ℕ → ℕ × ℕ) where
  abbrev pub number_field : Kind → List ℕ → ℕ → FieldOpt
  number_field of_int = int_field word
  number_field of_int8 = int8_field
  number_field of_int16 = int16_field
  number_field of_int32 = int32_field
  number_field of_int64 = int64_field
  number_field of_uint = uint_field word
  number_field of_uint8 = uint8_field
  number_field of_uint16 = uint16_field
  number_field of_uint32 = uint32_field
  number_field of_uint64 = uint64_field
  number_field of_uintptr = uintptr_field word
  number_field of_float32 = float32_field
  number_field of_float64 = float64_field

  abbrev pub number_array : Kind → List ℕ → List ℕ → FieldOpt
  number_array of_int = int_array word
  number_array of_int8 = int8_array
  number_array of_int16 = int16_array
  number_array of_int32 = int32_array
  number_array of_int64 = int64_array
  number_array of_uint = uint_array word
  number_array of_uint8 = uint8_array
  number_array of_uint16 = uint16_array
  number_array of_uint32 = uint32_array
  number_array of_uint64 = uint64_array
  number_array of_uintptr = uintptr_array word
  number_array of_float32 = float32_array
  number_array of_float64 = float64_array

  abbrev mutual
    pub smart_field : List ℕ → Value → FieldOpt
    smart_field name (bool_value v) = bool_field name v
    smart_field name (bool_values vs) = bool_array name vs
    smart_field name (string_value v) = string_field name v
    smart_field name (string_values vs) = string_array name vs
    smart_field name (number_value k v) = number_field k name v
    smart_field name (number_values k vs) = number_array k name vs
    smart_field name (error_value text) = string_field name text
    smart_field name (time_value t) = time_field to_filetime name t
    smart_field name (derived_bool v) = bool_field name v
    smart_field name (derived_string v) = string_field name v
    smart_field name (derived_number k v) = number_field k name v
    smart_field name (struct_value ms) = struct_field name (member_fields name ms)
    smart_field name (unsupported_value text) = string_field name text

    -- The fields of a struct are named as the struct is.
    pub member_fields : List ℕ → Members → List FieldOpt
    member_fields name no_members = []
    member_fields name (exported v ms) = smart_field name v ∷ member_fields name ms
    member_fields name (unexported v ms) = member_fields name ms
