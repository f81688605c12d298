-- ===== src/Etw/Options.antt =====
-- pkg/etw/fieldopt.go: the options that add fields to an event. An option takes the metadata and the data
-- of an event; a floating-point number is its bits and a signed number its bit pattern. The conversion of
-- a time to a FILETIME is an argument.
pub mod Smart
pub mod Reading
pub mod Items
pub mod Coding
pub mod Adding
pub mod Numbers
pub mod RoundTrip
mod Tests
use go_winio.Base.{
  ℕ, ◌+◌, ◌-◌, ◌*◌, ◌/◌, ◌%◌, ◌^◌, Bool, true, false, List, [], ◌∷◌, length, Option, none, some,
  if◌then◌else◌,
}
use go_winio.Etw.Metadata.{EventMetadata, write_field, write_array, write_struct}
use go_winio.Etw.Payload.{
  EventData, write_string, write_uint8, write_uint16, write_uint32, write_uint64, write_filetime,
}

pub record Event : Type 0 where
  pub em : EventMetadata
  pub ed : EventData

-- Nothing stands for the fuel of the tags, which is always enough.
abbrev pub FieldOpt : Type 0
FieldOpt = Event → Option Event

-- How many bits an `int`, a `uint` and a `uintptr` have.
pub data WordSize : Type 0 where
  word32 word64 : WordSize

abbrev pub in_type_ansi_string : ℕ
in_type_ansi_string = 2

abbrev pub in_type_int8 : ℕ
in_type_int8 = 3

abbrev pub in_type_uint8 : ℕ
in_type_uint8 = 4

abbrev pub in_type_int16 : ℕ
in_type_int16 = 5

abbrev pub in_type_uint16 : ℕ
in_type_uint16 = 6

abbrev pub in_type_int32 : ℕ
in_type_int32 = 7

abbrev pub in_type_uint32 : ℕ
in_type_uint32 = 8

abbrev pub in_type_int64 : ℕ
in_type_int64 = 9

abbrev pub in_type_uint64 : ℕ
in_type_uint64 = 10

abbrev pub in_type_float : ℕ
in_type_float = 11

abbrev pub in_type_double : ℕ
in_type_double = 12

abbrev pub in_type_file_time : ℕ
in_type_file_time = 17

abbrev pub in_type_hex_int32 : ℕ
in_type_hex_int32 = 20

abbrev pub in_type_hex_int64 : ℕ
in_type_hex_int64 = 21

abbrev pub out_type_boolean : ℕ
out_type_boolean = 3

abbrev pub out_type_json : ℕ
out_type_json = 12

abbrev pub out_type_utf8 : ℕ
out_type_utf8 = 35

abbrev pub out_type_date_time_utc : ℕ
out_type_date_time_utc = 38

-- The body of the options for one value, and of those for a slice.
abbrev pub with_data : Option EventMetadata → EventData → Option Event
with_data none ed = none
with_data (some em) ed = some (record { em = em; ed = ed })

abbrev pub write_values {ℓ} :
    {A : Type ℓ} → (EventData → A → EventData) → EventData → List A → EventData
write_values write ed [] = ed
write_values write ed (v ∷ vs) = write_values write (write ed v) vs

abbrev pub field {ℓ} : {A : Type ℓ} → (EventData → A → EventData) → ℕ → ℕ → List ℕ → A → FieldOpt
field write in_type out_type name v e =
    with_data (write_field e.em name in_type out_type 0) (write e.ed v)

abbrev pub array {ℓ} :
    {A : Type ℓ} → (EventData → A → EventData) → ℕ → ℕ → List ℕ → List A → FieldOpt
array write in_type out_type name vs e =
    with_data (write_array e.em name in_type out_type 0)
      (write_values write (write_uint16 e.ed (length vs % 2 ^ 16)) vs)

abbrev pub write_bool : EventData → Bool → EventData
write_bool ed v = write_uint8 ed (if v then 1 else 0)

abbrev pub bool_field : List ℕ → Bool → FieldOpt
bool_field = field write_bool in_type_uint8 out_type_boolean

abbrev pub bool_array : List ℕ → List Bool → FieldOpt
bool_array = array write_bool in_type_uint8 out_type_boolean

abbrev pub string_field : List ℕ → List ℕ → FieldOpt
string_field = field write_string in_type_ansi_string out_type_utf8

abbrev pub json_string_field : List ℕ → List ℕ → FieldOpt
json_string_field = field write_string in_type_ansi_string out_type_json

abbrev pub string_array : List ℕ → List (List ℕ) → FieldOpt
string_array = array write_string in_type_ansi_string out_type_utf8

abbrev pub int8_field : List ℕ → ℕ → FieldOpt
int8_field = field write_uint8 in_type_int8 0

abbrev pub int8_array : List ℕ → List ℕ → FieldOpt
int8_array = array write_uint8 in_type_int8 0

abbrev pub int16_field : List ℕ → ℕ → FieldOpt
int16_field = field write_uint16 in_type_int16 0

abbrev pub int16_array : List ℕ → List ℕ → FieldOpt
int16_array = array write_uint16 in_type_int16 0

abbrev pub int32_field : List ℕ → ℕ → FieldOpt
int32_field = field write_uint32 in_type_int32 0

abbrev pub int32_array : List ℕ → List ℕ → FieldOpt
int32_array = array write_uint32 in_type_int32 0

abbrev pub int64_field : List ℕ → ℕ → FieldOpt
int64_field = field write_uint64 in_type_int64 0

abbrev pub int64_array : List ℕ → List ℕ → FieldOpt
int64_array = array write_uint64 in_type_int64 0

abbrev pub uint8_field : List ℕ → ℕ → FieldOpt
uint8_field = field write_uint8 in_type_uint8 0

abbrev pub uint8_array : List ℕ → List ℕ → FieldOpt
uint8_array = array write_uint8 in_type_uint8 0

abbrev pub uint16_field : List ℕ → ℕ → FieldOpt
uint16_field = field write_uint16 in_type_uint16 0

abbrev pub uint16_array : List ℕ → List ℕ → FieldOpt
uint16_array = array write_uint16 in_type_uint16 0

abbrev pub uint32_field : List ℕ → ℕ → FieldOpt
uint32_field = field write_uint32 in_type_uint32 0

abbrev pub uint32_array : List ℕ → List ℕ → FieldOpt
uint32_array = array write_uint32 in_type_uint32 0

abbrev pub uint64_field : List ℕ → ℕ → FieldOpt
uint64_field = field write_uint64 in_type_uint64 0

abbrev pub uint64_array : List ℕ → List ℕ → FieldOpt
uint64_array = array write_uint64 in_type_uint64 0

abbrev pub float32_field : List ℕ → ℕ → FieldOpt
float32_field = field write_uint32 in_type_float 0

abbrev pub float32_array : List ℕ → List ℕ → FieldOpt
float32_array = array write_uint32 in_type_float 0

abbrev pub float64_field : List ℕ → ℕ → FieldOpt
float64_field = field write_uint64 in_type_double 0

abbrev pub float64_array : List ℕ → List ℕ → FieldOpt
float64_array = array write_uint64 in_type_double 0

abbrev pub int_field : WordSize → List ℕ → ℕ → FieldOpt
int_field word32 name v = int32_field name v
int_field word64 name v = int64_field name v

abbrev pub int_array : WordSize → List ℕ → List ℕ → FieldOpt
int_array word32 name v = array write_uint32 in_type_int32 0 name v
int_array word64 name v = array write_uint64 in_type_int64 0 name v

abbrev pub uint_field : WordSize → List ℕ → ℕ → FieldOpt
uint_field word32 name v = uint32_field name v
uint_field word64 name v = uint64_field name v

abbrev pub uint_array : WordSize → List ℕ → List ℕ → FieldOpt
uint_array word32 name v = array write_uint32 in_type_uint32 0 name v
uint_array word64 name v = array write_uint64 in_type_uint64 0 name v

abbrev pub uintptr_field : WordSize → List ℕ → ℕ → FieldOpt
uintptr_field word32 name v = field write_uint32 in_type_hex_int32 0 name v
uintptr_field word64 name v = field write_uint64 in_type_hex_int64 0 name v

abbrev pub uintptr_array : WordSize → List ℕ → List ℕ → FieldOpt
uintptr_array word32 name v = array write_uint32 in_type_hex_int32 0 name v
uintptr_array word64 name v = array write_uint64 in_type_hex_int64 0 name v

-- The loop over the options.
abbrev pub apply_all : List FieldOpt → FieldOpt
apply_all [] e = some e
apply_all (opt ∷ opts) e = elim (opt e) [ none ↦ none | some e' ↦ apply_all opts e' ]

abbrev pub struct_field : List ℕ → List FieldOpt → FieldOpt
struct_field name opts e = elim (write_struct e.em name (length opts % 2 ^ 8) 0) [
  | none ↦ none
  | some em ↦ apply_all opts (record e { em = em })
]

-- The conversion gives the low and the high word.
abbrev pub time_field : (ℕ → ℕ × ℕ) → List ℕ → ℕ → FieldOpt
time_field to_filetime =
    field (λ ed v. write_filetime ed (to_filetime v).0 (to_filetime v).1) in_type_file_time
      out_type_date_time_utc
