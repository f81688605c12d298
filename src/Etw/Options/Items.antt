-- ===== src/Etw/Options/Items.antt =====
-- The fields that stand for a value of `SmartField`, and the values that can be read back.
use go_winio.Base.{
  ℕ, suc, ◌+◌, ◌*◌, ◌^◌, ◌<◌, ◌≢◌, Bool, List, [], ◌∷◌, ◌++◌, length, All, if◌then◌else◌,
}
use go_winio.Etw.Options.{WordSize, word32, word64}
use go_winio.Etw.Options.Smart.{
  Kind, of_int, of_int8, of_int16, of_int32, of_int64, of_uint, of_uint8, of_uint16, of_uint32,
  of_uint64, of_uintptr, of_float32, of_float64, Value, bool_value, bool_values, string_value,
  string_values, number_value, number_values, error_value, time_value, derived_bool, derived_string,
  derived_number, struct_value, unsupported_value, Members, no_members, exported, unexported,
}
use go_winio.Etw.Options.Reading.{Datum, number, text, one, several, members, Item, item_of, width}
use go_winio.Etw.Options.Coding.{map_all}

abbrev pub HasNoNul : List ℕ → Type 0
HasNoNul s = All (λ c. c ≢ 0) s

abbrev pub bool_datum : Bool → Datum
bool_datum b = number (if b then 1 else 0)

module _ (word : WordSize) (to_filetime : ℕ → ℕ × ℕ) where
  abbrev pub by_word : ℕ → ℕ → ℕ
  by_word a b = elim word [ word32 ↦ a | word64 ↦ b ]

  -- The type of the numbers of a kind, and how many bytes they have.
  abbrev pub type_of : Kind → ℕ
  type_of of_int = by_word 7 9
  type_of of_int8 = 3
  type_of of_int16 = 5
  type_of of_int32 = 7
  type_of of_int64 = 9
  type_of of_uint = by_word 8 10
  type_of of_uint8 = 4
  type_of of_uint16 = 6
  type_of of_uint32 = 8
  type_of of_uint64 = 10
  type_of of_uintptr = by_word 20 21
  type_of of_float32 = 11
  type_of of_float64 = 12

  -- The fields that stand for a value: its name, type and contents, and for a struct the number of its
  -- exported fields, with these behind it.
  abbrev pub count : Members → ℕ
  count no_members = 0
  count (exported v ms) = suc (count ms)
  count (unexported v ms) = count ms

  abbrev pub string_items : List ℕ → List ℕ → List Item
  string_items name s = item_of name 2 35 (one (text s)) ∷ []

  abbrev pub filetime : ℕ → ℕ
  filetime t = (to_filetime t).0 + (to_filetime t).1 * 2 ^ 32

  abbrev mutual
    pub items : List ℕ → Value → List Item
    items name (bool_value v) = item_of name 4 3 (one (bool_datum v)) ∷ []
    items name (bool_values vs) = item_of name 68 3 (several (map_all bool_datum vs)) ∷ []
    items name (string_value s) = string_items name s
    items name (string_values ss) = item_of name 66 35 (several (map_all text ss)) ∷ []
    items name (number_value k v) = item_of name (type_of k) 0 (one (number v)) ∷ []
    items name (number_values k vs) =
        item_of name (type_of k + 64) 0 (several (map_all number vs)) ∷ []
    items name (error_value s) = string_items name s
    items name (time_value t) = item_of name 17 38 (one (number (filetime t))) ∷ []
    items name (derived_bool v) = item_of name 4 3 (one (bool_datum v)) ∷ []
    items name (derived_string s) = string_items name s
    items name (derived_number k v) = item_of name (type_of k) 0 (one (number v)) ∷ []
    items name (struct_value ms) =
        item_of name 24 (count ms) (members (count ms)) ∷ member_items name ms
    items name (unsupported_value s) = string_items name s

    pub member_items : List ℕ → Members → List Item
    member_items name no_members = []
    member_items name (exported v ms) = items name v ++ member_items name ms
    member_items name (unexported v ms) = member_items name ms

  -- The texts have no NUL, a number fits its type, a slice has fewer than 2^16 values, and a struct fewer
  -- than 128 exported fields.
  abbrev pub Fits : Kind → ℕ → Type 0
  Fits k v = v < 2 ^ (8 * width (type_of k))

  abbrev mutual
    pub IsLoggable : Value → Type 0
    IsLoggable (bool_value v) = Unit {0}
    IsLoggable (bool_values vs) = length vs < 2 ^ 16
    IsLoggable (string_value s) = HasNoNul s
    IsLoggable (string_values ss) = (length ss < 2 ^ 16) × All HasNoNul ss
    IsLoggable (number_value k v) = Fits k v
    IsLoggable (number_values k vs) = (length vs < 2 ^ 16) × All (Fits k) vs
    IsLoggable (error_value s) = HasNoNul s
    IsLoggable (time_value t) = ((to_filetime t).0 < 2 ^ 32) × ((to_filetime t).1 < 2 ^ 32)
    IsLoggable (derived_bool v) = Unit {0}
    IsLoggable (derived_string s) = HasNoNul s
    IsLoggable (derived_number k v) = Fits k v
    IsLoggable (struct_value ms) = (count ms < 128) × AreLoggable ms
    IsLoggable (unsupported_value s) = HasNoNul s

    pub AreLoggable : Members → Type 0
    AreLoggable no_members = Unit {0}
    AreLoggable (exported v ms) = IsLoggable v × AreLoggable ms
    AreLoggable (unexported v ms) = AreLoggable ms
