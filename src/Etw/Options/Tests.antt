-- ===== src/Etw/Options/Tests.antt =====
-- An event with a struct, and the theorem on it.
use go_winio.Base.{ℕ, ◌/◌, ◌%◌, ◌^◌, ◌≡◌, arith, true, List, [], ◌∷◌, ◌++◌, length, some}
use go_winio.Etw.Options.{Event, word64}
use go_winio.Etw.Options.Smart.{
  Value, of_uint16, bool_value, string_value, number_values, struct_value, no_members, exported,
  unexported, smart_field,
}
use go_winio.Etw.Options.Reading.{read_items}
use go_winio.Etw.Options.Items.{IsLoggable, items}
use go_winio.Etw.Options.RoundTrip.{read_items-smart_field}

abbrev no_event : Event
no_event = record { em = record { buffer = [] }; ed = record { buffer = [] } }

abbrev halves : ℕ → ℕ × ℕ
halves t = (t % 2 ^ 32, t / 2 ^ 32)

abbrev sample : Value
sample = struct_value (
    exported (number_values of_uint16 (1 ∷ 513 ∷ []))
      (unexported (bool_value true) (exported (string_value (b'o' ∷ b'k' ∷ [])) no_members)))

sample-IsLoggable : IsLoggable word64 halves sample
sample-IsLoggable = (omega arith, ((omega arith, omega arith), (omega arith, tt)))

read_items-smart_field_example :
    (m d : List ℕ) × (smart_field word64 halves (b's' ∷ []) sample no_event
      ≡ some (record { em = record { buffer = [] ++ m }; ed = record { buffer = [] ++ d } }))
    × ((ms ds : List ℕ)
        → read_items (length (items word64 halves (b's' ∷ []) sample)) (m ++ ms) (d ++ ds)
          ≡ some (items word64 halves (b's' ∷ []) sample, ms, ds))
read_items-smart_field_example =
    read_items-smart_field word64 halves (b's' ∷ []) sample no_event (omega arith) sample-IsLoggable
