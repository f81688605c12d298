-- ===== src/Etw/Provider/Tests.antt =====
-- A provider that is enabled, and an event of it with a keyword and tags.
use go_winio.Base.{
  ℕ, ◌/◌, ◌%◌, ◌^◌, ◌≡◌, refl, arith, true, false, List, [], ◌∷◌, length, drop, some, ok,
}
use go_winio.Base.Word.{le_field}
use go_winio.Etw.{new_event_descriptor}
use go_winio.Etw.Metadata.Header.{read_header}
use go_winio.Etw.Options.{word64}
use go_winio.Etw.Options.Smart.{of_uint16, number_value, string_value}
use go_winio.Etw.Options.Reading.{read_items}
use go_winio.Etw.Provider.{
  Provider, enable, disable, provider_callback, is_enabled_for_level_and_keywords, EventOpt,
  event_options, with_level, with_keyword, with_tags, write_event,
}
use go_winio.Etw.Provider.Reading.{
  Fields, field_opts, all_items, AreReadable, transfer, write_event-read,
}

abbrev halves : ℕ → ℕ × ℕ
halves t = (t % 2 ^ 32, t / 2 ^ 32)

abbrev new_provider : Provider
new_provider = record {
  metadata = 5 ∷ 0 ∷ b'p' ∷ 0 ∷ [];
  enabled = false;
  level = 0;
  keyword_any = 0;
  keyword_all = 0;
}

abbrev enabled_provider : Provider
enabled_provider = provider_callback enable 255 6 2 new_provider

abbrev opts : List EventOpt
opts = with_level 4 ∷ with_keyword 3 ∷ with_tags 5 ∷ []

wanted :
    is_enabled_for_level_and_keywords
      (some enabled_provider)
      (event_options opts).descriptor.level
      (event_options opts).descriptor.keyword
    ≡ true
unfolding new_event_descriptor
wanted = refl

-- All keywords that the session wants must be there.
not_wanted : is_enabled_for_level_and_keywords (some enabled_provider) 4 4 ≡ false
not_wanted = refl

disabled :
    is_enabled_for_level_and_keywords (some (provider_callback disable 0 0 0 enabled_provider)) 0 3
    ≡ false
disabled = refl

abbrev fields : Fields word64 halves
fields = (b'n' ∷ [], number_value of_uint16 513) ∷ (b's' ∷ [], string_value (b'o' ∷ b'k' ∷ [])) ∷ []

fields-AreReadable : AreReadable word64 halves fields
fields-AreReadable = (omega arith, omega arith, (omega arith, omega arith, tt))

write_event-read_example :
    (m f d : List ℕ) × (write_event
        (some enabled_provider)
        (b'e' ∷ [])
        opts
        (field_opts word64 halves fields)
      ≡ ok (some (transfer enabled_provider (event_options opts) m d)))
    × (le_field 0 2 m ≡ length m % 2 ^ 16)
    × (read_header (drop 2 m) ≡ some ((event_options opts).tags % 2 ^ 28, (b'e' ∷ [], f)))
    × (read_items (length (all_items word64 halves fields)) f d
        ≡ some (all_items word64 halves fields, [], []))
write_event-read_example =
    write_event-read word64 halves enabled_provider 5 (0 ∷ b'p' ∷ 0 ∷ []) (b'e' ∷ []) opts fields
      refl wanted (omega arith) fields-AreReadable
