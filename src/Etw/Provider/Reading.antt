-- ===== src/Etw/Provider/Reading.antt =====
-- What `WriteEvent` hands to the kernel is read back as the event.
use go_winio.Base.{
  ℕ, ◌/◌, ◌%◌, ◌^◌, ◌≡◌, refl, sym, ap, ◌∙◌, arith, Bool, true, List, [], ◌∷◌, ◌++◌, append-nil,
  length, drop, some, ltb, if◌then◌else◌, ok, >>=-ok,
}
use go_winio.Base.Word.{le16, le_field}
use go_winio.Etw.Metadata.Header.{read_header, write_event_header_bytes, to_bytes_lem}
use go_winio.Etw.Options.{Event, WordSize, FieldOpt, apply_all}
use go_winio.Etw.Options.Smart.{Value, smart_field}
use go_winio.Etw.Options.Reading.{Item, read_items}
use go_winio.Etw.Options.Items.{HasNoNul, IsLoggable, items}
use go_winio.Etw.Options.Adding.{Adds, nothing-Adds, both-Adds}
use go_winio.Etw.Options.RoundTrip.{read_items-smart_field}
use go_winio.Etw.Provider.{
  Provider, is_enabled_for_level_and_keywords, EventOptions, EventOpt, event_options,
  provider_metadata, event_metadata, user_data, descriptor_of, EventDataDescriptor, Transfer,
  data_blobs, descriptors, write_event_raw, with_event, with_header, write_event,
}

-- The call with these metadata, and with the data if there are some.
abbrev pub data_descriptors : List ℕ → List EventDataDescriptor
data_descriptors [] = []
data_descriptors (b ∷ bs) = descriptor_of user_data (b ∷ bs) ∷ []

abbrev pub transfer : Provider → EventOptions → List ℕ → List ℕ → Transfer
transfer p options m d = record {
  options = options;
  blobs =
      descriptor_of provider_metadata p.metadata
      ∷ descriptor_of event_metadata m
      ∷ data_descriptors d;
}

data_lem : (d : List ℕ) → descriptors user_data (data_blobs d) ≡ ok (data_descriptors d)
data_lem [] = refl
data_lem (b ∷ bs) =
    let some_data : ltb 0 (length (b ∷ bs)) ≡ true = ground arith in
    ap (λ (c : Bool). descriptors user_data (if c then (b ∷ bs) ∷ [] else [])) some_data

raw_lem :
    (p : Provider) (options : EventOptions) (b c : ℕ) (bs m d : List ℕ)
    → p.metadata ≡ b ∷ bs
    → write_event_raw p options ((c ∷ m) ∷ []) (data_blobs d)
      ≡ ok (some (transfer p options (c ∷ m) d))
raw_lem p options b c bs m d e = rw (e, data_lem d) refl

module _ (word : WordSize) (to_filetime : ℕ → ℕ × ℕ) where
  abbrev pub Fields : Type 0
  Fields = List (List ℕ × Value)

  abbrev pub field_opts : Fields → List FieldOpt
  field_opts [] = []
  field_opts ((name, v) ∷ fs) = smart_field word to_filetime name v ∷ field_opts fs

  abbrev pub all_items : Fields → List Item
  all_items [] = []
  all_items ((name, v) ∷ fs) = items word to_filetime name v ++ all_items fs

  abbrev pub AreReadable : Fields → Type 0
  AreReadable [] = Unit {0}
  AreReadable ((name, v) ∷ fs) = HasNoNul name × IsLoggable word to_filetime v × AreReadable fs

  fields-Adds : (fs : Fields) → AreReadable fs → Adds (apply_all (field_opts fs)) (all_items fs)
  unfolding Adds
  fields-Adds [] h = nothing-Adds
  fields-Adds ((name, v) ∷ fs) (h, k, hs) =
      both-Adds (smart_field word to_filetime name v) (field_opts fs)
        (items word to_filetime name v) (all_items fs)
        (λ e. read_items-smart_field word to_filetime name v e h k) (fields-Adds fs hs)

  -- For a name without NUL and fields that can be read back, an event that the provider wants is handed to
  -- the kernel with the options and with metadata whose first two bytes are their length, modulo 2^16;
  -- behind these the low 28 bits of the tags and the name are read back, and then from the metadata and the
  -- data all fields, with nothing left.
  pub write_event-read :
      (p : Provider) (b : ℕ) (bs name : List ℕ) (opts : List EventOpt) (fs : Fields)
      → p.metadata ≡ b ∷ bs
      → is_enabled_for_level_and_keywords
          (some p)
          (event_options opts).descriptor.level
          (event_options opts).descriptor.keyword
        ≡ true
      → HasNoNul name
      → AreReadable fs
      → (m f d : List ℕ) × (write_event (some p) name opts (field_opts fs)
          ≡ ok (some (transfer p (event_options opts) m d)))
        × (le_field 0 2 m ≡ length m % 2 ^ 16)
        × (read_header (drop 2 m) ≡ some ((event_options opts).tags % 2 ^ 28, (name, f)))
        × (read_items (length (all_items fs)) f d ≡ some (all_items fs, [], []))
  unfolding write_event Adds
  write_event-read p b bs name opts fs e wanted h k =
      let options = event_options opts in
      let (x, ex, rx) = write_event_header_bytes name options.tags h in
      let e0 : Event = record { em = record { buffer = 0 ∷ 0 ∷ x }; ed = record { buffer = [] } } in
      let (f, d, ef, rf) = fields-Adds fs k e0 in
      let n = length (0 ∷ 0 ∷ (x ++ f)) % 2 ^ 16 in
      let m = le16 n ++ (x ++ f) in
      (
        m,
        f,
        d,
        rw wanted (
            ap (λ y. with_header p options (field_opts fs) y) ex
            ∙ ap (λ y. with_event p options y) ef
            ∙ >>=-ok _ (to_bytes_lem (x ++ f))
                (raw_lem p options b (n % 256) bs (n / 256 % 256 ∷ (x ++ f)) d e)),
        omega arith,
        rx f,
        ap (λ y. read_items (length (all_items fs)) y d) (sym (append-nil f))
            ∙ ap (λ y. read_items (length (all_items fs)) (f ++ []) y) (sym (append-nil d))
            ∙ rf [] [],
      )
