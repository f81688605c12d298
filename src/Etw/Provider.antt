-- ===== src/Etw/Provider.antt =====
-- pkg/etw/provider.go and eventopt.go: whether a provider is enabled, the options of an event, and what
-- `WriteEvent` hands to the kernel. The registration of providers is not modelled.
pub mod Reading
mod Tests
use go_winio.Base.{
  ℕ, ◌+◌, ◌-◌, ◌*◌, ◌/◌, ◌%◌, ◌^◌, bit_and, bit_or, Bool, true, false, ◌&&◌, ◌||◌, List, [], ◌∷◌,
  ◌++◌, length, Option, none, some, ltb, ◌==◌, not, if◌then◌else◌, Result, ok, err, panic, ◌>>=◌,
}
use go_winio.Guid.{Guid}
use go_winio.Etw.{EventDescriptor, new_event_descriptor}
use go_winio.Etw.Metadata.{EventMetadata, write_event_header, to_bytes}
use go_winio.Etw.Options.{Event, FieldOpt, apply_all}

pub data ProviderState : Type 0 where
  disable enable capture_state : ProviderState

pub record Provider : Type 0 where
  pub metadata : List ℕ
  pub enabled : Bool
  pub level : ℕ
  pub keyword_any : ℕ
  pub keyword_all : ℕ

-- What `providerCallback` does before it calls the callback of the provider.
abbrev pub provider_callback : ProviderState → ℕ → ℕ → ℕ → Provider → Provider
provider_callback capture_state level any all p = p
provider_callback disable level any all p = record p { enabled = false }
provider_callback enable level any all p = record p {
  enabled = true;
  level = level;
  keyword_any = any;
  keyword_all = all;
}

-- Without a provider no event is wanted.
abbrev pub is_enabled_for_level_and_keywords : Option Provider → ℕ → ℕ → Bool
is_enabled_for_level_and_keywords none level keywords = false
is_enabled_for_level_and_keywords (some p) level keywords =
    if not p.enabled
    then false
    else if ltb p.level level
    then false
    else if not (keywords == 0)
        && (bit_and keywords p.keyword_any == 0
            || not (bit_and keywords p.keyword_all == p.keyword_all))
    then false
    else true

abbrev pub is_enabled_for_level : Option Provider → ℕ → Bool
is_enabled_for_level p level = is_enabled_for_level_and_keywords p level (2 ^ 64 - 1)

abbrev pub is_enabled : Option Provider → Bool
is_enabled p = is_enabled_for_level_and_keywords p 0 (2 ^ 64 - 1)

pub record EventOptions : Type 0 where
  pub descriptor : EventDescriptor
  pub activity_id : Guid
  pub related_activity_id : Guid
  pub tags : ℕ

abbrev pub EventOpt : Type 0
EventOpt = EventOptions → EventOptions

abbrev pub with_level : ℕ → EventOpt
with_level level o = record o { descriptor = record o.descriptor { level = level } }

abbrev pub with_keyword : ℕ → EventOpt
with_keyword keyword o = record o {
  descriptor = record o.descriptor { keyword = bit_or o.descriptor.keyword keyword };
}

abbrev pub with_channel : ℕ → EventOpt
with_channel channel o = record o { descriptor = record o.descriptor { channel = channel } }

abbrev pub with_opcode : ℕ → EventOpt
with_opcode opcode o = record o { descriptor = record o.descriptor { opcode = opcode } }

abbrev pub with_tags : ℕ → EventOpt
with_tags tags o = record o { tags = bit_or o.tags tags }

abbrev pub with_activity_id : Guid → EventOpt
with_activity_id id o = record o { activity_id = id }

abbrev pub with_related_activity_id : Guid → EventOpt
with_related_activity_id id o = record o { related_activity_id = id }

abbrev pub no_activity : Guid
no_activity = record { data1 = 0; data2 = 0; data3 = 0; data4 = (0, 0, 0, 0, 0, 0, 0, 0) }

abbrev pub apply_options : List EventOpt → EventOpt
apply_options [] o = o
apply_options (opt ∷ opts) o = apply_options opts (opt o)

abbrev pub event_options : List EventOpt → EventOptions
event_options opts = apply_options opts (record {
  descriptor = new_event_descriptor;
  activity_id = no_activity;
  related_activity_id = no_activity;
  tags = 0;
})

-- eventdatadescriptor.go: a blob with its type. The address of the first byte of none is out of range.
pub data DescriptorType : Type 0 where
  user_data event_metadata provider_metadata : DescriptorType

pub record EventDataDescriptor : Type 0 where
  pub data_type : DescriptorType
  pub size : ℕ
  pub bytes : List ℕ

abbrev pub descriptor_of : DescriptorType → List ℕ → EventDataDescriptor
descriptor_of t bytes = record { data_type = t; size = length bytes % 2 ^ 32; bytes = bytes }

abbrev pub new_event_data_descriptor :
    DescriptorType → List ℕ → Result (Unit {0}) EventDataDescriptor
new_event_data_descriptor t [] = panic
new_event_data_descriptor t (b ∷ bs) = ok (descriptor_of t (b ∷ bs))

abbrev pub descriptors :
    DescriptorType → List (List ℕ) → Result (Unit {0}) (List EventDataDescriptor)
descriptors t [] = ok []
descriptors t (blob ∷ blobs) = do
  d ← new_event_data_descriptor t blob
  ds ← descriptors t blobs
  ok (d ∷ ds)

-- The call of `eventWriteTransfer`.
pub record Transfer : Type 0 where
  pub options : EventOptions
  pub blobs : List EventDataDescriptor

abbrev pub write_event_raw :
    Provider → EventOptions → List (List ℕ) → List (List ℕ) → Result (Unit {0}) (Option Transfer)
write_event_raw p options metadata_blobs data_blobs = do
  first ← new_event_data_descriptor provider_metadata p.metadata
  ms ← descriptors event_metadata metadata_blobs
  ds ← descriptors user_data data_blobs
  ok (some (record { options = options; blobs = first ∷ (ms ++ ds) }))

abbrev pub data_blobs : List ℕ → List (List ℕ)
data_blobs bytes = if ltb 0 (length bytes) then bytes ∷ [] else []

-- Behind the header: the fields, and the two buffers.
abbrev pub with_event : Provider → EventOptions → Option Event → Result (Unit {0}) (Option Transfer)
with_event p options none = err tt
with_event p options (some e) = do
  m ← to_bytes e.em
  write_event_raw p options (m ∷ []) (data_blobs e.ed.buffer)

abbrev pub with_header :
    Provider
    → EventOptions
    → List FieldOpt
    → Option EventMetadata
    → Result (Unit {0}) (Option Transfer)
with_header p options opts none = err tt
with_header p options opts (some em) =
    with_event p options (apply_all opts (record { em = em; ed = record { buffer = [] } }))

-- `WriteEvent`: nothing if the event is not wanted. The error stands for the fuel of the tags, which is
-- always enough.
unfoldable pub write_event :
    Option Provider → List ℕ → List EventOpt → List FieldOpt → Result (Unit {0}) (Option Transfer)
write_event none name event_opts field_opts = ok none
write_event (some p) name event_opts field_opts =
    let options = event_options event_opts in
    if not (
      is_enabled_for_level_and_keywords (some p) options.descriptor.level
        options.descriptor.keyword)
    then ok none
    else with_header p options field_opts
        (write_event_header (record { buffer = [] }) name options.tags)
