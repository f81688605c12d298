-- ===== src/Etw/Metadata/Tests.antt =====
-- Concrete runs of the metadata of events, and its theorems at concrete inputs.
use go_winio.Base.{◌≡◌, refl, [], ◌∷◌, some}
use go_winio.Etw.{new_event_descriptor, identity, set_identity}
use go_winio.Etw.Metadata.{EventMetadata, tags_bytes, tags_loop}

-- 0x0fe00001 has the groups 0x7f, 0, 0 and 1.
four_groups : tags_bytes 0x0fe00001 ≡ some (0xff ∷ 0x80 ∷ 0x80 ∷ 1 ∷ [])
unfolding tags_bytes tags_loop
four_groups = refl

one_group : tags_bytes 0x0fe00000 ≡ some (0x7f ∷ [])
unfolding tags_bytes tags_loop
one_group = refl

identity_of_set : identity (set_identity new_event_descriptor 0x7bcdef) ≡ 0x7bcdef
unfolding identity set_identity new_event_descriptor
identity_of_set = refl

abbrev empty_metadata : EventMetadata
empty_metadata = record { buffer = [] }
