-- ===== src/Wim/Reader.antt =====
-- `NewReader` of wim/wim.go: the header of a WIM file, its XML information and its images. The parser of
-- XML and the decoder of UTF-16 are arguments.
pub mod Sound
use go_winio.Base.{
  ℕ, zero, suc, ◌+◌, ◌-◌, ◌*◌, ◌/◌, ◌%◌, ◌^◌, bit_and, Bool, List, [], ◌∷◌, length, take, drop,
  Option, none, some, leb, ltb, ◌==◌, not, if◌then◌else◌, Result, ok, err, panic, ◌>>=◌, ◌>>◌,
  fail_if, same_text,
}
use go_winio.Base.Word.{le_field}
use go_winio.Io.{IoError, eof}
use go_winio.Utf16.{read_units}
use go_winio.Wim.Source.{
  Source, image_tag, xml_data, xml_info, WimError, parse_error, reading, unsupported_flags,
  unsupported_compression_size, multi_part, not_wim, invalid_bom, not_xml, oper_error, with_error,
  read_bytes,
}
use go_winio.Wim.Resource.{
  ResourceDescriptor, FileData, Decompress, descriptor_at, compressed_size, resource_reader,
  read_offset_table,
}

-- "MSWIM" and three zeros.
abbrev pub wim_image_tag : List ℕ
wim_image_tag = 77 ∷ 83 ∷ 87 ∷ 73 ∷ 77 ∷ 0 ∷ 0 ∷ 0 ∷ []

-- The fields of `wimHeader` that the code reads.
pub record WimHeader : Type 0 where
  pub image_tag : List ℕ
  pub flags : ℕ
  pub compression_size : ℕ
  pub total_parts : ℕ
  pub image_count : ℕ
  pub offset_table : ResourceDescriptor
  pub xml_data : ResourceDescriptor

abbrev pub wim_header_size : ℕ
wim_header_size = 212

abbrev pub wim_header : List ℕ → WimHeader
wim_header bs = record {
  image_tag = take 8 bs;
  flags = le_field 16 4 bs;
  compression_size = le_field 20 4 bs;
  total_parts = le_field 42 2 bs;
  image_count = le_field 44 4 bs;
  offset_table = descriptor_at 48 bs;
  xml_data = descriptor_at 72 bs;
}

-- The flags other than those of compression, of LZX, of read-only files and of fixed reparse points.
abbrev pub unsupported_hdr_flags : ℕ → ℕ
unsupported_hdr_flags f = bit_and f 0xfffbff79

-- The checks of the header, in their order.
unfoldable pub check_header : WimHeader → Result WimError (Unit {0})
unfolding same_text
check_header h = do
  fail_if (not (same_text h.image_tag wim_image_tag)) (parse_error image_tag [] not_wim)
  fail_if (not (unsupported_hdr_flags h.flags == 0))
      (unsupported_flags (unsupported_hdr_flags h.flags))
  fail_if (not (h.compression_size == 0x8000)) (unsupported_compression_size h.compression_size)
  fail_if (not (h.total_parts == 1)) multi_part
  ok tt

-- `if xmlData[0] != 0xfeff`, and the text behind it.
abbrev pub without_bom : (List ℕ → List ℕ) → Option (List ℕ × List ℕ) → Result WimError (List ℕ)
without_bom decode (some (u ∷ us, _)) =
    if u == 0xfeff then ok (decode us) else err (parse_error xml_data [] invalid_bom)
without_bom decode (some ([], _)) = panic
without_bom decode none = panic

module _ (decompress : Decompress) (decode : List ℕ → List ℕ) (file : List ℕ) where
  -- `readXML`. `make` panics at a negative size, and the first unit of no units is out of range.
  unfoldable pub read_xml : ResourceDescriptor → Result WimError (List ℕ)
  unfolding compressed_size resource_reader read_bytes read_units
  read_xml hdr = if compressed_size hdr == 0 then ok [] else (do
    s ← with_error reading (resource_reader decompress file hdr)
    if leb (2 ^ 63) hdr.original_size then panic else (do
      (bs, _) ← read_bytes (oper_error xml_data) (hdr.original_size / 2 * 2) s
      without_bom decode (read_units (hdr.original_size / 2) bs)))

  module _ {Info : Type 0} (index_of : Info → ℕ) (unmarshal : List ℕ → Option (List Info)) where
    pub record WimReader : Type 0 where
      pub hdr : WimHeader
      pub file_data : FileData
      pub xml : List ℕ
      pub images : List (ResourceDescriptor × Option Info)

    -- The first information with the index.
    unfoldable pub info_at : ℕ → List Info → Option Info
    info_at i [] = none
    info_at i (x ∷ xs) = let rest = info_at i xs in if index_of x == i then some x else rest

    unfoldable pub with_infos :
        ℕ → List Info → List ResourceDescriptor → List (ResourceDescriptor × Option Info)
    unfolding info_at
    with_infos i infos [] = []
    with_infos i infos (r ∷ rs) = (r, info_at i infos) ∷ with_infos (suc i) infos rs

    unfoldable pub new_reader : Result WimError WimReader
    unfolding read_bytes check_header read_offset_table read_xml with_infos
    new_reader = do
      (hb, _) ←
          read_bytes (λ e. reading e) wim_header_size
            (record { bytes = take 0xffff file; final = eof })
      let hdr = wim_header hb
      check_header hdr
      (file_data, images) ← read_offset_table decompress file hdr.offset_table hdr.image_count
      text ← read_xml hdr.xml_data
      infos ← (elim (unmarshal text) [
        | none ↦ err (parse_error xml_info [] not_xml)
        | some x ↦ ok x
      ])
      ok (record {
        hdr = hdr;
        file_data = file_data;
        xml = text;
        images = with_infos 1 infos images;
      })
