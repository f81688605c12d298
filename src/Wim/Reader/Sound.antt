-- ===== src/Wim/Reader/Sound.antt =====
-- What holds of a reader that `NewReader` gives.
use go_winio.Base.{
  ℕ, suc, arith, ◌≡◌, refl, sym, ◌∙◌, Bool, true, false, List, [], ◌∷◌, length, take, Option, none,
  some, ◌==◌, not, Result, ok, err, panic, ◌>>=◌, Returns, returns, fails, panics, Returns-bind,
  Returns-fail_if, of-Returns, same_text,
}
use go_winio.Io.{eof}
use go_winio.Wim.Source.{
  Source, WimError, parse_error, reading, offset_table, xml_info, not_xml, at_oper, read_bytes,
}
use go_winio.Wim.Resource.{
  ResourceDescriptor, Decompress, read_resource, table_rounds, read_offset_table,
}
use go_winio.Wim.Reader.{
  WimHeader, wim_header, wim_header_size, wim_image_tag, unsupported_hdr_flags, check_header,
  read_xml, WimReader, with_infos, new_reader,
}

pub record IsAccepted (h : WimHeader) : Type 0 where
  pub tagged : same_text h.image_tag wim_image_tag ≡ true
  pub known_flags : unsupported_hdr_flags h.flags ≡ 0
  pub chunked : h.compression_size ≡ 0x8000
  pub single : h.total_parts ≡ 1

Returns-then :
    {A B : Type 0} {Q : B → Type 0} (m : Result WimError A) {f : A → Result WimError B}
    → ((a : A) → Returns Q (f a))
    → Returns Q (m >>= f)
Returns-then (ok a) k = k a
Returns-then (err e) k = fails e
Returns-then panic k = panics

not-false : (b : Bool) → not b ≡ false → b ≡ true
not-false true e = refl
not-false false e = sym e

check_header_lem : (h : WimHeader) → Returns (λ _. IsAccepted h) (check_header h)
unfolding check_header
check_header_lem h = Returns-fail_if (not (same_text h.image_tag wim_image_tag)) _ (λ tag.
    Returns-fail_if (not (unsupported_hdr_flags h.flags == 0)) _ (λ flags.
      Returns-fail_if (not (h.compression_size == 0x8000)) _ (λ size.
        Returns-fail_if (not (h.total_parts == 1)) _ (λ parts. returns tt (record {
          tagged = not-false _ tag;
          known_flags = ground (arith, flags);
          chunked = ground (arith, size);
          single = ground (arith, parts);
        })))))

read_offset_table-count :
    (decompress : Decompress) (file : List ℕ) (res : ResourceDescriptor) (count : ℕ)
    → Returns
        (λ (files, images). length images ≡ count)
        (read_offset_table decompress file res count)
unfolding read_offset_table
read_offset_table-count decompress file res count =
    Returns-then (at_oper offset_table (read_resource decompress file res)) (λ table.
      Returns-then (table_rounds (suc (length table)) table [] []) (λ (files, images).
        Returns-fail_if (not (length images == count)) _
          (λ same. returns (files, images) (ground (arith, same)))))

module _ (decompress : Decompress) (decode : List ℕ → List ℕ) (file : List ℕ) {Info : Type 0}
    (index_of : Info → ℕ) (unmarshal : List ℕ → Option (List Info)) where
  length-infos :
      (i : ℕ) (infos : List Info) (rs : List ResourceDescriptor)
      → length (with_infos decompress decode file index_of unmarshal i infos rs) ≡ length rs
  unfolding with_infos
  length-infos i infos [] = refl
  length-infos i infos (r ∷ rs) = omega (arith, length-infos (suc i) infos rs)

  -- The header was accepted, and there are as many images as it says.
  pub record IsSound (r : WimReader decompress decode file index_of unmarshal) : Type 0 where
    pub accepted : IsAccepted r.hdr
    pub counted : length r.images ≡ r.hdr.image_count

  infos_of : List ℕ → Result WimError (List Info)
  infos_of text = elim (unmarshal text) [
    | none ↦ err (parse_error xml_info [] not_xml)
    | some x ↦ ok x
  ]

  sound : Returns IsSound (new_reader decompress decode file index_of unmarshal)
  unfolding new_reader infos_of
  sound =
      let start : Source = record { bytes = take 0xffff file; final = eof } in
      Returns-then (read_bytes (λ e. reading e) wim_header_size start) (λ (hb, s).
        let h = wim_header hb in
        Returns-bind (check_header_lem h) (λ _ accepted.
          Returns-bind (read_offset_table-count decompress file h.offset_table h.image_count)
            (λ (files, images) counted.
              Returns-then (read_xml decompress decode file h.xml_data) (λ text.
                Returns-then (infos_of text) (λ infos. returns _ (record {
                  accepted = accepted;
                  counted = length-infos 1 infos images ∙ counted;
                }))))))

  -- A reader that `NewReader` gives has a header with the tag, with supported flags, of chunks of 32 KiB
  -- and of a single part, and it has as many images as the header says.
  pub new_reader-IsSound :
      (r : WimReader decompress decode file index_of unmarshal)
      → new_reader decompress decode file index_of unmarshal ≡ ok r
      → IsSound r
  new_reader-IsSound r e = of-Returns sound e
