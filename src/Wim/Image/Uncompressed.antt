-- ===== src/Wim/Image/Uncompressed.antt =====
-- A resource that is stored as it is can be opened anywhere.
use go_winio.Base.{
  ℕ, ◌+◌, ◌%◌, ◌^◌, ◌≤◌, ◌<◌, ◌≡◌, refl, sym, ap, ◌∙◌, arith, bit_and, false, List, length, drop,
  length-take, length-drop, drop-drop, leb, if◌then◌else◌, ok, ok_inj, Bool-cases, inl, inr,
}
use go_winio.Io.{eof}
use go_winio.Wim.Source.{Source}
use go_winio.Wim.Resource.{
  ResourceDescriptor, Decompress, flags, res_flag_compressed, section, resource_reader_with_offset,
}
use go_winio.Wim.Image.Position.{IsSeekable}

module _ (decompress : Decompress) (file : List ℕ) (hdr : ResourceDescriptor)
    (stored : bit_and (flags hdr) res_flag_compressed ≡ 0) (small : length file < 2 ^ 62) where
  abbrev at_offset : ℕ → Source
  at_offset o = record {
    bytes = if leb (2 ^ 63) o then section file hdr else drop o (section file hdr);
    final = eof;
  }

  opens : (o : ℕ) → resource_reader_with_offset decompress file hdr o ≡ ok (at_offset o)
  unfolding resource_reader_with_offset
  opens o = rw stored refl

  length-section : length (section file hdr) ≤ length file
  length-section = omega (
    arith,
    length-take (hdr.flags_and_compressed_size % 2 ^ 56) (drop hdr.offset file),
    length-drop hdr.offset file,
  )

  at_offset_le : (o : ℕ) → length (at_offset o).bytes ≤ length file
  at_offset_le o = elim (Bool-cases (leb (2 ^ 63) o)) [
    | inl e ↦ rw e length-section
    | inr e ↦ rw e (omega (arith, length-section, length-drop o (section file hdr)))
  ]

  pub uncompressed-IsSeekable : IsSeekable (resource_reader_with_offset decompress file hdr)
  uncompressed-IsSeekable = record {
    seeks = λ o k s e h fits.
        let low : leb (2 ^ 63) (o + k) ≡ false = ground arith in
        let low' : leb (2 ^ 63) o ≡ false = ground arith in
        let source : at_offset o ≡ s = ok_inj _ _ (sym (opens o) ∙ e) in
        opens (o + k)
        ∙ rw low (
            ap (λ (bs : List ℕ). ok (record { bytes = bs; final = eof }))
              (sym (drop-drop o k (section file hdr))))
        ∙ ap (λ (x : Source). ok (record x { bytes = drop k x.bytes })) (rw low' at source);
    sized = λ o s e.
        let source : at_offset o ≡ s = ok_inj _ _ (sym (opens o) ∙ e) in
        omega (arith, sym (ap (λ (x : Source). length x.bytes) source), at_offset_le o);
  }
