-- ===== src/Wim/Image/Position.antt =====
-- The reader that an image keeps: from where it stands the entries of any directory are read as from a
-- new reader.
use go_winio.Base.{
  ℕ, ◌+◌, ◌-◌, ◌^◌, ◌≤◌, ◌<◌, ◌≡◌, refl, sym, ap, ◌∙◌, arith, true, false, List, length, drop,
  Option, none, some, le→leb, Bool-cases, inl, inr, Option-cases, Result, ok, err, panic,
}
use go_winio.Base.Word.{lt_int64, sub_int64}
use go_winio.Io.{IoError}
use go_winio.Wim.Source.{Source, WimError, reading, discard}
use go_winio.Wim.Resource.{FileData}
use go_winio.Wim.Directory.{File}
use go_winio.Wim.Image.{
  Image, reset, read_entries, is_far, skip_to, reader_of, after_entries, after_skip, after_open,
  readdir, sds_of,
}

-- Opening a resource further on gives what is left of it there.
pub record IsSeekable (open_at : ℕ → Result IoError Source) : Type 0 where
  pub seeks :
      (o k : ℕ) (s : Source)
      → open_at o ≡ ok s
      → k ≤ length s.bytes
      → o + k < 2 ^ 63
      → open_at (o + k) ≡ ok (record s { bytes = drop k s.bytes })
  pub sized : (o : ℕ) (s : Source) → open_at o ≡ ok s → length s.bytes < 2 ^ 62

module _ (decode : List ℕ → List ℕ) (files : FileData) (open_at : ℕ → Result IoError Source) where
  -- The kept reader stands where the image believes, and the offset is not behind the resource.
  pub record Stands (img : Image) (offset : ℕ) (s : Source) : Type 0 where
    pub opened : open_at img.cur_offset ≡ ok s
    pub cur_fits : img.cur_offset < 2 ^ 63
    pub inside : offset ≤ img.cur_offset + length s.bytes

  -- The entries that a new reader at the offset gives.
  abbrev pub entries_of : Result WimError ((List File × ℕ) × Source) → Result WimError (List File)
  entries_of (ok ((fs, n), s)) = ok fs
  entries_of (err e) = err e
  entries_of panic = panic

  abbrev pub fresh_of : List (List ℕ) → Result IoError Source → Result WimError (List File)
  fresh_of sds (ok s) = entries_of (read_entries decode files sds s)
  fresh_of sds (err e) = err (reading e)
  fresh_of sds panic = panic

  unfoldable pub fresh : List (List ℕ) → ℕ → Result WimError (List File)
  fresh sds offset = fresh_of sds (open_at offset)

  entries_lem :
      (img : Image) (cur : ℕ) (r : Result WimError ((List File × ℕ) × Source))
      → (after_entries decode files open_at img cur r).0 ≡ entries_of r
  entries_lem img cur (ok ((fs, n), s)) = refl
  entries_lem img cur (err e) = refl
  entries_lem img cur panic = refl

  abbrev answer : Image → ℕ → Option Source → Result IoError Source → Result WimError (List File)
  answer img offset kept x =
      (after_open decode files open_at img offset
        (reader_of decode files open_at kept img.cur_offset offset x)).0

  pub skip_still :
      (cur offset : ℕ) (s : Source)
      → lt_int64 cur offset ≡ false
      → skip_to decode files open_at cur offset s ≡ ok s
  unfolding skip_to
  skip_still cur offset s e = rw e refl

  pub skip_ahead :
      (cur offset : ℕ) (s : Source)
      → cur < offset
      → offset < 2 ^ 63
      → offset ≤ cur + length s.bytes
      → skip_to decode files open_at cur offset s
        ≡ ok (record s { bytes = drop (offset - cur) s.bytes })
  unfolding skip_to discard
  skip_ahead cur offset s p h q =
      let ahead : lt_int64 cur offset ≡ true = ground arith in
      let size : sub_int64 offset cur ≡ offset - cur = omega arith in
      rw (ahead, size, le→leb (offset - cur) (length s.bytes) (omega arith)) refl

  pub after_skip_lem :
      (img : Image) (cur : ℕ) (x : Result WimError Source) (s : Source)
      → x ≡ ok s
      → (after_skip decode files open_at img cur x).0
        ≡ entries_of (read_entries decode files (sds_of img) s)
  after_skip_lem img cur x s e =
      ap (λ y. (after_skip decode files open_at img cur y).0) e
      ∙ entries_lem img cur (read_entries decode files (sds_of img) s)

  -- Without a reader a new one is opened, and nothing is skipped.
  unkept_lem :
      (img : Image) (offset : ℕ) (x : Result IoError Source)
      → answer img offset none x ≡ fresh_of (sds_of img) x
  unkept_lem img offset (ok s) =
      after_skip_lem img offset _ s (skip_still offset offset s (ground arith))
  unkept_lem img offset (err x) = refl
  unkept_lem img offset panic = refl

  -- A kept reader skips to the offset, where a new one would stand.
  kept_lem :
      (img : Image) (offset : ℕ) (s : Source)
      → IsSeekable open_at
      → offset < 2 ^ 63
      → Stands img offset s
      → is_far decode files open_at img offset ≡ false
      → answer img offset (some s) (open_at offset) ≡ fresh_of (sds_of img) (open_at offset)
  kept_lem img offset s seek h st near = elim (Bool-cases (lt_int64 img.cur_offset offset)) [
    | inl ahead ↦
        let gap = offset - img.cur_offset in
        let before : img.cur_offset < offset = ground (arith, ahead, st.cur_fits) in
        let there : img.cur_offset + gap ≡ offset = omega arith in
        let opened : open_at offset ≡ ok (record s { bytes = drop gap s.bytes }) =
          ap (λ (o : ℕ). open_at o) (sym there)
          ∙ seek.seeks img.cur_offset gap s st.opened (omega (arith, st.inside)) (omega arith) in
        after_skip_lem img img.cur_offset _ _
          (skip_ahead img.cur_offset offset s before h st.inside)
        ∙ ap (λ x. fresh_of (sds_of img) x) (sym opened)
    | inr still ↦
        let same : img.cur_offset ≡ offset = ground (arith, near, still, st.cur_fits) in
        let opened : open_at offset ≡ ok s = ap (λ (o : ℕ). open_at o) (sym same) ∙ st.opened in
        after_skip_lem img img.cur_offset _ s (skip_still img.cur_offset offset s still)
        ∙ ap (λ x. fresh_of (sds_of img) x) (sym opened)
  ]

  pub readdir-fresh :
      (img : Image) (offset : ℕ)
      → IsSeekable open_at
      → offset < 2 ^ 63
      → ((s : Source) → img.reader ≡ some s → Stands img offset s)
      → (readdir decode files open_at img offset).0 ≡ fresh (sds_of img) offset
  unfolding readdir fresh reset
  readdir-fresh img offset seek h k = elim (Bool-cases (is_far decode files open_at img offset)) [
    | inl far ↦ rw far (unkept_lem (reset img) offset (open_at offset))
    | inr near ↦ rw near (elim (Option-cases img.reader) [
      | inl none_kept ↦
          ap (λ kept. answer img offset kept (open_at offset)) none_kept
          ∙ unkept_lem img offset (open_at offset)
      | inr (s, e) ↦
          ap (λ kept. answer img offset kept (open_at offset)) e
          ∙ kept_lem img offset s seek h (k s e) near
    ])
  ]
