-- ===== src/Wim/Image/Stale.antt =====
-- What a call of `readdir` leaves for the next one: a reader that stands where the image believes, unless
-- the call has skipped bytes, which are not added to `curOffset`.
use go_winio.Base.{
  ℕ, suc, ◌+◌, ◌-◌, ◌%◌, ◌^◌, ◌≤◌, ◌<◌, ◌≡◌, refl, sym, ap, ◌∙◌, arith, true, false, List, length,
  drop, Option, none, some, Option-cases, Bool-cases, inl, inr, if◌then◌else◌, Result, ok, err,
  panic, Returns, returns,
}
use go_winio.Base.Word.{lt_int64}
use go_winio.Io.{IoError}
use go_winio.Wim.Source.{Source, WimError}
use go_winio.Wim.Resource.{FileData}
use go_winio.Wim.Directory.{File}
use go_winio.Wim.Image.{
  Image, reset, chunk_size, read_entries, is_far, skip_to, reader_of, after_entries, after_skip,
  after_open, readdir, sds_of,
}
use go_winio.Wim.Image.Position.{
  IsSeekable, Stands, fresh, fresh_of, after_skip_lem, skip_still, skip_ahead,
}
use mathlib.Core.Path.{subst}
use go_winio.Wim.Image.Counted.{Counts, EvenNames, read_entries-Counts}

module _ (decode : List ℕ → List ℕ) (files : FileData) (open_at : ℕ → Result IoError Source) where
  -- The image that a call leaves, whose reader is `gap` bytes behind its offset.
  pub record Leaves (img : Image) (gap : ℕ) : Type 0 where
    pub kept : Source
    pub reader : img.reader ≡ some kept
    pub opened : open_at (img.cur_offset + gap) ≡ ok kept
    pub cur_fits : img.cur_offset < 2 ^ 63 - 2 ^ 60

  -- How many bytes a call passes over.
  abbrev pub skipped : Image → ℕ → ℕ
  skipped img offset =
      if is_far decode files open_at img offset
      then 0
      else elim img.reader [ none ↦ 0 | some s ↦ offset - img.cur_offset ]

  abbrev pub image_after : Image → ℕ → Image
  image_after img offset = (readdir decode files open_at img offset).1

module _ (decode : List ℕ → List ℕ) (files : FileData) (open_at : ℕ → Result IoError Source)
    (seek : IsSeekable open_at) where
  -- With the entries read from `gap` bytes behind the offset, the reader is as far behind it then.
  after_entries-Leaves :
      (img : Image) (cur gap : ℕ) (s : Source) (fs : List File)
      (r : Result WimError ((List File × ℕ) × Source))
      → open_at (cur + gap) ≡ ok s
      → cur + gap < 2 ^ 61
      → Returns (Counts decode files (sds_of img) 0 s) r
      → (after_entries decode files open_at img cur r).0 ≡ ok fs
      → Leaves decode files open_at (after_entries decode files open_at img cur r).1 gap
  after_entries-Leaves img cur gap s fs (err e) o h c p = cc
  after_entries-Leaves img cur gap s fs panic o h c p = cc
  after_entries-Leaves img cur gap s fs (ok ((gs, n), s2)) o h (returns _ (m, e, moved)) p =
      let small = seek.sized (cur + gap) s o in
      let at_end : (cur + n) % 2 ^ 64 + gap ≡ cur + gap + m = omega (arith, e, moved.0, small, h) in
      record {
        kept = s2;
        reader = refl;
        cur_fits = omega (arith, e, moved.0, small, h);
        opened =
            ap (λ (k : ℕ). open_at k) at_end
            ∙ seek.seeks (cur + gap) m s o moved.0 (omega (arith, moved.0, small, h))
            ∙ ap (λ (x : Source). ok x) (sym moved.1);
      }

  skip_lem :
      (cur offset : ℕ) (s : Source)
      → cur ≤ offset
      → offset < 2 ^ 63
      → offset ≤ cur + length s.bytes
      → skip_to decode files open_at cur offset s
        ≡ ok (record s { bytes = drop (offset - cur) s.bytes })
  skip_lem cur offset s p h q = elim (Bool-cases (lt_int64 cur offset)) [
    | inl ahead ↦ skip_ahead decode files open_at cur offset s (ground arith) h q
    | inr still ↦
        let none_ahead : 0 ≡ offset - cur = ground arith in
        skip_still decode files open_at cur offset s still
        ∙ ap (λ (k : ℕ). ok (record s { bytes = drop k s.bytes })) none_ahead
  ]

  -- A near call passes over the bytes from the reader to the offset.
  readdir_kept :
      (img : Image) (offset : ℕ) (s : Source)
      → img.reader ≡ some s
      → Stands decode files open_at img offset s
      → offset < 2 ^ 61
      → img.cur_offset ≤ offset
      → offset ≤ img.cur_offset + chunk_size
      → readdir decode files open_at img offset
        ≡ after_entries decode files open_at img img.cur_offset (
            read_entries decode files
              (sds_of img)
              (record s { bytes = drop (offset - img.cur_offset) s.bytes }))
  unfolding readdir
  readdir_kept img offset s e st h p q =
      let near : is_far decode files open_at img offset ≡ false = ground arith in
      rw near (
        ap
          (λ (o : Option Source).
            after_open decode files open_at img offset
              (reader_of decode files open_at o img.cur_offset offset (open_at offset)))
          e
        ∙ ap (λ (x : Result WimError Source). after_skip decode files open_at img img.cur_offset x)
            (skip_lem img.cur_offset offset s p (omega (arith, h)) st.inside))

  kept-Leaves :
      (img : Image) (offset : ℕ) (s : Source) (fs : List File)
      → img.reader ≡ some s
      → Stands decode files open_at img offset s
      → offset < 2 ^ 61
      → img.cur_offset ≤ offset
      → offset ≤ img.cur_offset + chunk_size
      → ((s1 : Source)
          → open_at offset ≡ ok s1
          → EvenNames decode files (sds_of img) (suc (length s1.bytes)) s1)
      → (readdir decode files open_at img offset).0 ≡ ok fs
      → Leaves decode files open_at
          (readdir decode files open_at img offset).1
          (offset - img.cur_offset)
  kept-Leaves img offset s fs e st h p q even r =
      let gap = offset - img.cur_offset in
      let s1 = record s { bytes = drop gap s.bytes } in
      let there : img.cur_offset + gap ≡ offset = omega arith in
      let opened : open_at (img.cur_offset + gap) ≡ ok s1 =
        seek.seeks img.cur_offset gap s st.opened (omega (arith, st.inside)) (omega (arith, h)) in
      let opened' : open_at offset ≡ ok s1 = ap (λ (o : ℕ). open_at o) (sym there) ∙ opened in
      let path = readdir_kept img offset s e st h p q in
      subst (λ (x : Result WimError (List File) × Image). Leaves decode files open_at x.1 gap)
        (sym path)
        (after_entries-Leaves img img.cur_offset gap s1 fs _ opened (omega (arith, h))
          (read_entries-Counts decode files (sds_of img) s1 (seek.sized offset s1 opened')
            (even s1 opened'))
          (sym (ap (λ (x : Result WimError (List File) × Image). x.0) path) ∙ r))

  -- A call without a reader opens one at the offset.
  opened-Leaves :
      (img : Image) (offset : ℕ) (fs : List File) (x : Result IoError Source)
      → open_at offset ≡ x
      → offset < 2 ^ 61
      → ((s1 : Source)
          → open_at offset ≡ ok s1
          → EvenNames decode files (sds_of img) (suc (length s1.bytes)) s1)
      → (after_open decode files open_at img offset
          (reader_of decode files open_at none img.cur_offset offset x)).0
        ≡ ok fs
      → Leaves decode files open_at
          (after_open decode files open_at img offset
            (reader_of decode files open_at none img.cur_offset offset x)).1
          0
  opened-Leaves img offset fs (err e) o h even r = cc
  opened-Leaves img offset fs panic o h even r = cc
  opened-Leaves img offset fs (ok s) o h even r =
      let path : after_skip decode files open_at img offset
            (skip_to decode files open_at offset offset s)
          ≡ after_entries decode files open_at img offset
              (read_entries decode files (sds_of img) s) =
        ap (λ (x : Result WimError Source). after_skip decode files open_at img offset x)
          (skip_still decode files open_at offset offset s (ground arith)) in
      let start : open_at (offset + 0) ≡ ok s = ap (λ (k : ℕ). open_at k) (omega arith) ∙ o in
      subst (λ (x : Result WimError (List File) × Image). Leaves decode files open_at x.1 0)
        (sym path)
        (after_entries-Leaves img offset 0 s fs _ start (omega (arith, h))
          (read_entries-Counts decode files (sds_of img) s (seek.sized offset s o) (even s o))
          (sym (ap (λ (x : Result WimError (List File) × Image). x.0) path) ∙ r))

  finish :
      (img : Image) (offset gap : ℕ) (x : Result WimError (List File) × Image)
      → readdir decode files open_at img offset ≡ x
      → skipped decode files open_at img offset ≡ gap
      → Leaves decode files open_at x.1 gap
      → Leaves decode files open_at
          (readdir decode files open_at img offset).1
          (skipped decode files open_at img offset)
  finish img offset gap x e p l =
      subst (λ (k : ℕ). Leaves decode files open_at (readdir decode files open_at img offset).1 k)
        (sym p)
        (subst (λ (y : Result WimError (List File) × Image). Leaves decode files open_at y.1 gap)
          (sym e) l)

  answer_of :
      (fs : List File) (x y : Result WimError (List File) × Image)
      → x ≡ y
      → x.0 ≡ ok fs
      → y.0 ≡ ok fs
  answer_of fs x y e p = sym (ap (λ (z : Result WimError (List File) × Image). z.0) e) ∙ p

  -- Where the kept reader is far off, or near with what is kept known.
  far_path :
      (img : Image) (offset : ℕ)
      → is_far decode files open_at img offset ≡ true
      → readdir decode files open_at img offset
        ≡ after_open decode files open_at
            (reset img)
            offset
            (reader_of decode files open_at none (reset img).cur_offset offset (open_at offset))
  unfolding readdir reset
  far_path img offset far = rw far refl

  near_path :
      (img : Image) (offset : ℕ) (o : Option Source)
      → is_far decode files open_at img offset ≡ false
      → img.reader ≡ o
      → readdir decode files open_at img offset
        ≡ after_open decode files open_at img offset
            (reader_of decode files open_at o img.cur_offset offset (open_at offset))
  unfolding readdir
  near_path img offset o near e = rw near (
      ap
        (λ (x : Option Source).
          after_open decode files open_at img offset
            (reader_of decode files open_at x img.cur_offset offset (open_at offset)))
        e)

  near_skipped :
      (img : Image) (offset : ℕ) (o : Option Source)
      → is_far decode files open_at img offset ≡ false
      → img.reader ≡ o
      → skipped decode files open_at img offset
        ≡ (elim o [ none ↦ 0 | some s ↦ offset - img.cur_offset ])
  near_skipped img offset o near e = rw near (
      ap (λ (x : Option Source). elim x as (λ _. ℕ) [ none ↦ 0 | some s ↦ offset - img.cur_offset ])
        e)

  -- From an image whose reader, if it has one, stands right, a call that succeeds leaves a reader as far
  -- behind its offset as the call has passed over bytes.
  pub readdir-Leaves :
      (img : Image) (offset : ℕ) (fs : List File)
      → offset < 2 ^ 61
      → ((s : Source) → img.reader ≡ some s → Stands decode files open_at img offset s)
      → ((s1 : Source)
          → open_at offset ≡ ok s1
          → EvenNames decode files (sds_of img) (suc (length s1.bytes)) s1)
      → (readdir decode files open_at img offset).0 ≡ ok fs
      → Leaves decode files open_at
          (readdir decode files open_at img offset).1
          (skipped decode files open_at img offset)
  unfolding reset
  readdir-Leaves img offset fs h k even r =
      elim (Bool-cases (is_far decode files open_at img offset)) [
        | inl far ↦
            let path = far_path img offset far in
            let none_skipped : skipped decode files open_at img offset ≡ 0 = rw far refl in
            finish img offset 0 _ path none_skipped (
              opened-Leaves (reset img) offset fs (open_at offset) refl h even
                (answer_of fs _ _ path r))
        | inr near ↦ elim (Option-cases img.reader) [
          | inl e ↦
              let path = near_path img offset none near e in
              finish img offset 0 _ path (near_skipped img offset none near e)
                (opened-Leaves img offset fs (open_at offset) refl h even (answer_of fs _ _ path r))
          | inr (s, e) ↦
              let st = k s e in
              let ahead : img.cur_offset ≤ offset = ground (arith, near, st.cur_fits) in
              let close : offset ≤ img.cur_offset + chunk_size =
                ground (arith, near, st.cur_fits) in
              finish img offset (offset - img.cur_offset) _ refl
                (near_skipped img offset (some s) near e)
                (kept-Leaves img offset s fs e st h ahead close even r)
        ]
      ]

  -- After such a call, one at an offset where the kept reader is used again reads the entries that stand
  -- as many bytes further on as the first call has passed over.
  pub readdir_drifts :
      (img : Image) (offset next : ℕ) (fs : List File)
      → offset < 2 ^ 61
      → ((s : Source) → img.reader ≡ some s → Stands decode files open_at img offset s)
      → ((s1 : Source)
          → open_at offset ≡ ok s1
          → EvenNames decode files (sds_of img) (suc (length s1.bytes)) s1)
      → (readdir decode files open_at img offset).0 ≡ ok fs
      → (image_after decode files open_at img offset).cur_offset ≤ next
      → next ≤ (image_after decode files open_at img offset).cur_offset + chunk_size
      → next + skipped decode files open_at img offset < 2 ^ 63
      → ((s : Source)
          → (image_after decode files open_at img offset).reader ≡ some s
          → next ≤ (image_after decode files open_at img offset).cur_offset + length s.bytes)
      → (readdir decode files open_at (image_after decode files open_at img offset) next).0
        ≡ fresh decode files open_at
            (sds_of (image_after decode files open_at img offset))
            (next + skipped decode files open_at img offset)
  unfolding fresh
  readdir_drifts img offset next fs h k even r before close fits inside =
      let img' = image_after decode files open_at img offset in
      let l = readdir-Leaves img offset fs h k even r in
      let near : is_far decode files open_at img' next ≡ false =
        ground (arith, l.cur_fits, before, close) in
      let gap = next - img'.cur_offset in
      let room : next ≤ img'.cur_offset + length l.kept.bytes = inside l.kept l.reader in
      let there : img'.cur_offset + skipped decode files open_at img offset + gap
          ≡ next + skipped decode files open_at img offset =
        omega (arith, before) in
      let opened : open_at (next + skipped decode files open_at img offset)
          ≡ ok (record l.kept { bytes = drop gap l.kept.bytes }) =
        ap (λ (o : ℕ). open_at o) (sym there)
        ∙ seek.seeks (img'.cur_offset + skipped decode files open_at img offset) gap l.kept l.opened
            (omega (arith, room)) (omega (arith, before, fits)) in
      ap (λ (x : Result WimError (List File) × Image). x.0)
        (near_path img' next (some l.kept) near l.reader)
      ∙ after_skip_lem decode files open_at img' img'.cur_offset _ _
          (skip_lem img'.cur_offset next l.kept before (omega (arith, fits)) room)
      ∙ ap (λ (x : Result IoError Source). fresh_of decode files open_at (sds_of img') x)
          (sym opened)
