-- ===== src/Wim/Resource/Table.antt =====
-- The offset table of a WIM file is read into the images, in their order, and the file data.
use go_winio.Base.{
  ℕ, zero, suc, ◌≤◌, ◌<◌, ◌≡◌, refl, sym, ap, ◌∙◌, arith, bit_and, Bool, true, false, List, [], ◌∷◌,
  ◌++◌, length, length-append, take, drop, take-append, drop-append, append-nil, append_assoc, All,
  leb, le→leb, ◌==◌, not, if◌then◌else◌, Result, ok, err, ◌>>◌, >>=-ok, fail_if, put_key,
  Bool-cases, inl, inr,
}
use go_winio.Base.Word.{le16, le32, le64, le_field, IsU64}
use go_winio.Io.{eof}
use go_winio.Wim.Source.{
  WimError, parse_error, because, short_read, offset_table, mismatched_image_count,
  unsupported_resource_flag, at_oper,
}
use go_winio.Wim.Resource.{
  ResourceDescriptor, StreamDescriptor, stream_descriptor, stream_descriptor_size, FileData,
  Decompress, flags, res_flag_metadata, unsupported, table_rounds, read_resource, read_offset_table,
}

abbrev descriptor_bytes : ResourceDescriptor → List ℕ
descriptor_bytes r = le64 r.flags_and_compressed_size ++ (le64 r.offset ++ le64 r.original_size)

abbrev pub stream_bytes : StreamDescriptor → List ℕ
stream_bytes d = descriptor_bytes d.resource ++ (le16 d.part_number ++ (le32 d.ref_count ++ d.hash))

abbrev pub offset_table_bytes : List StreamDescriptor → List ℕ
offset_table_bytes [] = []
offset_table_bytes (d ∷ ds) = stream_bytes d ++ offset_table_bytes ds

-- A descriptor that fits into its bytes, with flags that are supported.
pub record IsSupported (d : StreamDescriptor) : Type 0 where
  pub flags_fit : IsU64 d.resource.flags_and_compressed_size
  pub offset_fits : IsU64 d.resource.offset
  pub size_fits : IsU64 d.resource.original_size
  pub hash_length : length d.hash ≡ 20
  pub supported : unsupported (flags d.resource) ≡ false

abbrev is_file : StreamDescriptor → Bool
is_file d = bit_and (flags d.resource) res_flag_metadata == 0

abbrev pub images_of : List StreamDescriptor → List ResourceDescriptor
images_of [] = []
images_of (d ∷ ds) = if is_file d then images_of ds else d.resource ∷ images_of ds

-- The entry that stands last is put last.
abbrev pub files_of : List StreamDescriptor → FileData → FileData
files_of [] files = files
files_of (d ∷ ds) files =
    if is_file d then files_of ds (put_key d.hash d.resource files) else files_of ds files

resource_lem :
    (d : StreamDescriptor) (rest : List ℕ)
    → IsSupported d
    → (stream_descriptor (stream_bytes d ++ rest)).resource ≡ d.resource
resource_lem d rest v =
    let flags_eq : le_field 0 8 (stream_bytes d ++ rest) ≡ d.resource.flags_and_compressed_size =
      omega (arith, v.flags_fit) in
    let offset_eq : le_field 8 8 (stream_bytes d ++ rest) ≡ d.resource.offset =
      omega (arith, v.offset_fits) in
    let size_eq : le_field 16 8 (stream_bytes d ++ rest) ≡ d.resource.original_size =
      omega (arith, v.size_fits) in
    λ i. record {
      flags_and_compressed_size = flags_eq i;
      offset = offset_eq i;
      original_size = size_eq i;
    }

hash_lem :
    (d : StreamDescriptor) (rest : List ℕ)
    → IsSupported d
    → (stream_descriptor (stream_bytes d ++ rest)).hash ≡ d.hash
hash_lem d rest v =
    ap (λ (n : ℕ). take n (d.hash ++ rest)) (sym v.hash_length) ∙ take-append d.hash rest

next_lem :
    (d : StreamDescriptor) (rest : List ℕ)
    → IsSupported d
    → drop stream_descriptor_size (stream_bytes d ++ rest) ≡ rest
next_lem d rest v =
    ap (λ (n : ℕ). drop n (d.hash ++ rest)) (sym v.hash_length) ∙ drop-append d.hash rest

-- A round from the parts of the descriptor that it uses.
abbrev table_round :
    ℕ
    → FileData
    → List ResourceDescriptor
    → WimError
    → Bool
    → Bool
    → ResourceDescriptor
    → List ℕ
    → List ℕ
    → Result WimError (FileData × List ResourceDescriptor)
table_round fuel files images short none_left whole r hash next =
    if none_left
    then ok (files, images)
    else if not whole
    then err short
    else if unsupported (flags r)
    then err (parse_error offset_table [] unsupported_resource_flag)
    else if bit_and (flags r) res_flag_metadata == 0
    then table_rounds fuel next (put_key hash r files) images
    else table_rounds fuel next files (images ++ (r ∷ []))

round_lem :
    (d : StreamDescriptor) (ds : List StreamDescriptor) (fuel : ℕ) (files : FileData)
    (images : List ResourceDescriptor)
    → IsSupported d
    → table_rounds (suc fuel) (offset_table_bytes (d ∷ ds)) files images ≡ (
        if is_file d
        then table_rounds fuel (offset_table_bytes ds) (put_key d.hash d.resource files) images
        else table_rounds fuel (offset_table_bytes ds) files (images ++ (d.resource ∷ [])))
unfolding table_rounds
round_lem d ds fuel files images v =
    let bs = offset_table_bytes (d ∷ ds) in
    let rest = offset_table_bytes ds in
    let short = parse_error offset_table [] (because (short_read bs eof)) in
    let whole : leb stream_descriptor_size (length bs) ≡ true =
      le→leb _ _ (omega (arith, length-append d.hash rest, v.hash_length)) in
    let more : (length bs == 0) ≡ false = ground arith in
    let sd = stream_descriptor bs in
    let next = drop stream_descriptor_size bs in
    ap
      (λ (b : Bool).
        table_round fuel files images short b (leb stream_descriptor_size (length bs)) sd.resource
          sd.hash next)
      more
    ∙ ap (λ (b : Bool). table_round fuel files images short false b sd.resource sd.hash next) whole
    ∙ ap (λ (r : ResourceDescriptor). table_round fuel files images short false true r sd.hash next)
        (resource_lem d rest v)
    ∙ ap (λ (h : List ℕ). table_round fuel files images short false true d.resource h next)
        (hash_lem d rest v)
    ∙ ap (λ (n : List ℕ). table_round fuel files images short false true d.resource d.hash n)
        (next_lem d rest v)
    ∙ rw v.supported refl

table_rounds_lem :
    (ds : List StreamDescriptor) (fuel : ℕ) (files : FileData) (images : List ResourceDescriptor)
    → length ds < fuel
    → All IsSupported ds
    → table_rounds fuel (offset_table_bytes ds) files images
      ≡ ok (files_of ds files, images ++ images_of ds)
unfolding table_rounds
table_rounds_lem ds zero files images h v = let absurd : ⊥ = omega (arith, h) in elim absurd [ ]
table_rounds_lem [] (suc fuel) files images h v = rw (append-nil images, table_rounds) refl
table_rounds_lem (d ∷ ds) (suc fuel) files images h (v, vs) =
    round_lem d ds fuel files images v ∙ elim (Bool-cases (is_file d)) [
      | inl e ↦
          rw e (
            table_rounds_lem ds fuel (put_key d.hash d.resource files) images (omega (arith, h)) vs)
      | inr e ↦
          rw (e, sym (append_assoc images (d.resource ∷ []) (images_of ds)))
            (table_rounds_lem ds fuel files (images ++ (d.resource ∷ [])) (omega (arith, h)) vs)
    ]

-- Each descriptor takes up bytes, so that there are rounds enough.
length-table_bytes : (ds : List StreamDescriptor) → length ds ≤ length (offset_table_bytes ds)
length-table_bytes [] = omega arith
length-table_bytes (d ∷ ds) =
    omega (arith, length-append d.hash (offset_table_bytes ds), length-table_bytes ds)

-- The offset table of descriptors with supported flags is read into the descriptors of the images in their
-- order, and for each hash into the last of the other descriptors, if the number of images is the one
-- that the header gives; it is an error if it is not.
pub read_offset_table_lem :
    (decompress : Decompress) (file : List ℕ) (res : ResourceDescriptor) (count : ℕ)
    (ds : List StreamDescriptor)
    → read_resource decompress file res ≡ ok (offset_table_bytes ds)
    → All IsSupported ds
    → read_offset_table decompress file res count ≡ (
        if length (images_of ds) == count
        then ok (files_of ds [], images_of ds)
        else err (parse_error offset_table [] mismatched_image_count))
unfolding read_offset_table
read_offset_table_lem decompress file res count ds e v =
    let table = offset_table_bytes ds in
    >>=-ok _ (ap (λ r. at_oper offset_table r) e) (
      >>=-ok _
        (table_rounds_lem ds (suc (length table)) [] [] (omega (arith, length-table_bytes ds)) v)
        (counted (length (images_of ds) == count) (ok (files_of ds [], images_of ds))))
  where
    counted :
        (b : Bool) (r : Result WimError (FileData × List ResourceDescriptor))
        → (fail_if (not b) (parse_error offset_table [] mismatched_image_count) >> r)
          ≡ (if b then r else err (parse_error offset_table [] mismatched_image_count))
    counted true r = refl
    counted false r = refl
