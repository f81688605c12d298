-- ===== src/Wim/Tests.antt =====
-- A WIM file in small: a table of one security descriptor, three directories of one file each with a gap of
-- six bytes between the first two, an offset table, and a header without images.
use go_winio.Base.{
  ℕ, suc, ◌+◌, ◌-◌, ◌^◌, ◌≤◌, ◌≡◌, refl, ap, arith, List, [], ◌∷◌, ◌++◌, ◌∙◌, length, drop,
  replicate, Option, none, some, get_key, same_text, ok_inj, sym, All, ◌*◌, if◌then◌else◌, ◌==◌,
  Result, ok, err,
}
use go_winio.Base.Word.{le16, le32, le64}
use go_winio.Io.{IoError, eof}
use go_winio.Wim.Source.{Source, WimError, parse_error, offset_table, mismatched_image_count}
use go_winio.Wim.Resource.{
  ResourceDescriptor, StreamDescriptor, Decompress, resource_reader_with_offset, read_resource,
  read_offset_table, flags,
}
use go_winio.Wim.Resource.Table.{
  IsSupported, offset_table_bytes, images_of, files_of, read_offset_table_lem,
}
use go_winio.Wim.Reader.{wim_image_tag, wim_header, WimReader, new_reader}
use go_winio.Wim.Reader.Sound.{IsSound, new_reader-IsSound}
use go_winio.Wim.Directory.{File, read_entry, read_next_entry}
use go_winio.Wim.Image.{Image, sds_of, readdir, read_entries, read_security_descriptors}
use go_winio.Wim.Image.Position.{IsSeekable, Stands, fresh, readdir-fresh}
use go_winio.Wim.Image.Counted.{EvenNames}
use go_winio.Wim.Directory.Entries.{EvenEntry}
use go_winio.Wim.Directory.Moves.{EvenStreams}
use mathlib.Core.Path.{subst}
use go_winio.Wim.Image.Stale.{Leaves, skipped, image_after, readdir-Leaves, readdir_drifts}
use go_winio.Wim.Image.Uncompressed.{uncompressed-IsSeekable}
use go_winio.Wim.Image.Security.{table_bytes, read_security_descriptors_lem}

-- A decompressor that is not called here.
abbrev no_decompress : Decompress
no_decompress bs n offset = err eof

abbrev same : List ℕ → List ℕ
same us = us

-- A file with a name of one unit, and a directory of this file alone.
abbrev entry : ℕ → List ℕ
entry c =
    le64 106
    ++ (le32 32 ++ (le32 (2 ^ 32 - 1) ++ (replicate 84 0 ++ (le16 2 ++ (c ∷ 0 ∷ 0 ∷ 0 ∷ [])))))

abbrev directory : ℕ → List ℕ
directory c = entry c ++ replicate 8 0

abbrev directories : List ℕ
directories = directory 97 ++ (replicate 6 0 ++ (directory 98 ++ directory 99))

abbrev stored : ResourceDescriptor
stored = record { flags_and_compressed_size = 348; offset = 0; original_size = 348 }

abbrev open_at : ℕ → Result IoError Source
open_at = resource_reader_with_offset no_decompress directories stored

abbrev new_image : Image
new_image = record { sds = some []; root_offset = 0; reader = none; cur_offset = 2 ^ 64 - 1 }

abbrev names : List File → List (List ℕ)
names [] = []
names (f ∷ fs) = f.name ∷ names fs

abbrev files : Result WimError (List File) → List File
files (ok fs) = fs
files r = []

first_names : names (files (readdir same [] open_at new_image 0).0) ≡ (97 ∷ []) ∷ []
unfolding readdir resource_reader_with_offset
first_names = refl

-- The third directory stands at 234.
third_names : names (files (fresh same [] open_at [] 234)) ≡ (99 ∷ []) ∷ []
unfolding fresh resource_reader_with_offset read_entries
third_names = refl

seekable : IsSeekable open_at
unfolding flags
seekable = uncompressed-IsSeekable no_decompress directories stored refl (omega arith)

-- A new image has no reader.
no_reader :
    (img : Image) (offset : ℕ)
    → img.reader ≡ none
    → (s : Source) → img.reader ≡ some s
    → Stands same [] open_at img offset s
no_reader img offset e s e' = cc

readdir-fresh_example : (readdir same [] open_at new_image 120).0 ≡ fresh same [] open_at [] 120
readdir-fresh_example =
    readdir-fresh same [] open_at new_image 120 seekable (omega arith)
      (no_reader new_image 120 refl)

abbrev security_table : List (List ℕ)
security_table = (1 ∷ 2 ∷ 3 ∷ []) ∷ [] ∷ (4 ∷ 5 ∷ []) ∷ []

read_security_descriptors_lem_example :
    read_security_descriptors
      (record { bytes = table_bytes security_table ++ (9 ∷ []); final = eof })
    ≡ ok ((security_table, 40), record { bytes = 9 ∷ []; final = eof })
read_security_descriptors_lem_example =
    read_security_descriptors_lem security_table (9 ∷ []) eof (omega arith)

abbrev hash_of : ℕ → List ℕ
hash_of b = replicate 20 b

abbrev descriptor : ℕ → ℕ → ℕ → StreamDescriptor
descriptor f offset b = record {
  resource = record {
    flags_and_compressed_size = f * 2 ^ 56 + 10;
    offset = offset;
    original_size = 10;
  };
  part_number = 1;
  ref_count = 1;
  hash = hash_of b;
}

-- Two files with the same hash, and an image of compressed metadata between them.
abbrev three_entries : List StreamDescriptor
three_entries = descriptor 0 300 7 ∷ descriptor 6 310 8 ∷ descriptor 4 320 7 ∷ []

abbrev table : List ℕ
table = offset_table_bytes three_entries

abbrev table_resource : ResourceDescriptor
table_resource = record { flags_and_compressed_size = 150; offset = 0; original_size = 150 }

three_entries-All : All IsSupported three_entries
unfolding flags
three_entries-All =
    let fits : IsSupported (descriptor 0 300 7) = record {
      flags_fit = omega arith;
      offset_fits = omega arith;
      size_fits = omega arith;
      hash_length = refl;
      supported = refl;
    } in
    let fits1 : IsSupported (descriptor 6 310 8) = record {
      flags_fit = omega arith;
      offset_fits = omega arith;
      size_fits = omega arith;
      hash_length = refl;
      supported = refl;
    } in
    let fits2 : IsSupported (descriptor 4 320 7) = record {
      flags_fit = omega arith;
      offset_fits = omega arith;
      size_fits = omega arith;
      hash_length = refl;
      supported = refl;
    } in
    (fits, (fits1, (fits2, tt)))

table_read : read_resource no_decompress table table_resource ≡ ok table
unfolding read_resource
table_read = refl

read_offset_table_lem_example : read_offset_table no_decompress table table_resource 1 ≡ (
    if length (images_of three_entries) == 1
    then ok (files_of three_entries [], images_of three_entries)
    else err (parse_error offset_table [] mismatched_image_count))
read_offset_table_lem_example =
    read_offset_table_lem no_decompress table table_resource 1 three_entries table_read
      three_entries-All

abbrev offset_of : Option ResourceDescriptor → ℕ
offset_of none = 0
offset_of (some r) = r.offset

last_file : offset_of (get_key (hash_of 7) (files_of three_entries [])) ≡ 320
unfolding flags get_key same_text
last_file = refl

-- What holds of one reader at an offset holds of each.
at_source :
    (P : Source → Type 0) (o : ℕ) (s : Source)
    → open_at o ≡ ok s
    → P s
    → (s1 : Source) → open_at o ≡ ok s1
    → P s1
at_source P o s e p s1 e1 = subst P (ok_inj s s1 (sym e ∙ e1)) p

abbrev source_at : ℕ → Source
source_at o = record { bytes = drop o directories; final = eof }

open_first : open_at 0 ≡ ok (source_at 0)
unfolding resource_reader_with_offset flags
open_first = refl

open_second : open_at 120 ≡ ok (source_at 120)
unfolding resource_reader_with_offset flags
open_second = refl

abbrev Even : Source → Type 0
Even s = EvenNames same [] [] (suc (length s.bytes)) s

first-Even : Even (source_at 0)
unfolding EvenNames EvenEntry EvenStreams read_next_entry read_entry
first-Even = ((refl, tt), ((refl, tt), tt))

second-Even : Even (source_at 120)
unfolding EvenNames EvenEntry EvenStreams read_next_entry read_entry
second-Even = ((refl, tt), ((refl, tt), tt))

first_ok :
    (readdir same [] open_at new_image 0).0 ≡ ok (files (readdir same [] open_at new_image 0).0)
unfolding readdir resource_reader_with_offset
first_ok = refl

readdir-Leaves_example :
    Leaves same [] open_at
      (readdir same [] open_at new_image 0).1
      (skipped same [] open_at new_image 0)
readdir-Leaves_example =
    readdir-Leaves same [] open_at seekable new_image 0 _ (omega arith) (no_reader new_image 0 refl)
      (at_source Even 0 (source_at 0) open_first first-Even) first_ok

some_inj : (a b : Source) → ◌≡◌ {A = Option Source} (some a) (some b) → a ≡ b
some_inj a b e = cc

-- The image after the first directory was read: the second stands six bytes further on.
abbrev kept_image : Image
kept_image = record {
  sds = some [];
  root_offset = 0;
  reader = some (source_at 114);
  cur_offset = 114;
}

open_kept : open_at 114 ≡ ok (source_at 114)
unfolding resource_reader_with_offset flags
open_kept = refl

kept-Stands : Stands same [] open_at kept_image 120 (source_at 114)
kept-Stands = record { opened = open_kept; cur_fits = omega arith; inside = omega arith }

kept : (s : Source) → kept_image.reader ≡ some s → Stands same [] open_at kept_image 120 s
kept s e =
    subst (λ x. Stands same [] open_at kept_image 120 x) (some_inj (source_at 114) s e) kept-Stands

second_ok :
    (readdir same [] open_at kept_image 120).0
    ≡ ok (files (readdir same [] open_at kept_image 120).0)
unfolding readdir
second_ok = refl

second_names : names (files (readdir same [] open_at kept_image 120).0) ≡ (98 ∷ []) ∷ []
unfolding readdir
second_names = refl

second_offset : (image_after same [] open_at kept_image 120).cur_offset ≡ 228
unfolding readdir
second_offset = refl

second_reader : (image_after same [] open_at kept_image 120).reader ≡ some (source_at 234)
unfolding readdir
second_reader = refl

room :
    (s : Source)
    → (image_after same [] open_at kept_image 120).reader ≡ some s
    → 234 ≤ (image_after same [] open_at kept_image 120).cur_offset + length s.bytes
room s e =
    let rest : length s.bytes ≡ 114 =
      ap (λ (x : Source). length x.bytes) (some_inj s (source_at 234) (sym e ∙ second_reader)) in
    omega (arith, rest, second_offset)

-- The third directory is read from the sixth byte behind its start.
readdir_drifts_example :
    (readdir same [] open_at (image_after same [] open_at kept_image 120) 234).0
    ≡ fresh same [] open_at
        (sds_of (image_after same [] open_at kept_image 120))
        (234 + skipped same [] open_at kept_image 120)
readdir_drifts_example =
    readdir_drifts same [] open_at seekable kept_image 120 234 _ (omega arith) kept
      (at_source Even 120 (source_at 120) open_second second-Even) second_ok
      (omega (arith, second_offset)) (omega (arith, second_offset)) (omega arith) room

-- A file of one image, with its offset table behind the header.
abbrev image_entry : StreamDescriptor
image_entry = descriptor 6 400 1

abbrev one_image : List ℕ
one_image =
    wim_image_tag
    ++ (le32 212
        ++ (le32 0x10d00
            ++ (le32 0x40082
                ++ (le32 0x8000
                    ++ (replicate 16 0
                        ++ (le16 1
                            ++ (le16 1
                                ++ (le32 1
                                    ++ (le64 50
                                        ++ (le64 212
                                            ++ (le64 50
                                                ++ (replicate 140 0
                                                    ++ offset_table_bytes
                                                        (image_entry ∷ [])))))))))))))

abbrev infos : List ℕ → Option (List ℕ)
infos text = some (2 ∷ 1 ∷ [])

abbrev id : ℕ → ℕ
id n = n

abbrev one_image_reader : WimReader no_decompress same one_image id infos
one_image_reader = record {
  hdr = wim_header one_image;
  file_data = [];
  xml = [];
  images = (image_entry.resource, some 1) ∷ [];
}

one_image_read : new_reader no_decompress same one_image id infos ≡ ok one_image_reader
unfolding new_reader
one_image_read = refl

new_reader-IsSound_example : IsSound no_decompress same one_image id infos one_image_reader
new_reader-IsSound_example =
    new_reader-IsSound no_decompress same one_image id infos one_image_reader one_image_read
