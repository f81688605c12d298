-- ===== src/Backup/Tests.antt =====
-- Concrete streams, and the theorems on them.
use go_winio.Base.{
  ℕ, ◌+◌, ◌-◌, ◌^◌, ◌≤◌, ◌≡◌, refl, arith, List, [], ◌∷◌, ◌++◌, true, false, Option, none, some,
  length, ok, panic,
}
use go_winio.Io.{IoError, eof}
use go_winio.Utf16.{utf16_encode, encode_rune}
use go_winio.Backup.{BackupHeader, stream_id_bytes, Sink, BackupStreamWriter, write_header, write}
use go_winio.Backup.{BackupStreamReader, next, read}
use go_winio.Backup.Headers.{header_bytes, Representable, next-write_header}
use go_winio.Backup.Counts.{
  Accounted, Answered, write-Accounted, read_accounts, read_negative_panics,
}

-- A sparse block of three bytes at offset 5 in a stream named with a code point behind the BMP.
abbrev sparse : BackupHeader
sparse = record { id = 9; attributes = 8; size = 3; name = 0x61 ∷ 0x1f600 ∷ []; offset = 5 }

abbrev negative : BackupHeader
negative = record { id = 9; attributes = 0; size = 2 ^ 64 - 4; name = []; offset = 0 }

-- A decoder that knows the one name.
abbrev decode : List ℕ → List ℕ
decode [] = []
decode (u ∷ us) = sparse.name

surrogates : utf16_encode sparse.name ≡ 0x61 ∷ 0xd83d ∷ 0xde00 ∷ []
unfolding utf16_encode encode_rune
surrogates = refl

abbrev fresh_writer : BackupStreamWriter
fresh_writer = record { w = record { written = []; room = 100 }; bytes_left = 0 }

decode_sparse : decode (utf16_encode sparse.name) ≡ sparse.name
unfolding utf16_encode encode_rune
decode_sparse = refl

decode_negative : decode (utf16_encode negative.name) ≡ negative.name
unfolding utf16_encode
decode_negative = refl

header_fits : length (header_bytes sparse) ≤ 100
unfolding header_bytes stream_id_bytes utf16_encode encode_rune
header_fits = omega arith

sparse-Representable : Representable sparse
unfolding utf16_encode encode_rune
sparse-Representable = record {
  id = omega arith;
  attributes = omega arith;
  size = omega arith;
  offset = omega arith;
  name = omega arith;
  no_offset = λ h. absurd (h refl);
}

negative-Representable : Representable negative
unfolding utf16_encode
negative-Representable = record {
  id = omega arith;
  attributes = omega arith;
  size = omega arith;
  offset = omega arith;
  name = omega arith;
  no_offset = λ h. refl;
}

next-write_header_example :
    (bytes : List ℕ) × (s : Sink) × (write_header fresh_writer sparse
      ≡ (none, record { w = s; bytes_left = 3 }))
    × (s.written ≡ [] ++ bytes)
    × (next decode (record { input = bytes ++ (7 ∷ []); seekable = false; bytes_left = 0 })
        ≡ ok (sparse, record { input = 7 ∷ []; seekable = false; bytes_left = 3 }))
next-write_header_example =
    next-write_header decode fresh_writer sparse (7 ∷ []) false refl header_fits
      sparse-Representable decode_sparse

-- A writer whose target has room for one byte.
abbrev narrow_writer : BackupStreamWriter
narrow_writer = record { w = record { written = []; room = 1 }; bytes_left = 5 }

write-Accounted_example : Accounted narrow_writer (1 ∷ 2 ∷ []) (write narrow_writer (1 ∷ 2 ∷ []))
write-Accounted_example = write-Accounted narrow_writer (1 ∷ 2 ∷ []) (omega arith) (omega arith)

abbrev three_left : BackupStreamReader
three_left = record { input = 1 ∷ 2 ∷ 3 ∷ 4 ∷ []; seekable = false; bytes_left = 3 }

-- The source returns EOF together with its last bytes, the last of which is the stream's.
read_accounts_example :
    (got : List ℕ) × (x : Option IoError) × (r : BackupStreamReader) × (read three_left 10 8
        (some eof)
      ≡ ok ((got, x), r))
    × (got ++ r.input ≡ three_left.input)
    × (length got + r.bytes_left ≡ 3)
    × (length got ≤ 10)
    × Answered (some eof) r.bytes_left x
read_accounts_example =
    read_accounts three_left 10 8 (some eof) (omega arith) (omega arith) (omega arith) (omega arith)

read_negative_panics_example :
    (r : BackupStreamReader) × (next decode
        (record { input = header_bytes negative ++ (1 ∷ []); seekable = true; bytes_left = 0 })
      ≡ ok (negative, r))
    × (read r 4 4 none ≡ panic)
read_negative_panics_example =
    read_negative_panics decode negative (1 ∷ []) true 4 4 none negative-Representable
      decode_negative (omega arith) (omega arith)
