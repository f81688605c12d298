-- ===== src/Etw/Options/Numbers.antt =====
-- How the options write the numbers of each kind.
use go_winio.Base.{ℕ, ◌+◌, ◌<◌, ◌≡◌, refl, arith, bit_or}
use go_winio.Etw.Payload.{EventData, write_uint8, write_uint16, write_uint32, write_uint64}
use go_winio.Etw.Options.{WordSize, word32, word64, field, array}
use go_winio.Etw.Options.Smart.{
  Kind, of_int, of_int8, of_int16, of_int32, of_int64, of_uint, of_uint8, of_uint16, of_uint32,
  of_uint64, of_uintptr, of_float32, of_float64, number_field, number_array,
}
use go_winio.Etw.Options.Reading.{number}
use go_winio.Etw.Options.Coding.{Coded, byte-Coded, word-Coded, long-Coded, quad-Coded}
use go_winio.Etw.Options.Items.{type_of, Fits}

-- How the numbers of a kind are written.
pub record NumberCode (word : WordSize) (to_filetime : ℕ → ℕ × ℕ) (k : Kind) : Type 0 where
  pub write : EventData → ℕ → EventData
  pub small : type_of word to_filetime k < 24
  pub flag : bit_or (type_of word to_filetime k) 64 ≡ type_of word to_filetime k + 64
  pub coded :
      (v : ℕ) → Fits word to_filetime k v → Coded (type_of word to_filetime k) write v (number v)
  pub single : number_field word to_filetime k ≡ field write (type_of word to_filetime k) 0
  pub slice : number_array word to_filetime k ≡ array write (type_of word to_filetime k) 0

pub number_code :
    (word : WordSize) (to_filetime : ℕ → ℕ × ℕ) (k : Kind) → NumberCode word to_filetime k
number_code word32 to_filetime of_int = record {
  write = write_uint32;
  small = omega arith;
  flag = refl;
  coded = λ v h. long-Coded 7 v refl refl h;
  single = refl;
  slice = refl;
}
number_code word64 to_filetime of_int = record {
  write = write_uint64;
  small = omega arith;
  flag = refl;
  coded = λ v h. quad-Coded 9 v refl refl h;
  single = refl;
  slice = refl;
}
number_code word to_filetime of_int8 = record {
  write = write_uint8;
  small = omega arith;
  flag = refl;
  coded = λ v h. byte-Coded 3 v refl refl;
  single = refl;
  slice = refl;
}
number_code word to_filetime of_int16 = record {
  write = write_uint16;
  small = omega arith;
  flag = refl;
  coded = λ v h. word-Coded 5 v refl refl h;
  single = refl;
  slice = refl;
}
number_code word to_filetime of_int32 = record {
  write = write_uint32;
  small = omega arith;
  flag = refl;
  coded = λ v h. long-Coded 7 v refl refl h;
  single = refl;
  slice = refl;
}
number_code word to_filetime of_int64 = record {
  write = write_uint64;
  small = omega arith;
  flag = refl;
  coded = λ v h. quad-Coded 9 v refl refl h;
  single = refl;
  slice = refl;
}
number_code word32 to_filetime of_uint = record {
  write = write_uint32;
  small = omega arith;
  flag = refl;
  coded = λ v h. long-Coded 8 v refl refl h;
  single = refl;
  slice = refl;
}
number_code word64 to_filetime of_uint = record {
  write = write_uint64;
  small = omega arith;
  flag = refl;
  coded = λ v h. quad-Coded 10 v refl refl h;
  single = refl;
  slice = refl;
}
number_code word to_filetime of_uint8 = record {
  write = write_uint8;
  small = omega arith;
  flag = refl;
  coded = λ v h. byte-Coded 4 v refl refl;
  single = refl;
  slice = refl;
}
number_code word to_filetime of_uint16 = record {
  write = write_uint16;
  small = omega arith;
  flag = refl;
  coded = λ v h. word-Coded 6 v refl refl h;
  single = refl;
  slice = refl;
}
number_code word to_filetime of_uint32 = record {
  write = write_uint32;
  small = omega arith;
  flag = refl;
  coded = λ v h. long-Coded 8 v refl refl h;
  single = refl;
  slice = refl;
}
number_code word to_filetime of_uint64 = record {
  write = write_uint64;
  small = omega arith;
  flag = refl;
  coded = λ v h. quad-Coded 10 v refl refl h;
  single = refl;
  slice = refl;
}
number_code word32 to_filetime of_uintptr = record {
  write = write_uint32;
  small = omega arith;
  flag = refl;
  coded = λ v h. long-Coded 20 v refl refl h;
  single = refl;
  slice = refl;
}
number_code word64 to_filetime of_uintptr = record {
  write = write_uint64;
  small = omega arith;
  flag = refl;
  coded = λ v h. quad-Coded 21 v refl refl h;
  single = refl;
  slice = refl;
}
number_code word to_filetime of_float32 = record {
  write = write_uint32;
  small = omega arith;
  flag = refl;
  coded = λ v h. long-Coded 11 v refl refl h;
  single = refl;
  slice = refl;
}
number_code word to_filetime of_float64 = record {
  write = write_uint64;
  small = omega arith;
  flag = refl;
  coded = λ v h. quad-Coded 12 v refl refl h;
  single = refl;
  slice = refl;
}
