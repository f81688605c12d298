-- ===== src/Tar/PaxTime.antt =====
-- `parsePAXTime` and `formatPAXTime` of backuptar/strconv.go. A `Time` of Go's package time is
-- what `Unix` and `Nanosecond` return of it; `unix` is that package's `time.Unix`.
pub mod Texts
pub mod RoundTrip
use go_winio.Base.{
  ℕ, zero, suc, ◌+◌, ◌-◌, ◌*◌, ◌/◌, ◌%◌, ◌^◌, Bool, true, false, ◌&&◌, ◌||◌, not, List, [], ◌∷◌,
  ◌++◌, Option, none, some, ◌==◌, ltb, leb, if◌then◌else◌, Result, ok, err, length, take, replicate,
  get_or,
}
use go_winio.Tar.Decimal.{padded, format_uint, format_int, parse_int}

pub record Time : Type 0 where
  pub sec : ℕ
  pub nsec : ℕ

pub data PaxError : Type 0 where
  header : PaxError

-- `time.Unix`, which brings the nanoseconds into the range of a second.
unfoldable pub unix : ℕ → ℕ → Time
unix sec nsec =
    if ltb nsec (2 ^ 63)
    then record { sec = (sec + nsec / 10 ^ 9) % 2 ^ 64; nsec = nsec % 10 ^ 9 }
    else let below = 2 ^ 64 - 1 - nsec in
      record {
        sec = (sec + (2 ^ 64 - 1 - below / 10 ^ 9)) % 2 ^ 64;
        nsec = 10 ^ 9 - 1 - below % 10 ^ 9;
      }

-- `strings.IndexByte(s, '.')` and the two parts of `s`.
unfoldable pub split_dot : List ℕ → List ℕ × List ℕ
split_dot [] = ([], [])
split_dot (c ∷ s) = let (ss, sn) = split_dot s in if c == b'.' then ([], s) else (c ∷ ss, sn)

-- `strings.Trim(sn, "0123456789") == ""`.
unfoldable pub all_digits : List ℕ → Bool
all_digits [] = true
all_digits (c ∷ s) = leb b'0' c && leb c b'9' && all_digits s

unfoldable pub is_empty : List ℕ → Bool
is_empty [] = true
is_empty (c ∷ s) = false

abbrev pub max_nanosecond_digits : ℕ
max_nanosecond_digits = 9

-- The digits of the fraction, padded or cut to nine.
unfoldable pub nine_digits : List ℕ → List ℕ
nine_digits sn =
    if ltb (length sn) max_nanosecond_digits
    then sn ++ replicate (max_nanosecond_digits - length sn) b'0'
    else take max_nanosecond_digits sn

-- `nsecs, _ := ParseInt(sn, 10, 64)`.
unfoldable pub must_parse : Option ℕ → ℕ
must_parse none = 0
must_parse (some n) = n

unfoldable pub parse_fraction : List ℕ → List ℕ → ℕ → Result PaxError Time
unfolding unix all_digits nine_digits must_parse
parse_fraction ss sn secs =
    let nsecs = must_parse (parse_int (nine_digits sn)) in
    if not (all_digits sn)
    then err header
    else if get_or ss 0 0 == b'-'
    then ok (unix secs ((2 ^ 64 - nsecs) % 2 ^ 64))
    else ok (unix secs nsecs)

-- The function from its parts, the seconds and the fraction.
unfoldable pub parse_split : List ℕ × List ℕ → Result PaxError Time
unfolding parse_fraction is_empty
parse_split (ss, sn) = elim (parse_int ss) [
  | none ↦ err header
  | some secs ↦ if is_empty sn then ok (unix secs 0) else parse_fraction ss sn secs
]

unfoldable pub parse_pax_time : List ℕ → Result PaxError Time
unfolding split_dot parse_split
parse_pax_time s = parse_split (split_dot s)

-- `strings.TrimRight(s, "0")`.
unfoldable pub trim_zeros : List ℕ → List ℕ
trim_zeros [] = []
trim_zeros (c ∷ s) = let rest = trim_zeros s in if is_empty rest && c == b'0' then [] else c ∷ rest

unfoldable pub format_pax_time : Time → List ℕ
unfolding trim_zeros
format_pax_time t =
    if t.nsec == 0
    then format_int t.sec
    else if ltb t.sec (2 ^ 63)
    then trim_zeros (format_uint t.sec ++ (b'.' ∷ padded 9 t.nsec))
    else trim_zeros
        (b'-' ∷ (format_uint (2 ^ 64 - 1 - t.sec) ++ (b'.' ∷ padded 9 (10 ^ 9 - t.nsec))))
