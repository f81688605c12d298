-- ===== src/Tar/Decimal.antt =====
-- Decimal numbers as Go's packages strconv and fmt print and parse them. An int64 is its bit pattern.
pub mod RoundTrip
use go_winio.Base.{
  ℕ, zero, suc, ◌+◌, ◌-◌, ◌*◌, ◌/◌, ◌%◌, ◌^◌, Bool, true, false, ◌||◌, List, [], ◌∷◌, ◌++◌, Option,
  none, some, ◌==◌, ltb, leb, if◌then◌else◌,
}

-- `%0wd` for a number of at most that many digits.
unfoldable pub padded : ℕ → ℕ → List ℕ
padded zero n = []
padded (suc w) n = padded w (n / 10) ++ ((b'0' + n % 10) ∷ [])

-- `FormatUint(n, 10)`, which prints digits until none is left; `fuel` bounds their number.
unfoldable pub printed : ℕ → ℕ → List ℕ
printed zero n = []
printed (suc fuel) n =
    let rest = printed fuel (n / 10) in (if n / 10 == 0 then [] else rest) ++ ((b'0' + n % 10) ∷ [])

-- No number of 64 bits has more than twenty digits.
abbrev pub max_digits : ℕ
max_digits = 20

unfoldable pub format_uint : ℕ → List ℕ
unfolding printed
format_uint n = printed max_digits n

-- `FormatInt(n, 10)`.
unfoldable pub format_int : ℕ → List ℕ
format_int n = if ltb n (2 ^ 63) then format_uint n else b'-' ∷ format_uint (2 ^ 64 - n)

-- The loop of `ParseUint(s, 10, bits)`, with `max` for `1<<bits - 1`.
unfoldable pub scan : ℕ → List ℕ → ℕ → Option ℕ
scan max [] n = some n
scan max (c ∷ s) n =
    let rest = scan max s (n * 10 + (c - b'0')) in
    if ltb c b'0' || ltb b'9' c then none else if ltb max (n * 10 + (c - b'0')) then none else rest

unfoldable pub parse_uint : ℕ → List ℕ → Option ℕ
unfolding scan
parse_uint bits [] = none
parse_uint bits (c ∷ s) = scan (2 ^ bits - 1) (c ∷ s) 0

-- The end of `ParseInt(s, 10, 64)`: the range of an int64.
unfoldable pub signed : Bool → Option ℕ → Option ℕ
signed neg none = none
signed true (some n) = if ltb (2 ^ 63) n then none else some ((2 ^ 64 - n) % 2 ^ 64)
signed false (some n) = if leb (2 ^ 63) n then none else some n

-- `ParseInt(s, 10, 64)`.
unfoldable pub parse_int : List ℕ → Option ℕ
unfolding signed parse_uint
parse_int [] = none
parse_int (c ∷ s) =
    if c == b'-'
    then signed true (parse_uint 64 s)
    else if c == b'+'
    then signed false (parse_uint 64 s)
    else signed false (parse_uint 64 (c ∷ s))
