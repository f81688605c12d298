-- ===== src/Tar/Decimal/RoundTrip.antt =====
-- Printed numbers consist of digits and are parsed as the numbers that were printed.
use native.Mathlib.Nat.{pow-suc}
use go_winio.Base.{
  ℕ, zero, suc, ◌+◌, ◌-◌, ◌*◌, ◌/◌, ◌%◌, ◌^◌, ◌≤◌, ◌<◌, ◌≡◌, refl, sym, ap, ◌∙◌, arith, Bool, true,
  false, List, [], ◌∷◌, ◌++◌, append-nil, append_assoc, some, ◌==◌, ltb, if◌then◌else◌, Bool-cases,
  inl, inr, length, length-append, replicate, get_or, All, All-append,
}
use go_winio.Tar.Decimal.{
  padded, printed, max_digits, format_uint, format_int, scan, parse_uint, signed, parse_int,
}

abbrev pub IsDigit : ℕ → Type 0
IsDigit c = (b'0' ≤ c) × (c ≤ b'9')

digit_lem : (n : ℕ) → IsDigit (b'0' + n % 10)
digit_lem n = (omega arith, omega arith)

pub padded-Digits : (w n : ℕ) → All IsDigit (padded w n)
unfolding padded
padded-Digits zero n = tt
padded-Digits (suc w) n =
    All-append IsDigit (padded w (n / 10)) _ (padded-Digits w (n / 10)) (digit_lem n, tt)

pub length-padded : (w n : ℕ) → length (padded w n) ≡ w
unfolding padded
length-padded zero n = refl
length-padded (suc w) n =
    omega
      (arith, length-append (padded w (n / 10)) ((b'0' + n % 10) ∷ []), length-padded w (n / 10))

if-Digits : (b : Bool) (xs : List ℕ) → All IsDigit xs → All IsDigit (if b then [] else xs)
if-Digits true xs h = tt
if-Digits false xs h = h

printed-Digits : (f n : ℕ) → All IsDigit (printed f n)
unfolding printed
printed-Digits zero n = tt
printed-Digits (suc f) n =
    All-append IsDigit _ _ (if-Digits (n / 10 == 0) _ (printed-Digits f (n / 10))) (digit_lem n, tt)

scan_digit :
    (max n acc : ℕ) (rest : List ℕ)
    → acc * 10 + n % 10 ≤ max
    → scan max ((b'0' + n % 10) ∷ rest) acc ≡ scan max rest (acc * 10 + n % 10)
unfolding scan
scan_digit max n acc rest h = ground arith

pub scan-padded :
    (max w n acc : ℕ) (rest : List ℕ)
    → n < 10 ^ w
    → acc * 10 ^ w + n ≤ max
    → scan max (padded w n ++ rest) acc ≡ scan max rest (acc * 10 ^ w + n)
unfolding padded
scan-padded max zero n acc rest h m = ap (λ (k : ℕ). scan max rest k) (omega arith)
scan-padded max (suc w) n acc rest h m =
    rw (append_assoc (padded w (n / 10)) ((b'0' + n % 10) ∷ []) rest) (
      scan-padded max w (n / 10) acc ((b'0' + n % 10) ∷ rest) (omega (arith, pow-suc 10 w)) fits
      ∙ scan_digit max n (acc * 10 ^ w + n / 10) rest (omega (arith, exact))
      ∙ ap (λ (k : ℕ). scan max rest k) exact)
  where
    exact : (acc * 10 ^ w + n / 10) * 10 + n % 10 ≡ acc * 10 ^ suc w + n
    exact = omega (arith, ap (λ (t : ℕ). acc * t) (pow-suc 10 w))

    fits : acc * 10 ^ w + n / 10 ≤ max
    fits = omega (arith, exact)

scan-printed :
    (max f n : ℕ) (rest : List ℕ)
    → n < 10 ^ f
    → n ≤ max
    → scan max (printed f n ++ rest) 0 ≡ scan max rest n
unfolding printed
scan-printed max zero n rest h m = ap (λ (k : ℕ). scan max rest k) (omega arith)
scan-printed max (suc f) n rest h m = elim (Bool-cases (n / 10 == 0)) [
  | inl z ↦
      let few : n / 10 ≡ 0 = ground (arith, z) in
      rw z (scan_digit max n 0 rest (omega arith) ∙ ap (λ (k : ℕ). scan max rest k) (omega arith))
  | inr z ↦
      rw (z, append_assoc (printed f (n / 10)) ((b'0' + n % 10) ∷ []) rest)
        (scan-printed max f (n / 10) ((b'0' + n % 10) ∷ rest) (omega (arith, pow-suc 10 f))
            (omega arith)
          ∙ scan_digit max n (n / 10) rest (omega arith)
          ∙ ap (λ (k : ℕ). scan max rest k) (omega arith))
]

-- A text of digits is parsed by the loop alone, with either sign.
pub parse_uint_lem :
    (bits : ℕ) (s : List ℕ) → 0 < length s → parse_uint bits s ≡ scan (2 ^ bits - 1) s 0
unfolding parse_uint
parse_uint_lem bits [] h = absurd (omega arith)
parse_uint_lem bits (c ∷ s) h = refl

pub parse_int_lem :
    (s : List ℕ) → All IsDigit s → 0 < length s → parse_int s ≡ signed false (parse_uint 64 s)
unfolding parse_int
parse_int_lem [] d h = absurd (omega arith)
parse_int_lem (c ∷ s) d h = ground (arith, d.0)

pub format_uint-Digits : (n : ℕ) → All IsDigit (format_uint n)
unfolding format_uint
format_uint-Digits n = printed-Digits max_digits n

pub length-format_uint : (n : ℕ) → 0 < length (format_uint n)
unfolding format_uint printed
length-format_uint n = omega (arith, length-append _ ((b'0' + n % 10) ∷ []))

pub parse_uint-format_uint :
    (bits n : ℕ) → n ≤ 2 ^ bits - 1 → n < 10 ^ 20 → parse_uint bits (format_uint n) ≡ some n
unfolding format_uint scan
parse_uint-format_uint bits n h m =
    parse_uint_lem bits (format_uint n) (length-format_uint n)
    ∙ ap (λ (t : List ℕ). scan (2 ^ bits - 1) t 0) (sym (append-nil (format_uint n)))
    ∙ scan-printed (2 ^ bits - 1) max_digits n [] m h

pub parse_int-format_uint : (n : ℕ) → n < 2 ^ 63 → parse_int (format_uint n) ≡ some n
unfolding signed
parse_int-format_uint n h =
    parse_int_lem (format_uint n) (format_uint-Digits n) (length-format_uint n)
    ∙ rw (parse_uint-format_uint 64 n (omega arith) (omega arith)) (ground arith)

-- A number behind a minus sign.
pub parse_int_minus :
    (n : ℕ) → n ≤ 2 ^ 63 → parse_int (b'-' ∷ format_uint n) ≡ some ((2 ^ 64 - n) % 2 ^ 64)
unfolding parse_int signed
parse_int_minus n h = rw (parse_uint-format_uint 64 n (omega arith) (omega arith)) (ground arith)

-- Every int64 is read back from its decimal print.
pub parse_int-format_int : (n : ℕ) → n < 2 ^ 64 → parse_int (format_int n) ≡ some n
unfolding format_int
parse_int-format_int n h = elim (Bool-cases (ltb n (2 ^ 63))) [
  | inl z ↦ rw z (parse_int-format_uint n (ground (arith, z)))
  | inr z ↦
      let big : 2 ^ 63 ≤ n = ground (arith, z) in
      rw z (parse_int_minus (2 ^ 64 - n) (omega arith) ∙ ap (λ (k : ℕ). some k) (omega arith))
]

-- A padded print is parsed as its number, and zeros as zero.
pub parse_int-padded : (w n : ℕ) → 0 < w → n < 10 ^ w → n < 2 ^ 63 → parse_int (padded w n) ≡ some n
unfolding signed scan
parse_int-padded w n p h m =
    parse_int_lem (padded w n) (padded-Digits w n) some_digit ∙ rw parsed (ground arith)
  where
    some_digit : 0 < length (padded w n)
    some_digit = omega (arith, length-padded w n)

    parsed : parse_uint 64 (padded w n) ≡ some n
    parsed =
        parse_uint_lem 64 (padded w n) some_digit
        ∙ ap (λ (t : List ℕ). scan (2 ^ 64 - 1) t 0) (sym (append-nil (padded w n)))
        ∙ scan-padded (2 ^ 64 - 1) w n 0 [] h (omega arith)
        ∙ ap (λ (k : ℕ). some k) (omega arith)

pub parse_int_zeros : parse_int (replicate 9 b'0') ≡ some 0
unfolding parse_int parse_uint scan signed
parse_int_zeros = refl

pub head-Digits : (s : List ℕ) → All IsDigit s → (get_or s 0 0 == b'-') ≡ false
head-Digits [] d = refl
head-Digits (c ∷ s) d = ground (arith, d.0)
