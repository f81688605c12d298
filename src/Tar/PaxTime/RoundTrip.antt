-- ===== src/Tar/PaxTime/RoundTrip.antt =====
-- `parsePAXTime` reads back what `formatPAXTime` wrote.
use go_winio.Base.{
  ℕ, ◌-◌, ◌%◌, ◌^◌, ◌≤◌, ◌<◌, ◌≡◌, refl, ap, ◌∙◌, arith, List, [], ◌∷◌, ◌++◌, some, ◌==◌, ltb,
  lt→ltb, not-ltb, if◌then◌else◌, Bool-cases, inl, inr, get_or, ok,
}
use go_winio.Tar.Decimal.{padded, format_uint, format_int, parse_int}
use go_winio.Tar.Decimal.RoundTrip.{
  padded-Digits, length-padded, parse_int-padded, format_uint-Digits, parse_int-format_uint,
  parse_int_minus, parse_int-format_int, head-Digits,
}
use go_winio.Tar.PaxTime.{
  Time, unix, split_dot, is_empty, nine_digits, must_parse, parse_fraction, parse_split,
  parse_pax_time, trim_zeros, format_pax_time,
}
use go_winio.Tar.PaxTime.Texts.{
  split_dot-Digits, split_dot_at, all_digits-Digits, trim_zeros-append, trim_zeros-Digits,
  nine_digits-trim_zeros, trim_zeros-padded,
}

-- A time whose seconds are an int64 and whose nanoseconds are less than a second.
pub record IsTime (t : Time) : Type 0 where
  pub sec_fits : t.sec < 2 ^ 64
  pub nsec_fits : t.nsec < 10 ^ 9

-- The nanoseconds that are read from the trimmed fraction.
nanoseconds_lem :
    (n : ℕ) → n < 10 ^ 9 → must_parse (parse_int (nine_digits (trim_zeros (padded 9 n)))) ≡ n
unfolding must_parse
nanoseconds_lem n h =
    rw
      (
        nine_digits-trim_zeros (padded 9 n) (length-padded 9 n),
        parse_int-padded 9 n (omega arith) h (omega arith),
      )
      refl

trim_dot :
    (ss : List ℕ) (n : ℕ)
    → 0 < n
    → n < 10 ^ 9
    → trim_zeros (ss ++ (b'.' ∷ padded 9 n)) ≡ ss ++ (b'.' ∷ trim_zeros (padded 9 n))
unfolding trim_zeros is_empty
trim_dot ss n h0 h =
    trim_zeros-append ss (b'.' ∷ padded 9 n) (rw (trim_zeros-padded n h0 h) refl)
    ∙ rw (trim_zeros-padded n h0 h) refl

-- A text whose parts are known.
parse_parts :
    (s ss sn : List ℕ) (secs : ℕ)
    → split_dot s ≡ (ss, sn)
    → parse_int ss ≡ some secs
    → parse_pax_time s ≡ (if is_empty sn then ok (unix secs 0) else parse_fraction ss sn secs)
unfolding parse_pax_time parse_split
parse_parts s ss sn secs e p =
    ap (λ (x : List ℕ × List ℕ). parse_split x) e ∙ rw (parse_split, p) refl

parse_fraction_lem :
    (ss : List ℕ) (secs n : ℕ)
    → n < 10 ^ 9
    → parse_fraction ss (trim_zeros (padded 9 n)) secs
      ≡ (if get_or ss 0 0 == b'-' then ok (unix secs ((2 ^ 64 - n) % 2 ^ 64)) else ok (unix secs n))
unfolding parse_fraction
parse_fraction_lem ss secs n h =
    rw
      (
        nanoseconds_lem n h,
        all_digits-Digits (trim_zeros (padded 9 n))
            (trim_zeros-Digits (padded 9 n) (padded-Digits 9 n)),
      )
      refl

-- The two texts that have a fraction, with what stands before the dot.
parse_with_fraction :
    (ss : List ℕ) (secs n : ℕ)
    → split_dot (ss ++ (b'.' ∷ trim_zeros (padded 9 n))) ≡ (ss, trim_zeros (padded 9 n))
    → parse_int ss ≡ some secs
    → 0 < n
    → n < 10 ^ 9
    → parse_pax_time (trim_zeros (ss ++ (b'.' ∷ padded 9 n)))
      ≡ (if get_or ss 0 0 == b'-' then ok (unix secs ((2 ^ 64 - n) % 2 ^ 64)) else ok (unix secs n))
parse_with_fraction ss secs n e p h0 h = rw (trim_dot ss n h0 h) (
    parse_parts _ ss (trim_zeros (padded 9 n)) secs e p
    ∙ rw (trim_zeros-padded n h0 h) (parse_fraction_lem ss secs n h))

Time-ext : (a b : Time) → a.sec ≡ b.sec → a.nsec ≡ b.nsec → a ≡ b
Time-ext a b p q = cc

unix_lem : (t : Time) → IsTime t → unix t.sec t.nsec ≡ t
unfolding unix
unix_lem t w =
    rw (lt→ltb t.nsec (2 ^ 63) (omega (arith, w.nsec_fits)))
      (Time-ext _ t (omega (arith, w.sec_fits, w.nsec_fits)) (omega (arith, w.nsec_fits)))

-- The nanoseconds below a second are subtracted from the next one.
unix_below :
    (t : Time)
    → IsTime t
    → 2 ^ 63 ≤ t.sec
    → 0 < t.nsec
    → unix ((2 ^ 64 - (2 ^ 64 - 1 - t.sec)) % 2 ^ 64) ((2 ^ 64 - (10 ^ 9 - t.nsec)) % 2 ^ 64) ≡ t
unfolding unix
unix_below t w neg pos =
    rw (not-ltb ((2 ^ 64 - (10 ^ 9 - t.nsec)) % 2 ^ 64) (2 ^ 63) (omega (arith, w.nsec_fits)))
      (Time-ext _ t (omega (arith, w.sec_fits, w.nsec_fits)) (omega (arith, w.nsec_fits)))

split_dot_minus : (s a b : List ℕ) → split_dot s ≡ (a, b) → split_dot (b'-' ∷ s) ≡ (b'-' ∷ a, b)
unfolding split_dot
split_dot_minus s a b e = rw e refl

split_dot-format_int : (n : ℕ) → split_dot (format_int n) ≡ (format_int n, [])
unfolding format_int
split_dot-format_int n = elim (Bool-cases (ltb n (2 ^ 63))) [
  | inl z ↦ rw z (split_dot-Digits (format_uint n) (format_uint-Digits n))
  | inr z ↦
      let m = 2 ^ 64 - n in
      rw z (split_dot_minus _ _ _ (split_dot-Digits (format_uint m) (format_uint-Digits m)))
]

pub parse-format_pax_time : (t : Time) → IsTime t → parse_pax_time (format_pax_time t) ≡ ok t
unfolding format_pax_time is_empty
parse-format_pax_time t w = elim (Bool-cases (t.nsec == 0)) [
  | inl z ↦
      let none_left : 0 ≡ t.nsec = ground (arith, z) in
      rw z (
        parse_parts _ _ _ t.sec (split_dot-format_int t.sec) (parse_int-format_int t.sec w.sec_fits)
        ∙ ap (λ (n : ℕ). ok (unix t.sec n)) none_left
        ∙ ap (λ (x : Time). ok x) (unix_lem t w))
  | inr z ↦
      let pos : 0 < t.nsec = ground (arith, z) in
      elim (Bool-cases (ltb t.sec (2 ^ 63))) [
        | inl l ↦
            let u = format_uint t.sec in
            let small : t.sec < 2 ^ 63 = ground (arith, l) in
            rw (z, l)
              (parse_with_fraction u t.sec t.nsec
                  (split_dot_at u (trim_zeros (padded 9 t.nsec)) (format_uint-Digits t.sec))
                  (parse_int-format_uint t.sec small) pos w.nsec_fits
                ∙ rw (head-Digits u (format_uint-Digits t.sec))
                    (ap (λ (x : Time). ok x) (unix_lem t w)))
        | inr l ↦
            let m = 2 ^ 64 - 1 - t.sec in
            let u = format_uint m in
            let big : 2 ^ 63 ≤ t.sec = ground (arith, l) in
            rw (z, l)
              (parse_with_fraction (b'-' ∷ u) ((2 ^ 64 - m) % 2 ^ 64) (10 ^ 9 - t.nsec)
                  (split_dot_minus _ _ _ (
                    split_dot_at u (trim_zeros (padded 9 (10 ^ 9 - t.nsec)))
                      (format_uint-Digits m)))
                  (parse_int_minus m (omega arith)) (omega (arith, w.nsec_fits)) (omega arith)
                ∙ ap (λ (x : Time). ok x) (unix_below t w big pos))
      ]
]
