-- ===== src/Guid/Text.antt =====
-- `FromString` reads back what `String` wrote.
use go_winio.Base.{
  ℕ, zero, suc, ◌+◌, ◌-◌, ◌*◌, ◌/◌, ◌%◌, ◌^◌, ◌≤◌, ◌<◌, ◌≡◌, refl, sym, ap, ◌∙◌, arith,
}
use go_winio.Base.{List, [], ◌∷◌, ◌++◌, length, some, ok, not-ltb}
use go_winio.Base.{
  append_assoc, append-nil, length-append, take, drop, get_or, ◌==◌, not, ◌||◌, true, false,
}
use native.Mathlib.Nat.{pow-suc}
use go_winio.Guid.{
  Guid, hex_digit, hex, to_string, hex_value, parse_hex, parse_part, from_string, dash,
}
use go_winio.Guid.Arrays.{InRange}

hex_value-hex_digit : (d : ℕ) → d < 16 → hex_value (hex_digit d) ≡ some d
unfolding hex_value hex_digit
hex_value-hex_digit d h = ground arith

parse_hex_digit :
    (max d acc : ℕ) (rest : List ℕ)
    → d < 16
    → acc * 16 + d ≤ max
    → parse_hex max (hex_digit d ∷ rest) acc ≡ parse_hex max rest (acc * 16 + d)
unfolding parse_hex
parse_hex_digit max d acc rest h m =
    rw (hex_value-hex_digit d h, parse_hex, not-ltb max (acc * 16 + d) m)

parse_hex-append :
    (max w n acc : ℕ) (rest : List ℕ)
    → n < 16 ^ w
    → acc * 16 ^ w + n ≤ max
    → parse_hex max (hex w n ++ rest) acc ≡ parse_hex max rest (acc * 16 ^ w + n)
unfolding hex
parse_hex-append max zero n acc rest h m = ap (λ (k : ℕ). parse_hex max rest k) (omega arith)
parse_hex-append max (suc w) n acc rest h m =
    rw (append_assoc (hex w (n / 16)) (hex_digit (n % 16) ∷ []) rest) (
      parse_hex-append max w (n / 16) acc (hex_digit (n % 16) ∷ rest) (omega (arith, pow-suc 16 w))
        fits
      ∙ parse_hex_digit max (n % 16) (acc * 16 ^ w + n / 16) rest (omega arith)
          (omega (arith, exact))
      ∙ ap (λ (k : ℕ). parse_hex max rest k) exact)
  where
    exact : (acc * 16 ^ w + n / 16) * 16 + n % 16 ≡ acc * 16 ^ suc w + n
    exact = omega (arith, ap (λ (t : ℕ). acc * t) (pow-suc 16 w))

    fits : acc * 16 ^ w + n / 16 ≤ max
    fits = omega (arith, exact)

length-hex : (w n : ℕ) → length (hex w n) ≡ w
unfolding hex
length-hex zero n = refl
length-hex (suc w) n =
    omega (arith, length-append (hex w (n / 16)) (hex_digit (n % 16) ∷ []), length-hex w (n / 16))

parse_hex-hex : (max w n : ℕ) → n < 16 ^ w → n ≤ max → parse_hex max (hex w n) 0 ≡ some n
parse_hex-hex max w n h m =
    ap (λ (t : List ℕ). parse_hex max t 0) (sym (append-nil (hex w n)))
    ∙ parse_hex-append max w n 0 [] h (omega arith)
    ∙ unfold parse_hex in ap (λ (k : ℕ). some k) (omega arith)

suc-ne-zero : (w : ℕ) → (suc w == 0) ≡ false
suc-ne-zero w = ground arith

-- The part of a text that is a printed number is read as that number.
part_lem :
    (s : List ℕ) (lo hi bits w n : ℕ)
    → take (hi - lo) (drop lo s) ≡ hex (suc w) n
    → n < 16 ^ suc w
    → n ≤ 2 ^ bits - 1
    → parse_part s lo hi bits ≡ ok n
unfolding parse_part
part_lem s lo hi bits w n e h m =
    rw (e, length-hex (suc w) n, suc-ne-zero w, parse_hex-hex (2 ^ bits - 1) (suc w) n h m)

-- A GUID whose fields fit their types is read back from its text.
pub from_string-to_string : (g : Guid) → InRange g → from_string (to_string g) ≡ ok g
unfolding from_string
from_string-to_string g r =
    let s = to_string g in
    rw (
      shape.0,
      shape.1,
      part_lem s 0 8 32 7 g.data1 (unfold to_string hex in refl) (omega arith) (omega arith),
      part_lem s 9 13 16 3 g.data2 (unfold to_string hex in refl) (omega arith) (omega arith),
      part_lem s 14 18 16 3 g.data3 (unfold to_string hex in refl) (omega arith) (omega arith),
      part_lem s 19 21 8 1 g.data4.0 (unfold to_string hex in refl) (omega arith) (omega arith),
      part_lem s 21 23 8 1 g.data4.1 (unfold to_string hex in refl) (omega arith) (omega arith),
      part_lem s 24 26 8 1 g.data4.2 (unfold to_string hex in refl) (omega arith) (omega arith),
      part_lem s 26 28 8 1 g.data4.3 (unfold to_string hex in refl) (omega arith) (omega arith),
      part_lem s 28 30 8 1 g.data4.4 (unfold to_string hex in refl) (omega arith) (omega arith),
      part_lem s 30 32 8 1 g.data4.5 (unfold to_string hex in refl) (omega arith) (omega arith),
      part_lem s 32 34 8 1 g.data4.6 (unfold to_string hex in refl) (omega arith) (omega arith),
      part_lem s 34 36 8 1 g.data4.7 (unfold to_string hex in refl) (omega arith) (omega arith),
    )
  where
    shape :
        ((length (to_string g) == 36) ≡ true)
        × ((not (get_or (to_string g) 8 0 == dash)
              || not (get_or (to_string g) 13 0 == dash)
              || not (get_or (to_string g) 18 0 == dash)
              || not (get_or (to_string g) 23 0 == dash))
            ≡ false)
    shape = (unfold to_string hex in refl, unfold to_string hex in refl)
