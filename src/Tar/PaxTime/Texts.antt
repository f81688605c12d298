-- ===== src/Tar/PaxTime/Texts.antt =====
-- The texts that are cut, padded and trimmed by the PAX times.
use go_winio.Base.{
  ℕ, suc, ◌-◌, ◌≤◌, ◌<◌, ◌^◌, ◌≡◌, refl, sym, ap, ◌∙◌, arith, Bool, true, false, ◌&&◌, List, [],
  ◌∷◌, ◌++◌, append-nil, some, ◌==◌, ltb, if◌then◌else◌, Bool-cases, inl, inr, length, take-all,
  replicate, All,
}
use go_winio.Tar.Decimal.{padded, parse_int}
use go_winio.Tar.Decimal.RoundTrip.{IsDigit, length-padded, parse_int-padded, parse_int_zeros}
use go_winio.Tar.PaxTime.{split_dot, all_digits, is_empty, nine_digits, trim_zeros}

pub split_dot-Digits : (s : List ℕ) → All IsDigit s → split_dot s ≡ (s, [])
unfolding split_dot
split_dot-Digits [] d = refl
split_dot-Digits (c ∷ s) d = rw (split_dot-Digits s d.1) (ground (arith, d.0))

pub split_dot_at : (s t : List ℕ) → All IsDigit s → split_dot (s ++ (b'.' ∷ t)) ≡ (s, t)
unfolding split_dot
split_dot_at [] t d = refl
split_dot_at (c ∷ s) t d = rw (split_dot_at s t d.1) (ground (arith, d.0))

pub all_digits-Digits : (s : List ℕ) → All IsDigit s → all_digits s ≡ true
unfolding all_digits
all_digits-Digits [] d = refl
all_digits-Digits (c ∷ s) d = rw (all_digits-Digits s d.1) (ground (arith, d.0))

abbrev zeros : ℕ → List ℕ
zeros n = replicate n b'0'

-- What is trimmed off is zeros, which can be put back.
pad_step :
    (c : ℕ) (s rest : List ℕ)
    → length rest ≤ length s
    → rest ++ zeros (length s - length rest) ≡ s
    → let cut = if is_empty rest && c == b'0' then [] else c ∷ rest in
      (length cut ≤ suc (length s)) × (cut ++ zeros (suc (length s) - length cut) ≡ c ∷ s)
unfolding is_empty
pad_step c s [] l e = elim (Bool-cases (c == b'0')) [
  | inl z ↦
      let same : c ≡ b'0' = ground (arith, z) in
      let count : suc (length s) - 0 ≡ suc (length s - 0) = omega arith in
      rw z (
        omega arith,
        ap (λ (k : ℕ). zeros k) count
            ∙ ap (λ (t : List ℕ). b'0' ∷ t) e
            ∙ ap (λ (d : ℕ). d ∷ s) (sym same),
      )
  | inr z ↦
      let count : suc (length s) - 1 ≡ length s - 0 = omega arith in
      rw z (omega arith, ap (λ (k : ℕ). c ∷ zeros k) count ∙ ap (λ (t : List ℕ). c ∷ t) e)
]
pad_step c s (x ∷ xs) l e =
    let count : suc (length s) - suc (length (x ∷ xs)) ≡ length s - length (x ∷ xs) = omega arith in
    (omega arith, ap (λ (k : ℕ). (c ∷ x ∷ xs) ++ zeros k) count ∙ ap (λ (t : List ℕ). c ∷ t) e)

trim_zeros_pad :
    (s : List ℕ)
    → (length (trim_zeros s) ≤ length s)
      × (trim_zeros s ++ zeros (length s - length (trim_zeros s)) ≡ s)
unfolding trim_zeros
trim_zeros_pad [] = (omega arith, refl)
trim_zeros_pad (c ∷ s) = let ih = trim_zeros_pad s in pad_step c s (trim_zeros s) ih.0 ih.1

append_empty : (s t : List ℕ) → is_empty t ≡ false → is_empty (s ++ t) ≡ false
unfolding is_empty
append_empty [] t h = h
append_empty (c ∷ s) t h = refl

pub trim_zeros-append :
    (s t : List ℕ) → is_empty (trim_zeros t) ≡ false → trim_zeros (s ++ t) ≡ s ++ trim_zeros t
unfolding trim_zeros
trim_zeros-append [] t h = refl
trim_zeros-append (c ∷ s) t h = rw (trim_zeros-append s t h, append_empty s (trim_zeros t) h) refl

cut-Digits :
    (b : Bool) (c : ℕ) (s : List ℕ)
    → IsDigit c
    → All IsDigit s
    → All IsDigit (if b then [] else c ∷ s)
cut-Digits true c s d h = tt
cut-Digits false c s d h = (d, h)

pub trim_zeros-Digits : (s : List ℕ) → All IsDigit s → All IsDigit (trim_zeros s)
unfolding trim_zeros
trim_zeros-Digits [] d = tt
trim_zeros-Digits (c ∷ s) d = cut-Digits _ c (trim_zeros s) d.0 (trim_zeros-Digits s d.1)

pub nine_digits-trim_zeros : (s : List ℕ) → length s ≡ 9 → nine_digits (trim_zeros s) ≡ s
unfolding nine_digits
nine_digits-trim_zeros s h =
    let t = trim_zeros s in
    let p : (length t ≤ length s) × (t ++ zeros (length s - length t) ≡ s) = trim_zeros_pad s in
    elim (Bool-cases (ltb (length t) 9)) [
      | inl z ↦ rw z (ap (λ (k : ℕ). t ++ zeros (k - length t)) (sym h) ∙ p.1)
      | inr z ↦
          let full : 9 ≤ length t = ground (arith, z) in
          let none_cut : length s - length t ≡ 0 = omega (arith, h, p.0) in
          rw z (
            take-all 9 t (omega (arith, h, p.0))
            ∙ sym (append-nil t)
            ∙ ap (λ (k : ℕ). t ++ zeros k) (sym none_cut)
            ∙ p.1)
    ]

empty_lem : (s : List ℕ) → is_empty s ≡ true → s ≡ []
unfolding is_empty
empty_lem [] h = refl
empty_lem (c ∷ s) h = cc

all_zeros_lem : (s : List ℕ) → is_empty (trim_zeros s) ≡ true → zeros (length s) ≡ s
all_zeros_lem s h =
    let none_left : trim_zeros s ≡ [] = empty_lem (trim_zeros s) h in
    let count : length s ≡ length s - length {A = ℕ} [] = omega arith in
    ap (λ (k : ℕ). zeros k) count
    ∙ ap (λ (t : List ℕ). t ++ zeros (length s - length t)) (sym none_left)
    ∙ (trim_zeros_pad s).1

some_inj : (a b : ℕ) → some a ≡ some b → a ≡ b
some_inj a b e = cc

zero_lem : (n : ℕ) → n < 10 ^ 9 → is_empty (trim_zeros (padded 9 n)) ≡ true → n ≡ 0
zero_lem n h z =
    let all_zeros : zeros 9 ≡ padded 9 n =
      ap (λ (k : ℕ). zeros k) (sym (length-padded 9 n)) ∙ all_zeros_lem (padded 9 n) z in
    some_inj n 0 (
      sym (parse_int-padded 9 n (omega arith) h (omega arith))
      ∙ ap (λ (t : List ℕ). parse_int t) (sym all_zeros)
      ∙ parse_int_zeros)

pub trim_zeros-padded : (n : ℕ) → 0 < n → n < 10 ^ 9 → is_empty (trim_zeros (padded 9 n)) ≡ false
trim_zeros-padded n p h = elim (Bool-cases (is_empty (trim_zeros (padded 9 n)))) [
  | inl z ↦ absurd (omega (arith, zero_lem n h z))
  | inr z ↦ z
]
