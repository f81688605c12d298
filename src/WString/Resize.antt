-- ===== src/WString/Resize.antt =====
-- `ResizeTo` and `String`.
use go_winio.Base.{
  ℕ, ◌-◌, ◌*◌, ◌^◌, ◌≤◌, ◌<◌, ◌≡◌, ◌≢◌, refl, sym, ap, arith, List, [], ◌∷◌, ◌++◌, true,
}
use go_winio.Base.{length, take, replicate, leb, if◌then◌else◌, All, Bool-cases, inl, inr}
use go_winio.Base.{length-append, length-replicate, take-all, take-append}
use go_winio.WString.{WideString, cap, empty, grown, copied, resize_to, until_nul, to_string}

cap_lem : (w : WideString) → length w.b < 2 ^ 32 → cap w ≡ length w.b
unfolding cap empty
cap_lem w h = ground arith

grown_bounds :
    (old c : ℕ)
    → old < 2 ^ 31
    → old < c
    → (c ≤ grown old c) × (2 * old ≤ grown old c) × (310 ≤ grown old c)
unfolding grown
grown_bounds old c h k = ground arith

length-padded : (n : ℕ) (b : List ℕ) → length b ≤ n → length (b ++ replicate (n - length b) 0) ≡ n
length-padded n b h =
    let zeros : List ℕ = replicate (n - length b) 0 in
    omega (arith, length-append b zeros, length-replicate {A = ℕ} (n - length b) 0)

copied_lem :
    (n : ℕ) (b : List ℕ)
    → length b ≤ n
    → (length (copied n b) ≡ n) × (take (length b) (copied n b) ≡ b)
unfolding copied
copied_lem n b h =
    rw (take-all n b h) (length-padded n b h, take-append b (replicate (n - length b) 0))

-- The new buffer of a call that has to grow.
abbrev NewBuffer : ℕ → List ℕ → List ℕ → Type 0
NewBuffer n b b' = (length b' ≡ n) × (take (length b) b' ≡ b)

nil_buffer : (n : ℕ) (b : List ℕ) → length b ≡ 0 → NewBuffer n b (replicate n 0)
nil_buffer n [] h = (length-replicate {A = ℕ} n 0, refl)
nil_buffer n (x ∷ xs) h = absurd (omega arith)

empty-length : (w : WideString) → length w.b < 2 ^ 32 → empty w ≡ true → length w.b ≡ 0
unfolding empty
empty-length w h e = ground arith

new_buffer :
    (w : WideString) (n : ℕ)
    → length w.b < 2 ^ 32
    → length w.b ≤ n
    → NewBuffer n w.b (if empty w then replicate n 0 else copied n w.b)
new_buffer w n h k = elim (Bool-cases (empty w)) [
  | inl e ↦ rw e (nil_buffer n w.b (empty-length w h e))
  | inr e ↦ rw e (copied_lem n w.b k)
]

-- What `ResizeTo` leaves: the capacity that it returns, at least what was asked for, and the old
-- contents at the front; a buffer that is large enough is kept, another one is at least doubled.
pub record Resized (w : WideString) (c : ℕ) (r : WideString × ℕ) : Type 0 where
  pub capacity : length r.0.b ≡ r.1
  pub enough : c ≤ r.1
  pub contents : take (length w.b) r.0.b ≡ w.b
  pub kept : c ≤ length w.b → r.0.b ≡ w.b
  pub doubled : length w.b < c → 2 * length w.b ≤ r.1

grown-Resized :
    (w : WideString) (c n : ℕ) (b' : List ℕ)
    → length w.b < c
    → c ≤ n
    → 2 * length w.b ≤ n
    → NewBuffer n w.b b'
    → Resized w c (record { b = b' }, n)
grown-Resized w c n b' h p q (e, f) = record {
  capacity = e;
  enough = p;
  contents = f;
  kept = λ k. absurd (omega arith);
  doubled = λ _. q;
}

-- `ResizeTo` on a buffer whose double has a 32-bit size gives a buffer as asked for, with the old
-- contents at its front.
pub resize_to-Resized : (w : WideString) (c : ℕ) → length w.b < 2 ^ 31 → Resized w c (resize_to w c)
unfolding resize_to
resize_to-Resized w c h =
    let e = cap_lem w (omega arith) in
    elim (Bool-cases (leb c (cap w))) [
      | inl l ↦ rw l (record {
        capacity = sym e;
        enough = ground arith;
        contents = take-all (length w.b) w.b (omega arith);
        kept = λ _. refl;
        doubled = λ k. absurd (ground arith);
      })
      | inr l ↦ rw l (
          let less : length w.b < c = ground arith in
          let bounds = grown_bounds (cap w) c (omega arith) (omega arith) in
          grown-Resized w c (grown (cap w) c) _ less bounds.0 (omega (arith, bounds.1))
            (new_buffer w (grown (cap w) c) (omega arith) (omega (arith, bounds.1))))
    ]

until_nul-append : (s rest : List ℕ) → All (λ v. v ≢ 0) s → until_nul (s ++ (0 ∷ rest)) ≡ s
unfolding until_nul
until_nul-append [] rest h = refl
until_nul-append (v ∷ vs) rest (p, h) = ground (arith, until_nul-append vs rest h)

-- The text of a buffer is decoded from the units in front of its first NUL.
pub to_string_nul :
    (decode : List ℕ → List ℕ) (s rest : List ℕ)
    → All (λ v. v ≢ 0) s
    → to_string decode (record { b = s ++ (0 ∷ rest) }) ≡ decode s
unfolding to_string
to_string_nul decode s rest h = ap decode (until_nul-append s rest h)
