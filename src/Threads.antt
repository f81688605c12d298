-- ===== src/Threads.antt =====
-- Goroutines as numbers: what each of them does is a function of its number, and a measure of the
-- first `n` of them is added up.
use go_winio.Base.{ℕ, zero, suc, ◌+◌, ◌<◌, ◌≤◌, ◌≡◌, refl, arith, ◌==◌, if◌then◌else◌}
use native.Mathlib.Decide.{dec_lt}

abbrev pub update {ℓ} : {A : Type ℓ} → (ℕ → A) → ℕ → A → ℕ → A
update f i a j = if i == j then a else f j

module _ {ℓ} {A : Type ℓ} (w : A → ℕ) where
  pub sum : ℕ → (ℕ → A) → ℕ
  sum zero f = 0
  sum (suc n) f = sum n f + w (f n)

  sum-update_above : (n : ℕ) (f : ℕ → A) (i : ℕ) (a : A) → n ≤ i → sum n (update f i a) ≡ sum n f
  unfolding sum
  sum-update_above zero f i a h = refl
  sum-update_above (suc n) f i a h = ground (arith, sum-update_above n f i a)

  -- A change at one number changes the sum by what it changes there.
  pub sum-update :
      (n : ℕ) (f : ℕ → A) (i : ℕ) (a : A) → i < n → sum n (update f i a) + w (f i) ≡ sum n f + w a
  unfolding sum
  sum-update zero f i a h = absurd (omega arith)
  sum-update (suc n) f i a h = elim (dec_lt i n) [
    | yes below ↦ ground (arith, sum-update n f i a below)
    | no last ↦ ground (arith, sum-update_above n f i a)
  ]

  -- One goroutine's part is in the sum.
  pub le-sum : (n : ℕ) (f : ℕ → A) (i : ℕ) → i < n → w (f i) ≤ sum n f
  unfolding sum
  le-sum zero f i h = absurd (omega arith)
  le-sum (suc n) f i h = elim (dec_lt i n) [
    | yes below ↦ omega (arith, le-sum n f i below)
    | no last ↦ ground arith
  ]

  -- If the sum is not zero, some goroutine has a part in it.
  pub sum_pos : (n : ℕ) (f : ℕ → A) → 0 < sum n f → (i : ℕ) × (i < n) × (0 < w (f i))
  unfolding sum
  sum_pos zero f h = absurd (omega arith)
  sum_pos (suc n) f h = elim (dec_lt 0 (w (f n))) [
    | yes p ↦ (n, omega arith, p)
    | no p ↦ (let (i, lt, q) = sum_pos n f (omega arith) in (i, omega arith, q))
  ]

  pub sum-eq-zero : (n : ℕ) (f : ℕ → A) → ((i : ℕ) → w (f i) ≡ 0) → sum n f ≡ 0
  unfolding sum
  sum-eq-zero zero f h = refl
  sum-eq-zero (suc n) f h = omega (arith, sum-eq-zero n f h, h n)

  -- A measure that a map leaves as it is, or makes no smaller, has the same sum, or no smaller one.
  pub sum-map :
      (m : A → A) (n : ℕ) (f : ℕ → A) → ((a : A) → w (m a) ≡ w a) → sum n (λ j. m (f j)) ≡ sum n f
  unfolding sum
  sum-map m zero f h = refl
  sum-map m (suc n) f h = omega (arith, sum-map m n f h, h (f n))

pub sum-le {ℓ} :
    {A : Type ℓ} (v w : A → ℕ) (n : ℕ) (f : ℕ → A) → ((a : A) → v a ≤ w a) → sum v n f ≤ sum w n f
unfolding sum
sum-le v w zero f h = omega arith
sum-le v w (suc n) f h = omega (arith, sum-le v w n f h, h (f n))
