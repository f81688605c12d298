-- ===== src/Lzx/Rules.antt =====
-- Postconditions of the decompressor's methods: a method that does not panic ends, with its result
-- and state as stated; and what the functions on the bit stream leave alone.
use go_winio.Base.{ℕ, ◌^◌, ◌<◌, ◌≡◌, refl, arith, Bool, true, false}
use go_winio.Lzx.{Decompressor, Outcome, returns, panics, stuck, M, ◌>>=◌, in_range}
use go_winio.Lzx.{fail, ensure_at_least, feed, need_bits, get_bits}

-- A run that ends in `P` or panics; it never runs out of fuel.
abbrev pub Ends {ℓ} : {A : Type ℓ} → (A → Decompressor → Type 0) → Outcome A → Type 0
Ends P (returns a f) = P a f
Ends P panics = Unit
Ends P stuck = ⊥

pub Ends->>= {ℓ κ} :
    {A : Type ℓ} {B : Type κ} (P : A → Decompressor → Type 0) (Q : B → Decompressor → Type 0)
    (m : M A) (k : A → M B) (f : Decompressor)
    → Ends P (m f)
    → ((a : A) (f' : Decompressor) → P a f' → Ends Q (k a f'))
    → Ends Q ((m >>= k) f)
Ends->>= {A = A} P Q m k f h next = go (m f) h
  where
    go :
        (o : Outcome A)
        → Ends P o
        → Ends Q (elim o [ returns a f' ↦ k a f' | panics ↦ panics | stuck ↦ stuck ])
    go (returns a f') h = next a f' h
    go panics h = tt
    go stuck h = h

pub Ends-mono {ℓ} :
    {A : Type ℓ} (P Q : A → Decompressor → Type 0) (o : Outcome A)
    → Ends P o
    → ((a : A) (f' : Decompressor) → P a f' → Q a f')
    → Ends Q o
Ends-mono P Q (returns a f') h next = next a f' h
Ends-mono P Q panics h next = tt
Ends-mono P Q stuck h next = h

-- The window, and the size that is to be reached, stay as they are.
pub record SameWindow (f f' : Decompressor) : Type 0 where
  pub window_stays : f'.window ≡ f.window
  pub size_stays : f'.uncompressed ≡ f.uncompressed

pub SameWindow-refl : (f : Decompressor) → SameWindow f f
SameWindow-refl f = record { window_stays = refl; size_stays = refl }

pub SameWindow-trans : {f g h : Decompressor} → SameWindow f g → SameWindow g h → SameWindow f h
SameWindow-trans p q = ground arith

-- The postcondition with a bound on the result.
abbrev pub Below : Decompressor → ℕ → ℕ → Decompressor → Type 0
Below f n v f' = (v < n) × SameWindow f f'

pub ensure_at_least-Ends :
    (n : ℕ) (f : Decompressor) → Ends (λ _ f'. SameWindow f f') (ensure_at_least n f)
unfolding ensure_at_least
ensure_at_least-Ends n f = ground arith

pub feed-Ends : (f : Decompressor) → Ends (λ _ f'. SameWindow f f') (feed f)
unfolding feed
feed-Ends f =
    Ends->>= (λ _ f'. SameWindow f f') (λ _ f'. SameWindow f f') (ensure_at_least 2) _ f
      (ensure_at_least-Ends 2 f) (λ e f' s. ground arith)

pub need_bits-Ends : (n : ℕ) (f : Decompressor) → Ends (λ _ f'. SameWindow f f') (need_bits n f)
unfolding need_bits fail
need_bits-Ends n f = ground (arith, feed-Ends f)

-- A call of `getBits` gives a 16-bit word.
pub get_bits-Ends : (n : ℕ) (f : Decompressor) → Ends (Below f (2 ^ 16)) (get_bits n f)
unfolding get_bits
get_bits-Ends n f =
    Ends->>= (λ _ f'. SameWindow f f') (Below f (2 ^ 16)) (need_bits n) _ f (need_bits-Ends n f)
      (λ a f' s. (omega arith, record { window_stays = s.window_stays; size_stays = s.size_stays }))

pub in_range-Ends : (b : Bool) (f : Decompressor) → Ends (λ _ f'. SameWindow f f') (in_range b f)
in_range-Ends true f = SameWindow-refl f
in_range-Ends false f = tt

-- A call that returns goes on with what it returns.
pub >>=-returns {ℓ κ} :
    {A : Type ℓ} {B : Type κ} (m : M A) (k : A → M B) (f f' : Decompressor) (a : A)
    → m f ≡ returns a f'
    → (m >>= k) f ≡ k a f'
>>=-returns m k f f' a e = λ i. elim (e i) [ returns x g ↦ k x g | panics ↦ panics | stuck ↦ stuck ]
