-- ===== src/Base/Outcome.antt =====
-- What a call in Go comes to: a value, an error value, or a run-time panic.
use go_winio.Base.Tests.{if◌then◌else◌}
use mathlib.Core.Path.{◌≡◌, refl, subst, ap, ◌∙◌}
use mathlib.Core.Bool.{Bool, true, false}

pub data Result {ℓ κ} (E : Type ℓ) (A : Type κ) : Type (ℓ ⊔ κ) where
  ok : A → Result E A
  err : E → Result E A
  panic : Result E A

infixl 5 ◌>>=◌ ◌>>◌
abbrev pub ◌>>=◌ {ℓ κ μ} :
    {E : Type ℓ} {A : Type κ} {B : Type μ} → Result E A → (A → Result E B) → Result E B
ok a >>= f = f a
err e >>= f = err e
panic >>= f = panic

abbrev pub ◌>>◌ {ℓ μ} : {E : Type ℓ} {B : Type μ} → Result E (Unit {0}) → Result E B → Result E B
m >> k = m >>= λ _. k

-- `if cond { return err }`
abbrev pub fail_if {ℓ} : {E : Type ℓ} → Bool → E → Result E (Unit {0})
fail_if true e = err e
fail_if false e = ok tt

-- The steps of a call that succeed.
pub >>=-ok {ℓ κ μ} :
    {E : Type ℓ} {A : Type κ} {B : Type μ} {m : Result E A} (f : A → Result E B) {a : A}
    {r : Result E B}
    → m ≡ ok a
    → f a ≡ r
    → (m >>= f) ≡ r
>>=-ok f e p = ap (λ x. x >>= f) e ∙ p

pub fail_if-false {ℓ κ} :
    {E : Type ℓ} {B : Type κ} {c : Bool} (e : E) {k r : Result E B}
    → c ≡ false
    → k ≡ r
    → (fail_if c e >> k) ≡ r
fail_if-false e {k} h p = ap (λ b. fail_if b e >> k) h ∙ p

-- A value that a call returns has a property.
pub data Returns {ℓ κ μ} {E : Type ℓ} {A : Type κ} (P : A → Type μ)
    : Result E A → Type (ℓ ⊔ κ ⊔ μ) where
  returns : (a : A) → P a → Returns P (ok a)
  fails : (e : E) → Returns P (err e)
  panics : Returns P panic

pub ok_inj {ℓ κ} : {E : Type ℓ} {A : Type κ} (a b : A) → ◌≡◌ {A = Result E A} (ok a) (ok b) → a ≡ b
ok_inj a b h = cc

module _ {ℓ κ μ} {E : Type ℓ} {A : Type κ} {P : A → Type μ} where
  pub Returns-bind {λ₁ ν} :
      {B : Type λ₁} {Q : B → Type ν} {m : Result E A} {f : A → Result E B}
      → Returns P m
      → ((a : A) → P a → Returns Q (f a))
      → Returns Q (m >>= f)
  Returns-bind (returns a p) k = k a p
  Returns-bind (fails e) k = fails e
  Returns-bind panics k = panics

  pub Returns-map {ν} :
      {Q : A → Type ν} {r : Result E A} → ((a : A) → P a → Q a) → Returns P r → Returns Q r
  Returns-map k (returns a p) = returns a (k a p)
  Returns-map k (fails e) = fails e
  Returns-map k panics = panics

  pub Returns-fail_if :
      (c : Bool) (e : E) {k : Result E A} → (c ≡ false → Returns P k) → Returns P (fail_if c e >> k)
  Returns-fail_if true e h = fails e
  Returns-fail_if false e h = h refl

  pub Returns-if :
      (c : Bool) {x y : Result E A}
      → (c ≡ true → Returns P x)
      → (c ≡ false → Returns P y)
      → Returns P (if c then x else y)
  Returns-if true h k = h refl
  Returns-if false h k = k refl

  pub of-Returns : {r : Result E A} {a : A} → Returns P r → r ≡ ok a → P a
  of-Returns {a = a} (returns b p) e = subst P (ok_inj b a e) p
  of-Returns (fails x) e = cc
  of-Returns panics e = cc
