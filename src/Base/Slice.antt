-- ===== src/Base/Slice.antt =====
-- `b[lo:hi]`. A slice is its elements: its capacity is its length, so a `hi` past the end panics.
use go_winio.Base.Tests.{leb, le→leb, if◌then◌else◌}
use go_winio.Base.Lists.{length, take, drop, take-append, drop-append, take-all, length-append}
use go_winio.Base.Outcome.{Result, ok, panic}
use Prim.Native.Nat.{ℕ, ◌+◌, ◌-◌, ◌≤◌}
use mathlib.Core.Path.{◌≡◌, ap}
use native.Mathlib.Omega.{arith}
use mathlib.Core.Bool.{◌&&◌}
use mathlib.Core.List.{List, ◌++◌}

unfoldable pub slice {ℓ κ} : {E : Type ℓ} {A : Type κ} → List A → ℕ → ℕ → Result E (List A)
slice xs lo hi = if leb lo hi && leb hi (length xs) then ok (take (hi - lo) (drop lo xs)) else panic

take-drop-middle {κ} :
    {A : Type κ} (xs ys zs : List A) → take (length ys) (drop (length xs) (xs ++ (ys ++ zs))) ≡ ys
take-drop-middle xs ys zs = rw (drop-append xs (ys ++ zs)) (take-append ys zs)

sub-zero : (n : ℕ) → n - 0 ≡ n
sub-zero n = omega arith

module _ {ℓ κ} {E : Type ℓ} {A : Type κ} where
  -- The part of a list that stands between two others.
  pub slice-middle :
      (xs ys zs : List A) (lo hi : ℕ)
      → lo ≡ length xs
      → hi ≡ length xs + length ys
      → slice {E = E} (xs ++ (ys ++ zs)) lo hi ≡ ok ys
  unfolding slice
  slice-middle xs ys zs lo hi p q =
      rw (le→leb lo hi (omega arith), le→leb hi (length (xs ++ (ys ++ zs))) fits, span, p)
        (ap (λ (t : List A). ok t) (take-drop-middle xs ys zs))
    where
      fits : hi ≤ length (xs ++ (ys ++ zs))
      fits = omega (arith, length-append xs (ys ++ zs), length-append ys zs)

      span : hi - lo ≡ length ys
      span = omega arith

  pub slice-end :
      (xs ys : List A) (lo hi : ℕ)
      → lo ≡ length xs
      → hi ≡ length (xs ++ ys)
      → slice {E = E} (xs ++ ys) lo hi ≡ ok ys
  unfolding slice
  slice-end xs ys lo hi p q =
      rw
        (
          le→leb lo hi (omega (arith, length-append xs ys)),
          le→leb hi (length (xs ++ ys)) (omega arith),
          p,
          drop-append xs ys,
        )
        (ap (λ (t : List A). ok t)
          (take-all (hi - length xs) ys (omega (arith, length-append xs ys))))

  -- In bounds a slice is a value, as long as its bounds say.
  pub slice-in_bounds :
      (xs : List A) (lo hi : ℕ)
      → lo ≤ hi
      → hi ≤ length xs
      → slice {E = E} xs lo hi ≡ ok (take (hi - lo) (drop lo xs))
  unfolding slice
  slice-in_bounds xs lo hi p q = rw (le→leb lo hi p, le→leb hi (length xs) q)

  pub slice-prefix :
      (xs : List A) (hi : ℕ) → hi ≤ length xs → slice {E = E} xs 0 hi ≡ ok (take hi xs)
  unfolding slice
  slice-prefix xs hi q = rw (le→leb 0 hi (omega arith), le→leb hi (length xs) q, sub-zero hi)
