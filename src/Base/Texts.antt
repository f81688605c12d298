-- ===== src/Base/Texts.antt =====
-- Texts as lists of bytes, and the maps from texts to texts that Go keeps by their keys.
use Prim.Native.Nat.{ℕ}
use Prim.Native.Char.{code}
use Prim.Native.String.{String}
use mathlib.Core.Bool.{Bool, true, false, ◌&&◌}
use mathlib.Core.Option.{Option, none, some}
use mathlib.Core.List.{List, [], ◌∷◌}
use go_winio.Base.Tests.{◌==◌, if◌then◌else◌}

abbrev pub codes : String → List ℕ
codes String.[] = []
codes (String.◌∷◌ c s) = code c ∷ codes s

-- `s == t`.
unfoldable pub same_text : List ℕ → List ℕ → Bool
same_text [] [] = true
same_text [] (d ∷ t) = false
same_text (c ∷ s) [] = false
same_text (c ∷ s) (d ∷ t) = c == d && same_text s t

-- `m[key]`, where the last value that was put counts.
unfoldable pub get_key {ℓ} : {A : Type ℓ} → List ℕ → List (List ℕ × A) → Option A
get_key k [] = none
get_key k ((k', v) ∷ m) = if same_text k k' then some v else get_key k m

abbrev pub put_key {ℓ} : {A : Type ℓ} → List ℕ → A → List (List ℕ × A) → List (List ℕ × A)
put_key k v m = (k, v) ∷ m
