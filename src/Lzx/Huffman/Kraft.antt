-- ===== src/Lzx/Huffman/Kraft.antt =====
-- When `buildTable` refuses a list of code lengths: an independent description by the Kraft sum.
use go_winio.Base.{ℕ, zero, suc, ◌+◌, ◌-◌, ◌*◌, ◌^◌, ◌≤◌, ◌<◌, ◌≡◌, ◌≢◌, refl, ap, ◌∙◌, arith}
use go_winio.Base.{List, [], ◌∷◌, All, Option, none, some, ltb, le→leb, not, if◌then◌else◌, ◌==◌}
use native.Mathlib.Nat.{pow-suc}
use mathlib.Core.Logic.{◌↔◌}
use native.Mathlib.Decide.{ℕ_discrete}
use go_winio.Lzx.{Array, set}
use go_winio.Lzx.Huffman.{
  Huffman, zeros, count_lens, first_codes, table_of, build_table, fill_codes, empty_tables,
  no_codes,
}

-- The longest code.
abbrev pub longest : List ℕ → ℕ
longest [] = 0
longest (cl ∷ cls) = if ltb cl (longest cls) then longest cls else cl

-- The share of a code of length `cl` in a tree of depth `m`, counted in leaves; a length 0 is unused.
abbrev weight : ℕ → ℕ → ℕ
weight m zero = 0
weight m (suc k) = 2 ^ (m - suc k)

abbrev pub kraft : ℕ → List ℕ → ℕ
kraft m [] = 0
kraft m (cl ∷ cls) = weight m cl + kraft m cls

-- The sum of `count j * 2 ^ (m - j)` for `j` from `i` on, `n` terms.
abbrev weighed : ℕ → ℕ → Array → ℕ
weighed zero i count = 0
weighed (suc n) i count = count i * 2 ^ n + weighed n (i + 1) count

first_codes-weighed :
    (n i : ℕ) (count first : Array) (code : ℕ)
    → (first_codes n i count first code).1 ≡ code * 2 ^ n + weighed n i count
unfolding first_codes
first_codes-weighed zero i count first code = omega arith
first_codes-weighed (suc n) i count first code =
    first_codes-weighed n (i + 1) count (set first i (code * 2)) (code * 2 + count i)
    ∙ omega (arith, ap (λ (t : ℕ). code * t) (pow-suc 2 n))

-- One more code of a length outside of the range, and of a length in it.
weighed_outside :
    (n i cl : ℕ) (count : Array)
    → cl < i
    → weighed n i (set count cl (count cl + 1)) ≡ weighed n i count
weighed_outside zero i cl count h = refl
weighed_outside (suc n) i cl count h =
    ground (arith, weighed_outside n (i + 1) cl count (omega arith))

set_here : (a : Array) (i v : ℕ) → set a i v i ≡ v
set_here a i v = ground arith

set_elsewhere : (a : Array) (i j v : ℕ) → j ≢ i → set a i v j ≡ a j
set_elsewhere a i j v h = ground arith

weighed_first :
    (n i : ℕ) (count : Array)
    → weighed (suc n) i (set count i (count i + 1)) ≡ weighed (suc n) i count + 2 ^ n
weighed_first n i count = omega (
  arith,
  ap (λ (t : ℕ). t * 2 ^ n) (set_here count i (count i + 1)),
  weighed_outside n (i + 1) i count (omega arith),
)

shifted : (i n cl : ℕ) → i + 1 + n - 1 - cl ≡ i + suc n - 1 - cl
shifted i n cl = omega arith

weighed_bump :
    (n i cl : ℕ) (count : Array)
    → i ≤ cl
    → cl < i + n
    → weighed n i (set count cl (count cl + 1)) ≡ weighed n i count + 2 ^ (i + n - 1 - cl)
weighed_bump zero i cl count p q = absurd (omega arith)
weighed_bump (suc n) i cl count p q = elim (ℕ_discrete i cl) [
  | yes e ↦
      rw (← e)
        (weighed_first n i count ∙ ap (λ (t : ℕ). weighed (suc n) i count + 2 ^ t) (omega arith))
  | no d ↦ omega (
    arith,
    ap (λ (t : ℕ). t * 2 ^ n) (set_elsewhere count cl i (count cl + 1) d),
    weighed_bump n (i + 1) cl count (omega arith) (omega arith),
    ap (λ (t : ℕ). 2 ^ t) (shifted i n cl),
  )
]

weighed-weight :
    (m cl : ℕ) (count : Array)
    → cl ≤ m
    → weighed m 1 (set count cl (count cl + 1)) ≡ weighed m 1 count + weight m cl
weighed-weight m zero count h = weighed_outside m 1 0 count (omega arith) ∙ omega arith
weighed-weight m (suc k) count h =
    weighed_bump m 1 (suc k) count (omega arith) (omega arith)
    ∙ ap (λ (t : ℕ). weighed m 1 count + 2 ^ t) (omega arith)

abbrev Counted : ℕ → List ℕ → Array → ℕ → Option (Array × ℕ) → Type 0
Counted m cls count max none = ⊥
Counted m cls count max (some (count', max')) =
    (max' ≡ (if ltb max (longest cls) then longest cls else max))
    × (weighed m 1 count' ≡ weighed m 1 count + kraft m cls)

Counted-cons :
    (m max cl : ℕ) (cls : List ℕ) (count : Array) (o : Option (Array × ℕ))
    → cl ≤ m
    → Counted m cls (set count cl (count cl + 1)) (if ltb max cl then cl else max) o
    → Counted m (cl ∷ cls) count max o
Counted-cons m max cl cls count none h c = c
Counted-cons m max cl cls count (some (count', max')) h (p, q) =
    (ground arith, omega (arith, q, weighed-weight m cl count h))

count_lens-Counted :
    (m max : ℕ) (cls : List ℕ) (count : Array)
    → All (λ cl. cl ≤ 16) cls
    → longest cls ≤ m
    → Counted m cls count max (count_lens cls count max)
unfolding count_lens
count_lens-Counted m max [] count a h = (ground arith, omega arith)
count_lens-Counted m max (cl ∷ cls) count (p, a) h = rw (le→leb cl 16 p) (
    Counted-cons m max cl cls count _ (ground arith) (
      count_lens-Counted m (if ltb max cl then cl else max) cls (set count cl (count cl + 1)) a
        (ground arith)))

weighed-zeros : (n i : ℕ) → weighed n i zeros ≡ 0
weighed-zeros zero i = refl
weighed-zeros (suc n) i = omega (arith, weighed-zeros n (i + 1))

abbrev answer : ℕ → ℕ → ℕ → Option Huffman → Option (Option Huffman)
answer max code full o =
    if max == 0
    then some (some no_codes)
    else if not (code == full)
    then some none
    else elim o [ none ↦ none | some h ↦ some (some h) ]

answer-nil :
    (max code full : ℕ) (o : Option Huffman)
    → (answer max code full o ≡ some none) ↔ (0 < max) × (code ≢ full)
answer-nil max code full none = (λ e. ground arith, λ h. ground arith)
answer-nil max code full (some t) = (λ e. ground arith, λ h. ground arith)

-- The answer nil, read off the counts.
table_of-nil :
    (codelens : List ℕ) (count : Array) (max : ℕ)
    → (table_of codelens count max ≡ some none) ↔ (0 < max) × (weighed max 1 count ≢ 2 ^ max)
unfolding table_of
table_of-nil codelens count max =
    let fc = first_codes max 1 count zeros 0 in
    let e : fc.1 ≡ weighed max 1 count = omega (arith, first_codes-weighed max 1 count zeros 0) in
    let (to, back) =
      answer-nil max fc.1 (2 ^ max) (fill_codes codelens 0 fc.0 (empty_tables max fc.0)) in
    (λ h. (let (p, q) = to h in (p, rw (← e) q)), λ h. back (h.0, rw e h.1))

-- On code lengths of at most 16, as the trees have them, no index of the counts is out of range, and
-- `buildTable` answers nil exactly when a code is used and the Kraft sum of the lengths is not one.
pub build_table-nil :
    (codelens : List ℕ)
    → All (λ cl. cl ≤ 16) codelens
    → (build_table codelens ≡ some none)
      ↔ (0 < longest codelens) × (kraft (longest codelens) codelens ≢ 2 ^ longest codelens)
unfolding build_table
build_table-nil codelens a =
    go (count_lens codelens zeros 0)
      (count_lens-Counted (longest codelens) 0 codelens zeros a (omega arith))
  where
    go :
        (o : Option (Array × ℕ))
        → Counted (longest codelens) codelens zeros 0 o
        → ((elim o [ none ↦ none | some (count, max) ↦ table_of codelens count max ]) ≡ some none)
          ↔ (0 < longest codelens) × (kraft (longest codelens) codelens ≢ 2 ^ longest codelens)
    go none c = absurd c
    go (some (count, max)) (p, q) =
        let l = longest codelens in
        let m : max ≡ longest codelens = ground arith in
        let w : weighed l 1 count ≡ kraft l codelens = omega (arith, q, weighed-zeros l 1) in
        let (to, back) = table_of-nil codelens count l in
        rw m ((λ h. (let (x, y) = to h in (x, rw (← w) y))), (λ h. back (h.0, rw w h.1)))
