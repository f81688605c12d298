-- ===== src/Lzx/Trees/Lengths.antt =====
-- `readTree` ends, keeps every code length at most 16, and writes no length past its slice.
use go_winio.Base.{ℕ, zero, suc, ◌+◌, ◌%◌, ◌^◌, ◌≤◌, ◌<◌, ◌≡◌, refl, ◌∙◌, arith, List}
use go_winio.Base.{Option, none, some, ltb, if◌then◌else◌, Bool-cases, not-ltb, inl, inr}
use go_winio.Lzx.{
  Array, LzxError, corrupt, Decompressor, Outcome, returns, panics, stuck, M, ◌>>=◌, pure, get_bits,
}
use go_winio.Lzx.Rules.{
  Ends, Ends->>=, Ends-mono, SameWindow, SameWindow-refl, SameWindow-trans, Below, get_bits-Ends,
  >>=-returns,
}
use go_winio.Lzx.Huffman.{Huffman, get_code, fill, build_table}
use go_winio.Lzx.Huffman.Codes.{get_code-Ends}
use go_winio.Lzx.Trees.{
  Round, run, stop, read_lens, build, same_value, same_round, zero_round, code_round, tree_round,
  tree_loop, read_tree, unless_failed,
}

-- A run moves on, stays below `n`, and its length is at most 16.
abbrev Progress : ℕ → ℕ → Round → Type 0
Progress n i (run k v) = (0 < k) × (i + k ≤ n) × (v < 17)
Progress n i (stop e) = Unit

abbrev Good : Decompressor → ℕ → ℕ → Round → Decompressor → Type 0
Good f n i r f' = Progress n i r × SameWindow f f'

pub unless_failed-Ends :
    {A : Type 0} (Q : A → Decompressor → Type 0) (failed : LzxError → A) (m : M A)
    (f : Decompressor)
    → ((e : LzxError) → Q (failed e) f)
    → Ends Q (m f)
    → Ends Q (unless_failed failed m f)
unless_failed-Ends {A} Q failed m f he hm = go f.error
  where
    go : (o : Option LzxError) → Ends Q (elim o [ some e ↦ returns (failed e) f | none ↦ m f ])
    go none = hm
    go (some e) = he e

module _ (n i : ℕ) (lens : Array) (h : Option Huffman) where
  zero_round-Ends :
      (f : Decompressor) (bits least : ℕ)
      → 0 < least
      → Ends (Good f n i) (zero_round n i bits least f)
  unfolding zero_round
  zero_round-Ends f bits least p =
      Ends->>= (Below f (2 ^ 16)) (Good f n i) (get_bits bits) _ f (get_bits-Ends bits f)
        (λ z g s. ground arith)

  same_value-Ends :
      (f : Decompressor) (same : ℕ)
      → 0 < same
      → i + same ≤ n
      → Ends (Good f n i) (same_value h lens i same f)
  unfolding same_value
  same_value-Ends f same p q =
      Ends->>= (Below f 512) (Good f n i) (get_code h) _ f (get_code-Ends h f)
        (λ y g s. ground arith)

  same_round_rest :
      (f g : Decompressor) (x : ℕ)
      → SameWindow f g
      → Ends
          (Good f n i)
          ((if ltb n (i + (x + 4)) then pure (stop corrupt) else same_value h lens i (x + 4)) g)
  same_round_rest f g x s = elim (Bool-cases (ltb n (i + (x + 4)))) [
    | inl e ↦ rw e (tt, s)
    | inr e ↦ rw e (
        Ends-mono (Good g n i) (Good f n i) _
          (same_value-Ends g (x + 4) (omega arith) (ground arith))
          (λ r g' t. (t.0, SameWindow-trans s t.1)))
  ]

  same_round-Ends : (f : Decompressor) → Ends (Good f n i) (same_round h lens n i f)
  unfolding same_round
  same_round-Ends f =
      Ends->>= (Below f (2 ^ 16)) (Good f n i) (get_bits 1) _ f (get_bits-Ends 1 f)
        (λ x g s. same_round_rest f g x s.1)

  code_round-Ends :
      (f : Decompressor) (c : ℕ) → i < n → Ends (Good f n i) (code_round h lens n i c f)
  unfolding code_round
  code_round-Ends f c p =
      ground (arith, zero_round-Ends f 4 4, zero_round-Ends f 5 20, same_round-Ends f)

  tree_step-Ends :
      (f g : Decompressor) (x : ℕ)
      → SameWindow f g
      → i < n
      → Ends (Good f n i) (unless_failed stop (code_round h lens n i x) g)
  tree_step-Ends f g x s p =
      unless_failed-Ends (Good f n i) stop (code_round h lens n i x) g (λ e. (tt, s))
        (Ends-mono (Good g n i) (Good f n i) _ (code_round-Ends g x p)
          (λ r g' t. (t.0, SameWindow-trans s t.1)))

  tree_round-Ends : (f : Decompressor) → i < n → Ends (Good f n i) (tree_round h lens n i f)
  unfolding tree_round
  tree_round-Ends f p =
      Ends->>= (Below f 512) (Good f n i) (get_code h) _ f (get_code-Ends h f)
        (λ x g s. tree_step-Ends f g (x % 256) s.1 p)

-- Every length is at most 16, and those from `n` on are what they were.
abbrev pub Lengths : Array → ℕ → Array → Type 0
Lengths lens n lens' = (j : ℕ) → (lens' j < 17) × (n ≤ j → lens' j ≡ lens j)

-- What `readTree` leaves.
abbrev pub TreeRead : Array → ℕ → Decompressor → Array × Option LzxError → Decompressor → Type 0
TreeRead lens n f r f' = Lengths lens n r.0 × SameWindow f f'

fill-Lengths :
    (lens lens' : Array) (n i k v : ℕ)
    → Lengths lens n lens'
    → i + k ≤ n
    → v < 17
    → Lengths lens n (fill lens' i k v)
fill-Lengths lens lens' n i k v h p q j = let w = h j in ground arith

-- The rest of the loop behind a round.
behind :
    (fuel : ℕ) (h : Option Huffman) (lens lens' : Array) (n i : ℕ) (f g : Decompressor)
    (o : Outcome Round)
    → Lengths lens n lens'
    → SameWindow f g
    → n ≤ i + suc fuel
    → Ends (Good g n i) o
    → ((k v : ℕ) (g' : Decompressor)
        → n ≤ i + k + fuel
        → Lengths lens n (fill lens' i k v)
        → SameWindow f g'
        → Ends (TreeRead lens n f) (tree_loop fuel h (fill lens' i k v) n (i + k) g'))
    → Ends (TreeRead lens n f) (elim o [
      | returns (run k v) f' ↦ tree_loop fuel h (fill lens' i k v) n (i + k) f'
      | returns (stop e) f' ↦ returns (lens', some e) f'
      | panics ↦ panics
      | stuck ↦ stuck
    ])
behind fuel h lens lens' n i f g (returns (run k v) f') l s p (w, t) ih =
    ih k v f' (omega arith) (fill-Lengths lens lens' n i k v l w.1 w.2) (SameWindow-trans s t)
behind fuel h lens lens' n i f g (returns (stop e) f') l s p (w, t) ih = (l, SameWindow-trans s t)
behind fuel h lens lens' n i f g panics l s p w ih = tt
behind fuel h lens lens' n i f g stuck l s p w ih = w

tree_loop-Ends :
    (fuel : ℕ) (h : Option Huffman) (lens lens' : Array) (n i : ℕ) (f g : Decompressor)
    → n ≤ i + fuel
    → Lengths lens n lens'
    → SameWindow f g
    → Ends (TreeRead lens n f) (tree_loop fuel h lens' n i g)
unfolding tree_loop
tree_loop-Ends zero h lens lens' n i f g p l s = rw (not-ltb i n (omega arith)) (l, s)
tree_loop-Ends (suc fuel) h lens lens' n i f g p l s = elim (Bool-cases (ltb i n)) [
  | inr e ↦ rw (e, tree_loop) (l, s)
  | inl e ↦
      rw (e, tree_loop)
        (behind fuel h lens lens' n i f g (tree_round h lens' n i g) l s p
          (tree_round-Ends n i lens' h g (ground arith))
          (λ k v g' q l' s'. tree_loop-Ends fuel h lens (fill lens' i k v) n (i + k) f g' q l' s'))
]

read_lens-Ends : (k n : ℕ) (f : Decompressor) → Ends (λ _ f'. SameWindow f f') (read_lens k n f)
unfolding read_lens
read_lens-Ends zero n f = SameWindow-refl f
read_lens-Ends (suc k) n f =
    Ends->>= (Below f (2 ^ 16)) (λ _ f'. SameWindow f f') (get_bits n) _ f (get_bits-Ends n f)
      (λ l g s.
        Ends->>= (λ _ f'. SameWindow f f') (λ _ f'. SameWindow f f') (read_lens k n) _ g
          (Ends-mono (λ _ f'. SameWindow g f') (λ _ f'. SameWindow f f') _ (read_lens-Ends k n g)
            (λ _ g' t. SameWindow-trans s.1 t))
          (λ ls g' t. t))

build-Ends : (lens : List ℕ) (f : Decompressor) → Ends (λ _ f'. SameWindow f f') (build lens f)
unfolding build
build-Ends lens f = go (build_table lens)
  where
    go :
        (o : Option (Option Huffman))
        → Ends (λ _ f'. SameWindow f f') (elim o [ none ↦ panics | some h ↦ returns h f ])
    go none = tt
    go (some h) = SameWindow-refl f

-- A call of `readTree` that does not panic ends; if the lengths were at most 16 they are so
-- afterwards, those behind the slice are untouched, and so is the window.
pub read_tree-Ends :
    (lens : Array) (n : ℕ) (f : Decompressor)
    → ((j : ℕ) → lens j < 17)
    → Ends (TreeRead lens n f) (read_tree lens n f)
unfolding read_tree
read_tree-Ends lens n f l =
    Ends->>= (λ _ f'. SameWindow f f') (TreeRead lens n f) (read_lens 20 4) _ f
      (read_lens-Ends 20 4 f)
      (λ ls g s.
        unless_failed-Ends (TreeRead lens n f) (λ e. (lens, some e))
          (build ls >>= λ h. tree_loop n h lens n 0) g (λ e. (start, s))
          (Ends->>= (λ _ f'. SameWindow g f') (TreeRead lens n f) (build ls) _ g (build-Ends ls g)
            (λ h g' t.
              tree_loop-Ends n h lens lens n 0 f g' (omega arith) start (SameWindow-trans s t))))
  where
    start : Lengths lens n lens
    start j = (l j, λ _. refl)

-- The first code of a nil tree.
nil_loop :
    (n : ℕ) (lens : Array) (f : Decompressor) → tree_loop (suc n) none lens (suc n) 0 f ≡ panics
unfolding tree_loop tree_round get_code
nil_loop n lens f = ground arith

nil_tree :
    (n : ℕ) (lens : Array) (f : Decompressor) (ls : List ℕ)
    → f.error ≡ none
    → build_table ls ≡ some none
    → (unless_failed {A = Array × Option LzxError}
          (λ e. (lens, some e))
          (build ls >>= λ h. tree_loop (suc n) h lens (suc n) 0))
        f
      ≡ panics
unfolding build
nil_tree n lens f ls q t = ground (arith, nil_loop n lens f)

-- A pre-tree that `buildTable` refuses is not tested for nil: where its lengths could be read and
-- there is a length to decode, `readTree` panics at the first code.
pub read_tree_nil_panics :
    (lens : Array) (n : ℕ) (f f' : Decompressor) (pretree_len : List ℕ)
    → 0 < n
    → read_lens 20 4 f ≡ returns pretree_len f'
    → f'.error ≡ none
    → build_table pretree_len ≡ some none
    → read_tree lens n f ≡ panics
unfolding read_tree
read_tree_nil_panics lens zero f f' ls p e q t = absurd (omega arith)
read_tree_nil_panics lens (suc n) f f' ls p e q t =
    >>=-returns (read_lens 20 4) _ f f' ls e ∙ nil_tree n lens f' ls q t
