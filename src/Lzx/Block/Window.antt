-- ===== src/Lzx/Block/Window.antt =====
-- `readCompressedBlock` ends after at most a round for each byte, and writes only between its start
-- and its end.
use go_winio.Base.{
  ℕ, zero, suc, ◌+◌, ◌-◌, ◌*◌, ◌/◌, ◌%◌, ◌^◌, ◌≤◌, ◌<◌, ◌≡◌, refl, ap, ◌∙◌, arith, false,
}
use go_winio.Base.{
  Option, none, some, ltb, leb, not, ◌==◌, ◌&&◌, if◌then◌else◌, Bool-cases, not-ltb, inl, inr,
  get_or,
}
use go_winio.Lzx.{
  Array, Decompressor, Outcome, returns, panics, stuck, ◌>>=◌, pure, get_bits, in_range, fail, set,
}
use go_winio.Lzx.Rules.{
  Ends, Ends->>=, Ends-mono, SameWindow, SameWindow-refl, SameWindow-trans, Below, get_bits-Ends,
  in_range-Ends,
}
use go_winio.Lzx.Huffman.{Huffman, get_code}
use go_winio.Lzx.Huffman.Codes.{get_code-Ends}
use go_winio.Lzx.Trees.{BlockTrees}
use go_winio.Lzx.Trees.Lengths.{unless_failed-Ends}
use go_winio.Lzx.Block.{
  Next, goes_on, break, push_offset, footer, recent_offset, new_offset, match_length, copy_match,
}
use go_winio.Lzx.Block.{
  literal, copy_round, match_round, round, compressed_loop, read_compressed_block, footer_bits,
}

-- The two windows agree before `lo` and from `hi` on.
abbrev pub Outside : ℕ → ℕ → Array → Array → Type 0
Outside lo hi w w' = (j : ℕ) → (j < lo → w' j ≡ w j) × (hi ≤ j → w' j ≡ w j)

copy_match-Outside :
    (n i offset lo hi : ℕ) (w w' : Array)
    → lo ≤ i
    → i + n ≤ hi
    → Outside lo hi w w'
    → Outside lo hi w (copy_match n i offset w')
unfolding copy_match
copy_match-Outside zero i offset lo hi w w' p q h = h
copy_match-Outside (suc n) i offset lo hi w w' p q h =
    copy_match-Outside n (i + 1) offset lo hi w (set w' i (w' (i - offset))) (omega arith)
      (omega arith) (λ j. let k = h j in ground arith)

abbrev Same : {A : Type 0} → Decompressor → A → Decompressor → Type 0
Same f _ f' = SameWindow f f'

plain_footer-Ends : (bits : ℕ) (f : Decompressor) → Ends (Same f) (get_bits bits f)
plain_footer-Ends bits f =
    Ends-mono (Below f (2 ^ 16)) (Same f) _ (get_bits-Ends bits f) (λ _ g s. s.1)

aligned_footer-Ends :
    (h : Huffman) (bits : ℕ) (f : Decompressor)
    → Ends
        (Same f)
        ((get_bits (bits - 3) >>= λ v. get_code (some h) >>= λ a. pure (v * 8 % 2 ^ 16 + a)) f)
aligned_footer-Ends h bits f =
    Ends->>= (Same f) (Same f) (get_bits (bits - 3)) _ f (plain_footer-Ends (bits - 3) f) (λ v g s.
      Ends->>= (Below g 512) (Same f) (get_code (some h)) _ g (get_code-Ends (some h) g)
        (λ a g' t. SameWindow-trans s t.1))

footer-Ends :
    (aligned : Option Huffman) (bits : ℕ) (f : Decompressor) → Ends (Same f) (footer aligned bits f)
unfolding footer
footer-Ends none bits f = plain_footer-Ends bits f
footer-Ends (some h) bits f = ground (arith, aligned_footer-Ends h bits f, plain_footer-Ends bits f)

recent_offset-Ends : (slot : ℕ) (f : Decompressor) → Ends (Same f) (recent_offset slot f)
unfolding recent_offset
recent_offset-Ends slot f = record { window_stays = refl; size_stays = refl }

store_offset-Ends :
    (slot x : ℕ) (f g : Decompressor) → SameWindow f g → Ends (Same f) (push_offset slot x g)
unfolding push_offset
store_offset-Ends slot x f g s =
    SameWindow-trans s (record { window_stays = refl; size_stays = refl })

footer_bits-Ends :
    (aligned : Option Huffman) (bits : ℕ) (f : Decompressor)
    → Ends (Same f) ((if ltb 0 bits then footer aligned bits else pure 0) f)
footer_bits-Ends aligned bits f = elim (Bool-cases (ltb 0 bits)) [
  | inl e ↦ rw e (footer-Ends aligned bits f)
  | inr e ↦ rw e (SameWindow-refl f)
]

new_offset-Ends :
    (aligned : Option Huffman) (slot : ℕ) (f : Decompressor)
    → Ends (Same f) (new_offset aligned slot f)
unfolding new_offset
new_offset-Ends aligned slot f =
    Ends->>= (Same f) (Same f) (in_range (ltb slot 31)) _ f (in_range-Ends (ltb slot 31) f)
      (λ _ g s.
        Ends->>= (Same g) (Same f)
          (if ltb 0 (get_or footer_bits slot 0)
            then footer aligned (get_or footer_bits slot 0)
            else pure 0)
          _ g (footer_bits-Ends aligned (get_or footer_bits slot 0) g)
          (λ x g' t. store_offset-Ends slot x f g' (SameWindow-trans s t)))

abbrev Long : Decompressor → ℕ → Decompressor → Type 0
Long f len f' = (2 ≤ len) × SameWindow f f'

match_length-Ends :
    (lengths : Option Huffman) (low : ℕ) (f : Decompressor)
    → low < 8
    → Ends (Long f) (match_length lengths low f)
unfolding match_length
match_length-Ends lengths low f p = elim (Bool-cases (low == 7)) [
  | inl e ↦ rw e (
      Ends->>= (Below f 512) (Long f) (get_code lengths) _ f (get_code-Ends lengths f)
        (λ x g s. (omega arith, s.1)))
  | inr e ↦ rw e (omega arith, SameWindow-refl f)
]

-- Where a round leads: forward, and at most to the end.
abbrev Forward : ℕ → ℕ → Next → Type 0
Forward i end (goes_on j) = (i < j) × (j ≤ end)
Forward i end break = Unit

abbrev Moved : ℕ → ℕ → Decompressor → Next → Decompressor → Type 0
Moved i end f n f' =
    Forward i end n × Outside i end f.window f'.window × (f'.uncompressed ≡ f.uncompressed)

Outside-refl : (lo hi : ℕ) (w : Array) → Outside lo hi w w
Outside-refl lo hi w j = (λ _. refl, λ _. refl)

copied-Moved :
    (i end offset len : ℕ) (f : Decompressor)
    → i < end
    → 2 ≤ len
    → len ≤ end - i
    → Moved i end f (goes_on (i + len)) (record f { window = copy_match len i offset f.window })
copied-Moved i end offset len f p q r = (
  (omega arith, omega arith),
  copy_match-Outside len i offset i end f.window f.window (omega arith) (omega arith)
      (Outside-refl i end f.window),
  refl,
)

fits : (offset i len end : ℕ) → not (leb offset i && leb len (end - i)) ≡ false → len ≤ end - i
fits offset i len end h = ground arith

copy_round-Ends :
    (i end offset len : ℕ) (f : Decompressor)
    → i < end
    → 2 ≤ len
    → Ends (Moved i end f) (copy_round i end offset len f)
unfolding copy_round fail
copy_round-Ends i end offset len f p q =
    elim (Bool-cases (not (leb offset i && leb len (end - i)))) [
      | inl e ↦ rw e (tt, Outside-refl i end f.window, refl)
      | inr e ↦ elim (Bool-cases (leb (i + len) 32768)) [
        | inl d ↦ rw (e, d) (copied-Moved i end offset len f p q (fits offset i len end e))
        | inr d ↦ rw (e, d) tt
      ]
    ]

after_same :
    (i end : ℕ) (f g : Decompressor) (n : Next) (g' : Decompressor)
    → SameWindow f g
    → Moved i end g n g'
    → Moved i end f n g'
after_same i end f g n g' s (fw, out, size) = (
  fw,
  (λ j.
      let (a, b) = out j in
      let w = s.window_stays in
      (λ k. a k ∙ ap (λ (x : Array). x j) w, λ k. b k ∙ ap (λ (x : Array). x j) w)),
  size ∙ s.size_stays,
)

offset-Ends :
    (aligned : Option Huffman) (slot : ℕ) (f : Decompressor)
    → Ends (Same f) ((if ltb slot 3 then recent_offset slot else new_offset aligned slot) f)
offset-Ends aligned slot f = elim (Bool-cases (ltb slot 3)) [
  | inl e ↦ rw e (recent_offset-Ends slot f)
  | inr e ↦ rw e (new_offset-Ends aligned slot f)
]

match_round-Ends :
    (trees : BlockTrees) (i end main : ℕ) (f : Decompressor)
    → i < end
    → Ends (Moved i end f) (match_round trees i end main f)
unfolding match_round
match_round-Ends trees i end main f p =
    Ends->>= (Long f) (Moved i end f) (match_length trees.lengths ((main - 256) % 8)) _ f
      (match_length-Ends trees.lengths ((main - 256) % 8) f (omega arith))
      (λ len g s.
        Ends->>= (Same g) (Moved i end f)
          (if ltb ((main - 256) / 8) 3
            then recent_offset ((main - 256) / 8)
            else new_offset trees.aligned ((main - 256) / 8))
          _ g (offset-Ends trees.aligned ((main - 256) / 8) g)
          (λ offset g' t.
            Ends-mono (Moved i end g') (Moved i end f) _ (copy_round-Ends i end offset len g' p s.0)
              (λ n g'' m. after_same i end f g' n g'' (SameWindow-trans s.1 t) m)))

literal-Ends : (i end x : ℕ) (f : Decompressor) → i < end → Ends (Moved i end f) (literal i x f)
unfolding literal
literal-Ends i end x f p = elim (Bool-cases (ltb i 32768)) [
  | inl e ↦ rw e ((omega arith, omega arith), (λ j. ground arith), refl)
  | inr e ↦ rw e tt
]

chosen-Ends :
    (trees : BlockTrees) (i end main : ℕ) (f : Decompressor)
    → i < end
    → Ends
        (Moved i end f)
        ((if ltb main 256 then literal i main else match_round trees i end main) f)
chosen-Ends trees i end main f p = elim (Bool-cases (ltb main 256)) [
  | inl e ↦ rw e (literal-Ends i end main f p)
  | inr e ↦ rw e (match_round-Ends trees i end main f p)
]

round-Ends :
    (trees : BlockTrees) (i end : ℕ) (f : Decompressor)
    → i < end
    → Ends (Moved i end f) (round trees i end f)
unfolding round
round-Ends trees i end f p =
    Ends->>= (Below f 512) (Moved i end f) (get_code trees.main) _ f (get_code-Ends trees.main f)
      (λ main g s.
        unless_failed-Ends (Moved i end f) (λ _. break)
          (if ltb main 256 then literal i main else match_round trees i end main) g
          (λ _. after_same i end f g break g s.1 (tt, Outside-refl i end g.window, refl))
          (Ends-mono (Moved i end g) (Moved i end f) _ (chosen-Ends trees i end main g p)
            (λ n g' m. after_same i end f g n g' s.1 m)))

-- What the loop leaves: a position at most the end, and the window outside of the block.
abbrev Filled : ℕ → ℕ → Decompressor → ℕ → Decompressor → Type 0
Filled lo hi f i f' =
    (i ≤ hi) × Outside lo hi f.window f'.window × (f'.uncompressed ≡ f.uncompressed)

widen :
    (lo i hi : ℕ) (u v w : Array)
    → lo ≤ i
    → Outside lo hi u v
    → Outside i hi v w
    → Outside lo hi u w
widen lo i hi u v w p h k j =
    let (a, b) = h j in let (c, d) = k j in ((λ x. c (omega arith) ∙ a x), (λ x. d x ∙ b x))

behind :
    (fuel : ℕ) (trees : BlockTrees) (lo i hi : ℕ) (f g : Decompressor) (o : Outcome Next)
    → lo ≤ i
    → i < hi
    → hi ≤ i + suc fuel
    → Filled lo hi f i g
    → Ends (Moved i hi g) o
    → ((j : ℕ) (g' : Decompressor)
        → lo ≤ j
        → hi ≤ j + fuel
        → Filled lo hi f j g'
        → Ends (Filled lo hi f) (compressed_loop fuel trees j hi g'))
    → Ends (Filled lo hi f) (elim o [
      | returns (goes_on j) f' ↦ compressed_loop fuel trees j hi f'
      | returns break f' ↦ returns i f'
      | panics ↦ panics
      | stuck ↦ stuck
    ])
behind fuel trees lo i hi f g (returns (goes_on j) g') p q r (le, out, size) (fw, out', size') ih =
    ih j g' (omega arith) (omega arith)
      (fw.1, widen lo i hi f.window g.window g'.window p out out', size' ∙ size)
behind fuel trees lo i hi f g (returns break g') p q r (le, out, size) (fw, out', size') ih =
    (le, widen lo i hi f.window g.window g'.window p out out', size' ∙ size)
behind fuel trees lo i hi f g panics p q r a b ih = tt
behind fuel trees lo i hi f g stuck p q r a b ih = b

compressed_loop-Ends :
    (fuel : ℕ) (trees : BlockTrees) (lo i hi : ℕ) (f g : Decompressor)
    → lo ≤ i
    → hi ≤ i + fuel
    → Filled lo hi f i g
    → Ends (Filled lo hi f) (compressed_loop fuel trees i hi g)
unfolding compressed_loop
compressed_loop-Ends zero trees lo i hi f g p r h = rw (not-ltb i hi (omega arith)) h
compressed_loop-Ends (suc fuel) trees lo i hi f g p r h = elim (Bool-cases (ltb i hi)) [
  | inr e ↦ rw (e, compressed_loop) h
  | inl e ↦
      rw (e, compressed_loop)
        (behind fuel trees lo i hi f g (round trees i hi g) p (ground arith) r h
          (round-Ends trees i hi g (ground arith))
          (λ j g' p' r' h'. compressed_loop-Ends fuel trees lo j hi f g' p' r' h'))
]

-- A call of `readCompressedBlock` that does not panic ends, whatever the trees are: it decodes at
-- most `end - start` bytes, and the window before `start` and from `end` on stays as it was.
pub read_compressed_block-Ends :
    (start end : ℕ) (trees : BlockTrees) (f : Decompressor)
    → start ≤ end
    → Ends
        (λ r f'. (r.0 ≤ end - start) × Outside start end f.window f'.window)
        (read_compressed_block start end trees f)
unfolding read_compressed_block
read_compressed_block-Ends start end trees f p =
    Ends->>= (Filled start end f)
      (λ r f'. (r.0 ≤ end - start) × Outside start end f.window f'.window)
      (compressed_loop (end - start) trees start end) _ f
      (compressed_loop-Ends (end - start) trees start start end f f (omega arith) (omega arith)
        (p, Outside-refl start end f.window, refl))
      (λ i g h. (omega arith, h.1))
