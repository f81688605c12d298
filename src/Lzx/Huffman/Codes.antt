-- ===== src/Lzx/Huffman/Codes.antt =====
-- `getCode` ends, with a symbol that fits in nine bits.
use go_winio.Base.{ℕ, arith, Option, none, some}
use go_winio.Lzx.{Decompressor, ◌>>=◌, fail}
use go_winio.Lzx.Rules.{Ends, Ends->>=, Ends-mono, SameWindow, SameWindow-trans, Below, feed-Ends}
use go_winio.Lzx.Huffman.{Huffman, lookup_code, consume, top_up, get_code}

top_up-Ends : (f : Decompressor) → Ends (λ _ f'. SameWindow f f') (top_up f)
unfolding top_up
top_up-Ends f = ground (arith, feed-Ends f)

lookup_code-Ends :
    (h : Huffman) (f : Decompressor) → Ends (λ _ f'. SameWindow f f') (lookup_code h f)
unfolding lookup_code
lookup_code-Ends h f = ground arith

consume-Ends : (e : ℕ) (f : Decompressor) → Ends (Below f 512) (consume e f)
unfolding consume fail
consume-Ends e f = ground arith

some_code-Ends :
    (h : Huffman) (f : Decompressor)
    → Ends (Below f 512) ((top_up >>= λ _. lookup_code h >>= λ e. consume e) f)
some_code-Ends h f =
    Ends->>= (λ _ f'. SameWindow f f') (Below f 512) top_up _ f (top_up-Ends f)
      (λ _ g s.
        Ends->>= (λ _ f'. SameWindow f f') (Below f 512) (lookup_code h) _ g
          (Ends-mono (λ _ f'. SameWindow g f') (λ _ f'. SameWindow f f') _ (lookup_code-Ends h g)
            (λ _ g' t. SameWindow-trans s t))
          (λ e g' t.
            Ends-mono (Below g' 512) (Below f 512) _ (consume-Ends e g')
              (λ x g'' u. (u.0, SameWindow-trans t u.1))))

-- A call of `getCode` that does not panic ends with a symbol below 512, and the window stays.
pub get_code-Ends : (h : Option Huffman) (f : Decompressor) → Ends (Below f 512) (get_code h f)
unfolding get_code fail
get_code-Ends none f = tt
get_code-Ends (some h) f = ground (arith, some_code-Ends h f)
