-- ===== src/Lzx/Block/Overrun.antt =====
-- `readBlock` on a block that is larger than what is left of the window.
use go_winio.Base.{ℕ, ◌+◌, ◌%◌, ◌^◌, ◌≤◌, ◌<◌, ◌≡◌, refl, ◌∙◌, arith, Bool, true, false}
use go_winio.Base.{leb, if◌then◌else◌, ◌==◌, ◌&&◌}
use go_winio.Lzx.{Decompressor, Outcome, returns, panics}
use go_winio.Lzx.Rules.{>>=-returns}
use go_winio.Lzx.Trees.{done}
use go_winio.Lzx.Block.{
  read_rest, buffered, copy_block, take_buffered, read_block, read_block_header,
}

rest_panics : (copied lo hi : ℕ) (f : Decompressor) → 32768 < hi → read_rest copied lo hi f ≡ panics
unfolding read_rest
rest_panics copied lo hi f h = ground arith

if_panics {ℓ} :
    {A : Type ℓ} (b : Bool) (o : Outcome A) → o ≡ panics → (if b then o else panics) ≡ panics
if_panics true o e = e
if_panics false o e = refl

copy_block_panics :
    (start size : ℕ) (f : Decompressor)
    → start < 32768
    → size ≤ 32768
    → 32768 < start + size
    → copy_block start size f ≡ panics
unfolding copy_block
copy_block_panics start size f p q r =
    let n = buffered f size in
    if_panics (leb (start + n) 32768 && leb (f.bo + n) 4096)
      (read_rest n ((start + n) % 2 ^ 16) ((start + size) % 2 ^ 16) (take_buffered start n f))
      (rest_panics n ((start + n) % 2 ^ 16) ((start + size) % 2 ^ 16) (take_buffered start n f)
        (omega arith))

-- The size of an uncompressed block is not compared with what is left of the window: `readBlock`
-- panics at every block whose header is read and that would end past the window.
pub read_block_overrun_panics :
    (start size : ℕ) (f f' : Decompressor)
    → start < 32768
    → size ≤ 32768
    → 32768 < start + size
    → read_block_header f ≡ returns (done (3, size)) f'
    → read_block start f ≡ panics
unfolding read_block
read_block_overrun_panics start size f f' p q r e =
    >>=-returns read_block_header _ f f' (done (3, size)) e
    ∙ copy_block_panics start size (if size % 2 == 1 then record f' { unaligned = true } else f') p
        q r
