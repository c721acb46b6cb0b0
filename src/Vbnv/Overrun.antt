-- ===== src/Vbnv/Overrun.antt =====
-- `vbnv_write_to_flash` of lib/vbnv/vbnv_flash.c on a region that ends in a part of a block.
use mosys.Common.{ℕ, ◌+◌, ◌*◌, ◌<◌, ◌≡◌, refl, some, List, leb-gt, fault, length, poke_fault, arith}
use mosys.Vbnv.{vbnv_index, place_block}

-- When the last written block is the last whole one of the region, and a part of a block follows it,
-- a block is written behind it that passes the end of the buffer.
pub place_block_overrun :
    (bytes block : List ℕ) (last : ℕ)
    → vbnv_index bytes (length bytes) ≡ some last
    → (last + 1) * 16 < length bytes
    → length bytes < (last + 2) * 16
    → length block ≡ 16
    → place_block bytes block ≡ fault
unfolding place_block
place_block_overrun bytes block last found more less sized =
    rw
      (
        found,
        place_block,
        leb-gt (length bytes) ((last + 1) * 16) more,
        poke_fault bytes ((last + 1) * 16) block (omega (arith, sized)),
      )
      refl
