-- ===== src/Vbnv.antt =====
-- lib/vbnv/vbnv_flash.c: the vboot non-volatile context as 16-byte blocks, the last one of them
-- valid, in a region of flash. `Hex` has the text form of a block.
pub mod Index
pub mod Write
pub mod Flash
pub mod Hex
pub mod Overrun
mod Tests
use mosys.Common.{
  ℕ, zero, suc, ◌+◌, ◌-◌, ◌*◌, ◌/◌, ◌%◌, Bool, true, false, Option, none, some, List, [], ◌∷◌, leb,
  ◌==◌, ◌&&◌, if◌then◌else◌, Run, done, fault, access, ◌>>=◌, length, drop, take, replicate, poke,
  peek, ltb,
}

abbrev pub vbnv_block_size : ℕ
vbnv_block_size = 16

-- `!memcmp(a, b, n)` over two blocks of `n` bytes.
unfoldable pub same_bytes : List ℕ → List ℕ → Bool
same_bytes [] [] = true
same_bytes [] (y ∷ ys) = false
same_bytes (x ∷ xs) [] = false
same_bytes (x ∷ xs) (y ∷ ys) = (x == y) && same_bytes xs ys

abbrev pub blank : List ℕ
blank = replicate vbnv_block_size 0xff

abbrev pub block_at : List ℕ → ℕ → List ℕ
block_at bytes index = take vbnv_block_size (drop (index * vbnv_block_size) bytes)

-- The `for` loop, with the rounds left: the index of the first blank block, or that past the last.
unfoldable pub index_loop : List ℕ → ℕ → ℕ → ℕ
index_loop bytes zero index = index
index_loop bytes (suc left) index =
    let rest = index_loop bytes left (index + 1) in
    if same_bytes blank (block_at bytes index) then index else rest

-- `none` is -1. The second test compares a block's index with the number of bytes, as the code does.
unfoldable pub vbnv_index : List ℕ → ℕ → Option ℕ
vbnv_index bytes len =
    let index = index_loop bytes (len / vbnv_block_size) 0 in
    if index == 0 then none else if leb len index then none else some (index - 1)

-- The block that `vbnv_fetch_from_flash` copies out of the region's bytes; `none` is -1.
unfoldable pub fetch_block : List ℕ → Run (Option (List ℕ))
fetch_block bytes = elim (vbnv_index bytes (length bytes)) [
  | none ↦ done none
  | some index ↦ access (peek (drop (index * vbnv_block_size) bytes) vbnv_block_size) >>= λ block.
      done (some block)
]

-- The region's bytes as `vbnv_write_to_flash` changes them; `none` is -1.
unfoldable pub place_block : List ℕ → List ℕ → Run (Option (List ℕ))
place_block bytes block = elim (vbnv_index bytes (length bytes)) [
  | none ↦ done none
  | some last ↦
      let index = last + 1 in
      (if leb (length bytes) (index * vbnv_block_size)
        then access (poke (replicate (length bytes) 0xff) 0 block)
        else access (poke bytes (index * vbnv_block_size) block))
      >>= λ placed. done (some placed)
]
