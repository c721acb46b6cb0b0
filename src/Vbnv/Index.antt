-- ===== src/Vbnv/Index.antt =====
-- `vbnv_index` of lib/vbnv/vbnv_flash.c finds the last written block.
use mosys.Common.{
  ℕ, zero, suc, ◌+◌, ◌-◌, ◌*◌, ◌/◌, ◌≤◌, ◌≡◌, refl, sym, ap, ◌∙◌, true, false, none, some, List, [],
  ◌∷◌, ◌++◌, ◌==◌, if◌then◌else◌, length, drop, take, replicate, drop-append_length,
  take-append_length, drop-drop, length-append, length-replicate, append_assoc, arith,
}
use mosys.Vbnv.{same_bytes, blank, block_at, index_loop, vbnv_index}

-- A block as it may be stored: 16 bytes that are not all 0xff.
pub record IsBlock (b : List ℕ) : Type 0 where
  pub sized : length b ≡ 16
  pub written : same_bytes blank b ≡ false

abbrev pub AllBlocks : List (List ℕ) → Type 0
AllBlocks [] = Unit
AllBlocks (b ∷ bs) = IsBlock b × AllBlocks bs

abbrev pub join : List (List ℕ) → List ℕ
join [] = []
join (b ∷ bs) = b ++ join bs

pub length-join : (bs : List (List ℕ)) → AllBlocks bs → length (join bs) ≡ length bs * 16
length-join [] all = refl
length-join (b ∷ bs) all =
    omega (arith, length-append b (join bs), all.0.sized, length-join bs all.1)

same_bytes_refl : (xs : List ℕ) → same_bytes xs xs ≡ true
unfolding same_bytes
same_bytes_refl [] = refl
same_bytes_refl (x ∷ xs) = ground (arith, same_bytes_refl xs)

take-replicate : (n m a : ℕ) → n ≤ m → take n (replicate m a) ≡ replicate n a
take-replicate zero m a h = refl
take-replicate (suc n) zero a h = elim h [ ]
take-replicate (suc n) (suc m) a h = ap (λ r. a ∷ r) (take-replicate n m a (omega arith))

-- A region whose first blocks are `bs`, and that is blank behind them.
abbrev pub region : List (List ℕ) → ℕ → List ℕ
region bs free = join bs ++ replicate (free * 16) 0xff

next_block :
    (b rest bytes : List ℕ) (index : ℕ)
    → length b ≡ 16
    → drop (index * 16) bytes ≡ b ++ rest
    → (block_at bytes index ≡ b) × (drop ((index + 1) * 16) bytes ≡ rest)
next_block b rest bytes index sized at = (
  ap (take 16) at ∙ ap (λ k. take k (b ++ rest)) (sym sized) ∙ take-append_length b rest,
  ap (λ k. drop k bytes) moved
      ∙ sym (drop-drop (index * 16) 16 bytes)
      ∙ ap (drop 16) at
      ∙ ap (λ k. drop k (b ++ rest)) (sym sized)
      ∙ drop-append_length b rest,
)
  where
    moved : (index + 1) * 16 ≡ index * 16 + 16
    moved = omega arith

-- The loop passes over the written blocks, and stops at a blank one or at the end.
index_loop-region :
    (bs : List (List ℕ)) (bytes : List ℕ) (free left index : ℕ)
    → left ≡ length bs + free
    → AllBlocks bs
    → drop (index * 16) bytes ≡ region bs free
    → index_loop bytes left index ≡ index + length bs
unfolding index_loop
index_loop-region [] bytes free zero index e all at = omega arith
index_loop-region [] bytes free (suc left) index e all at =
    rw (ap (take 16) at ∙ take-replicate 16 (free * 16) 0xff (omega arith), same_bytes_refl blank)
      (omega arith)
index_loop-region (b ∷ bs) bytes free zero index e all at = absurd (omega arith)
index_loop-region (b ∷ bs) bytes free (suc left) index e all at =
    let at' = at ∙ append_assoc b (join bs) (replicate (free * 16) 0xff) in
    let (here, there) = next_block b (region bs free) bytes index all.0.sized at' in
    rw (here, all.0.written)
      (index_loop-region bs bytes free left (index + 1) (omega arith) all.1 there ∙ (omega arith))

index_loop-le : (bytes : List ℕ) (left index : ℕ) → index_loop bytes left index ≤ index + left
unfolding index_loop
index_loop-le bytes zero index = omega arith
index_loop-le bytes (suc left) index = ground (arith, index_loop-le bytes left (index + 1))

pub length-region :
    (bs : List (List ℕ)) (free : ℕ)
    → AllBlocks bs
    → length (region bs free) ≡ (length bs + free) * 16
length-region bs free all = omega (
  arith,
  length-append (join bs) (replicate (free * 16) 0xff),
  length-replicate {A = ℕ} (free * 16) 0xff,
  length-join bs all,
)

-- In a region that starts with written blocks and is blank behind them, `vbnv_index` finds the last
-- of these; a region without a written block is refused.
pub vbnv_index-region :
    (bs : List (List ℕ)) (free : ℕ)
    → AllBlocks bs
    → vbnv_index (region bs free) (length (region bs free))
      ≡ (if length bs == 0 then none else some (length bs - 1))
unfolding vbnv_index
vbnv_index-region bs free all = ground (arith, loop, size)
  where
    size : length (region bs free) ≡ (length bs + free) * 16
    size = length-region bs free all

    loop : index_loop (region bs free) (length (region bs free) / 16) 0 ≡ length bs
    loop =
        index_loop-region bs (region bs free) free _ 0 (omega (arith, size)) all refl
        ∙ (omega arith)

-- Whatever the bytes, `vbnv_index` gives the index of a whole block, never that past the last one.
pub vbnv_index-lt :
    (bytes : List ℕ) (index : ℕ)
    → vbnv_index bytes (length bytes) ≡ some index
    → (index + 1) * 16 ≤ length bytes
unfolding vbnv_index
vbnv_index-lt bytes index e = ground (arith, index_loop-le bytes (length bytes / 16) 0)
