-- ===== src/Vbnv/Write.antt =====
-- Writing a block and fetching it back, in lib/vbnv/vbnv_flash.c.
use mosys.Common.{
  ℕ, zero, suc, ◌+◌, ◌-◌, ◌*◌, ◌≤◌, ◌≡◌, refl, sym, ap, ◌∙◌, some, List, [], ◌∷◌, ◌++◌, leb-le,
  leb-gt, length, drop, take, replicate, drop-append_length, take-append_length, length-append,
  length-replicate, drop-replicate, take-append-drop, append_assoc, append-nil, ap₂, length-take,
  arith, done, poke, poke_middle, peek,
}
use mosys.Vbnv.{vbnv_index, fetch_block, place_block}
use mosys.Vbnv.Index.{
  IsBlock, AllBlocks, join, region, length-region, length-join, vbnv_index-region,
}

abbrev pub snoc : List (List ℕ) → List ℕ → List (List ℕ)
snoc bs b = bs ++ (b ∷ [])

join-snoc : (bs : List (List ℕ)) (b : List ℕ) → join (snoc bs b) ≡ join bs ++ b
join-snoc [] b = append-nil b
join-snoc (x ∷ bs) b = ap (λ r. x ++ r) (join-snoc bs b) ∙ sym (append_assoc x (join bs) b)

AllBlocks-snoc :
    (bs : List (List ℕ)) (b : List ℕ) → AllBlocks bs → IsBlock b → AllBlocks (snoc bs b)
AllBlocks-snoc [] b all h = (h, tt)
AllBlocks-snoc (x ∷ bs) b all h = (all.0, AllBlocks-snoc bs b all.1 h)

-- The blocks of a region after a write: behind the others while there is room, else alone.
abbrev pub blocks_after : List (List ℕ) → ℕ → List ℕ → List (List ℕ)
blocks_after bs zero b = b ∷ []
blocks_after bs (suc free) b = snoc bs b

abbrev pub free_after : List (List ℕ) → ℕ → ℕ
free_after bs zero = length bs - 1
free_after bs (suc free) = free

last_index :
    (b : List ℕ) (bs : List (List ℕ)) (free : ℕ)
    → AllBlocks (b ∷ bs)
    → vbnv_index (region (b ∷ bs) free) (length (region (b ∷ bs) free)) ≡ some (length bs)
last_index b bs free all = vbnv_index-region (b ∷ bs) free all ∙ ground arith

last_of_snoc :
    (bs : List (List ℕ)) (last : List ℕ) (free : ℕ)
    → AllBlocks (snoc bs last)
    → vbnv_index (region (snoc bs last) free) (length (region (snoc bs last) free))
      ≡ some (length bs)
last_of_snoc bs last free all =
    vbnv_index-region (snoc bs last) free all ∙ ground (arith, length-append bs (last ∷ []))

AllBlocks-front :
    (bs : List (List ℕ)) (b : List ℕ) → AllBlocks (snoc bs b) → AllBlocks bs × IsBlock b
AllBlocks-front [] b all = (tt, all.0)
AllBlocks-front (x ∷ bs) b all =
    let (front, last) = AllBlocks-front bs b all.1 in ((all.0, front), last)

drop-region :
    (bs : List (List ℕ)) (last : List ℕ) (free : ℕ)
    → AllBlocks bs
    → drop (length bs * 16) (region (snoc bs last) free) ≡ last ++ replicate (free * 16) 0xff
drop-region bs last free all =
    ap₂ drop (sym (length-join bs all)) (
      ap (λ j. j ++ replicate (free * 16) 0xff) (join-snoc bs last)
      ∙ append_assoc (join bs) last (replicate (free * 16) 0xff))
    ∙ drop-append_length (join bs) (last ++ replicate (free * 16) 0xff)

peek_block : (last rest : List ℕ) → length last ≡ 16 → peek (last ++ rest) 16 ≡ some last
unfolding peek
peek_block last rest sized =
    rw (leb-le 16 (length (last ++ rest)) (omega (arith, length-append last rest)))
      (ap some (ap (λ k. take k (last ++ rest)) (sym sized) ∙ take-append_length last rest))

-- In a region that starts with written blocks and is blank behind them, the block that is fetched
-- is the last written one.
pub fetch_block-last :
    (bs : List (List ℕ)) (last : List ℕ) (free : ℕ)
    → AllBlocks (snoc bs last)
    → fetch_block (region (snoc bs last) free) ≡ done (some last)
unfolding fetch_block
fetch_block-last bs last free all =
    let (front, block) = AllBlocks-front bs last all in
    rw
      (
        last_of_snoc bs last free all,
        fetch_block,
        drop-region bs last free front,
        peek_block last (replicate (free * 16) 0xff) block.sized,
      )
      refl

-- A write over the front of a blank region.
poke_blank :
    (new : List ℕ) (n : ℕ)
    → length new ≡ 16
    → 16 ≤ n
    → poke (replicate n 0xff) 0 new ≡ some (new ++ replicate (n - 16) 0xff)
poke_blank new n sized h =
    ap (λ b. poke b 0 new) (sym (take-append-drop 16 (replicate n 0xff)))
    ∙ poke_middle [] (take 16 (replicate n 0xff)) (drop 16 (replicate n 0xff)) new 0 refl
        (omega (arith, length-take 16 (replicate {A = ℕ} n 0xff), length-replicate {A = ℕ} n 0xff))
    ∙ ap (λ r. some (new ++ r)) (drop-replicate n 16 0xff)

-- A write behind the written blocks.
poke_next :
    (new : List ℕ) (bs : List (List ℕ)) (free offset : ℕ)
    → AllBlocks bs
    → length new ≡ 16
    → offset ≡ length bs * 16
    → poke (region bs (suc free)) offset new ≡ some (region (snoc bs new) free)
poke_next new bs free offset all sized at =
    ap (λ r. poke (join bs ++ r) offset new) (sym (take-append-drop 16 rest))
    ∙ poke_middle (join bs) (take 16 rest) (drop 16 rest) new offset (at ∙ sym (length-join bs all))
        (omega (arith, length-take 16 rest, length-replicate {A = ℕ} (suc free * 16) 0xff))
    ∙ ap some (
        sym (append_assoc (join bs) new (drop 16 rest))
        ∙ ap₂ ◌++◌ (sym (join-snoc bs new))
            (drop-replicate (suc free * 16) 16 0xff ∙ ap (λ k. replicate k 0xff) less))
  where
    rest : List ℕ
    rest = replicate (suc free * 16) 0xff

    less : suc free * 16 - 16 ≡ free * 16
    less = omega arith

-- Into a region with a written block, `place_block` puts a block behind the last one, or, in a full
-- region, alone in front of a blank rest; it does not write past the region's end.
pub place_block-region :
    (b new : List ℕ) (bs : List (List ℕ)) (free : ℕ)
    → AllBlocks (b ∷ bs)
    → IsBlock new
    → place_block (region (b ∷ bs) free) new
      ≡ done (some (region (blocks_after (b ∷ bs) free new) (free_after (b ∷ bs) free)))
unfolding place_block
place_block-region b new bs zero all h =
    let size = length-region (b ∷ bs) zero all in
    rw
      (
        last_index b bs zero all,
        place_block,
        leb-le (length (region (b ∷ bs) zero)) ((length bs + 1) * 16) (omega (arith, size)),
        poke_blank new (length (region (b ∷ bs) zero)) h.sized (omega (arith, size)),
      )
      (ap (λ r. done (some r))
        (ap₂ ◌++◌ (sym (append-nil new)) (ap (λ k. replicate k 0xff) (rest size))))
  where
    rest :
        length (region (b ∷ bs) zero) ≡ (suc (length bs) + 0) * 16
        → length (region (b ∷ bs) zero) - 16 ≡ (length (b ∷ bs) - 1) * 16
    rest size = omega arith
place_block-region b new bs (suc free) all h =
    let size = length-region (b ∷ bs) (suc free) all in
    rw
      (
        last_index b bs (suc free) all,
        place_block,
        leb-gt (length (region (b ∷ bs) (suc free))) ((length bs + 1) * 16) (omega (arith, size)),
        poke_next new (b ∷ bs) free ((length bs + 1) * 16) all h.sized (omega arith),
      )
      refl

-- What is written is what is fetched next, and the region keeps its form: written blocks, then
-- blank ones.
pub fetch_block-place_block :
    (b new : List ℕ) (bs : List (List ℕ)) (free : ℕ)
    → AllBlocks (b ∷ bs)
    → IsBlock new
    → (bs' : List (List ℕ)) × (free' : ℕ) × (place_block (region (b ∷ bs) free) new
        ≡ done (some (region bs' free')))
      × AllBlocks bs'
      × (length bs' + free' ≡ length (b ∷ bs) + free)
      × (fetch_block (region bs' free') ≡ done (some new))
fetch_block-place_block b new bs zero all h = (
  new ∷ [],
  length (b ∷ bs) - 1,
  place_block-region b new bs zero all h,
  (h, tt),
  omega arith,
  fetch_block-last [] new (length (b ∷ bs) - 1) (h, tt),
)
fetch_block-place_block b new bs (suc free) all h = (
  snoc (b ∷ bs) new,
  free,
  place_block-region b new bs (suc free) all h,
  AllBlocks-snoc (b ∷ bs) new all h,
  omega (arith, length-append (b ∷ bs) (new ∷ [])),
  fetch_block-last (b ∷ bs) new free (AllBlocks-snoc (b ∷ bs) new all h),
)
