-- ===== src/Vbnv/Tests.antt =====
-- Runs of the code of lib/vbnv/vbnv_flash.c on a region of two blocks.
use mosys.Common.{
  ℕ, ◌+◌, ◌<◌, arith, ◌≡◌, refl, some, List, [], ◌∷◌, done, fault, ok, length, replicate,
}
use mosys.Eeprom.{
  Eeprom, EepromRegion, EepromDev, ReadsBack, vbnv_find_eeprom, vbnv_find, find_region,
}
use mosys.Vbnv.Overrun.{place_block_overrun}
use mosys.Vbnv.{index_loop, vbnv_index, fetch_block, place_block, same_bytes}
use mosys.Vbnv.Index.{IsBlock, AllBlocks, region}
use mosys.Vbnv.Write.{fetch_block-place_block}
use mosys.Strings.Digits.{AllBytes}
use mosys.Vbnv.Hex.{
  hex_text, vbnv_flash_vboot_read, vbnv_flash_vboot_write,
  vbnv_flash_vboot_read-vbnv_flash_vboot_write,
}
use mosys.Vbnv.Flash.{
  vbnv_fetch_from_flash, vbnv_write_to_flash, vbnv_fetch_from_flash-vbnv_write_to_flash,
}

abbrev zeros : List ℕ
zeros = replicate 16 0

abbrev ones : List ℕ
ones = replicate 16 1

zeros-IsBlock : IsBlock zeros
unfolding same_bytes
zeros-IsBlock = record { sized = refl; written = refl }

ones-IsBlock : IsBlock ones
unfolding same_bytes
ones-IsBlock = record { sized = refl; written = refl }

fetch_block-place_block_example :
    (bs' : List (List ℕ)) × (free' : ℕ) × (place_block (region (zeros ∷ []) 1) ones
      ≡ done (some (region bs' free')))
    × AllBlocks bs'
    × (length bs' + free' ≡ length (zeros ∷ []) + 1)
    × (fetch_block (region bs' free') ≡ done (some ones))
fetch_block-place_block_example =
    fetch_block-place_block zeros ones [] 1 (zeros-IsBlock, tt) ones-IsBlock

-- Flash with one region, whose bytes are the state.
abbrev cell : EepromDev (List ℕ)
cell = record {
  read_by_name = λ w e name. some w;
  write_by_name = λ w e name bytes. (some (length bytes), bytes);
}

cell-ReadsBack : ReadsBack cell
cell-ReadsBack = record {
  count = λ w e name bytes old now same. refl;
  read_back = λ w e name bytes old now same. refl;
}

abbrev vbnv_region : EepromRegion
vbnv_region = record { name = some "RW_NVRAM"; len = 32; flag = 32 }

abbrev host_flash : Eeprom
host_flash = record { name = some "host_firmware"; flags = 16; regions = some (vbnv_region ∷ []) }

found_region : vbnv_find_eeprom (some (host_flash ∷ [])) ≡ some (host_flash, vbnv_region)
unfolding vbnv_find_eeprom vbnv_find find_region
found_region = refl

vbnv_fetch_from_flash-vbnv_write_to_flash_example :
    (w' : List ℕ) × (vbnv_write_to_flash cell (some (host_flash ∷ [])) (region (zeros ∷ []) 1) ones
      ≡ done (ok, w'))
    × (vbnv_fetch_from_flash cell (some (host_flash ∷ [])) w' ≡ done (some ones))
vbnv_fetch_from_flash-vbnv_write_to_flash_example =
    vbnv_fetch_from_flash-vbnv_write_to_flash cell (some (host_flash ∷ [])) (region (zeros ∷ []) 1)
      host_flash vbnv_region zeros ones [] 1 cell-ReadsBack found_region refl (zeros-IsBlock, tt)
      ones-IsBlock

ones-AllBytes : AllBytes ones
ones-AllBytes =
    let small : 1 < 256 = omega arith in
    (
      small,
      (
        small,
        (
          small,
          (
            small,
            (
              small,
              (
                small,
                (
                  small,
                  (
                    small,
                    (small, (small, (small, (small, (small, (small, (small, (small, tt)))))))),
                  ),
                ),
              ),
            ),
          ),
        ),
      ),
    )

vbnv_flash_vboot_read-vbnv_flash_vboot_write_example :
    (w' : List ℕ) × (vbnv_flash_vboot_write cell
        (some (host_flash ∷ []))
        (region (zeros ∷ []) 1)
        (hex_text ones)
      ≡ done (ok, w'))
    × (vbnv_flash_vboot_read cell (some (host_flash ∷ [])) w' ≡ done (some (hex_text ones)))
vbnv_flash_vboot_read-vbnv_flash_vboot_write_example =
    vbnv_flash_vboot_read-vbnv_flash_vboot_write cell (some (host_flash ∷ []))
      (region (zeros ∷ []) 1) host_flash vbnv_region zeros ones [] 1 cell-ReadsBack found_region
      refl (zeros-IsBlock, tt) ones-IsBlock ones-AllBytes

-- A region of one block and one byte.
abbrev ragged : List ℕ
ragged = replicate 17 0

ragged_index : vbnv_index ragged 17 ≡ some 0
unfolding vbnv_index index_loop same_bytes
ragged_index = refl

place_block_overrun_example : place_block ragged ones ≡ fault
place_block_overrun_example =
    place_block_overrun ragged ones 0 ragged_index (omega arith) (omega arith) refl
