-- ===== src/Vbnv/Flash.antt =====
-- lib/vbnv/vbnv_flash.c: fetching the vboot context from flash and writing it back.
use mosys.Common.{
  ℕ, ◌≡◌, refl, ap, Option, none, some, List, ◌∷◌, ◌==◌, if◌then◌else◌, Run, done, ◌>>=◌, length,
  arith, eqb_refl,
}
use mosys.Eeprom.{Eeprom, EepromRegion, EepromDev, ReadsBack, vbnv_find_eeprom}
use mosys.Common.{Rc, ok, failed}
use mosys.Vbnv.{fetch_block, place_block}
use mosys.Vbnv.Index.{IsBlock, AllBlocks, region, length-region}
use mosys.Vbnv.Write.{fetch_block-place_block}

module _ {W : Type 0} (dev : EepromDev W) where
  -- A write that reports another number of bytes is a failure.
  unfoldable pub write_region : W → Eeprom → EepromRegion → List ℕ → Rc × W
  write_region w eeprom reg bytes =
      let (written, w') = dev.write_by_name w eeprom reg.name bytes in
      elim written [
        | none ↦ (failed, w')
        | some n ↦ if n == length bytes then (ok, w') else (failed, w')
      ]

  write_region-ok :
      (w : W) (eeprom : Eeprom) (reg : EepromRegion) (bytes old : List ℕ)
      → ReadsBack dev
      → dev.read_by_name w eeprom reg.name ≡ some old
      → length bytes ≡ length old
      → write_region w eeprom reg bytes ≡ (ok, (dev.write_by_name w eeprom reg.name bytes).1)
  unfolding write_region
  write_region-ok w eeprom reg bytes old law now same =
      rw (write_region, law.count w eeprom reg.name bytes old now same, eqb_refl (length bytes))
        refl

module _ {W : Type 0} (dev : EepromDev W) (eeproms : Option (List Eeprom)) where
  -- `none` is -1; else the block that is copied out.
  unfoldable pub vbnv_fetch_from_flash : W → Run (Option (List ℕ))
  vbnv_fetch_from_flash w = elim (vbnv_find_eeprom eeproms) [
    | none ↦ done none
    | some (eeprom, reg) ↦ elim (dev.read_by_name w eeprom reg.name) [
      | none ↦ done none
      | some bytes ↦ fetch_block bytes
    ]
  ]

  unfoldable pub vbnv_write_to_flash : W → List ℕ → Run (Rc × W)
  vbnv_write_to_flash w block = elim (vbnv_find_eeprom eeproms) [
    | none ↦ done (failed, w)
    | some (eeprom, reg) ↦ elim (dev.read_by_name w eeprom reg.name) [
      | none ↦ done (failed, w)
      | some bytes ↦ place_block bytes block >>= λ placed. elim placed [
        | none ↦ done (failed, w)
        | some bytes' ↦ done (write_region dev w eeprom reg bytes')
      ]
    ]
  ]

-- Over a device that reads back what it was written with, and a region of written blocks with blank
-- ones behind them, writing a block succeeds, and fetching then gives that block.
pub vbnv_fetch_from_flash-vbnv_write_to_flash :
    {W : Type 0} (dev : EepromDev W) (eeproms : Option (List Eeprom)) (w : W) (e : Eeprom)
    (r : EepromRegion) (b new : List ℕ) (bs : List (List ℕ)) (free : ℕ)
    → ReadsBack dev
    → vbnv_find_eeprom eeproms ≡ some (e, r)
    → dev.read_by_name w e r.name ≡ some (region (b ∷ bs) free)
    → AllBlocks (b ∷ bs)
    → IsBlock new
    → (w' : W) × (vbnv_write_to_flash dev eeproms w new ≡ done (ok, w'))
      × (vbnv_fetch_from_flash dev eeproms w' ≡ done (some new))
unfolding vbnv_fetch_from_flash vbnv_write_to_flash
vbnv_fetch_from_flash-vbnv_write_to_flash dev eeproms w e r b new bs free law found old all block =
    let (bs', free', placed, all', same, fetched) =
      fetch_block-place_block b new bs free all block in
    let size : length (region bs' free') ≡ length (region (b ∷ bs) free) =
      omega (arith, length-region bs' free' all', length-region (b ∷ bs) free all, same) in
    (
      (dev.write_by_name w e r.name (region bs' free')).1,
      rw (found, vbnv_write_to_flash, old, vbnv_write_to_flash, placed)
          (ap done (write_region-ok dev w e r (region bs' free') _ law old size)),
      rw
          (
            found,
            vbnv_fetch_from_flash,
            law.read_back w e r.name (region bs' free') _ old size,
            vbnv_fetch_from_flash,
          )
          fetched,
    )
