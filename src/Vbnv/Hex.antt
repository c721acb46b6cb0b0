-- ===== src/Vbnv/Hex.antt =====
-- lib/vbnv/vbnv_flash.c: the vboot context as hexadecimal text, printed and read back.
use mosys.Common.{
  ℕ, ◌+◌, ◌-◌, ◌*◌, ◌/◌, ◌%◌, ◌^◌, ◌≡◌, refl, ap, ◌∙◌, Bool, true, not, ◌&&◌, ◌||◌, Option, none,
  some, List, [], ◌∷◌, leb, ◌==◌, ==_iff, if◌then◌else◌, Run, done, ◌>>=◌, length, u8, all_below,
  all_below_sound, arith, Rc, ok, failed,
}
use mosys.Strings.Digits.{hex_char, AllBytes}
use mosys.Eeprom.{Eeprom, EepromRegion, EepromDev, ReadsBack, vbnv_find_eeprom}
use mosys.Vbnv.Index.{IsBlock, AllBlocks, region}
use mosys.Vbnv.Flash.{
  vbnv_fetch_from_flash, vbnv_write_to_flash, vbnv_fetch_from_flash-vbnv_write_to_flash,
}

unfoldable pub hex_text : List ℕ → List ℕ
hex_text [] = []
hex_text (b ∷ bs) = hex_char (b / 16) ∷ hex_char (b % 16) ∷ hex_text bs

-- The value of a hexadecimal digit.
abbrev pub digit_value : ℕ → Option ℕ
digit_value c =
    if leb 48 c && leb c 57
    then some (c - 48)
    else if leb 97 c && leb c 102
    then some (c - 87)
    else if leb 65 c && leb c 70
    then some (c - 55)
    else none

abbrev pub is_space : ℕ → Bool
is_space c = c == 32 || leb 9 c && leb c 13

-- `strtol` with base 16 on two characters, cut to a byte. It passes over space, takes a sign, and
-- stops at what is no digit.
unfoldable pub strtol_byte : ℕ → ℕ → ℕ
strtol_byte high low =
    let last : ℕ = elim (digit_value low) [ none ↦ 0 | some d ↦ d ] in
    if is_space high || high == 43
    then last
    else if high == 45
    then u8 (2 ^ 8 - last)
    else elim (digit_value high) [
      | none ↦ 0
      | some h ↦ elim (digit_value low) [ none ↦ h | some d ↦ u8 (h * 16 + d) ]
    ]

-- The loop over the pairs of characters.
unfoldable pub parse_pairs : List ℕ → List ℕ
parse_pairs [] = []
parse_pairs (high ∷ []) = []
parse_pairs (high ∷ low ∷ rest) = strtol_byte high low ∷ parse_pairs rest

module _ {W : Type 0} (dev : EepromDev W) (eeproms : Option (List Eeprom)) where
  -- The text that is printed under the key "vbnvcontext"; `none` is -1.
  unfoldable pub vbnv_flash_vboot_read : W → Run (Option (List ℕ))
  vbnv_flash_vboot_read w = vbnv_fetch_from_flash dev eeproms w >>= λ block. elim block [
    | none ↦ done none
    | some bytes ↦ done (some (hex_text bytes))
  ]

  -- The string is the characters before its end.
  unfoldable pub vbnv_flash_vboot_write : W → List ℕ → Run (Rc × W)
  vbnv_flash_vboot_write w hexstring =
      if not (length hexstring == 32)
      then done (failed, w)
      else vbnv_write_to_flash dev eeproms w (parse_pairs hexstring)

byte_table : all_below 256 (λ b. strtol_byte (hex_char (b / 16)) (hex_char (b % 16)) == b) ≡ true
unfolding all_below strtol_byte
byte_table = refl

pub parse_pairs-hex_text : (bs : List ℕ) → AllBytes bs → parse_pairs (hex_text bs) ≡ bs
unfolding parse_pairs hex_text
parse_pairs-hex_text [] all = refl
parse_pairs-hex_text (b ∷ bs) all =
    ap (λ r. strtol_byte (hex_char (b / 16)) (hex_char (b % 16)) ∷ r)
      (parse_pairs-hex_text bs all.1)
    ∙ ap (λ x. x ∷ bs) ((==_iff _ b).0 (all_below_sound 256 _ b byte_table all.0))

pub length-hex_text : (bs : List ℕ) → length (hex_text bs) ≡ length bs * 2
unfolding hex_text
length-hex_text [] = refl
length-hex_text (b ∷ bs) = omega (arith, length-hex_text bs)

-- Over a device that reads back what it was written with, and a region of written blocks with blank
-- ones behind them: writing the text of a block succeeds, and reading then prints that text.
pub vbnv_flash_vboot_read-vbnv_flash_vboot_write :
    {W : Type 0} (dev : EepromDev W) (eeproms : Option (List Eeprom)) (w : W) (e : Eeprom)
    (r : EepromRegion) (b new : List ℕ) (bs : List (List ℕ)) (free : ℕ)
    → ReadsBack dev
    → vbnv_find_eeprom eeproms ≡ some (e, r)
    → dev.read_by_name w e r.name ≡ some (region (b ∷ bs) free)
    → AllBlocks (b ∷ bs)
    → IsBlock new
    → AllBytes new
    → (w' : W) × (vbnv_flash_vboot_write dev eeproms w (hex_text new) ≡ done (ok, w'))
      × (vbnv_flash_vboot_read dev eeproms w' ≡ done (some (hex_text new)))
unfolding vbnv_flash_vboot_read vbnv_flash_vboot_write
vbnv_flash_vboot_read-vbnv_flash_vboot_write dev eeproms w e r b new bs free law found old all block
      bytes =
    let (w', written, fetched) =
      vbnv_fetch_from_flash-vbnv_write_to_flash dev eeproms w e r b new bs free law found old all
        block in
    let size : length (hex_text new) ≡ 32 = omega (arith, length-hex_text new, block.sized) in
    (w', rw (size, parse_pairs-hex_text new bytes) written, rw fetched refl)
