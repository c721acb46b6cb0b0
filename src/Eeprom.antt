-- ===== src/Eeprom.antt =====
-- include/lib/eeprom.h: the platform's list of eeproms and their regions, as the event log and the
-- vboot context look through it, and the device behind an eeprom.
pub mod Find
mod Tests
use mosys.Common.{
  ℕ, Bool, true, false, ◌&&◌, not, Option, none, some, List, [], ◌∷◌, ◌==◌, if◌then◌else◌, bit_and,
  String, length, ◌≡◌,
}

abbrev pub flag_eventlog : ℕ
flag_eventlog = 8

abbrev pub flag_fmap : ℕ
flag_fmap = 16

abbrev pub flag_vbnv : ℕ
flag_vbnv = 32

-- `flags & flag`, as a test.
abbrev pub has_flag : ℕ → ℕ → Bool
has_flag flags flag = not (bit_and flags flag == 0)

pub record EepromRegion : Type 0 where
  pub name : Option String
  pub len : ℕ
  pub flag : ℕ

-- Of both structs the fields that the look-ups read. The array of eeproms ends at one with no name,
-- and that of regions at one with no flag; a null pointer to regions is `none`.
pub record Eeprom : Type 0 where
  pub name : Option String
  pub flags : ℕ
  pub regions : Option (List EepromRegion)

-- `read_by_name` and `write_by_name` of the device, over the state `W` of the flash: `none` is a
-- negative return, else the bytes that are read, or the number of bytes that are written.
pub record EepromDev (W : Type 0) : Type 0 where
  pub read_by_name : W → Eeprom → Option String → Option (List ℕ)
  pub write_by_name : W → Eeprom → Option String → List ℕ → Option ℕ × W

-- What include/lib/eeprom.h says of these: a write returns the number of bytes written, and what a
-- region was written with is read from it afterwards.
pub record ReadsBack {W : Type 0} (dev : EepromDev W) : Type 0 where
  pub count :
      (w : W) (e : Eeprom) (name : Option String) (bytes : List ℕ) (old : List ℕ)
      → dev.read_by_name w e name ≡ some old
      → length bytes ≡ length old
      → (dev.write_by_name w e name bytes).0 ≡ some (length bytes)
  pub read_back :
      (w : W) (e : Eeprom) (name : Option String) (bytes : List ℕ) (old : List ℕ)
      → dev.read_by_name w e name ≡ some old
      → length bytes ≡ length old
      → dev.read_by_name (dev.write_by_name w e name bytes).1 e name ≡ some bytes

-- The first region with the flag, up to the end of the array.
unfoldable pub find_region : ℕ → List EepromRegion → Option EepromRegion
find_region flag [] = none
find_region flag (region ∷ regions) =
    let rest = find_region flag regions in
    if region.flag == 0 then none else if has_flag region.flag flag then some region else rest

-- The loops of `vbnv_find_eeprom`: eeproms with no flash map and those with no regions are passed.
unfoldable pub vbnv_find : List Eeprom → Option (Eeprom × EepromRegion)
vbnv_find [] = none
vbnv_find (eeprom ∷ eeproms) =
    let rest = vbnv_find eeproms in
    elim eeprom.name [
      | none ↦ none
      | some name ↦ if not (has_flag eeprom.flags flag_fmap) then rest else elim eeprom.regions [
        | none ↦ rest
        | some regions ↦ elim (find_region flag_vbnv regions) [
          | none ↦ rest
          | some region ↦ some (eeprom, region)
        ]
      ]
    ]

-- `none` is a platform without a list of eeproms, and a result of -1.
unfoldable pub vbnv_find_eeprom : Option (List Eeprom) → Option (Eeprom × EepromRegion)
vbnv_find_eeprom none = none
vbnv_find_eeprom (some eeproms) = vbnv_find eeproms

-- The loops of `elog_find_log_in_flash`.
unfoldable pub elog_find : List Eeprom → Option (Eeprom × EepromRegion)
elog_find [] = none
elog_find (eeprom ∷ eeproms) =
    let rest = elog_find eeproms in
    elim eeprom.name [
      | none ↦ none
      | some name ↦ elim eeprom.regions [
        | none ↦ rest
        | some regions ↦ elim (find_region flag_eventlog regions) [
          | none ↦ rest
          | some region ↦ some (eeprom, region)
        ]
      ]
    ]

abbrev pub is_named : EepromRegion → Bool
is_named region = elim region.name [ none ↦ false | some name ↦ true ]

unfoldable pub elog_find_log_in_flash : List Eeprom → Option (Eeprom × EepromRegion)
elog_find_log_in_flash eeproms = elim (elog_find eeproms) [
  | none ↦ none
  | some (eeprom, region) ↦
      if not (has_flag eeprom.flags flag_fmap) && is_named region
      then none
      else some (eeprom, region)
]
