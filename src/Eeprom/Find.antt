-- ===== src/Eeprom/Find.antt =====
-- What the searches of lib/vbnv/vbnv_flash.c and lib/eventlog/elog.c through the list of eeproms
-- give.
use mosys.Common.{ℕ, true, none, some, List, [], ◌∷◌, ◌≡◌, ◌≢◌, arith, Option-cases, inl, inr, ◌⊎◌}
use mosys.Eeprom.{
  EepromRegion, Eeprom, has_flag, flag_eventlog, flag_fmap, flag_vbnv, find_region, vbnv_find,
  elog_find, elog_find_log_in_flash,
}

find_region-flag :
    (flag : ℕ) (regions : List EepromRegion) (r : EepromRegion)
    → find_region flag regions ≡ some r
    → has_flag r.flag flag ≡ true
unfolding find_region
find_region-flag flag [] r e = cc
find_region-flag flag (x ∷ regions) r e = ground (arith, find_region-flag flag regions r)

-- What the loops of `vbnv_find_eeprom` give is an eeprom with a name and a flash map, and a region
-- with the flag of the vboot context.
pub vbnv_find-flags :
    (eeproms : List Eeprom) (e : Eeprom) (r : EepromRegion)
    → vbnv_find eeproms ≡ some (e, r)
    → (e.name ≢ none) × (has_flag e.flags flag_fmap ≡ true) × (has_flag r.flag flag_vbnv ≡ true)
unfolding vbnv_find
vbnv_find-flags [] e r h = cc
vbnv_find-flags (x ∷ eeproms) e r h = elim (Option-cases x.regions) [
  | inl none_there ↦ ground (arith, vbnv_find-flags eeproms e r)
  | inr (regions, listed) ↦
      ground (arith, vbnv_find-flags eeproms e r, find_region-flag flag_vbnv regions r)
]

elog_find-flag :
    (eeproms : List Eeprom) (e : Eeprom) (r : EepromRegion)
    → elog_find eeproms ≡ some (e, r)
    → has_flag r.flag flag_eventlog ≡ true
unfolding elog_find
elog_find-flag [] e r h = cc
elog_find-flag (x ∷ eeproms) e r h = elim (Option-cases x.regions) [
  | inl none_there ↦ ground (arith, elog_find-flag eeproms e r)
  | inr (regions, listed) ↦
      ground (arith, elog_find-flag eeproms e r, find_region-flag flag_eventlog regions r)
]

-- The region that `elog_find_log_in_flash` gives has the flag of the event log, and its eeprom has
-- a flash map unless the region has no name.
pub elog_find_log_in_flash-flags :
    (eeproms : List Eeprom) (e : Eeprom) (r : EepromRegion)
    → elog_find_log_in_flash eeproms ≡ some (e, r)
    → (has_flag r.flag flag_eventlog ≡ true)
      × ((has_flag e.flags flag_fmap ≡ true) ⊎ (r.name ≡ none))
unfolding elog_find_log_in_flash
elog_find_log_in_flash-flags eeproms e r h = elim (Option-cases (elog_find eeproms)) [
  | inl missing ↦ cc (missing, h)
  | inr ((e', r'), found) ↦ ground (arith, elog_find-flag eeproms e' r')
]
