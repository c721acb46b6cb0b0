-- ===== src/Eeprom/Tests.antt =====
-- Runs of the look-ups in a platform's list of eeproms.
use mosys.Common.{◌≡◌, refl, none, some, List, [], ◌∷◌}
use mosys.Eeprom.{Eeprom, EepromRegion, find_region, vbnv_find, elog_find, elog_find_log_in_flash}

abbrev log_region : EepromRegion
log_region = record { name = some "RW_ELOG"; len = 4096; flag = 8 }

abbrev nvram_region : EepromRegion
nvram_region = record { name = some "RW_NVRAM"; len = 4096; flag = 32 }

abbrev host_flash : Eeprom
host_flash = record {
  name = some "host_firmware";
  flags = 16;
  regions = some (log_region ∷ nvram_region ∷ []);
}

abbrev eeproms : List Eeprom
eeproms = record host_flash { regions = none } ∷ host_flash ∷ []

log_found : elog_find_log_in_flash eeproms ≡ some (host_flash, log_region)
unfolding elog_find_log_in_flash elog_find find_region
log_found = refl

nvram_found : vbnv_find eeproms ≡ some (host_flash, nvram_region)
unfolding vbnv_find find_region
nvram_found = refl
