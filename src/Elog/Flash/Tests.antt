-- ===== src/Elog/Flash/Tests.antt =====
-- Runs of the event log in flash, of lib/eventlog/elog.c.
use mosys.Common.{ℕ, ◌*◌, ◌/◌, ◌≤◌, ◌≡◌, refl, some, List, [], ◌∷◌, done, length, arith}
use mosys.Eeprom.{
  Eeprom, EepromRegion, EepromDev, ReadsBack, elog_find_log_in_flash, elog_find, find_region,
}
use mosys.Elog.Iterator.Parse.{join}
use mosys.Elog.Manual.{LogCb}
use mosys.Elog.Manual.Layout.{Holds}
use mosys.Elog.Flash.{flash_log, Event, add_events}
use mosys.Elog.Flash.Sequence.{Fits, log_after, successes, add_events-log_after}
use mosys.Elog.Samples.{noon, boot, boot_log, one_entry-Holds}

-- Flash with one region, whose bytes are the state.
abbrev cell : EepromDev (List ℕ)
cell = record {
  read_by_name = λ w e name. some w;
  write_by_name = λ w e name bytes. (some (length bytes), bytes);
}

cell-ReadsBack : ReadsBack cell
cell-ReadsBack = record {
  count = λ w e name bytes old now same. refl;
  read_back = λ w e name bytes old now same. refl;
}

abbrev log_region : EepromRegion
log_region = record { name = some "RW_ELOG"; len = 128; flag = 8 }

abbrev host_flash : Eeprom
host_flash = record { name = some "host_firmware"; flags = 16; regions = some (log_region ∷ []) }

found_log : elog_find_log_in_flash (host_flash ∷ []) ≡ some (host_flash, log_region)
unfolding elog_find_log_in_flash elog_find find_region
found_log = refl

abbrev shutdown : Event
shutdown = record { type = 0x98; bytes = []; clear_clock = noon; clock = noon }

abbrev suspend : Event
suspend = record { type = 0x9d; bytes = 3 ∷ []; clear_clock = noon; clock = noon }

shutdown-Fits : Fits 128 shutdown
shutdown-Fits = record {
  byte = omega arith;
  quarter = omega arith;
  live = λ e. omega (arith, e);
  clear_works = refl;
  works = refl;
}

suspend-Fits : Fits 128 suspend
suspend-Fits = record {
  byte = omega arith;
  quarter = omega arith;
  live = λ e. omega (arith, e);
  clear_works = refl;
  works = refl;
}

abbrev two_events : List Event
two_events = shutdown ∷ suspend ∷ []

abbrev flash_cb : LogCb (List ℕ)
flash_cb = flash_log cell (host_flash ∷ [])

add_events-log_after_example :
    (w' : List ℕ) × (bytes' : List ℕ) × (free' : ℕ) × (add_events flash_cb boot_log two_events
      ≡ done (successes two_events, w'))
    × (some w' ≡ some bytes')
    × Holds
        (record { bytes = bytes'; len = 128; header_offset = 0; data_offset = 8 })
        (log_after 128 (boot ∷ []) two_events)
        free'
    × (length (join (log_after 128 (boot ∷ []) two_events)) ≤ 128 * 3 / 4)
add_events-log_after_example =
    add_events-log_after cell (host_flash ∷ []) host_flash log_region cell-ReadsBack found_log
      two_events 128 boot_log boot_log (boot ∷ []) 107 refl one_entry-Holds (omega arith)
      (omega arith) (omega arith) (shutdown-Fits, (suspend-Fits, tt))
