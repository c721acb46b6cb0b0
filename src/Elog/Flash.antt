-- ===== src/Elog/Flash.antt =====
-- lib/eventlog/elog.c: the event log in a region of flash, behind its 8-byte header.
pub mod Sequence
mod Tests
use mosys.Common.{
  ℕ, Bool, true, false, Option, none, some, List, [], ◌∷◌, ◌==◌, if◌then◌else◌, Rc, ok, failed,
  length, Run, done, ◌>>=◌,
}
use mosys.Eeprom.{Eeprom, EepromRegion, EepromDev, elog_find_log_in_flash}
use mosys.Elog.Entry.{sizeof_elog_header, Clock}
use mosys.Elog.Iterator.{Fetched}
use mosys.Elog.Manual.{LogCb, Reply, elog_add_event_manually}

module _ {W : Type 0} (dev : EepromDev W) (eeproms : List Eeprom) where
  -- `none` is -1.
  unfoldable pub elog_fetch_from_flash : W → Option Fetched
  elog_fetch_from_flash w = elim (elog_find_log_in_flash eeproms) [
    | none ↦ none
    | some (eeprom, reg) ↦ elim (dev.read_by_name w eeprom reg.name) [
      | none ↦ none
      | some bytes ↦ some (record {
        bytes = bytes;
        len = length bytes;
        header_offset = 0;
        data_offset = sizeof_elog_header;
      })
    ]
  ]

  unfoldable pub elog_write_to_flash : W → List ℕ → ℕ → Rc × W
  elog_write_to_flash w bytes len = elim (elog_find_log_in_flash eeproms) [
    | none ↦ (failed, w)
    | some (eeprom, reg) ↦
        let (written, w') = dev.write_by_name w eeprom reg.name bytes in
        elim written [ none ↦ (failed, w') | some n ↦ if n == len then (ok, w') else (failed, w') ]
  ]

  -- The callbacks of a platform that keeps its log in flash.
  abbrev pub flash_log : LogCb W
  flash_log = record { fetch = some elog_fetch_from_flash; write = some elog_write_to_flash }

-- An event to add: its type, its data, and what the clock gives while it is added.
pub record Event : Type 0 where
  pub type : ℕ
  pub bytes : List ℕ
  pub clear_clock : Clock
  pub clock : Clock

-- Events that are added one after another, with what each call returns.
module _ {W : Type 0} (cb : LogCb W) where
  unfoldable pub add_events : W → List Event → Run (List Reply × W)
  add_events w [] = done ([], w)
  add_events w (e ∷ es) = do
    (reply, w') ← elog_add_event_manually cb w e.type e.bytes e.clear_clock e.clock
    (replies, w'') ← add_events w' es
    done (reply ∷ replies, w'')
