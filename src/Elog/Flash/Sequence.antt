-- ===== src/Elog/Flash/Sequence.antt =====
-- Any number of events can be added to an event log in flash, by lib/eventlog/elog.c.
use mosys.Common.{
  ℕ, ◌+◌, ◌*◌, ◌/◌, ◌≤◌, ◌<◌, ◌^◌, ◌≡◌, ◌≢◌, refl, sym, ap, ◌∙◌, false, some, List, [], ◌∷◌, length,
  length-append, done, arith, eqb_refl, u8, u32, le32, Bool-cases, inl, inr, ltb→lt, ltb→ge,
}
use mosys.Eeprom.{Eeprom, EepromRegion, EepromDev, ReadsBack, elog_find_log_in_flash}
use mosys.Elog.Entry.{sizeof_elog_header, type_endlog, type_logclear}
use mosys.Elog.Entry.Prepare.{image, length-image}
use mosys.Elog.Iterator.{Fetched}
use mosys.Elog.Iterator.Parse.{join}
use mosys.Elog.Manual.{Reply, success, store}
use mosys.Elog.Manual.Copy.{kept, dropped, kept-dropped, dropped_enough}
use mosys.Elog.Manual.Layout.{Holds, snoc, join-snoc, shape}
use mosys.Elog.Manual.Room.{entries_after, is_full}
use mosys.Elog.Manual.Shrink.{clear_entry}
use mosys.Elog.Manual.Add.{elog_add_event_manually-Holds, event_size_of}
use mosys.Elog.Flash.{elog_fetch_from_flash, elog_write_to_flash, flash_log, Event, add_events}

-- An event that a log takes: its entry fits a byte and, with a clear entry, a quarter of the log; it
-- is no end mark; and the clock works.
pub record Fits (len : ℕ) (e : Event) : Type 0 where
  pub byte : event_size_of e.bytes ≤ 255
  pub quarter : 13 + event_size_of e.bytes ≤ len / 4
  pub live : u8 e.type ≢ type_endlog
  pub clear_works : e.clear_clock.broken ≡ false
  pub works : e.clock.broken ≡ false

-- If the entries take no more than three quarters of the log, so they do with the new event.
pub entries_after-bounded :
    (f : Fetched) (es : List (List ℕ)) (e : Event)
    → f.len < 2 ^ 32
    → Fits f.len e
    → length (join es) ≤ f.len * 3 / 4
    → length (
        join (
          snoc
            (entries_after f.len es (event_size_of e.bytes) e.clear_clock)
            (image e.type e.bytes e.clock)))
      ≤ f.len * 3 / 4
entries_after-bounded f es e small h bound =
    elim (Bool-cases (is_full f.len es (event_size_of e.bytes))) [
      | inl full ↦ rw full (
          omega (
            arith,
            h.quarter,
            ltb→lt _ _ full,
            ap length (join-snoc (snoc left clear) img),
            length-append (join (snoc left clear)) img,
            ap length (join-snoc left clear),
            length-append (join left) clear,
            length-image type_logclear (le32 (u32 (dropped (f.len / 4) 0 es))) e.clear_clock,
            length-image e.type e.bytes e.clock,
            kept-dropped (f.len / 4) 0 es,
            dropped_enough (f.len / 4) 0 es (omega (arith, h.quarter, ltb→lt _ _ full)),
          ))
      | inr spare ↦ rw spare (
          omega (
            arith,
            ltb→ge _ _ spare,
            ap length (join-snoc es img),
            length-append (join es) img,
            length-image e.type e.bytes e.clock,
          ))
    ]
  where
    left : List (List ℕ)
    left = kept (f.len / 4) 0 es

    clear : List ℕ
    clear = clear_entry (dropped (f.len / 4) 0 es) e.clear_clock

    img : List ℕ
    img = image e.type e.bytes e.clock

abbrev pub AllFit : ℕ → List Event → Type 0
AllFit len [] = Unit
AllFit len (e ∷ evs) = Fits len e × AllFit len evs

-- The entries of a log of `len` bytes after the events, from the entries before them.
abbrev pub log_after : ℕ → List (List ℕ) → List Event → List (List ℕ)
log_after len es [] = es
log_after len es (e ∷ evs) =
    log_after len
      (snoc (entries_after len es (event_size_of e.bytes) e.clear_clock)
        (image e.type e.bytes e.clock))
      evs

abbrev pub successes : List Event → List Reply
successes [] = []
successes (e ∷ evs) = success ∷ successes evs

module _ {W : Type 0} (dev : EepromDev W) (eeproms : List Eeprom) (eeprom : Eeprom)
    (reg : EepromRegion) (law : ReadsBack dev)
    (found : elog_find_log_in_flash eeproms ≡ some (eeprom, reg)) where
  abbrev as_log : List ℕ → ℕ → Fetched
  as_log bytes len = record {
    bytes = bytes;
    len = len;
    header_offset = 0;
    data_offset = sizeof_elog_header;
  }

  fetch_region :
      (w : W) (bytes : List ℕ)
      → dev.read_by_name w eeprom reg.name ≡ some bytes
      → elog_fetch_from_flash dev eeproms w ≡ some (as_log bytes (length bytes))
  unfolding elog_fetch_from_flash
  fetch_region w bytes now = rw (found, elog_fetch_from_flash, now, elog_fetch_from_flash) refl

  store_region :
      (w : W) (bytes old : List ℕ)
      → dev.read_by_name w eeprom reg.name ≡ some old
      → length bytes ≡ length old
      → store (elog_write_to_flash dev eeproms) w bytes (length old)
        ≡ (success, (dev.write_by_name w eeprom reg.name bytes).1)
  unfolding elog_write_to_flash store
  store_region w bytes old now same =
      rw
        (
          found,
          elog_write_to_flash,
          law.count w eeprom reg.name bytes old now same,
          same,
          eqb_refl (length old),
        )
        refl

  -- Over flash that reads back what it was written with, with a log region of `len` bytes, 128 or
  -- more, that holds a well-formed log of no more than three quarters of its size: any events that
  -- fit are all added with success, and the region then holds the well-formed log of the entries
  -- `log_after`, again of no more than three quarters.
  pub add_events-log_after :
      (evs : List Event) (len : ℕ) (w : W) (bytes : List ℕ) (es : List (List ℕ)) (free : ℕ)
      → dev.read_by_name w eeprom reg.name ≡ some bytes
      → Holds (as_log bytes len) es free
      → 128 ≤ len
      → len < 2 ^ 32
      → length (join es) ≤ len * 3 / 4
      → AllFit len evs
      → (w' : W) × (bytes' : List ℕ) × (free' : ℕ) × (add_events (flash_log dev eeproms) w evs
          ≡ done (successes evs, w'))
        × (dev.read_by_name w' eeprom reg.name ≡ some bytes')
        × Holds (as_log bytes' len) (log_after len es evs) free'
        × (length (join (log_after len es evs)) ≤ len * 3 / 4)
  unfolding add_events
  add_events-log_after [] len w bytes es free now h large small bound fit =
      (w, bytes, free, refl, now, h, bound)
  add_events-log_after (e ∷ evs) len w bytes es free now h large small bound fit =
      let (buf, free', added, held, header) =
        elog_add_event_manually-Holds (elog_fetch_from_flash dev eeproms)
          (elog_write_to_flash dev eeproms) w (as_log bytes len) es free e.type e.bytes
          e.clear_clock e.clock
          (fetch_region w bytes now ∙ ap (λ n. some (as_log bytes n)) (sym h.whole)) h small
          (omega arith) (omega (arith, (shape (as_log bytes len) es free h).total)) fit.0.byte
          (omega (arith, fit.0.quarter)) fit.0.live fit.0.clear_works fit.0.works in
      let same : length buf ≡ length bytes = sym held.whole ∙ h.whole in
      let w₁ : W = (dev.write_by_name w eeprom reg.name buf).1 in
      let stored : store (elog_write_to_flash dev eeproms) w buf len ≡ (success, w₁) =
        ap (store (elog_write_to_flash dev eeproms) w buf) h.whole
        ∙ store_region w buf bytes now same in
      let (w', bytes', free'', rest_added, now', held', bound') =
        add_events-log_after evs len w₁ buf _ free'
          (law.read_back w eeprom reg.name buf bytes now same) held large small
          (entries_after-bounded (as_log bytes len) es e small fit.0 bound) fit.1 in
      (w', bytes', free'', rw (added, stored, rest_added) refl, now', held', bound')
