-- ===== src/Elog/Manual.antt =====
-- lib/eventlog/elog.c: adding an event to a log that is fetched and written back whole, and clearing
-- it. A platform's callbacks are a record over the state `W` of what they act on.
pub mod Copy
pub mod Layout
pub mod Shrink
pub mod Room
pub mod Add
pub mod Clear
pub mod Writes
mod Tests
use mosys.Common.{
  ℕ, ◌+◌, ◌-◌, ◌*◌, ◌/◌, ◌%◌, ◌^◌, Bool, true, false, not, Option, none, some, List, [], ltb, leb,
  ◌==◌, if◌then◌else◌, Run, done, fault, access, ◌>>=◌, length, drop, take, replicate, ◌++◌, poke,
  peek, u32, u64, sub64, le32,
}
use mosys.Common.{Rc, ok, failed}
use mosys.Elog.Entry.{entry_length, sizeof_entry, type_logclear, Clock, elog_prepare_entry}
use mosys.Elog.Iterator.{Callback, minus_one, Fetched, smbios_eventlog_foreach_event}

-- `intf->cb->eventlog`; a null callback is `none`, and a `fetch` that fails delivers `none`.
pub record LogCb (W : Type 0) : Type 0 where
  pub fetch : Option (W → Option Fetched)
  pub write : Option (W → List ℕ → ℕ → Rc × W)

-- What a command returns: 0, or -1 with `errno` set to ENOSYS, to EINVAL, or not by the command.
pub data Reply : Type 0 where
  success : Reply
  enosys : Reply
  einval : Reply
  failure : Reply

-- `struct elog_copy_events_params`, with the buffer that `dest` points into.
pub record CopyParams : Type 0 where
  pub new_data : List ℕ
  pub dest : ℕ
  pub to_skip : ℕ
  pub skipped : ℕ

unfoldable pub elog_copy_events : Callback CopyParams
elog_copy_events entry params =
    if entry_length entry == 0
    then done (minus_one, params, true)
    else if ltb params.skipped params.to_skip
    then done (0, record params { skipped = params.skipped + entry_length entry }, false)
    else (access (peek entry (entry_length entry)) >>= λ bytes.
        access (poke params.new_data params.dest bytes) >>= λ copied.
        done
          (0, record params { new_data = copied; dest = params.dest + entry_length entry }, false))

unfoldable pub elog_events_size : Callback ℕ
elog_events_size entry events_size =
    if entry_length entry == 0
    then done (minus_one, events_size, true)
    else done (0, u64 (events_size + entry_length entry), false)

-- `elog_prepare_entry(data + offset, ...)`.
unfoldable pub prepare_at : List ℕ → ℕ → ℕ → List ℕ → Clock → Run (Rc × List ℕ)
prepare_at buf offset type bytes c =
    if leb offset (length buf)
    then (elog_prepare_entry (drop offset buf) type bytes c >>= λ (rc, filled).
        done (rc, take offset buf ++ filled))
    else fault

-- `malloc`, `memcpy` of the part before the entries, `memset` of the rest. All of it is
-- overwritten, so the zeros that stand for what `malloc` gave do not show.
unfoldable pub blank_log : Fetched → Run (List ℕ)
blank_log f = do
  kept ← access (peek f.bytes f.data_offset)
  copied ← access (poke (replicate f.len 0) 0 kept)
  access (poke copied f.data_offset (replicate (sub64 f.len f.data_offset) 0xff))

-- The copy of `w`'s log that drops the oldest entries, and the space that its entries take; `none`
-- is the -1 of a corrupt log.
module _ {W : Type 0} (fetch : W → Option Fetched) (w : W) where
  unfoldable pub shrink_log : Fetched → ℕ → ℕ → Clock → Run (Option (List ℕ × ℕ))
  shrink_log f shrink_size events_size c = do
    blank ← blank_log f
    (rc, params) ←
        smbios_eventlog_foreach_event (fetch w) none elog_copy_events
          (record { new_data = blank; dest = f.data_offset; to_skip = shrink_size; skipped = 0 })
    let skipped = u32 params.skipped
    let left = sub64 events_size skipped
    if not (rc == 0)
        then done none
        else (prepare_at params.new_data (f.data_offset + left) type_logclear (le32 skipped) c
            >>= λ (cleared, buf). done (some (buf, left + (sizeof_entry + 4 + 1))))

  -- The log to which the new event is added, and the space that its entries take.
  unfoldable pub make_room : Fetched → ℕ → ℕ → Clock → Run (Option (List ℕ × ℕ))
  make_room f events_size event_size c =
      if ltb (u64 (f.len * 3) / 4) (events_size + event_size)
      then shrink_log f (f.len / 4) events_size c
      else done (some (f.bytes, events_size))

  -- The new log, or `none` for the -1 of each failure on the way.
  unfoldable pub new_log : Fetched → ℕ → List ℕ → Clock → Clock → Run (Option (List ℕ))
  new_log f type event_data clear_clock c = do
    let event_size = sizeof_entry + length event_data + 1
    (rc, events_size) ← smbios_eventlog_foreach_event (fetch w) none elog_events_size 0
    if not (rc == 0)
        then done none
        else (make_room f events_size event_size clear_clock >>= λ room. elim room [
          | none ↦ done none
          | some (buf, used) ↦
              prepare_at buf (f.data_offset + used) type event_data c >>= λ (rc, filled).
              done (elim rc [ ok ↦ some filled | failed ↦ none ])
        ])

-- `write` and its return code.
unfoldable pub store {κ} : {W : Type κ} → (W → List ℕ → ℕ → Rc × W) → W → List ℕ → ℕ → Reply × W
store write w buf len =
    let (rc, w') = write w buf len in (elim rc [ ok ↦ success | failed ↦ failure ], w')

-- `time` is read once for the clear entry, if there is one, and once for the event.
unfoldable pub elog_add_event_manually :
    {W : Type 0} → LogCb W → W → ℕ → List ℕ → Clock → Clock → Run (Reply × W)
elog_add_event_manually cb w type event_data clear_clock c = elim cb.fetch [
  | none ↦ done (enosys, w)
  | some fetch ↦ elim cb.write [
    | none ↦ done (enosys, w)
    | some write ↦
        if ltb 0xff (sizeof_entry + length event_data + 1)
        then done (einval, w)
        else elim (fetch w) [
          | none ↦ done (failure, w)
          | some f ↦
              if ltb (f.len / 4) (sizeof_entry + length event_data + 1)
              then done (failure, w)
              else (new_log fetch w f type event_data clear_clock c >>= λ log. elim log [
                | none ↦ done (failure, w)
                | some buf ↦ done (store write w buf f.len)
              ])
        ]
  ]
]

-- The cleared log: no entry but the one that tells how many bytes were cleared.
unfoldable pub cleared_log :
    {W : Type 0} → (W → Option Fetched) → W → Fetched → Clock → Run (Option (List ℕ))
cleared_log fetch w f c = do
  blank ← blank_log f
  (rc, params) ← smbios_eventlog_foreach_event (fetch w) none elog_copy_events (record {
    new_data = blank;
    dest = f.data_offset;
    to_skip = sub64 f.len f.data_offset;
    skipped = 0;
  })
  (rc', buf) ← prepare_at params.new_data params.dest type_logclear (le32 (u32 params.skipped)) c
  done (elim rc' [ ok ↦ some buf | failed ↦ none ])

-- A corrupt log is cleared all the same.
unfoldable pub elog_clear_manually : {W : Type 0} → LogCb W → W → Clock → Run (Reply × W)
elog_clear_manually cb w c = elim cb.fetch [
  | none ↦ done (enosys, w)
  | some fetch ↦ elim cb.write [
    | none ↦ done (enosys, w)
    | some write ↦ elim (fetch w) [
      | none ↦ done (failure, w)
      | some f ↦ cleared_log fetch w f c >>= λ log. elim log [
        | none ↦ done (failure, w)
        | some buf ↦ done (store write w buf f.len)
      ]
    ]
  ]
]
