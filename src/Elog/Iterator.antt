-- ===== src/Elog/Iterator.antt =====
-- lib/eventlog/elog_smbios.c: the iterator over the entries of a log, and the loop that hands each
-- entry to a callback.
pub mod Parse
pub mod Progress
use mosys.Common.{
  ℕ, zero, suc, ◌+◌, ◌-◌, Bool, true, false, Option, none, some, List, leb, ◌==◌, if◌then◌else◌,
  Run, done, fault, out_of_fuel, access, ◌>>=◌, length, drop, bit_or, ◌^◌,
}
use mosys.Common.{Rc, ok, failed}
use mosys.Elog.Entry.{entry_type, entry_length, type_endlog}

-- `struct smbios_eventlog_iterator`. The `current_offset` of -1 is `none`. The numbers are int in the
-- source, so this is the iterator over a log of less than 2 ^ 31 bytes.
pub record LogIterator : Type 0 where
  pub log_area : List ℕ
  pub log_area_length : ℕ
  pub header_offset : ℕ
  pub data_offset : ℕ
  pub current_offset : Option ℕ

unfoldable pub smbios_eventlog_iterator_reset : LogIterator → LogIterator
smbios_eventlog_iterator_reset it = record it { current_offset = none }

unfoldable pub smbios_new_eventlog_iterator : List ℕ → ℕ → ℕ → ℕ → LogIterator
unfolding smbios_eventlog_iterator_reset
smbios_new_eventlog_iterator bytes len header_offset data_offset =
    smbios_eventlog_iterator_reset (record {
      log_area = bytes;
      log_area_length = len;
      header_offset = header_offset;
      data_offset = data_offset;
      current_offset = none;
    })

-- `next_offset`, from the entry that the iterator stands on.
abbrev pub next_offset : LogIterator → ℕ
next_offset it = elim it.current_offset [
  | none ↦ it.data_offset
  | some offset ↦ offset + entry_length (drop offset it.log_area)
]

-- The entry is the log area from its offset on; with it comes the advanced iterator.
unfoldable pub smbios_eventlog_get_next_entry : LogIterator → Option (List ℕ × LogIterator)
smbios_eventlog_get_next_entry it =
    let next = next_offset it in
    let entry = drop next it.log_area in
    if leb it.log_area_length next
    then none
    else if leb it.log_area_length (next + 1 + 1)
    then none
    else if entry_type entry == type_endlog
    then none
    else if leb it.log_area_length (entry_length entry + next)
    then none
    else some (entry, record it { current_offset = some next })

-- The entry, if there is one, and the iterator afterwards.
unfoldable pub smbios_eventlog_get_current_entry : LogIterator → Option (List ℕ × LogIterator)
smbios_eventlog_get_current_entry it = elim it.current_offset [
  | none ↦ smbios_eventlog_get_next_entry it
  | some offset ↦ some (drop offset it.log_area, it)
]

-- `none` when the log has no header.
unfoldable pub smbios_eventlog_get_header : LogIterator → Option (List ℕ)
smbios_eventlog_get_header it =
    if it.header_offset == it.data_offset then none else some (drop it.header_offset it.log_area)

-- `-1` as the machine word that `|=` works on.
abbrev pub minus_one : ℕ
minus_one = 2 ^ 32 - 1

-- What a callback gives: its return code, the new state of `arg`, and `*complete`.
abbrev pub Callback : Type 0 → Type 0
Callback S = List ℕ → S → Run (ℕ × S × Bool)

module _ {S : Type 0} (callback : Callback S) where
  -- `while ((entry = get_next_entry(it)) != NULL)`, with fuel.
  unfoldable pub foreach_loop : ℕ → LogIterator → S → ℕ → Run (ℕ × S)
  foreach_loop zero it s ret = out_of_fuel
  foreach_loop (suc fuel) it s ret = elim (smbios_eventlog_get_next_entry it) [
    | none ↦ done (ret, s)
    | some (entry, it') ↦ callback entry s >>= λ (rc, s', complete).
        let rest = foreach_loop fuel it' s' (bit_or ret rc) in
        if complete then done (bit_or ret rc, s') else rest
  ]

-- What the platform's `fetch` callback delivers.
pub record Fetched : Type 0 where
  pub bytes : List ℕ
  pub len : ℕ
  pub header_offset : ℕ
  pub data_offset : ℕ

-- `none` is a `fetch` that fails. The fuel is the length of the log and one: each round but the
-- last moves on by at least one byte, or stops.
unfoldable pub smbios_eventlog_foreach_event :
    {S : Type 0} → Option Fetched → Option (Option (List ℕ) → Rc) → Callback S → S → Run (ℕ × S)
smbios_eventlog_foreach_event none verify callback s = done (minus_one, s)
smbios_eventlog_foreach_event (some f) verify callback s =
    let it = smbios_new_eventlog_iterator f.bytes f.len f.header_offset f.data_offset in
    let walk = foreach_loop callback (suc f.len) it s 0 in
    elim verify [
      | none ↦ walk
      | some check ↦ elim (check (smbios_eventlog_get_header it)) [
        | failed ↦ done (minus_one, s)
        | ok ↦ walk
      ]
    ]
