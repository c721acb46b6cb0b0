-- ===== src/Elog/Tests.antt =====
-- Runs of the entries and the iterator of lib/eventlog, on a log with one entry.
use mosys.Common.{
  ℕ, ◌+◌, ◌==◌, ◌≡◌, ◌≢◌, refl, true, none, some, [], ◌∷◌, done, out_of_fuel, ◌>>=◌, arith, inr,
}
use mosys.Elog.Entry.{elog_prepare_entry, elog_verify, entry_length}
use mosys.Elog.Entry.Prepare.{elog_verify-elog_prepare_entry}
use mosys.Elog.Iterator.{Callback, smbios_eventlog_foreach_event}
use mosys.Elog.Iterator.Parse.{fold_events, smbios_eventlog_foreach_event-fold}
use mosys.Elog.Iterator.Progress.{smbios_eventlog_foreach_event_ends, StopsAtZero}
use mosys.Elog.Manual.{elog_events_size}
use mosys.Elog.Manual.Layout.{erased}
use mosys.Elog.Samples.{noon, boot, one_entry, one_entry-HoldsLog}

smbios_eventlog_foreach_event-fold_example :
    smbios_eventlog_foreach_event (some one_entry) none elog_events_size 0
    ≡ fold_events elog_events_size (boot ∷ []) (erased 107) 0 0
smbios_eventlog_foreach_event-fold_example =
    smbios_eventlog_foreach_event-fold elog_events_size one_entry (boot ∷ []) (erased 107) 0
      one_entry-HoldsLog

-- A callback that counts entries and completes the walk at one of length 0.
abbrev counting : Callback ℕ
counting entry n = done (0, n + 1, entry_length entry == 0)

counting-StopsAtZero : StopsAtZero counting
counting-StopsAtZero entry n = inr ((0, n + 1, entry_length entry == 0), refl, λ e. rw e refl)

smbios_eventlog_foreach_event_ends_example :
    smbios_eventlog_foreach_event (some one_entry) none counting 0 ≢ out_of_fuel
smbios_eventlog_foreach_event_ends_example =
    smbios_eventlog_foreach_event_ends counting (some one_entry) none 0 counting-StopsAtZero

elog_verify-elog_prepare_entry_example :
    (elog_prepare_entry (erased 20) 0x9d (3 ∷ []) noon >>= λ r. elog_verify r.1) ≡ done true
elog_verify-elog_prepare_entry_example =
    elog_verify-elog_prepare_entry (erased 20) (3 ∷ []) 0x9d noon (omega arith) (omega arith) refl
