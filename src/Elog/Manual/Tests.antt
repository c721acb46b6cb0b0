-- ===== src/Elog/Manual/Tests.antt =====
-- Runs of the code of lib/eventlog/elog.c that adds events and clears the log.
use mosys.Common.{ℕ, ◌≡◌, refl, Option, some, List, [], ◌∷◌, done, Rc, ok, take, arith}
use mosys.Elog.Entry.Prepare.{image}
use mosys.Elog.Iterator.{Fetched}
use mosys.Elog.Manual.{LogCb, CopyParams, elog_add_event_manually, elog_clear_manually, store}
use mosys.Elog.Manual.{success}
use mosys.Elog.Manual.Writes.{returned, OneWrite, elog_add_event_manually-OneWrite}
use mosys.Elog.Manual.Layout.{Holds, snoc, erased}
use mosys.Elog.Manual.Room.{entries_after}
use mosys.Elog.Manual.Shrink.{clear_entry}
use mosys.Elog.Manual.Add.{elog_add_event_manually-Holds, event_size_of}
use mosys.Elog.Manual.Clear.{elog_clear_manually-Holds}
use mosys.Elog.Samples.{noon, boot, boot_log, one_entry, one_entry-Holds}

-- A platform whose state is the log that it was written last.
abbrev keep_log : List ℕ → List ℕ → ℕ → Rc × List ℕ
keep_log w buf len = (ok, buf)

abbrev fetch_one : List ℕ → Option Fetched
fetch_one w = some one_entry

elog_add_event_manually-Holds_example :
    (buf : List ℕ) × (free' : ℕ) × (elog_add_event_manually
        (record { fetch = some fetch_one; write = some keep_log })
        boot_log
        0x98
        (2 ∷ 0 ∷ [])
        noon
        noon
      ≡ done (store keep_log boot_log buf 128))
    × Holds
        (record one_entry { bytes = buf })
        (snoc
          (entries_after 128 (boot ∷ []) (event_size_of (2 ∷ 0 ∷ [])) noon)
          (image 0x98 (2 ∷ 0 ∷ []) noon))
        free'
    × (take 8 buf ≡ take 8 boot_log)
elog_add_event_manually-Holds_example =
    elog_add_event_manually-Holds fetch_one keep_log boot_log one_entry (boot ∷ []) 107 0x98
      (2 ∷ 0 ∷ []) noon noon refl one_entry-Holds (omega arith) (omega arith) (omega arith)
      (omega arith) (omega arith) (λ e. omega (arith, e)) refl refl

elog_clear_manually-Holds_example :
    (buf : List ℕ) × (elog_clear_manually
        (record { fetch = some fetch_one; write = some keep_log })
        boot_log
        noon
      ≡ done (store keep_log boot_log buf 128))
    × Holds (record one_entry { bytes = buf }) (clear_entry 13 noon ∷ []) 107
    × (take 8 buf ≡ take 8 boot_log)
elog_clear_manually-Holds_example =
    elog_clear_manually-Holds fetch_one keep_log boot_log one_entry (boot ∷ []) 107 noon refl
      one_entry-Holds (omega arith) (omega arith) refl

abbrev copy_start : CopyParams
copy_start = record { new_data = erased 60; dest = 0; to_skip = 10; skipped = 0 }

abbrev keeper : LogCb (List ℕ)
keeper = record { fetch = some fetch_one; write = some keep_log }

one_added :
    (buf : List ℕ) × (elog_add_event_manually keeper boot_log 0x98 (2 ∷ 0 ∷ []) noon noon
      ≡ returned success buf)
unfolding store
one_added =
    let (buf, free', added, held, header) =
      elog_add_event_manually-Holds fetch_one keep_log boot_log one_entry (boot ∷ []) 107 0x98
        (2 ∷ 0 ∷ []) noon noon refl one_entry-Holds (omega arith) (omega arith) (omega arith)
        (omega arith) (omega arith) (λ e. omega (arith, e)) refl refl in
    (buf, added)

elog_add_event_manually-OneWrite_example : OneWrite keeper boot_log success one_added.0
elog_add_event_manually-OneWrite_example =
    elog_add_event_manually-OneWrite keeper boot_log 0x98 (2 ∷ 0 ∷ []) noon noon success one_added.0
      one_added.1

one_cleared : (buf : List ℕ) × (elog_clear_manually keeper boot_log noon ≡ returned success buf)
unfolding store
one_cleared =
    let (buf, cleared, held, header) =
      elog_clear_manually-Holds fetch_one keep_log boot_log one_entry (boot ∷ []) 107 noon refl
        one_entry-Holds (omega arith) (omega arith) refl in
    (buf, cleared)
