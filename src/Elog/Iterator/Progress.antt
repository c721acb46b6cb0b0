-- ===== src/Elog/Iterator/Progress.antt =====
-- When the loop of `smbios_eventlog_foreach_event` in lib/eventlog/elog_smbios.c ends, on whatever
-- bytes a log holds.
use mosys.Common.{
  ℕ, zero, suc, ◌+◌, ◌-◌, ◌<◌, ◌≡◌, ◌≢◌, refl, ◌⊎◌, inl, inr, Bool, true, false, Option, none, some,
  List, Run, done, fault, out_of_fuel, drop, bit_or, arith, Bool-cases, Option-cases,
}
use mosys.Common.{Rc, ok, failed}
use mosys.Elog.Entry.{entry_type, entry_length, type_endlog}
use mosys.Elog.Iterator.{
  LogIterator, next_offset, smbios_eventlog_get_next_entry, Callback, foreach_loop, Fetched,
  smbios_eventlog_foreach_event, smbios_new_eventlog_iterator, smbios_eventlog_get_header,
  minus_one,
}

-- The entry that the iterator hands out lies within the log, with its type and length bytes, and
-- with the bytes that its length tells and at least one behind them.
get_next_entry_bounds :
    (it it' : LogIterator) (entry : List ℕ)
    → smbios_eventlog_get_next_entry it ≡ some (entry, it')
    → (entry ≡ drop (next_offset it) it.log_area)
      × (next_offset it + 2 < it.log_area_length)
      × (next_offset it + entry_length entry < it.log_area_length)
      × (it'.log_area_length ≡ it.log_area_length)
      × (next_offset it' ≡ next_offset it + entry_length entry)
unfolding smbios_eventlog_get_next_entry
get_next_entry_bounds it it' entry e = ground arith

module _ {S : Type 0} (callback : Callback S) where
  -- The callback returns, or faults, and completes the walk at an entry of length 0.
  abbrev pub StopsAtZero : Type 0
  StopsAtZero =
      (entry : List ℕ) (s : S)
      → (callback entry s ≡ fault)
        ⊎ ((r : ℕ × S × Bool) × (callback entry s ≡ done r) × (entry_length entry ≡ 0 → r.2 ≡ true))

  foreach_loop_ends :
      (stops : StopsAtZero) (fuel : ℕ) (it : LogIterator) (s : S) (ret : ℕ)
      → it.log_area_length - next_offset it < fuel
      → foreach_loop callback fuel it s ret ≢ out_of_fuel
  unfolding foreach_loop
  foreach_loop_ends stops zero it s ret h = elim h [ ]
  foreach_loop_ends stops (suc fuel) it s ret h =
      elim (Option-cases (smbios_eventlog_get_next_entry it)) [
        | inl last ↦ rw (last, foreach_loop) (λ e. cc)
        | inr (next, e) ↦
            rw (e, foreach_loop)
              (elim (stops next.0 s) [
                | inl broken ↦ rw broken (λ q. cc)
                | inr (r, eq, zero_stops) ↦ rw eq (elim (Bool-cases r.2) [
                  | inl complete ↦ rw complete (λ q. cc)
                  | inr goes_on ↦
                      let moved : entry_length next.0 ≢ 0 = λ q. cc (zero_stops q) in
                      rw goes_on (
                        foreach_loop_ends stops fuel next.1 r.1 (bit_or ret r.0)
                          (omega (arith, get_next_entry_bounds it next.1 next.0 e, moved)))
                ])
              ])
      ]

-- On any fetched bytes, well-formed or not, and with any check of the header, the walk ends if the
-- callback returns and completes it at an entry of length 0.
pub smbios_eventlog_foreach_event_ends :
    {S : Type 0} (callback : Callback S) (fetched : Option Fetched)
    (verify : Option (Option (List ℕ) → Rc)) (s : S)
    → StopsAtZero callback
    → smbios_eventlog_foreach_event fetched verify callback s ≢ out_of_fuel
unfolding smbios_eventlog_foreach_event smbios_new_eventlog_iterator
smbios_eventlog_foreach_event_ends callback none verify s stops = λ q. cc
smbios_eventlog_foreach_event_ends callback (some f) none s stops =
    foreach_loop_ends callback stops (suc f.len) _ s 0 (omega arith)
smbios_eventlog_foreach_event_ends {S} callback (some f) (some check) s stops =
    checked (check (smbios_eventlog_get_header it))
  where
    it : LogIterator
    it = smbios_new_eventlog_iterator f.bytes f.len f.header_offset f.data_offset

    walk : Run (ℕ × S)
    walk = foreach_loop callback (suc f.len) it s 0

    checked : (rc : Rc) → elim rc [ failed ↦ done (minus_one, s) | ok ↦ walk ] ≢ out_of_fuel
    checked failed = λ q. cc
    checked ok = foreach_loop_ends callback stops (suc f.len) it s 0 (omega arith)

-- The check for a length of 0 is needed: a callback that never completes a walk would be called for
-- ever at such an entry, with no fuel enough.
pub foreach_loop_zero_length :
    {S : Type 0} (callback : Callback S) (it : LogIterator)
    → ((entry : List ℕ) (s : S) → (rc : ℕ) × (s' : S) × (callback entry s ≡ done (rc, s', false)))
    → next_offset it + 2 < it.log_area_length
    → entry_type (drop (next_offset it) it.log_area) ≢ type_endlog
    → entry_length (drop (next_offset it) it.log_area) ≡ 0
    → (fuel : ℕ) (s : S) (ret : ℕ) → foreach_loop callback fuel it s ret ≡ out_of_fuel
unfolding foreach_loop
foreach_loop_zero_length callback it never inside live empty zero s ret = refl
foreach_loop_zero_length callback it never inside live empty (suc fuel) s ret =
    rw (again, foreach_loop)
      (rw ((never entry s).2) (
        foreach_loop_zero_length callback it' never (rw same inside) (rw same live) (rw same empty)
          fuel _ _))
  where
    entry : List ℕ
    entry = drop (next_offset it) it.log_area

    it' : LogIterator
    it' = record it { current_offset = some (next_offset it) }

    again : smbios_eventlog_get_next_entry it ≡ some (entry, it')
    again = unfold smbios_eventlog_get_next_entry in ground arith

    same : next_offset it' ≡ next_offset it
    same = omega (arith, empty)
