-- ===== src/Elog/Listing/Count.antt =====
-- The count of the records that `eventlog list` keeps: the callback of core/command/eventlog.c over
-- the callbacks of lib/eventlog/elog.c.
use mosys.Common.{
  ℕ, ◌+◌, ◌≡◌, Bool, true, false, not, List, [], ◌∷◌, ◌++◌, leb, ◌==◌, if◌then◌else◌, Run, done,
  fault, out_of_fuel, ◌>>=◌, length, length-append, arith,
}
use mosys.Elog.Entry.{entry_type, entry_length, elog_verify}
use mosys.Elog.Report.{ValStr, Value, Pairs}
use mosys.Elog.Listing.{Listing, elog_list_cb, eventlog_smbios_list_callback, print_single}
use mosys.Elog.Listing.Numbering.{
  Leads, Numbered, Numbered-append, Shown, Returns, Returns-bind, Returns-if, Returns-done,
  multi-Shown, single_record-Leads,
}

-- The listing so far is numbered from 0, and its count is the number of its records.
pub record IsListing (s : Listing) : Type 0 where
  pub counted : s.entry_count ≡ length s.printed
  pub ordered : Numbered 0 s.printed

abbrev Keeps : ℕ × Listing × Bool → Type 0
Keeps r = IsListing r.1

module _ (v : ValStr) (stamp : List ℕ → Value) (print_rc : Pairs → ℕ) where
  list_more :
      (s : Listing) (records : List Pairs)
      → IsListing s
      → Numbered s.entry_count records
      → IsListing
          record { entry_count = s.entry_count + length records; printed = s.printed ++ records }
  list_more s records h k = record {
    counted = omega (arith, h.counted, length-append s.printed records);
    ordered =
        Numbered-append s.printed records 0 s.entry_count (omega (arith, h.counted)) h.ordered k;
  }

  print_single-IsListing :
      (entry : List ℕ) (s : Listing)
      → IsListing s
      → Returns Keeps (print_single v stamp print_rc (elog_list_cb v stamp) entry s)
  unfolding print_single
  print_single-IsListing entry s h = go _ (single_record-Leads v entry s.entry_count stamp print_rc)
    where
      go :
          (r : Run Pairs)
          → Returns (Leads s.entry_count) r
          → Returns Keeps (
              r >>= λ kv. done (
                print_rc kv,
                record { entry_count = s.entry_count + 1; printed = s.printed ++ (kv ∷ []) },
                false,
              ))
      go (done kv) leads = list_more s (kv ∷ []) h (leads, tt)
      go fault leads = tt
      go out_of_fuel leads = tt

  list_entry-IsListing :
      (entry : List ℕ) (s : Listing)
      → IsListing s
      → Returns Keeps
          (eventlog_smbios_list_callback v stamp print_rc (elog_list_cb v stamp) entry s)
  unfolding eventlog_smbios_list_callback
  list_entry-IsListing entry s h = Returns-if Keeps (entry_length entry == 0) _ _ h (
      Returns-bind Keeps (if leb 0x80 (entry_type entry) then elog_verify entry else done true) _
        (λ valid.
          Returns-if Keeps (not valid) _ _ h (printed _ (multi-Shown v stamp entry s.entry_count))))
    where
      printed :
          (r : Run (List Pairs))
          → Returns (Shown v stamp entry s.entry_count 7) r
          → Returns Keeps (
              r >>= λ records. elim records [
                | [] ↦ print_single v stamp print_rc (elog_list_cb v stamp) entry s
                | kv ∷ rest ↦ done (
                  0,
                  record {
                    entry_count = s.entry_count + length (kv ∷ rest);
                    printed = s.printed ++ (kv ∷ rest);
                  },
                  false,
                )
              ])
      printed (done []) shown = print_single-IsListing entry s h
      printed (done (kv ∷ rest)) shown = list_more s (kv ∷ rest) h shown.numbered
      printed fault shown = tt
      printed out_of_fuel shown = tt

-- Whatever one call of the listing's callback returns, the records printed so far are numbered 0, 1,
-- 2 and so on, without a gap, and the count is their number, if that was so before the call. An
-- entry that is printed as several records, as one record or not at all is all the same.
pub eventlog_smbios_list_callback-IsListing :
    (v : ValStr) (stamp : List ℕ → Value) (print_rc : Pairs → ℕ) (entry : List ℕ) (s : Listing)
    → (result : ℕ × Listing × Bool) → IsListing s
    → eventlog_smbios_list_callback v stamp print_rc (elog_list_cb v stamp) entry s ≡ done result
    → IsListing result.1
eventlog_smbios_list_callback-IsListing v stamp print_rc entry s result h e =
    Returns-done Keeps _ result (list_entry-IsListing v stamp print_rc entry s h) e
