-- ===== src/Elog/Listing.antt =====
-- core/command/eventlog.c: the callback of `eventlog list`, which prints the records of one entry.
pub mod Numbering
pub mod Count
mod Tests
use mosys.Common.{
  ℕ, ◌+◌, Bool, true, false, not, Option, none, some, List, [], ◌∷◌, ◌++◌, leb, ◌==◌, if◌then◌else◌,
  Run, done, ◌>>=◌, length,
}
use mosys.Elog.Entry.{entry_type, entry_length, elog_verify}
use mosys.Elog.Iterator.{Callback, minus_one}
use mosys.Elog.Report.{
  ValStr, Value, text, fmt, Pairs, add, smbios_get_event_type_string, elog_print_type,
  elog_print_data, elog_print_multi,
}

-- The callbacks of a platform's event log that list an entry; a null one is `none`.
pub record ListCb : Type 0 where
  pub verify : Option (List ℕ → Run Bool)
  pub print_multi : Option (List ℕ → ℕ → Run (List Pairs))
  pub print_type : Option (List ℕ → Pairs → Bool × Pairs)
  pub print_data : Option (List ℕ → Pairs → Run Pairs)

-- What has been printed, and the number of the next record.
pub record Listing : Type 0 where
  pub entry_count : ℕ
  pub printed : List Pairs

-- `print_rc` is what `kv_pair_print` returns for a record.
module _ (v : ValStr) (stamp : List ℕ → Value) (print_rc : Pairs → ℕ) (cb : ListCb) where
  -- The pairs of the record, once it is known that one is printed.
  unfoldable pub single_record : List ℕ → ℕ → Run Pairs
  single_record entry n =
      let head = ("entry", fmt "%d" (n ∷ [])) ∷ ("timestamp", stamp entry) ∷ [] in
      let unnamed =
        add head "type"
          (text (elim (smbios_get_event_type_string v entry) [ none ↦ "Unknown" | some s ↦ s ])) in
      let typed : Pairs = elim cb.print_type [
        | none ↦ unnamed
        | some print_type ↦
            let (handled, kv) = print_type entry head in
            if handled
            then kv
            else add kv "type" (
                text
                  (elim (smbios_get_event_type_string v entry) [ none ↦ "Unknown" | some s ↦ s ]))
      ] in
      elim cb.print_data [ none ↦ done typed | some print_data ↦ print_data entry typed ]

  unfoldable pub print_single : Callback Listing
  print_single entry s = single_record entry s.entry_count >>= λ kv. done (
    print_rc kv,
    record { entry_count = s.entry_count + 1; printed = s.printed ++ (kv ∷ []) },
    false,
  )

  unfoldable pub eventlog_smbios_list_callback : Callback Listing
  eventlog_smbios_list_callback entry s =
      if entry_length entry == 0
      then done (minus_one, s, true)
      else ((if leb 0x80 (entry_type entry)
            then elim cb.verify [ none ↦ done true | some verify ↦ verify entry ]
            else done true)
          >>= λ valid.
              if not valid
              then done (0, s, false)
              else (elim cb.print_multi [ none ↦ done [] | some print ↦ print entry s.entry_count ]
                  >>= λ records. elim records [
                    | [] ↦ print_single entry s
                    | r ∷ rs ↦ done (
                      0,
                      record {
                        entry_count = s.entry_count + length (r ∷ rs);
                        printed = s.printed ++ (r ∷ rs);
                      },
                      false,
                    )
                  ]))

-- The callbacks of the platforms that keep this library's event log.
abbrev pub elog_list_cb : ValStr → (List ℕ → Value) → ListCb
elog_list_cb v stamp = record {
  verify = some elog_verify;
  print_multi = some (elog_print_multi v stamp);
  print_type = some (λ entry kv. (true, elog_print_type v entry kv));
  print_data = some (elog_print_data v);
}
