-- ===== src/Elog/Smbios/Fetch.antt =====
-- Where `elog_fetch_from_smbios` of lib/eventlog/elog.c finds the event log.
use mosys.Common.{
  ℕ, zero, suc, ◌+◌, ◌≡◌, refl, ap, ◌∙◌, Option, none, some, List, [], ◌∷◌, ◌++◌, Run, done, get_or,
  ◌==◌, ◌&&◌, if◌then◌else◌, drop, replicate, arith,
}
use mosys.Smbios.Entry.{Machine, word16_at, word32_at}
use mosys.Smbios.Table.{SmbiosIterator, SmbiosTable}
use mosys.Smbios.Table.Layout.{Structure, find_structure}
use mosys.Smbios.Table.Walk.{move_to}
use mosys.Smbios.Table.Find.{table_result, smbios_find_table-Holds}
use mosys.Smbios.Table.Setup.{Firmware, fresh, fresh-Holds, smbios_find_table_first}
use mosys.Elog.Smbios.{
  SmbiosTableLog, FetchedLog, table_log, read_log, elog_fetch_from_smbios, smbios_type_log,
  smbios_legacy_entry_base, smbios_legacy_entry_len,
}

-- A table of type 15 as the SMBIOS specification lays it out, the header included.
abbrev pub log_fields : List ℕ → SmbiosTableLog
log_fields formatted = record {
  log_length = word16_at formatted 4;
  header_start = word16_at formatted 6;
  data_start = word16_at formatted 8;
  method = get_or formatted 10 0;
  mem = word32_at formatted 16;
  header_format = get_or formatted 20 0;
}

get_or-zeros : (n i : ℕ) → get_or {A = ℕ} (replicate n 0) i 0 ≡ 0
get_or-zeros zero i = refl
get_or-zeros (suc n) zero = refl
get_or-zeros (suc n) (suc i) = get_or-zeros n i

get_or-padded : (xs : List ℕ) (n i : ℕ) → get_or {A = ℕ} (xs ++ replicate n 0) i 0 ≡ get_or xs i 0
get_or-padded [] n i = get_or-zeros n i
get_or-padded (x ∷ xs) n zero = refl
get_or-padded (x ∷ xs) n (suc i) = get_or-padded xs n i

get_or-body :
    (f : List ℕ) (n i : ℕ) → get_or {A = ℕ} (drop 4 f ++ replicate n 0) i 0 ≡ get_or f (4 + i) 0
get_or-body f n i = get_or-padded (drop 4 f) n i ∙ skip 4 f
  where
    skip : (k : ℕ) (xs : List ℕ) → get_or {A = ℕ} (drop k xs) i 0 ≡ get_or xs (k + i) 0
    skip zero xs = ap (λ j. get_or xs j 0) (omega arith)
    skip (suc k) [] = refl
    skip (suc k) (x ∷ xs) =
        let next : suc (k + i) ≡ suc k + i = omega arith in
        skip k xs ∙ ap (λ j. get_or (x ∷ xs) j 0) next

table_log-body : (f : List ℕ) (n : ℕ) → table_log (drop 4 f ++ replicate n 0) ≡ log_fields f
table_log-body f n =
    rw
      (
        get_or-body f n 0,
        get_or-body f n 1,
        get_or-body f n 2,
        get_or-body f n 3,
        get_or-body f n 4,
        get_or-body f n 5,
        get_or-body f n 6,
        get_or-body f n 12,
        get_or-body f n 13,
        get_or-body f n 14,
        get_or-body f n 15,
        get_or-body f n 16,
      )
      refl

-- The log of a supported format that lies in memory, if it can be read.
abbrev pub log_told : (ℕ → ℕ → Option (List ℕ)) → SmbiosTableLog → Option FetchedLog
log_told mmio_read log =
    if (log.header_format == 0x88) && (log.method == 3)
    then elim (mmio_read log.mem log.log_length) [
      | none ↦ none
      | some bytes ↦
          some (record {
            bytes = bytes;
            header_offset = log.header_start;
            data_offset = log.data_start;
          })
    ]
    else none

read_log-log_told :
    (mmio_read : ℕ → ℕ → Option (List ℕ)) (log : SmbiosTableLog)
    → read_log mmio_read log ≡ log_told mmio_read log
unfolding read_log
read_log-log_told mmio_read log = ground arith

abbrev pub fetch_result :
    (ℕ → ℕ → Option (List ℕ))
    → SmbiosIterator
    → Option (ℕ × Structure)
    → Option FetchedLog × Option SmbiosIterator
fetch_result mmio_read itr none = (none, some (move_to itr 0))
fetch_result mmio_read itr (some (offset, s)) =
    (log_told mmio_read (log_fields s.formatted), some (move_to itr offset))

fetched :
    (ℕ → ℕ → Option (List ℕ))
    → Option SmbiosTable × Option SmbiosIterator
    → Run (Option FetchedLog × Option SmbiosIterator)
fetched mmio_read (found, st') = elim found [
  | none ↦ done (none, st')
  | some table ↦ done (read_log mmio_read (table_log table.table_data), st')
]

fetched-table_result :
    (mmio_read : ℕ → ℕ → Option (List ℕ)) (itr : SmbiosIterator) (o : Option (ℕ × Structure))
    → fetched mmio_read (table_result itr o) ≡ done (fetch_result mmio_read itr o)
unfolding fetched
fetched-table_result mmio_read itr none = refl
fetched-table_result mmio_read itr (some (offset, s)) =
    ap (λ log. done (read_log mmio_read log, some (move_to itr offset)))
      (table_log-body s.formatted _)
    ∙ ap (λ told. done (told, some (move_to itr offset)))
        (read_log-log_told mmio_read (log_fields s.formatted))

-- The first time it is called, `elog_fetch_from_smbios` reads the log where the first table of type 15
-- says, by the fields at the offsets of the SMBIOS specification, if its format and access method are
-- the supported ones; without such a table it returns -1.
pub elog_fetch_from_smbios-Firmware :
    (mmio_read : ℕ → ℕ → Option (List ℕ)) (m : Machine) (entry : List ℕ) (s : Structure)
    (ss : List Structure)
    → Firmware m smbios_legacy_entry_base smbios_legacy_entry_len entry (s ∷ ss)
    → elog_fetch_from_smbios mmio_read m none
      ≡ done (
          fetch_result mmio_read
            (fresh entry (s ∷ ss))
            (find_structure smbios_type_log 0 0 (s ∷ ss)))
unfolding elog_fetch_from_smbios fetched
elog_fetch_from_smbios-Firmware mmio_read m entry s ss h =
    rw
      (
        smbios_find_table_first m smbios_legacy_entry_base smbios_legacy_entry_len smbios_type_log 0
            entry (s ∷ ss) h (omega arith),
        smbios_find_table-Holds m (fresh entry (s ∷ ss)) s ss smbios_type_log 0
            smbios_legacy_entry_base smbios_legacy_entry_len
            (fresh-Holds m smbios_legacy_entry_base smbios_legacy_entry_len entry (s ∷ ss) h)
            (omega arith),
      )
      (fetched-table_result mmio_read (fresh entry (s ∷ ss))
        (find_structure smbios_type_log 0 0 (s ∷ ss)))
