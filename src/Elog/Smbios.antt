-- ===== src/Elog/Smbios.antt =====
-- `elog_fetch_from_smbios` of lib/eventlog/elog.c: the event log in memory, where an SMBIOS table says.
pub mod Fetch
mod Tests
use mosys.Common.{
  ℕ, Option, none, some, List, ◌==◌, ◌||◌, not, if◌then◌else◌, Run, done, ◌>>=◌, get_or,
}
use mosys.Smbios.Entry.{Machine, word16_at, word32_at}
use mosys.Smbios.Table.{SmbiosIterator, SmbiosTable, smbios_find_table}

abbrev pub smbios_type_log : ℕ
smbios_type_log = 15

abbrev pub smbios_legacy_entry_base : ℕ
smbios_legacy_entry_base = 0xf0000

abbrev pub smbios_legacy_entry_len : ℕ
smbios_legacy_entry_len = 0x10000

abbrev pub elog_header_format : ℕ
elog_header_format = 0x88

abbrev pub smbios_log_method_type_mem : ℕ
smbios_log_method_type_mem = 3

-- `struct smbios_table_log`, the fields that the code reads.
pub record SmbiosTableLog : Type 0 where
  pub log_length : ℕ
  pub header_start : ℕ
  pub data_start : ℕ
  pub method : ℕ
  pub mem : ℕ
  pub header_format : ℕ

abbrev pub table_log : List ℕ → SmbiosTableLog
table_log bytes = record {
  log_length = word16_at bytes 0;
  header_start = word16_at bytes 2;
  data_start = word16_at bytes 4;
  method = get_or bytes 6 0;
  mem = word32_at bytes 12;
  header_format = get_or bytes 16 0;
}

-- What is written through the pointers.
pub record FetchedLog : Type 0 where
  pub bytes : List ℕ
  pub header_offset : ℕ
  pub data_offset : ℕ

-- `none` is -1. `mmio_read` gives so many bytes from an address on, or fails.
module _ (mmio_read : ℕ → ℕ → Option (List ℕ)) where
  unfoldable pub read_log : SmbiosTableLog → Option FetchedLog
  read_log log =
      if not (log.header_format == elog_header_format)
      then none
      else if not (log.method == smbios_log_method_type_mem)
      then none
      else elim (mmio_read log.mem log.log_length) [
        | none ↦ none
        | some bytes ↦ some (record {
          bytes = bytes;
          header_offset = log.header_start;
          data_offset = log.data_start;
        })
      ]

  unfoldable pub elog_fetch_from_smbios :
      Machine → Option SmbiosIterator → Run (Option FetchedLog × Option SmbiosIterator)
  elog_fetch_from_smbios m st =
      smbios_find_table m st smbios_type_log 0 smbios_legacy_entry_base smbios_legacy_entry_len
      >>= λ (found, st'). elim found [
        | none ↦ done (none, st')
        | some table ↦ done (read_log (table_log table.table_data), st')
      ]
