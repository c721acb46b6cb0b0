-- ===== src/Elog/Entry.antt =====
-- lib/eventlog/elog.c: the header check, and how one entry is filled in and verified.
-- `struct smbios_log_entry *` is the list of bytes from the entry on to the end of its buffer.
pub mod Prepare
pub mod Broken
use mosys.Common.{
  ℕ, ◌+◌, ◌-◌, ◌*◌, ◌%◌, ◌^◌, Bool, true, false, ◌||◌, not, Option, none, some, List, [], ◌∷◌, u8,
  ltb, ◌==◌, if◌then◌else◌, Run, done, fault, access, ◌>>=◌, poke, get_or, length,
}
use mosys.Common.{Rc, ok, failed}
use mosys.Math.{rolling8_csum, bin2bcd}

-- `entry->type`, `entry->length` and `entry->data`.
abbrev pub entry_type : List ℕ → ℕ
entry_type e = get_or e 0 0

abbrev pub entry_length : List ℕ → ℕ
entry_length e = get_or e 1 0

abbrev pub sizeof_entry : ℕ
sizeof_entry = 8

abbrev pub type_logclear : ℕ
type_logclear = 0x16

abbrev pub type_endlog : ℕ
type_endlog = 0xff

abbrev pub elog_magic : ℕ
elog_magic = 0x474f4c45

abbrev pub sizeof_elog_header : ℕ
sizeof_elog_header = 8

abbrev pub elog_version : ℕ
elog_version = 1

-- The packed `struct elog_header`, read from memory on a little-endian machine.
abbrev pub header_magic : List ℕ → ℕ
header_magic h = get_or h 0 0 + get_or h 1 0 * 2 ^ 8 + get_or h 2 0 * 2 ^ 16 + get_or h 3 0 * 2 ^ 24

abbrev pub header_version : List ℕ → ℕ
header_version h = get_or h 4 0

abbrev pub header_size : List ℕ → ℕ
header_size h = get_or h 5 0

-- `none` is a null pointer.
unfoldable pub elog_verify_header : Option (List ℕ) → Rc
elog_verify_header none = failed
elog_verify_header (some h) =
    if not (header_magic h == elog_magic)
    then failed
    else if not (header_size h == sizeof_elog_header)
    then failed
    else if not (header_version h == elog_version)
    then failed
    else ok

-- What `time` and `gmtime_r` gave: `broken` when either failed, and the fields of `struct tm`.
pub record Clock : Type 0 where
  pub broken : Bool
  pub tm_sec : ℕ
  pub tm_min : ℕ
  pub tm_hour : ℕ
  pub tm_mday : ℕ
  pub tm_mon : ℕ
  pub tm_year : ℕ

-- The six timestamp bytes in the order of the struct: year, month, day, hour, minute, second.
unfoldable pub timestamp : Clock → List ℕ
timestamp c =
    let second = bin2bcd (u8 c.tm_sec) in
    let minute = bin2bcd (u8 c.tm_min) in
    let hour = bin2bcd (u8 c.tm_hour) in
    let day = bin2bcd (u8 c.tm_mday) in
    let month = bin2bcd (u8 (c.tm_mon + 1)) in
    let year = bin2bcd (u8 (c.tm_year % 100)) in
    if c.broken
      || ltb 0x12 month
      || ltb 0x31 day
      || ltb 0x23 hour
      || ltb 0x59 minute
      || ltb 0x59 second
    then 0 ∷ 0 ∷ 0 ∷ 0 ∷ 0 ∷ 0 ∷ []
    else year ∷ month ∷ day ∷ hour ∷ minute ∷ second ∷ []

-- The entry after the call, and what it returns.
unfoldable pub elog_fill_timestamp : List ℕ → Clock → Run (Rc × List ℕ)
elog_fill_timestamp entry c = do
  entry' ← access (poke entry 2 (timestamp c))
  done (if c.broken then failed else ok, entry')

-- A length of 0 would put the checksum before the entry.
unfoldable pub elog_update_checksum : List ℕ → ℕ → Run (List ℕ)
elog_update_checksum entry checksum =
    if entry_length entry == 0
    then fault
    else access (poke entry (entry_length entry - 1) (checksum ∷ []))

unfoldable pub elog_verify : List ℕ → Run Bool
elog_verify entry = do sum ← access (rolling8_csum entry (entry_length entry)); done (sum == 0)

-- `-sum`, cut to a byte.
abbrev pub negate8 : ℕ → ℕ
negate8 sum = u8 (2 ^ 8 - sum)

-- The entry's data is copied in and its checksum is set.
unfoldable pub fill_data : List ℕ → List ℕ → Run (Rc × List ℕ)
fill_data entry bytes = do
  copied ← if length bytes == 0 then done entry else access (poke entry sizeof_entry bytes)
  zeroed ← elog_update_checksum copied 0
  sum ← access (rolling8_csum zeroed (entry_length zeroed))
  summed ← elog_update_checksum zeroed (negate8 sum)
  done (ok, summed)

-- `buf` is the memory from the entry on; the length byte is cut to `uint8_t`. The entry that comes
-- back is as far filled as the code got.
unfoldable pub elog_prepare_entry : List ℕ → ℕ → List ℕ → Clock → Run (Rc × List ℕ)
elog_prepare_entry buf type bytes c = do
  entry ← access (poke buf 0 (u8 type ∷ u8 (sizeof_entry + length bytes + 1) ∷ []))
  (rc, stamped) ← elog_fill_timestamp entry c
  elim rc [ failed ↦ done (failed, stamped) | ok ↦ fill_data stamped bytes ]
