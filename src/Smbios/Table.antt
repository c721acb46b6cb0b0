-- ===== src/Smbios/Table.antt =====
-- lib/smbios/smbios.c: the walk over the SMBIOS tables, and the search for one of them.
-- A pointer into the tables is its offset; `smbios_itr`, a static variable, is passed along.
pub mod Layout
pub mod Walk
pub mod Copy
pub mod Find
pub mod Setup
pub mod Ends
use mosys.Common.{
  ℕ, zero, suc, ◌+◌, ◌-◌, Option, none, some, List, [], leb, ltb, ◌==◌, if◌then◌else◌, Run, done,
  fault, out_of_fuel, access, ◌>>=◌, peek, poke, drop, length, replicate, get_elem?, Rc, ok, failed,
  Bool, true, false,
}
use mosys.Smbios.Text.{max_strings, string_table_len, smbios_parse_string_table, string_copy}
use mosys.Smbios.Entry.{Machine, smbios_find_entry, table_length, table_address}

pub record SmbiosIterator : Type 0 where
  pub entry : List ℕ
  pub header : ℕ
  pub table_data : List ℕ
  pub current : ℕ

-- `header->type` and `header->length`.
abbrev pub header_type : SmbiosIterator → Run ℕ
header_type itr = access (get_elem? itr.table_data itr.header)

abbrev pub header_length : SmbiosIterator → Run ℕ
header_length itr = access (get_elem? itr.table_data (itr.header + 1))

-- The memory is unmapped and freed, and the static pointer is NULL then.
unfoldable pub smbios_itr_destroy : Option SmbiosIterator → Option SmbiosIterator
smbios_itr_destroy st = none

module _ (m : Machine) where
  unfoldable pub smbios_itr_setup : Option SmbiosIterator → ℕ → ℕ → Run (Rc × Option SmbiosIterator)
  smbios_itr_setup (some itr) baseaddr len =
      done (ok, some (record itr { current = 0; header = 0 }))
  smbios_itr_setup none baseaddr len = smbios_find_entry m baseaddr len >>= λ found. elim found [
    | none ↦ done (failed, none)
    | some entry ↦
        if table_length entry == 0
        then done (failed, none)
        else elim (m.mmio_map (table_address entry) (table_length entry)) [
          | none ↦ done (failed, none)
          | some bytes ↦
              done
                (ok, some (record { entry = entry; header = 0; table_data = bytes; current = 0 }))
        ]
  ]

-- 0 if there is a next table, and 1 if the walk is back at the first one.
unfoldable pub itr_next : SmbiosIterator → Run (ℕ × SmbiosIterator)
itr_next itr = do
  len ← header_length itr
  strings ← string_table_len (drop (itr.current + len) itr.table_data)
  let next = itr.current + (len + strings)
  if leb (table_length itr.entry) (next + 1)
      then done (1, record itr { current = 0; header = 0 })
      else done (0, record itr { current = next; header = next })

-- `none` is -1.
unfoldable pub smbios_itr_next : Option SmbiosIterator → Run (Option ℕ × Option SmbiosIterator)
smbios_itr_next none = done (none, none)
smbios_itr_next (some itr) = itr_next itr >>= λ (rc, itr'). done (some rc, some itr')

-- The `do` loop, with fuel: whether the table is found, and the iterator. An instance below 0 is as 0.
unfoldable pub search_loop : ℕ → ℕ → ℕ → SmbiosIterator → Run (Bool × SmbiosIterator)
search_loop zero type instance_left itr = out_of_fuel
search_loop (suc fuel) type instance_left itr = do
  this_type ← header_type itr
  let matches = this_type == type
  let left = if matches then instance_left - 1 else instance_left
  let rest = itr_next itr >>= λ (rc, itr'). elim (rc == 0) [
    | true ↦ search_loop fuel type left itr'
    | false ↦ done (false, itr')
  ]
  if matches then (if instance_left == 0 then done (true, itr) else rest) else rest

module _ (m : Machine) where
  -- The fuel is the number of bytes and one: a table has two bytes at least.
  unfoldable pub smbios_find_table_raw :
      Option SmbiosIterator → ℕ → ℕ → ℕ → ℕ → Run (Rc × Option SmbiosIterator)
  smbios_find_table_raw st type instance_left baseaddr len =
      smbios_itr_setup m st baseaddr len >>= λ (rc, st'). elim rc [
        | failed ↦ done (failed, st')
        | ok ↦ elim st' [
          | none ↦ fault
          | some itr ↦
              search_loop (suc (table_length itr.entry)) type instance_left itr >>= λ (found, itr').
              done (if found then ok else failed, some itr')
        ]
      ]

-- `struct smbios_table`: the header's bytes, the 1024 bytes of data, and the slots for strings.
pub record SmbiosTable : Type 0 where
  pub header : List ℕ
  pub table_data : List ℕ
  pub string : List (List ℕ)

abbrev pub sizeof_header : ℕ
sizeof_header = 4

abbrev pub sizeof_data : ℕ
sizeof_data = 1024

abbrev pub smbios_type_end : ℕ
smbios_type_end = 127

-- The table that the iterator stands on. A length below that of the header wraps round to a size that
-- no memory has.
unfoldable pub copy_table : SmbiosIterator → Run SmbiosTable
copy_table itr = do
  header ← access (peek (drop itr.header itr.table_data) sizeof_header)
  len ← header_length itr
  body ←
      if ltb len sizeof_header
      then fault
      else access (peek (drop (itr.current + sizeof_header) itr.table_data) (len - sizeof_header))
  filled ← access (poke (replicate sizeof_data 0) 0 body)
  parsed ←
      smbios_parse_string_table (some (drop (itr.current + len) itr.table_data))
        (some (replicate max_strings []))
  elim parsed [
    | none ↦ fault
    | some (n, slots) ↦ done (record { header = header; table_data = filled; string = slots })
  ]

module _ (m : Machine) where
  -- `none` is -1; a null pointer to the table, for which the code returns -1 too, is left out.
  unfoldable pub smbios_find_table :
      Option SmbiosIterator → ℕ → ℕ → ℕ → ℕ → Run (Option SmbiosTable × Option SmbiosIterator)
  smbios_find_table st type instance_left baseaddr len =
      if ltb smbios_type_end type
      then done (none, st)
      else (smbios_find_table_raw m st type instance_left baseaddr len >>= λ (rc, st'). elim rc [
        | failed ↦ done (none, st')
        | ok ↦ elim st' [
          | none ↦ fault
          | some itr ↦ copy_table itr >>= λ table. done (some table, some itr)
        ]
      ])

  -- A copy of the string; `none` is NULL.
  unfoldable pub smbios_find_string :
      Option SmbiosIterator → ℕ → ℕ → ℕ → ℕ → Run (Option (List ℕ) × Option SmbiosIterator)
  smbios_find_string st type number baseaddr len =
      if ltb smbios_type_end type
      then done (none, st)
      else (smbios_find_table_raw m st type 0 baseaddr len >>= λ (rc, st'). elim rc [
        | failed ↦ done (none, st')
        | ok ↦ elim st' [
          | none ↦ fault
          | some itr ↦ header_length itr >>= λ size.
              string_copy (drop (itr.current + size) itr.table_data) number >>= λ found.
              done (found, some itr)
        ]
      ])
