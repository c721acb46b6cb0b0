-- ===== src/Smbios/Table/Setup.antt =====
-- `smbios_itr_setup` of lib/smbios/smbios.c: the first search maps the tables, and later ones use them.
use mosys.Common.{
  ℕ, ◌≤◌, ◌<◌, ltb-ge, ◌≡◌, refl, ◌∙◌, false, none, some, List, done, length, ◌==◌, arith, ok,
}
use mosys.Smbios.Entry.{Machine, smbios_find_entry, table_length, table_address}
use mosys.Smbios.Table.{
  SmbiosIterator, smbios_itr_setup, smbios_find_table_raw, smbios_find_table, smbios_type_end,
}
use mosys.Smbios.Table.Layout.{Structure, AllStructures, area}
use mosys.Smbios.Table.Find.{Holds}

-- An entry point is found, and the memory that it tells holds the tables and nothing else.
pub record Firmware (m : Machine) (baseaddr len : ℕ) (entry : List ℕ) (ss : List Structure)
    : Type 0 where
  pub found : smbios_find_entry m baseaddr len ≡ done (some entry)
  pub mapped : m.mmio_map (table_address entry) (table_length entry) ≡ some (area ss)
  pub whole : table_length entry ≡ length (area ss)
  pub some_byte : 0 < table_length entry
  pub tables : AllStructures ss

-- The iterator that the first setup leaves.
abbrev pub fresh : List ℕ → List Structure → SmbiosIterator
fresh entry ss = record { entry = entry; header = 0; table_data = area ss; current = 0 }

pub fresh-Holds :
    (m : Machine) (baseaddr len : ℕ) (entry : List ℕ) (ss : List Structure)
    → Firmware m baseaddr len entry ss
    → Holds (fresh entry ss) ss
fresh-Holds m baseaddr len entry ss h = record { whole = h.whole; tables = h.tables; stored = refl }

smbios_itr_setup-Firmware :
    (m : Machine) (baseaddr len : ℕ) (entry : List ℕ) (ss : List Structure)
    → Firmware m baseaddr len entry ss
    → smbios_itr_setup m none baseaddr len ≡ done (ok, some (fresh entry ss))
unfolding smbios_itr_setup
smbios_itr_setup-Firmware m baseaddr len entry ss h = rw (h.found, some_table, h.mapped) refl
  where
    some_table : (table_length entry == 0) ≡ false
    some_table = ground (arith, h.some_byte)

-- The setup is the same as for an iterator that stands on the first table.
smbios_itr_setup_first :
    (m : Machine) (baseaddr len : ℕ) (entry : List ℕ) (ss : List Structure)
    → Firmware m baseaddr len entry ss
    → smbios_itr_setup m none baseaddr len ≡ smbios_itr_setup m (some (fresh entry ss)) baseaddr len
unfolding smbios_itr_setup
smbios_itr_setup_first m baseaddr len entry ss h =
    smbios_itr_setup-Firmware m baseaddr len entry ss h ∙ refl

-- The first search for a table is as a later one, with the iterator on the first table.
pub smbios_find_table_first :
    (m : Machine) (baseaddr len type number : ℕ) (entry : List ℕ) (ss : List Structure)
    → Firmware m baseaddr len entry ss
    → type ≤ smbios_type_end
    → smbios_find_table m none type number baseaddr len
      ≡ smbios_find_table m (some (fresh entry ss)) type number baseaddr len
unfolding smbios_find_table smbios_find_table_raw
smbios_find_table_first m baseaddr len type number entry ss h small =
    rw (ltb-ge smbios_type_end type small, smbios_itr_setup_first m baseaddr len entry ss h) refl
