-- ===== src/Smbios.antt =====
-- lib/smbios: the SMBIOS tables. `Text` reads the strings behind a table, `Table` walks over the tables
-- of a machine, and `Entry` finds the entry point that says where they are.
pub mod Text
pub mod Entry
pub mod Table
pub mod Samples
mod Tests
