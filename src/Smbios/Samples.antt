-- ===== src/Smbios/Samples.antt =====
-- A machine with two SMBIOS tables: the BIOS, with two strings, and the event log.
use mosys.Common.{
  ℕ, ◌==◌, refl, peek, none, some, List, [], ◌∷◌, ◌++◌, if◌then◌else◌, replicate, arith,
}
use mosys.Strings.Pattern.{find_pattern, pattern_loop, memcmp_eq}
use mosys.Math.{csum_loop}
use mosys.Smbios.Text.Sets.{IsText}
use mosys.Smbios.Entry.{Machine, copy_entry, smbios_find_entry, smbios_magic}
use mosys.Smbios.Table.Layout.{Structure, IsStructure, area}
use mosys.Smbios.Table.Setup.{Firmware}

abbrev pub vendor : List ℕ
vendor = b'A' ∷ b'C' ∷ []

abbrev pub version : List ℕ
version = b'1' ∷ []

abbrev pub bios : Structure
bios = record { formatted = 0 ∷ 6 ∷ 0 ∷ 0 ∷ 1 ∷ 2 ∷ []; strings = vendor ∷ version ∷ [] }

-- 16 bytes at 0x2000, of which the first 8 are the header.
abbrev pub event_log : Structure
event_log = record {
  formatted =
      15 ∷ 21 ∷ 1 ∷ 0 ∷ 16 ∷ 0 ∷ 0 ∷ 0 ∷ 8 ∷ 0 ∷ 3 ∷ 0 ∷ 0 ∷ 0 ∷ 0 ∷ 0 ∷ 0 ∷ 0x20 ∷ 0 ∷ 0 ∷ 0x88
      ∷ [];
  strings = [];
}

-- 35 bytes at 0x1000.
abbrev pub entry : List ℕ
entry = smbios_magic ++ (0 ∷ 31 ∷ (replicate 16 0 ++ (35 ∷ 0 ∷ 0 ∷ 0x10 ∷ 0 ∷ 0 ∷ 2 ∷ 0 ∷ 0 ∷ [])))

abbrev pub machine : Machine
machine = record {
  mmio_map = λ address len.
      if address == 0xf0000
      then some (entry ++ (0 ∷ []))
      else if address == 0x1000
      then some (area (bios ∷ event_log ∷ []))
      else none;
  debugfs_base = none;
  kernel_log = none;
  strtoull = λ text. 0;
}

vendor-IsText : IsText vendor
vendor-IsText = record {
  some_char = omega arith;
  no_nul = (λ e. omega arith, (λ e. omega arith, tt));
}

version-IsText : IsText version
version-IsText = record { some_char = omega arith; no_nul = (λ e. omega arith, tt) }

pub bios-IsStructure : IsStructure bios
bios-IsStructure = record {
  sized = refl;
  has_header = omega arith;
  byte_sized = omega arith;
  texts = (vendor-IsText, (version-IsText, tt));
}

pub event_log-IsStructure : IsStructure event_log
event_log-IsStructure = record {
  sized = refl;
  has_header = omega arith;
  byte_sized = omega arith;
  texts = tt;
}

pub machine-Firmware : Firmware machine 0xf0000 0x10000 entry (bios ∷ event_log ∷ [])
unfolding smbios_find_entry copy_entry find_pattern pattern_loop memcmp_eq csum_loop peek
machine-Firmware = record {
  found = refl;
  mapped = refl;
  whole = refl;
  some_byte = omega arith;
  tables = (bios-IsStructure, (event_log-IsStructure, tt));
}
