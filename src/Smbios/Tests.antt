-- ===== src/Smbios/Tests.antt =====
-- Runs of the searches of lib/smbios on two tables.
use mosys.Common.{
  ℕ, ◌+◌, ◌<◌, ◌≡◌, ◌≢◌, out_of_fuel, refl, some, List, [], ◌∷◌, ◌++◌, done, length, replicate,
  get_elem?, arith,
}
use mosys.Smbios.Text.{max_strings, smbios_parse_string_table}
use mosys.Smbios.Text.Sets.{strings_end, clean}
use mosys.Smbios.Text.Slots.{smbios_parse_string_table-strings}
use mosys.Smbios.Table.{smbios_find_table_raw, smbios_find_table, smbios_find_string}
use mosys.Smbios.Table.Layout.{find_structure}
use mosys.Smbios.Table.Find.{
  table_result, string_result, smbios_find_table-Holds, smbios_find_string-Holds,
}
use mosys.Smbios.Table.Ends.{smbios_find_table_raw_ends}
use mosys.Smbios.Table.Setup.{fresh, fresh-Holds}
use mosys.Smbios.Samples.{bios, event_log, entry, machine, bios-IsStructure, machine-Firmware}

smbios_parse_string_table-strings_example :
    (filled : List (List ℕ)) × (smbios_parse_string_table
        (some (strings_end bios.strings ++ []))
        (some (replicate max_strings []))
      ≡ done (some (2, filled)))
    × (length filled ≡ max_strings)
    × (get_elem? filled 0 ≡ some [])
    × ((k : ℕ) (s : List ℕ)
        → get_elem? bios.strings k ≡ some s
        → 1 + k < max_strings
        → get_elem? filled (1 + k) ≡ some (clean s))
smbios_parse_string_table-strings_example =
    smbios_parse_string_table-strings bios.strings (replicate max_strings []) []
      bios-IsStructure.texts refl

smbios_find_table-Holds_example :
    smbios_find_table machine (some (fresh entry (bios ∷ event_log ∷ []))) 15 0 0xf0000 0x10000
    ≡ done (
        table_result
          (fresh entry (bios ∷ event_log ∷ []))
          (find_structure 15 0 0 (bios ∷ event_log ∷ [])))
smbios_find_table-Holds_example =
    smbios_find_table-Holds machine (fresh entry (bios ∷ event_log ∷ [])) bios (event_log ∷ []) 15 0
      0xf0000 0x10000
      (fresh-Holds machine 0xf0000 0x10000 entry (bios ∷ event_log ∷ []) machine-Firmware)
      (omega arith)

smbios_find_string-Holds_example :
    smbios_find_string machine (some (fresh entry (bios ∷ event_log ∷ []))) 0 1 0xf0000 0x10000
    ≡ done (
        string_result
          (fresh entry (bios ∷ event_log ∷ []))
          1
          (find_structure 0 0 0 (bios ∷ event_log ∷ [])))
smbios_find_string-Holds_example =
    smbios_find_string-Holds machine (fresh entry (bios ∷ event_log ∷ [])) bios (event_log ∷ []) 0 1
      0xf0000 0x10000
      (fresh-Holds machine 0xf0000 0x10000 entry (bios ∷ event_log ∷ []) machine-Firmware)
      (omega arith)

smbios_find_table_raw_ends_example :
    smbios_find_table_raw machine (some (fresh entry (bios ∷ event_log ∷ []))) 4 0 0xf0000 0x10000
    ≢ out_of_fuel
smbios_find_table_raw_ends_example =
    smbios_find_table_raw_ends machine (fresh entry (bios ∷ event_log ∷ [])) 4 0 0xf0000 0x10000
