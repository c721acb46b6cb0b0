-- ===== src/Elog/Smbios/Tests.antt =====
-- A run of the fetch of the event log on a machine with SMBIOS tables.
use mosys.Common.{ℕ, ◌≡◌, ◌==◌, if◌then◌else◌, Option, none, some, List, [], ◌∷◌, done, replicate}
use mosys.Smbios.Table.Layout.{find_structure}
use mosys.Smbios.Table.Setup.{fresh}
use mosys.Smbios.Samples.{bios, event_log, entry, machine, machine-Firmware}
use mosys.Elog.Smbios.{elog_fetch_from_smbios, smbios_type_log}
use mosys.Elog.Smbios.Fetch.{fetch_result, elog_fetch_from_smbios-Firmware}

-- The log of 16 bytes at 0x2000.
abbrev memory : ℕ → ℕ → Option (List ℕ)
memory address len = if address == 0x2000 then some (replicate len 0xff) else none

elog_fetch_from_smbios-Firmware_example :
    elog_fetch_from_smbios memory machine none
    ≡ done (
        fetch_result memory
          (fresh entry (bios ∷ event_log ∷ []))
          (find_structure smbios_type_log 0 0 (bios ∷ event_log ∷ [])))
elog_fetch_from_smbios-Firmware_example =
    elog_fetch_from_smbios-Firmware memory machine entry bios (event_log ∷ []) machine-Firmware
