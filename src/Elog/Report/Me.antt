-- ===== src/Elog/Report/Me.antt =====
-- Tables of lib/eventlog/elog.c:
-- the states of the management engine. A table ends where the C array has its entry with a null string.
use mosys.Common.{ℕ, List, [], ◌∷◌, String}

unfoldable pub me_cws_values : List (ℕ × String)
me_cws_values =
    (0x00, "Reset")
    ∷ (0x01, "Initializing")
    ∷ (0x02, "Recovery")
    ∷ (0x05, "Normal")
    ∷ (0x06, "Platform Disable Wait")
    ∷ (0x07, "OP State Transition")
    ∷ (0x08, "Invalid CPU Plugged In")
    ∷ []

unfoldable pub me_opstate_values : List (ℕ × String)
me_opstate_values =
    (0x00, "Preboot")
    ∷ (0x01, "M0 with UMA")
    ∷ (0x04, "M3 without UMA")
    ∷ (0x05, "M0 without UMA")
    ∷ (0x06, "Bring up")
    ∷ (0x07, "M0 without UMA but with error")
    ∷ []

unfoldable pub me_opmode_values : List (ℕ × String)
me_opmode_values =
    (0x02, "Debug")
    ∷ (0x03, "Soft Temporary Disable")
    ∷ (0x04, "Security Override via Jumper")
    ∷ (0x05, "Security Override via MEI Message")
    ∷ []

unfoldable pub me_error_values : List (ℕ × String)
me_error_values =
    (0x01, "Uncategorized Failure") ∷ (0x03, "Image Failure") ∷ (0x04, "Debug Failure") ∷ []

unfoldable pub me_progress_values : List (ℕ × String)
me_progress_values =
    (0x00, "ROM Phase")
    ∷ (0x01, "BUP Phase")
    ∷ (0x02, "uKernel Phase")
    ∷ (0x03, "Policy Module")
    ∷ (0x04, "Module Loading")
    ∷ (0x05, "Unknown")
    ∷ (0x06, "Host Communication")
    ∷ []

unfoldable pub me_pmevent_values : List (ℕ × String)
me_pmevent_values =
    (0x00, "Clean Moff->Mx wake")
    ∷ (0x01, "Moff->Mx wake after an error")
    ∷ (0x02, "Clean global reset")
    ∷ (0x03, "Global reset after an error")
    ∷ (0x04, "Clean Intel ME reset")
    ∷ (0x05, "Intel ME reset due to exception")
    ∷ (0x06, "Pseudo-global reset")
    ∷ (0x07, "S0/M0->Sx/M3")
    ∷ (0x08, "Sx/M3->S0/M0")
    ∷ (0x09, "Non-power cycle reset")
    ∷ (0x0a, "Power cycle reset through M3")
    ∷ (0x0b, "Power cycle reset through Moff")
    ∷ (0x0c, "Sx/Mx->Sx/Moff")
    ∷ []

unfoldable pub me_progress_rom_values : List (ℕ × String)
me_progress_rom_values = (0x00, "BEGIN") ∷ (0x06, "DISABLE") ∷ []

unfoldable pub me_progress_bup_values : List (ℕ × String)
me_progress_bup_values =
    (0x00, "Initialization starts")
    ∷ (0x01, "Disable the host wake event")
    ∷ (0x04, "Flow determination start process")
    ∷ (0x08, "Error reading/matching VSCC table in the descriptor")
    ∷ (0x0a, "Check to see if straps say ME DISABLED")
    ∷ (0x0b, "Timeout waiting for PWROK")
    ∷ (0x0d, "Possibly handle BUP manufacturing override strap")
    ∷ (0x11, "Bringup in M3")
    ∷ (0x12, "Bringup in M0")
    ∷ (0x13, "Flow detection error")
    ∷ (0x15, "M3 clock switching error")
    ∷ (0x18, "M3 kernel load")
    ∷ (0x1c, "T34 missing - cannot program ICC")
    ∷ (0x1f, "Waiting for DID BIOS message")
    ∷ (0x20, "Waiting for DID BIOS message failure")
    ∷ (0x21, "DID reported an error")
    ∷ (0x22, "Enabling UMA")
    ∷ (0x23, "Enabling UMA error")
    ∷ (0x24, "Sending DID Ack to BIOS")
    ∷ (0x25, "Sending DID Ack to BIOS error")
    ∷ (0x26, "Switching clocks in M0")
    ∷ (0x27, "Switching clocks in M0 error")
    ∷ (0x28, "ME in temp disable")
    ∷ (0x32, "M0 kernel load")
    ∷ []

unfoldable pub me_progress_policy_values : List (ℕ × String)
me_progress_policy_values =
    (0x00, "Entery into Policy Module")
    ∷ (0x03, "Received S3 entry")
    ∷ (0x04, "Received S4 entry")
    ∷ (0x05, "Received S5 entry")
    ∷ (0x06, "Received UPD entry")
    ∷ (0x07, "Received PCR entry")
    ∷ (0x08, "Received NPCR entry")
    ∷ (0x09, "Received host wake")
    ∷ (0x0a, "Received AC<>DC switch")
    ∷ (0x0b, "Received DRAM Init Done")
    ∷ (0x0c, "VSCC Data not found for flash device")
    ∷ (0x0d, "VSCC Table is not valid")
    ∷ (0x0e, "Flash Partition Boundary is outside address space")
    ∷ (0x0f, "ME cannot access the chipset descriptor region")
    ∷ (0x10, "Required VSCC values for flash parts do not match")
    ∷ []

unfoldable pub me_progress_hostcomm_values : List (ℕ × String)
me_progress_hostcomm_values = (0x00, "Host Communication Established") ∷ []
