-- ===== src/Elog/Report/PostCodes.antt =====
-- Tables of lib/eventlog/elog.c:
-- the codes that coreboot posts. A table ends where the C array has its entry with a null string.
use mosys.Common.{ℕ, List, [], ◌∷◌, String}

unfoldable pub coreboot_post_codes : List (ℕ × String)
coreboot_post_codes =
    (0x01, "Reset Vector Correct")
    ∷ (0x10, "Enter Protected Mode")
    ∷ (0x11, "Prepare RAM stage")
    ∷ (0x13, "RAM stage Start")
    ∷ (0x79, "Before Hardware Main")
    ∷ (0x80, "RAM stage Main")
    ∷ (0x39, "Console is ready")
    ∷ (0x40, "Console Boot Message")
    ∷ (0x60, "Before Enabling Cache")
    ∷ (0xf8, "Before ELF Boot")
    ∷ (0xf3, "Before Jump to Payload")
    ∷ (0xee, "Dead Code")
    ∷ (0xef, "Resume Failure")
    ∷ (0xfd, "Before OS Resume")
    ∷ (0xfe, "Before OS Boot")
    ∷ (0xff, "Coreboot Dead")
    ∷ (0x70, "Before Device Probe")
    ∷ (0x71, "Initialize Chips")
    ∷ (0x72, "Device Enumerate")
    ∷ (0x73, "Device Resource Allocation")
    ∷ (0x74, "Device Enable")
    ∷ (0x75, "Device Initialize")
    ∷ (0x76, "After Device Probe")
    ∷ (0x77, "OS Resume Check")
    ∷ (0x78, "OS Resume")
    ∷ (0x79, "Write Tables")
    ∷ (0x7a, "Load Payload")
    ∷ (0x7b, "Boot Payload")
    ∷ (0x90, "FSP TempRamInit")
    ∷ (0x91, "FSP TempRamExit")
    ∷ (0x92, "FSP MemoryInit")
    ∷ (0x93, "FSP SiliconInit")
    ∷ (0x94, "FSP Notify Before Enumerate")
    ∷ (0x95, "FSP Notify Before Finalize")
    ∷ []
