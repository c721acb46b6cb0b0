-- ===== src/Elog/Report/Types.antt =====
-- Tables of lib/eventlog/elog.c and elog_smbios.c:
-- the types of events and of device paths. A table ends where the C array has its entry with a null string.
use mosys.Common.{ℕ, List, [], ◌∷◌, String}

unfoldable pub elog_event_types : List (ℕ × String)
elog_event_types =
    (0x81, "Kernel Event")
    ∷ (0x90, "OS Boot")
    ∷ (0x91, "EC Event")
    ∷ (0x92, "Power Fail")
    ∷ (0x93, "SUS Power Fail")
    ∷ (0x94, "PWROK Fail")
    ∷ (0x95, "SYS PWROK Fail")
    ∷ (0x96, "Power On")
    ∷ (0x97, "Power Button")
    ∷ (0x98, "Power Button Override")
    ∷ (0x99, "Reset Button")
    ∷ (0x9a, "System Reset")
    ∷ (0x9b, "RTC Reset")
    ∷ (0x9c, "TCO Reset")
    ∷ (0x9d, "ACPI Enter")
    ∷ (0x9e, "ACPI Wake")
    ∷ (0xad, "ACPI Wake")
    ∷ (0x9f, "Wake Source")
    ∷ (0xa0, "Chrome OS Developer Mode")
    ∷ (0xa1, "Chrome OS Recovery Mode")
    ∷ (0xa2, "Management Engine")
    ∷ (0xa4, "Management Engine Extra")
    ∷ (0xa3, "Last post code in previous boot")
    ∷ (0xa6, "Extra info from previous boot")
    ∷ (0xa5, "EC Shutdown")
    ∷ (0xa7, "Sleep")
    ∷ (0xa8, "Wake")
    ∷ (0xa9, "FW Wake")
    ∷ (0xaa, "Memory Cache Update")
    ∷ (0xab, "CPU Thermal Trip")
    ∷ (0xac, "cr50 Update Reset")
    ∷ (0xae, "EC Device")
    ∷ []

unfoldable pub smbios_eventlog_types : List (ℕ × String)
smbios_eventlog_types =
    (0x00, "Reserved")
    ∷ (0x01, "Single-bit ECC memory error")
    ∷ (0x02, "Multi-bit ECC memory error")
    ∷ (0x03, "Parity memory error")
    ∷ (0x04, "Bus timeout")
    ∷ (0x05, "I/O channel check")
    ∷ (0x06, "Software NMI")
    ∷ (0x07, "POST memory resize")
    ∷ (0x08, "POST error")
    ∷ (0x09, "PCI parity error")
    ∷ (0x0a, "PCI system error")
    ∷ (0x0b, "CPU failure")
    ∷ (0x0c, "EISA failsafe timer timeout")
    ∷ (0x0d, "Correctable memory log disabled")
    ∷ (0x0e, "Logging disabled, too many errors")
    ∷ (0x0f, "Reserved")
    ∷ (0x10, "System limit exceeded")
    ∷ (0x11, "Hardware watchdog reset")
    ∷ (0x12, "System configuration information")
    ∷ (0x13, "Hard-disk information")
    ∷ (0x14, "System reconfigured")
    ∷ (0x15, "Uncorrectable CPU-complex error")
    ∷ (0x16, "Log area cleared")
    ∷ (0x17, "System boot")
    ∷ (0xff, "End of log")
    ∷ []

unfoldable pub path_type_values : List (ℕ × String)
path_type_values =
    (0x02, "PCI")
    ∷ (0x03, "PNP")
    ∷ (0x04, "I2C")
    ∷ (0x05, "APIC")
    ∷ (0x06, "DOMAIN")
    ∷ (0x07, "CPU Cluster")
    ∷ (0x08, "CPU")
    ∷ (0x09, "CPU Bus")
    ∷ (0x0a, "IO-APIC")
    ∷ []
