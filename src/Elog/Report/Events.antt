-- ===== src/Elog/Report/Events.antt =====
-- Tables of lib/eventlog/elog.c:
-- what events tell. A table ends where the C array has its entry with a null string.
use mosys.Common.{ℕ, List, [], ◌∷◌, String}

unfoldable pub os_events : List (ℕ × String)
os_events =
    (0x00, "Clean Shutdown")
    ∷ (0x01, "NMI Watchdog")
    ∷ (0x02, "Panic")
    ∷ (0x03, "Oops")
    ∷ (0x04, "Die")
    ∷ (0x05, "MCE")
    ∷ (0x06, "Software Watchdog")
    ∷ (0x07, "Multi-bit Error")
    ∷ (0x08, "Triple Fault")
    ∷ (0x09, "Critical Thermal Threshold")
    ∷ []

unfoldable pub wake_source_types : List (ℕ × String)
wake_source_types =
    (0x00, "PCI Express")
    ∷ (0x01, "PCI PME")
    ∷ (0x02, "Internal PME")
    ∷ (0x03, "RTC Alarm")
    ∷ (0x04, "GPIO")
    ∷ (0x05, "SMBALERT")
    ∷ (0x06, "Power Button")
    ∷ (0x07, "PME - HDA")
    ∷ (0x08, "PME - GBE")
    ∷ (0x09, "PME - EMMC")
    ∷ (0x0a, "PME - SDCARD")
    ∷ (0x0b, "PME - PCIE1")
    ∷ (0x0c, "PME - PCIE2")
    ∷ (0x0d, "PME - PCIE3")
    ∷ (0x0e, "PME - PCIE4")
    ∷ (0x0f, "PME - PCIE5")
    ∷ (0x10, "PME - PCIE6")
    ∷ (0x11, "PME - PCIE7")
    ∷ (0x12, "PME - PCIE8")
    ∷ (0x13, "PME - PCIE9")
    ∷ (0x14, "PME - PCIE10")
    ∷ (0x15, "PME - PCIE11")
    ∷ (0x16, "PME - PCIE12")
    ∷ (0x17, "PME - SATA")
    ∷ (0x18, "PME - CSE")
    ∷ (0x19, "PME - CSE2")
    ∷ (0x1a, "PME - CSE")
    ∷ (0x1b, "PME - XHCI")
    ∷ (0x1c, "PME - XDCI")
    ∷ (0x1d, "PME - XHCI (USB 2.0 port)")
    ∷ (0x1e, "PME - XHCI (USB 3.0 port)")
    ∷ []

unfoldable pub ec_event_types : List (ℕ × String)
ec_event_types =
    (0x01, "Lid Closed")
    ∷ (0x02, "Lid Open")
    ∷ (0x03, "Power Button")
    ∷ (0x04, "AC Connected")
    ∷ (0x05, "AC Disconnected")
    ∷ (0x06, "Battery Low")
    ∷ (0x07, "Battery Critical")
    ∷ (0x08, "Battery")
    ∷ (0x09, "Thermal Threshold")
    ∷ (0x0a, "Device Event")
    ∷ (0x0b, "Thermal")
    ∷ (0x0c, "USB Charger")
    ∷ (0x0d, "Key Pressed")
    ∷ (0x0e, "Host Interface Ready")
    ∷ (0x0f, "Keyboard Recovery")
    ∷ (0x10, "Thermal Shutdown in previous boot")
    ∷ (0x11, "Battery Shutdown in previous boot")
    ∷ (0x12, "Throttle Requested")
    ∷ (0x13, "Throttle Request Removed")
    ∷ (0x14, "Host Event Hang")
    ∷ (0x15, "Host Event Hang Reboot")
    ∷ (0x16, "PD MCU Request")
    ∷ (0x17, "Battery Status Request")
    ∷ (0x18, "Panic Reset in previous boot")
    ∷ (0x19, "Keyboard Fastboot Recovery")
    ∷ (0x1a, "RTC")
    ∷ (0x1b, "MKBP")
    ∷ (0x1c, "USB MUX change")
    ∷ (0x1d, "Mode change")
    ∷ (0x1e, "Keyboard Recovery Forced Hardware Reinit")
    ∷ (0x1f, "Extended EC events")
    ∷ []

unfoldable pub ec_device_event_types : List (ℕ × String)
ec_device_event_types = (0x00, "Trackpad") ∷ (0x01, "DSP") ∷ (0x02, "WiFi") ∷ []

unfoldable pub me_path_types : List (ℕ × String)
me_path_types =
    (0x00, "Normal")
    ∷ (0x00, "S3 Wake")
    ∷ (0x02, "Error")
    ∷ (0x03, "Recovery")
    ∷ (0x04, "Disabled")
    ∷ (0x05, "Firmware Update")
    ∷ []

unfoldable pub mem_cache_slots : List (ℕ × String)
mem_cache_slots = (0x00, "Normal") ∷ (0x01, "Recovery") ∷ (0x02, "Variable") ∷ []

unfoldable pub mem_cache_statuses : List (ℕ × String)
mem_cache_statuses = (0x00, "Success") ∷ (0x01, "Fail") ∷ []
