-- ===== src/Elog/Report/Recovery.antt =====
-- Tables of lib/eventlog/elog.c:
-- the reasons for a recovery boot. A table ends where the C array has its entry with a null string.
use mosys.Common.{ℕ, List, [], ◌∷◌, String}

unfoldable pub cros_recovery_reasons : List (ℕ × String)
cros_recovery_reasons =
    (0x01, "Legacy Utility")
    ∷ (0x02, "Recovery Button Pressed")
    ∷ (0x03, "RW Failed Signature Check")
    ∷ (0x04, "S3 Resume Failed")
    ∷ (0x05, "TPM Error in RO Firmware")
    ∷ (0x06, "Shared Data Error in RO Firmware")
    ∷ (0x07, "Test Error from S3 Resume()")
    ∷ (0x08, "Test Error from LoadFirmwareSetup()")
    ∷ (0x09, "Test Error from LoadFirmware()")
    ∷ (0x10, "RW firmware check not done")
    ∷ (0x11, "RW firmware developer flag mismatch")
    ∷ (0x12, "RW firmware recovery flash mismatch")
    ∷ (0x13, "RW firmware unable to verify keyblock")
    ∷ (0x14, "RW firmware key version rollback detected")
    ∷ (0x15, "RW firmware unable to parse data key")
    ∷ (0x16, "RW firmware unable to verify preamble")
    ∷ (0x17, "RW firmware version rollback detected")
    ∷ (0x18, "RW firmware header is valid")
    ∷ (0x19, "RW firmware unable to get firmware body")
    ∷ (0x1a, "RW firmware hash is wrong size")
    ∷ (0x1b, "RW firmware unable to verify firmware body")
    ∷ (0x1c, "RW firmware is valid")
    ∷ (0x1d, "RW firmware read-only normal path is not supported")
    ∷ (0x1e, "RW firmware invalid (14)")
    ∷ (0x1f, "RW firmware invalid (15)")
    ∷ (0x20, "Firmware Boot Failure")
    ∷ (0x21, "Recovery Mode TPM Reboot")
    ∷ (0x22, "EC Software Sync Error")
    ∷ (0x23, "Unable to determine active EC image")
    ∷ (0x24, "EC software sync error obtaining EC image hash")
    ∷ (0x25, "EC software sync error obtaining expected EC image from BIOS")
    ∷ (0x26, "EC software sync error updating EC")
    ∷ (0x27, "EC software sync unable to jump to EC-RW")
    ∷ (0x28, "EC software sync protection error")
    ∷ (0x29, "EC software sync error obtaining expected EC hash from BIOS")
    ∷ (0x2a, "EC software sync error comparing expected EC hash and image")
    ∷ (0x2b, "Secure NVRAM (TPM) initialization error")
    ∷ (0x2c, "Error parsing GBB header")
    ∷ (0x2d, "Error trying to clear TPM owner")
    ∷ (0x2e, "Error reading or updating developer switch")
    ∷ (0x2f, "Error selecting RW firmware slot")
    ∷ (0x3f, "Unknown Error in RO Firmware")
    ∷ (0x41, "User Requested from Developer Screen")
    ∷ (0x42, "No OS Kernel Detected")
    ∷ (0x43, "OS Kernel Failed Signature Check")
    ∷ (0x44, "TPM Error in RW Firmware")
    ∷ (0x45, "RW Dev Firmware but not Dev Mode")
    ∷ (0x46, "Shared Data Error in RW Firmware")
    ∷ (0x47, "Test Error from LoadKernel()")
    ∷ (0x48, "No Bootable Disk Found")
    ∷ (0x49, "TPM_E_FAIL or TPM_E_FAILEDSELFTEST")
    ∷ (0x50, "TPM setup error in read-only firmware")
    ∷ (0x51, "TPM write error in read-only firmware")
    ∷ (0x52, "TPM lock error in read-only firmware")
    ∷ (0x53, "TPM update error in read-only firmware")
    ∷ (0x54, "TPM read error in rewritable firmware")
    ∷ (0x55, "TPM write error in rewritable firmware")
    ∷ (0x56, "TPM lock error in rewritable firmware")
    ∷ (0x57, "EC software sync unable to get EC image hash")
    ∷ (0x58, "EC software sync invalid image hash size")
    ∷ (0x59, "Unspecified error while trying to load kernel")
    ∷ (0x5a, "No bootable storage device in system")
    ∷ (0x5b, "No bootable kernel found on disk")
    ∷ (0x5c, "BCB partition error on disk")
    ∷ (0x5e, "Fastboot-mode requested in firmware")
    ∷ (0x5f, "Recovery hash space lock error in RO firmware")
    ∷ (0x7f, "Unspecified/unknown error in RW firmware")
    ∷ (0x81, "DM-verity error")
    ∷ (0xbf, "Unspecified/unknown error in kernel")
    ∷ (0xc1, "Recovery mode test from user-mode")
    ∷ (0xc2, "User-mode requested recovery via BCB")
    ∷ (0xc3, "User-mode requested fastboot mode")
    ∷ (0xc4, "User requested recovery for training memory and rebooting")
    ∷ (0x7f, "Unknown Error in RW Firmware")
    ∷ (0x81, "DM-Verity Error")
    ∷ (0xbf, "Unknown Error in Kernel")
    ∷ (0xc1, "Test from User Mode")
    ∷ (0xff, "Unknown Error in User Mode")
    ∷ []
