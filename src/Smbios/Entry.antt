-- ===== src/Smbios/Entry.antt =====
-- `smbios_find_entry` of lib/smbios/smbios.c: the entry point of the SMBIOS tables in memory.
use mosys.Common.{
  ℕ, ◌+◌, ◌*◌, ◌^◌, Option, none, some, List, [], ◌∷◌, Run, done, access, ◌>>=◌, peek, drop, get_or,
}
use mosys.Math.{csum_loop}
use mosys.Strings.Pattern.{find_pattern}

-- What the code asks of the machine: a mapping of so many bytes from an address on, or none; the address
-- that debugfs tells, if it does; the kernel log, `none` if it has no size and `some none` if it cannot be
-- read; and the number at the start of a text, as `strtoull` reads it.
pub record Machine : Type 0 where
  pub mmio_map : ℕ → ℕ → Option (List ℕ)
  pub debugfs_base : Option ℕ
  pub kernel_log : Option (Option (List ℕ))
  pub strtoull : List ℕ → ℕ

abbrev pub word16_at : List ℕ → ℕ → ℕ
word16_at bytes i = get_or bytes i 0 + get_or bytes (i + 1) 0 * 2 ^ 8

abbrev pub word32_at : List ℕ → ℕ → ℕ
word32_at bytes i = word16_at bytes i + word16_at bytes (i + 2) * 2 ^ 16

-- The packed `struct smbios_entry`, as its 31 bytes.
abbrev pub sizeof_smbios_entry : ℕ
sizeof_smbios_entry = 31

abbrev pub entry_length : List ℕ → ℕ
entry_length entry = get_or entry 5 0

abbrev pub table_length : List ℕ → ℕ
table_length entry = word16_at entry 22

abbrev pub table_address : List ℕ → ℕ
table_address entry = word32_at entry 24

-- "_SM_".
abbrev pub smbios_magic : List ℕ
smbios_magic = 0x5f ∷ 0x53 ∷ 0x4d ∷ 0x5f ∷ []

-- "SMBIOS=".
abbrev pub log_mark : List ℕ
log_mark = 0x53 ∷ 0x4d ∷ 0x42 ∷ 0x49 ∷ 0x4f ∷ 0x53 ∷ 0x3d ∷ []

-- The entry is copied and its checksum is computed; a wrong one is only told to the log.
unfoldable pub copy_entry : List ℕ → ℕ → Run (Option (List ℕ))
copy_entry bytes offset = do
  entry ← access (peek (drop offset bytes) sizeof_smbios_entry)
  csum ← access (csum_loop (entry_length entry) (drop offset bytes) 0)
  done (some entry)

module _ (m : Machine) where
  unfoldable pub entry_at : ℕ → ℕ → Run (Option (List ℕ))
  entry_at baseaddr len = access (m.mmio_map baseaddr len) >>= λ bytes. copy_entry bytes 0

  -- The search in the kernel log.
  unfoldable pub entry_from_log : ℕ → Run (Option (List ℕ))
  entry_from_log len = elim m.kernel_log [
    | none ↦ done none
    | some log ↦ find_pattern log (some log_mark) 1 >>= λ found. elim found [
      | none ↦ done none
      | some offset ↦ elim log [
        | none ↦ done none
        | some text ↦ entry_at (m.strtoull (drop (offset + 7) text)) len
      ]
    ]
  ]

  -- `none` is -1. A mapping that the second and third search rely on without a test is a fault.
  unfoldable pub smbios_find_entry : ℕ → ℕ → Run (Option (List ℕ))
  smbios_find_entry baseaddr len = elim (m.mmio_map baseaddr len) [
    | none ↦ done none
    | some bytes ↦ find_pattern (some bytes) (some smbios_magic) 16 >>= λ found. elim found [
      | some offset ↦ copy_entry bytes offset
      | none ↦ elim m.debugfs_base [ some base ↦ entry_at base len | none ↦ entry_from_log len ]
    ]
  ]
