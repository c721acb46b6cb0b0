-- ===== src/Math.antt =====
-- lib/math/math.c and the inline `bin2bcd` of include/lib/math.h: the 8-bit checksums over which
-- the event log and the SMBIOS entry point are verified, and binary-coded decimals.
-- `none` is a read past the end of the buffer.
pub mod Checksum
pub mod Bcd
use mosys.Common.{
  ℕ, zero, suc, ◌+◌, ◌-◌, ◌*◌, ◌/◌, ◌%◌, Option, none, some, List, [], ◌∷◌, u8, bit_or,
}
use mathlib.Core.Option

-- `for (i = 0; i < len; ++i) sum += buf[i];` with the rounds left, the rest of the buffer, `sum`.
unfoldable pub csum_loop : ℕ → List ℕ → ℕ → Option ℕ
csum_loop zero buf sum = some sum
csum_loop (suc left) [] sum = none
csum_loop (suc left) (b ∷ buf) sum = csum_loop left buf (u8 (sum + b))

unfoldable pub rolling8_csum : List ℕ → ℕ → Option ℕ
rolling8_csum buf len = csum_loop len buf 0

unfoldable pub zero8_csum : List ℕ → ℕ → Option ℕ
zero8_csum buf len = Option.map (λ csum. u8 (0x100 - csum)) (csum_loop len buf 0)

-- The `uint8_t` argument is converted from `int` by the caller.
unfoldable pub bin2bcd : ℕ → ℕ
bin2bcd bin = u8 (bit_or (bin % 10) (bin / 10 * 0x10))
