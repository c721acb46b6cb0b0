-- ===== src/Math/Bcd.antt =====
-- `bin2bcd` of include/lib/math.h on two decimal digits.
use mosys.Common.{
  ℕ, ◌+◌, ◌*◌, ◌/◌, ◌%◌, ◌<◌, ◌≡◌, refl, true, all_below, all_below_sound, ◌==◌, ==_iff,
}
use mosys.Math.{bin2bcd}

bin2bcd_table : all_below 100 (λ n. bin2bcd n == n / 10 * 16 + n % 10) ≡ true
unfolding all_below bin2bcd
bin2bcd_table = refl

-- Up to 99 the tens digit stands in the high nibble and the ones digit in the low one.
pub bin2bcd_digits : (n : ℕ) → n < 100 → bin2bcd n ≡ n / 10 * 16 + n % 10
bin2bcd_digits n h =
    (==_iff _ _).0 (all_below_sound 100 (λ n. bin2bcd n == n / 10 * 16 + n % 10) n bin2bcd_table h)
