-- ===== src/Common/Bits.antt =====
-- Bounded checks by evaluation, for facts about the bit operations on bytes.
use Prim.Native.Nat.{ℕ, zero, suc, ◌<◌}
use mathlib.Core.Path.{◌≡◌}
use mathlib.Core.Bool.{Bool, true, false}
use mosys.Common.Tests.{if◌then◌else◌}
use native.Mathlib.Omega.{arith}

-- The test holds of each number below the limit.
unfoldable pub all_below : ℕ → (ℕ → Bool) → Bool
all_below zero test = true
all_below (suc last) test = let rest = all_below last test in if test last then rest else false

pub all_below_sound :
    (limit : ℕ) (test : ℕ → Bool) (k : ℕ) → all_below limit test ≡ true → k < limit → test k ≡ true
unfolding all_below
all_below_sound zero test k passed small = absurd (omega arith)
all_below_sound (suc last) test k passed small =
    let below = all_below_sound last test k in ground (arith, below)
