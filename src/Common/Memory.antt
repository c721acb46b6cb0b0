-- ===== src/Common/Memory.antt =====
-- Objects of one type in memory: what stands at each address, and `none` where nothing is allocated.
-- NULL is the address 0.
use Prim.Native.Nat.{ℕ}
use mathlib.Core.Path.{◌≡◌}
use mathlib.Core.Logic.{◌≢◌}
use mathlib.Core.Bool.{false}
use mathlib.Core.Option.{Option, some}
use native.Mathlib.Omega.{arith}
use mosys.Common.Outcome.{Run, done, access}
use mosys.Common.Tests.{◌==◌, if◌then◌else◌}

abbrev pub Heap {ℓ} : Type ℓ → Type ℓ
Heap A = ℕ → Option A

module _ {ℓ} {A : Type ℓ} where
  abbrev pub write : Heap A → ℕ → Option A → Heap A
  write st a v b = if b == a then v else st b

  unfoldable pub load : Heap A → ℕ → Run A
  load st a = access (st a)

  pub write_self : (st : Heap A) (a : ℕ) (v : Option A) → write st a v a ≡ v
  write_self st a v = ground arith

  pub write_ne : (st : Heap A) (a b : ℕ) (v : Option A) → b ≢ a → write st a v b ≡ st b
  write_ne st a b v h = ground (arith, h)

  pub load_cell : (st : Heap A) (a : ℕ) (c : A) → st a ≡ some c → load st a ≡ done c
  unfolding load
  load_cell st a c e = rw e

pub ne_zero : (a : ℕ) → a ≢ 0 → (a == 0) ≡ false
ne_zero a h = ground (arith, h)
