-- ===== src/Common/CString.antt =====
-- C strings: bytes up to a zero, in a buffer that goes on behind it.
use Prim.Native.Nat.{ℕ, suc}
use mathlib.Core.Path.{◌≡◌, refl}
use mathlib.Core.Logic.{◌≢◌}
use mathlib.Core.Option.{Option, none, some}
use mathlib.Core.List.{List, [], ◌∷◌, ◌++◌}
use native.Mathlib.Omega.{arith}
use mosys.Common.Lists.{length}
use mosys.Common.Tests.{◌==◌, if◌then◌else◌}

-- `none` is a string without an end.
abbrev pub strlen : List ℕ → Option ℕ
strlen [] = none
strlen (c ∷ cs) =
    let rest = strlen cs in
    if c == 0 then some 0 else elim rest [ none ↦ none | some n ↦ some (suc n) ]

-- A C string has no zero before its end.
abbrev pub NoNul : List ℕ → Type 0
NoNul [] = Unit
NoNul (c ∷ cs) = (c ≢ 0) × NoNul cs

pub strlen-append : (s r : List ℕ) → NoNul s → strlen (s ++ (0 ∷ r)) ≡ some (length s)
strlen-append [] r h = refl
strlen-append (c ∷ cs) r h = ground (arith, strlen-append cs r h.1, h.0)
