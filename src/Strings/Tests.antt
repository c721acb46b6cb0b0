-- ===== src/Strings/Tests.antt =====
-- Runs of the search and the conversions of lib/string.
use mosys.Common.{ℕ, ◌≡◌, refl, arith, Option, some, List, [], ◌∷◌, done, fault}
use mosys.Strings.Digits.{digit_of, nstr2buf}
use mosys.Strings.Digits.Parse.{
  Spells, nothing, delimiter, byte, nstr2buf-Spells, nstr2buf_one_digit,
}
use mosys.Strings.Pattern.{find_pattern, Searched, find_pattern-Searched}

find_pattern-Searched_example :
    (result : Option ℕ) × (find_pattern (some (1 ∷ 2 ∷ 3 ∷ 4 ∷ [])) (some (2 ∷ 3 ∷ [])) 1
      ≡ done result)
    × Searched (1 ∷ 2 ∷ 3 ∷ 4 ∷ []) (2 ∷ 3 ∷ []) 1 0 result
find_pattern-Searched_example =
    find_pattern-Searched (1 ∷ 2 ∷ 3 ∷ 4 ∷ []) (2 ∷ 3 ∷ []) 1 (omega arith)

abbrev two_bytes : List ℕ
two_bytes = 10 ∷ 255 ∷ []

-- "0a:ff", with a colon as the delimiter.
abbrev with_colon : List ℕ
with_colon = b'0' ∷ b'a' ∷ b':' ∷ b'f' ∷ b'f' ∷ []

with_colon-Spells : Spells (b':' ∷ []) with_colon two_bytes
unfolding digit_of
with_colon-Spells =
    byte {b = 10} (omega arith) (delimiter refl refl (byte {b = 255} (omega arith) nothing))

nstr2buf-Spells_example : nstr2buf with_colon 16 (b':' ∷ []) ≡ done (some two_bytes)
nstr2buf-Spells_example = nstr2buf-Spells (b':' ∷ []) with_colon two_bytes with_colon-Spells

nstr2buf_one_digit_example : nstr2buf (b'7' ∷ []) 10 [] ≡ fault
unfolding digit_of
nstr2buf_one_digit_example = nstr2buf_one_digit 10 b'7' 7 [] (omega arith) (omega arith) refl
