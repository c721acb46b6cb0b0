-- ===== src/StringBuilder/Tests.antt =====
-- Runs of the code of lib/string/string_builder.c on a buffer of 8 bytes.
use mosys.Common.{
  NoNul, ℕ, ◌+◌, ◌-◌, ◌/◌, ◌%◌, ◌≡◌, refl, some, List, [], ◌∷◌, ◌++◌, min, done, length, take,
  arith, ltb, if◌then◌else◌,
}
use mosys.StringBuilder.{StringBuilder, string_builder_vsnprintf, string_builder_strncat}
use mosys.StringBuilder.Append.{HasText, Documented, string_builder_vsnprintf-HasText}
use mosys.StringBuilder.Concat.{string_builder_strncat-HasText}

-- The text "ab", and five bytes behind its end.
abbrev two_letters : List ℕ
two_letters = 97 ∷ 98 ∷ []

abbrev holder : StringBuilder
holder = record { buffer_size = 8; used_size = 2; buffer = 97 ∷ 98 ∷ 0 ∷ 7 ∷ 7 ∷ 7 ∷ 7 ∷ 7 ∷ [] }

holder-HasText : HasText holder two_letters 5
holder-HasText = record {
  rest = 7 ∷ 7 ∷ 7 ∷ 7 ∷ 7 ∷ [];
  stored = refl;
  used = refl;
  size = refl;
  room = refl;
  small = omega arith;
}

abbrev new_text : List ℕ
new_text = 99 ∷ 100 ∷ 101 ∷ []

new_text-NoNul : NoNul new_text
new_text-NoNul = (λ e. omega (arith, e), (λ e. omega (arith, e), (λ e. omega (arith, e), tt)))

string_builder_strncat-HasText_example :
    (b' : StringBuilder) × (string_builder_strncat (some holder) (some new_text) 2
      ≡ done (some (length (take (min 5 2) new_text)), some b'))
    × HasText b' (two_letters ++ take (min 5 2) new_text) (5 - length (take (min 5 2) new_text))
string_builder_strncat-HasText_example =
    string_builder_strncat-HasText holder two_letters new_text 5 2 holder-HasText new_text-NoNul

-- A C library whose only formats are two digits of a byte.
abbrev digit : ℕ → ℕ
digit n = if ltb (n % 16) 10 then 48 + n % 16 else 87 + n % 16

abbrev two_digits : ℕ → List ℕ
two_digits c = digit (c / 16) ∷ digit c ∷ []

abbrev print : ℕ → ℕ → List ℕ × ℕ
print size c = (take (size - 1) (two_digits c) ++ (0 ∷ []), 2)

one_less : (n : ℕ) → n + 1 - 1 ≡ n
one_less n = omega arith

print-Documented : Documented print two_digits
print-Documented = record {
  stores = λ n f. rw (one_less n) refl;
  returns = λ n f. refl;
  bounded = λ f. omega arith;
}

string_builder_vsnprintf-HasText_example :
    (b' : StringBuilder) × (string_builder_vsnprintf print (some holder) 2 (some 0x34)
      ≡ done (some (length (take (min 5 (2 - 1)) (two_digits 0x34))), some b'))
    × HasText b'
        (two_letters ++ take (min 5 (2 - 1)) (two_digits 0x34))
        (5 - length (take (min 5 (2 - 1)) (two_digits 0x34)))
string_builder_vsnprintf-HasText_example =
    string_builder_vsnprintf-HasText print two_digits print-Documented holder two_letters 5 2 0x34
      holder-HasText (omega arith) (omega arith)

abbrev three_bytes : List ℕ
three_bytes = 0x12 ∷ 0x34 ∷ 0x56 ∷ []
