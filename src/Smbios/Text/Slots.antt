-- ===== src/Smbios/Text/Slots.antt =====
-- The slots that `smbios_parse_string_table` of lib/smbios/smbios.c fills.
use mosys.Common.{
  ℕ, zero, suc, ◌+◌, ◌<◌, ◌≡◌, refl, ap, ◌∙◌, some, List, [], ◌∷◌, ◌++◌, ltb, done, length,
  replicate, set, length-set, get_elem?, get_elem?-set_self, get_elem?-set_ne, arith, length-append,
  ltb-lt, Bool-cases, inl, inr,
}
use mosys.Smbios.Text.{max_strings, parse_loop, smbios_parse_string_table}
use mosys.Smbios.Text.Sets.{
  AllTexts, strings_end, string_set, clean, fill, parse_loop-strings, length-texts,
}

length-fill :
    (ss : List (List ℕ)) (id : ℕ) (slots : List (List ℕ)) → length (fill id ss slots) ≡ length slots
length-fill [] id slots = refl
length-fill (s ∷ ss) id slots = elim (Bool-cases (ltb id max_strings)) [
  | inl room ↦ rw room (length-fill ss (id + 1) _ ∙ length-set slots id (clean s))
  | inr full ↦ rw full (length-fill ss (id + 1) slots)
]

fill_below :
    (ss : List (List ℕ)) (id j : ℕ) (slots : List (List ℕ))
    → j < id
    → get_elem? (fill id ss slots) j ≡ get_elem? slots j
fill_below [] id j slots h = refl
fill_below (s ∷ ss) id j slots h = elim (Bool-cases (ltb id max_strings)) [
  | inl room ↦ rw room (
      fill_below ss (id + 1) j _ (omega arith)
      ∙ get_elem?-set_ne slots {i = id} {j = j} (clean s) (λ e. omega (arith, e)))
  | inr full ↦ rw full (fill_below ss (id + 1) j slots (omega arith))
]

fill_at :
    (ss : List (List ℕ)) (id k : ℕ) (s : List ℕ) (slots : List (List ℕ))
    → length slots ≡ max_strings
    → get_elem? ss k ≡ some s
    → id + k < max_strings
    → get_elem? (fill id ss slots) (id + k) ≡ some (clean s)
fill_at [] id k s slots size found h = cc (found)
fill_at (x ∷ ss) id zero s slots size found h =
    let here : id + 0 ≡ id = omega arith in
    rw (here, ltb-lt id max_strings (omega arith))
      (fill_below ss (id + 1) id _ (omega arith)
        ∙ get_elem?-set_self slots id (clean x) (omega (arith, size))
        ∙ cc (found))
fill_at (x ∷ ss) id (suc k) s slots size found h =
    let there : id + suc k ≡ id + 1 + k = omega arith in
    rw (there, ltb-lt id max_strings (omega arith))
      (fill_at ss (id + 1) k s _ (length-set slots id (clean x) ∙ size) found (omega arith))

-- Of a well-formed set of strings `smbios_parse_string_table` returns the number, and it leaves each
-- of the first nine in the slot of its number, from 1 on, and the empty text in slot 0.
pub smbios_parse_string_table-strings :
    (ss slots : List (List ℕ)) (rest : List ℕ)
    → AllTexts ss
    → length slots ≡ max_strings
    → (filled : List (List ℕ)) × (smbios_parse_string_table
          (some (strings_end ss ++ rest))
          (some slots)
        ≡ done (some (length ss, filled)))
      × (length filled ≡ max_strings)
      × (get_elem? filled 0 ≡ some [])
      × ((k : ℕ) (s : List ℕ)
          → get_elem? ss k ≡ some s
          → 1 + k < max_strings
          → get_elem? filled (1 + k) ≡ some (clean s))
unfolding smbios_parse_string_table
smbios_parse_string_table-strings ss slots rest all size = (
  fill 1 ss (set slots 0 []),
  rw
      (parse_loop-strings ss (set slots 0 []) rest (suc (length (strings_end ss ++ rest))) 1 all
        (omega (arith, length-texts ss all, length-append (strings_end ss) rest)))
      (ap (λ n. done (some (n, fill 1 ss (set slots 0 [])))) (omega arith)),
  length-fill ss 1 (set slots 0 []) ∙ length-set slots 0 [] ∙ size,
  fill_below ss 1 0 (set slots 0 []) (omega arith)
      ∙ get_elem?-set_self slots 0 [] (omega (arith, size)),
  λ k s found h. fill_at ss 1 k s (set slots 0 []) (length-set slots 0 [] ∙ size) found h,
)

-- The set of a table, whose slots are empty before.
pub smbios_parse_string_table-string_set :
    (ss : List (List ℕ)) (rest : List ℕ)
    → AllTexts ss
    → smbios_parse_string_table (some (string_set ss ++ rest)) (some (replicate max_strings []))
      ≡ done (some (length ss, fill 1 ss (replicate max_strings [])))
unfolding smbios_parse_string_table parse_loop
smbios_parse_string_table-string_set [] rest all = refl
smbios_parse_string_table-string_set (s ∷ ss) rest all =
    rw
      (parse_loop-strings (s ∷ ss) (replicate max_strings []) rest
        (suc (length (strings_end (s ∷ ss) ++ rest))) 1 all
        (omega (arith, length-texts (s ∷ ss) all, length-append (strings_end (s ∷ ss)) rest)))
      (ap (λ n. done (some (n, fill 1 (s ∷ ss) (replicate max_strings [])))) (omega arith))
