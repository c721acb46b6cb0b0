-- ===== src/Smbios/Text/Sets.antt =====
-- What the functions of lib/smbios/smbios.c make of a well-formed set of strings.
use mosys.Common.{
  ℕ, zero, suc, ◌+◌, ◌-◌, ◌<◌, ◌≡◌, ◌≢◌, false, refl, sym, ap, ◌∙◌, Option, none, some, List, [],
  ◌∷◌, ◌++◌, map, ltb, ◌==◌, if◌then◌else◌, Run, done, fault, ◌>>=◌, length, take, drop, set,
  get_elem?, NoNul, strlen-append, arith, append_assoc, length-append, drop-append_length,
  take-append_length, drop-drop,
}
use mosys.Smbios.Text.{
  max_strings, clean_char, slot_text, parse_loop, table_len_loop, string_table_len, get_string_loop,
  get_string, max_string_length, strdup, string_copy,
}

-- A string of a table: it has a character, and no zero.
pub record IsText (s : List ℕ) : Type 0 where
  pub some_char : 0 < length s
  pub no_nul : NoNul s

abbrev pub AllTexts : List (List ℕ) → Type 0
AllTexts [] = Unit
AllTexts (s ∷ ss) = IsText s × AllTexts ss

-- The strings with their ends, and the zero behind them.
abbrev pub strings_end : List (List ℕ) → List ℕ
strings_end [] = 0 ∷ []
strings_end (s ∷ ss) = s ++ (0 ∷ strings_end ss)

-- A set without a string is two zeros.
abbrev pub string_set : List (List ℕ) → List ℕ
string_set [] = 0 ∷ 0 ∷ []
string_set (s ∷ ss) = strings_end (s ∷ ss)

-- Behind a string and its end.
pub drop-string :
    (c : ℕ) (cs rest : List ℕ) → drop (suc (length cs) + 1) (c ∷ (cs ++ (0 ∷ rest))) ≡ rest
drop-string c cs rest =
    sym (drop-drop (length (c ∷ cs)) 1 ((c ∷ cs) ++ (0 ∷ rest)))
    ∙ ap (drop 1) (drop-append_length (c ∷ cs) (0 ∷ rest))

pub eqb-ne : (a : ℕ) → a ≢ 0 → (a == 0) ≡ false
eqb-ne a h = ground (arith, h)

length-strings_end : (ss : List (List ℕ)) → 0 < length (strings_end ss)
length-strings_end [] = omega arith
length-strings_end (s ∷ ss) = omega (arith, length-append s (0 ∷ strings_end ss))

table_len_loop-strings :
    (ss : List (List ℕ)) (rest : List ℕ) (fuel tlen : ℕ)
    → AllTexts ss
    → length ss < fuel
    → table_len_loop fuel (strings_end ss ++ rest) tlen
      ≡ done (tlen + (length (strings_end ss) - 1))
unfolding table_len_loop
table_len_loop-strings ss rest zero tlen all h = absurd (omega arith)
table_len_loop-strings [] rest (suc fuel) tlen all h = ap done (omega arith)
table_len_loop-strings ([] ∷ ss) rest (suc fuel) tlen all h =
    absurd (omega (arith, all.0.some_char))
table_len_loop-strings ((c ∷ cs) ∷ ss) rest (suc fuel) tlen all h =
    let more = strings_end ss ++ rest in
    rw
      (
        append_assoc cs (0 ∷ strings_end ss) rest,
        eqb-ne c all.0.no_nul.0,
        strlen-append cs more all.0.no_nul.1,
        drop-string c cs more,
      )
      (table_len_loop-strings ss rest fuel (tlen + (suc (length cs) + 1)) all.1 (omega arith)
        ∙ ap done (omega (arith, length-append cs (0 ∷ strings_end ss), length-strings_end ss)))

pub length-texts : (ss : List (List ℕ)) → AllTexts ss → length ss < length (strings_end ss)
length-texts [] all = omega arith
length-texts (s ∷ ss) all =
    omega (arith, length-append s (0 ∷ strings_end ss), length-texts ss all.1)

-- `smbios_string_table_len` gives the number of bytes of the set, with the zeros at its end.
pub string_table_len-string_set :
    (ss : List (List ℕ)) (rest : List ℕ)
    → AllTexts ss
    → string_table_len (string_set ss ++ rest) ≡ done (length (string_set ss))
unfolding string_table_len
string_table_len-string_set [] rest all = refl
string_table_len-string_set ([] ∷ ss) rest all = absurd (omega (arith, all.0.some_char))
string_table_len-string_set ((c ∷ cs) ∷ ss) rest all = rw (eqb-ne c all.0.no_nul.0) (
    table_len_loop-strings ((c ∷ cs) ∷ ss) rest _ 1 all (
      omega
        (arith, length-append (strings_end ((c ∷ cs) ∷ ss)) rest, length-texts ((c ∷ cs) ∷ ss) all))
    ∙ ap done (omega arith))

copy_of : List ℕ → Run (Option (List ℕ))
copy_of p = elim p [
  | [] ↦ fault
  | c ∷ cs ↦ if c == 0 then done none else strdup (c ∷ cs) >>= λ s. done (some s)
]

string_copy-loop :
    (num : ℕ) (ptr : List ℕ) → string_copy ptr num ≡ (get_string_loop num ptr >>= copy_of)
unfolding string_copy get_string copy_of
string_copy-loop num ptr = ground arith

copy-strings :
    (num : ℕ) (ss : List (List ℕ)) (rest : List ℕ)
    → AllTexts ss
    → (get_string_loop num (strings_end ss ++ rest) >>= copy_of) ≡ done (get_elem? ss num)
unfolding get_string_loop copy_of strdup
copy-strings zero [] rest all = refl
copy-strings zero ([] ∷ ss) rest all = absurd (omega (arith, all.0.some_char))
copy-strings zero ((c ∷ cs) ∷ ss) rest all =
    rw
      (
        append_assoc cs (0 ∷ strings_end ss) rest,
        eqb-ne c all.0.no_nul.0,
        strlen-append cs (strings_end ss ++ rest) all.0.no_nul.1,
        take-append_length cs (0 ∷ (strings_end ss ++ rest)),
      )
      refl
copy-strings (suc num) [] rest all = refl
copy-strings (suc num) ([] ∷ ss) rest all = absurd (omega (arith, all.0.some_char))
copy-strings (suc num) ((c ∷ cs) ∷ ss) rest all =
    rw
      (
        append_assoc cs (0 ∷ strings_end ss) rest,
        eqb-ne c all.0.no_nul.0,
        strlen-append cs (strings_end ss ++ rest) all.0.no_nul.1,
        drop-string c cs (strings_end ss ++ rest),
      )
      (copy-strings num ss rest all.1)

-- The string with the number is found, if there are so many, and else none.
pub string_copy-strings :
    (ss : List (List ℕ)) (rest : List ℕ) (num : ℕ)
    → AllTexts ss
    → string_copy (strings_end ss ++ rest) num ≡ done (get_elem? ss num)
string_copy-strings ss rest num all =
    string_copy-loop num (strings_end ss ++ rest) ∙ copy-strings num ss rest all

-- A string as a slot keeps it: cut to 63 characters, with a dot for each that is not printed.
abbrev pub clean : List ℕ → List ℕ
clean s = map clean_char (take (max_string_length - 1) s)

-- The slots from number `id` on, filled with the strings as far as there are slots.
abbrev pub fill : ℕ → List (List ℕ) → List (List ℕ) → List (List ℕ)
fill id [] slots = slots
fill id (s ∷ ss) slots =
    fill (id + 1) ss (if ltb id max_strings then set slots id (clean s) else slots)

pub parse_loop-strings :
    (ss slots : List (List ℕ)) (rest : List ℕ) (fuel id : ℕ)
    → AllTexts ss
    → length ss < fuel
    → parse_loop fuel (strings_end ss ++ rest) id slots ≡ done (id + length ss, fill id ss slots)
unfolding parse_loop slot_text
parse_loop-strings ss slots rest zero id all h = absurd (omega arith)
parse_loop-strings [] slots rest (suc fuel) id all h = ap (λ n. done (n, slots)) (omega arith)
parse_loop-strings ([] ∷ ss) slots rest (suc fuel) id all h =
    absurd (omega (arith, all.0.some_char))
parse_loop-strings ((c ∷ cs) ∷ ss) slots rest (suc fuel) id all h =
    rw
      (
        append_assoc cs (0 ∷ strings_end ss) rest,
        eqb-ne c all.0.no_nul.0,
        strlen-append cs (strings_end ss ++ rest) all.0.no_nul.1,
        drop-string c cs (strings_end ss ++ rest),
        take-append_length cs (0 ∷ (strings_end ss ++ rest)),
      )
      (parse_loop-strings ss _ rest fuel (id + 1) all.1 (omega arith)
        ∙ ap (λ n. done (n, fill id ((c ∷ cs) ∷ ss) slots)) (omega arith))
