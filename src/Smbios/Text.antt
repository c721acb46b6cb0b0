-- ===== src/Smbios/Text.antt =====
-- lib/smbios/smbios.c: the strings behind a table: C strings one after another, and then one more
-- zero. A pointer is the list of bytes from it on to the end of the mapped memory.
pub mod Sets
pub mod Slots
use mosys.Common.{
  ℕ, zero, suc, ◌+◌, ◌-◌, Bool, ◌&&◌, Option, none, some, List, [], ◌∷◌, map, ltb, leb, ◌==◌,
  if◌then◌else◌, Run, done, fault, out_of_fuel, access, ◌>>=◌, length, take, drop, replicate, set,
  strlen,
}

abbrev pub max_strings : ℕ
max_strings = 10

abbrev pub max_string_length : ℕ
max_string_length = 64

-- A character of the C locale that is printed as it is.
abbrev pub is_print : ℕ → Bool
is_print c = leb 32 c && leb c 126

abbrev pub clean_char : ℕ → ℕ
clean_char c = if is_print c then c else b'.'

-- The text that is left in a slot for a string of `len` bytes.
unfoldable pub slot_text : List ℕ → ℕ → List ℕ
slot_text ptr len = map clean_char (take (max_string_length - 1) (take len ptr))

-- The rounds of the loop, with fuel: the slots, and `id`.
unfoldable pub parse_loop : ℕ → List ℕ → ℕ → List (List ℕ) → Run (ℕ × List (List ℕ))
parse_loop zero ptr id slots = out_of_fuel
parse_loop (suc fuel) [] id slots = fault
parse_loop (suc fuel) (c ∷ cs) id slots =
    if c == 0
    then done (id, slots)
    else (access (strlen (c ∷ cs)) >>= λ len.
        parse_loop fuel (drop (len + 1) (c ∷ cs)) (id + 1)
          (if ltb id max_strings then set slots id (slot_text (c ∷ cs) len) else slots))

-- The number of strings, and the slots; a slot is its text before the first zero. `none` is -1.
unfoldable pub smbios_parse_string_table :
    Option (List ℕ) → Option (List (List ℕ)) → Run (Option (ℕ × List (List ℕ)))
smbios_parse_string_table none slots = done none
smbios_parse_string_table (some ptr) none = done none
smbios_parse_string_table (some ptr) (some slots) =
    parse_loop (suc (length ptr)) ptr 1 (set slots 0 []) >>= λ (id, filled).
    done (some (id - 1, filled))

unfoldable pub table_len_loop : ℕ → List ℕ → ℕ → Run ℕ
table_len_loop zero ptr tlen = out_of_fuel
table_len_loop (suc fuel) [] tlen = fault
table_len_loop (suc fuel) (c ∷ cs) tlen =
    if c == 0
    then done tlen
    else (access (strlen (c ∷ cs)) >>= λ n.
        table_len_loop fuel (drop (n + 1) (c ∷ cs)) (tlen + (n + 1)))

unfoldable pub string_table_len : List ℕ → Run ℕ
string_table_len [] = fault
string_table_len (c ∷ cs) =
    if c == 0 then done 2 else table_len_loop (suc (length (c ∷ cs))) (c ∷ cs) 1

-- `none` is -1.
unfoldable pub smbios_string_table_len : Option (List ℕ) → Run (Option ℕ)
smbios_string_table_len none = done none
smbios_string_table_len (some ptr) = string_table_len ptr >>= λ n. done (some n)

unfoldable pub get_string_loop : ℕ → List ℕ → Run (List ℕ)
get_string_loop zero ptr = done ptr
get_string_loop (suc num) [] = fault
get_string_loop (suc num) (c ∷ cs) =
    if c == 0
    then done (c ∷ cs)
    else access (strlen (c ∷ cs)) >>= λ n. get_string_loop num (drop (n + 1) (c ∷ cs))

-- The pointer is not null here; a number below 0, for which the code returns NULL, is left out.
unfoldable pub get_string : List ℕ → ℕ → Run (Option (List ℕ))
get_string ptr num = get_string_loop num ptr >>= λ p. elim p [
  | [] ↦ fault
  | c ∷ cs ↦ if c == 0 then done none else done (some (c ∷ cs))
]

unfoldable pub smbios_get_string : Option (List ℕ) → ℕ → Run (Option (List ℕ))
smbios_get_string none num = done none
smbios_get_string (some ptr) num = get_string ptr num

-- `mosys_strdup`.
unfoldable pub strdup : List ℕ → Run (List ℕ)
strdup ptr = access (strlen ptr) >>= λ n. done (take n ptr)

-- What `smbios_get_string` points to, as a copy.
unfoldable pub string_copy : List ℕ → ℕ → Run (Option (List ℕ))
unfolding strdup
string_copy ptr num = get_string ptr num >>= λ found. elim found [
  | none ↦ done none
  | some p ↦ strdup p >>= λ s. done (some s)
]
