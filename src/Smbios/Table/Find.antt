-- ===== src/Smbios/Table/Find.antt =====
-- What the searches of lib/smbios/smbios.c find among tables that lie one after another in memory.
use mosys.Common.{
  ℕ, suc, ◌+◌, ◌-◌, ◌≤◌, ◌≡◌, refl, ap, ◌∙◌, Option, none, some, List, [], ◌∷◌, ◌++◌, ltb-ge, Run,
  done, fault, ◌>>=◌, ◌==◌, if◌then◌else◌, Bool-cases, inl, inr, length, drop, get_elem?,
  length-append, arith, Rc, ok, failed,
}
use mosys.Smbios.Text.{string_copy}
use mosys.Smbios.Text.Sets.{AllTexts, string_set, string_copy-strings}
use mosys.Smbios.Entry.{Machine, table_length}
use mosys.Smbios.Table.{
  SmbiosIterator, SmbiosTable, smbios_itr_setup, smbios_find_table_raw, smbios_find_table,
  smbios_find_string, smbios_type_end, header_length, copy_table,
}
use mosys.Smbios.Table.Layout.{
  Structure, IsStructure, AllStructures, type_of, bytes_of, area, find_structure, At, length_at,
  strings_at,
}
use mosys.Smbios.Table.Walk.{move_to, Stands, next-Stands, search_result, search_loop-Stands}
use mosys.Smbios.Table.Copy.{table_of, copy_table-At}

-- The memory of the iterator holds the tables and nothing else.
pub record Holds (itr : SmbiosIterator) (ss : List Structure) : Type 0 where
  pub whole : table_length itr.entry ≡ length itr.table_data
  pub tables : AllStructures ss
  pub stored : itr.table_data ≡ area ss

-- What is found lies where it is said to lie.
Found : SmbiosIterator → Option (ℕ × Structure) → Type 0
Found itr none = Unit
Found itr (some (offset, s)) = (rest : List ℕ) × At itr.table_data offset s rest × IsStructure s

find_structure-Found :
    (ss : List Structure) (itr : SmbiosIterator) (type number offset : ℕ)
    → Stands itr offset ss
    → Found itr (find_structure type number offset ss)
unfolding find_structure Found
find_structure-Found [] itr type number offset h = tt
find_structure-Found (s ∷ ss) itr type number offset h = elim (Bool-cases (type_of s == type)) [
  | inl same ↦ rw same (elim (Bool-cases (number == 0)) [
    | inl first ↦ rw first (area ss, record { here = h.stored }, h.tables.0)
    | inr more ↦ rw more (find_structure-Found ss itr type (number - 1) _ next)
  ])
  | inr other ↦ rw other (find_structure-Found ss itr type number _ next)
]
  where
    next : Stands itr (offset + length (bytes_of s)) ss
    next = next-Stands itr offset s ss h

length-area : (ss : List Structure) → AllStructures ss → length ss ≤ length (area ss)
length-area [] all = omega arith
length-area (s ∷ ss) all = omega (
  arith,
  length-append (bytes_of s) (area ss),
  length-append s.formatted (string_set s.strings),
  all.0.has_header,
  length-area ss all.1,
)

raw_result : SmbiosIterator → Option (ℕ × Structure) → Rc × Option SmbiosIterator
raw_result itr none = (failed, some (move_to itr 0))
raw_result itr (some (offset, t)) = (ok, some (move_to itr offset))

raw_result-search_result :
    (itr : SmbiosIterator) (o : Option (ℕ × Structure))
    → (if (search_result itr o).0 then ok else failed, some (search_result itr o).1)
      ≡ raw_result itr o
unfolding raw_result
raw_result-search_result itr none = refl
raw_result-search_result itr (some (offset, t)) = refl

module _ (m : Machine) (itr : SmbiosIterator) (s : Structure) (ss : List Structure)
    (h : Holds itr (s ∷ ss)) where
  start : Stands itr 0 (s ∷ ss)
  start = record {
    whole = h.whole;
    tables = h.tables;
    stored = h.stored;
    inside = omega (arith, ap length h.stored);
  }

  find_table_raw :
      (type number baseaddr len : ℕ)
      → smbios_find_table_raw m (some itr) type number baseaddr len
        ≡ done (raw_result itr (find_structure type number 0 (s ∷ ss)))
  unfolding smbios_find_table_raw smbios_itr_setup
  find_table_raw type number baseaddr len =
      rw
        (search_loop-Stands ss itr 0 (suc (table_length itr.entry)) type number s start
          (omega (arith, h.whole, ap length h.stored, length-area (s ∷ ss) h.tables)))
        (ap done (raw_result-search_result itr (find_structure type number 0 (s ∷ ss))))

abbrev pub table_result :
    SmbiosIterator → Option (ℕ × Structure) → Option SmbiosTable × Option SmbiosIterator
table_result itr none = (none, some (move_to itr 0))
table_result itr (some (offset, s)) = (some (table_of s), some (move_to itr offset))

abbrev pub string_result :
    SmbiosIterator → ℕ → Option (ℕ × Structure) → Option (List ℕ) × Option SmbiosIterator
string_result itr number none = (none, some (move_to itr 0))
string_result itr number (some (offset, s)) =
    (get_elem? s.strings number, some (move_to itr offset))

string_copy-At :
    (itr : SmbiosIterator) (offset : ℕ) (s : Structure) (rest : List ℕ) (number : ℕ)
    → At itr.table_data offset s rest
    → IsStructure s
    → string_copy (drop (offset + length s.formatted) itr.table_data) number
      ≡ done (get_elem? s.strings number)
string_copy-At itr offset s rest number at sound =
    ap (λ p. string_copy p number) (strings_at itr.table_data offset s rest at sound)
    ∙ any_set s.strings sound.texts
  where
    any_set :
        (ts : List (List ℕ))
        → AllTexts ts
        → string_copy (string_set ts ++ rest) number ≡ done (get_elem? ts number)
    any_set [] all = string_copy-strings [] (0 ∷ rest) number all
    any_set (t ∷ ts) all = string_copy-strings (t ∷ ts) rest number all

table_after : Rc × Option SmbiosIterator → Run (Option SmbiosTable × Option SmbiosIterator)
table_after (rc, st') = elim rc [
  | failed ↦ done (none, st')
  | ok ↦ elim st' [
    | none ↦ fault
    | some itr ↦ copy_table itr >>= λ table. done (some table, some itr)
  ]
]

table_after-raw_result :
    (itr : SmbiosIterator) (o : Option (ℕ × Structure))
    → Found itr o
    → table_after (raw_result itr o) ≡ done (table_result itr o)
unfolding table_after raw_result Found
table_after-raw_result itr none found = refl
table_after-raw_result itr (some (offset, t)) found =
    rw (copy_table-At itr offset t found.0 found.1 found.2) refl

string_after : ℕ → Rc × Option SmbiosIterator → Run (Option (List ℕ) × Option SmbiosIterator)
string_after number (rc, st') = elim rc [
  | failed ↦ done (none, st')
  | ok ↦ elim st' [
    | none ↦ fault
    | some itr ↦ header_length itr >>= λ size.
        string_copy (drop (itr.current + size) itr.table_data) number >>= λ found.
        done (found, some itr)
  ]
]

string_after-raw_result :
    (itr : SmbiosIterator) (number : ℕ) (o : Option (ℕ × Structure))
    → Found itr o
    → string_after number (raw_result itr o) ≡ done (string_result itr number o)
unfolding string_after raw_result Found
string_after-raw_result itr number none found = refl
string_after-raw_result itr number (some (offset, t)) found =
    rw
      (
        length_at itr.table_data offset t found.0 found.1 found.2,
        string_copy-At itr offset t found.0 number found.1 found.2,
      )
      refl

-- Wherever the iterator stands, among the tables in memory `smbios_find_table` finds the one of the
-- type with the number, copies it with its strings, and leaves the iterator on it; if there is none,
-- it returns -1 and leaves the iterator on the first table. The types end at 127.
pub smbios_find_table-Holds :
    (m : Machine) (itr : SmbiosIterator) (s : Structure) (ss : List Structure)
    (type number baseaddr len : ℕ)
    → Holds itr (s ∷ ss)
    → type ≤ smbios_type_end
    → smbios_find_table m (some itr) type number baseaddr len
      ≡ done (table_result itr (find_structure type number 0 (s ∷ ss)))
unfolding smbios_find_table table_after
smbios_find_table-Holds m itr s ss type number baseaddr len h small =
    rw (ltb-ge smbios_type_end type small, find_table_raw m itr s ss h type number baseaddr len)
      (table_after-raw_result itr (find_structure type number 0 (s ∷ ss))
        (find_structure-Found (s ∷ ss) itr type number 0 (start m itr s ss h)))

-- So does `smbios_find_string` for the first table of the type, and it returns a copy of its string
-- with the number, from 0 on, or NULL if the table, or such a string of it, is not there.
pub smbios_find_string-Holds :
    (m : Machine) (itr : SmbiosIterator) (s : Structure) (ss : List Structure)
    (type number baseaddr len : ℕ)
    → Holds itr (s ∷ ss)
    → type ≤ smbios_type_end
    → smbios_find_string m (some itr) type number baseaddr len
      ≡ done (string_result itr number (find_structure type 0 0 (s ∷ ss)))
unfolding smbios_find_string string_after
smbios_find_string-Holds m itr s ss type number baseaddr len h small =
    rw (ltb-ge smbios_type_end type small, find_table_raw m itr s ss h type 0 baseaddr len)
      (string_after-raw_result itr number (find_structure type 0 0 (s ∷ ss))
        (find_structure-Found (s ∷ ss) itr type 0 0 (start m itr s ss h)))
