-- ===== src/Smbios/Table/Walk.antt =====
-- The search of lib/smbios/smbios.c over tables that are laid out one after another.
use mosys.Common.{
  ℕ, zero, suc, ◌+◌, ◌-◌, ◌<◌, ◌≡◌, refl, sym, ap, Bool, true, false, Option, none, some, List, [],
  ◌∷◌, leb-le, leb-gt, ◌==◌, done, length, drop, length-append, arith, Bool-cases, inl, inr,
}
use mosys.Smbios.Text.Sets.{string_set, string_table_len-string_set}
use mosys.Smbios.Entry.{table_length}
use mosys.Smbios.Table.{SmbiosIterator, itr_next, search_loop}
use mosys.Smbios.Table.Layout.{
  Structure, AllStructures, type_of, bytes_of, area, find_structure, At, type_at, length_at,
  strings_at, rest_at,
}

abbrev pub move_to : SmbiosIterator → ℕ → SmbiosIterator
move_to itr offset = record itr { current = offset; header = offset }

-- The iterator stands on the first of the tables `ss`, which end where the memory ends.
pub record Stands (itr : SmbiosIterator) (offset : ℕ) (ss : List Structure) : Type 0 where
  pub whole : table_length itr.entry ≡ length itr.table_data
  pub tables : AllStructures ss
  pub stored : drop offset itr.table_data ≡ area ss
  pub inside : offset + length (area ss) ≡ length itr.table_data

abbrev after_next : SmbiosIterator → ℕ → List Structure → ℕ × SmbiosIterator
after_next itr next [] = (1, move_to itr 0)
after_next itr next (s ∷ ss) = (0, move_to itr next)

itr_next-Stands :
    (itr : SmbiosIterator) (offset : ℕ) (s : Structure) (ss : List Structure)
    → Stands itr offset (s ∷ ss)
    → itr_next (move_to itr offset) ≡ done (after_next itr (offset + length (bytes_of s)) ss)
unfolding itr_next
itr_next-Stands itr offset s [] h =
    rw
      (
        length_at itr.table_data offset s [] at h.tables.0,
        strings_at itr.table_data offset s [] at h.tables.0,
        string_table_len-string_set s.strings [] h.tables.0.texts,
        leb-le (table_length itr.entry)
            (offset + (length s.formatted + length (string_set s.strings)) + 1)
            (omega (arith, h.whole, h.inside, size, length-append (bytes_of s) [])),
      )
      refl
  where
    at : At itr.table_data offset s []
    at = record { here = h.stored }

    size : length (bytes_of s) ≡ length s.formatted + length (string_set s.strings)
    size = length-append s.formatted (string_set s.strings)
itr_next-Stands itr offset s (s' ∷ ss) h =
    rw
      (
        length_at itr.table_data offset s (area (s' ∷ ss)) at h.tables.0,
        strings_at itr.table_data offset s (area (s' ∷ ss)) at h.tables.0,
        string_table_len-string_set s.strings (area (s' ∷ ss)) h.tables.0.texts,
        leb-gt (table_length itr.entry)
            (offset + (length s.formatted + length (string_set s.strings)) + 1)
            (omega (
              arith,
              h.whole,
              h.inside,
              size,
              length-append (bytes_of s) (area (s' ∷ ss)),
              length-append (bytes_of s') (area ss),
              length-append s'.formatted (string_set s'.strings),
              h.tables.1.0.has_header,
            )),
      )
      (ap (λ n. done (0, move_to itr (offset + n))) (sym size))
  where
    at : At itr.table_data offset s (area (s' ∷ ss))
    at = record { here = h.stored }

    size : length (bytes_of s) ≡ length s.formatted + length (string_set s.strings)
    size = length-append s.formatted (string_set s.strings)

pub next-Stands :
    (itr : SmbiosIterator) (offset : ℕ) (s : Structure) (ss : List Structure)
    → Stands itr offset (s ∷ ss)
    → Stands itr (offset + length (bytes_of s)) ss
next-Stands itr offset s ss h = record {
  whole = h.whole;
  tables = h.tables.1;
  stored = rest_at itr.table_data offset s (area ss) (record { here = h.stored }) h.tables.0;
  inside = omega (arith, h.inside, length-append (bytes_of s) (area ss));
}

abbrev pub search_result : SmbiosIterator → Option (ℕ × Structure) → Bool × SmbiosIterator
search_result itr none = (false, move_to itr 0)
search_result itr (some (offset, s)) = (true, move_to itr offset)

-- From the first of the tables on, the search finds the table that `find_structure` tells.
pub search_loop-Stands :
    (ss : List Structure) (itr : SmbiosIterator) (offset fuel type number : ℕ) (s : Structure)
    → Stands itr offset (s ∷ ss)
    → length ss < fuel
    → search_loop fuel type number (move_to itr offset)
      ≡ done (search_result itr (find_structure type number offset (s ∷ ss)))
unfolding search_loop find_structure
search_loop-Stands ss itr offset zero type number s h enough = absurd (omega arith)
search_loop-Stands [] itr offset (suc fuel) type number s h enough =
    rw
      (
        type_at itr.table_data offset s [] (record { here = h.stored }) h.tables.0,
        itr_next-Stands itr offset s [] h,
      )
      (elim (Bool-cases (type_of s == type)) [
        | inl same ↦ rw same (elim (Bool-cases (number == 0)) [
          | inl first ↦ rw first refl
          | inr more ↦ rw more refl
        ])
        | inr other ↦ rw other refl
      ])
search_loop-Stands (s' ∷ ss) itr offset (suc fuel) type number s h enough =
    rw
      (
        type_at itr.table_data offset s (area (s' ∷ ss)) (record { here = h.stored }) h.tables.0,
        itr_next-Stands itr offset s (s' ∷ ss) h,
      )
      (elim (Bool-cases (type_of s == type)) [
        | inl same ↦ rw same (elim (Bool-cases (number == 0)) [
          | inl first ↦ rw first refl
          | inr more ↦ rw more (
              search_loop-Stands ss itr (offset + length (bytes_of s)) fuel type (number - 1) s'
                next (omega arith))
        ])
        | inr other ↦ rw other (
            search_loop-Stands ss itr (offset + length (bytes_of s)) fuel type number s' next
              (omega arith))
      ])
  where
    next : Stands itr (offset + length (bytes_of s)) (s' ∷ ss)
    next = next-Stands itr offset s (s' ∷ ss) h
