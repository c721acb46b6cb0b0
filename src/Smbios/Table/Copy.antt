-- ===== src/Smbios/Table/Copy.antt =====
-- The copy of a table that `smbios_find_table` of lib/smbios/smbios.c leaves with its caller.
use mosys.Common.{
  ℕ, zero, suc, ◌+◌, ◌-◌, ◌≤◌, ◌≡◌, refl, sym, ap, ◌∙◌, some, List, [], ◌∷◌, ◌++◌, leb-le, ltb-ge,
  done, peek, poke, poke_fits, length, take, drop, replicate, length-append, length-drop,
  length-replicate, drop-replicate, arith, drop-drop, append_assoc,
}
use mosys.Smbios.Text.{max_strings}
use mosys.Smbios.Text.Sets.{string_set, fill}
use mosys.Smbios.Text.Slots.{smbios_parse_string_table-string_set}
use mosys.Smbios.Table.{SmbiosTable, SmbiosIterator, sizeof_header, sizeof_data, copy_table}
use mosys.Smbios.Table.Layout.{Structure, IsStructure, At, length_at, strings_at}
use mosys.Smbios.Table.Walk.{move_to}

-- The slots for strings, filled with a table's strings.
abbrev pub slots_of : List (List ℕ) → List (List ℕ)
slots_of ss = fill 1 ss (replicate max_strings [])

-- The header, the rest of the formatted bytes with zeros behind them, and the strings.
abbrev pub table_of : Structure → SmbiosTable
table_of s = record {
  header = take sizeof_header s.formatted;
  table_data =
      drop sizeof_header s.formatted
      ++ replicate (sizeof_data - length (drop sizeof_header s.formatted)) 0;
  string = slots_of s.strings;
}

peek_append : (n : ℕ) (xs ys : List ℕ) → n ≤ length xs → peek (xs ++ ys) n ≡ some (take n xs)
unfolding peek
peek_append n xs ys h =
    rw (leb-le n (length (xs ++ ys)) (omega (arith, length-append xs ys))) (ap some (prefix n xs h))
  where
    prefix : (n : ℕ) (xs : List ℕ) → n ≤ length xs → take n (xs ++ ys) ≡ take n xs
    prefix zero xs h = refl
    prefix (suc n) [] h = elim h [ ]
    prefix (suc n) (x ∷ xs) h = ap (λ zs. x ∷ zs) (prefix n xs (omega arith))

drop-append_le : (n : ℕ) (xs ys : List ℕ) → n ≤ length xs → drop n (xs ++ ys) ≡ drop n xs ++ ys
drop-append_le zero xs ys h = refl
drop-append_le (suc n) [] ys h = elim h [ ]
drop-append_le (suc n) (x ∷ xs) ys h = drop-append_le n xs ys (omega arith)

take_all : (xs : List ℕ) → take (length xs) xs ≡ xs
take_all [] = refl
take_all (x ∷ xs) = ap (λ zs. x ∷ zs) (take_all xs)

poke_zeros :
    (n : ℕ) (src : List ℕ)
    → length src ≤ n
    → poke (replicate n 0) 0 src ≡ some (src ++ replicate (n - length src) 0)
poke_zeros n src h =
    poke_fits (replicate n 0) 0 src (omega (arith, length-replicate {A = ℕ} n 0, h))
    ∙ ap (λ r. some (src ++ r)) (drop-replicate n (0 + length src) 0)
    ∙ ap (λ k. some (src ++ replicate k 0)) (omega arith)

module _ (itr : SmbiosIterator) (offset : ℕ) (s : Structure) (rest : List ℕ)
    (at : At itr.table_data offset s rest) (ok : IsStructure s) where
  behind : List ℕ
  behind = string_set s.strings ++ rest

  split : drop offset itr.table_data ≡ s.formatted ++ (string_set s.strings ++ rest)
  split = at.here ∙ append_assoc s.formatted (string_set s.strings) rest

  header_bytes :
      peek (drop offset itr.table_data) sizeof_header ≡ some (take sizeof_header s.formatted)
  header_bytes =
      ap (λ r. peek r sizeof_header) split
      ∙ peek_append sizeof_header s.formatted (string_set s.strings ++ rest) ok.has_header

  body_bytes :
      peek (drop (offset + sizeof_header) itr.table_data) (length s.formatted - sizeof_header)
      ≡ some (drop sizeof_header s.formatted)
  body_bytes =
      ap (λ r. peek r (length s.formatted - sizeof_header))
        (sym (drop-drop offset sizeof_header itr.table_data)
          ∙ ap (drop sizeof_header) split
          ∙ drop-append_le sizeof_header s.formatted (string_set s.strings ++ rest) ok.has_header)
      ∙ ap (peek (drop sizeof_header s.formatted ++ (string_set s.strings ++ rest)))
          (sym (length-drop sizeof_header s.formatted))
      ∙ peek_append (length (drop sizeof_header s.formatted)) (drop sizeof_header s.formatted)
          (string_set s.strings ++ rest) (omega arith)
      ∙ ap some (take_all (drop sizeof_header s.formatted))

  -- The copy of a table in memory holds its bytes and strings.
  pub copy_table-At : copy_table (move_to itr offset) ≡ done (table_of s)
  unfolding copy_table
  copy_table-At =
      rw
        (
          header_bytes,
          length_at itr.table_data offset s rest at ok,
          ltb-ge (length s.formatted) sizeof_header ok.has_header,
          body_bytes,
          poke_zeros sizeof_data (drop sizeof_header s.formatted)
              (omega (arith, length-drop sizeof_header s.formatted, ok.byte_sized)),
          strings_at itr.table_data offset s rest at ok,
          smbios_parse_string_table-string_set s.strings rest ok.texts,
        )
        refl
