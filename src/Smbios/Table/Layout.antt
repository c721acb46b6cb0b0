-- ===== src/Smbios/Table/Layout.antt =====
-- How SMBIOS tables lie in memory, as lib/smbios/smbios.c walks over them.
use mosys.Common.{
  ℕ, zero, suc, ◌+◌, ◌-◌, ◌^◌, ◌≤◌, ◌<◌, ◌≡◌, refl, sym, ap, ◌∙◌, Option, none, some, List, [], ◌∷◌,
  ◌++◌, ◌==◌, if◌then◌else◌, length, drop, get_elem?, get_or, arith, append_assoc,
  drop-append_length, drop-drop,
}
use mosys.Smbios.Text.Sets.{AllTexts, string_set}

-- A table: its formatted bytes, the header included, and its strings.
pub record Structure : Type 0 where
  pub formatted : List ℕ
  pub strings : List (List ℕ)

-- The formatted bytes hold a header, which tells their number.
pub record IsStructure (s : Structure) : Type 0 where
  pub sized : get_or s.formatted 1 0 ≡ length s.formatted
  pub has_header : 4 ≤ length s.formatted
  pub byte_sized : length s.formatted < 2 ^ 8
  pub texts : AllTexts s.strings

abbrev pub AllStructures : List Structure → Type 0
AllStructures [] = Unit
AllStructures (s ∷ ss) = IsStructure s × AllStructures ss

abbrev pub type_of : Structure → ℕ
type_of s = get_or s.formatted 0 0

abbrev pub bytes_of : Structure → List ℕ
bytes_of s = s.formatted ++ string_set s.strings

abbrev pub area : List Structure → List ℕ
area [] = []
area (s ∷ ss) = bytes_of s ++ area ss

-- The table of a type with the number among those of that type, and its offset.
unfoldable pub find_structure : ℕ → ℕ → ℕ → List Structure → Option (ℕ × Structure)
find_structure type number offset [] = none
find_structure type number offset (s ∷ ss) =
    let left = if type_of s == type then number - 1 else number in
    let later = find_structure type left (offset + length (bytes_of s)) ss in
    if type_of s == type then (if number == 0 then some (offset, s) else later) else later

get_elem-or :
    (xs ys : List ℕ) (i : ℕ) → i < length xs → get_elem? (xs ++ ys) i ≡ some (get_or xs i 0)
get_elem-or [] ys i h = elim h [ ]
get_elem-or (x ∷ xs) ys zero h = refl
get_elem-or (x ∷ xs) ys (suc i) h = get_elem-or xs ys i (omega arith)

pub get_elem?-drop : (xs : List ℕ) (n i : ℕ) → get_elem? xs (n + i) ≡ get_elem? (drop n xs) i
get_elem?-drop xs zero i = ap (get_elem? xs) (omega arith)
get_elem?-drop [] (suc n) i = refl
get_elem?-drop (x ∷ xs) (suc n) i =
    let e : suc n + i ≡ suc (n + i) = omega arith in
    ap (get_elem? (x ∷ xs)) e ∙ get_elem?-drop xs n i

-- At the offset of a table that is followed by others.
pub record At (bytes : List ℕ) (offset : ℕ) (s : Structure) (rest : List ℕ) : Type 0 where
  pub here : drop offset bytes ≡ bytes_of s ++ rest

module _ (bytes : List ℕ) (offset : ℕ) (s : Structure) (rest : List ℕ) (at : At bytes offset s rest)
    (ok : IsStructure s) where
  split : drop offset bytes ≡ s.formatted ++ (string_set s.strings ++ rest)
  split = at.here ∙ append_assoc s.formatted (string_set s.strings) rest

  pub type_at : get_elem? bytes offset ≡ some (type_of s)
  type_at =
      ap (get_elem? bytes) (omega arith)
      ∙ get_elem?-drop bytes offset 0
      ∙ ap (λ r. get_elem? r 0) split
      ∙ get_elem-or s.formatted _ 0 (omega (arith, ok.has_header))

  pub length_at : get_elem? bytes (offset + 1) ≡ some (length s.formatted)
  length_at =
      get_elem?-drop bytes offset 1
      ∙ ap (λ r. get_elem? r 1) split
      ∙ get_elem-or s.formatted _ 1 (omega (arith, ok.has_header))
      ∙ ap some ok.sized

  pub strings_at : drop (offset + length s.formatted) bytes ≡ string_set s.strings ++ rest
  strings_at =
      sym (drop-drop offset (length s.formatted) bytes)
      ∙ ap (drop (length s.formatted)) split
      ∙ drop-append_length s.formatted (string_set s.strings ++ rest)

  pub rest_at : drop (offset + length (bytes_of s)) bytes ≡ rest
  rest_at =
      sym (drop-drop offset (length (bytes_of s)) bytes)
      ∙ ap (drop (length (bytes_of s))) at.here
      ∙ drop-append_length (bytes_of s) rest
