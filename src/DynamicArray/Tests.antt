-- ===== src/DynamicArray/Tests.antt =====
-- Runs of lib/dynamic_array on an array of one element of two bytes.
use mosys.Common.{ℕ, ◌≡◌, if◌then◌else◌, refl, ltb, none, some, List, [], ◌∷◌, length, arith}
use mosys.DynamicArray.{DynamicArray, new_dynamic_array, dynamic_array_get}
use mosys.DynamicArray.Elements.{from_element, HasElements, dynamic_array_get-HasElements}

abbrev array : DynamicArray
array = record { size = 1; element_size = 2; array_data = some (5 ∷ 6 ∷ []) }

abbrev element : List ℕ
element = 5 ∷ 6 ∷ []

array-HasElements : HasElements array (element ∷ [])
array-HasElements = record {
  count = refl;
  sized = (refl, tt);
  stored = refl;
  few = omega arith;
  countable = omega arith;
}

dynamic_array_get-HasElements_example : dynamic_array_get (some array) 1 ≡ (
    if ltb (length (element ∷ [])) 1
    then none
    else from_element (element ∷ []) 1 (some (5 ∷ 6 ∷ [])))
dynamic_array_get-HasElements_example =
    dynamic_array_get-HasElements array (element ∷ []) 1 array-HasElements

-- A new array has no memory, so there is no pointer to its end.
new_array : dynamic_array_get (some (new_dynamic_array 2)) 0 ≡ none
unfolding new_dynamic_array dynamic_array_get
new_array = refl
