-- ===== src/DynamicArray/Elements.antt =====
-- What an array of lib/dynamic_array holds.
use mathlib.Core.Option
use mosys.Common.{
  ℕ, zero, suc, ◌+◌, ◌-◌, ◌*◌, ◌^◌, ◌≤◌, ◌<◌, ◌≡◌, refl, sym, ap, ◌∙◌, Option, none, some, List, [],
  ◌∷◌, ◌++◌, append_assoc, append-nil, ltb, leb-le, ap₂, subst, if◌then◌else◌, done, ok, length,
  take, drop, peek, poke, poke_middle, u64, length-append, length-take, arith, take-append_length,
  drop-append_length, drop-drop, Bool-cases, inl, inr, ltb→ge,
}
use mosys.DynamicArray.{DynamicArray, contents, realloc, dynamic_array_push_back, dynamic_array_get}

abbrev pub flatten : List (List ℕ) → List ℕ
flatten [] = []
flatten (e ∷ es) = e ++ flatten es

abbrev pub AllSized : ℕ → List (List ℕ) → Type 0
AllSized n [] = Unit
AllSized n (e ∷ es) = (length e ≡ n) × AllSized n es

-- The elements, all of the array's element size, so few that no offset wraps.
pub record HasElements (v : DynamicArray) (es : List (List ℕ)) : Type 0 where
  pub count : v.size ≡ length es
  pub sized : AllSized v.element_size es
  pub stored : contents v.array_data ≡ flatten es
  pub few : (length es + 1) * v.element_size < 2 ^ 64
  pub countable : length es + 1 < 2 ^ 64

length-flatten : (n : ℕ) (es : List (List ℕ)) → AllSized n es → length (flatten es) ≡ length es * n
length-flatten n [] all = grind arith
length-flatten n (e ∷ es) all =
    grind (arith, length-append e (flatten es), length-flatten n es all.1, all.0)

flatten-append : (es fs : List (List ℕ)) → flatten (es ++ fs) ≡ flatten es ++ flatten fs
flatten-append [] fs = refl
flatten-append (e ∷ es) fs =
    ap (λ r. e ++ r) (flatten-append es fs) ∙ sym (append_assoc e (flatten es) (flatten fs))

AllSized-append :
    (n : ℕ) (es fs : List (List ℕ)) → AllSized n es → AllSized n fs → AllSized n (es ++ fs)
AllSized-append n [] fs all others = others
AllSized-append n (e ∷ es) fs all others = (all.0, AllSized-append n es fs all.1 others)

take_all : (n : ℕ) (xs : List ℕ) → length xs ≤ n → take n xs ≡ xs
take_all zero [] h = refl
take_all (suc n) [] h = refl
take_all zero (x ∷ xs) h = absurd (omega arith)
take_all (suc n) (x ∷ xs) h = ap (λ r. x ∷ r) (take_all n xs (omega arith))

peek_element : (element rest : List ℕ) → peek (element ++ rest) (length element) ≡ some element
unfolding peek
peek_element element rest =
    rw
      (
        leb-le (length element) (length (element ++ rest))
            (omega (arith, length-append element rest)),
        take-append_length element rest,
      )
      refl

small64 : (n : ℕ) → n < 2 ^ 64 → u64 n ≡ n
small64 n h = omega (arith, h)

grow_size : (n m : ℕ) → (n + 1) * m ≡ n * m + m
grow_size n m = grind arith

module _ (v : DynamicArray) (es : List (List ℕ)) (h : HasElements v es) where
  bytes_of : length (contents v.array_data) ≡ length es * v.element_size
  bytes_of = ap length h.stored ∙ length-flatten v.element_size es h.sized

  grown :
      (fresh : List ℕ)
      → realloc v.array_data (u64 ((v.size + 1) * v.element_size)) fresh
        ≡ contents v.array_data ++ take v.element_size fresh
  grown fresh =
      ap (λ n. realloc v.array_data (u64 ((n + 1) * v.element_size)) fresh) h.count
      ∙ ap (λ n. realloc v.array_data n fresh)
          (small64 _ h.few ∙ grow_size (length es) v.element_size)
      ∙ ap₂ (λ xs ys. xs ++ ys) (take_all _ (contents v.array_data) (omega (arith, bytes_of)))
          (ap (λ n. take n fresh) (omega (arith, bytes_of)))

  -- `dynamic_array_push_back` adds a copy of an element's bytes behind the others, whatever the memory
  -- that is added held, if the array is so small that no size wraps.
  pub dynamic_array_push_back-HasElements :
      (fresh element rest : List ℕ)
      → length element ≡ v.element_size
      → v.element_size ≤ length fresh
      → (length es + 2) * v.element_size < 2 ^ 64
      → length es + 2 < 2 ^ 64
      → (v' : DynamicArray) × (dynamic_array_push_back fresh (some v) (some (element ++ rest))
          ≡ done (ok, some v'))
        × HasElements v' (es ++ (element ∷ []))
  unfolding dynamic_array_push_back
  dynamic_array_push_back-HasElements fresh element rest same room few countable = (
    record v { array_data = some (contents v.array_data ++ element); size = length es + 1 },
    rw (grown fresh, sym same, peek_element element rest, same, filled, count) refl,
    record {
      count = sym (length-append es (element ∷ []));
      sized = AllSized-append v.element_size es (element ∷ []) h.sized (same, tt);
      stored =
          ap₂ (λ xs ys. xs ++ ys) h.stored (sym (append-nil element))
          ∙ sym (flatten-append es (element ∷ []));
      few =
          let more : length es + 2 ≡ length (es ++ (element ∷ [])) + 1 =
            omega (arith, length-append es (element ∷ [])) in
          subst (λ n. n * v.element_size < 2 ^ 64) more few;
      countable = omega (arith, countable, length-append es (element ∷ []));
    },
  )
    where
      offset : u64 (v.size * v.element_size) ≡ length (contents v.array_data)
      offset =
          ap (λ n. u64 (n * v.element_size)) h.count
          ∙ small64 _ (omega (arith, h.few, grow_size (length es) v.element_size))
          ∙ sym bytes_of

      filled :
          poke
            (contents v.array_data ++ take v.element_size fresh)
            (u64 (v.size * v.element_size))
            element
          ≡ some (contents v.array_data ++ element)
      filled =
          let added = take v.element_size fresh in
          ap (λ r. poke (contents v.array_data ++ r) (u64 (v.size * v.element_size)) element)
            (sym (append-nil added))
          ∙ poke_middle (contents v.array_data) added [] element (u64 (v.size * v.element_size))
              offset (omega (arith, length-take v.element_size fresh, same, room))
          ∙ ap (λ r. some (contents v.array_data ++ r)) (append-nil element)

      count : u64 (v.size + 1) ≡ length es + 1
      count = small64 _ (omega (arith, h.count, h.countable)) ∙ omega (arith, h.count)

mul_split : (i d m : ℕ) → (i + d) * m ≡ i * m + d * m
mul_split i d m = grind arith

drop-flatten :
    (n i : ℕ) (es : List (List ℕ))
    → AllSized n es
    → i ≤ length es
    → drop (i * n) (flatten es) ≡ flatten (drop i es)
drop-flatten n zero es all h = ap (λ k. drop k (flatten es)) none_left
  where
    none_left : 0 * n ≡ 0
    none_left = grind arith
drop-flatten n (suc i) [] all h = elim h [ ]
drop-flatten n (suc i) (e ∷ es) all h =
    ap (λ k. drop k (e ++ flatten es)) skip
    ∙ sym (drop-drop (length e) (i * n) (e ++ flatten es))
    ∙ ap (drop (i * n)) (drop-append_length e (flatten es))
    ∙ drop-flatten n i es all.1 (omega arith)
  where
    skip : suc i * n ≡ length e + i * n
    skip = grind (arith, all.0)

-- The pointer to element `i` of the memory of an array.
abbrev pub from_element : List (List ℕ) → ℕ → Option (List ℕ) → Option (List ℕ)
from_element es i none = none
from_element es i (some bytes) = some (flatten (drop i es))

-- The pointer to element `i` has the elements from that one on behind it, and so also at the end of
-- the array, where no element is left; past the end it is NULL, and so for an array without memory.
pub dynamic_array_get-HasElements :
    (v : DynamicArray) (es : List (List ℕ)) (i : ℕ)
    → HasElements v es
    → dynamic_array_get (some v) i
      ≡ (if ltb (length es) i then none else from_element es i v.array_data)
unfolding dynamic_array_get
dynamic_array_get-HasElements v es i h = rw h.count (elim (Bool-cases (ltb (length es) i)) [
  | inl past ↦ rw past refl
  | inr within ↦
      let le : i ≤ length es = ltb→ge _ _ within in
      rw within
        (ap (λ k. Option.map (drop k) v.array_data) (fits le) ∙ memory v.array_data h.stored le)
])
  where
    whole : i ≤ length es → i + (length es - i) ≡ length es
    whole le = omega arith

    fits : i ≤ length es → u64 (i * v.element_size) ≡ i * v.element_size
    fits le = small64 _ (
        omega (
          arith,
          h.few,
          grow_size (length es) v.element_size,
          mul_split i (length es - i) v.element_size,
          ap (λ k. k * v.element_size) (whole le),
        ))

    memory :
        (o : Option (List ℕ))
        → contents o ≡ flatten es
        → i ≤ length es
        → Option.map (drop (i * v.element_size)) o ≡ from_element es i o
    memory none stored le = refl
    memory (some bytes) stored le =
        ap some
          (ap (drop (i * v.element_size)) stored ∙ drop-flatten v.element_size i es h.sized le)
