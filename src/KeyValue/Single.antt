-- ===== src/KeyValue/Single.antt =====
-- The value of a single key, as core/kv_pair.c prints it.
use mosys.Common.{
  ℕ, suc, ◌≡◌, refl, ap, Bool, true, false, ◌&&◌, none, some, List, [], ◌∷◌, ◌++◌, ◌==◌,
  if◌then◌else◌, done, Heap, length, arith, ok, failed, Bool-cases, inl, inr,
}
use mosys.KeyValue.{KvPair, style_single, print_pair, kv_pair_print_to_file, strncmp_eq}
use mosys.KeyValue.Chain.{Pairs, IsPairs}
use mosys.KeyValue.Render.{printed, print_loop-Chain}

-- Whether the first text is the start of the second.
abbrev pub starts_with : List ℕ → List ℕ → Bool
starts_with [] text = true
starts_with (c ∷ cs) [] = false
starts_with (c ∷ cs) (d ∷ ds) = (d == c) && starts_with cs ds

strncmp_eq-starts_with : (k text : List ℕ) → strncmp_eq text k (length k) ≡ starts_with k text
unfolding strncmp_eq
strncmp_eq-starts_with [] text = refl
strncmp_eq-starts_with (c ∷ cs) [] = refl
strncmp_eq-starts_with (c ∷ cs) (d ∷ ds) = ap (λ b. (d == c) && b) (strncmp_eq-starts_with cs ds)

-- The values of the keys that the single key starts with.
abbrev pub asked : List ℕ → Pairs → List (List ℕ)
asked single_key [] = []
asked single_key ((a, none, v) ∷ xs) = asked single_key xs
asked single_key ((a, some k, none) ∷ xs) = asked single_key xs
asked single_key ((a, some k, some v) ∷ xs) =
    if starts_with k single_key then v ∷ asked single_key xs else asked single_key xs

abbrev pub joined : List (List ℕ) → List ℕ
joined [] = []
joined (v ∷ vs) = v ++ joined vs

abbrev pub some_value : List (List ℕ) → Bool
some_value [] = false
some_value (v ∷ vs) = true

printed-asked :
    (single_key : List ℕ) (xs : Pairs)
    → printed style_single (some single_key) xs
      ≡ (joined (asked single_key xs), some_value (asked single_key xs))
unfolding print_pair
printed-asked single_key [] = refl
printed-asked single_key ((a, none, v) ∷ xs) = printed-asked single_key xs
printed-asked single_key ((a, some k, none) ∷ xs) = printed-asked single_key xs
printed-asked single_key ((a, some k, some v) ∷ xs) =
    rw (strncmp_eq-starts_with k single_key) (elim (Bool-cases (starts_with k single_key)) [
      | inl same ↦ rw (same, printed-asked single_key xs) refl
      | inr other ↦ rw (other, printed-asked single_key xs) refl
    ])

-- For a single key the values of all keys that it starts with are printed, in the order of the list;
-- if there is none, -1 is returned.
pub kv_pair_print_to_file-asked :
    (st : Heap KvPair) (kv_list : ℕ) (single_key : List ℕ) (xs : Pairs)
    → IsPairs st kv_list xs
    → kv_pair_print_to_file (suc (length xs)) st kv_list style_single (some single_key)
      ≡ done (
          if some_value (asked single_key xs)
          then (ok, joined (asked single_key xs) ++ (10 ∷ []))
          else (failed, joined (asked single_key xs)))
unfolding kv_pair_print_to_file
kv_pair_print_to_file-asked st kv_list single_key xs h =
    rw
      (
        h.starts,
        print_loop-Chain style_single (some single_key) xs (suc (length xs)) st [] false h.chain
            (omega arith),
        printed-asked single_key xs,
      )
      (elim (Bool-cases (some_value (asked single_key xs))) [
        | inl there ↦ rw there refl
        | inr missing ↦ rw missing refl
      ])
