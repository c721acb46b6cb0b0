-- ===== src/Strings/Pattern.antt =====
-- `find_pattern` of lib/string/string.c. The buffers are so small that no offset wraps.
use mosys.Common.{
  ℕ, zero, suc, ◌+◌, ◌*◌, ◌≤◌, ◌<◌, ◌≡◌, inl, inr, refl, sym, ◌∙◌, Bool, true, false, ◌&&◌, Option,
  none, some, List, [], ◌∷◌, leb, ◌==◌, leb→gt, leb→le, leb-gt, subst, if◌then◌else◌, Run, done,
  out_of_fuel, length, take, drop, arith, Bool-cases,
}

-- `!memcmp(a, b, length b)` where `a` is at least as long.
unfoldable pub memcmp_eq : List ℕ → List ℕ → Bool
memcmp_eq a [] = true
memcmp_eq [] (y ∷ ys) = false
memcmp_eq (x ∷ xs) (y ∷ ys) = (x == y) && memcmp_eq xs ys

module _ (haystack needle : List ℕ) (align : ℕ) where
  -- The `for` loop with fuel; `none` is -1.
  unfoldable pub pattern_loop : ℕ → ℕ → Run (Option ℕ)
  pattern_loop zero i = out_of_fuel
  pattern_loop (suc fuel) i =
      let rest = pattern_loop fuel (i + align) in
      if leb (length haystack) i
      then done none
      else if leb (length haystack) (i + length needle)
      then done none
      else if memcmp_eq (drop i haystack) needle
      then done (some i)
      else rest

-- The offset of the needle; null pointers are `none`. With an alignment of 0 and no match at the start
-- the loop never ends, and so no fuel is enough.
unfoldable pub find_pattern : Option (List ℕ) → Option (List ℕ) → ℕ → Run (Option ℕ)
find_pattern none needle align = done none
find_pattern (some haystack) none align = done none
find_pattern (some haystack) (some needle) align =
    pattern_loop haystack needle align (suc (length haystack)) 0

memcmp_eq-take : (a b : List ℕ) → memcmp_eq a b ≡ true → take (length b) a ≡ b
unfolding memcmp_eq
memcmp_eq-take a [] h = refl
memcmp_eq-take [] (y ∷ ys) h = cc
memcmp_eq-take (x ∷ xs) (y ∷ ys) h = ground (arith, memcmp_eq-take xs ys)

memcmp_eq-found : (a b : List ℕ) → take (length b) a ≡ b → memcmp_eq a b ≡ true
unfolding memcmp_eq
memcmp_eq-found a [] h = refl
memcmp_eq-found [] (y ∷ ys) h = cc
memcmp_eq-found (x ∷ xs) (y ∷ ys) h = ground (arith, memcmp_eq-found xs ys)

module _ (haystack needle : List ℕ) (align : ℕ) where
  -- The needle stands at the offset, and ends before the last byte of the buffer.
  pub record Matches (i : ℕ) : Type 0 where
    pub equal : take (length needle) (drop i haystack) ≡ needle
    pub inside : i + length needle < length haystack

  -- What the loop gives from the offset `from` on, where `k` tells the offsets apart.
  pub record Searched (from : ℕ) (result : Option ℕ) : Type 0 where
    pub sound : (i : ℕ) → result ≡ some i → Matches i × ((k : ℕ) × (i ≡ from + k * align))
    pub first :
        (k : ℕ) → Matches (from + k * align) → (i : ℕ) × (result ≡ some i) × (i ≤ from + k * align)

  step_offset : (from k : ℕ) → from + suc k * align ≡ from + align + k * align
  step_offset from k = grind arith

  start_offset : (from : ℕ) → from + 0 * align ≡ from
  start_offset from = grind arith

  past_end : (from : ℕ) → length haystack ≤ from + length needle → Searched from none
  past_end from h = record { sound = λ i e. cc; first = λ k m. absurd (omega (arith, m.inside)) }

  found_here :
      (from : ℕ)
      → from + length needle < length haystack
      → memcmp_eq (drop from haystack) needle ≡ true
      → Searched from (some from)
  found_here from inside equal = record {
    sound = λ i e.
        let same : from ≡ i = cc e in
        (subst Matches same here, (0, sym same ∙ sym (start_offset from)));
    first = λ k m. (from, refl, omega arith);
  }
    where
      here : Matches from
      here = record { equal = memcmp_eq-take (drop from haystack) needle equal; inside = inside }

  not_here :
      (from : ℕ) (result : Option ℕ)
      → memcmp_eq (drop from haystack) needle ≡ false
      → Searched (from + align) result
      → Searched from result
  not_here from result differ later = record {
    sound =
        λ i e. let (m, (k, at)) = later.sound i e in (m, (suc k, at ∙ sym (step_offset from k)));
    first = earlier;
  }
    where
      earlier :
          (k : ℕ)
          → Matches (from + k * align)
          → (i : ℕ) × (result ≡ some i) × (i ≤ from + k * align)
      earlier zero m =
          let now : Matches from = subst Matches (start_offset from) m in
          absurd (cc (differ, memcmp_eq-found (drop from haystack) needle now.equal))
      earlier (suc k) m =
          let (i, e, le) = later.first k (subst Matches (step_offset from k) m) in
          (i, e, omega (arith, le, step_offset from k))

  pattern_loop-Searched :
      (fuel from : ℕ)
      → 0 < align
      → 0 < fuel
      → length haystack < from + fuel
      → (result : Option ℕ) × (pattern_loop haystack needle align fuel from ≡ done result)
        × Searched from result
  unfolding pattern_loop
  pattern_loop-Searched zero from pos some_fuel h = absurd (omega arith)
  pattern_loop-Searched (suc fuel) from pos some_fuel h =
      elim (Bool-cases (leb (length haystack) (from + length needle))) [
        | inl over ↦ (none, ground arith, past_end from (leb→le _ _ over))
        | inr inside ↦
            let room : from + length needle < length haystack = leb→gt _ _ inside in
            let start : leb (length haystack) from ≡ false = leb-gt _ _ (omega arith) in
            elim (Bool-cases (memcmp_eq (drop from haystack) needle)) [
              | inl equal ↦ (some from, rw (start, inside, equal) refl, found_here from room equal)
              | inr differ ↦
                  let (result, e, later) =
                    pattern_loop-Searched fuel (from + align) pos (omega arith) (omega arith) in
                  (result, rw (start, inside, differ) e, not_here from result differ later)
            ]
      ]

-- With an alignment above 0 `find_pattern` returns. An offset that it finds is a multiple of the
-- alignment, the needle stands there, and ends before the last byte of the buffer; and if the needle
-- stands so at any such offset, one is found that is not behind it.
pub find_pattern-Searched :
    (haystack needle : List ℕ) (align : ℕ)
    → 0 < align
    → (result : Option ℕ) × (find_pattern (some haystack) (some needle) align ≡ done result)
      × Searched haystack needle align 0 result
unfolding find_pattern
find_pattern-Searched haystack needle align pos =
    pattern_loop-Searched haystack needle align (suc (length haystack)) 0 pos (omega arith)
      (omega arith)
