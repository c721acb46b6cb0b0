-- ===== src/StringBuilder/Create.antt =====
-- New, copied and read builders of lib/string/string_builder.c.
use mosys.Common.{
  NoNul, strlen-append, ℕ, suc, ◌+◌, ◌^◌, ◌<◌, ◌≡◌, refl, sym, ap, ◌∙◌, some, List, [], ◌∷◌, ◌++◌,
  leb-le, done, length, take, drop, poke, poke_middle, peek, arith, append_assoc, length-append,
  length-take, length-drop, take-append_length, take-append-drop, suc-ne-zero,
}
use mosys.StringBuilder.{
  StringBuilder, reset_string_builder, new_sized_string_builder, clone_string_builder,
  string_builder_get_string,
}
use mosys.StringBuilder.Append.{HasText}

abbrev empty_builder : ℕ → List ℕ → StringBuilder
empty_builder size fresh = record { buffer_size = size; used_size = 0; buffer = 0 ∷ drop 1 fresh }

empty-HasText :
    (size : ℕ) (fresh : List ℕ)
    → length fresh ≡ suc size
    → suc size < 2 ^ 31
    → HasText (empty_builder (suc size) fresh) [] size
empty-HasText size fresh given small = record {
  rest = drop 1 fresh;
  stored = refl;
  used = refl;
  size = omega arith;
  room = omega (arith, given, length-drop 1 fresh);
  small = small;
}

new_sized-eq :
    (size : ℕ) (fresh : List ℕ)
    → length fresh ≡ suc size
    → new_sized_string_builder (suc size) fresh ≡ done (some (empty_builder (suc size) fresh))
unfolding new_sized_string_builder reset_string_builder
new_sized-eq size [] given = absurd (omega (arith, given))
new_sized-eq size (x ∷ fresh) given =
    rw (suc-ne-zero size, poke_middle [] (x ∷ []) fresh (0 ∷ []) 0 refl refl) refl

-- A new builder of a size above 0 is well-formed and empty, with room for one byte less than its
-- size, whatever the memory that was allocated held.
pub new_sized_string_builder-HasText :
    (size : ℕ) (fresh : List ℕ)
    → length fresh ≡ suc size
    → suc size < 2 ^ 31
    → (b : StringBuilder) × (new_sized_string_builder (suc size) fresh ≡ done (some b))
      × HasText b [] size
new_sized_string_builder-HasText size fresh given small = (
  empty_builder (suc size) fresh,
  new_sized-eq size fresh given,
  empty-HasText size fresh given small,
)

peek-text : (t rest : List ℕ) → peek (t ++ (0 ∷ rest)) (length t + 1) ≡ some (t ++ (0 ∷ []))
unfolding peek
peek-text t rest =
    rw
      (
        leb-le (length t + 1) (length (t ++ (0 ∷ rest)))
            (omega (arith, length-append t (0 ∷ rest))),
        taken,
      )
      refl
  where
    taken : take (length t + 1) (t ++ (0 ∷ rest)) ≡ t ++ (0 ∷ [])
    taken =
        ap (λ k. take k (t ++ (0 ∷ rest))) (sym (length-append t (0 ∷ [])))
        ∙ ap (take (length (t ++ (0 ∷ [])))) (sym (append_assoc t (0 ∷ []) rest))
        ∙ take-append_length (t ++ (0 ∷ [])) rest

-- A copy of a builder has the same text and the same space left.
pub clone_string_builder-HasText :
    (b : StringBuilder) (t : List ℕ) (free : ℕ) (fresh : List ℕ)
    → HasText b t free
    → length fresh ≡ b.buffer_size
    → (b' : StringBuilder) × (clone_string_builder (some b) fresh ≡ done (some b'))
      × HasText b' t free
unfolding clone_string_builder
clone_string_builder-HasText b t free fresh h given = (
  record { buffer_size = suc (length t + free); used_size = length t; buffer = t ++ (0 ∷ left) },
  rw
      (
        whole,
        new_sized-eq (length t + free) fresh (given ∙ whole),
        h.used,
        h.stored,
        peek-text t h.rest,
        copied,
      )
      refl,
  record {
    rest = left;
    stored = refl;
    used = refl;
    size = omega arith;
    room = omega (arith, given, whole, length-drop (length t) (drop 1 fresh), length-drop 1 fresh);
    small = omega (arith, h.small, whole);
  },
)
  where
    whole : b.buffer_size ≡ suc (length t + free)
    whole = omega (arith, h.size)

    left : List ℕ
    left = drop (length t) (drop 1 fresh)

    copied : poke (0 ∷ drop 1 fresh) 0 (t ++ (0 ∷ [])) ≡ some (t ++ (0 ∷ left))
    copied =
        ap (λ r. poke r 0 (t ++ (0 ∷ [])))
          (sym (take-append-drop (suc (length t)) (0 ∷ drop 1 fresh)))
        ∙ poke_middle [] (take (suc (length t)) (0 ∷ drop 1 fresh)) left (t ++ (0 ∷ [])) 0 refl (
            omega (
              arith,
              length-append t (0 ∷ []),
              length-take (length t) (drop 1 fresh),
              length-drop 1 fresh,
              given,
              whole,
            ))
        ∙ ap some (append_assoc t (0 ∷ []) left)

-- What `string_builder_get_string` points to is the builder's text, if no zero was added to it.
pub string_builder_get_string-HasText :
    (b : StringBuilder) (t : List ℕ) (free : ℕ)
    → HasText b t free
    → NoNul t
    → string_builder_get_string (some b) ≡ some (some t)
unfolding string_builder_get_string
string_builder_get_string-HasText b t free h clean =
    rw (h.stored, strlen-append t h.rest clean, h.stored, take-append_length t (0 ∷ h.rest)) refl
