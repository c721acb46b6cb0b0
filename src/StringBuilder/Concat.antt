-- ===== src/StringBuilder/Concat.antt =====
-- What `string_builder_strncat` and `string_builder_add_char` of lib/string/string_builder.c add to a
-- builder's text.
use mosys.Common.{
  strlen, NoNul, strlen-append, ℕ, zero, suc, ◌+◌, ◌-◌, ◌≤◌, ◌≡◌, ◌⊎◌, refl, sym, ap, ◌∙◌, none,
  some, List, [], ◌∷◌, ◌++◌, min, ltb, if◌then◌else◌, inl, inr, done, length, take, drop, get_or,
  replicate, poke, poke_middle, arith, append_assoc, take-append-drop, length-take, length-drop,
  length-append, drop-append_length, drop-drop, cons-drop, length-replicate, suc-ne-zero,
  append-nil, subst,
}
use mosys.StringBuilder.{
  StringBuilder, strncpy_bytes, strncat_bytes, string_builder_strncat, string_builder_add_char,
}
use mosys.StringBuilder.Append.{HasText, space_left-free}

NoNul-take : (n : ℕ) (str : List ℕ) → NoNul str → NoNul (take n str)
NoNul-take zero str h = tt
NoNul-take (suc n) [] h = tt
NoNul-take (suc n) (c ∷ cs) h = (h.0, NoNul-take n cs h.1)

strlen_padded :
    (s r : List ℕ) (k : ℕ) → NoNul s → strlen (s ++ (replicate k 0 ++ (0 ∷ r))) ≡ some (length s)
strlen_padded s r zero h = strlen-append s r h
strlen_padded s r (suc k) h = strlen-append s (replicate k 0 ++ (0 ∷ r)) h

zeros_first :
    (r : List ℕ) (k : ℕ) → replicate k 0 ++ (0 ∷ r) ≡ 0 ∷ drop 1 (replicate k 0 ++ (0 ∷ r))
zeros_first r zero = refl
zeros_first r (suc k) = refl

-- Bytes that are written from the end of the text on, and then a zero behind them.
two_writes :
    (t rest p : List ℕ)
    → length p ≤ length rest
    → (copied : List ℕ) × (poke (t ++ (0 ∷ rest)) (length t) p ≡ some copied)
      × (poke copied (length t + length p) (0 ∷ []) ≡ some ((t ++ p) ++ (0 ∷ drop (length p) rest)))
two_writes t rest p fits = (
  t ++ (p ++ behind),
  ap (λ r. poke (t ++ r) (length t) p) (sym (take-append-drop (length p) (0 ∷ rest)))
      ∙ poke_middle t (take (length p) (0 ∷ rest)) behind p (length t) refl
          (omega (arith, length-take (length p) (0 ∷ rest))),
  ap (λ r. poke r (length t + length p) (0 ∷ []))
        (ap (λ r. t ++ (p ++ r)) split ∙ sym (append_assoc t p _))
      ∙ poke_middle (t ++ p) (get_or behind 0 0 ∷ []) (drop (length p) rest) (0 ∷ [])
          (length t + length p) (sym (length-append t p)) refl,
)
  where
    behind : List ℕ
    behind = drop (length p) (0 ∷ rest)

    one_more : length p + 1 ≡ suc (length p)
    one_more = omega arith

    split : behind ≡ get_or behind 0 0 ∷ drop (length p) rest
    split =
        cons-drop behind (omega (arith, length-drop (length p) (0 ∷ rest)))
        ∙ ap (λ r. get_or behind 0 0 ∷ r)
            (drop-drop (length p) 1 (0 ∷ rest) ∙ ap (λ k. drop k (0 ∷ rest)) one_more)

strncat_bytes-HasText :
    (b : StringBuilder) (t str : List ℕ) (free n : ℕ)
    → HasText b t free
    → NoNul str
    → n ≤ free
    → (b' : StringBuilder) × (strncat_bytes b str n ≡ done (some (length (take n str)), some b'))
      × HasText b' (t ++ take n str) (free - length (take n str))
unfolding strncat_bytes
strncat_bytes-HasText b t str free n h clean fits =
    let (copied, first, second) = two_writes t h.rest p (omega (arith, size, h.room)) in
    let second' : poke copied (length t + n) (0 ∷ []) ≡ some ended =
      ap (λ k. poke copied (length t + k) (0 ∷ [])) (sym size) ∙ second in
    (
      record b { used_size = length t + length s; buffer = ended },
      rw (h.stored, h.used, first, second', found) refl,
      record {
        rest = drop 1 tail;
        stored = regroup ∙ ap (λ r. (t ++ s) ++ r) (zeros_first _ k);
        used = omega (arith, length-append t s);
        size = omega (arith, h.size, length-append t s, length-take n str);
        room = omega (
          arith,
          h.room,
          size,
          length-take n str,
          length-drop 1 tail,
          length-append (replicate k 0) (0 ∷ drop (length p) h.rest),
          length-replicate {A = ℕ} k 0,
          length-drop (length p) h.rest,
        );
        small = h.small;
      },
    )
  where
    s : List ℕ
    s = take n str

    k : ℕ
    k = n - length str

    p : List ℕ
    p = strncpy_bytes str n

    size : length p ≡ n
    size =
        omega
          (arith, length-append s (replicate k 0), length-take n str, length-replicate {A = ℕ} k 0)

    tail : List ℕ
    tail = replicate k 0 ++ (0 ∷ drop (length p) h.rest)

    ended : List ℕ
    ended = (t ++ p) ++ (0 ∷ drop (length p) h.rest)

    regroup : ended ≡ (t ++ s) ++ tail
    regroup =
        append_assoc t p _
        ∙ ap (λ r. t ++ r) (append_assoc s (replicate k 0) _)
        ∙ sym (append_assoc t s tail)

    found : strlen (drop (length t) ended) ≡ some (length s)
    found =
        ap strlen (
          ap (drop (length t)) (regroup ∙ append_assoc t s tail) ∙ drop-append_length t (s ++ tail))
        ∙ strlen_padded s _ k (NoNul-take n str clean)

-- `string_builder_strncat` of a string on a builder with a text and `free` bytes behind it adds as
-- much of the string as both the size and the free space allow, returns the number of bytes that it
-- added, and leaves the builder well-formed.
pub string_builder_strncat-HasText :
    (b : StringBuilder) (t str : List ℕ) (free size : ℕ)
    → HasText b t free
    → NoNul str
    → let s = take (min free size) str in
      (b' : StringBuilder) × (string_builder_strncat (some b) (some str) size
        ≡ done (some (length s), some b'))
      × HasText b' (t ++ s) (free - length s)
unfolding string_builder_strncat
string_builder_strncat-HasText b t str free zero h clean =
    rw (nothing, append-nil t) (b, refl, h_same)
  where
    nothing : min free 0 ≡ 0
    nothing = omega arith

    h_same : HasText b t (free - 0)
    h_same = subst (HasText b t) (omega arith) h
string_builder_strncat-HasText b t str free (suc size) h clean =
    rw (suc-ne-zero size, space_left-free b t free h, allowed)
      (strncat_bytes-HasText b t str free (min free (suc size)) h clean (omega arith))
  where
    allowed : (if ltb free (suc size) then free else suc size) ≡ min free (suc size)
    allowed = ground arith

-- `string_builder_add_char` adds the character if there is space, and else returns -1 and changes
-- nothing.
pub string_builder_add_char-HasText :
    (b : StringBuilder) (t : List ℕ) (free ch : ℕ)
    → HasText b t free
    → ((free ≡ 0) × (string_builder_add_char (some b) ch ≡ done (none, some b)))
      ⊎ ((b' : StringBuilder) × (string_builder_add_char (some b) ch ≡ done (some 0, some b'))
          × HasText b' (t ++ (ch ∷ [])) (free - 1))
unfolding string_builder_add_char
string_builder_add_char-HasText b t zero ch h = inl (refl, rw (space_left-free b t zero h) refl)
string_builder_add_char-HasText b t (suc free) ch h =
    let (copied, first, second) = two_writes t h.rest (ch ∷ []) (omega (arith, h.room)) in
    inr (
      record b { used_size = length t + 1; buffer = (t ++ (ch ∷ [])) ++ (0 ∷ drop 1 h.rest) },
      rw (space_left-free b t (suc free) h, suc-ne-zero free, h.stored, h.used, first, second) refl,
      record {
        rest = drop 1 h.rest;
        stored = refl;
        used = omega (arith, length-append t (ch ∷ []));
        size = omega (arith, h.size, length-append t (ch ∷ []));
        room = omega (arith, h.room, length-drop 1 h.rest);
        small = h.small;
      },
    )
