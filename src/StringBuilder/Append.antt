-- ===== src/StringBuilder/Append.antt =====
-- The text of a builder of lib/string/string_builder.c, and what each operation adds to it.
use mosys.Common.{
  ℕ, suc, ◌+◌, ◌-◌, ◌^◌, ◌≤◌, ◌<◌, ◌≡◌, refl, sym, ap, ◌∙◌, some, List, [], ◌∷◌, ◌++◌, min, ltb,
  leb-gt, if◌then◌else◌, Bool-cases, inl, inr, ltb→lt, ltb→ge, done, length, take, drop, poke,
  poke_middle, sub64, u64, arith, append_assoc, take-append-drop, length-take, length-drop,
  length-append,
}
use mosys.StringBuilder.{
  StringBuilder, string_builder_space_left, print_bytes, string_builder_vsnprintf,
  string_builder_sprintf,
}

-- The builder's text is `t`, with its end, and `free` bytes behind that.
pub record HasText (b : StringBuilder) (t : List ℕ) (free : ℕ) : Type 0 where
  pub rest : List ℕ
  pub stored : b.buffer ≡ t ++ (0 ∷ rest)
  pub used : b.used_size ≡ length t
  pub size : b.buffer_size ≡ length t + 1 + free
  pub room : length rest ≡ free
  pub small : b.buffer_size < 2 ^ 31

pub space_left-free :
    (b : StringBuilder) (t : List ℕ) (free : ℕ)
    → HasText b t free
    → string_builder_space_left b ≡ free
unfolding string_builder_space_left
space_left-free b t free h = omega (arith, h.used, h.size, h.small)

-- Bytes and a zero that are written over the end of the text.
poke-end :
    (t rest s : List ℕ)
    → length s ≤ length rest
    → poke (t ++ (0 ∷ rest)) (length t) (s ++ (0 ∷ []))
      ≡ some ((t ++ s) ++ (0 ∷ drop (length s) rest))
poke-end t rest s fits =
    ap (λ r. poke (t ++ r) (length t) (s ++ (0 ∷ [])))
      (sym (take-append-drop (suc (length s)) (0 ∷ rest)))
    ∙ poke_middle t (take (suc (length s)) (0 ∷ rest)) (drop (length s) rest) (s ++ (0 ∷ []))
        (length t) refl (omega (arith, length-append s (0 ∷ []), length-take (length s) rest))
    ∙ ap some regroup
  where
    regroup :
        t ++ ((s ++ (0 ∷ [])) ++ drop (length s) rest) ≡ (t ++ s) ++ (0 ∷ drop (length s) rest)
    regroup =
        ap (λ r. t ++ r) (append_assoc s (0 ∷ []) (drop (length s) rest))
        ∙ sym (append_assoc t s (0 ∷ drop (length s) rest))

-- The builder with `s` put behind its text.
abbrev pub longer : StringBuilder → List ℕ → List ℕ → List ℕ → ℕ → StringBuilder
longer b t s rest n = record b { used_size = length t + n; buffer = (t ++ s) ++ (0 ∷ rest) }

longer-HasText :
    (b : StringBuilder) (t s : List ℕ) (free : ℕ)
    → (h : HasText b t free) → length s ≤ free
    → HasText (longer b t s (drop (length s) h.rest) (length s)) (t ++ s) (free - length s)
longer-HasText b t s free h fits = record {
  rest = drop (length s) h.rest;
  stored = refl;
  used = omega (arith, length-append t s);
  size = omega (arith, h.size, length-append t s);
  room = omega (arith, h.room, length-drop (length s) h.rest);
  small = h.small;
}

-- What the C library says of `vsnprintf`: of the text that the format stands for, it stores as much
-- as the size allows, with an end; it returns the length of the text.
pub record Documented {Format : Type 0} (vsnprintf : ℕ → Format → List ℕ × ℕ)
    (render : Format → List ℕ) : Type 0 where
  pub stores : (n : ℕ) (f : Format) → (vsnprintf (n + 1) f).0 ≡ take n (render f) ++ (0 ∷ [])
  pub returns : (n : ℕ) (f : Format) → (vsnprintf (n + 1) f).1 ≡ length (render f)
  pub bounded : (f : Format) → length (render f) < 2 ^ 31

module _ {Format : Type 0} (vsnprintf : ℕ → Format → List ℕ × ℕ) (render : Format → List ℕ)
    (law : Documented vsnprintf render) where
  print_bytes-HasText :
      (b : StringBuilder) (t : List ℕ) (free n : ℕ) (f : Format)
      → HasText b t free
      → n ≤ free
      → (b' : StringBuilder) × (print_bytes vsnprintf b n f
          ≡ done (some (length (take n (render f))), some b'))
        × HasText b' (t ++ take n (render f)) (free - length (take n (render f)))
  unfolding print_bytes
  print_bytes-HasText b t free n f h fits = (
    after (length s),
    rw (call, h.stored, h.used, law.stores n f, written, law.returns n f)
        (elim (Bool-cases (ltb n (length (render f)))) [
          | inl cut ↦ rw cut (
              ap (λ k. done (some k, some (after k)))
                (omega (arith, ltb→lt _ _ cut, length-take n (render f))))
          | inr whole ↦
              rw (whole, leb-gt (2 ^ 63) (length (render f)) (omega (arith, law.bounded f)))
                (ap (λ k. done (some k, some (after k)))
                  (omega (arith, ltb→ge _ _ whole, length-take n (render f))))
        ]),
    longer-HasText b t s free h inside,
  )
    where
      s : List ℕ
      s = take n (render f)

      inside : length s ≤ free
      inside = omega (arith, length-take n (render f))

      call : u64 (n + 1) ≡ n + 1
      call = omega (arith, h.size, h.small)

      written :
          poke (t ++ (0 ∷ h.rest)) (length t) (s ++ (0 ∷ []))
          ≡ some ((t ++ s) ++ (0 ∷ drop (length s) h.rest))
      written = poke-end t h.rest s (omega (arith, h.room, inside))

      after : ℕ → StringBuilder
      after k = longer b t s (drop (length s) h.rest) k

  -- On a builder with a text and `free` bytes behind it, `string_builder_vsnprintf` with a size of 1
  -- or more adds as much of the formatted text as both the size and the free space allow, returns
  -- the number of bytes that it added, and leaves the builder well-formed.
  pub string_builder_vsnprintf-HasText :
      (b : StringBuilder) (t : List ℕ) (free size : ℕ) (f : Format)
      → HasText b t free
      → 0 < size
      → size < 2 ^ 64
      → let s = take (min free (size - 1)) (render f) in
        (b' : StringBuilder) × (string_builder_vsnprintf vsnprintf (some b) size (some f)
          ≡ done (some (length s), some b'))
        × HasText b' (t ++ s) (free - length s)
  unfolding string_builder_vsnprintf
  string_builder_vsnprintf-HasText b t free size f h positive bounded =
      rw (space_left-free b t free h, allowed)
        (print_bytes-HasText b t free (min free (size - 1)) f h (omega arith))
    where
      allowed : (if ltb free (sub64 size 1) then free else sub64 size 1) ≡ min free (size - 1)
      allowed = ground arith

  -- `string_builder_sprintf` adds as much of the formatted text as there is space for.
  pub string_builder_sprintf-HasText :
      (b : StringBuilder) (t : List ℕ) (free : ℕ) (f : Format)
      → HasText b t free
      → (b' : StringBuilder) × (string_builder_sprintf vsnprintf (some b) (some f)
          ≡ done (some (length (take free (render f))), some b'))
        × HasText b' (t ++ take free (render f)) (free - length (take free (render f)))
  unfolding string_builder_sprintf string_builder_vsnprintf
  string_builder_sprintf-HasText b t free f h =
      rw (space_left-free b t free h, allowed) (print_bytes-HasText b t free free f h (omega arith))
    where
      allowed :
          (if ltb free (sub64 (u64 (free + 1)) 1) then free else sub64 (u64 (free + 1)) 1) ≡ free
      allowed = ground (arith, h.size, h.small)
