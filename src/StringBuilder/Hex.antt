-- ===== src/StringBuilder/Hex.antt =====
-- `string_builder_add_hexstring` of lib/string/string_builder.c.
use mosys.Common.{
  ℕ, zero, suc, ◌+◌, ◌-◌, ◌/◌, ◌≤◌, ◌≡◌, refl, ap, ◌∙◌, some, List, [], ◌∷◌, ◌++◌, min, ltb-lt,
  done, length, take, poke, poke_middle, arith, append_assoc, append-nil, length-take,
  length-append, subst,
}
use mosys.StringBuilder.{StringBuilder, hex_loop, string_builder_add_hexstring}
use mosys.StringBuilder.Append.{HasText, Documented, string_builder_sprintf-HasText}

-- The last bytes of the text are taken back.
undo-HasText :
    (b : StringBuilder) (t s : List ℕ) (free : ℕ)
    → HasText b (t ++ s) free
    → (ended : List ℕ) × (poke b.buffer (b.used_size - length s) (0 ∷ []) ≡ some ended)
      × HasText
          (record b { used_size = b.used_size - length s; buffer = ended })
          t
          (free + length s)
undo-HasText b t [] free h = (
  t ++ (0 ∷ h.rest),
  ap (λ r. poke r (b.used_size - 0) (0 ∷ []))
        (h.stored ∙ ap (λ r. r ++ (0 ∷ h.rest)) (append-nil t))
      ∙ poke_middle t (0 ∷ []) h.rest (0 ∷ []) (b.used_size - 0)
          (omega (arith, h.used, length-append t [])) refl,
  record {
    rest = h.rest;
    stored = refl;
    used = omega (arith, h.used, length-append t []);
    size = omega (arith, h.size, length-append t []);
    room = omega (arith, h.room);
    small = h.small;
  },
)
undo-HasText b t (c ∷ s) free h = (
  t ++ (0 ∷ (s ++ (0 ∷ h.rest))),
  ap (λ r. poke r (b.used_size - suc (length s)) (0 ∷ [])) (h.stored ∙ append_assoc t (c ∷ s) _)
      ∙ poke_middle t (c ∷ []) (s ++ (0 ∷ h.rest)) (0 ∷ []) (b.used_size - suc (length s))
          (omega (arith, h.used, length-append t (c ∷ s))) refl,
  record {
    rest = s ++ (0 ∷ h.rest);
    stored = refl;
    used = omega (arith, h.used, length-append t (c ∷ s));
    size = omega (arith, h.size, length-append t (c ∷ s));
    room = omega (arith, h.room, length-append s (0 ∷ h.rest));
    small = h.small;
  },
)

take_whole : (n : ℕ) (xs : List ℕ) → length xs ≤ n → take n xs ≡ xs
take_whole zero [] h = refl
take_whole zero (x ∷ xs) h = absurd (omega arith)
take_whole (suc n) [] h = refl
take_whole (suc n) (x ∷ xs) h = ap (λ r. x ∷ r) (take_whole n xs (omega arith))

same_text :
    (b : StringBuilder) (t : List ℕ) (free free' : ℕ)
    → free ≡ free'
    → HasText b t free
    → HasText b (t ++ []) (free' - (0 + 0))
same_text b t free free' e h = rw (append-nil t) (subst (HasText b t) (omega arith) h)

module _ {Format : Type 0} (render : Format → List ℕ) (hex : ℕ → Format) where
  -- The digits of bytes, one behind the other.
  abbrev pub digits_of : List ℕ → List ℕ
  digits_of [] = []
  digits_of (c ∷ cs) = render (hex c) ++ digits_of cs

module _ {Format : Type 0} (vsnprintf : ℕ → Format → List ℕ × ℕ) (render : Format → List ℕ)
    (hex : ℕ → Format) (law : Documented vsnprintf render)
    (two : (c : ℕ) → length (render (hex c)) ≡ 2) where
  hex_loop-HasText :
      (bytes : List ℕ) (b : StringBuilder) (i : ℕ) (t : List ℕ) (free n : ℕ)
      → n ≡ min (length bytes) (free / 2)
      → HasText b t free
      → (b' : StringBuilder) × (hex_loop vsnprintf hex bytes b i ≡ done (some (i + n), some b'))
        × HasText b' (t ++ digits_of render hex (take n bytes)) (free - (n + n))
  unfolding hex_loop
  hex_loop-HasText [] b i t free zero e h =
      (b, ap (λ k. done (some k, some b)) (omega arith), same_text b t free free refl h)
  hex_loop-HasText [] b i t free (suc n) e h = absurd (omega arith)
  hex_loop-HasText (c ∷ cs) b i t free zero e h =
      let (b', printed, h') =
        string_builder_sprintf-HasText vsnprintf render law b t free (hex c) h in
      let s = take free (render (hex c)) in
      let (ended, undone, h'') = undo-HasText b' t s (free - length s) h' in
      (
        record b' { used_size = b'.used_size - length s; buffer = ended },
        rw (printed, ltb-lt (length s) 2 (omega (arith, length-take free (render (hex c)))), undone)
            (ap
              (λ k.
                done (
                  some k,
                  some (record b' { used_size = b'.used_size - length s; buffer = ended }),
                ))
              (omega arith)),
        same_text _ t (free - length s + length s) free
            (omega (arith, length-take free (render (hex c)))) h'',
      )
  hex_loop-HasText (c ∷ cs) b i t free (suc n) e h =
      let (b', printed, h') =
        string_builder_sprintf-HasText vsnprintf render law b t free (hex c) h in
      let r = render (hex c) in
      let all : take free r ≡ r = take_whole free r (omega (arith, two c)) in
      let len : length (take free r) ≡ 2 = ap length all ∙ two c in
      let h₁ : HasText b' (t ++ r) (free - 2) =
        subst (λ s. HasText b' (t ++ s) (free - 2)) all
          (subst (λ k. HasText b' (t ++ take free r) (free - k)) len h') in
      let (b'', rest, h'') =
        hex_loop-HasText cs b' (i + 1) (t ++ r) (free - 2) n (omega (arith, e)) h₁ in
      (
        b'',
        rw (printed, len, rest) (ap (λ k. done (some k, some b'')) (omega arith)),
        subst (HasText b'' (t ++ (r ++ digits_of render hex (take n cs)))) (omega arith) (
            subst (λ u. HasText b'' u (free - 2 - (n + n)))
              (append_assoc t r (digits_of render hex (take n cs))) h''),
      )

  -- On a builder with a text and `free` bytes behind it, and a format that gives two digits for each
  -- byte, `string_builder_add_hexstring` adds the digits of as many bytes as there is space for, two
  -- for each, and returns their number: a byte that fits only in part leaves no digit behind.
  pub string_builder_add_hexstring-HasText :
      (bytes : List ℕ) (b : StringBuilder) (t : List ℕ) (free : ℕ)
      → HasText b t free
      → let n = min (length bytes) (free / 2) in
        (b' : StringBuilder) × (string_builder_add_hexstring vsnprintf hex (some b) (some bytes)
          ≡ done (some n, some b'))
        × HasText b' (t ++ digits_of render hex (take n bytes)) (free - (n + n))
  unfolding string_builder_add_hexstring
  string_builder_add_hexstring-HasText bytes b t free h =
      let n = min (length bytes) (free / 2) in
      let (b', looped, h') = hex_loop-HasText bytes b 0 t free n refl h in
      (b', looped ∙ ap (λ k. done (some k, some b')) (omega arith), h')
