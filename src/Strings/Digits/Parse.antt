-- ===== src/Strings/Digits/Parse.antt =====
-- What `nstr2buf` of lib/string/string.c reads.
use mosys.Common.{
  ℕ, zero, suc, ◌+◌, ◌-◌, ◌*◌, ◌/◌, ◌%◌, ◌≤◌, ◌<◌, ◌≡◌, refl, sym, ap, ap₂, ◌∙◌, Bool, true, false,
  Option, none, some, List, [], ◌∷◌, ◌++◌, append_assoc, leb-le, ltb-ge, ◌==◌, ==_iff, done, fault,
  length, length-append, get_elem?, set, replicate, peek, take-append_length, u8, bit_or, arith,
  all_below, all_below_sound,
}
use mosys.Strings.Digits.{
  hex_char, AllBytes, hex_digits, buf2str, digit_of, is_delim, nstr_loop, rshift_nibbles,
  nstr_bytes, nstr2buf,
}

-- Pairs of hexadecimal digits that spell bytes, with delimiters anywhere between.
pub data Spells (delim : List ℕ) : List ℕ → List ℕ → Type 0 where
  nothing : Spells delim [] []
  delimiter :
      {c : ℕ} {cs bs : List ℕ}
      → digit_of 16 c ≡ none
      → is_delim delim c ≡ true
      → Spells delim cs bs
      → Spells delim (c ∷ cs) bs
  byte :
      {b : ℕ} {cs bs : List ℕ}
      → b < 256
      → Spells delim cs bs
      → Spells delim (hex_char (b / 16) ∷ hex_char (b % 16) ∷ cs) (b ∷ bs)

is_some : Option ℕ → ℕ → Bool
is_some none n = false
is_some (some m) n = m == n

is_some-some : (o : Option ℕ) (n : ℕ) → is_some o n ≡ true → o ≡ some n
unfolding is_some
is_some-some none n h = cc
is_some-some (some m) n h = ap some ((==_iff m n).0 h)

high_table : all_below 256 (λ b. is_some (digit_of 16 (hex_char (b / 16))) (b / 16)) ≡ true
unfolding all_below is_some digit_of
high_table = refl

low_table : all_below 256 (λ b. is_some (digit_of 16 (hex_char (b % 16))) (b % 16)) ≡ true
unfolding all_below is_some digit_of
low_table = refl

or_table : all_below 256 (λ b. u8 (bit_or (u8 (bit_or 0 (b / 16 * 16))) (b % 16)) == b) ≡ true
unfolding all_below
or_table = refl

get_elem?-append_at : (ds zs : List ℕ) (z : ℕ) → get_elem? (ds ++ (z ∷ zs)) (length ds) ≡ some z
get_elem?-append_at [] zs z = refl
get_elem?-append_at (d ∷ ds) zs z = get_elem?-append_at ds zs z

set-append_at : (ds zs : List ℕ) (z v : ℕ) → set (ds ++ (z ∷ zs)) (length ds) v ≡ ds ++ (v ∷ zs)
set-append_at [] zs z v = refl
set-append_at (d ∷ ds) zs z v = ap (λ r. d ∷ r) (set-append_at ds zs z v)

module _ (base : ℕ) (delim : List ℕ) (c digit : ℕ) (cs tmp : List ℕ) (i old : ℕ)
    (known : digit_of base c ≡ some digit) (there : get_elem? tmp i ≡ some old) where
  nstr_loop-high :
      nstr_loop base delim (c ∷ cs) tmp i true
      ≡ nstr_loop base delim cs (set tmp i (u8 (bit_or old (digit * 16)))) i false
  unfolding nstr_loop
  nstr_loop-high = rw (known, nstr_loop, there) refl

  nstr_loop-low :
      nstr_loop base delim (c ∷ cs) tmp i false
      ≡ nstr_loop base delim cs (set tmp i (u8 (bit_or old digit))) (i + 1) true
  unfolding nstr_loop
  nstr_loop-low = rw (known, nstr_loop, there) refl

-- A byte's two digits fill the next byte of the buffer.
nstr_loop-byte :
    (delim cs ds zs : List ℕ) (b : ℕ)
    → b < 256
    → nstr_loop 16 delim
        (hex_char (b / 16) ∷ hex_char (b % 16) ∷ cs)
        (ds ++ (0 ∷ zs))
        (length ds)
        true
      ≡ nstr_loop 16 delim cs (ds ++ (b ∷ zs)) (length ds + 1) true
nstr_loop-byte delim cs ds zs b small =
    nstr_loop-high 16 delim (hex_char (b / 16)) (b / 16) (hex_char (b % 16) ∷ cs) (ds ++ (0 ∷ zs))
      (length ds) 0 (is_some-some _ (b / 16) (all_below_sound 256 _ b high_table small))
      (get_elem?-append_at ds zs 0)
    ∙ ap (λ tmp. nstr_loop 16 delim (hex_char (b % 16) ∷ cs) tmp (length ds) false)
        (set-append_at ds zs 0 half)
    ∙ nstr_loop-low 16 delim (hex_char (b % 16)) (b % 16) cs (ds ++ (half ∷ zs)) (length ds) half
        (is_some-some _ (b % 16) (all_below_sound 256 _ b low_table small))
        (get_elem?-append_at ds zs half)
    ∙ ap (λ tmp. nstr_loop 16 delim cs tmp (length ds + 1) true)
        (set-append_at ds zs half _
          ∙ ap (λ v. ds ++ (v ∷ zs)) ((==_iff _ b).0 (all_below_sound 256 _ b or_table small)))
  where
    half : ℕ
    half = u8 (bit_or 0 (b / 16 * 16))

nstr_loop-Spells :
    (delim str bs ds : List ℕ) (k : ℕ)
    → Spells delim str bs
    → length bs ≤ k
    → nstr_loop 16 delim str (ds ++ replicate k 0) (length ds) true
      ≡ done (some (ds ++ (bs ++ replicate (k - length bs) 0), length ds + length bs, true))
unfolding nstr_loop
nstr_loop-Spells delim _ _ ds k nothing enough =
    ap₂ (λ n i. done (some (ds ++ replicate n 0, i, true))) (omega arith) (omega arith)
nstr_loop-Spells delim _ bs ds k (delimiter {c = c} {cs = cs} no_digit is_one rest) enough =
    rw (no_digit, nstr_loop, is_one) (nstr_loop-Spells delim cs bs ds k rest enough)
nstr_loop-Spells delim _ _ ds zero (byte small rest) enough = absurd (omega arith)
nstr_loop-Spells delim _ _ ds (suc k) (byte {b = b} {cs = cs} {bs = bs} small rest) enough =
    nstr_loop-byte delim cs ds (replicate k 0) b small
    ∙ ap₂ (λ tmp i. nstr_loop 16 delim cs tmp i true)
        (sym (append_assoc ds (b ∷ []) (replicate k 0))) (sym (length-append ds (b ∷ [])))
    ∙ nstr_loop-Spells delim cs bs (ds ++ (b ∷ [])) k rest (omega arith)
    ∙ ap₂ (λ tmp i. done (some (tmp, i, true)))
        (append_assoc ds (b ∷ []) _ ∙ ap (λ n. ds ++ (b ∷ (bs ++ replicate n 0))) (omega arith))
        (omega (arith, length-append ds (b ∷ [])))

length-Spells : (delim str bs : List ℕ) → Spells delim str bs → length bs ≤ length str
length-Spells delim _ _ nothing = omega arith
length-Spells delim _ bs (delimiter {cs = cs} no_digit is_one rest) =
    omega (arith, length-Spells delim cs bs rest)
length-Spells delim _ _ (byte {cs = cs} {bs = bs} small rest) =
    omega (arith, length-Spells delim cs bs rest)

peek_prefix : (xs ys : List ℕ) → peek (xs ++ ys) (length xs) ≡ some xs
unfolding peek
peek_prefix xs ys =
    rw
      (
        leb-le (length xs) (length (xs ++ ys)) (omega (arith, length-append xs ys)),
        take-append_length xs ys,
      )
      refl

-- With base 16 `nstr2buf` gives the bytes that the digits of a string spell in pairs, with delimiters
-- before, between and behind them.
pub nstr2buf-Spells :
    (delim str bs : List ℕ) → Spells delim str bs → nstr2buf str 16 delim ≡ done (some bs)
unfolding nstr2buf nstr_bytes
nstr2buf-Spells delim str bs spelled =
    rw
      (
        nstr_loop-Spells delim str bs [] (length str) spelled (length-Spells delim str bs spelled),
        left_zero (length bs),
        peek_prefix bs (replicate (length str - length bs) 0),
      )
      refl
  where
    left_zero : (n : ℕ) → 0 + n ≡ n
    left_zero n = omega arith

hex_digits-Spells : (delim bs : List ℕ) → AllBytes bs → Spells delim (hex_digits bs) bs
unfolding hex_digits
hex_digits-Spells delim [] all = nothing
hex_digits-Spells delim (b ∷ bs) all = byte all.0 (hex_digits-Spells delim bs all.1)

-- What `buf2str` makes of bytes `nstr2buf` reads back, with base 16 and any delimiters.
pub nstr2buf-buf2str :
    (delim bs : List ℕ)
    → AllBytes bs
    → (str : List ℕ) × (buf2str (some bs) ≡ some str) × (nstr2buf str 16 delim ≡ done (some bs))
unfolding buf2str
nstr2buf-buf2str delim bs all =
    (hex_digits bs, refl, nstr2buf-Spells delim (hex_digits bs) bs (hex_digits-Spells delim bs all))

-- A single digit makes the shift of the nibbles pass the end of the buffer, whatever the base.
pub nstr2buf_one_digit :
    (base c digit : ℕ) (delim : List ℕ)
    → 2 ≤ base
    → base ≤ 16
    → digit_of base c ≡ some digit
    → nstr2buf (c ∷ []) base delim ≡ fault
unfolding nstr2buf nstr_bytes nstr_loop rshift_nibbles
nstr2buf_one_digit base c digit delim low high known =
    rw (ltb-ge base 2 low, ltb-ge 16 base high, known, nstr_loop) refl
