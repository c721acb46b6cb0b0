-- ===== src/Elog/Command/Spelled.antt =====
-- The numbers that two characters can spell for strtol, in core/command/eventlog.c.
use mosys.Common.{
  ℕ, ◌+◌, ◌*◌, ◌≤◌, ◌<◌, ◌≡◌, refl, Bool, true, false, Option, none, some, ltb, ◌==◌, List, [], ◌∷◌,
  length, arith, ◌⊎◌, inl, inr, Bool-cases, ltb→lt,
}
use mosys.Elog.Command.{
  digit_value, read_digits, skip_spaces, is_space, read_sign, read_plain, read_number, long_of,
  long_or, read_signed, to_unsigned, byte_of, parse_byte,
}

-- The values of a byte that two characters can give.
abbrev pub IsGiven : ℕ → Type 0
IsGiven v = (v < 100) ⊎ ((247 ≤ v) × (v < 256))

read_digits-nil : (base n : ℕ) → read_digits base n [] ≡ (n, [])
unfolding read_digits
read_digits-nil base n = refl

-- A single digit.
read_digits-one : (base n d m : ℕ) → read_digits base n (d ∷ []) ≡ (m, []) → (m < n * base + base)
unfolding read_digits
read_digits-one base n d m h = elim (Bool-cases (ltb (digit_value d) base)) [
  | inl small ↦
      let e : n * base + digit_value d ≡ m = cc (rw small at h) in
      omega (arith, e, ltb→lt _ _ small)
  | inr big ↦ absurd (cc (rw big at h))
]

-- The bound for a text of one or two characters.
abbrev IsSmall : List ℕ → ℕ → Type 0
IsSmall u m = (m < 100) × (length u ≤ 1 → m < 10)

read_plain-zero :
    (c : ℕ) (u : List ℕ) → (c == b'0') ≡ true → read_plain (c ∷ u) ≡ some (read_digits 8 0 u)
read_plain-zero c u e = rw (e) refl

read_plain-digit :
    (c : ℕ) (u : List ℕ) (m : ℕ)
    → (c == b'0') ≡ false
    → read_plain (c ∷ u) ≡ some (m, [])
    → (digit_value c < 10) × (read_digits 10 (digit_value c) u ≡ (m, []))
read_plain-digit c u m e h = elim (Bool-cases (ltb (digit_value c) 10)) [
  | inl small ↦ (ltb→lt _ _ small, cc (rw (e, small) at h))
  | inr big ↦ absurd (cc (rw (e, big) at h))
]

-- One or two characters without a sign.
read_plain-IsSmall : (u : List ℕ) (m : ℕ) → length u ≤ 2 → read_plain u ≡ some (m, []) → IsSmall u m
read_plain-IsSmall [] m short h = absurd (cc (h))
read_plain-IsSmall (c ∷ u) m short h = elim (Bool-cases (c == b'0')) [
  | inl is_zero ↦ octal u (omega arith) (cc (h, read_plain-zero c u is_zero))
  | inr other ↦
      let (first, rest) = read_plain-digit c u m other h in decimal u (omega arith) first rest
]
  where
    octal : (u : List ℕ) → length u ≤ 1 → read_digits 8 0 u ≡ (m, []) → IsSmall (c ∷ u) m
    octal [] few e =
        let n : 0 ≡ m = cc (e, read_digits-nil 8 0) in (omega (arith, n), λ s. omega (arith, n))
    octal (d ∷ []) few e =
        let n = read_digits-one 8 0 d m e in (omega (arith, n), λ s. omega (arith, n))
    octal (d ∷ x ∷ v) few e = absurd (omega arith)

    decimal :
        (u : List ℕ)
        → length u ≤ 1
        → digit_value c < 10
        → read_digits 10 (digit_value c) u ≡ (m, [])
        → IsSmall (c ∷ u) m
    decimal [] few first e =
        let n : digit_value c ≡ m = cc (e, read_digits-nil 10 (digit_value c)) in
        (omega (arith, n, first), λ s. omega (arith, n, first))
    decimal (d ∷ []) few first e =
        let n = read_digits-one 10 (digit_value c) d m e in
        (omega (arith, n, first), λ s. absurd (omega arith))
    decimal (d ∷ x ∷ v) few first e = absurd (omega arith)

read_number-IsSmall :
    (u : List ℕ) (m : ℕ) → length u ≤ 2 → read_number u ≡ some (m, []) → IsSmall u m
read_number-IsSmall [] m short h = read_plain-IsSmall [] m short h
read_number-IsSmall (c ∷ []) m short h = read_plain-IsSmall (c ∷ []) m short h
read_number-IsSmall (c ∷ d ∷ []) m short h = read_plain-IsSmall (c ∷ d ∷ []) m short h
read_number-IsSmall (c ∷ d ∷ e ∷ u) m short h = absurd (omega arith)

-- A sign leaves one character at most.
byte_of-IsGiven :
    (a b : ℕ) (is_negative : Bool) (u : List ℕ) (v : ℕ)
    → length u ≤ 2
    → (is_negative ≡ true → length u ≤ 1)
    → byte_of (read_signed (a ∷ b ∷ []) (is_negative, u)) ≡ some v
    → IsGiven v
byte_of-IsGiven a b is_negative u v short signed h = go (read_number u) refl h
  where
    value :
        (t : Bool) (n : ℕ)
        → n < 100
        → (t ≡ true → n < 10)
        → some (to_unsigned 8 (long_of t n)) ≡ some v
        → IsGiven v
    value false n low tens e = ground (arith, e)
    value true n low tens e = let few = tens refl in ground (arith, e, few)

    go :
        (o : Option (ℕ × List ℕ))
        → read_number u ≡ o
        → byte_of (long_or (a ∷ b ∷ []) is_negative o) ≡ some v
        → IsGiven v
    go none e h = absurd (cc (h))
    go (some (n, c ∷ rest)) e h = absurd (cc (h))
    go (some (n, [])) e h =
        let (low, tens) = read_number-IsSmall u n short e in
        value is_negative n low (λ t. tens (signed t)) h

length-read_sign :
    (t : List ℕ)
    → length t ≤ 2
    → (length (read_sign t).1 ≤ 2) × ((read_sign t).0 ≡ true → length (read_sign t).1 ≤ 1)
length-read_sign [] short = (omega arith, λ e. omega arith)
length-read_sign (c ∷ t) short = elim (Bool-cases (c == b'-')) [
  | inl minus ↦ rw (minus) (omega arith, λ e. omega arith)
  | inr other ↦ elim (Bool-cases (c == b'+')) [
    | inl plus ↦ rw (other, plus) (omega arith, λ e. omega arith)
    | inr digit ↦ rw (other, digit) (short, λ e. absurd (cc (e)))
  ]
]

length-skip_spaces : (t : List ℕ) → length (skip_spaces t) ≤ length t
unfolding skip_spaces
length-skip_spaces [] = omega arith
length-skip_spaces (c ∷ t) = elim (Bool-cases (is_space c)) [
  | inl space ↦ rw (space) (omega (arith, length-skip_spaces t))
  | inr other ↦ rw (other) (omega arith)
]

pub parse_byte-IsGiven : (a b v : ℕ) → parse_byte a b ≡ some v → IsGiven v
parse_byte-IsGiven a b v h =
    let (short, signed) =
      length-read_sign (skip_spaces (a ∷ b ∷ [])) (length-skip_spaces (a ∷ b ∷ [])) in
    byte_of-IsGiven a b _ _ v short signed h
