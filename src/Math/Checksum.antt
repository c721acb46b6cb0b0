-- ===== src/Math/Checksum.antt =====
-- The checksum loops of lib/math/math.c compute the byte sum modulo 256.
use mathlib.Core.Option
use mosys.Common.{
  ℕ, zero, suc, ◌+◌, ◌-◌, ◌≤◌, ◌<◌, ◌≡◌, refl, none, some, List, [], ◌∷◌, ◌++◌, u8, arith, length,
  take, length-append, ◌∙◌, ap, sym,
}
use mosys.Math.{csum_loop, rolling8_csum, zero8_csum}

-- The sum of the bytes, as a number.
abbrev pub byte_sum : List ℕ → ℕ
byte_sum [] = 0
byte_sum (b ∷ buf) = b + byte_sum buf

pub byte_sum-append : (xs ys : List ℕ) → byte_sum (xs ++ ys) ≡ byte_sum xs + byte_sum ys
byte_sum-append [] ys = omega arith
byte_sum-append (x ∷ xs) ys = omega (arith, byte_sum-append xs ys)

pub csum_loop-sum :
    (len : ℕ) (buf : List ℕ) (sum : ℕ)
    → len ≤ length buf
    → sum < 256
    → csum_loop len buf sum ≡ some (u8 (sum + byte_sum (take len buf)))
unfolding csum_loop
csum_loop-sum zero buf sum h s = ap (λ k. some k) (omega arith)
csum_loop-sum (suc len) [] sum h s = absurd (omega arith)
csum_loop-sum (suc len) (b ∷ buf) sum h s =
    csum_loop-sum len buf (u8 (sum + b)) (omega arith) (omega arith)
    ∙ ap (λ k. some k) (omega arith)

-- Reading past the end of the buffer is the only way to fault.
pub csum_loop-none :
    (len : ℕ) (buf : List ℕ) (sum : ℕ) → length buf < len → csum_loop len buf sum ≡ none
unfolding csum_loop
csum_loop-none zero buf sum h = elim h [ ]
csum_loop-none (suc len) [] sum h = refl
csum_loop-none (suc len) (b ∷ buf) sum h = csum_loop-none len buf (u8 (sum + b)) (omega arith)

-- `rolling8_csum` over a buffer of at least `len` bytes is the sum of its first `len` bytes
-- modulo 256.
pub rolling8_csum-sum :
    (buf : List ℕ) (len : ℕ)
    → len ≤ length buf
    → rolling8_csum buf len ≡ some (u8 (byte_sum (take len buf)))
unfolding rolling8_csum
rolling8_csum-sum buf len h =
    csum_loop-sum len buf 0 h (omega arith) ∙ ap (λ k. some k) (omega arith)

zero8_csum-sum :
    (buf : List ℕ) (len : ℕ)
    → len ≤ length buf
    → zero8_csum buf len ≡ some (u8 (0x100 - u8 (byte_sum (take len buf))))
unfolding zero8_csum
zero8_csum-sum buf len h =
    ap (Option.map (λ csum. u8 (0x100 - csum))) (csum_loop-sum len buf 0 h (omega arith))
    ∙ ap (λ k. some k) (omega arith)

take_all : (xs ys : List ℕ) → take (length xs) (xs ++ ys) ≡ xs
take_all [] ys = refl
take_all (x ∷ xs) ys = ap (λ zs. x ∷ zs) (take_all xs ys)

take_self : (xs : List ℕ) → take (length xs) xs ≡ xs
take_self [] = refl
take_self (x ∷ xs) = ap (λ zs. x ∷ zs) (take_self xs)

-- The zero-sum checksum of a buffer exists, is a byte, and the rolling checksum of the buffer
-- with that byte behind it is 0.
pub zero8_csum-rolling8_csum :
    (buf : List ℕ)
    → (c : ℕ) × (zero8_csum buf (length buf) ≡ some c)
      × (c < 256)
      × (rolling8_csum (buf ++ (c ∷ [])) (length buf + 1) ≡ some 0)
zero8_csum-rolling8_csum buf = (c, is_c, omega arith, zero_sum)
  where
    c : ℕ
    c = u8 (0x100 - u8 (byte_sum buf))

    is_c : zero8_csum buf (length buf) ≡ some c
    is_c =
        zero8_csum-sum buf (length buf) (omega arith)
        ∙ ap (λ b. some (u8 (0x100 - u8 (byte_sum b)))) (take_self buf)

    whole : length (buf ++ (c ∷ [])) ≡ length buf + 1
    whole = omega (arith, length-append buf (c ∷ []))

    zero_sum : rolling8_csum (buf ++ (c ∷ [])) (length buf + 1) ≡ some 0
    zero_sum =
        ap (rolling8_csum (buf ++ (c ∷ []))) (sym whole)
        ∙ rolling8_csum-sum (buf ++ (c ∷ [])) (length (buf ++ (c ∷ []))) (omega arith)
        ∙ ap (λ b. some (u8 (byte_sum b))) (take_self (buf ++ (c ∷ [])))
        ∙ ap (λ k. some k) (omega (arith, byte_sum-append buf (c ∷ [])))
