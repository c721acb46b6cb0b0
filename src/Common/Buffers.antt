-- ===== src/Common/Buffers.antt =====
-- Byte buffers. A write that does not fit is a fault, since C leaves it undefined.
use Prim.Native.Nat.{ℕ, zero, suc, ◌+◌, ◌-◌, ◌/◌, ◌%◌, ◌^◌, ◌≤◌, ◌<◌}
use mathlib.Core.Logic.{◌⊎◌}
use mathlib.Core.Path.{◌≡◌, refl, sym, ap, ◌∙◌}
use mathlib.Core.Option.{Option, none, some}
use mathlib.Core.List.{List, [], ◌∷◌, ◌++◌}
use native.Mathlib.Omega.{arith}
use mosys.Common.Lists.{
  length, take, drop, length-append, length-drop, get_or, take-append-drop, replicate,
}
use mosys.Common.Tests.{leb, if◌then◌else◌}

abbrev pub u8 : ℕ → ℕ
u8 n = n % 2 ^ 8

-- `memcpy(buf + off, src, n)` with the `n` bytes of `src`.
unfoldable pub poke : List ℕ → ℕ → List ℕ → Option (List ℕ)
poke buf off src =
    if leb (off + length src) (length buf)
    then some (take off buf ++ (src ++ drop (off + length src) buf))
    else none

suc_add : (m n : ℕ) → suc (m + n) ≡ suc m + n
suc_add m n = omega arith

module _ {ℓ} {A : Type ℓ} where
  pub drop-append_length : (xs ys : List A) → drop (length xs) (xs ++ ys) ≡ ys
  drop-append_length [] ys = refl
  drop-append_length (x ∷ xs) ys = drop-append_length xs ys

  pub take-append_length : (xs ys : List A) → take (length xs) (xs ++ ys) ≡ xs
  take-append_length [] ys = refl
  take-append_length (x ∷ xs) ys = ap (λ zs. x ∷ zs) (take-append_length xs ys)

  pub drop-nil : (n : ℕ) → drop {A = A} n [] ≡ []
  drop-nil zero = refl
  drop-nil (suc n) = refl

  pub drop-drop : (m n : ℕ) (xs : List A) → drop n (drop m xs) ≡ drop (m + n) xs
  drop-drop zero n xs = ap (λ k. drop k xs) (omega arith)
  drop-drop (suc m) n [] = drop-nil n ∙ sym (drop-nil (suc m + n))
  drop-drop (suc m) n (x ∷ xs) = drop-drop m n xs ∙ ap (λ k. drop k (x ∷ xs)) (suc_add m n)

  pub drop_all : (n : ℕ) (xs : List A) → length xs ≤ n → drop n xs ≡ []
  drop_all n [] h = drop-nil n
  drop_all zero (x ∷ xs) h = absurd (omega arith)
  drop_all (suc n) (x ∷ xs) h = drop_all n xs (omega arith)

  pub append_ne_nil : (x : A) (xs ys : List A) → 0 < length (xs ++ (x ∷ ys))
  append_ne_nil x xs ys = omega (arith, length-append xs (x ∷ ys))

-- A write that fits.
pub poke_fits :
    (buf : List ℕ) (off : ℕ) (src : List ℕ)
    → off + length src ≤ length buf
    → poke buf off src ≡ some (take off buf ++ (src ++ drop (off + length src) buf))
unfolding poke
poke_fits buf off src h = ground arith

length-append3 : (xs ys zs : List ℕ) → length (xs ++ (ys ++ zs)) ≡ length xs + length ys + length zs
length-append3 xs ys zs = omega (arith, length-append xs (ys ++ zs), length-append ys zs)

drop-append3 :
    (xs ys zs : List ℕ) (n : ℕ) → n ≡ length ys → drop (length xs + n) (xs ++ (ys ++ zs)) ≡ zs
drop-append3 xs ys zs n e =
    sym (drop-drop (length xs) n (xs ++ (ys ++ zs)))
    ∙ ap (drop n) (drop-append_length xs (ys ++ zs))
    ∙ ap (λ k. drop k (ys ++ zs)) e
    ∙ drop-append_length ys zs

-- A write over bytes of the same number replaces them and nothing else.
pub poke_middle :
    (pre mid post src : List ℕ) (off : ℕ)
    → off ≡ length pre
    → length mid ≡ length src
    → poke (pre ++ (mid ++ post)) off src ≡ some (pre ++ (src ++ post))
poke_middle pre mid post src off e h =
    rw (e, poke_fits (pre ++ (mid ++ post)) (length pre) src fits)
      (rw (take-append_length pre (mid ++ post), drop-append3 pre mid post (length src) (sym h)))
  where
    fits : length pre + length src ≤ length (pre ++ (mid ++ post))
    fits = omega (arith, length-append3 pre mid post)

-- A write past the end is a fault.
pub poke_fault :
    (buf : List ℕ) (off : ℕ) (src : List ℕ)
    → length buf < off + length src
    → poke buf off src ≡ none
unfolding poke
poke_fault buf off src h = ground arith

pub length-drop_le : (n : ℕ) (xs : List ℕ) → length (drop n xs) + n ≡ length xs ⊎ length xs < n
length-drop_le n xs = omega (arith, length-drop n xs)

pub cons-drop : (xs : List ℕ) → 0 < length xs → xs ≡ get_or xs 0 0 ∷ drop 1 xs
cons-drop [] h = elim h [ ]
cons-drop (x ∷ xs) h = refl

-- A buffer taken apart at three offsets and one byte.
pub cut_four :
    (a b n : ℕ) (xs : List ℕ)
    → a + b + n < length xs
    → xs
      ≡ take a xs
        ++ (take b (drop a xs)
            ++ (take n (drop b (drop a xs))
                ++ (get_or (drop n (drop b (drop a xs))) 0 0 ∷ drop (a + b + n + 1) xs)))
cut_four a b n xs h =
    sym (take-append-drop a xs)
    ∙ ap (λ r. take a xs ++ r) (sym (take-append-drop b (drop a xs)))
    ∙ ap (λ r. take a xs ++ (take b (drop a xs) ++ r))
        (sym (take-append-drop n (drop b (drop a xs))))
    ∙ ap (λ r. take a xs ++ (take b (drop a xs) ++ (take n (drop b (drop a xs)) ++ r))) last
  where
    rest : List ℕ
    rest = drop n (drop b (drop a xs))

    at : rest ≡ drop (a + b + n) xs
    at = ap (drop n) (drop-drop a b xs) ∙ drop-drop (a + b) n xs

    last : rest ≡ get_or rest 0 0 ∷ drop (a + b + n + 1) xs
    last =
        cons-drop rest (omega (arith, ap length at, length-drop (a + b + n) xs))
        ∙ ap (λ r. get_or rest 0 0 ∷ r) (ap (drop 1) at ∙ drop-drop (a + b + n) 1 xs)

-- `n` bytes read from a pointer.
unfoldable pub peek : List ℕ → ℕ → Option (List ℕ)
peek buf n = if leb n (length buf) then some (take n buf) else none

abbrev pub u32 : ℕ → ℕ
u32 n = n % 2 ^ 32

abbrev pub u64 : ℕ → ℕ
u64 n = n % 2 ^ 64

-- `size_t` subtraction; 2 ^ 64 is added first since `-` stops at 0.
abbrev pub sub64 : ℕ → ℕ → ℕ
sub64 a b = (a + 2 ^ 64 - b) % 2 ^ 64

-- The bytes of a `uint32_t` on a little-endian machine.
abbrev pub le32 : ℕ → List ℕ
le32 n = n % 256 ∷ n / 2 ^ 8 % 256 ∷ n / 2 ^ 16 % 256 ∷ n / 2 ^ 24 % 256 ∷ []

pub drop-replicate : (n k a : ℕ) → drop k (replicate n a) ≡ replicate (n - k) a
drop-replicate n zero a = ap (λ m. replicate m a) (omega arith)
drop-replicate zero (suc k) a =
    let none_left : zero ≡ zero - suc k = omega arith in ap (λ m. replicate m a) none_left
drop-replicate (suc n) (suc k) a =
    let same : n - k ≡ suc n - suc k = omega arith in
    drop-replicate n k a ∙ ap (λ m. replicate m a) same
