-- ===== src/Strings/Digits.antt =====
-- lib/string/string.c: digits as text, read into bytes. A string is its characters without the zero.
pub mod Parse
use mosys.Common.{
  ℕ, zero, suc, ◌+◌, ◌-◌, ◌*◌, ◌/◌, ◌%◌, ◌<◌, Bool, true, false, ◌&&◌, ◌||◌, not, Option, none,
  some, List, [], ◌∷◌, ltb, leb, ◌==◌, if◌then◌else◌, Run, done, access, ◌>>=◌, length, get_elem?,
  set, replicate, peek, u8, bit_or,
}

abbrev pub AllBytes : List ℕ → Type 0
AllBytes [] = Unit
AllBytes (b ∷ bs) = (b < 256) × AllBytes bs

-- The two characters of "%02x" for a byte, high and low.
abbrev pub hex_char : ℕ → ℕ
hex_char n = if ltb n 10 then 48 + n else 87 + n

-- The loop.
unfoldable pub hex_digits : List ℕ → List ℕ
hex_digits [] = []
hex_digits (b ∷ bs) = hex_char (b / 16) ∷ hex_char (b % 16) ∷ hex_digits bs

-- `none` is NULL.
unfoldable pub buf2str : Option (List ℕ) → Option (List ℕ)
buf2str none = none
buf2str (some bytes) = some (hex_digits bytes)

-- The value of a digit, and of a letter as a digit.
abbrev pub char_value : ℕ → Option ℕ
char_value c =
    if leb 48 c && leb c 57
    then some (c - 48)
    else if leb 97 c && leb c 122
    then some (c - 87)
    else if leb 65 c && leb c 90
    then some (c - 55)
    else none

-- `strtol` on a single character; `none` where it leaves the character.
unfoldable pub digit_of : ℕ → ℕ → Option ℕ
digit_of base c = elim (char_value c) [ none ↦ none | some d ↦ if ltb d base then some d else none ]

-- Whether `strpbrk` finds the character.
abbrev pub is_delim : List ℕ → ℕ → Bool
is_delim [] c = false
is_delim (d ∷ ds) c = c == d || is_delim ds c

-- The loop: the buffer, the index, and whether the high nibble is next; `none` is an invalid character.
unfoldable pub nstr_loop :
    ℕ → List ℕ → List ℕ → List ℕ → ℕ → Bool → Run (Option (List ℕ × ℕ × Bool))
nstr_loop base delim [] tmp tmp_idx high = done (some (tmp, tmp_idx, high))
nstr_loop base delim (c ∷ cs) tmp tmp_idx high = elim (digit_of base c) [
  | none ↦ if is_delim delim c then nstr_loop base delim cs tmp tmp_idx high else done none
  | some digit ↦ access (get_elem? tmp tmp_idx) >>= λ old.
      if high
      then nstr_loop base delim cs (set tmp tmp_idx (u8 (bit_or old (digit * 16)))) tmp_idx false
      else nstr_loop base delim cs (set tmp tmp_idx (u8 (bit_or old digit))) (tmp_idx + 1) true
]

-- From the byte at `i` down.
unfoldable pub rshift_nibbles : List ℕ → ℕ → Run (List ℕ)
rshift_nibbles array zero = access (get_elem? array 0) >>= λ this. done (set array 0 (this / 16))
rshift_nibbles array (suc i) = access (get_elem? array i) >>= λ before.
    access (get_elem? array (suc i)) >>= λ this.
    rshift_nibbles (set array (suc i) (bit_or (u8 (before * 16)) (this / 16))) i

-- A last high nibble alone is counted, and the bytes are aligned.
unfoldable pub nstr_bytes : List ℕ → ℕ → Bool → Run (Option (List ℕ))
nstr_bytes tmp tmp_idx true = access (peek tmp tmp_idx) >>= λ bytes. done (some bytes)
nstr_bytes tmp tmp_idx false = rshift_nibbles tmp (tmp_idx + 1) >>= λ shifted.
    access (peek shifted (tmp_idx + 1)) >>= λ bytes. done (some bytes)

-- The bytes that the buffer gets; `none` is -1.
unfoldable pub nstr2buf : List ℕ → ℕ → List ℕ → Run (Option (List ℕ))
nstr2buf str base delim =
    if ltb base 2 || ltb 16 base
    then done none
    else (nstr_loop base delim str (replicate (length str) 0) 0 true >>= λ outcome. elim outcome [
      | none ↦ done none
      | some (tmp, tmp_idx, high) ↦ nstr_bytes tmp tmp_idx high
    ])
