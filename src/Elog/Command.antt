-- ===== src/Elog/Command.antt =====
-- core/command/eventlog.c: the commands `eventlog add` and `eventlog clear`, over the platform's callbacks.
pub mod Spelled
pub mod Given
mod Tests
use mathlib.Core.Option
use mosys.Common.{
  ℕ, zero, suc, ◌+◌, ◌-◌, ◌*◌, ◌/◌, ◌%◌, ◌^◌, ◌≤◌, ◌<◌, min, ◌≡◌, refl, Bool, true, false, not,
  ◌&&◌, ◌||◌, Option, none, some, ltb, leb, ◌==◌, if◌then◌else◌, List, [], ◌∷◌, u8, length, arith,
  Rc, ok, failed, ◌⊎◌, inl, inr,
}

-- isspace of the C library in the locale "C".
abbrev pub is_space : ℕ → Bool
is_space c = c == b' ' || (leb 9 c && leb c 13)

-- The value of a digit of base 36, or 36.
abbrev pub digit_value : ℕ → ℕ
digit_value c =
    if leb b'0' c && leb c b'9'
    then c - b'0'
    else if leb b'a' c && leb c b'z'
    then c - b'a' + 10
    else if leb b'A' c && leb c b'Z'
    then c - b'A' + 10
    else 36

-- The number that a text starts with after the digits read before, and what is left of the text.
unfoldable pub read_digits : ℕ → ℕ → List ℕ → ℕ × List ℕ
read_digits base n [] = (n, [])
read_digits base n (c ∷ text) =
    let rest = read_digits base (n * base + digit_value c) text in
    if ltb (digit_value c) base then rest else (n, c ∷ text)

unfoldable pub skip_spaces : List ℕ → List ℕ
skip_spaces [] = []
skip_spaces (c ∷ text) = let rest = skip_spaces text in if is_space c then rest else c ∷ text

-- A number of type long, as strtol gives it.
pub record Long : Type 0 where
  pub is_negative : Bool
  pub magnitude : ℕ

-- The sign of a text, and what follows it.
abbrev pub read_sign : List ℕ → Bool × List ℕ
read_sign [] = (false, [])
read_sign (c ∷ text) =
    if c == b'-' then (true, text) else if c == b'+' then (false, text) else (false, c ∷ text)

-- A number in octal or decimal; `none` if there is no digit.
abbrev pub read_plain : List ℕ → Option (ℕ × List ℕ)
read_plain [] = none
read_plain (c ∷ text) =
    if c == b'0'
    then some (read_digits 8 0 text)
    else if ltb (digit_value c) 10
    then some (read_digits 10 (digit_value c) text)
    else none

abbrev pub is_hex_prefix : ℕ → ℕ → ℕ → Bool
is_hex_prefix c x h = c == b'0' && (x == b'x' || x == b'X') && ltb (digit_value h) 16

-- A number with the prefix of its base.
abbrev pub read_number : List ℕ → Option (ℕ × List ℕ)
read_number (c ∷ x ∷ h ∷ text) =
    if is_hex_prefix c x h
    then some (read_digits 16 0 (h ∷ text))
    else read_plain (c ∷ x ∷ h ∷ text)
read_number text = read_plain text

abbrev pub long_of : Bool → ℕ → Long
long_of is_negative n = record {
  is_negative = is_negative;
  magnitude = min n (if is_negative then 2 ^ 63 else 2 ^ 63 - 1);
}

-- Without a digit, nothing of the text is taken.
abbrev pub long_or : List ℕ → Bool → Option (ℕ × List ℕ) → Long × List ℕ
long_or text is_negative none = (long_of false 0, text)
long_or text is_negative (some (n, rest)) = (long_of is_negative n, rest)

abbrev pub read_signed : List ℕ → Bool × List ℕ → Long × List ℕ
read_signed text (is_negative, unsigned) = long_or text is_negative (read_number unsigned)

-- strtol with base 0: the number, and the text that `endptr` points to.
abbrev pub strtol : List ℕ → Long × List ℕ
strtol text = read_signed text (read_sign (skip_spaces text))

-- The conversion to an unsigned type of 2 ^ w values.
abbrev pub to_unsigned : ℕ → Long → ℕ
to_unsigned w l =
    if l.is_negative then (2 ^ w - l.magnitude % 2 ^ w) % 2 ^ w else l.magnitude % 2 ^ w

-- The byte, if strtol takes the whole text.
abbrev pub byte_of : Long × List ℕ → Option ℕ
byte_of (l, []) = some (to_unsigned 8 l)
byte_of (l, c ∷ rest) = none

abbrev pub parse_byte : ℕ → ℕ → Option ℕ
parse_byte a b = byte_of (strtol (a ∷ b ∷ []))

abbrev pub byte_before : Option ℕ → Option (List ℕ) → Option (List ℕ)
byte_before none rest = none
byte_before (some v) none = none
byte_before (some v) (some bytes) = some (v ∷ bytes)

-- The loop over the second argument.
unfoldable pub parse_bytes : List ℕ → Option (List ℕ)
parse_bytes [] = some []
parse_bytes (a ∷ []) = none
parse_bytes (a ∷ b ∷ text) = byte_before (parse_byte a b) (parse_bytes text)

-- An odd length is refused before the loop.
abbrev pub data_argument : List ℕ → Option (List ℕ)
data_argument text = if length text % 2 == 0 then parse_bytes text else none

-- The callbacks; a NULL one is `none`.
module _ {W : Type 0} where
  abbrev pub add_data : (W → ℕ → List ℕ → Rc × W) → W → ℕ → Option (List ℕ) → Rc × W
  add_data add w event_type none = (failed, w)
  add_data add w event_type (some bytes) = add w event_type bytes

  -- The code tells an absent callback and a wrong use apart by errno, ENOSYS and EINVAL; both return -1,
  -- and here both are `failed`.
  unfoldable pub eventlog_smbios_add_cmd :
      Option (W → ℕ → List ℕ → Rc × W) → W → List (List ℕ) → Rc × W
  eventlog_smbios_add_cmd none w argv = (failed, w)
  eventlog_smbios_add_cmd (some add) w [] = (failed, w)
  eventlog_smbios_add_cmd (some add) w (event_type ∷ []) =
      add w (to_unsigned 32 (strtol event_type).0) []
  eventlog_smbios_add_cmd (some add) w (event_type ∷ text ∷ []) =
      add_data add w (to_unsigned 32 (strtol event_type).0) (data_argument text)
  eventlog_smbios_add_cmd (some add) w (event_type ∷ text ∷ more ∷ rest) = (failed, w)

  unfoldable pub eventlog_smbios_clear_cmd : Option (W → Rc × W) → W → Rc × W
  eventlog_smbios_clear_cmd none w = (failed, w)
  eventlog_smbios_clear_cmd (some clear) w = clear w
