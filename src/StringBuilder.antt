-- ===== src/StringBuilder.antt =====
-- lib/string/string_builder.c: text that is put together in a buffer of fixed size.
-- A builder that is a null pointer is `none`, and so is a result of -1.
pub mod Append
pub mod Concat
pub mod Hex
pub mod Create
mod Tests
use mosys.Common.{
  strlen, ℕ, zero, suc, ◌+◌, ◌-◌, ◌^◌, Bool, true, false, Option, none, some, List, [], ◌∷◌, ◌++◌,
  ltb, leb, ◌==◌, if◌then◌else◌, Run, done, fault, access, peek, ◌>>=◌, length, take, drop,
  replicate, poke, sub64, u64,
}

pub record StringBuilder : Type 0 where
  pub buffer_size : ℕ
  pub used_size : ℕ
  pub buffer : List ℕ

-- The `int`, as it is where it is compared with a `size_t`.
unfoldable pub string_builder_space_left : StringBuilder → ℕ
string_builder_space_left b = sub64 b.buffer_size (b.used_size + 1)

unfoldable pub reset_string_builder : Option StringBuilder → Run (Option ℕ × Option StringBuilder)
reset_string_builder none = done (none, none)
reset_string_builder (some b) = access (poke b.buffer 0 (0 ∷ [])) >>= λ buffer.
    done (some 0, some (record b { used_size = 0; buffer = buffer }))

-- `fresh` is the memory that is allocated for the buffer; a size below 0 is as 0.
unfoldable pub new_sized_string_builder : ℕ → List ℕ → Run (Option StringBuilder)
new_sized_string_builder size fresh =
    if size == 0
    then done none
    else (reset_string_builder (some (record { buffer_size = size; used_size = 0; buffer = fresh }))
        >>= λ (rc, builder). done builder)

unfoldable pub new_string_builder : List ℕ → Run (Option StringBuilder)
new_string_builder fresh = new_sized_string_builder 128 fresh

unfoldable pub clone_string_builder : Option StringBuilder → List ℕ → Run (Option StringBuilder)
clone_string_builder none fresh = done none
clone_string_builder (some b) fresh =
    new_sized_string_builder b.buffer_size fresh >>= λ new_builder. elim new_builder [
      | none ↦ fault
      | some n ↦ access (peek b.buffer (b.used_size + 1)) >>= λ bytes.
          access (poke n.buffer 0 bytes) >>= λ buffer.
          done (some (record n { used_size = b.used_size; buffer = buffer }))
    ]

-- `strncpy`: `size` bytes, filled up with zeros behind the end of the string.
abbrev pub strncpy_bytes : List ℕ → ℕ → List ℕ
strncpy_bytes str size = take size str ++ replicate (size - length str) 0

unfoldable pub strncat_bytes : StringBuilder → List ℕ → ℕ → Run (Option ℕ × Option StringBuilder)
strncat_bytes b str size = do
  copied ← access (poke b.buffer b.used_size (strncpy_bytes str size))
  ended ← access (poke copied (b.used_size + size) (0 ∷ []))
  appended ← access (strlen (drop b.used_size ended))
  done (some appended, some (record b { used_size = b.used_size + appended; buffer = ended }))

-- The string is the bytes before its end.
unfoldable pub string_builder_strncat :
    Option StringBuilder → Option (List ℕ) → ℕ → Run (Option ℕ × Option StringBuilder)
string_builder_strncat none str size = done (none, none)
string_builder_strncat (some b) none size = done (none, some b)
string_builder_strncat (some b) (some str) size =
    let space_left = string_builder_space_left b in
    if size == 0
    then done (some 0, some b)
    else strncat_bytes b str (if ltb space_left size then space_left else size)

unfoldable pub string_builder_strcat :
    Option StringBuilder → Option (List ℕ) → Run (Option ℕ × Option StringBuilder)
string_builder_strcat builder none = done (none, builder)
string_builder_strcat builder (some str) = string_builder_strncat builder (some str) (length str)

unfoldable pub string_builder_add_char :
    Option StringBuilder → ℕ → Run (Option ℕ × Option StringBuilder)
string_builder_add_char none ch = done (none, none)
string_builder_add_char (some b) ch =
    if string_builder_space_left b == 0 then done (none, some b) else do
      added ← access (poke b.buffer b.used_size (ch ∷ []))
      ended ← access (poke added (b.used_size + 1) (0 ∷ []))
      done (some 0, some (record b { used_size = b.used_size + 1; buffer = ended }))

-- `vsnprintf` of the C library, for a size, and a format with its arguments: the bytes that it stores
-- and what it returns, the `int` as it is where it is compared with a `size_t`.
module _ {Format : Type 0} (vsnprintf : ℕ → Format → List ℕ × ℕ) where
  unfoldable pub print_bytes : StringBuilder → ℕ → Format → Run (Option ℕ × Option StringBuilder)
  print_bytes b size format = do
    let (stored, written) = vsnprintf (u64 (size + 1)) format
    printed ← access (poke b.buffer b.used_size stored)
    if ltb size written
        then done (some size, some (record b { used_size = b.used_size + size; buffer = printed }))
        else if leb (2 ^ 63) written
        then (access (poke printed b.used_size (0 ∷ [])) >>= λ ended.
            done (none, some (record b { buffer = ended })))
        else done
            (some written, some (record b { used_size = b.used_size + written; buffer = printed }))

  unfoldable pub string_builder_vsnprintf :
      Option StringBuilder → ℕ → Option Format → Run (Option ℕ × Option StringBuilder)
  string_builder_vsnprintf none size format = done (none, none)
  string_builder_vsnprintf (some b) size none = done (none, some b)
  string_builder_vsnprintf (some b) size (some format) =
      let space_free = string_builder_space_left b in
      let fewer = sub64 size 1 in
      print_bytes b (if ltb space_free fewer then space_free else fewer) format

  unfoldable pub string_builder_snprintf :
      Option StringBuilder → ℕ → Option Format → Run (Option ℕ × Option StringBuilder)
  string_builder_snprintf builder size format = string_builder_vsnprintf builder size format

  unfoldable pub string_builder_sprintf :
      Option StringBuilder → Option Format → Run (Option ℕ × Option StringBuilder)
  string_builder_sprintf none format = done (none, none)
  string_builder_sprintf (some b) format =
      string_builder_vsnprintf (some b) (u64 (string_builder_space_left b + 1)) format

  -- The loop of `string_builder_add_hexstring`, with the number of bytes that are done. `hex` is the
  -- format "%02x" with a `char`, as the C compiler widens it.
  module _ (hex : ℕ → Format) where
    unfoldable pub hex_loop : List ℕ → StringBuilder → ℕ → Run (Option ℕ × Option StringBuilder)
    hex_loop [] b i = done (some i, some b)
    hex_loop (c ∷ cs) b i =
        string_builder_sprintf (some b) (some (hex c)) >>= λ (len_written, builder).
        elim len_written [
          | none ↦ done (none, builder)
          | some n ↦ elim builder [
            | none ↦ done (none, none)
            | some b' ↦
                let rest = hex_loop cs b' (i + 1) in
                if ltb n 2
                then (access (poke b'.buffer (b'.used_size - n) (0 ∷ [])) >>= λ ended.
                    done
                      (some i, some (record b' { used_size = b'.used_size - n; buffer = ended })))
                else rest
          ]
        ]

    -- A length below 0 is refused; here the bytes are given with their number.
    unfoldable pub string_builder_add_hexstring :
        Option StringBuilder → Option (List ℕ) → Run (Option ℕ × Option StringBuilder)
    string_builder_add_hexstring none bytes = done (none, none)
    string_builder_add_hexstring (some b) none = done (none, some b)
    string_builder_add_hexstring (some b) (some bytes) = hex_loop bytes b 0

-- The bytes before the first zero; `none` inside is a buffer without one.
unfoldable pub string_builder_get_string : Option StringBuilder → Option (Option (List ℕ))
string_builder_get_string none = none
string_builder_get_string (some b) =
    some (elim (strlen b.buffer) [ none ↦ none | some n ↦ some (take n b.buffer) ])
