-- ===== src/Elog/Command/Tests.antt =====
-- `eventlog add` with a list of the calls as the state.
use mosys.Common.{ℕ, ◌≡◌, refl, some, List, [], ◌∷◌, Rc, ok, failed, ◌⊎◌}
use mosys.Elog.Command.{strtol, read_digits, skip_spaces, parse_bytes, eventlog_smbios_add_cmd}
use mosys.Elog.Command.Given.{IsAdded, eventlog_smbios_add_cmd-IsAdded}

abbrev Calls : Type 0
Calls = List (ℕ × List ℕ)

abbrev recorded : Calls → ℕ → List ℕ → Rc × Calls
recorded calls event_type bytes = (ok, (event_type, bytes) ∷ calls)

strtol_hex : (strtol (b'0' ∷ b'x' ∷ b'1' ∷ b'F' ∷ b' ' ∷ [])).0.magnitude ≡ 31
unfolding read_digits skip_spaces
strtol_hex = refl

strtol_plain : (strtol (b' ' ∷ b'-' ∷ b'1' ∷ b'7' ∷ b'9' ∷ [])).1 ≡ []
unfolding read_digits skip_spaces
strtol_plain = refl

-- Type 0x80 with the bytes 10, 7 and 255.
add_three :
    eventlog_smbios_add_cmd
      (some recorded)
      []
      ((b'0' ∷ b'x' ∷ b'8' ∷ b'0' ∷ []) ∷ (b'1' ∷ b'0' ∷ b'0' ∷ b'7' ∷ b'-' ∷ b'1' ∷ []) ∷ [])
    ≡ (ok, (0x80, 10 ∷ 7 ∷ 255 ∷ []) ∷ [])
unfolding eventlog_smbios_add_cmd parse_bytes read_digits skip_spaces
add_three = refl

-- Two hexadecimal digits are refused.
add_ff :
    eventlog_smbios_add_cmd (some recorded) [] ((b'8' ∷ []) ∷ (b'f' ∷ b'f' ∷ []) ∷ [])
    ≡ (failed, [])
unfolding eventlog_smbios_add_cmd parse_bytes read_digits skip_spaces
add_ff = refl

eventlog_smbios_add_cmd-IsAdded_example :
    (eventlog_smbios_add_cmd (some recorded) [] ((b'8' ∷ []) ∷ (b'1' ∷ b'0' ∷ []) ∷ [])
      ≡ (failed, []))
    ⊎ IsAdded recorded []
        ((b'8' ∷ []) ∷ (b'1' ∷ b'0' ∷ []) ∷ [])
        (eventlog_smbios_add_cmd (some recorded) [] ((b'8' ∷ []) ∷ (b'1' ∷ b'0' ∷ []) ∷ []))
eventlog_smbios_add_cmd-IsAdded_example =
    eventlog_smbios_add_cmd-IsAdded recorded [] ((b'8' ∷ []) ∷ (b'1' ∷ b'0' ∷ []) ∷ [])
