-- ===== src/Elog/Report.antt =====
-- How an entry of the log is printed: lib/eventlog/elog.c, the names of the SMBIOS types of
-- lib/eventlog/elog_smbios.c.
-- A list of key and value pairs is without its empty head, which is never printed.
pub mod Types
pub mod Events
pub mod Recovery
pub mod PostCodes
pub mod Me
pub mod Names
use mosys.Common.{
  ℕ, ◌+◌, ◌-◌, ◌*◌, ◌/◌, ◌%◌, ◌^◌, Bool, true, false, not, ◌&&◌, Option, none, some, List, [], ◌∷◌,
  ◌++◌, String, leb, ◌==◌, if◌then◌else◌, Run, done, fault, access, ◌>>=◌, peek, drop, get_or, ◌||◌,
  length, ◌≡◌,
}
use mosys.Elog.Entry.{entry_type, entry_length, sizeof_entry}
use mosys.Elog.Iterator.{Callback, minus_one}
use mosys.Elog.Report.Types.{elog_event_types, smbios_eventlog_types, path_type_values}
use mosys.Elog.Report.Events.{
  os_events, wake_source_types, ec_event_types, ec_device_event_types, me_path_types,
  mem_cache_slots, mem_cache_statuses,
}
use mosys.Elog.Report.Recovery.{cros_recovery_reasons}
use mosys.Elog.Report.PostCodes.{coreboot_post_codes}
use mosys.Elog.Report.Me.{
  me_cws_values, me_opstate_values, me_opmode_values, me_error_values, me_progress_values,
  me_pmevent_values, me_progress_rom_values, me_progress_bup_values, me_progress_policy_values,
  me_progress_hostcomm_values,
}

-- The look-ups of the valstr library. `val2str` has a text of its own for what is not in the table.
pub record ValStr : Type 0 where
  pub val2str_default : ℕ → List (ℕ × String) → Option String → Option String
  pub val2str : ℕ → List (ℕ × String) → String

-- The first entry of the table with the value is found; with none, the default.
pub record FindsFirst (v : ValStr) : Type 0 where
  pub in_nil : (n : ℕ) (d : Option String) → v.val2str_default n [] d ≡ d
  pub in_cons :
      (n k : ℕ) (s : String) (table : List (ℕ × String)) (d : Option String)
      → v.val2str_default n ((k, s) ∷ table) d
        ≡ (if n == k then some s else v.val2str_default n table d)

-- A value: a text, or a format and its arguments, as they are handed to `vsnprintf`.
pub data Value : Type 0 where
  text : String → Value
  fmt : String → List ℕ → Value

abbrev pub Pairs : Type 0
Pairs = List (String × Value)

-- `kv_pair_add` and `kv_pair_fmt`.
abbrev pub add : Pairs → String → Value → Pairs
add kv key value = kv ++ ((key, value) ∷ [])

-- Little-endian numbers at the start of the entry's data.
abbrev pub entry_bytes : List ℕ → ℕ → Run (List ℕ)
entry_bytes e n = access (peek (drop sizeof_entry e) n)

abbrev pub with_bytes : List ℕ → ℕ → (List ℕ → Pairs) → Run Pairs
with_bytes e n print = entry_bytes e n >>= λ b. done (print b)

abbrev pub byte0 : List ℕ → ℕ
byte0 b = get_or b 0 0

abbrev pub word16 : List ℕ → ℕ
word16 b = get_or b 0 0 + get_or b 1 0 * 2 ^ 8

abbrev pub word32 : List ℕ → ℕ
word32 b = word16 b + get_or b 2 0 * 2 ^ 16 + get_or b 3 0 * 2 ^ 24

module _ (v : ValStr) where
  unfoldable pub smbios_get_event_type_string : List ℕ → Option String
  smbios_get_event_type_string entry =
      v.val2str_default (entry_type entry) smbios_eventlog_types none

  -- The SMBIOS name of the type, or else that of the firmware's own types.
  unfoldable pub type_name : List ℕ → Option String
  unfolding smbios_get_event_type_string
  type_name entry = elim (smbios_get_event_type_string entry) [
    | none ↦ v.val2str_default (entry_type entry) elog_event_types none
    | some s ↦ some s
  ]

  -- It always returns 1.
  unfoldable pub elog_print_type : List ℕ → Pairs → Pairs
  elog_print_type entry kv = elim (type_name entry) [
    | some s ↦ add kv "type" (text s)
    | none ↦ add (add kv "type" (text "Unknown")) "value" (fmt "0x%02x" (entry_type entry ∷ []))
  ]

  -- `extra` is a `uint32_t`; the masks are written as remainders.
  unfoldable pub elog_print_post_extra : Pairs → ℕ → Pairs
  elog_print_post_extra kv extra =
      let type = extra / 2 ^ 16 % 256 in
      let kv' = add kv "device" (text (v.val2str type path_type_values)) in
      if not (extra / 2 ^ 24 == 0x01)
      then add kv "extra" (fmt "0x%08x" (extra ∷ []))
      else if type == 2
      then add kv' "path"
          (fmt "%02x:%02x.%1x" (extra / 2 ^ 8 % 256 ∷ extra / 2 ^ 3 % 32 ∷ extra % 4 ∷ []))
      else if leb 3 type && leb type 4
      then add kv' "path" (fmt "%02x:%02x" (extra / 2 ^ 8 % 256 ∷ extra % 256 ∷ []))
      else if leb 5 type && leb type 10
      then add kv' "path" (fmt "0x%04x" (extra % 2 ^ 16 ∷ []))
      else kv'

  -- It always returns 0. The cases are those of the `switch` on the type.
  unfoldable pub elog_print_data : List ℕ → Pairs → Run Pairs
  unfolding elog_print_post_extra
  elog_print_data entry kv =
      let type = entry_type entry in
      if type == 0x16
      then with_bytes entry 2 (λ b. add kv "bytes" (fmt "%u" (word16 b ∷ [])))
      else if type == 0x17
      then with_bytes entry 4 (λ b. add kv "count" (fmt "%u" (word32 b ∷ [])))
      else if type == 0xa3
      then with_bytes entry 2 (λ b.
        add (add kv "code" (fmt "0x%02x" (word16 b ∷ []))) "desc"
          (text (v.val2str (word16 b) coreboot_post_codes)))
      else if type == 0xa6
      then with_bytes entry 4 (λ b. elog_print_post_extra kv (word32 b))
      else if type == 0x81
      then with_bytes entry 4 (λ b. add kv "event" (text (v.val2str (word32 b) os_events)))
      else if type == 0x9d || type == 0x9e
      then with_bytes entry 1 (λ b. add kv "state" (fmt "S%u" (byte0 b ∷ [])))
      else if type == 0xad
      then with_bytes entry 1 (λ b. add kv "state" (fmt "Deep S%u" (byte0 b ∷ [])))
      else if type == 0x9f
      then with_bytes entry 5 (λ b.
        add (add kv "source" (text (v.val2str (byte0 b) wake_source_types))) "instance"
          (fmt "%u" (word32 (drop 1 b) ∷ [])))
      else if type == 0x91
      then with_bytes entry 1 (λ b. add kv "event" (text (v.val2str (byte0 b) ec_event_types)))
      else if type == 0xae
      then with_bytes entry 1
          (λ b. add kv "event" (text (v.val2str (byte0 b) ec_device_event_types)))
      else if type == 0xa1
      then with_bytes entry 1 (λ b.
        add (add kv "reason" (text (v.val2str (byte0 b) cros_recovery_reasons))) "code"
          (fmt "0x%02x" (byte0 b ∷ [])))
      else if type == 0xa2
      then with_bytes entry 1 (λ b. add kv "path" (text (v.val2str (byte0 b) me_path_types)))
      else if type == 0xaa
      then with_bytes entry 2 (λ b.
        add (add kv "slot" (text (v.val2str (byte0 b) mem_cache_slots))) "status"
          (text (v.val2str (get_or b 1 0) mem_cache_statuses)))
      else done kv

  -- What `smbios_eventlog_print_timestamp` makes of an entry rests on the C library and the time
  -- zone: it is a parameter here.
  module _ (stamp : List ℕ → Value) where
    -- The record that is printed, if there is a value. `start` is the number of the first record,
    -- and the records are those printed before.
    unfoldable pub elog_print_entry_me_ext :
        List ℕ → ℕ → List Pairs → String → Option String → List Pairs
    elog_print_entry_me_ext entry start records desc none = records
    elog_print_entry_me_ext entry start records desc (some value) =
        records
        ++ ((("entry", fmt "%d" ((start + length records) ∷ []))
              ∷ ("timestamp", stamp entry)
              ∷ ("type", text desc)
              ∷ ("value", text value)
              ∷ [])
            ∷ [])

    -- The table for the last look-up. For other codes the C pointer is not initialised.
    unfoldable pub me_state_values : ℕ → Option (List (ℕ × String))
    me_state_values progress_code =
        if progress_code == 0
        then some me_progress_rom_values
        else if progress_code == 1
        then some me_progress_bup_values
        else if progress_code == 3
        then some me_progress_policy_values
        else if progress_code == 6
        then some me_progress_hostcomm_values
        else none

    -- The records that are printed; the function returns their number.
    unfoldable pub elog_print_multi_me_ext : List ℕ → ℕ → Run (List Pairs)
    unfolding me_state_values
    elog_print_multi_me_ext entry start = do
      me ← entry_bytes entry 7
      let show = elog_print_entry_me_ext entry start
      let known = λ (n : ℕ) (table : List (ℕ × String)). v.val2str_default n table none
      let r₁ = show [] "ME Working State" (known (get_or me 0 0) me_cws_values)
      let r₂ = show r₁ "ME Operation State" (known (get_or me 1 0) me_opstate_values)
      let r₃ = show r₂ "ME Operation Mode" (known (get_or me 2 0) me_opmode_values)
      let r₄ = show r₃ "ME Progress Phase" (known (get_or me 4 0) me_progress_values)
      let r₅ = show r₄ "ME PM Event" (known (get_or me 5 0) me_pmevent_values)
      let r₆ = show r₅ "ME Error Code" (known (get_or me 3 0) me_error_values)
      table ← access (me_state_values (get_or me 4 0))
      done (show r₆ "ME Phase State" (known (get_or me 6 0) table))

    unfoldable pub elog_print_multi : List ℕ → ℕ → Run (List Pairs)
    elog_print_multi entry start =
        if entry_type entry == 0xa4 then elog_print_multi_me_ext entry start else done []
