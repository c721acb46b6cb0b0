-- ===== src/Elog/Listing/Tests.antt =====
-- Runs of the callback of `eventlog list`, of core/command/eventlog.c.
use mosys.Common.{
  ℕ, ◌≡◌, refl, Bool, false, Option, none, some, List, [], ◌∷◌, String, ◌==◌, if◌then◌else◌, done,
  peek,
}
use mosys.Elog.Report.{
  ValStr, Value, text, fmt, Pairs, type_name, smbios_get_event_type_string, elog_print_type,
  elog_print_data, elog_print_multi, elog_print_entry_me_ext, me_state_values,
  elog_print_multi_me_ext,
}
use mosys.Elog.Report.Types.{elog_event_types, smbios_eventlog_types}
use mosys.Elog.Report.Me.{
  me_cws_values, me_opstate_values, me_opmode_values, me_error_values, me_progress_values,
  me_pmevent_values, me_progress_rom_values,
}
use mosys.Elog.Listing.{
  Listing, elog_list_cb, eventlog_smbios_list_callback, print_single, single_record,
}
use mosys.Elog.Listing.Count.{IsListing, eventlog_smbios_list_callback-IsListing}

abbrev first_match : ℕ → List (ℕ × String) → Option String → Option String
first_match n [] d = d
first_match n ((k, s) ∷ table) d = if n == k then some s else first_match n table d

abbrev lookup : ValStr
lookup = record {
  val2str_default = first_match;
  val2str = λ n table. elim (first_match n table none) [ none ↦ "unknown" | some s ↦ s ];
}

abbrev now : List ℕ → Value
now entry = text "2020-11-26 12:15:30"

-- An entry of the management engine in debug mode, with no name for its phase.
abbrev me_entry : List ℕ
me_entry = 0xa4 ∷ 16 ∷ 0 ∷ 0 ∷ 0 ∷ 0 ∷ 0 ∷ 0 ∷ 5 ∷ 0xff ∷ 2 ∷ 3 ∷ 0 ∷ 0xff ∷ 0xff ∷ 0 ∷ []

abbrev me_record : ℕ → String → String → Pairs
me_record n desc value =
    ("entry", fmt "%d" (n ∷ []))
    ∷ ("timestamp", now me_entry)
    ∷ ("type", text desc)
    ∷ ("value", text value)
    ∷ []

abbrev me_records : List Pairs
me_records =
    me_record 4 "ME Working State" "Normal"
    ∷ me_record 5 "ME Operation Mode" "Debug"
    ∷ me_record 6 "ME Progress Phase" "ROM Phase"
    ∷ me_record 7 "ME Error Code" "Image Failure"
    ∷ []

me_printed : elog_print_multi lookup now me_entry 4 ≡ done me_records
unfolding elog_print_multi elog_print_multi_me_ext elog_print_entry_me_ext me_state_values peek
    me_cws_values me_opstate_values me_opmode_values me_error_values me_progress_values
    me_pmevent_values me_progress_rom_values
me_printed = refl

-- A boot entry, as the first to be listed.
abbrev boot : List ℕ
boot = 0x17 ∷ 13 ∷ 0x14 ∷ 6 ∷ 0x15 ∷ 0x10 ∷ 0x30 ∷ 0 ∷ 1 ∷ 0 ∷ 0 ∷ 0 ∷ 0x6c ∷ []

abbrev nothing_yet : Listing
nothing_yet = record { entry_count = 0; printed = [] }

abbrev boot_record : Pairs
boot_record =
    ("entry", fmt "%d" (0 ∷ []))
    ∷ ("timestamp", now boot)
    ∷ ("type", text "System boot")
    ∷ ("count", fmt "%u" (1 ∷ []))
    ∷ []

abbrev boot_listed : ℕ × Listing × Bool
boot_listed = (0, record { entry_count = 1; printed = boot_record ∷ [] }, false)

nothing_yet-IsListing : IsListing nothing_yet
nothing_yet-IsListing = record { counted = refl; ordered = tt }

boot_printed :
    eventlog_smbios_list_callback lookup now (λ kv. 0) (elog_list_cb lookup now) boot nothing_yet
    ≡ done boot_listed
unfolding eventlog_smbios_list_callback print_single single_record elog_print_multi elog_print_type
    elog_print_data type_name smbios_get_event_type_string smbios_eventlog_types elog_event_types
    peek
boot_printed = refl

eventlog_smbios_list_callback-IsListing_example : IsListing boot_listed.1
eventlog_smbios_list_callback-IsListing_example =
    eventlog_smbios_list_callback-IsListing lookup now (λ kv. 0) boot nothing_yet boot_listed
      nothing_yet-IsListing boot_printed
