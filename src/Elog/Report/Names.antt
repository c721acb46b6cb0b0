-- ===== src/Elog/Report/Names.antt =====
-- Which names lib/eventlog/elog.c prints.
use mosys.Common.{
  ℕ, ◌+◌, ◌/◌, ◌%◌, ◌≤◌, ◌<◌, ◌^◌, ◌≡◌, ◌≢◌, refl, sym, ◌∙◌, Bool, true, false, not, ◌||◌, Option,
  none, some, List, [], ◌∷◌, String, ltb, ◌==◌, if◌then◌else◌, all_below, all_below_sound, arith,
}
use package.text.Mathlib.Text.{◌==◌ as str_eq}
use package.text.Mathlib.TextPositions.{eq_refl}
use mosys.Elog.Entry.{entry_type}
use mosys.Elog.Report.{
  ValStr, FindsFirst, type_name, smbios_get_event_type_string, Pairs, add, text, fmt,
  elog_print_post_extra,
}
use mosys.Elog.Report.Types.{elog_event_types, smbios_eventlog_types, path_type_values}
use mosys.Elog.Report.Events.{me_path_types}
use mosys.Elog.Report.Recovery.{cros_recovery_reasons}

-- The look-up that `FindsFirst` describes.
find_first : ℕ → List (ℕ × String) → Option String → Option String
find_first n [] d = d
find_first n ((k, s) ∷ table) d = if n == k then some s else find_first n table d

finds :
    (v : ValStr)
    → FindsFirst v
    → (n : ℕ) (table : List (ℕ × String)) (d : Option String)
    → v.val2str_default n table d ≡ find_first n table d
unfolding find_first
finds v law n [] d = law.in_nil n d
finds v law n ((k, s) ∷ table) d = rw (law.in_cons n k s table d, finds v law n table d) refl

is_none : Option String → Bool
is_none none = true
is_none (some s) = false

is_some_text : String → Option String → Bool
is_some_text t none = false
is_some_text t (some s) = str_eq t s

smbios_silent :
    all_below 256
      (λ n. ltb n 0x18 || n == 0xff || is_none (find_first n smbios_eventlog_types none))
    ≡ true
unfolding all_below find_first smbios_eventlog_types is_none
smbios_silent = refl

is_none-eq : (o : Option String) → is_none o ≡ true → o ≡ none
unfolding is_none
is_none-eq none h = refl
is_none-eq (some s) h = cc

-- The SMBIOS table names no type between 0x18 and 0xfe, so there the name is that of the firmware's
-- own types, if they have one.
pub type_name-firmware :
    (v : ValStr) (entry : List ℕ)
    → FindsFirst v
    → 0x18 ≤ entry_type entry
    → entry_type entry < 0xff
    → type_name v entry ≡ v.val2str_default (entry_type entry) elog_event_types none
unfolding type_name smbios_get_event_type_string
type_name-firmware v entry law low high =
    rw (finds v law (entry_type entry) smbios_eventlog_types none ∙ silent, type_name) refl
  where
    seen :
        (ltb (entry_type entry) 0x18
          || entry_type entry == 0xff
          || is_none (find_first (entry_type entry) smbios_eventlog_types none))
        ≡ true
    seen = all_below_sound 256 _ (entry_type entry) smbios_silent (omega arith)

    silent : find_first (entry_type entry) smbios_eventlog_types none ≡ none
    silent = is_none-eq _ (ground (arith, seen))

-- A table check that a text is never found.
never_found : List (ℕ × String) → String → Bool
never_found table t = all_below 256 (λ n. not (is_some_text t (find_first n table none)))

never_found_sound :
    (v : ValStr) (table : List (ℕ × String)) (t : String) (n : ℕ)
    → FindsFirst v
    → never_found table t ≡ true
    → n < 256
    → v.val2str_default n table none ≢ some t
unfolding never_found is_some_text
never_found_sound v table t n law h small e = cc (all_below_sound 256 _ n h small, found)
  where
    found : not (is_some_text t (find_first n table none)) ≡ false
    found = rw (sym (finds v law n table none) ∙ e, is_some_text, eq_refl t) refl

-- Some texts of the tables stand behind another entry with the same value, and are found for no
-- byte: the wake from S3 of the management engine's path, and four reasons for a recovery.
pub hidden_names :
    (v : ValStr) (n : ℕ)
    → FindsFirst v
    → n < 256
    → (v.val2str_default n me_path_types none ≢ some "S3 Wake")
      × (v.val2str_default n cros_recovery_reasons none ≢ some "Unknown Error in RW Firmware")
      × (v.val2str_default n cros_recovery_reasons none ≢ some "DM-Verity Error")
      × (v.val2str_default n cros_recovery_reasons none ≢ some "Unknown Error in Kernel")
      × (v.val2str_default n cros_recovery_reasons none ≢ some "Test from User Mode")
unfolding never_found all_below find_first is_some_text me_path_types cros_recovery_reasons
hidden_names v n law small = (
  never_found_sound v me_path_types "S3 Wake" n law refl small,
  never_found_sound v cros_recovery_reasons "Unknown Error in RW Firmware" n law refl small,
  never_found_sound v cros_recovery_reasons "DM-Verity Error" n law refl small,
  never_found_sound v cros_recovery_reasons "Unknown Error in Kernel" n law refl small,
  never_found_sound v cros_recovery_reasons "Test from User Mode" n law refl small,
)

post_extra_pci :
    (v : ValStr) (kv : Pairs) (extra : ℕ)
    → extra / 2 ^ 24 ≡ 1
    → extra / 2 ^ 16 % 256 ≡ 2
    → elog_print_post_extra v kv extra
      ≡ add
          (add kv "device" (text (v.val2str 2 path_type_values)))
          "path"
          (fmt "%02x:%02x.%1x" (extra / 2 ^ 8 % 256 ∷ extra / 2 ^ 3 % 32 ∷ extra % 4 ∷ []))
unfolding elog_print_post_extra
post_extra_pci v kv extra path pci = rw (path, pci) refl

-- Of a PCI device's function number only two bits are printed: a path to a function of 4 or more is
-- printed as that to the function 4 below.
pub elog_print_post_extra_function :
    (v : ValStr) (kv : Pairs) (extra : ℕ)
    → extra / 2 ^ 24 ≡ 1
    → extra / 2 ^ 16 % 256 ≡ 2
    → extra / 4 % 2 ≡ 0
    → elog_print_post_extra v kv (extra + 4) ≡ elog_print_post_extra v kv extra
elog_print_post_extra_function v kv extra path pci low =
    post_extra_pci v kv (extra + 4) (omega arith) (omega arith)
    ∙ same bus device function
    ∙ sym (post_extra_pci v kv extra path pci)
  where
    line : ℕ → ℕ → ℕ → Pairs
    line b d f =
        add (add kv "device" (text (v.val2str 2 path_type_values))) "path"
          (fmt "%02x:%02x.%1x" (b ∷ d ∷ f ∷ []))

    same : {b b' d d' f f' : ℕ} → b ≡ b' → d ≡ d' → f ≡ f' → line b d f ≡ line b' d' f'
    same p q r = λ i. line (p i) (q i) (r i)

    bus : (extra + 4) / 2 ^ 8 % 256 ≡ extra / 2 ^ 8 % 256
    bus = omega arith

    device : (extra + 4) / 2 ^ 3 % 32 ≡ extra / 2 ^ 3 % 32
    device = omega arith

    function : (extra + 4) % 4 ≡ extra % 4
    function = omega arith
