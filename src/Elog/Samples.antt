-- ===== src/Elog/Samples.antt =====
-- A log of 128 bytes with one entry, and times, for the runs of the code of lib/eventlog.
use mosys.Common.{ℕ, refl, true, false, List, [], ◌∷◌, ◌++◌, arith, inr}
use mosys.Elog.Entry.{Clock}
use mosys.Elog.Iterator.{Fetched}
use mosys.Elog.Iterator.Parse.{IsEntry, HoldsLog}
use mosys.Elog.Manual.Layout.{Holds, erased}

abbrev pub noon : Clock
noon = record {
  broken = false;
  tm_sec = 30;
  tm_min = 15;
  tm_hour = 12;
  tm_mday = 26;
  tm_mon = 10;
  tm_year = 120;
}

abbrev pub no_clock : Clock
no_clock = record noon { broken = true }

-- The header, and a boot entry with the count 1.
abbrev pub log_header : List ℕ
log_header = 0x45 ∷ 0x4c ∷ 0x4f ∷ 0x47 ∷ 1 ∷ 8 ∷ 0 ∷ 0 ∷ []

abbrev pub boot : List ℕ
boot = 0x17 ∷ 13 ∷ 0x14 ∷ 6 ∷ 0x15 ∷ 0x10 ∷ 0x30 ∷ 0 ∷ 1 ∷ 0 ∷ 0 ∷ 0 ∷ 0x6c ∷ []

abbrev pub boot_log : List ℕ
boot_log = log_header ++ (boot ++ erased 107)

abbrev pub one_entry : Fetched
one_entry = record { bytes = boot_log; len = 128; header_offset = 0; data_offset = 8 }

pub boot-IsEntry : IsEntry boot
boot-IsEntry = record { sized = refl; has_tag = omega arith; live = λ e. omega (arith, e) }

pub one_entry-Holds : Holds one_entry (boot ∷ []) 107
one_entry-Holds = record {
  whole = refl;
  entries = (boot-IsEntry, tt);
  some_free = omega arith;
  stored = refl;
}

pub one_entry-HoldsLog : HoldsLog one_entry (boot ∷ []) (erased 107)
one_entry-HoldsLog = record {
  whole = refl;
  entries = (boot-IsEntry, tt);
  ends = (omega arith, inr refl);
  stored = refl;
}
