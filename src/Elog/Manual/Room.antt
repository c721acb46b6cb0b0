-- ===== src/Elog/Manual/Room.antt =====
-- How lib/eventlog/elog.c makes room in a log that is nearly full.
use mosys.Common.{
  ℕ, ◌+◌, ◌*◌, ◌/◌, ◌≤◌, ◌<◌, ◌^◌, ◌≡◌, refl, ap, Bool, false, Option, some, List, ◌++◌, ltb,
  if◌then◌else◌, Run, done, length, length-append, arith, u32, u64, le32, Bool-cases, inl, inr,
  ltb→lt, ltb→ge,
}
use mosys.Elog.Entry.{type_logclear, Clock}
use mosys.Elog.Entry.Prepare.{length-image}
use mosys.Elog.Iterator.{Fetched}
use mosys.Elog.Iterator.Parse.{AllEntries, join}
use mosys.Elog.Manual.{make_room}
use mosys.Elog.Manual.Copy.{kept, dropped, kept-dropped, dropped_enough, AllEntries-kept}
use mosys.Elog.Manual.Layout.{
  erased, Holds, snoc, join-snoc, front_of, AllEntries-snoc, image-IsEntry, Shape, shape,
}
use mosys.Elog.Manual.Shrink.{clear_entry, free_after, shrink_log-eq}

pub AllEntries-clear :
    (to_skip : ℕ) (es : List (List ℕ)) (c : Clock)
    → AllEntries es
    → AllEntries (snoc (kept to_skip 0 es) (clear_entry (dropped to_skip 0 es) c))
AllEntries-clear to_skip es c all =
    AllEntries-snoc (kept to_skip 0 es) _ (AllEntries-kept to_skip 0 es all) (
      image-IsEntry type_logclear (le32 (u32 (dropped to_skip 0 es))) c (omega arith) (omega arith))

-- Whether the log would pass three quarters of its size.
abbrev pub is_full : ℕ → List (List ℕ) → ℕ → Bool
is_full len es event_size = ltb (u64 (len * 3) / 4) (length (join es) + event_size)

-- The entries that a new event of that size is put behind.
abbrev pub entries_after : ℕ → List (List ℕ) → ℕ → Clock → List (List ℕ)
entries_after len es event_size c =
    if is_full len es event_size
    then snoc (kept (len / 4) 0 es) (clear_entry (dropped (len / 4) 0 es) c)
    else es

-- What `make_room` delivers: a log of the entries `es'`, with room for the event.
pub record HasRoom (f : Fetched) (es es' : List (List ℕ)) (free event_size : ℕ)
    (result : Run (Option (List ℕ × ℕ))) : Type 0 where
  pub free' : ℕ
  pub result_eq : result ≡ done (some (front_of f ++ (join es' ++ erased free'), length (join es')))
  pub all : AllEntries es'
  pub fits : event_size < free'
  pub same : length (join es') + free' ≡ length (join es) + free

pub make_room-HasRoom :
    {W : Type 0} (fetch : W → Option Fetched) (w : W) (f : Fetched) (es : List (List ℕ))
    (free event_size : ℕ) (c : Clock)
    → fetch w ≡ some f
    → Holds f es free
    → f.len < 2 ^ 32
    → f.data_offset ≤ 8
    → 13 < free
    → 9 ≤ event_size
    → event_size ≤ f.len / 4
    → c.broken ≡ false
    → HasRoom f es
        (entries_after f.len es event_size c)
        free
        event_size
        (make_room fetch w f (length (join es)) event_size c)
unfolding make_room
make_room-HasRoom fetch w f es free event_size c fetched h small near room large fits works =
    elim (Bool-cases (is_full f.len es event_size)) [
      | inl full ↦ rw full (record {
        free' = free_after (f.len / 4) es free;
        result_eq =
            shrink_log-eq fetch w f es free (f.len / 4) c fetched h small (omega arith) works;
        all = AllEntries-clear (f.len / 4) es c h.entries;
        fits = omega (
          arith,
          sh.total,
          ltb→lt _ _ full,
          dropped_enough (f.len / 4) 0 es (omega (arith, ltb→lt _ _ full)),
        );
        same = omega (
          arith,
          ap length (join-snoc left clear),
          length-append (join left) clear,
          length-image type_logclear (le32 (u32 (dropped (f.len / 4) 0 es))) c,
          kept-dropped (f.len / 4) 0 es,
        );
      })
      | inr spare ↦ rw spare (record {
        free' = free;
        result_eq = ap (λ b. done (some (b, length (join es)))) sh.bytes_eq;
        all = h.entries;
        fits = omega (arith, sh.total, ltb→ge _ _ spare);
        same = refl;
      })
    ]
  where
    sh : Shape f es free
    sh = shape f es free h

    left : List (List ℕ)
    left = kept (f.len / 4) 0 es

    clear : List ℕ
    clear = clear_entry (dropped (f.len / 4) 0 es) c
