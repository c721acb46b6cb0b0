-- ===== src/Elog/Manual/Add.antt =====
-- What `elog_add_event_manually` of lib/eventlog/elog.c makes of a well-formed log.
use mosys.Common.{
  ℕ, ◌+◌, ◌-◌, ◌/◌, ◌≤◌, ◌<◌, ◌^◌, ◌≡◌, ◌≢◌, refl, sym, ap, ◌∙◌, false, Option, some, List, ◌++◌,
  ltb-ge, done, length, take, length-append, arith, take-append_length, u8,
}
use mosys.Common.{Rc}
use mosys.Elog.Entry.{type_endlog, Clock, sizeof_entry}
use mosys.Elog.Entry.Prepare.{image, length-image}
use mosys.Elog.Iterator.{Fetched}
use mosys.Elog.Iterator.Parse.{join, smbios_eventlog_foreach_event-fold}
use mosys.Elog.Manual.{make_room, new_log, store, elog_add_event_manually, elog_events_size}
use mosys.Elog.Manual.Copy.{fold_events-elog_events_size}
use mosys.Elog.Manual.Layout.{
  erased, Holds, snoc, join-snoc, append_entry, Holds-buffer, front_of, AllEntries-snoc,
  image-IsEntry, Shape, shape, HoldsLog-Holds,
}
use mosys.Elog.Manual.Room.{entries_after, HasRoom, make_room-HasRoom}

abbrev pub event_size_of : List ℕ → ℕ
event_size_of event_data = 9 + length event_data

new_log-eq :
    {W : Type 0} (fetch : W → Option Fetched) (w : W) (f : Fetched) (es es' : List (List ℕ))
    (free type : ℕ) (event_data : List ℕ) (c₁ c : Clock)
    → fetch w ≡ some f
    → Holds f es free
    → f.len < 2 ^ 32
    → event_size_of event_data ≤ 255
    → c.broken ≡ false
    → (r : HasRoom f es es' free
        (event_size_of event_data)
        (make_room fetch w f (length (join es)) (event_size_of event_data) c₁))
    → new_log fetch w f type event_data c₁ c
      ≡ done (
          some (
            front_of f
            ++ (join (snoc es' (image type event_data c))
                ++ erased (r.free' - event_size_of event_data))))
unfolding new_log
new_log-eq fetch w f es es' free type event_data c₁ c fetched h small fits works r =
    rw
      (
        fetched,
        smbios_eventlog_foreach_event-fold elog_events_size f es (erased free) 0
              (HoldsLog-Holds f es free h)
            ∙ fold_events-elog_events_size es (erased free) 0 h.entries (omega (arith, sh.total))
            ∙ ap (λ k. done (0, k)) sum_eq,
        ap (λ k. make_room fetch w f (length (join es)) k c₁) size_eq ∙ r.result_eq,
        append_entry (front_of f) event_data es' (f.data_offset + length (join es')) r.free' type c
            (omega (arith, sh.front_eq)) (omega (arith, r.fits)) (omega arith) works,
      )
      refl
  where
    sh : Shape f es free
    sh = shape f es free h

    sum_eq : 0 + length (join es) ≡ length (join es)
    sum_eq = omega arith

    size_eq : sizeof_entry + length event_data + 1 ≡ event_size_of event_data
    size_eq = omega arith

-- `elog_add_event_manually` on a well-formed log, with a working clock, an event that is no end
-- mark and no larger than a byte or a quarter of the log allows, the 8-byte header in front and at
-- least 14 erased bytes behind: it makes one `write`, of the whole log, and returns what that
-- gives. The log written has the header as it was, the entries as they were, or, if they would pass
-- three quarters of the log, without the oldest of at least a quarter of the log and with an entry
-- that tells how many bytes went; behind them the new event; and erased bytes at the end.
pub elog_add_event_manually-Holds :
    {W : Type 0} (fetch : W → Option Fetched) (write : W → List ℕ → ℕ → Rc × W) (w : W)
    (f : Fetched) (es : List (List ℕ)) (free type : ℕ) (event_data : List ℕ) (c₁ c : Clock)
    → fetch w ≡ some f
    → Holds f es free
    → f.len < 2 ^ 32
    → f.data_offset ≤ 8
    → 13 < free
    → event_size_of event_data ≤ 255
    → event_size_of event_data ≤ f.len / 4
    → u8 type ≢ type_endlog
    → c₁.broken ≡ false
    → c.broken ≡ false
    → (buf : List ℕ) × (free' : ℕ) × (elog_add_event_manually
          (record { fetch = some fetch; write = some write })
          w
          type
          event_data
          c₁
          c
        ≡ done (store write w buf f.len))
      × Holds
          (record f { bytes = buf })
          (snoc (entries_after f.len es (event_size_of event_data) c₁) (image type event_data c))
          free'
      × (take f.data_offset buf ≡ take f.data_offset f.bytes)
unfolding elog_add_event_manually
elog_add_event_manually-Holds fetch write w f es free type event_data c₁ c fetched h small near room
      byte quarter live works₁ works =
    (
      buf,
      r.free' - event_size_of event_data,
      rw
          (
            fetched,
            ltb-ge 0xff (sizeof_entry + length event_data + 1) (omega arith),
            ltb-ge (f.len / 4) (sizeof_entry + length event_data + 1) (omega arith),
            new_log-eq fetch w f es es' free type event_data c₁ c fetched h small byte works r,
          )
          refl,
      Holds-buffer f es (snoc es' img) free (r.free' - event_size_of event_data) h
          (AllEntries-snoc es' img r.all (image-IsEntry type event_data c live (omega arith)))
          (omega (arith, r.fits))
          (omega (
            arith,
            r.fits,
            r.same,
            ap length (join-snoc es' img),
            length-append (join es') img,
            length-image type event_data c,
          )),
      ap (λ k. take k buf) (sym sh.front_eq) ∙ take-append_length (front_of f) _,
    )
  where
    sh : Shape f es free
    sh = shape f es free h

    es' : List (List ℕ)
    es' = entries_after f.len es (event_size_of event_data) c₁

    img : List ℕ
    img = image type event_data c

    r :
        HasRoom f es es' free
          (event_size_of event_data)
          (make_room fetch w f (length (join es)) (event_size_of event_data) c₁)
    r =
        make_room-HasRoom fetch w f es free (event_size_of event_data) c₁ fetched h small near room
          (omega arith) quarter works₁

    buf : List ℕ
    buf = front_of f ++ (join (snoc es' img) ++ erased (r.free' - event_size_of event_data))
