-- ===== src/Elog/Manual/Clear.antt =====
-- What `elog_clear_manually` of lib/eventlog/elog.c makes of a well-formed log.
use mosys.Common.{
  ℕ, ◌+◌, ◌-◌, ◌<◌, ◌^◌, ◌≡◌, refl, sym, ap, ◌∙◌, false, Option, none, some, List, [], ◌∷◌, ◌++◌,
  ltb-lt, done, length, take, length-append, arith, take-append_length, u32, sub64, le32,
}
use mosys.Common.{Rc}
use mosys.Elog.Entry.{type_logclear, Clock}
use mosys.Elog.Entry.Prepare.{length-image}
use mosys.Elog.Iterator.{Fetched, smbios_eventlog_foreach_event}
use mosys.Elog.Iterator.Parse.{join}
use mosys.Elog.Manual.{store, elog_copy_events}
use mosys.Elog.Manual.Copy.{kept, dropped, kept-dropped}
use mosys.Elog.Manual.Layout.{
  erased, Holds, append_entry, Holds-buffer, front_of, image-IsEntry, Shape, shape,
}
use mosys.Elog.Manual.Shrink.{clear_entry, copy_walk, blank_log-eq}
use mosys.Elog.Manual.{elog_clear_manually, cleared_log}

kept_none :
    (to_skip skipped : ℕ) (es : List (List ℕ))
    → length (join es) + skipped < to_skip
    → kept to_skip skipped es ≡ []
unfolding kept
kept_none to_skip skipped [] h = refl
kept_none to_skip skipped (e ∷ es) h =
    rw (ltb-lt skipped to_skip (omega arith))
      (kept_none to_skip (skipped + length e) es (omega (arith, length-append e (join es))))

cleared_log-eq :
    {W : Type 0} (fetch : W → Option Fetched) (w : W) (f : Fetched) (es : List (List ℕ)) (free : ℕ)
    (c : Clock)
    → fetch w ≡ some f
    → Holds f es free
    → f.len < 2 ^ 32
    → 13 < f.len - f.data_offset
    → c.broken ≡ false
    → cleared_log fetch w f c
      ≡ done (
          some (
            front_of f
            ++ (join (clear_entry (length (join es)) c ∷ [])
                ++ erased (f.len - f.data_offset - 13))))
unfolding cleared_log
cleared_log-eq fetch w f es free c fetched h small room works =
    rw
      (
        fetched,
        blank_log-eq f es free h small,
        ap
              (λ t. smbios_eventlog_foreach_event (some f) none elog_copy_events (record {
                new_data = front_of f ++ erased (f.len - f.data_offset);
                dest = f.data_offset;
                to_skip = t;
                skipped = 0;
              }))
              size_eq
            ∙ copy_walk f es free (f.len - f.data_offset) h,
        nothing_kept,
        all_dropped,
        append_entry (front_of f) (le32 (u32 (length (join es)))) [] (f.data_offset + 0)
            (f.len - f.data_offset - 0) type_logclear c (omega (arith, sh.front_eq)) (omega arith)
            (omega arith) works,
      )
      (ap
        (λ k.
          done (some (front_of f ++ (join (clear_entry (length (join es)) c ∷ []) ++ erased k))))
        free_eq)
  where
    free_eq : f.len - f.data_offset - 0 - 13 ≡ f.len - f.data_offset - 13
    free_eq = omega arith

    sh : Shape f es free
    sh = shape f es free h

    size_eq : sub64 f.len f.data_offset ≡ f.len - f.data_offset
    size_eq = omega (arith, sh.total)

    nothing_kept : kept (f.len - f.data_offset) 0 es ≡ []
    nothing_kept = kept_none (f.len - f.data_offset) 0 es (omega (arith, sh.total, h.some_free))

    all_dropped : dropped (f.len - f.data_offset) 0 es ≡ length (join es)
    all_dropped =
        omega
          (arith, kept-dropped (f.len - f.data_offset) 0 es, ap (λ k. length (join k)) nothing_kept)

-- `elog_clear_manually` on a well-formed log of less than 2 ^ 32 bytes, with a working clock and more
-- than 13 bytes behind the header, makes one `write`, of the whole log, and returns what that gives. The log written has the
-- header as it was, and a single entry, that tells how many bytes the cleared entries took.
pub elog_clear_manually-Holds :
    {W : Type 0} (fetch : W → Option Fetched) (write : W → List ℕ → ℕ → Rc × W) (w : W)
    (f : Fetched) (es : List (List ℕ)) (free : ℕ) (c : Clock)
    → fetch w ≡ some f
    → Holds f es free
    → f.len < 2 ^ 32
    → 13 < f.len - f.data_offset
    → c.broken ≡ false
    → (buf : List ℕ) × (elog_clear_manually (record { fetch = some fetch; write = some write }) w c
        ≡ done (store write w buf f.len))
      × Holds
          (record f { bytes = buf })
          (clear_entry (length (join es)) c ∷ [])
          (f.len - f.data_offset - 13)
      × (take f.data_offset buf ≡ take f.data_offset f.bytes)
unfolding elog_clear_manually
elog_clear_manually-Holds fetch write w f es free c fetched h small room works = (
  buf,
  rw (fetched, cleared_log-eq fetch w f es free c fetched h small room works) refl,
  Holds-buffer f es (clear ∷ []) free (f.len - f.data_offset - 13) h
      (
        image-IsEntry type_logclear (le32 (u32 (length (join es)))) c (omega arith) (omega arith),
        tt,
      )
      (omega (arith))
      (omega (
        arith,
        sh.total,
        length-append clear [],
        length-image type_logclear (le32 (u32 (length (join es)))) c,
      )),
  ap (λ k. take k buf) (sym sh.front_eq) ∙ take-append_length (front_of f) _,
)
  where
    sh : Shape f es free
    sh = shape f es free h

    clear : List ℕ
    clear = clear_entry (length (join es)) c

    buf : List ℕ
    buf = front_of f ++ (join (clear ∷ []) ++ erased (f.len - f.data_offset - 13))
