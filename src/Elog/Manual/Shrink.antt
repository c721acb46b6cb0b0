-- ===== src/Elog/Manual/Shrink.antt =====
-- How lib/eventlog/elog.c copies a log without its oldest entries.
use mosys.Common.{
  ℕ, ◌+◌, ◌-◌, ◌≤◌, ◌<◌, ◌^◌, ◌≡◌, refl, sym, ap, ap₂, ◌∙◌, false, Option, none, some, List, [],
  ◌++◌, leb-le, done, access, length, drop, take, length-drop, length-take, length-append,
  replicate, length-replicate, drop-replicate, arith, append-nil, poke, poke_middle, peek,
  take-append-drop, u32, sub64, le32,
}
use mosys.Elog.Entry.{type_logclear, Clock}
use mosys.Elog.Entry.Prepare.{image, length-image}
use mosys.Elog.Iterator.{Fetched, smbios_eventlog_foreach_event}
use mosys.Elog.Iterator.Parse.{join, smbios_eventlog_foreach_event-fold}
use mosys.Elog.Manual.{blank_log, shrink_log, elog_copy_events}
use mosys.Elog.Manual.Copy.{kept, dropped, kept-dropped, fold_events-elog_copy_events}
use mosys.Elog.Manual.Layout.{
  erased, Holds, snoc, join-snoc, append_entry, front_of, Shape, shape, HoldsLog-Holds,
}

pub blank_log-eq :
    (f : Fetched) (es : List (List ℕ)) (free : ℕ)
    → Holds f es free
    → f.len < 2 ^ 32
    → blank_log f ≡ done (front_of f ++ erased (f.len - f.data_offset))
unfolding blank_log peek
blank_log-eq f es free h small =
    rw
      (
        leb-le f.data_offset (length f.bytes) (omega (arith, sh.total, h.whole)),
        ap (λ b. poke b 0 (front_of f)) (sym (take-append-drop f.data_offset zeros))
            ∙ poke_middle [] (take f.data_offset zeros) (drop f.data_offset zeros) (front_of f) 0
                refl
                (omega (
                  arith,
                  sh.total,
                  sh.front_eq,
                  length-take f.data_offset zeros,
                  length-replicate {A = ℕ} f.len 0,
                )),
      )
      (ap access (
          ap (λ b. poke (front_of f ++ b) f.data_offset filler)
            (sym (append-nil (drop f.data_offset zeros)))
          ∙ poke_middle (front_of f) (drop f.data_offset zeros) [] filler f.data_offset
              (sym sh.front_eq)
              (omega (
                arith,
                sh.total,
                length-drop f.data_offset zeros,
                length-replicate {A = ℕ} f.len 0,
                length-replicate {A = ℕ} (sub64 f.len f.data_offset) 0xff,
              )))
        ∙ ap (λ b. done (front_of f ++ b)) (append-nil filler ∙ ap erased same))
  where
    sh : Shape f es free
    sh = shape f es free h

    zeros : List ℕ
    zeros = replicate f.len 0

    filler : List ℕ
    filler = erased (sub64 f.len f.data_offset)

    same : sub64 f.len f.data_offset ≡ f.len - f.data_offset
    same = omega (arith, sh.total)

-- The entry that tells how many bytes were dropped.
abbrev pub clear_entry : ℕ → Clock → List ℕ
clear_entry skipped c = image type_logclear (le32 (u32 skipped)) c

-- The copying walk of a fetched log, from a blank one.
pub copy_walk :
    (f : Fetched) (es : List (List ℕ)) (free to_skip : ℕ)
    → Holds f es free
    → smbios_eventlog_foreach_event (some f) none elog_copy_events (record {
      new_data = front_of f ++ erased (f.len - f.data_offset);
      dest = f.data_offset;
      to_skip = to_skip;
      skipped = 0;
    })
      ≡ done (
        0,
        record {
          new_data =
              front_of f
              ++ (join (kept to_skip 0 es)
                  ++ erased (f.len - f.data_offset - length (join (kept to_skip 0 es))));
          dest = f.data_offset + length (join (kept to_skip 0 es));
          to_skip = to_skip;
          skipped = dropped to_skip 0 es;
        },
      )
copy_walk f es free to_skip h =
    smbios_eventlog_foreach_event-fold elog_copy_events f es (erased free) _
      (HoldsLog-Holds f es free h)
    ∙ fold_events-elog_copy_events es (erased free) (front_of f) (erased (f.len - f.data_offset)) _
        h.entries refl (sym sh.front_eq)
        (omega (arith, sh.total, length-replicate {A = ℕ} (f.len - f.data_offset) 0xff))
    ∙ ap
        (λ r. done (
          0,
          record {
            new_data = front_of f ++ (join (kept to_skip 0 es) ++ r);
            dest = f.data_offset + length (join (kept to_skip 0 es));
            to_skip = to_skip;
            skipped = dropped to_skip 0 es;
          },
        ))
        (drop-replicate (f.len - f.data_offset) (length (join (kept to_skip 0 es))) 0xff)
  where
    sh : Shape f es free
    sh = shape f es free h

-- The free bytes behind the entries that are kept and the clear entry.
abbrev pub free_after : ℕ → List (List ℕ) → ℕ → ℕ
free_after to_skip es free = dropped to_skip 0 es + free - 13

-- With a working clock and room for the clear entry, `shrink_log` keeps the entries behind the
-- dropped ones and puts the clear entry behind them.
pub shrink_log-eq :
    {W : Type 0} (fetch : W → Option Fetched) (w : W) (f : Fetched) (es : List (List ℕ))
    (free to_skip : ℕ) (c : Clock)
    → fetch w ≡ some f
    → Holds f es free
    → f.len < 2 ^ 32
    → 13 ≤ dropped to_skip 0 es + free
    → c.broken ≡ false
    → shrink_log fetch w f to_skip (length (join es)) c
      ≡ done (
          some (
            front_of f
                ++ (join (snoc (kept to_skip 0 es) (clear_entry (dropped to_skip 0 es) c))
                    ++ erased (free_after to_skip es free)),
            length (join (snoc (kept to_skip 0 es) (clear_entry (dropped to_skip 0 es) c))),
          ))
unfolding shrink_log
shrink_log-eq fetch w f es free to_skip c fetched h small room works =
    rw
      (
        fetched,
        blank_log-eq f es free h small,
        copy_walk f es free to_skip h,
        append_entry (front_of f) (le32 (u32 (dropped to_skip 0 es))) (kept to_skip 0 es)
            (f.data_offset + sub64 (length (join es)) (u32 (dropped to_skip 0 es)))
            (f.len - f.data_offset - length (join (kept to_skip 0 es))) type_logclear c
            (omega (arith, sh.total, sh.front_eq, kept-dropped to_skip 0 es))
            (omega (arith, sh.total, sh.front_eq, kept-dropped to_skip 0 es)) (omega arith) works,
      )
      (ap₂ (λ k m. done (some (front_of f ++ (join (snoc left clear) ++ erased k), m))) free_eq
        used_eq)
  where
    sh : Shape f es free
    sh = shape f es free h

    left : List (List ℕ)
    left = kept to_skip 0 es

    clear : List ℕ
    clear = clear_entry (dropped to_skip 0 es) c

    free_eq : f.len - f.data_offset - length (join left) - 13 ≡ free_after to_skip es free
    free_eq = omega (arith, sh.total, kept-dropped to_skip 0 es)

    used_eq :
        sub64 (length (join es)) (u32 (dropped to_skip 0 es)) + 13 ≡ length (join (snoc left clear))
    used_eq = omega (
      arith,
      sh.total,
      kept-dropped to_skip 0 es,
      ap length (join-snoc left clear),
      length-append (join left) clear,
      length-image type_logclear (le32 (u32 (dropped to_skip 0 es))) c,
    )
