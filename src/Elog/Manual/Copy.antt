-- ===== src/Elog/Manual/Copy.antt =====
-- The two callbacks of lib/eventlog/elog.c over a well-formed log: the size of its entries, and the
-- copy that drops the oldest of them.
use mosys.Common.{
  ℕ, ◌+◌, ◌≤◌, ◌<◌, ◌^◌, ◌≡◌, refl, sym, ap, ◌∙◌, false, some, List, [], ◌∷◌, ◌++◌, ltb,
  if◌then◌else◌, done, length, drop, take, length-drop, length-take, length-append, arith,
  append_assoc, poke, poke_middle, peek, take-append_length, take-append-drop, drop-drop,
  Bool-cases, inl, inr, ap₂, ltb→lt, ltb→ge,
}
use mosys.Elog.Iterator.Parse.{IsEntry, AllEntries, join, fold_events, entry_length-append}
use mosys.Elog.Manual.{CopyParams, elog_copy_events, elog_events_size}

events_size_step :
    (e rest : List ℕ) (n : ℕ)
    → IsEntry e
    → n + length e < 2 ^ 64
    → elog_events_size (e ++ rest) n ≡ done (0, n + length e, false)
unfolding elog_events_size
events_size_step e rest n h small = ground (arith, entry_length-append e rest h)

-- `elog_events_size` adds up the sizes of the entries.
pub fold_events-elog_events_size :
    (es : List (List ℕ)) (tail : List ℕ) (n : ℕ)
    → AllEntries es
    → n + length (join es) < 2 ^ 64
    → fold_events elog_events_size es tail n 0 ≡ done (0, n + length (join es))
unfolding fold_events
fold_events-elog_events_size [] tail n all small = ap (λ k. done (0, k)) (omega arith)
fold_events-elog_events_size (e ∷ es) tail n all small =
    rw (events_size_step e (join es ++ tail) n all.0 (omega (arith, length-append e (join es)))) (
      fold_events-elog_events_size es tail (n + length e) all.1
        (omega (arith, length-append e (join es)))
      ∙ ap (λ k. done (0, k)) (omega (arith, length-append e (join es))))

-- The entries that are left when the oldest are dropped until `to_skip` bytes are gone, and the
-- number of bytes that go.
unfoldable pub kept : ℕ → ℕ → List (List ℕ) → List (List ℕ)
kept to_skip skipped [] = []
kept to_skip skipped (e ∷ es) =
    if ltb skipped to_skip then kept to_skip (skipped + length e) es else e ∷ es

unfoldable pub dropped : ℕ → ℕ → List (List ℕ) → ℕ
dropped to_skip skipped [] = skipped
dropped to_skip skipped (e ∷ es) =
    if ltb skipped to_skip then dropped to_skip (skipped + length e) es else skipped

-- `es` written over the first bytes of `room`.
abbrev pub overlay : List (List ℕ) → List ℕ → List ℕ
overlay es room = join es ++ drop (length (join es)) room

copy_step :
    (e rest pre room : List ℕ) (p : CopyParams)
    → IsEntry e
    → p.new_data ≡ pre ++ room
    → p.dest ≡ length pre
    → length e ≤ length room
    → p.to_skip ≤ p.skipped
    → elog_copy_events (e ++ rest) p
      ≡ done (
        0,
        record p { new_data = (pre ++ e) ++ drop (length e) room; dest = p.dest + length e },
        false,
      )
unfolding elog_copy_events peek
copy_step e rest pre room p h at to fits past = ground (
  arith,
  entry_length-append e rest h,
  take-append_length e rest,
  length-append e rest,
  written,
  h.has_tag,
)
  where
    written : poke p.new_data p.dest e ≡ some ((pre ++ e) ++ drop (length e) room)
    written =
        ap (λ b. poke b p.dest e) (at ∙ ap (λ r. pre ++ r) (sym (take-append-drop (length e) room)))
        ∙ poke_middle pre (take (length e) room) (drop (length e) room) e p.dest to
            (omega (arith, length-take (length e) room))
        ∙ ap some (sym (append_assoc pre e (drop (length e) room)))

overlay-cons :
    (pre e : List ℕ) (es : List (List ℕ)) (room : List ℕ)
    → (pre ++ e) ++ overlay es (drop (length e) room) ≡ pre ++ overlay (e ∷ es) room
overlay-cons pre e es room =
    append_assoc pre e (overlay es (drop (length e) room))
    ∙ ap (λ r. pre ++ (e ++ (join es ++ r))) (drop-drop (length e) (length (join es)) room)
    ∙ ap (λ k. pre ++ (e ++ (join es ++ drop k room))) (sym (length-append e (join es)))
    ∙ ap (λ r. pre ++ r) (sym (append_assoc e (join es) (drop (length (e ++ join es)) room)))

fold_copy_phase :
    (es : List (List ℕ)) (tail pre room : List ℕ) (p : CopyParams)
    → AllEntries es
    → p.new_data ≡ pre ++ room
    → p.dest ≡ length pre
    → length (join es) ≤ length room
    → p.to_skip ≤ p.skipped
    → fold_events elog_copy_events es tail p 0
      ≡ done (0, record p { new_data = pre ++ overlay es room; dest = p.dest + length (join es) })
unfolding fold_events
fold_copy_phase [] tail pre room p all at to fits past =
    ap₂ (λ b d. done (0, record p { new_data = b; dest = d })) at (omega arith)
fold_copy_phase (e ∷ es) tail pre room p all at to fits past =
    let both = length-append e (join es) in
    rw (copy_step e (join es ++ tail) pre room p all.0 at to (omega (arith, both)) past) (
      fold_copy_phase es tail (pre ++ e) (drop (length e) room)
        (record p { new_data = (pre ++ e) ++ drop (length e) room; dest = p.dest + length e }) all.1
        refl (omega (arith, length-append pre e)) (omega (arith, both, length-drop (length e) room))
        past
      ∙ ap₂ (λ b d. done (0, record p { new_data = b; dest = d })) (overlay-cons pre e es room)
          (omega (arith, both)))

skip_step :
    (e rest : List ℕ) (p : CopyParams)
    → IsEntry e
    → p.skipped < p.to_skip
    → elog_copy_events (e ++ rest) p ≡ done (0, record p { skipped = p.skipped + length e }, false)
unfolding elog_copy_events
skip_step e rest p h more = ground (arith, entry_length-append e rest h, h.has_tag)

-- `elog_copy_events` over a well-formed log drops the oldest entries until `to_skip` bytes are gone,
-- counts them, and copies the others in order to where `dest` points; what lies behind the copy
-- stays.
pub fold_events-elog_copy_events :
    (es : List (List ℕ)) (tail pre room : List ℕ) (p : CopyParams)
    → AllEntries es
    → p.new_data ≡ pre ++ room
    → p.dest ≡ length pre
    → length (join es) ≤ length room
    → fold_events elog_copy_events es tail p 0
      ≡ done (
        0,
        record p {
          new_data = pre ++ overlay (kept p.to_skip p.skipped es) room;
          dest = p.dest + length (join (kept p.to_skip p.skipped es));
          skipped = dropped p.to_skip p.skipped es;
        },
      )
unfolding fold_events kept dropped
fold_events-elog_copy_events [] tail pre room p all at to fits =
    ap₂ (λ b d. done (0, record p { new_data = b; dest = d })) at (omega arith)
fold_events-elog_copy_events (e ∷ es) tail pre room p all at to fits =
    elim (Bool-cases (ltb p.skipped p.to_skip)) [
      | inl more ↦
          rw (skip_step e (join es ++ tail) p all.0 (ltb→lt _ _ more), more)
            (fold_events-elog_copy_events es tail pre room
              (record p { skipped = p.skipped + length e }) all.1 at to
              (omega (arith, length-append e (join es))))
      | inr past ↦
          rw past (fold_copy_phase (e ∷ es) tail pre room p all at to fits (ltb→ge _ _ past))
    ]

pub AllEntries-kept :
    (to_skip skipped : ℕ) (es : List (List ℕ))
    → AllEntries es
    → AllEntries (kept to_skip skipped es)
unfolding kept
AllEntries-kept to_skip skipped [] all = tt
AllEntries-kept to_skip skipped (e ∷ es) all = elim (Bool-cases (ltb skipped to_skip)) [
  | inl more ↦ rw more (AllEntries-kept to_skip (skipped + length e) es all.1)
  | inr past ↦ rw past all
]

-- Every byte of the entries is dropped or kept.
pub kept-dropped :
    (to_skip skipped : ℕ) (es : List (List ℕ))
    → length (join (kept to_skip skipped es)) + dropped to_skip skipped es
      ≡ length (join es) + skipped
unfolding kept dropped
kept-dropped to_skip skipped [] = refl
kept-dropped to_skip skipped (e ∷ es) = elim (Bool-cases (ltb skipped to_skip)) [
  | inl more ↦
      rw more
        (omega (arith, kept-dropped to_skip (skipped + length e) es, length-append e (join es)))
  | inr past ↦ rw past refl
]

-- If the entries have that many bytes, at least `to_skip` of them go.
pub dropped_enough :
    (to_skip skipped : ℕ) (es : List (List ℕ))
    → to_skip ≤ length (join es) + skipped
    → to_skip ≤ dropped to_skip skipped es
unfolding dropped
dropped_enough to_skip skipped [] h = omega arith
dropped_enough to_skip skipped (e ∷ es) h = elim (Bool-cases (ltb skipped to_skip)) [
  | inl more ↦
      rw more
        (dropped_enough to_skip (skipped + length e) es (omega (arith, length-append e (join es))))
  | inr past ↦ rw past (ltb→ge _ _ past)
]
