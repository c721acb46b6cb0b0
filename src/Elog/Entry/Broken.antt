-- ===== src/Elog/Entry/Broken.antt =====
-- elog_prepare_entry of lib/eventlog/elog.c with a clock that fails.
use mosys.Common.{
  ℕ, ◌+◌, ◌<◌, ◌≡◌, refl, sym, ap, ◌∙◌, true, some, List, [], ◌∷◌, ◌++◌, if◌then◌else◌, done, poke,
  poke_middle, get_or, length, take, drop, ap₂, drop-drop, replicate, cons-drop, cut_four,
  length-take, length-drop, arith,
}
use mosys.Common.{ok, failed}
use mosys.Elog.Entry.{Clock, timestamp, elog_fill_timestamp, elog_prepare_entry}
use mosys.Elog.Entry.Prepare.{tag, length-timestamp}

timestamp-broken : (c : Clock) → c.broken ≡ true → timestamp c ≡ replicate 6 0
unfolding timestamp
timestamp-broken c broken = ground arith

fill_timestamp_broken :
    (entry stamped : List ℕ) (c : Clock)
    → c.broken ≡ true
    → poke entry 2 (timestamp c) ≡ some stamped
    → elog_fill_timestamp entry c ≡ done (failed, stamped)
unfolding elog_fill_timestamp
fill_timestamp_broken entry stamped c broken p =
    rw p (ap (λ b. done (if b then failed else ok, stamped)) broken)

-- A failing clock is reported. By then the type and length bytes and a timestamp of zeros are
-- written, and nothing behind them.
pub elog_prepare_entry-broken :
    (buf bytes : List ℕ) (type : ℕ) (c : Clock)
    → 8 < length buf
    → c.broken ≡ true
    → elog_prepare_entry buf type bytes c
      ≡ done (failed, tag type bytes ++ (replicate 6 0 ++ drop 8 buf))
unfolding elog_prepare_entry
elog_prepare_entry-broken buf bytes type c room broken =
    ap (λ b. elog_prepare_entry b type bytes c) ((cut_four 2 6 0 buf (omega arith)))
    ∙ rw
        (
          poke_middle [] (take 2 buf) (take 6 (drop 2 buf) ++ rest) (tag type bytes) 0 refl
              (omega (arith, length-take 2 buf)),
          fill_timestamp_broken _ _ c broken (
              poke_middle (tag type bytes) (take 6 (drop 2 buf)) rest (timestamp c) 2 refl
                (omega (arith, length-take 6 (drop 2 buf), length-drop 2 buf, length-timestamp c))),
          timestamp-broken c broken,
        )
        (ap (λ r. done (failed, tag type bytes ++ (replicate 6 0 ++ r)))
          (sym (
            cons-drop (drop 8 buf) (omega (arith, length-drop 8 buf))
            ∙ ap₂ ◌∷◌ (ap (λ r. get_or r 0 0) (sym (drop-drop 2 6 buf))) (drop-drop 8 1 buf))))
  where
    rest : List ℕ
    rest = get_or (drop 6 (drop 2 buf)) 0 0 ∷ drop (2 + 6 + 0 + 1) buf
