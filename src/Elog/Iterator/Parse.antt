-- ===== src/Elog/Iterator/Parse.antt =====
-- The iterator of lib/eventlog/elog_smbios.c reads back the entries that a log is made of.
use mosys.Common.{
  ℕ, zero, suc, ◌≤◌, ◌<◌, ◌≡◌, ◌≢◌, refl, sym, ap, ◌∙◌, ◌⊎◌, none, some, List, [], ◌∷◌, ◌++◌,
  if◌then◌else◌, Run, done, ◌>>=◌, length, drop, drop-append_length, drop-drop, length-drop,
  length-append, bit_or, arith, append_assoc, get_or, fun_ext,
}
use mosys.Elog.Entry.{entry_type, entry_length, type_endlog}
use mosys.Elog.Iterator.{
  LogIterator, next_offset, smbios_eventlog_get_next_entry, Callback, foreach_loop, Fetched,
  smbios_eventlog_foreach_event, smbios_new_eventlog_iterator,
}

-- An entry as it stands in a log: its length byte tells its size, and it is no end mark.
pub record IsEntry (e : List ℕ) : Type 0 where
  pub sized : entry_length e ≡ length e
  pub has_tag : 2 ≤ length e
  pub live : entry_type e ≢ type_endlog

abbrev pub AllEntries : List (List ℕ) → Type 0
AllEntries [] = Unit
AllEntries (e ∷ es) = IsEntry e × AllEntries es

abbrev pub join : List (List ℕ) → List ℕ
join [] = []
join (e ∷ es) = e ++ join es

-- What may follow the last entry: an end mark, or too few bytes for an entry.
abbrev pub Ends : List ℕ → Type 0
Ends tail = (0 < length tail) × ((length tail ≤ 2) ⊎ (entry_type tail ≡ type_endlog))

get_or-append : (xs ys : List ℕ) (i : ℕ) → i < length xs → get_or (xs ++ ys) i 0 ≡ get_or xs i 0
get_or-append [] ys i h = elim h [ ]
get_or-append (x ∷ xs) ys zero h = refl
get_or-append (x ∷ xs) ys (suc i) h = get_or-append xs ys i (omega arith)

pub entry_length-append : (e rest : List ℕ) → IsEntry e → entry_length (e ++ rest) ≡ length e
entry_length-append e rest h = get_or-append e rest 1 h.has_tag ∙ h.sized

abbrev rest_of : LogIterator → List ℕ
rest_of it = drop (next_offset it) it.log_area

abbrev step_to : LogIterator → LogIterator
step_to it = record it { current_offset = some (next_offset it) }

get_next-entry :
    (it : LogIterator) (e rest : List ℕ)
    → it.log_area_length ≡ length it.log_area
    → IsEntry e
    → 0 < length rest
    → rest_of it ≡ e ++ rest
    → smbios_eventlog_get_next_entry it ≡ some (e ++ rest, step_to it)
unfolding smbios_eventlog_get_next_entry
get_next-entry it e rest whole entry more at = ground (
  arith,
  at,
  ap length at,
  length-drop (next_offset it) it.log_area,
  length-append e rest,
  get_or-append e rest 0,
  get_or-append e rest 1,
)

rest_of-step :
    (it : LogIterator) (e rest : List ℕ)
    → IsEntry e
    → rest_of it ≡ e ++ rest
    → rest_of (step_to it) ≡ rest
rest_of-step it e rest entry at =
    sym (drop-drop (next_offset it) (entry_length (rest_of it)) it.log_area)
    ∙ ap (λ r. drop (entry_length r) r) at
    ∙ ap (λ k. drop k (e ++ rest)) (entry_length-append e rest entry)
    ∙ drop-append_length e rest

get_next-end :
    (it : LogIterator) (tail : List ℕ)
    → it.log_area_length ≡ length it.log_area
    → Ends tail
    → rest_of it ≡ tail
    → smbios_eventlog_get_next_entry it ≡ none
unfolding smbios_eventlog_get_next_entry
get_next-end it tail whole ends at =
    ground (arith, at, ap length at, length-drop (next_offset it) it.log_area)

module _ {S : Type 0} (callback : Callback S) where
  -- The callback's run over entries that stand before `tail`, up to the one that completes it.
  unfoldable pub fold_events : List (List ℕ) → List ℕ → S → ℕ → Run (ℕ × S)
  fold_events [] tail s ret = done (ret, s)
  fold_events (e ∷ es) tail s ret = callback (e ++ (join es ++ tail)) s >>= λ (rc, s', complete).
      let rest = fold_events es tail s' (bit_or ret rc) in
      if complete then done (bit_or ret rc, s') else rest

length-join_tail :
    (es : List (List ℕ)) (tail : List ℕ) → 0 < length tail → 0 < length (join es ++ tail)
length-join_tail es tail h = omega (arith, length-append (join es) tail)

module _ {S : Type 0} (callback : Callback S) where
  foreach_loop-entries :
      (es : List (List ℕ)) (tail : List ℕ) (fuel : ℕ) (it : LogIterator) (s : S) (ret : ℕ)
      → length es < fuel
      → it.log_area_length ≡ length it.log_area
      → AllEntries es
      → Ends tail
      → rest_of it ≡ join es ++ tail
      → foreach_loop callback fuel it s ret ≡ fold_events callback es tail s ret
  unfolding foreach_loop fold_events
  foreach_loop-entries es tail zero it s ret h whole all ends at = elim h [ ]
  foreach_loop-entries [] tail (suc fuel) it s ret enough whole all ends at =
      rw (get_next-end it tail whole ends at, foreach_loop)
  foreach_loop-entries (e ∷ es) tail (suc fuel) it s ret enough whole all ends at =
      let at' : rest_of it ≡ e ++ (join es ++ tail) = at ∙ append_assoc e (join es) tail in
      rw
        (
          get_next-entry it e (join es ++ tail) whole all.0 (length-join_tail es tail ends.0) at',
          foreach_loop,
        )
        (ap (λ k. callback (e ++ (join es ++ tail)) s >>= k)
          (fun_ext λ r.
            ap (λ k. if r.2 then done (bit_or ret r.0, r.1) else k)
              (foreach_loop-entries es tail fuel (step_to it) r.1 (bit_or ret r.0) (omega arith)
                whole all.1 ends (rest_of-step it e (join es ++ tail) all.0 at'))))

length-join : (es : List (List ℕ)) → AllEntries es → length es ≤ length (join es)
length-join [] all = omega arith
length-join (e ∷ es) all =
    let big = all.0.has_tag in omega (arith, big, length-append e (join es), length-join es all.1)

-- A fetched log that holds entries `es` from its data offset on, and behind them an end.
pub record HoldsLog (f : Fetched) (es : List (List ℕ)) (tail : List ℕ) : Type 0 where
  pub whole : f.len ≡ length f.bytes
  pub entries : AllEntries es
  pub ends : Ends tail
  pub stored : drop f.data_offset f.bytes ≡ join es ++ tail

-- Over a well-formed log, `smbios_eventlog_foreach_event` returns, and has called the callback on
-- exactly the log's entries in their order, up to one that completes the walk; the codes are
-- joined by `|`.
pub smbios_eventlog_foreach_event-fold :
    {S : Type 0} (callback : Callback S) (f : Fetched) (es : List (List ℕ)) (tail : List ℕ) (s : S)
    → HoldsLog f es tail
    → smbios_eventlog_foreach_event (some f) none callback s ≡ fold_events callback es tail s 0
unfolding smbios_eventlog_foreach_event smbios_new_eventlog_iterator
smbios_eventlog_foreach_event-fold callback f es tail s h =
    foreach_loop-entries callback es tail (suc f.len) _ s 0 enough h.whole h.entries h.ends h.stored
  where
    enough : length es < suc f.len
    enough = omega (
      arith,
      length-join es h.entries,
      length-append (join es) tail,
      ap length h.stored,
      length-drop f.data_offset f.bytes,
      h.whole,
    )
