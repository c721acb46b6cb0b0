-- ===== src/Elog/Manual/Layout.antt =====
-- The layout of a well-formed log that is fetched whole, and an entry put behind its last one by
-- `elog_prepare_entry` of lib/eventlog/elog.c.
use mosys.Common.{
  ℕ, zero, suc, ◌+◌, ◌-◌, ◌≤◌, ◌<◌, ◌≡◌, ◌≢◌, refl, sym, ap, ◌∙◌, false, List, [], ◌∷◌, ◌++◌,
  leb-le, done, length, drop, take, length-drop, length-take, length-append, replicate,
  length-replicate, drop-replicate, arith, append_assoc, append-nil, take-append_length,
  drop-append_length, take-append-drop, u8, inr,
}
use mosys.Common.{ok}
use mosys.Elog.Entry.{entry_length, entry_type, type_endlog, Clock}
use mosys.Elog.Entry.Prepare.{
  image, length-image, entry_length-image, entry_type-image, elog_prepare_entry-image,
}
use mosys.Elog.Iterator.{Fetched}
use mosys.Elog.Iterator.Parse.{IsEntry, AllEntries, join, Ends, HoldsLog}
use mosys.Elog.Manual.{prepare_at}

abbrev pub erased : ℕ → List ℕ
erased free = replicate free 0xff

-- A fetched log whose entries are `es`, with `free` erased bytes behind them.
pub record Holds (f : Fetched) (es : List (List ℕ)) (free : ℕ) : Type 0 where
  pub whole : f.len ≡ length f.bytes
  pub entries : AllEntries es
  pub some_free : 0 < free
  pub stored : drop f.data_offset f.bytes ≡ join es ++ erased free

abbrev pub snoc : List (List ℕ) → List ℕ → List (List ℕ)
snoc es e = es ++ (e ∷ [])

pub join-snoc : (es : List (List ℕ)) (e : List ℕ) → join (snoc es e) ≡ join es ++ e
join-snoc [] e = append-nil e
join-snoc (x ∷ es) e = ap (λ r. x ++ r) (join-snoc es e) ∙ sym (append_assoc x (join es) e)

pub AllEntries-snoc :
    (es : List (List ℕ)) (e : List ℕ) → AllEntries es → IsEntry e → AllEntries (snoc es e)
AllEntries-snoc [] e all h = (h, tt)
AllEntries-snoc (x ∷ es) e all h = (all.0, AllEntries-snoc es e all.1 h)

pub Ends-erased : (free : ℕ) → 0 < free → Ends (erased free)
Ends-erased zero h = elim h [ ]
Ends-erased (suc free) h = (omega arith, inr refl)

pub image-IsEntry :
    (type : ℕ) (bytes : List ℕ) (c : Clock)
    → u8 type ≢ type_endlog
    → length bytes < 247
    → IsEntry (image type bytes c)
image-IsEntry type bytes c live small = record {
  sized =
      ap entry_length (sym (append-nil (image type bytes c)))
      ∙ entry_length-image type bytes c [] small
      ∙ sym (length-image type bytes c);
  has_tag = omega (arith, length-image type bytes c);
  live = λ e. live (
      sym (entry_type-image type bytes c []) ∙ ap entry_type (append-nil (image type bytes c)) ∙ e);
}

prepare_at-image :
    (buf front rest bytes : List ℕ) (offset type : ℕ) (c : Clock)
    → buf ≡ front ++ rest
    → offset ≡ length front
    → 9 + length bytes ≤ length rest
    → length bytes < 247
    → c.broken ≡ false
    → prepare_at buf offset type bytes c
      ≡ done (ok, front ++ (image type bytes c ++ drop (9 + length bytes) rest))
unfolding prepare_at
prepare_at-image buf front rest bytes offset type c at to room small works =
    rw
      (
        at,
        to,
        leb-le (length front) (length (front ++ rest)) (omega (arith, length-append front rest)),
        drop-append_length front rest,
        take-append_length front rest,
        elog_prepare_entry-image rest bytes type c room small works,
      )
      refl

-- An entry goes behind the entries `es`, over erased bytes.
pub append_entry :
    (front bytes : List ℕ) (es : List (List ℕ)) (offset free type : ℕ) (c : Clock)
    → offset ≡ length front + length (join es)
    → 9 + length bytes ≤ free
    → length bytes < 247
    → c.broken ≡ false
    → prepare_at (front ++ (join es ++ erased free)) offset type bytes c
      ≡ done
          (ok, front ++ (join (snoc es (image type bytes c)) ++ erased (free - (9 + length bytes))))
append_entry front bytes es offset free type c to room small works =
    prepare_at-image _ (front ++ join es) (erased free) bytes offset type c
      (sym (append_assoc front (join es) (erased free)))
      (omega (arith, length-append front (join es)))
      (omega (arith, length-replicate {A = ℕ} free 0xff)) small works
    ∙ ap (λ b. done (ok, b))
        (append_assoc front (join es) (img ++ drop (9 + length bytes) (erased free))
          ∙ ap (λ r. front ++ (join es ++ (img ++ r))) (drop-replicate free (9 + length bytes) 0xff)
          ∙ ap (λ r. front ++ r) (sym (append_assoc (join es) img left))
          ∙ ap (λ j. front ++ (j ++ left)) (sym (join-snoc es img)))
  where
    img : List ℕ
    img = image type bytes c

    left : List ℕ
    left = erased (free - (9 + length bytes))

abbrev pub front_of : Fetched → List ℕ
front_of f = take f.data_offset f.bytes

-- Facts about the shape of a fetched log that hold together.
pub record Shape (f : Fetched) (es : List (List ℕ)) (free : ℕ) : Type 0 where
  pub bytes_eq : f.bytes ≡ front_of f ++ (join es ++ erased free)
  pub front_eq : length (front_of f) ≡ f.data_offset
  pub total : f.data_offset + length (join es) + free ≡ f.len

pub shape : (f : Fetched) (es : List (List ℕ)) (free : ℕ) → Holds f es free → Shape f es free
shape f es free h = record {
  bytes_eq = sym (take-append-drop f.data_offset f.bytes) ∙ ap (λ r. front_of f ++ r) h.stored;
  front_eq = omega (arith, sizes, length-take f.data_offset f.bytes);
  total = omega (arith, sizes);
}
  where
    sizes : (f.data_offset + length (join es) + free ≡ f.len) × (f.len ≡ length f.bytes)
    sizes = omega (
      arith,
      h.whole,
      h.some_free,
      ap length h.stored,
      length-drop f.data_offset f.bytes,
      length-append (join es) (erased free),
      length-replicate {A = ℕ} free 0xff,
    )

pub HoldsLog-Holds :
    (f : Fetched) (es : List (List ℕ)) (free : ℕ) → Holds f es free → HoldsLog f es (erased free)
HoldsLog-Holds f es free h = record {
  whole = h.whole;
  entries = h.entries;
  ends = Ends-erased free h.some_free;
  stored = h.stored;
}

-- A buffer of that form is a log that holds those entries.
pub Holds-buffer :
    (f : Fetched) (es es' : List (List ℕ)) (free free' : ℕ)
    → Holds f es free
    → AllEntries es'
    → 0 < free'
    → length (join es') + free' ≡ length (join es) + free
    → Holds (record f { bytes = front_of f ++ (join es' ++ erased free') }) es' free'
Holds-buffer f es es' free free' h all some_free same = record {
  whole = omega (
    arith,
    sh.front_eq,
    sh.total,
    length-append (front_of f) (join es' ++ erased free'),
    length-append (join es') (erased free'),
    length-replicate {A = ℕ} free' 0xff,
  );
  entries = all;
  some_free = some_free;
  stored =
      ap (λ k. drop k (front_of f ++ (join es' ++ erased free'))) (sym sh.front_eq)
      ∙ drop-append_length (front_of f) (join es' ++ erased free');
}
  where
    sh : Shape f es free
    sh = shape f es free h
