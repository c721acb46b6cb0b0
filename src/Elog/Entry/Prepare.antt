-- ===== src/Elog/Entry/Prepare.antt =====
-- What `elog_prepare_entry` of lib/eventlog/elog.c writes.
use mosys.Common.{
  ℕ, suc, ◌+◌, ◌-◌, ◌≤◌, ◌<◌, ◌≡◌, refl, sym, ap, ◌∙◌, true, false, some, List, [], ◌∷◌, ◌++◌, u8,
  ◌==◌, if◌then◌else◌, done, access, ◌>>=◌, poke, poke_middle, length, take, drop,
  take-append_length, cut_four, length-take, length-drop, append_assoc, append-nil, suc-ne-zero,
  length-append, arith,
}
use mosys.Math.{rolling8_csum}
use mosys.Math.Checksum.{byte_sum, byte_sum-append, rolling8_csum-sum}
use mosys.Common.{ok, failed}
use mosys.Elog.Entry.{
  Clock, timestamp, elog_fill_timestamp, elog_update_checksum, elog_verify, elog_prepare_entry,
  fill_data, negate8, sizeof_entry, entry_length, entry_type,
}

-- The two bytes before the timestamp, the eight before the data, and all but the checksum.
abbrev pub tag : ℕ → List ℕ → List ℕ
tag type bytes = u8 type ∷ u8 (sizeof_entry + length bytes + 1) ∷ []

abbrev pub body : ℕ → List ℕ → Clock → List ℕ
body type bytes c = tag type bytes ++ (timestamp c ++ bytes)

-- The bytes of a finished entry.
unfoldable pub image : ℕ → List ℕ → Clock → List ℕ
image type bytes c = body type bytes c ++ (negate8 (u8 (byte_sum (body type bytes c))) ∷ [])

pub length-timestamp : (c : Clock) → length (timestamp c) ≡ 6
unfolding timestamp
length-timestamp c = ground arith

pub length-body :
    (type : ℕ) (bytes : List ℕ) (c : Clock) → length (body type bytes c) ≡ 8 + length bytes
length-body type bytes c = omega (arith, length-append (timestamp c) bytes, length-timestamp c)

pub length-image :
    (type : ℕ) (bytes : List ℕ) (c : Clock) → length (image type bytes c) ≡ 9 + length bytes
unfolding image
length-image type bytes c = omega (
  arith,
  length-append (body type bytes c) (negate8 (u8 (byte_sum (body type bytes c))) ∷ []),
  length-body type bytes c,
)

-- The checksum goes behind a body of `length - 1` bytes.
update_checksum_body :
    (front post : List ℕ) (old new : ℕ)
    → entry_length (front ++ (old ∷ post)) ≡ length front + 1
    → elog_update_checksum (front ++ (old ∷ post)) new ≡ done (front ++ (new ∷ post))
unfolding elog_update_checksum
update_checksum_body front post old new h = rw (h) (
    ground (
      arith,
      poke_middle front (old ∷ []) post (new ∷ []) (length front + 1 - 1) (omega arith) refl,
    ))

suc_add_one : (front : List ℕ) → suc (length front) + 1 ≡ suc (length front + 1)
suc_add_one front = omega arith

take_front :
    (front post : List ℕ) (x : ℕ)
    → take (length front + 1) (front ++ (x ∷ post)) ≡ front ++ (x ∷ [])
take_front [] post x = refl
take_front (f ∷ front) post x =
    ap (λ k. take k (f ∷ (front ++ (x ∷ post)))) (suc_add_one front)
    ∙ ap (λ b. f ∷ b) (take_front front post x)

csum_body :
    (front post : List ℕ)
    → rolling8_csum (front ++ (0 ∷ post)) (length front + 1) ≡ some (u8 (byte_sum front))
csum_body front post =
    rolling8_csum-sum (front ++ (0 ∷ post)) (length front + 1)
      (omega (arith, length-append front (0 ∷ post)))
    ∙ ap (λ b. some (u8 (byte_sum b))) (take_front front post 0)
    ∙ ap (λ k. some (u8 k)) (omega (arith, byte_sum-append front (0 ∷ [])))

copy_data :
    (front room bytes post : List ℕ) (old : ℕ)
    → length front ≡ 8
    → length room ≡ length bytes
    → (if length bytes == 0
        then done (front ++ (room ++ (old ∷ post)))
        else access (poke (front ++ (room ++ (old ∷ post))) sizeof_entry bytes))
      ≡ done ((front ++ bytes) ++ (old ∷ post))
copy_data front [] [] post old f r = rw append-nil refl
copy_data front [] (b ∷ bytes) post old f r = absurd (omega arith)
copy_data front (x ∷ room) [] post old f r = absurd (omega arith)
copy_data front (x ∷ room) (b ∷ bytes) post old f r = rw (suc-ne-zero (length bytes)) (
    ap access (poke_middle front (x ∷ room) (old ∷ post) (b ∷ bytes) 8 (sym f) r)
    ∙ ap done (sym (append_assoc front (b ∷ bytes) (old ∷ post))))

fill_data_lem :
    (front room bytes post : List ℕ) (old : ℕ)
    → length front ≡ 8
    → length room ≡ length bytes
    → ((x : ℕ) → entry_length ((front ++ bytes) ++ (x ∷ post)) ≡ length (front ++ bytes) + 1)
    → fill_data (front ++ (room ++ (old ∷ post))) bytes
      ≡ done (ok, (front ++ bytes) ++ (negate8 (u8 (byte_sum (front ++ bytes))) ∷ post))
unfolding fill_data
fill_data_lem front room bytes post old f r k =
    rw
      (
        copy_data front room bytes post old f r,
        update_checksum_body (front ++ bytes) post old 0 (k old),
        k 0,
        csum_body (front ++ bytes) post,
        update_checksum_body (front ++ bytes) post 0 (negate8 (u8 (byte_sum (front ++ bytes))))
            (k 0),
      )
      refl

fill_timestamp_ok :
    (entry stamped : List ℕ) (c : Clock)
    → c.broken ≡ false
    → poke entry 2 (timestamp c) ≡ some stamped
    → elog_fill_timestamp entry c ≡ done (ok, stamped)
unfolding elog_fill_timestamp
fill_timestamp_ok entry stamped c works p =
    rw p (ap (λ b. done (if b then failed else ok, stamped)) works)

prepare_split :
    (h2 h6 room post bytes : List ℕ) (old type : ℕ) (c : Clock)
    → length h2 ≡ 2
    → length h6 ≡ 6
    → length room ≡ length bytes
    → length bytes < 247
    → c.broken ≡ false
    → elog_prepare_entry (h2 ++ (h6 ++ (room ++ (old ∷ post)))) type bytes c
      ≡ done (ok, image type bytes c ++ post)
unfolding elog_prepare_entry image
prepare_split h2 h6 room post bytes old type c e2 e6 er small works =
    rw
      (
        poke_middle [] h2 (h6 ++ (room ++ (old ∷ post))) (tag type bytes) 0 refl e2,
        fill_timestamp_ok _ _ c works (
            poke_middle (tag type bytes) h6 (room ++ (old ∷ post)) (timestamp c) 2 refl
              (e6 ∙ sym (length-timestamp c))),
      )
      (fill_data_lem (tag type bytes ++ timestamp c) room bytes post old
          (ap (λ k. suc (suc k)) (length-timestamp c)) er
          (λ x. omega (arith, length-body type bytes c))
        ∙ ap (λ k. done (ok, k)) (sym (append_assoc (body type bytes c) _ post)))

-- With room for the entry and a working clock, `elog_prepare_entry` succeeds: the bytes of `image`
-- take the place of the first `9 + length bytes` bytes of the buffer, and the rest stays.
pub elog_prepare_entry-image :
    (buf bytes : List ℕ) (type : ℕ) (c : Clock)
    → 9 + length bytes ≤ length buf
    → length bytes < 247
    → c.broken ≡ false
    → elog_prepare_entry buf type bytes c
      ≡ done (ok, image type bytes c ++ drop (9 + length bytes) buf)
elog_prepare_entry-image buf bytes type c room small works =
    ap (λ b. elog_prepare_entry b type bytes c) (cut_four 2 6 (length bytes) buf (omega arith))
    ∙ prepare_split (take 2 buf) (take 6 (drop 2 buf)) (take (length bytes) (drop 6 (drop 2 buf)))
        (drop (2 + 6 + length bytes + 1) buf) bytes _ type c (omega (arith, length-take 2 buf))
        (omega (arith, length-take 6 (drop 2 buf), length-drop 2 buf))
        (omega (
          arith,
          length-take (length bytes) (drop 6 (drop 2 buf)),
          length-drop 6 (drop 2 buf),
          length-drop 2 buf,
        ))
        small works
    ∙ ap (λ k. done (ok, image type bytes c ++ drop k buf)) (omega arith)

pub entry_length-image :
    (type : ℕ) (bytes : List ℕ) (c : Clock) (rest : List ℕ)
    → length bytes < 247
    → entry_length (image type bytes c ++ rest) ≡ 9 + length bytes
unfolding image
entry_length-image type bytes c rest small = omega arith

pub entry_type-image :
    (type : ℕ) (bytes : List ℕ) (c : Clock) (rest : List ℕ)
    → entry_type (image type bytes c ++ rest) ≡ u8 type
unfolding image
entry_type-image type bytes c rest = refl

byte_sum-image : (type : ℕ) (bytes : List ℕ) (c : Clock) → u8 (byte_sum (image type bytes c)) ≡ 0
unfolding image
byte_sum-image type bytes c =
    omega (
      arith,
      byte_sum-append (body type bytes c) (negate8 (u8 (byte_sum (body type bytes c))) ∷ []),
    )

-- A finished entry passes `elog_verify`, whatever follows it.
pub elog_verify-image :
    (type : ℕ) (bytes : List ℕ) (c : Clock) (rest : List ℕ)
    → length bytes < 247
    → elog_verify (image type bytes c ++ rest) ≡ done true
unfolding elog_verify
elog_verify-image type bytes c rest small =
    rw
      (
        entry_length-image type bytes c rest small ∙ sym (length-image type bytes c),
        rolling8_csum-sum (image type bytes c ++ rest) (length (image type bytes c))
            (omega (arith, length-append (image type bytes c) rest)),
        take-append_length (image type bytes c) rest,
        byte_sum-image type bytes c,
      )
      refl

-- With fewer than 247 data bytes, room for the entry and a working clock, the entry that
-- `elog_prepare_entry` leaves behind passes `elog_verify`.
pub elog_verify-elog_prepare_entry :
    (buf bytes : List ℕ) (type : ℕ) (c : Clock)
    → 9 + length bytes ≤ length buf
    → length bytes < 247
    → c.broken ≡ false
    → (elog_prepare_entry buf type bytes c >>= λ r. elog_verify r.1) ≡ done true
elog_verify-elog_prepare_entry buf bytes type c room small works =
    rw (elog_prepare_entry-image buf bytes type c room small works)
      (elog_verify-image type bytes c (drop (9 + length bytes) buf) small)
