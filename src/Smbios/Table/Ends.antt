-- ===== src/Smbios/Table/Ends.antt =====
-- The loops of lib/smbios/smbios.c end on any bytes.
use mosys.Common.{
  ℕ, zero, suc, ◌+◌, ◌≤◌, ◌<◌, ◌≡◌, ◌≢◌, refl, sym, ap, ◌∙◌, Bool, true, false, Option, none, some,
  List, [], ◌∷◌, leb, leb→gt, ◌==◌, ==_iff, if◌then◌else◌, Run, done, fault, out_of_fuel, access,
  ◌>>=◌, strlen, drop, length, length-drop, get_elem?, arith, inl, inr, ◌⊎◌,
}
use mosys.Smbios.Text.{table_len_loop, string_table_len}
use mosys.Smbios.Entry.{Machine, table_length}
use mosys.Smbios.Table.{
  SmbiosIterator, header_type, header_length, itr_next, search_loop, smbios_itr_setup,
  smbios_find_table_raw,
}

-- The run does not use up its fuel.
abbrev InFuel {ℓ} : {A : Type ℓ} → Run A → Type ℓ
InFuel r = r ≢ out_of_fuel

done_ends {ℓ} : {A : Type ℓ} (a : A) → InFuel (done a)
done_ends a e = cc

fault_ends {ℓ} : {A : Type ℓ} → InFuel {A = A} fault
fault_ends e = cc

bind_ends {ℓ κ} :
    {A : Type ℓ} {B : Type κ} (r : Run A) (f : A → Run B)
    → InFuel r
    → ((a : A) → r ≡ done a → InFuel (f a))
    → InFuel (r >>= f)
bind_ends (done a) f ends later = later a refl
bind_ends fault f ends later = fault_ends
bind_ends out_of_fuel f ends later = absurd (ends refl)

access_ends {ℓ} : {A : Type ℓ} (o : Option A) → InFuel (access o)
access_ends none = fault_ends
access_ends (some a) = done_ends a

if_ends {ℓ} :
    {A : Type ℓ} (b : Bool) (r s : Run A)
    → (b ≡ true → InFuel r)
    → (b ≡ false → InFuel s)
    → InFuel (if b then r else s)
if_ends true r s then_ends else_ends = then_ends refl
if_ends false r s then_ends else_ends = else_ends refl

case_ends {ℓ} :
    {A : Type ℓ} (b : Bool) (r s : Run A)
    → (b ≡ true → InFuel r)
    → (b ≡ false → InFuel s)
    → InFuel {A = A} (elim b [ true ↦ r | false ↦ s ])
case_ends true r s then_ends else_ends = then_ends refl
case_ends false r s then_ends else_ends = else_ends refl

table_len_loop_ends :
    (fuel : ℕ) (ptr : List ℕ) (tlen : ℕ) → length ptr < fuel → InFuel (table_len_loop fuel ptr tlen)
unfolding table_len_loop
table_len_loop_ends zero ptr tlen h = absurd (omega arith)
table_len_loop_ends (suc fuel) [] tlen h = fault_ends
table_len_loop_ends (suc fuel) (c ∷ cs) tlen h =
    if_ends (c == 0) (done tlen) _ (λ nul. done_ends tlen)
      (λ text. bind_ends (access (strlen (c ∷ cs))) _ (access_ends (strlen (c ∷ cs))) (λ n e.
        table_len_loop_ends fuel (drop (n + 1) (c ∷ cs)) (tlen + (n + 1))
          (omega (arith, h, length-drop (n + 1) (c ∷ cs)))))

string_table_len_ends : (ptr : List ℕ) → InFuel (string_table_len ptr)
unfolding string_table_len
string_table_len_ends [] = fault_ends
string_table_len_ends (c ∷ cs) =
    if_ends (c == 0) (done 2) _ (λ nul. done_ends 2)
      (λ text. table_len_loop_ends (suc (length (c ∷ cs))) (c ∷ cs) 1 (omega arith))

itr_next_ends : (itr : SmbiosIterator) → InFuel (itr_next itr)
unfolding itr_next
itr_next_ends itr =
    bind_ends (header_length itr) _ (access_ends (get_elem? itr.table_data (itr.header + 1)))
      (λ len found.
        bind_ends (string_table_len (drop (itr.current + len) itr.table_data)) _
          (string_table_len_ends (drop (itr.current + len) itr.table_data))
          (λ strings known.
            if_ends (leb (table_length itr.entry) (itr.current + (len + strings) + 1)) _ _
              (λ past. done_ends _) (λ within. done_ends _)))

-- What is known of a value that a run gives.
bind_done {ℓ κ} :
    {A : Type ℓ} {B : Type κ} (r : Run A) (f : A → Run B) (b : B)
    → (r >>= f) ≡ done b
    → (a : A) × (r ≡ done a) × (f a ≡ done b)
bind_done (done a) f b e = (a, refl, e)
bind_done fault f b e = cc (e)
bind_done out_of_fuel f b e = cc (e)

if_done {ℓ} :
    {A : Type ℓ} (b : Bool) (r s : Run A) (x : A)
    → (if b then r else s) ≡ done x
    → ((b ≡ true) × (r ≡ done x)) ⊎ ((b ≡ false) × (s ≡ done x))
if_done true r s x e = inl (refl, e)
if_done false r s x e = inr (refl, e)

done_same {ℓ} : {A : Type ℓ} (a b : A) → done a ≡ done b → a ≡ b
done_same a b e = cc (e)

table_len_loop_grows :
    (fuel : ℕ) (ptr : List ℕ) (tlen n : ℕ) → table_len_loop fuel ptr tlen ≡ done n → tlen ≤ n
unfolding table_len_loop
table_len_loop_grows zero ptr tlen n e = cc (e)
table_len_loop_grows (suc fuel) [] tlen n e = cc (e)
table_len_loop_grows (suc fuel) (c ∷ cs) tlen n e = elim (if_done (c == 0) (done tlen) _ n e) [
  | inl (nul, last) ↦ omega (arith, done_same tlen n last)
  | inr (text, more) ↦
      let (m, known, rest) = bind_done (access (strlen (c ∷ cs))) _ n more in
      let le = table_len_loop_grows fuel (drop (m + 1) (c ∷ cs)) (tlen + (m + 1)) n rest in
      omega (arith, le)
]

string_table_len_some : (ptr : List ℕ) (n : ℕ) → string_table_len ptr ≡ done n → 0 < n
unfolding string_table_len
string_table_len_some [] n e = cc (e)
string_table_len_some (c ∷ cs) n e = elim (if_done (c == 0) (done 2) _ n e) [
  | inl (nul, last) ↦ omega (arith, done_same 2 n last)
  | inr (text, more) ↦ table_len_loop_grows (suc (length (c ∷ cs))) (c ∷ cs) 1 n more
]

-- A step that finds a next table moves on, and stays within the tables.
record Moved (itr itr' : SmbiosIterator) : Type 0 where
  onwards : itr.current < itr'.current
  within : itr'.current < table_length itr.entry
  same_entry : itr'.entry ≡ itr.entry

itr_next-Moved : (itr itr' : SmbiosIterator) → itr_next itr ≡ done (0, itr') → Moved itr itr'
unfolding itr_next
itr_next-Moved itr itr' e =
    let (len, found, e1) = bind_done (header_length itr) _ (0, itr') e in
    let (strings, known, e2) =
      bind_done (string_table_len (drop (itr.current + len) itr.table_data)) _ (0, itr') e1 in
    elim (if_done (leb (table_length itr.entry) (itr.current + (len + strings) + 1)) _ _ (0, itr')
      e2) [
        | inl (past, wrapped) ↦ absurd (omega (arith, ap (λ r. r.0) (done_same _ _ wrapped)))
        | inr (inside, moved) ↦
            let same = ap (λ r. r.1) (done_same _ _ moved) in
            let positive = string_table_len_some _ strings known in
            let room = leb→gt _ _ inside in
            record {
              onwards = omega (arith, ap (λ i. i.current) same, positive);
              within = omega (arith, ap (λ i. i.current) same, room);
              same_entry = sym (ap (λ i. i.entry) same);
            }
      ]

next_ends :
    (fuel type left : ℕ) (itr : SmbiosIterator)
    → ((itr' : SmbiosIterator) → Moved itr itr' → InFuel (search_loop fuel type left itr'))
    → InFuel {A = Bool × SmbiosIterator} (
        itr_next itr >>= λ (rc, itr'). elim (rc == 0) [
          | true ↦ search_loop fuel type left itr'
          | false ↦ done (false, itr')
        ])
next_ends fuel type left itr again = bind_ends (itr_next itr) _ (itr_next_ends itr) (λ r e.
    case_ends (r.0 == 0) (search_loop fuel type left r.1) (done (false, r.1))
      (λ zero_rc.
        again r.1 (itr_next-Moved itr r.1 (e ∙ ap (λ k. done (k, r.1)) ((==_iff r.0 0).0 zero_rc))))
      (λ wrapped. done_ends _))

search_loop_ends :
    (fuel type left : ℕ) (itr : SmbiosIterator)
    → table_length itr.entry < fuel + itr.current
    → itr.current ≤ table_length itr.entry
    → InFuel (search_loop fuel type left itr)
unfolding search_loop
search_loop_ends zero type left itr h inside = absurd (omega (arith, h, inside))
search_loop_ends (suc fuel) type left itr h inside =
    let again : (left' : ℕ) (itr' : SmbiosIterator)
        → Moved itr itr'
        → InFuel (search_loop fuel type left' itr') =
      λ left' itr' moved.
        let same = ap table_length moved.same_entry in
        search_loop_ends fuel type left' itr' (omega (arith, h, moved.onwards, same))
          (omega (arith, moved.within, same)) in
    bind_ends (header_type itr) _ (access_ends (get_elem? itr.table_data itr.header))
      (λ this_type found.
        if_ends (this_type == type) _ _
          (λ same.
            if_ends (left == 0) _ _ (λ first. done_ends _)
              (λ more. next_ends fuel type _ itr (again _)))
          (λ other. next_ends fuel type _ itr (again _)))

-- Whatever the mapped bytes, and wherever the iterator stands, the search for a table comes to an end.
pub smbios_find_table_raw_ends :
    (m : Machine) (itr : SmbiosIterator) (type instance_left baseaddr len : ℕ)
    → smbios_find_table_raw m (some itr) type instance_left baseaddr len ≢ out_of_fuel
unfolding smbios_find_table_raw smbios_itr_setup
smbios_find_table_raw_ends m itr type instance_left baseaddr len =
    bind_ends
      (search_loop (suc (table_length itr.entry)) type instance_left
        (record itr { current = 0; header = 0 }))
      _
      (search_loop_ends (suc (table_length itr.entry)) type instance_left
        (record itr { current = 0; header = 0 }) (omega arith) (omega arith))
      (λ r e. done_ends _)
