-- ===== src/Elog/Listing/Numbering.antt =====
-- The numbers of the records that `eventlog list` prints.
use mosys.Common.{
  ℕ, suc, ◌+◌, ◌/◌, ◌%◌, ◌^◌, ◌≤◌, ◌≡◌, refl, ap, Bool, true, false, ◌&&◌, ◌||◌, Option, none, some,
  List, [], ◌∷◌, ◌++◌, leb, ◌==◌, if◌then◌else◌, Run, done, fault, out_of_fuel, access, ◌>>=◌,
  length, length-append, arith, get_or, String, subst,
}
use mosys.Elog.Entry.{entry_type}
use mosys.Elog.Report.{
  ValStr, Value, text, fmt, Pairs, add, entry_bytes, elog_print_type, elog_print_data,
  elog_print_multi, elog_print_multi_me_ext, elog_print_entry_me_ext, me_state_values, type_name,
  elog_print_post_extra, with_bytes, word32,
}
use mosys.Elog.Report.Types.{path_type_values}
use mosys.Elog.Listing.{elog_list_cb, single_record}

-- The record's first pair is its number.
abbrev pub Leads : ℕ → Pairs → Type 0
Leads n r = (rest : Pairs) × (r ≡ ("entry", fmt "%d" (n ∷ [])) ∷ rest)

-- The records are numbered from `n` on.
abbrev pub Numbered : ℕ → List Pairs → Type 0
Numbered n [] = Unit
Numbered n (r ∷ rs) = Leads n r × Numbered (suc n) rs

pub Numbered-append :
    (rs ss : List Pairs) (n m : ℕ)
    → m ≡ n + length rs
    → Numbered n rs
    → Numbered m ss
    → Numbered n (rs ++ ss)
Numbered-append [] ss n m e h k = subst (λ i. Numbered i ss) e' k
  where
    e' : m ≡ n
    e' = omega arith
Numbered-append (r ∷ rs) ss n m e h k = (h.0, Numbered-append rs ss (suc n) m (omega arith) h.1 k)

-- What holds of the value of a run that returns one.
abbrev pub Returns {ℓ} : {A : Type ℓ} → (A → Type 0) → Run A → Type 0
Returns P (done r) = P r
Returns P fault = Unit
Returns P out_of_fuel = Unit

pub Returns-bind :
    {A B : Type 0} (P : B → Type 0) (r : Run A) (f : A → Run B)
    → ((a : A) → Returns P (f a))
    → Returns P (r >>= f)
Returns-bind P (done a) f h = h a
Returns-bind P fault f h = tt
Returns-bind P out_of_fuel f h = tt

pub Returns-if :
    {B : Type 0} (P : B → Type 0) (c : Bool) (r s : Run B)
    → Returns P r
    → Returns P s
    → Returns P (if c then r else s)
Returns-if P true r s h k = h
Returns-if P false r s h k = k

pub Returns-done :
    {A : Type 0} (P : A → Type 0) (r : Run A) (a : A) → Returns P r → r ≡ done a → P a
Returns-done P r a h e = subst (Returns P) e h

module _ (v : ValStr) (stamp : List ℕ → Value) (entry : List ℕ) (start : ℕ) where
  -- The records so far are numbered from `start`, and there are at most `most` of them.
  pub record Shown (most : ℕ) (records : List Pairs) : Type 0 where
    pub numbered : Numbered start records
    pub few : length records ≤ most

  show-Shown :
      (most : ℕ) (records : List Pairs) (desc : String) (value : Option String)
      → Shown most records
      → Shown (suc most) (elog_print_entry_me_ext v stamp entry start records desc value)
  unfolding elog_print_entry_me_ext
  show-Shown most records desc none h = record { numbered = h.numbered; few = omega (arith, h.few) }
  show-Shown most records desc (some value) h = record {
    numbered =
        Numbered-append records _ start (start + length records) refl h.numbered ((_, refl), tt);
    few = omega (arith, h.few, length-append records (_ ∷ []));
  }

  me_ext-Shown : Returns (Shown 7) (elog_print_multi_me_ext v stamp entry start)
  unfolding elog_print_multi_me_ext
  me_ext-Shown = Returns-bind (Shown 7) (entry_bytes entry 7) _ (λ me.
      Returns-bind (Shown 7) (access (me_state_values v stamp (get_or me 4 0))) _ (λ table.
        show-Shown 6 _ _ _ (
          show-Shown 5 _ _ _ (
            show-Shown 4 _ _ _ (
              show-Shown 3 _ _ _
                (show-Shown 2 _ _ _ (show-Shown 1 _ _ _ (show-Shown 0 [] _ _ start_empty))))))))
    where
      start_empty : Shown 0 []
      start_empty = record { numbered = tt; few = omega arith }

  pub multi-Shown : Returns (Shown 7) (elog_print_multi v stamp entry start)
  unfolding elog_print_multi
  multi-Shown =
      Returns-if (Shown 7) (entry_type entry == 0xa4) _ _ me_ext-Shown
        (record { numbered = tt; few = omega arith })

-- The records that one entry is printed as are numbered from the given number on, and there are at
-- most seven of them.
pub elog_print_multi-Numbered :
    (v : ValStr) (stamp : List ℕ → Value) (entry : List ℕ) (start : ℕ) (records : List Pairs)
    → elog_print_multi v stamp entry start ≡ done records
    → Numbered start records × length records ≤ 7
elog_print_multi-Numbered v stamp entry start records e = (shown.numbered, shown.few)
  where
    shown : Shown v stamp entry start 7 records
    shown = Returns-done (Shown v stamp entry start 7) _ records (multi-Shown v stamp entry start) e

Leads-add :
    (n : ℕ) (r : Pairs) (key : String) (value : Value) → Leads n r → Leads n (add r key value)
Leads-add n r key value h = (add h.0 key value, ap (λ s. add s key value) h.1)

module _ (v : ValStr) (entry : List ℕ) (n : ℕ) where
  print_type-Leads : (r : Pairs) → Leads n r → Leads n (elog_print_type v entry r)
  unfolding elog_print_type
  print_type-Leads r h =
      elim (type_name v entry)
        as (λ o. Leads n (elim o [
          | some s ↦ add r "type" (text s)
          | none ↦
              add (add r "type" (text "Unknown")) "value" (fmt "0x%02x" (entry_type entry ∷ []))
        ])) [ some s ↦ Leads-add n r _ _ h | none ↦ Leads-add n _ _ _ (Leads-add n r _ _ h) ]

  either : (c : Bool) (r s : Pairs) → Leads n r → Leads n s → Leads n (if c then r else s)
  either true r s h k = h
  either false r s h k = k

  post_extra-Leads : (r : Pairs) (extra : ℕ) → Leads n r → Leads n (elog_print_post_extra v r extra)
  unfolding elog_print_post_extra
  post_extra-Leads r extra h =
      let type = extra / 2 ^ 16 % 256 in
      let device = Leads-add n r "device" (text (v.val2str type path_type_values)) h in
      let path = λ (value : Value). Leads-add n _ "path" value device in
      either _ _ _ (Leads-add n r _ _ h) (
        either (type == 2) _ _
          (path (fmt "%02x:%02x.%1x" (extra / 2 ^ 8 % 256 ∷ extra / 2 ^ 3 % 32 ∷ extra % 4 ∷ [])))
          (either (leb 3 type && leb type 4) _ _
            (path (fmt "%02x:%02x" (extra / 2 ^ 8 % 256 ∷ extra % 256 ∷ [])))
            (either (leb 5 type && leb type 10) _ _ (path (fmt "0x%04x" (extra % 2 ^ 16 ∷ [])))
              device)))

  one_case :
      (c : Bool) (k : ℕ) (print : List ℕ → Pairs) (b : Run Pairs)
      → ((d : List ℕ) → Leads n (print d))
      → Returns (Leads n) b
      → Returns (Leads n) (if c then with_bytes entry k print else b)
  one_case c k print b h rest =
      Returns-if (Leads n) c _ b (Returns-bind (Leads n) (entry_bytes entry k) _ h) rest

  print_data-Leads : (r : Pairs) → Leads n r → Returns (Leads n) (elog_print_data v entry r)
  unfolding elog_print_data
  print_data-Leads r h =
      let type = entry_type entry in
      one_case (type == 0x16) 2 _ _ (λ d. Leads-add n r _ _ h)
        (one_case (type == 0x17) 4 _ _ (λ d. Leads-add n r _ _ h)
          (one_case (type == 0xa3) 2 _ _ (λ d. Leads-add n _ _ _ (Leads-add n r _ _ h))
            (one_case (type == 0xa6) 4 _ _ (λ d. post_extra-Leads r (word32 d) h)
              (one_case (type == 0x81) 4 _ _ (λ d. Leads-add n r _ _ h)
                (one_case (type == 0x9d || type == 0x9e) 1 _ _ (λ d. Leads-add n r _ _ h)
                  (one_case (type == 0xad) 1 _ _ (λ d. Leads-add n r _ _ h)
                    (one_case (type == 0x9f) 5 _ _ (λ d. Leads-add n _ _ _ (Leads-add n r _ _ h))
                      (one_case (type == 0x91) 1 _ _ (λ d. Leads-add n r _ _ h)
                        (one_case (type == 0xae) 1 _ _ (λ d. Leads-add n r _ _ h)
                          (one_case (type == 0xa1) 1 _ _
                            (λ d. Leads-add n _ _ _ (Leads-add n r _ _ h))
                            (one_case (type == 0xa2) 1 _ _ (λ d. Leads-add n r _ _ h)
                              (one_case (type == 0xaa) 2 _ (done r)
                                (λ d. Leads-add n _ _ _ (Leads-add n r _ _ h)) h))))))))))))

  pub single_record-Leads :
      (stamp : List ℕ → Value) (print_rc : Pairs → ℕ)
      → Returns (Leads n) (single_record v stamp print_rc (elog_list_cb v stamp) entry n)
  unfolding single_record
  single_record-Leads stamp print_rc =
      print_data-Leads _ (print_type-Leads _ (("timestamp", stamp entry) ∷ [], refl))
