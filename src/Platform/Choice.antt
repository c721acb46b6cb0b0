-- ===== src/Platform/Choice.antt =====
-- Which platform a name stands for, core/platform.c.
use mosys.Common.{
  ℕ, ◌≡◌, ◌↔◌, refl, sym, ap, ap₂, ◌∙◌, subst, true, none, some, Option-cases, Bool-cases, ◌==◌,
  ==_iff, List, [], ◌∷◌, ◌++◌, map, length, take, ◌⊎◌, inl, inr,
}
use mosys.Platform.{PlatformIntf, tolower, strncasecmp_eq, strlfind, find_named}

-- The name starts with the id, without regard to case.
abbrev pub Starts : List ℕ → List ℕ → Type 0
Starts str id = take (length id) (map tolower str) ≡ map tolower id

strncasecmp_eq-Starts : (str id : List ℕ) → (strncasecmp_eq str id ≡ true) ↔ Starts str id
unfolding strncasecmp_eq
strncasecmp_eq-Starts str [] = (λ h. refl, λ h. refl)
strncasecmp_eq-Starts [] (c ∷ id) = (λ h. cc (h), λ h. cc (h))
strncasecmp_eq-Starts (a ∷ str) (c ∷ id) = elim (Bool-cases (tolower a == tolower c)) [
  | inl same ↦
      let (forth, back) = strncasecmp_eq-Starts str id in
      (
        λ h. ap₂ (λ x xs. x ∷ xs) ((==_iff _ _).0 same) (forth (rw same at h)),
        λ h. rw (same) (back (cc (h))),
      )
  | inr differs ↦ (
    λ h. absurd (cc (rw differs at h)),
    λ h. let same : tolower a ≡ tolower c = cc (h) in absurd (cc (differs, (==_iff _ _).1 same)),
  )
]

-- The name starts with one of the ids.
abbrev pub IsNamed : List ℕ → List (List ℕ) → Type 0
IsNamed str [] = ⊥
IsNamed str (id ∷ ids) = Starts str id ⊎ IsNamed str ids

strlfind-IsNamed :
    (str : List ℕ) (ids : List (List ℕ))
    → (IsNamed str ids → ((id : List ℕ) × (strlfind str ids ≡ some id)))
      × ((id : List ℕ) → strlfind str ids ≡ some id → IsNamed str ids)
unfolding strlfind
strlfind-IsNamed str [] = (λ h. absurd h, λ id h. cc (h))
strlfind-IsNamed str (id ∷ ids) = elim (Bool-cases (strncasecmp_eq str id)) [
  | inl starts ↦ (λ h. (id, rw (starts) refl), λ x h. inl ((strncasecmp_eq-Starts str id).0 starts))
  | inr differs ↦
      let (forth, back) = strlfind-IsNamed str ids in
      (
        λ h. elim h [
          | inl starts ↦ absurd (cc (differs, (strncasecmp_eq-Starts str id).1 starts))
          | inr later ↦ rw (differs) (forth later)
        ],
        λ x h. inr (back x (rw differs at h)),
      )
]

module _ {W : Type 0} where
  abbrev pub AllUnnamed : List ℕ → List (PlatformIntf W) → Type 0
  AllUnnamed str [] = Unit
  AllUnnamed str (intf ∷ list) = (IsNamed str intf.id_list → ⊥) × AllUnnamed str list

  -- The first platform of the list with an id that the name starts with.
  pub record IsFirst (str : List ℕ) (list : List (PlatformIntf W)) (intf : PlatformIntf W)
      : Type 0 where
    pub before : List (PlatformIntf W)
    pub after : List (PlatformIntf W)
    pub place : list ≡ before ++ intf ∷ after
    pub unnamed : AllUnnamed str before
    pub named : IsNamed str intf.id_list

  find_named-here :
      (str : List ℕ) (intf : PlatformIntf W) (list : List (PlatformIntf W))
      → IsNamed str intf.id_list
      → find_named str (intf ∷ list) ≡ some intf
  unfolding find_named
  find_named-here str intf list named =
      let (id, e) = (strlfind-IsNamed str intf.id_list).0 named in
      ap (λ o. elim o [ some id ↦ some intf | none ↦ find_named str list ]) e

  find_named-later :
      (str : List ℕ) (intf : PlatformIntf W) (list : List (PlatformIntf W))
      → (IsNamed str intf.id_list → ⊥)
      → find_named str (intf ∷ list) ≡ find_named str list
  unfolding find_named
  find_named-later str intf list unnamed = elim (Option-cases (strlfind str intf.id_list)) [
    | inl e ↦ ap (λ o. elim o [ some id ↦ some intf | none ↦ find_named str list ]) e
    | inr (id, e) ↦ absurd (unnamed ((strlfind-IsNamed str intf.id_list).1 id e))
  ]

  pub find_named-first :
      (str : List ℕ) (before : List (PlatformIntf W)) (intf : PlatformIntf W)
      (after : List (PlatformIntf W))
      → AllUnnamed str before
      → IsNamed str intf.id_list
      → find_named str (before ++ intf ∷ after) ≡ some intf
  find_named-first str [] intf after unnamed named = find_named-here str intf after named
  find_named-first str (x ∷ before) intf after unnamed named =
      find_named-later str x (before ++ intf ∷ after) unnamed.0
      ∙ find_named-first str before intf after unnamed.1 named

  pub find_named-IsFirst :
      (str : List ℕ) (list : List (PlatformIntf W)) (intf : PlatformIntf W)
      → find_named str list ≡ some intf
      → IsFirst str list intf
  unfolding find_named
  find_named-IsFirst str [] intf h = absurd (cc (h))
  find_named-IsFirst str (x ∷ list) intf h = elim (Option-cases (strlfind str x.id_list)) [
    | inl e ↦
        let unnamed = λ (n : IsNamed str x.id_list).
          let (id, found) = (strlfind-IsNamed str x.id_list).0 n in absurd (cc (e, found)) in
        later (find_named-IsFirst str list intf (sym (find_named-later str x list unnamed) ∙ h))
          unnamed
    | inr (id, e) ↦
        let named = (strlfind-IsNamed str x.id_list).1 id e in
        let same : x ≡ intf = cc (find_named-here str x list named, h) in
        subst (IsFirst str (x ∷ list)) same
          (record { before = []; after = list; place = refl; unnamed = tt; named = named })
  ]
    where
      later : IsFirst str list intf → (IsNamed str x.id_list → ⊥) → IsFirst str (x ∷ list) intf
      later f unnamed = record {
        before = x ∷ f.before;
        after = f.after;
        place = ap (λ l. x ∷ l) f.place;
        unnamed = (unnamed, f.unnamed);
        named = f.named;
      }
