-- ===== src/Elog/Command/Given.antt =====
-- The bytes that `eventlog add` can be given, core/command/eventlog.c.
use mosys.Common.{
  ℕ, suc, ◌*◌, ◌%◌, ◌≡◌, refl, subst, Option, none, some, ◌==◌, List, [], ◌∷◌, length, get_or,
  arith, ◌⊎◌, inl, inr, Bool-cases, Rc, failed,
}
use mosys.Elog.Command.{
  strtol, to_unsigned, parse_byte, parse_bytes, data_argument, byte_before, add_data,
  eventlog_smbios_add_cmd,
}
use mosys.Elog.Command.Spelled.{IsGiven, parse_byte-IsGiven}

abbrev pub AllGiven : List ℕ → Type 0
AllGiven [] = Unit
AllGiven (v ∷ bytes) = IsGiven v × AllGiven bytes

parse_bytes-AllGiven :
    (text bytes : List ℕ)
    → parse_bytes text ≡ some bytes
    → AllGiven bytes × (length text ≡ 2 * length bytes)
unfolding parse_bytes
parse_bytes-AllGiven [] bytes h =
    let e : ◌≡◌ {A = List ℕ} [] bytes = cc (h) in
    subst (λ bs. AllGiven bs × (0 ≡ 2 * length bs)) e (tt, refl)
parse_bytes-AllGiven (a ∷ []) bytes h = absurd (cc (h))
parse_bytes-AllGiven (a ∷ b ∷ text) bytes h =
    go (parse_byte a b) (parse_bytes text) (parse_bytes-AllGiven text) refl refl h
  where
    go :
        (o : Option ℕ) (p : Option (List ℕ))
        → ((rest : List ℕ)
            → parse_bytes text ≡ some rest
            → AllGiven rest × (length text ≡ 2 * length rest))
        → parse_byte a b ≡ o
        → parse_bytes text ≡ p
        → byte_before o p ≡ some bytes
        → AllGiven bytes × (suc (suc (length text)) ≡ 2 * length bytes)
    go none p later e f h = absurd (cc (h))
    go (some v) none later e f h = absurd (cc (h))
    go (some v) (some rest) later byte f h =
        let (given, long) = later rest f in
        let e : ◌≡◌ {A = List ℕ} (v ∷ rest) bytes = cc (h) in
        subst (λ bs. AllGiven bs × (suc (suc (length text)) ≡ 2 * length bs)) e
          ((parse_byte-IsGiven a b v byte, given), omega (arith, long))

data_argument-parsed :
    (text bytes : List ℕ) → data_argument text ≡ some bytes → parse_bytes text ≡ some bytes
data_argument-parsed text bytes h = elim (Bool-cases (length text % 2 == 0)) [
  | inl even ↦ rw even at h
  | inr odd ↦ absurd (cc (rw odd at h))
]

module _ {W : Type 0} (add : W → ℕ → List ℕ → Rc × W) where
  -- What `eventlog add` does: nothing, or one call of the callback with bytes that two characters give.
  pub record IsAdded (w : W) (argv : List (List ℕ)) (outcome : Rc × W) : Type 0 where
    pub event_type : ℕ
    pub bytes : List ℕ
    pub called : outcome ≡ add w event_type bytes
    pub typed : event_type ≡ to_unsigned 32 (strtol (get_or argv 0 [])).0
    pub given : AllGiven bytes
    pub measured : length (get_or argv 1 []) ≡ 2 * length bytes

  -- `eventlog add` either fails and calls nothing, or it has one or two arguments and calls the platform's
  -- callback once, with a byte for each two characters of the second argument; then no byte is from 100
  -- to 246.
  pub eventlog_smbios_add_cmd-IsAdded :
      (w : W) (argv : List (List ℕ))
      → (eventlog_smbios_add_cmd (some add) w argv ≡ (failed, w))
        ⊎ IsAdded w argv (eventlog_smbios_add_cmd (some add) w argv)
  unfolding eventlog_smbios_add_cmd
  eventlog_smbios_add_cmd-IsAdded w [] = inl refl
  eventlog_smbios_add_cmd-IsAdded w (t ∷ []) = inr (record {
    event_type = to_unsigned 32 (strtol t).0;
    bytes = [];
    called = refl;
    typed = refl;
    given = tt;
    measured = refl;
  })
  eventlog_smbios_add_cmd-IsAdded w (t ∷ text ∷ []) = go (data_argument text) refl
    where
      go :
          (o : Option (List ℕ))
          → data_argument text ≡ o
          → (add_data add w (to_unsigned 32 (strtol t).0) o ≡ (failed, w))
            ⊎ IsAdded w (t ∷ text ∷ []) (add_data add w (to_unsigned 32 (strtol t).0) o)
      go none e = inl refl
      go (some bytes) e =
          let (all_given, long) =
            parse_bytes-AllGiven text bytes (data_argument-parsed text bytes e) in
          inr (record {
            event_type = to_unsigned 32 (strtol t).0;
            bytes = bytes;
            called = refl;
            typed = refl;
            given = all_given;
            measured = long;
          })
  eventlog_smbios_add_cmd-IsAdded w (t ∷ text ∷ more ∷ rest) = inl refl
