-- ===== src/Locks/Create.antt =====
-- What `csem_create` of core/csem.c makes of the semaphore of a key.
use mosys.Common.{
  ℕ, ◌+◌, ◌≡◌, ◌≢◌, refl, sym, ap, ◌∙◌, subst, Bool, true, false, ◌||◌, not, Option, none, some,
  ltb, inl, inr, Option-cases,
}
use mosys.Locks.{
  Semaphores, Made, made, exists_already, make_failed, after, otime_is_set, does_semctl_set_otime,
  create_known, csem_create,
}
use mosys.Locks.Laws.{View, absent, present, sem_of, NewSpec, SemLaws}

-- What a process knows of the platform is right: without the hack, SETVAL sets the time.
abbrev pub HackOk : Bool → Option Bool → Type 0
HackOk sets none = Unit
HackOk sets (some true) = Unit
HackOk sets (some false) = sets ≡ true

-- A new semaphore has its value and is ready; otherwise nothing changes.
abbrev pub CreateSpec : View → ℕ → Made → View → Type 0
CreateSpec v val exists_already v' = (v' ≡ v) × (v ≢ absent)
CreateSpec v val make_failed v' = v' ≡ v
CreateSpec v val (made s) v' = (v ≡ absent) × (v' ≡ present s val true)

module _ {W : Type 0} (os : Semaphores W) (key : ℕ) (laws : SemLaws os key) where
  open laws use {view, sets_otime}

  private_after :
      (w : W) (p : ℕ) → sem_of (view w) ≢ some p → view (after os w (os.remove w p)) ≡ view w
  private_after w p other = go (os.remove w p) refl
    where
      go : (o : Option W) → os.remove w p ≡ o → view (after os w o) ≡ view w
      go none e = refl
      go (some w') e = laws.private_remove w w' p other e

  -- The probe leaves the semaphore of the key alone, and does not tell that the time is set if it is not.
  does_semctl_set_otime_lem :
      (w : W)
      → (view (does_semctl_set_otime os w).1 ≡ view w)
        × ((does_semctl_set_otime os w).0 ≡ some true → sets_otime ≡ true)
  unfolding does_semctl_set_otime
  does_semctl_set_otime_lem w = elim (Option-cases (os.semget_private w)) [
    | inl e ↦ rw (e, does_semctl_set_otime) (refl, λ h. cc (h))
    | inr ((p, w1), e) ↦
        let (same1, other) = laws.private_new w w1 p e in
        elim (Option-cases (os.setval w1 p 1)) [
          | inl failing ↦
              rw (e, failing, does_semctl_set_otime) (private_after w1 p other ∙ same1, λ h. cc (h))
          | inr (w2, done_set) ↦
              let (same2, tells) = laws.private_set w1 w2 p other done_set in
              rw (e, done_set, does_semctl_set_otime)
                (
                  private_after w2 p (λ h. other (ap sem_of (sym same2) ∙ h)) ∙ same2 ∙ same1,
                  λ h. probed (os.sem_otime w2 p) tells (cc (h)),
                )
        ]
  ]
    where
      probed :
          (o : Option ℕ)
          → ((t : ℕ) → o ≡ some t → ltb 0 t ≡ sets_otime)
          → otime_is_set os o ≡ true
          → sets_otime ≡ true
      probed none tells h = cc (h)
      probed (some t) tells h = sym (tells t refl) ∙ h

  new_spec :
      (w : W) (m : Made)
      → (os.semget_new w key).0 ≡ m
      → NewSpec (view w) m (view (os.semget_new w key).1)
  new_spec w m e = subst (λ r. NewSpec (view w) r (view (os.semget_new w key).1)) e (laws.new w)

  create_known_made :
      (hack : Bool) (w : W) (val s : ℕ)
      → HackOk sets_otime (some hack)
      → (os.semget_new w key).0 ≡ made s
      → CreateSpec
          (view w)
          val
          (create_known os hack w key val).0
          (view (create_known os hack w key val).1)
  unfolding create_known
  create_known_made true w val s known e =
      let (nothing, (x, here)) = new_spec w (made s) e in
      let (w2, valued, view2) = laws.setval_own (os.semget_new w key).1 s x (val + 1) false here in
      let (w3, down, view3) = laws.down_own w2 s val (false || sets_otime) false view2 in
      rw (e, valued, down, create_known) (nothing, view3)
  create_known_made false w val s known e =
      let (nothing, (x, here)) = new_spec w (made s) e in
      let (w2, valued, view2) = laws.setval_own (os.semget_new w key).1 s x val false here in
      rw (e, valued, create_known) (nothing, view2 ∙ ap (present s val) known)

  create_known_lem :
      (hack : Bool) (w : W) (val : ℕ)
      → HackOk sets_otime (some hack)
      → CreateSpec
          (view w)
          val
          (create_known os hack w key val).0
          (view (create_known os hack w key val).1)
  unfolding create_known
  create_known_lem hack w val known = go (os.semget_new w key).0 refl
    where
      go :
          (m : Made)
          → (os.semget_new w key).0 ≡ m
          → CreateSpec
              (view w)
              val
              (create_known os hack w key val).0
              (view (create_known os hack w key val).1)
      go exists_already e = rw (e, create_known) (new_spec w exists_already e)
      go make_failed e = rw (e, create_known) (new_spec w make_failed e)
      go (made s) e = create_known_made hack w val s known e

  -- So does `csem_create`, whether the process knows the platform or not, and what it knows stays right.
  pub csem_create_lem :
      (hack : Option Bool) (w : W) (val : ℕ)
      → HackOk sets_otime hack
      → CreateSpec
          (view w)
          val
          (csem_create os hack w key val).0
          (view (csem_create os hack w key val).2)
        × HackOk sets_otime (csem_create os hack w key val).1
  unfolding csem_create
  csem_create_lem (some hack) w val known = (create_known_lem hack w val known, known)
  csem_create_lem none w val known = go (does_semctl_set_otime os w).0 refl
    where
      same : view (does_semctl_set_otime os w).1 ≡ view w
      same = (does_semctl_set_otime_lem w).0

      told :
          (sets : Bool)
          → (does_semctl_set_otime os w).0 ≡ some sets
          → HackOk sets_otime (some (not sets))
      told true e = (does_semctl_set_otime_lem w).1 e
      told false e = tt

      go :
          (o : Option Bool)
          → (does_semctl_set_otime os w).0 ≡ o
          → CreateSpec
              (view w)
              val
              (csem_create os none w key val).0
              (view (csem_create os none w key val).2)
            × HackOk sets_otime (csem_create os none w key val).1
      go none e = rw (e, csem_create) (same, tt)
      go (some sets) e =
          rw (e, csem_create)
            (
              subst
                  (λ v.
                    CreateSpec v val
                      (create_known os (not sets) (does_semctl_set_otime os w).1 key val).0
                      (view (create_known os (not sets) (does_semctl_set_otime os w).1 key val).1))
                  same
                  (create_known_lem (not sets) (does_semctl_set_otime os w).1 val (told sets e)),
              told sets e,
            )
