-- ===== src/Locks/Settle.antt =====
-- What `csem_get_or_create` of core/csem.c makes of the semaphore of a key.
use mosys.Common.{
  ℕ, suc, ◌≡◌, ◌≢◌, refl, ap, ◌∙◌, subst, Bool, true, Option, none, some, ◌⊎◌, inl, inr,
}
use mosys.Locks.{
  Semaphores, Made, made, exists_already, make_failed, csem_create, otime_loop, csem_get,
  csem_get_or_create,
}
use mosys.Locks.Laws.{View, absent, present, sem_of, SemLaws}
use mosys.Locks.Create.{HackOk, CreateSpec, csem_create_lem}

module _ {W : Type 0} (os : Semaphores W) (key : ℕ) (laws : SemLaws os key) where
  open laws use {view, sets_otime}

  otime_loop_ready :
      (n : ℕ) (w : W) (s v : ℕ)
      → view w ≡ present s v true
      → otime_loop os (suc n) w s ≡ (some s, w)
  unfolding otime_loop
  otime_loop_ready n w s v here =
      let (t, told, set) = laws.otime w s v true here in rw (otime_loop, told, set) refl

  -- A semaphore that is ready is found at once.
  csem_get_lem : (w : W) (s v : ℕ) → view w ≡ present s v true → csem_get os w key ≡ (some s, w)
  unfolding csem_get
  csem_get_lem w s v here = rw (csem_get, laws.shared_key, laws.get w, here) (waited 999)
    where
      waited : (n : ℕ) → otime_loop os (suc n) w s ≡ (some s, w)
      waited n = otime_loop_ready n w s v here

  abbrev pub IsReady : View → Type 0
  IsReady absent = Unit
  IsReady (present s v r) = r ≡ true

  -- The semaphore that is found, or made with the value `val`.
  abbrev pub Settled : View → ℕ → Option ℕ → View → Type 0
  Settled v val none v' = v' ≡ v
  Settled v val (some s) v' =
      ((v' ≡ v) × (sem_of v ≡ some s)) ⊎ ((v ≡ absent) × (v' ≡ present s val true))

  as_found : (v : View) (val : ℕ) (v' : View) → v ≢ absent → v' ≡ v → Settled v val (sem_of v) v'
  as_found absent val v' some_there same = absurd (some_there refl)
  as_found (present s x r) val v' some_there same = inl (same, refl)

  -- `csem_get_or_create` finds the semaphore of the key as it is, or makes it with the given value, or
  -- fails and changes nothing.
  pub csem_get_or_create-Settled :
      (hack : Option Bool) (w : W) (val : ℕ)
      → HackOk sets_otime hack
      → IsReady (view w)
      → Settled
          (view w)
          val
          (csem_get_or_create os hack w key val).0
          (view (csem_get_or_create os hack w key val).2)
        × HackOk sets_otime (csem_get_or_create os hack w key val).1
  unfolding csem_get_or_create
  csem_get_or_create-Settled hack w val known ready = go (csem_create os hack w key val).0 refl
    where
      created :
          CreateSpec
            (view w)
            val
            (csem_create os hack w key val).0
            (view (csem_create os hack w key val).2)
          × HackOk sets_otime (csem_create os hack w key val).1
      created = csem_create_lem os key laws hack w val known

      spec :
          (m : Made)
          → (csem_create os hack w key val).0 ≡ m
          → CreateSpec (view w) val m (view (csem_create os hack w key val).2)
      spec m e =
          subst (λ r. CreateSpec (view w) val r (view (csem_create os hack w key val).2)) e
            created.0

      found :
          (v : View)
          → view w ≡ v
          → v ≢ absent
          → IsReady v
          → view (csem_create os hack w key val).2 ≡ v
          → csem_get os (csem_create os hack w key val).2 key
            ≡ (sem_of v, (csem_create os hack w key val).2)
      found absent e some_there is_ready same = absurd (some_there refl)
      found (present s x r) e some_there is_ready same =
          csem_get_lem (csem_create os hack w key val).2 s x (same ∙ ap (present s x) is_ready)

      go :
          (m : Made)
          → (csem_create os hack w key val).0 ≡ m
          → Settled
              (view w)
              val
              (csem_get_or_create os hack w key val).0
              (view (csem_get_or_create os hack w key val).2)
            × HackOk sets_otime (csem_get_or_create os hack w key val).1
      go (made s) e = rw (e, csem_get_or_create) (inr (spec (made s) e), created.1)
      go make_failed e = rw (e, csem_get_or_create) (spec make_failed e, created.1)
      go exists_already e =
          let (same, some_there) = spec exists_already e in
          rw (e, csem_get_or_create, found (view w) refl some_there ready same)
            (as_found (view w) val _ some_there same, created.1)
