-- ===== src/Locks/Tests.antt =====
-- A system with at most one semaphore of the key, and runs of two processes on it.
use mosys.Common.{
  ℕ, ◌+◌, ◌-◌, ◌≤◌, ◌≡◌, ◌≢◌, refl, ap, sym, Bool-cases, ==_iff, subst, ◌∙◌, Bool, true, false,
  ◌||◌, Option, none, some, ltb, if◌then◌else◌, [], ◌∷◌, ◌==◌, arith, inl, inr, ok,
}
use mosys.Locks.{
  Wait, down_done, down_failed, down_waits, Semaphores, Made, made, exists_already,
  csem_get_or_create, csem_create, csem_get, otime_loop, does_semctl_set_otime, create_known,
}
use mosys.Locks.Laws.{View, absent, present, sem_of, NewSpec, SemLaws}
use mosys.Locks.Ipc.{
  IpcLock, acquired, not_acquired, mosys_big_lock, mosys_lock, mosys_unlock, lock_init, take_lock,
  mosys_acquire_big_lock,
}
use mosys.Locks.Exclusion.{Processes, Reach, begun, later, locks_it, holders, mutual_exclusion}
use mosys.Locks.Handoff.{mosys_lock-result, handoff}

-- The semaphore of the key, number 7; the private one is number 9, and SETVAL does not set the time.
abbrev One : Type 0
One = Option (ℕ × Bool)

abbrev one_view : One → View
one_view none = absent
one_view (some (value, ready)) = present 7 value ready

abbrev one_new : One → Made × One
one_new none = (made 7, some (0, false))
one_new (some s) = (exists_already, some s)

abbrev one_setval : One → ℕ → ℕ → Option One
one_setval none s x = some none
one_setval (some (v, r)) s x = if s == 7 then some (some (x, r || false)) else some (some (v, r))

abbrev one_otime : One → ℕ → Option ℕ
one_otime none s = some 0
one_otime (some (v, r)) s = some (if s == 7 then (if r then 1 else 0) else 0)

abbrev one_semop : One → ℕ → Bool → Option One
one_semop none s up = none
one_semop (some (v, r)) s true = some (some (v + 1, true))
one_semop (some (v, r)) s false = if ltb 0 v then some (some (v - 1, true)) else none

abbrev wait_of : Option (ℕ × ℕ) → Option One → Wait One
wait_of t (some w) = down_done w
wait_of (some t) none = down_failed
wait_of none none = down_waits

abbrev one_system : Semaphores One
one_system = record {
  semget_private = λ w. some (9, w);
  semget_new = λ w key. let (m, w') = one_new w in (m, w');
  semget = λ w key. sem_of (one_view w);
  setval = one_setval;
  getval = λ w s. none;
  sem_otime = one_otime;
  remove = λ w s. some w;
  semop = λ w s up undo. one_semop w s up;
  semtimedop = λ w s t undo. wait_of t (one_semop w s false);
  sched_yield = λ w. w;
}

seen : (w : One) (s v : ℕ) (r : Bool) → one_view w ≡ present s v r → (w ≡ some (v, r)) × (s ≡ 7)
seen none s v r e = absurd (cc (e))
seen (some (v', r')) s v r e = (cc (e), cc (e))

one_down :
    (w : One) (s v : ℕ) (r : Bool)
    → one_view w ≡ present s (v + 1) r
    → (w' : One) × (one_semop w s false ≡ some w') × (one_view w' ≡ present s v true)
one_down w s v r e = let (a, b) = seen w s (v + 1) r e in rw (a, b) (some (v, true), down v, refl)
  where
    down : (v : ℕ) → one_semop (some (v + 1, r)) 7 false ≡ some (some (v, true))
    down v = ground arith

one_none : (w : One) (s : ℕ) (r : Bool) → one_view w ≡ present s 0 r → one_semop w s false ≡ none
one_none w s r e = subst (λ x. one_semop x s false ≡ none) (sym (seen w s 0 r e).0) refl

other_id : (w : One) → sem_of (one_view w) ≢ some 9
other_id none e = cc (e)
other_id (some (v, r)) e = absurd (cc (e))

one_private_new :
    (w w' : One) (p : ℕ)
    → ◌≡◌ {A = Option (ℕ × One)} (some (9, w)) (some (p, w'))
    → (one_view w' ≡ one_view w) × (sem_of (one_view w') ≢ some p)
one_private_new w w' p e = (ap one_view (cc (e)), λ h. other_id w' (h ∙ ap some (cc (e))))

not_seven : (p : ℕ) → some 7 ≢ some p → (p == 7) ≡ false
not_seven p other = elim (Bool-cases (p == 7)) [
  | inl same ↦ absurd (other (ap some (sym ((==_iff p 7).0 same))))
  | inr differs ↦ differs
]

one_private_same :
    (w : One) (p : ℕ)
    → sem_of (one_view w) ≢ some p
    → (one_setval w p 1 ≡ some w) × (one_otime w p ≡ some 0)
one_private_same none p other = (refl, refl)
one_private_same (some (v, r)) p other = let e = not_seven p other in (rw (e) refl, rw (e) refl)

one_private_set :
    (w w' : One) (p : ℕ)
    → sem_of (one_view w) ≢ some p
    → one_setval w p 1 ≡ some w'
    → (one_view w' ≡ one_view w) × ((t : ℕ) → one_otime w' p ≡ some t → ltb 0 t ≡ false)
one_private_set w w' p other e = (ap one_view same, λ t at. no_time t (sym told ∙ at))
  where
    same : w' ≡ w
    same = cc (e, (one_private_same w p other).0)

    told : one_otime w' p ≡ some 0
    told = ap (λ x. one_otime x p) same ∙ (one_private_same w p other).1

    no_time : (t : ℕ) → ◌≡◌ {A = Option ℕ} (some 0) (some t) → ltb 0 t ≡ false
    no_time t e = ground arith

one_laws : (key : ℕ) → (key == 0) ≡ false → SemLaws one_system key
one_laws key shared = record {
  view = one_view;
  sets_otime = false;
  shared_key = shared;
  get = λ w. refl;
  new = new;
  otime = λ w s v r e. let (a, b) = seen w s v r e in rw (a, b) (time r);
  setval_own =
      λ w s v x r e. let (a, b) = seen w s v r e in rw (a, b) (some (x, r || false), refl, refl);
  up_own =
      λ w s v r undo e. let (a, b) = seen w s v r e in rw (a, b) (some (v + 1, true), refl, refl);
  down_own = λ w s v r undo e. one_down w s v r e;
  timed_own = λ w s v r undo t e.
      let (w', down, there) = one_down w s v r e in (w', ap (wait_of t) down, there);
  timed_zero = λ w s r undo t e. ap (wait_of (some t)) (one_none w s r e);
  wait_zero = λ w s r undo e. ap (wait_of none) (one_none w s r e);
  private_new = one_private_new;
  private_set = one_private_set;
  private_remove = λ w w' p other e. cc (e);
}
  where
    new : (w : One) → NewSpec (one_view w) (one_new w).0 (one_view (one_new w).1)
    new none = (refl, (0, refl))
    new (some (v, r)) = (refl, λ h. cc (h))

    time : (r : Bool) → (t : ℕ) × (some (if r then 1 else 0) ≡ some t) × (ltb 0 t ≡ r)
    time true = (1, refl, refl)
    time false = (0, refl, refl)

abbrev first_lock : IpcLock
first_lock = record { key = 0x67736c00; sem = some 7; is_held = true; need_otime_hack = some true }

abbrev second_lock : IpcLock
second_lock = record {
  key = 0x67736c00;
  sem = some 7;
  is_held = false;
  need_otime_hack = some true;
}

-- One process makes the semaphore and takes the lock.
first_locks :
    mosys_acquire_big_lock one_system mosys_big_lock none 5 ≡ (acquired, first_lock, some (0, true))
unfolding mosys_lock lock_init csem_get_or_create csem_create does_semctl_set_otime create_known
    take_lock
first_locks = refl

-- The other finds the semaphore, and is refused.
second_waits :
    mosys_acquire_big_lock one_system mosys_big_lock (some (0, true)) 5
    ≡ (not_acquired, second_lock, some (0, true))
unfolding mosys_lock lock_init csem_get_or_create csem_create csem_get otime_loop
    does_semctl_set_otime create_known take_lock
second_waits = refl

abbrev contended : Processes One
contended = record { world = some (0, true); locks = first_lock ∷ second_lock ∷ [] }

contended_lem : Reach one_system 0x67736c00 none contended
unfolding mosys_lock lock_init csem_get_or_create csem_create csem_get otime_loop
    does_semctl_set_otime create_known take_lock
contended_lem =
    later (later (begun 2) (locks_it [] mosys_big_lock (mosys_big_lock ∷ []) none (some 5000)))
      (locks_it (first_lock ∷ []) mosys_big_lock [] (some (0, true)) (some 5000))

mutual_exclusion_example : holders contended.locks ≤ 1
unfolding one_laws
mutual_exclusion_example =
    mutual_exclusion one_system 0x67736c00 (one_laws 0x67736c00 refl) {s = contended} (inl refl)
      contended_lem

mosys_lock-result_example :
    (mosys_lock one_system second_lock (some (0, true)) (some 100)).0 ≡ not_acquired
unfolding one_laws
mosys_lock-result_example =
    mosys_lock-result one_system 0x67736c00 (one_laws 0x67736c00 refl) (first_lock ∷ []) []
      second_lock (some (0, true)) 7 (some 100) (inl refl) contended_lem refl

handoff_example :
    ((mosys_unlock one_system first_lock (some (0, true))).0 ≡ ok)
    × ((mosys_lock one_system second_lock
          (mosys_unlock one_system first_lock (some (0, true))).2
          none).0
        ≡ acquired)
unfolding mosys_unlock one_laws
handoff_example =
    handoff one_system 0x67736c00 (one_laws 0x67736c00 refl) [] (second_lock ∷ []) first_lock
      (some (0, true)) (record first_lock { is_held = false } ∷ []) [] second_lock 7 none (inl refl)
      contended_lem refl refl refl
