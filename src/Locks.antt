-- ===== src/Locks.antt =====
-- core/csem.c: counting semaphores on those of System V. The state of the system is passed along; the
-- static `need_otime_hack` of a process is `none` until it is known.
pub mod Laws
pub mod Create
pub mod Settle
pub mod Ipc
pub mod Keep
pub mod Calls
pub mod Exclusion
pub mod Handoff
pub mod Held
mod Tests
use mosys.Common.{
  ℕ, zero, suc, ◌+◌, Bool, true, false, not, Option, none, some, ltb, ◌==◌, if◌then◌else◌,
}

-- What `semget` with IPC_CREAT and IPC_EXCL gives: the new semaphore, EEXIST, or another error.
pub data Made : Type 0 where
  made : ℕ → Made
  exists_already : Made
  make_failed : Made

-- A wait of `semtimedop`: it lowers the semaphore, or fails, or does not return as things stand.
pub data Wait (W : Type 0) : Type 0 where
  down_done : W → Wait W
  down_failed : Wait W
  down_waits : Wait W

-- The system calls on a set of one semaphore; a call that fails gives `none`. `setval` and `semop` take
-- the semaphore; `semop` then takes whether it is up, and whether SEM_UNDO is set. A wait of
-- `semtimedop` without a timeout lasts until somebody raises the semaphore.
pub record Semaphores (W : Type 0) : Type 0 where
  pub semget_private : W → Option (ℕ × W)
  pub semget_new : W → ℕ → Made × W
  pub semget : W → ℕ → Option ℕ
  pub setval : W → ℕ → ℕ → Option W
  pub getval : W → ℕ → Option ℕ
  pub sem_otime : W → ℕ → Option ℕ
  pub remove : W → ℕ → Option W
  pub semop : W → ℕ → Bool → Bool → Option W
  pub semtimedop : W → ℕ → Option (ℕ × ℕ) → Bool → Wait W
  pub sched_yield : W → W

module _ {W : Type 0} (os : Semaphores W) where
  -- The system after a call whose result is not looked at.
  abbrev pub after : W → Option W → W
  after w none = w
  after w (some w') = w'

  abbrev pub csem_destroy : W → ℕ → Option W
  csem_destroy w sem_id = os.remove w sem_id

  abbrev pub csem_getval : W → ℕ → Option ℕ
  csem_getval w sem_id = os.getval w sem_id

  abbrev pub csem_setval : W → ℕ → ℕ → Option W
  csem_setval w sem_id val = os.setval w sem_id val

  abbrev pub csem_get_otime : W → ℕ → Option ℕ
  csem_get_otime w sem_id = os.sem_otime w sem_id

  abbrev pub csem_up_undoflag : W → ℕ → Bool → Option W
  csem_up_undoflag w sem_id undo = os.semop w sem_id true undo

  abbrev pub csem_up : W → ℕ → Option W
  csem_up w sem_id = csem_up_undoflag w sem_id false

  abbrev pub csem_up_undo : W → ℕ → Option W
  csem_up_undo w sem_id = csem_up_undoflag w sem_id true

  abbrev pub csem_down_undoflag : W → ℕ → Bool → Option W
  csem_down_undoflag w sem_id undo = os.semop w sem_id false undo

  abbrev pub csem_down : W → ℕ → Option W
  csem_down w sem_id = csem_down_undoflag w sem_id false

  abbrev pub csem_down_undo : W → ℕ → Option W
  csem_down_undo w sem_id = csem_down_undoflag w sem_id true

  abbrev pub csem_down_timeout : W → ℕ → Option (ℕ × ℕ) → Wait W
  csem_down_timeout w sem_id timeout = os.semtimedop w sem_id timeout false

  abbrev pub csem_down_timeout_undo : W → ℕ → Option (ℕ × ℕ) → Wait W
  csem_down_timeout_undo w sem_id timeout = os.semtimedop w sem_id timeout true

  abbrev pub otime_is_set : Option ℕ → Bool
  otime_is_set none = false
  otime_is_set (some otime) = ltb 0 otime

  -- `none` is -1.
  unfoldable pub does_semctl_set_otime : W → Option Bool × W
  does_semctl_set_otime w = elim (os.semget_private w) [
    | none ↦ (none, w)
    | some (sem_id, w1) ↦ elim (csem_setval w1 sem_id 1) [
      | none ↦ (none, after w1 (csem_destroy w1 sem_id))
      | some w2 ↦
          (some (otime_is_set (csem_get_otime w2 sem_id)), after w2 (csem_destroy w2 sem_id))
    ]
  ]

  -- The semaphore is made and set to its value.
  unfoldable pub create_known : Bool → W → ℕ → ℕ → Made × W
  create_known need_otime_hack w key val =
      let (result, w1) = os.semget_new w key in
      elim result [
        | exists_already ↦ (exists_already, w1)
        | make_failed ↦ (make_failed, w1)
        | made sem_id ↦ elim (csem_setval w1 sem_id (if need_otime_hack then val + 1 else val)) [
          | none ↦ (make_failed, after w1 (csem_destroy w1 sem_id))
          | some w2 ↦ (made sem_id, if need_otime_hack then after w2 (csem_down w2 sem_id) else w2)
        ]
      ]

  -- What is known of the platform is kept.
  unfoldable pub csem_create : Option Bool → W → ℕ → ℕ → Made × Option Bool × W
  csem_create (some need_otime_hack) w key val =
      let (result, w') = create_known need_otime_hack w key val in
      (result, some need_otime_hack, w')
  csem_create none w key val =
      let (known, w1) = does_semctl_set_otime w in
      elim known [
        | none ↦ (make_failed, none, w1)
        | some sets ↦
            let (result, w') = create_known (not sets) w1 key val in (result, some (not sets), w')
      ]

  -- The rounds that are left of the wait for `sem_otime`.
  unfoldable pub otime_loop : ℕ → W → ℕ → Option ℕ × W
  otime_loop zero w sem_id = (none, w)
  otime_loop (suc rounds) w sem_id = elim (csem_get_otime w sem_id) [
    | none ↦ (none, w)
    | some otime ↦ elim (ltb 0 otime) [
      | true ↦ (some sem_id, w)
      | false ↦ otime_loop rounds (os.sched_yield w) sem_id
    ]
  ]

  abbrev pub max_otime_loops : ℕ
  max_otime_loops = 1000

  -- A key of 0 is CSEM_PRIVATE; `none` is -1.
  unfoldable pub csem_get : W → ℕ → Option ℕ × W
  csem_get w key = if key == 0 then (none, w) else elim (os.semget w key) [
    | none ↦ (none, w)
    | some sem_id ↦ otime_loop max_otime_loops w sem_id
  ]

  unfoldable pub csem_get_or_create : Option Bool → W → ℕ → ℕ → Option ℕ × Option Bool × W
  csem_get_or_create hack w key val =
      let (result, hack', w') = csem_create hack w key val in
      elim result [
        | made sem_id ↦ (some sem_id, hack', w')
        | make_failed ↦ (none, hack', w')
        | exists_already ↦ let (found, w'') = csem_get w' key in (found, hack', w'')
      ]
