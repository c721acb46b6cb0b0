-- ===== src/Locks/Ipc.antt =====
-- core/ipc_lock.c: locks between processes, with core/big_lock.c and drivers/google/cros_ec_lock.c, the
-- two locks that the program has.
use mosys.Common.{ℕ, ◌+◌, ◌*◌, ◌/◌, ◌%◌, Bool, true, false, Option, none, some, Rc, ok, failed}
use mosys.Locks.{
  Semaphores, down_done, down_failed, down_waits, after, csem_get_or_create, csem_down_timeout_undo,
  csem_up_undo,
}

-- `struct ipc_lock`; `sem` is `none` below 0. The static `need_otime_hack` of csem.c is kept with the
-- lock: two locks of one process have it twice, and each finds it out by itself.
pub record IpcLock : Type 0 where
  pub key : ℕ
  pub sem : Option ℕ
  pub is_held : Bool
  pub need_otime_hack : Option Bool

-- 0, above 0 and below 0; or the call waits, and has not returned.
pub data Taken : Type 0 where
  acquired : Taken
  was_held : Taken
  not_acquired : Taken
  still_waiting : Taken

abbrev pub msecs_to_timespec : ℕ → ℕ × ℕ
msecs_to_timespec msecs = (msecs / 1000, msecs % 1000 * 1000 * 1000)

-- A timeout below 0 is `none`.
abbrev pub timeout_of : Option ℕ → Option (ℕ × ℕ)
timeout_of none = none
timeout_of (some msecs) = some (msecs_to_timespec msecs)

module _ {W : Type 0} (os : Semaphores W) where
  unfoldable pub lock_init : IpcLock → W → Rc × IpcLock × W
  lock_init lock w = elim lock.sem [
    | some sem ↦ (ok, lock, w)
    | none ↦
        let (found, hack, w') = csem_get_or_create os lock.need_otime_hack w lock.key 1 in
        elim found [
          | none ↦ (failed, record lock { need_otime_hack = hack }, w')
          | some sem ↦ (ok, record lock { sem = some sem; need_otime_hack = hack }, w')
        ]
  ]

  -- The wait for the semaphore of an initialised lock that is not held.
  unfoldable pub take_lock : IpcLock → W → ℕ → Option ℕ → Taken × IpcLock × W
  take_lock lock w sem timeout_msecs =
      elim (csem_down_timeout_undo os w sem (timeout_of timeout_msecs)) [
        | down_done w' ↦ (acquired, record lock { is_held = true }, w')
        | down_failed ↦ (not_acquired, lock, w)
        | down_waits ↦ (still_waiting, lock, w)
      ]

  -- `mosys_lock` on an initialised lock, with its fields `is_held` and `sem`.
  abbrev pub lock_if_free : IpcLock → W → Bool → Option ℕ → Option ℕ → Taken × IpcLock × W
  lock_if_free lock w true sem timeout_msecs = (was_held, lock, w)
  lock_if_free lock w false none timeout_msecs = (not_acquired, lock, w)
  lock_if_free lock w false (some sem) timeout_msecs = take_lock lock w sem timeout_msecs

  abbrev pub lock_after_init : Rc × IpcLock × W → Option ℕ → Taken × IpcLock × W
  lock_after_init (failed, lock, w) timeout_msecs = (not_acquired, lock, w)
  lock_after_init (ok, lock, w) timeout_msecs =
      lock_if_free lock w lock.is_held lock.sem timeout_msecs

  unfoldable pub mosys_lock : IpcLock → W → Option ℕ → Taken × IpcLock × W
  mosys_lock lock w timeout_msecs = lock_after_init (lock_init lock w) timeout_msecs

  -- `mosys_unlock` with the fields `is_held` and `sem`; the result of the system call is not looked at.
  abbrev pub unlock_if_held : IpcLock → W → Bool → Option ℕ → Rc × IpcLock × W
  unlock_if_held lock w false sem = (failed, lock, w)
  unlock_if_held lock w true none = (ok, record lock { is_held = false }, w)
  unlock_if_held lock w true (some sem) =
      (ok, record lock { is_held = false }, after os w (csem_up_undo os w sem))

  unfoldable pub mosys_unlock : IpcLock → W → Rc × IpcLock × W
  mosys_unlock lock w = unlock_if_held lock w lock.is_held lock.sem

abbrev pub mosys_ipc_lock_key : ℕ
mosys_ipc_lock_key = 0x67736c00

-- SYSV_IPC_LOCK_INIT.
abbrev pub sysv_ipc_lock : ℕ → IpcLock
sysv_ipc_lock key = record { key = key; sem = none; is_held = false; need_otime_hack = none }

abbrev pub mosys_big_lock : IpcLock
mosys_big_lock = sysv_ipc_lock mosys_ipc_lock_key

abbrev pub mosys_big_lock_prepare_test : IpcLock → IpcLock
mosys_big_lock_prepare_test lock = record lock { key = 0xffffffff }

abbrev pub cros_ec_lock : IpcLock
cros_ec_lock = sysv_ipc_lock (mosys_ipc_lock_key + 1)

-- The timeouts are in seconds.
module _ {W : Type 0} (os : Semaphores W) where
  abbrev pub mosys_acquire_big_lock : IpcLock → W → ℕ → Taken × IpcLock × W
  mosys_acquire_big_lock lock w timeout_secs = mosys_lock os lock w (some (timeout_secs * 1000))

  abbrev pub mosys_release_big_lock : IpcLock → W → Rc × IpcLock × W
  mosys_release_big_lock lock w = mosys_unlock os lock w

  abbrev pub acquire_cros_ec_lock : IpcLock → W → ℕ → Taken × IpcLock × W
  acquire_cros_ec_lock lock w timeout_secs = mosys_lock os lock w (some (timeout_secs * 1000))

  abbrev pub release_cros_ec_lock : IpcLock → W → Rc × IpcLock × W
  release_cros_ec_lock lock w = mosys_unlock os lock w
