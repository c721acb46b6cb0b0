-- ===== src/CrosEc/Release.antt =====
-- The lock of the EC around a command, in cros_ec_command_lpc of drivers/google/cros_ec_lpc.c.
use mosys.Common.{
  ℕ, ◌*◌, ◌≡◌, ◌↔◌, refl, ap, ◌∙◌, subst, true, false, ◌||◌, Option, none, some, ltb, Bool-cases,
  inl, inr, List, length,
}
use mosys.Locks.{Semaphores}
use mosys.Locks.Ipc.{
  IpcLock, Taken, acquired, was_held, not_acquired, still_waiting, acquire_cros_ec_lock,
}
use mosys.Locks.Held.{HeldAs, mosys_lock-HeldAs, mosys_unlock-is_held}
use mosys.CrosEc.{Ports, EcRc}
use mosys.CrosEc.Command.{
  Raw, EcState, cros_ec_command_lpc_detect, run_raw, run_detected, run_locked, cros_ec_command_lpc,
}

module _ {W : Type 0} (os : Semaphores W) (io : Ports W) where
  -- The buffers are small enough, the lock is acquired, and then the detection fails.
  pub record IsUndetected (s : EcState W) (insize : ℕ) (outdata : List ℕ) : Type 0 where
    pub small : (ltb 0xfc insize || ltb 0xfc (length outdata)) ≡ false
    pub lock : IpcLock
    pub locked : W
    pub missed : W
    pub takes : acquire_cros_ec_lock os s.lock s.world 30 ≡ (acquired, lock, locked)
    pub misses : cros_ec_command_lpc_detect io s.raw locked ≡ (none, missed)

  module _ (device_index command command_version insize : ℕ) (outdata : List ℕ) where
    -- After the detection, the lock is held exactly if it failed.
    run_detected-is_held :
        (t : Option Raw × W) (l : IpcLock)
        → l.is_held ≡ true
        → (run_detected os io t l device_index command command_version insize
            outdata).2.lock.is_held
          ≡ true
        → (w : W) × (t ≡ (none, w))
    run_detected-is_held (none, w) l held h = (w, refl)
    run_detected-is_held (some raw, w) l held h = absurd (
        cc (
          h,
          mosys_unlock-is_held os l
              (run_raw io raw w device_index command command_version insize outdata).2,
        ))

    -- A process that does not hold the lock of the EC holds it after a command exactly if the buffers are
    -- small enough, the lock was acquired, and then the EC was not detected: otherwise it is released.
    pub cros_ec_command_lpc-IsUndetected :
        (s : EcState W)
        → s.lock.is_held ≡ false
        → ((cros_ec_command_lpc os io s
              (some device_index)
              command
              command_version
              insize
              outdata).2.lock.is_held
            ≡ true)
          ↔ IsUndetected s insize outdata
    unfolding cros_ec_command_lpc
    cros_ec_command_lpc-IsUndetected s idle = (forth, back)
      where
        acquire_lem :
            (t : Taken × IpcLock × W)
            → acquire_cros_ec_lock os s.lock s.world 30 ≡ t
            → HeldAs t.0 t.1.is_held
            → (ltb 0xfc insize || ltb 0xfc (length outdata)) ≡ false
            → (run_locked os io t s.raw device_index command command_version insize
                outdata).2.lock.is_held
              ≡ true
            → IsUndetected s insize outdata
        acquire_lem (not_acquired, l, w) e held small h = absurd (cc (held, h))
        acquire_lem (still_waiting, l, w) e held small h = absurd (cc (held, h))
        acquire_lem (was_held, l, w) e held small h = absurd held
        acquire_lem (acquired, l, w) e held small h =
            let (missed, misses) =
              run_detected-is_held (cros_ec_command_lpc_detect io s.raw w) l held h in
            record {
              small = small;
              lock = l;
              locked = w;
              missed = missed;
              takes = e;
              misses = misses;
            }

        forth :
            (cros_ec_command_lpc os io s
                (some device_index)
                command
                command_version
                insize
                outdata).2.lock.is_held
              ≡ true
            → IsUndetected s insize outdata
        forth h = elim (Bool-cases (ltb 0xfc insize || ltb 0xfc (length outdata))) [
          | inl big ↦ absurd (cc (idle, rw big at h))
          | inr small ↦
              acquire_lem _ refl (mosys_lock-HeldAs os s.lock s.world (some (30 * 1000)) idle) small
                (rw small at h)
        ]

        back :
            IsUndetected s insize outdata
            → (cros_ec_command_lpc os io s
                (some device_index)
                command
                command_version
                insize
                outdata).2.lock.is_held
              ≡ true
        back u = rw (u.small) (
            ap (λ (t : EcRc × List ℕ × EcState W). t.2.lock.is_held)
              (ap
                  (λ t.
                    run_locked os io t s.raw device_index command command_version insize outdata)
                  u.takes
                ∙ ap
                    (λ t.
                      run_detected os io t u.lock device_index command command_version insize
                        outdata)
                    u.misses)
            ∙ subst (λ t. HeldAs t.0 t.1.is_held) u.takes
                (mosys_lock-HeldAs os s.lock s.world (some (30 * 1000)) idle))
