-- ===== src/Locks/Held.antt =====
-- Whether a lock of core/ipc_lock.c is held after a call, whatever the system does.
use mosys.Common.{
  ℕ, ◌≡◌, refl, ◌∙◌, Bool, true, false, Option, none, some, Option-cases, Rc, ok, failed, inl, inr,
}
use mosys.Locks.{Wait, down_done, down_failed, down_waits, Semaphores, csem_get_or_create}
use mosys.Locks.Ipc.{
  IpcLock, Taken, acquired, was_held, not_acquired, still_waiting, timeout_of, lock_init, take_lock,
  lock_if_free, lock_after_init, unlock_if_held, mosys_lock, mosys_unlock,
}

-- A lock that was not held is held exactly if it is acquired.
abbrev pub HeldAs : Taken → Bool → Type 0
HeldAs acquired is_held = is_held ≡ true
HeldAs was_held is_held = ⊥
HeldAs not_acquired is_held = is_held ≡ false
HeldAs still_waiting is_held = is_held ≡ false

module _ {W : Type 0} (os : Semaphores W) where
  lock_init-is_held : (l : IpcLock) (w : W) → (lock_init os l w).1.is_held ≡ l.is_held
  unfolding lock_init
  lock_init-is_held l w = elim (Option-cases l.sem) [
    | inr (s, e) ↦ rw (lock_init, e) refl
    | inl e ↦ elim (Option-cases (csem_get_or_create os l.need_otime_hack w l.key 1).0) [
      | inl nothing ↦ rw (lock_init, e, nothing) refl
      | inr (s, found) ↦ rw (lock_init, e, found) refl
    ]
  ]

  pub mosys_lock-HeldAs :
      (l : IpcLock) (w : W) (timeout : Option ℕ)
      → l.is_held ≡ false
      → HeldAs (mosys_lock os l w timeout).0 (mosys_lock os l w timeout).1.is_held
  unfolding mosys_lock take_lock
  mosys_lock-HeldAs l w timeout idle = go (lock_init os l w) (lock_init-is_held l w ∙ idle)
    where
      taken :
          (l' : IpcLock) (w' : W) (s : ℕ)
          → l'.is_held ≡ false
          → HeldAs (take_lock os l' w' s timeout).0 (take_lock os l' w' s timeout).1.is_held
      taken l' w' s idle' = go (os.semtimedop w' s (timeout_of timeout) true) refl
        where
          go :
              (t : Wait W)
              → os.semtimedop w' s (timeout_of timeout) true ≡ t
              → HeldAs (take_lock os l' w' s timeout).0 (take_lock os l' w' s timeout).1.is_held
          go (down_done w'') e = rw (take_lock, e) refl
          go down_failed e = rw (take_lock, e) idle'
          go down_waits e = rw (take_lock, e) idle'

      free :
          (l' : IpcLock) (w' : W) (b : Bool) (o : Option ℕ)
          → l'.is_held ≡ b
          → b ≡ false
          → HeldAs
              (lock_if_free os l' w' b o timeout).0
              (lock_if_free os l' w' b o timeout).1.is_held
      free l' w' true o e idle' = absurd (cc (idle'))
      free l' w' false none e idle' = e
      free l' w' false (some s) e idle' = taken l' w' s e

      go :
          (t : Rc × IpcLock × W)
          → t.1.is_held ≡ false
          → HeldAs (lock_after_init os t timeout).0 (lock_after_init os t timeout).1.is_held
      go (failed, l', w') idle' = idle'
      go (ok, l', w') idle' = free l' w' l'.is_held l'.sem refl idle'

  pub mosys_unlock-is_held : (l : IpcLock) (w : W) → (mosys_unlock os l w).1.is_held ≡ false
  unfolding mosys_unlock
  mosys_unlock-is_held l w = go l.is_held l.sem refl
    where
      go : (b : Bool) (o : Option ℕ) → l.is_held ≡ b → (unlock_if_held os l w b o).1.is_held ≡ false
      go false o e = e
      go true none e = refl
      go true (some s) e = refl
