-- ===== src/Locks/Calls.antt =====
-- `mosys_lock` and `mosys_unlock` of core/ipc_lock.c keep the locks of the processes right.
use mosys.Common.{
  ℕ, zero, suc, ◌+◌, ◌≡◌, refl, sym, ap, ◌∙◌, subst, Bool, true, false, Option, none, some,
  if◌then◌else◌, arith, Rc, ok, failed,
}
use mosys.Locks.{Semaphores, after}
use mosys.Locks.Laws.{View, absent, present, sem_of, SemLaws}
use mosys.Locks.Settle.{IsReady}
use mosys.Locks.Ipc.{
  IpcLock, Taken, not_acquired, still_waiting, msecs_to_timespec, timeout_of, lock_init, take_lock,
  lock_if_free, lock_after_init, unlock_if_held, mosys_lock, mosys_unlock,
}
use mosys.Locks.Keep.{holding, Fits, Balanced, LockOk, Kept, same-Kept, lock_init-Kept}

-- What `mosys_lock` gives while another process holds the lock.
abbrev pub without_lock : Option ℕ → Taken
without_lock (some msecs) = not_acquired
without_lock none = still_waiting

module _ {W : Type 0} (os : Semaphores W) (key : ℕ) (laws : SemLaws os key) where
  open laws use {view, sets_otime}

  trans-Kept :
      {v v' v'' : View} {l l' l'' : IpcLock}
      → Kept os key laws v l v' l'
      → Kept os key laws v' l' v'' l''
      → Kept os key laws v l v'' l''
  trans-Kept a b = record {
    lock_ok = b.lock_ok;
    ready = b.ready;
    others = λ m m_ok. b.others m (a.others m m_ok);
    balance = λ n h. b.balance n (a.balance n h);
  }

  -- One unit goes from the semaphore to the lock or back.
  moved-Kept :
      {v v' : View} {l : IpcLock} (held : Bool) (s x x' : ℕ) (r : Bool)
      → v ≡ present s x r
      → v' ≡ present s x' true
      → LockOk sets_otime key v l
      → l.sem ≡ some s
      → x' + (if held then 1 else 0) ≡ x + holding l
      → Kept os key laws v l v' (record l { is_held = held })
  moved-Kept {v} {v'} {l} held s x x' r was here l_ok mine moved = record {
    lock_ok = record { same_key = l_ok.same_key; known = l_ok.known; fits = rw (mine, here) refl };
    ready = rw (here) refl;
    others = λ m m_ok. record {
      same_key = m_ok.same_key;
      known = m_ok.known;
      fits = still m.sem m.is_held m_ok.fits;
    };
    balance = λ n b. rw (here) (balanced n (subst (λ y. Balanced y (holding l + n)) was b));
  }
    where
      still : (o : Option ℕ) (h : Bool) → Fits v o h → Fits v' o h
      still none h fits = fits
      still (some y) h fits = ap sem_of here ∙ sym (ap sem_of was) ∙ fits

      balanced : (n : ℕ) → x + (holding l + n) ≡ 1 → x' + ((if held then 1 else 0) + n) ≡ 1
      balanced n e = omega arith

  present_of :
      (w : W) (s : ℕ) → sem_of (view w) ≡ some s → (x : ℕ) × (r : Bool) × (view w ≡ present s x r)
  present_of w s e = go (view w) refl e
    where
      go :
          (v : View)
          → view w ≡ v
          → sem_of v ≡ some s
          → (x : ℕ) × (r : Bool) × (view w ≡ present s x r)
      go absent same h = absurd (cc (h))
      go (present y x r) same h = (x, r, same ∙ ap (λ k. present k x r) (grind (arith, h)))

  module _ (l : IpcLock) (w : W) (s : ℕ) (mine : l.sem ≡ some s) where
    pub here_of : LockOk sets_otime key (view w) l → (x : ℕ) × (r : Bool) × (view w ≡ present s x r)
    here_of l_ok = present_of w s (subst (λ o. Fits (view w) o l.is_held) mine l_ok.fits)

    -- At value 0 the call fails in the end, or waits.
    pub take_lock-zero :
        (r : Bool) (timeout : Option ℕ)
        → view w ≡ present s 0 r
        → take_lock os l w s timeout ≡ (without_lock timeout, l, w)
    unfolding take_lock
    take_lock-zero r (some msecs) here =
        rw (laws.timed_zero w s r true (msecs_to_timespec msecs) here, take_lock) refl
    take_lock-zero r none here = rw (laws.wait_zero w s r true here, take_lock) refl

    take_lock-Kept :
        (timeout : Option ℕ)
        → l.is_held ≡ false
        → IsReady os key laws (view w)
        → LockOk sets_otime key (view w) l
        → Kept os key laws
            (view w)
            l
            (view (take_lock os l w s timeout).2)
            (take_lock os l w s timeout).1
    unfolding take_lock
    take_lock-Kept timeout idle is_ready l_ok = let (x, r, here) = here_of l_ok in go x r here
      where
        go :
            (x : ℕ) (r : Bool)
            → view w ≡ present s x r
            → Kept os key laws
                (view w)
                l
                (view (take_lock os l w s timeout).2)
                (take_lock os l w s timeout).1
        go zero r here =
            rw (take_lock-zero r timeout here) (same-Kept os key laws refl is_ready l_ok refl)
        go (suc x) r here =
            let (w', down, there) =
              laws.timed_own w s x r true (timeout_of timeout)
                (here ∙ ap (λ n. present s n r) (omega arith)) in
            rw (down, take_lock)
              (moved-Kept true s (suc x) x r here there l_ok mine (rw (idle) (omega arith)))

    unlock_if_held-Kept :
        l.is_held ≡ true
        → LockOk sets_otime key (view w) l
        → Kept os key laws
            (view w)
            l
            (view (unlock_if_held os l w true (some s)).2)
            (unlock_if_held os l w true (some s)).1
    unlock_if_held-Kept held l_ok =
        let (x, r, here) = here_of l_ok in
        let (w', up, there) = laws.up_own w s x r true here in
        subst
          (λ o. Kept os key laws (view w) l (view (after os w o)) (record l { is_held = false }))
          (sym up)
          (moved-Kept {l = l} false s x (x + 1) r here there l_ok mine (given x l.is_held held))
      where
        given : (x : ℕ) (b : Bool) → b ≡ true → x + 1 + 0 ≡ x + (if b then 1 else 0)
        given x true e = omega arith
        given x false e = absurd (cc (e))

  pub mosys_unlock-Kept :
      (l : IpcLock) (w : W)
      → IsReady os key laws (view w)
      → LockOk sets_otime key (view w) l
      → Kept os key laws (view w) l (view (mosys_unlock os l w).2) (mosys_unlock os l w).1
  unfolding mosys_unlock
  mosys_unlock-Kept l w is_ready l_ok = go l.is_held l.sem refl refl
    where
      go :
          (b : Bool) (o : Option ℕ)
          → l.is_held ≡ b
          → l.sem ≡ o
          → Kept os key laws
              (view w)
              l
              (view (unlock_if_held os l w b o).2)
              (unlock_if_held os l w b o).1
      go false o idle mine = same-Kept os key laws refl is_ready l_ok refl
      go true none held mine =
          absurd (cc (held, subst (λ o. Fits (view w) o l.is_held) mine l_ok.fits))
      go true (some s) held mine = unlock_if_held-Kept l w s mine held l_ok

  pub mosys_lock-Kept :
      (l : IpcLock) (w : W) (timeout : Option ℕ)
      → IsReady os key laws (view w)
      → LockOk sets_otime key (view w) l
      → Kept os key laws
          (view w)
          l
          (view (mosys_lock os l w timeout).2)
          (mosys_lock os l w timeout).1
  unfolding mosys_lock
  mosys_lock-Kept l w timeout is_ready l_ok =
      go (lock_init os l w) (lock_init-Kept os key laws l w is_ready l_ok)
    where
      free :
          (l' : IpcLock) (w' : W)
          → Kept os key laws (view w) l (view w') l'
          → (b : Bool) (o : Option ℕ) → l'.is_held ≡ b
          → l'.sem ≡ o
          → Kept os key laws
              (view w)
              l
              (view (lock_if_free os l' w' b o timeout).2)
              (lock_if_free os l' w' b o timeout).1
      free l' w' kept true o held mine = kept
      free l' w' kept false none idle mine = kept
      free l' w' kept false (some s) idle mine =
          trans-Kept kept (take_lock-Kept l' w' s mine timeout idle kept.ready kept.lock_ok)

      go :
          (t : Rc × IpcLock × W)
          → Kept os key laws (view w) l (view t.2) t.1
          → Kept os key laws
              (view w)
              l
              (view (lock_after_init os t timeout).2)
              (lock_after_init os t timeout).1
      go (failed, l', w') kept = kept
      go (ok, l', w') kept = free l' w' kept l'.is_held l'.sem refl refl
