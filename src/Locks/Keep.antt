-- ===== src/Locks/Keep.antt =====
-- What a call of core/ipc_lock.c on the lock of one process keeps.
use mosys.Common.{
  ℕ, ◌+◌, ◌≡◌, refl, sym, ap, ◌∙◌, subst, Bool, false, Option, none, some, if◌then◌else◌, arith,
  inl, inr, Option-cases, ok, failed,
}
use mosys.Locks.{Semaphores, csem_get_or_create}
use mosys.Locks.Laws.{View, absent, present, sem_of, SemLaws}
use mosys.Locks.Create.{HackOk}
use mosys.Locks.Settle.{IsReady, Settled, csem_get_or_create-Settled}
use mosys.Locks.Ipc.{IpcLock, lock_init}

abbrev pub holding : IpcLock → ℕ
holding l = if l.is_held then 1 else 0

-- The semaphore that a lock knows is that of the key, and only such a lock is held.
abbrev pub Fits : View → Option ℕ → Bool → Type 0
Fits v none is_held = is_held ≡ false
Fits v (some s) is_held = sem_of v ≡ some s

-- One unit, with the semaphore or with a holder.
abbrev pub Balanced : View → ℕ → Type 0
Balanced absent n = n ≡ 0
Balanced (present s v r) n = v + n ≡ 1

pub record LockOk (sets : Bool) (key : ℕ) (v : View) (l : IpcLock) : Type 0 where
  pub same_key : l.key ≡ key
  pub known : HackOk sets l.need_otime_hack
  pub fits : Fits v l.sem l.is_held

module _ {W : Type 0} (os : Semaphores W) (key : ℕ) (laws : SemLaws os key) where
  open laws use {view, sets_otime}

  -- From the lock `l` in the state `v` to `l'` in `v'`.
  pub record Kept (v : View) (l : IpcLock) (v' : View) (l' : IpcLock) : Type 0 where
    pub lock_ok : LockOk sets_otime key v' l'
    pub ready : IsReady os key laws v'
    pub others : (m : IpcLock) → LockOk sets_otime key v m → LockOk sets_otime key v' m
    pub balance : (n : ℕ) → Balanced v (holding l + n) → Balanced v' (holding l' + n)

  pub same-Kept :
      {v v' : View} {l l' : IpcLock}
      → v' ≡ v
      → IsReady os key laws v
      → LockOk sets_otime key v l'
      → l'.is_held ≡ l.is_held
      → Kept v l v' l'
  same-Kept {v} {v'} {l} {l'} same is_ready l_ok held = record {
    lock_ok = subst (λ x. LockOk sets_otime key x l') (sym same) l_ok;
    ready = subst (IsReady os key laws) (sym same) is_ready;
    others = λ m m_ok. subst (λ x. LockOk sets_otime key x m) (sym same) m_ok;
    balance = λ n b. rw (same, held) b;
  }

  -- The lock of a process that finds or makes the semaphore.
  Settled-Kept :
      (v v' : View) (l l' : IpcLock) (found : Option ℕ)
      → Settled os key laws v 1 found v'
      → IsReady os key laws v
      → LockOk sets_otime key v l
      → l.sem ≡ none
      → l.is_held ≡ false
      → l'.key ≡ l.key
      → l'.is_held ≡ l.is_held
      → l'.sem ≡ found
      → HackOk sets_otime l'.need_otime_hack
      → Kept v l v' l'
  Settled-Kept v v' l l' none same is_ready l_ok free idle same_key same_held found hack =
      same-Kept same is_ready
        (record {
          same_key = same_key ∙ l_ok.same_key;
          known = hack;
          fits = rw (found) (same_held ∙ idle);
        })
        same_held
  Settled-Kept v v' l l' (some s) (inl (same, there)) is_ready l_ok free idle same_key same_held
        found hack =
      same-Kept same is_ready
        (record { same_key = same_key ∙ l_ok.same_key; known = hack; fits = rw (found) there })
        same_held
  Settled-Kept v v' l l' (some s) (inr (nothing, here)) is_ready l_ok free idle same_key same_held
        found hack =
      record {
        lock_ok = record {
          same_key = same_key ∙ l_ok.same_key;
          known = hack;
          fits = rw (found, here) refl;
        };
        ready = rw (here) refl;
        others = λ m m_ok. record {
          same_key = m_ok.same_key;
          known = m_ok.known;
          fits = unknown m.sem m.is_held (subst (λ x. Fits x m.sem m.is_held) nothing m_ok.fits);
        };
        balance = λ n b.
            rw (here, same_held)
              (one_more (holding l + n) (subst (λ x. Balanced x (holding l + n)) nothing b));
      }
    where
      unknown : (o : Option ℕ) (h : Bool) → Fits absent o h → Fits v' o h
      unknown none h fits = fits
      unknown (some x) h fits = absurd (cc (fits))

      one_more : (n : ℕ) → n ≡ 0 → 1 + n ≡ 1
      one_more n e = omega arith

  -- What `csem_get_or_create` gives for the key of the lock.
  module _ (l : IpcLock) (w : W) where
    abbrev got : Option ℕ × Option Bool × W
    got = csem_get_or_create os l.need_otime_hack w l.key 1

    got_lem :
        IsReady os key laws (view w)
        → LockOk sets_otime key (view w) l
        → Settled os key laws (view w) 1 got.0 (view got.2) × HackOk sets_otime got.1
    got_lem is_ready l_ok =
        subst
          (λ k.
            Settled os key laws (view w) 1 (csem_get_or_create os l.need_otime_hack w k 1).0
              (view (csem_get_or_create os l.need_otime_hack w k 1).2)
            × HackOk sets_otime (csem_get_or_create os l.need_otime_hack w k 1).1)
          (sym l_ok.same_key)
          (csem_get_or_create-Settled os key laws l.need_otime_hack w 1 l_ok.known is_ready)

    init_fails :
        l.sem ≡ none
        → got.0 ≡ none
        → lock_init os l w ≡ (failed, record l { need_otime_hack = got.1 }, got.2)
    unfolding lock_init
    init_fails e nothing =
        rw (lock_init, e, nothing)
          (ap (λ o. (failed, record l { sem = o; need_otime_hack = got.1 }, got.2)) e)

    init_finds :
        (s : ℕ)
        → l.sem ≡ none
        → got.0 ≡ some s
        → lock_init os l w ≡ (ok, record l { sem = some s; need_otime_hack = got.1 }, got.2)
    unfolding lock_init
    init_finds s e found = rw (lock_init, e, found) refl

    pub lock_init-Kept :
        IsReady os key laws (view w)
        → LockOk sets_otime key (view w) l
        → Kept (view w) l (view (lock_init os l w).2) (lock_init os l w).1
    unfolding lock_init
    lock_init-Kept is_ready l_ok = elim (Option-cases l.sem) [
      | inr (s, e) ↦ rw (e, lock_init) (same-Kept refl is_ready l_ok refl)
      | inl e ↦
          let idle = subst (λ o. Fits (view w) o l.is_held) e l_ok.fits in
          let (settled, hack) = got_lem is_ready l_ok in
          elim (Option-cases got.0) [
            | inl nothing ↦
                subst (λ r. Kept (view w) l (view r.2) r.1) (sym (init_fails e nothing))
                  (Settled-Kept (view w) (view got.2) l (record l { need_otime_hack = got.1 }) none
                    (subst (λ o. Settled os key laws (view w) 1 o (view got.2)) nothing settled)
                    is_ready l_ok e idle refl refl e hack)
            | inr (s, found) ↦
                subst (λ r. Kept (view w) l (view r.2) r.1) (sym (init_finds s e found))
                  (Settled-Kept (view w) (view got.2) l
                    (record l { sem = some s; need_otime_hack = got.1 }) (some s)
                    (subst (λ o. Settled os key laws (view w) 1 o (view got.2)) found settled)
                    is_ready l_ok e idle refl refl refl hack)
          ]
    ]
