-- ===== src/Locks/Handoff.antt =====
-- Which call of mosys_lock gets the lock, among processes that share it.
use mosys.Common.{
  ℕ, zero, suc, ◌+◌, ◌≤◌, ◌≡◌, refl, sym, ap, ◌∙◌, subst, Bool, true, false, Option, none, some,
  if◌then◌else◌, List, ◌∷◌, ◌++◌, arith, ok,
}
use mosys.Locks.{Semaphores}
use mosys.Locks.Laws.{View, absent, present, SemLaws}
use mosys.Locks.Ipc.{
  IpcLock, Taken, acquired, was_held, timeout_of, lock_init, take_lock, lock_if_free,
  unlock_if_held, mosys_lock, mosys_unlock,
}
use mosys.Locks.Keep.{holding, Balanced}
use mosys.Locks.Calls.{without_lock, take_lock-zero, here_of}
use mosys.Locks.Exclusion.{
  unlocks_it, Reach, later, Inv, holders, holders-append, AllOk-here, IsFree, Reach-Inv,
}

module _ {W : Type 0} (os : Semaphores W) where
  -- What `mosys_lock` gives when `held` tells of the own lock, and `n` locks are held in all.
  abbrev pub expected : Option ℕ → Bool → ℕ → Taken
  expected timeout true n = was_held
  expected timeout false zero = acquired
  expected timeout false (suc n) = without_lock timeout

  initialised : (l : IpcLock) (w : W) (s : ℕ) → l.sem ≡ some s → lock_init os l w ≡ (ok, l, w)
  unfolding lock_init
  initialised l w s mine = simp (lock_init, mine)

  module _ (key : ℕ) (laws : SemLaws os key) where
    open laws use {view}

    -- In every reachable state, `mosys_lock` of a process that knows the semaphore acquires the lock exactly
    -- if no process holds it. The holder is told that it holds it; any other process is refused when its
    -- timeout is over, and waits if it gave none.
    pub mosys_lock-result :
        {start : W} (a b : List IpcLock) (l : IpcLock) (w : W) (s : ℕ) (timeout : Option ℕ)
        → IsFree os key laws start
        → Reach os key start (record { world = w; locks = a ++ l ∷ b })
        → l.sem ≡ some s
        → (mosys_lock os l w timeout).0 ≡ expected timeout l.is_held (holders (a ++ l ∷ b))
    unfolding mosys_lock take_lock
    mosys_lock-result a b l w s timeout free r mine = rw (initialised l w s mine) (
        subst
          (λ o.
            (lock_if_free os l w l.is_held o timeout).0
            ≡ expected timeout l.is_held (holders (a ++ l ∷ b)))
          (sym mine) (go l.is_held refl))
      where
        inv : Inv os key laws (record { world = w; locks = a ++ l ∷ b })
        inv = Reach-Inv os key laws free r

        same_total :
            (n : ℕ)
            → n ≡ holders (a ++ l ∷ b)
            → expected timeout false n ≡ expected timeout false (holders (a ++ l ∷ b))
        same_total n e = ap (expected timeout false) e

        taken :
            (x : ℕ) (rd : Bool)
            → view w ≡ present s x rd
            → x + holders (a ++ l ∷ b) ≡ 1
            → (take_lock os l w s timeout).0 ≡ expected timeout false (holders (a ++ l ∷ b))
        taken zero rd here total =
            ap (λ (t : Taken × IpcLock × W). t.0)
              (take_lock-zero os key laws l w s mine rd timeout here)
            ∙ same_total 1 (omega (arith, total))
        taken (suc x) rd here total =
            let (w', down, there) =
              laws.timed_own w s x rd true (timeout_of timeout)
                (here ∙ ap (λ n. present s n rd) (omega arith)) in
            rw (down, take_lock) (same_total 0 (omega (arith, total)))

        go :
            (held : Bool)
            → l.is_held ≡ held
            → (lock_if_free os l w held (some s) timeout).0
              ≡ expected timeout held (holders (a ++ l ∷ b))
        go true e = refl
        go false e =
            let (x, rd, here) =
              here_of os key laws l w s mine (AllOk-here os key laws (view w) a l b inv.all_ok) in
            taken x rd here (subst (λ v. Balanced v (holders (a ++ l ∷ b))) here inv.balance)

    -- Whatever the field `sem`.
    unlocked :
        (l : IpcLock) (w : W) (o : Option ℕ)
        → ((unlock_if_held os l w true o).0 ≡ ok)
          × ((unlock_if_held os l w true o).1.is_held ≡ false)
    unlocked l w none = (refl, refl)
    unlocked l w (some s) = (refl, refl)

    mosys_unlock_lem :
        (l : IpcLock) (w : W)
        → l.is_held ≡ true
        → ((mosys_unlock os l w).0 ≡ ok) × ((mosys_unlock os l w).1.is_held ≡ false)
    unfolding mosys_unlock
    mosys_unlock_lem l w held =
        subst
          (λ h.
            ((unlock_if_held os l w h l.sem).0 ≡ ok)
            × ((unlock_if_held os l w h l.sem).1.is_held ≡ false))
          (sym held) (unlocked l w l.sem)

    one_holder :
        (v : View) (a b : List IpcLock) (l l' : IpcLock)
        → Balanced v (holders (a ++ l ∷ b))
        → l.is_held ≡ true
        → l'.is_held ≡ false
        → holders (a ++ l' ∷ b) ≡ 0
    one_holder v a b l l' balance held idle =
        none_left (holding_of l true held) (holding_of l' false idle) (at_most v balance)
      where
        at_most : (v : View) → Balanced v (holders (a ++ l ∷ b)) → holders (a ++ l ∷ b) ≤ 1
        at_most absent e = omega arith
        at_most (present sem_id x rd) e = omega arith

        holding_of : (k : IpcLock) (h : Bool) → k.is_held ≡ h → holding k ≡ (if h then 1 else 0)
        holding_of k h e = ap (λ x. if x then 1 else 0) e

        none_left :
            holding l ≡ 1 → holding l' ≡ 0 → holders (a ++ l ∷ b) ≤ 1 → holders (a ++ l' ∷ b) ≡ 0
        none_left e e' le = omega (arith, holders-append a (l ∷ b), holders-append a (l' ∷ b))

    granted :
        (timeout : Option ℕ) (m : IpcLock) (n k : ℕ)
        → n ≡ 0
        → k + holding m ≡ n
        → expected timeout m.is_held n ≡ acquired
    granted timeout m n k none_held there = go m.is_held refl
      where
        go : (h : Bool) → m.is_held ≡ h → expected timeout h n ≡ acquired
        go true e = absurd (omega (arith, ap {B = ℕ} (λ x. if x then 1 else 0) e))
        go false e = ap (expected timeout false) none_held

    -- In every reachable state in which a process holds the lock, its `mosys_unlock` succeeds, and then
    -- the next `mosys_lock` of any process that knows the semaphore gets the lock.
    pub handoff :
        {start : W} (a b : List IpcLock) (l : IpcLock) (w : W) (a' b' : List IpcLock) (m : IpcLock)
        (s : ℕ) (timeout : Option ℕ)
        → IsFree os key laws start
        → Reach os key start (record { world = w; locks = a ++ l ∷ b })
        → l.is_held ≡ true
        → a ++ (mosys_unlock os l w).1 ∷ b ≡ a' ++ m ∷ b'
        → m.sem ≡ some s
        → ((mosys_unlock os l w).0 ≡ ok)
          × ((mosys_lock os m (mosys_unlock os l w).2 timeout).0 ≡ acquired)
    handoff {start = start} a b l w a' b' m s timeout free r held same knows = (
      (mosys_unlock_lem l w held).0,
      mosys_lock-result a' b' m (mosys_unlock os l w).2 s timeout free reach knows
          ∙ granted timeout m (holders (a' ++ m ∷ b')) (holders a' + holders b') nobody
              (omega (arith, holders-append a' (m ∷ b'))),
    )
      where
        reach :
            Reach os key start (record { world = (mosys_unlock os l w).2; locks = a' ++ m ∷ b' })
        reach =
            subst
              (λ ls. Reach os key start (record { world = (mosys_unlock os l w).2; locks = ls }))
              same (later r (unlocks_it a l b w))

        nobody : holders (a' ++ m ∷ b') ≡ 0
        nobody =
            ap holders (sym same)
            ∙ one_holder (view w) a b l (mosys_unlock os l w).1
                (Reach-Inv os key laws free r).balance held (mosys_unlock_lem l w held).1
