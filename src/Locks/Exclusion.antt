-- ===== src/Locks/Exclusion.antt =====
-- Processes that share a lock of core/ipc_lock.c: each has its own `struct ipc_lock` with the same key,
-- and their calls of mosys_lock and mosys_unlock follow each other in any order.
use mosys.Common.{
  ℕ, zero, suc, ◌+◌, ◌≤◌, ◌≡◌, refl, sym, subst, true, Option, List, [], ◌∷◌, ◌++◌, arith, ◌⊎◌, inl,
  inr,
}
use mosys.Locks.{Semaphores}
use mosys.Locks.Laws.{View, absent, present, SemLaws}
use mosys.Locks.Settle.{IsReady}
use mosys.Locks.Ipc.{IpcLock, sysv_ipc_lock, mosys_lock, mosys_unlock}
use mosys.Locks.Keep.{holding, Balanced, LockOk, Kept}
use mosys.Locks.Calls.{mosys_lock-Kept, mosys_unlock-Kept}

-- How many of the locks are held.
abbrev pub holders : List IpcLock → ℕ
holders [] = 0
holders (l ∷ ls) = holding l + holders ls

pub holders-append : (a b : List IpcLock) → holders (a ++ b) ≡ holders a + holders b
holders-append [] b = omega arith
holders-append (l ∷ a) b = omega (arith, holders-append a b)

-- The system and the locks of the processes.
pub record Processes (W : Type 0) : Type 0 where
  pub world : W
  pub locks : List IpcLock

abbrev pub fresh_locks : ℕ → ℕ → List IpcLock
fresh_locks key zero = []
fresh_locks key (suc n) = sysv_ipc_lock key ∷ fresh_locks key n

module _ {W : Type 0} (os : Semaphores W) where
  -- One process locks, with any timeout, or unlocks. One that still waits calls again in a later step.
  pub data Step : Processes W → Processes W → Type 0 where
    locks_it :
        (before : List IpcLock) (l : IpcLock) (rest : List IpcLock) (w : W) (timeout : Option ℕ)
        → Step
            (record { world = w; locks = before ++ l ∷ rest })
            (record {
              world = (mosys_lock os l w timeout).2;
              locks = before ++ (mosys_lock os l w timeout).1 ∷ rest;
            })
    unlocks_it :
        (before : List IpcLock) (l : IpcLock) (rest : List IpcLock) (w : W)
        → Step
            (record { world = w; locks = before ++ l ∷ rest })
            (record {
              world = (mosys_unlock os l w).2;
              locks = before ++ (mosys_unlock os l w).1 ∷ rest;
            })

  -- From `n` processes that have done nothing yet.
  pub data Reach (key : ℕ) (start : W) : Processes W → Type 0 where
    begun : (n : ℕ) → Reach key start (record { world = start; locks = fresh_locks key n })
    later : {s t : Processes W} → Reach key start s → Step s t → Reach key start t

  module _ (key : ℕ) (laws : SemLaws os key) where
    open laws use {view, sets_otime}

    abbrev pub AllOk : View → List IpcLock → Type 0
    AllOk v [] = Unit
    AllOk v (l ∷ ls) = LockOk sets_otime key v l × AllOk v ls

    pub AllOk-here :
        (v : View) (a : List IpcLock) (l : IpcLock) (b : List IpcLock)
        → AllOk v (a ++ l ∷ b)
        → LockOk sets_otime key v l
    AllOk-here v [] l b all_ok = all_ok.0
    AllOk-here v (m ∷ a) l b all_ok = AllOk-here v a l b all_ok.1

    AllOk-map :
        (v v' : View) (ls : List IpcLock)
        → ((m : IpcLock) → LockOk sets_otime key v m → LockOk sets_otime key v' m)
        → AllOk v ls
        → AllOk v' ls
    AllOk-map v v' [] f all_ok = tt
    AllOk-map v v' (m ∷ ls) f all_ok = (f m all_ok.0, AllOk-map v v' ls f all_ok.1)

    AllOk-replace :
        (v v' : View) (a : List IpcLock) (l l' : IpcLock) (b : List IpcLock)
        → ((m : IpcLock) → LockOk sets_otime key v m → LockOk sets_otime key v' m)
        → LockOk sets_otime key v' l'
        → AllOk v (a ++ l ∷ b)
        → AllOk v' (a ++ l' ∷ b)
    AllOk-replace v v' [] l l' b f l_ok all_ok = (l_ok, AllOk-map v v' b f all_ok.1)
    AllOk-replace v v' (m ∷ a) l l' b f l_ok all_ok =
        (f m all_ok.0, AllOk-replace v v' a l l' b f l_ok all_ok.1)

    -- The locks fit the semaphore, and there is one unit in all.
    pub record Inv (s : Processes W) : Type 0 where
      pub ready : IsReady os key laws (view s.world)
      pub all_ok : AllOk (view s.world) s.locks
      pub balance : Balanced (view s.world) (holders s.locks)

    Kept-Inv :
        (w w' : W) (a : List IpcLock) (l l' : IpcLock) (b : List IpcLock)
        → Kept os key laws (view w) l (view w') l'
        → Inv (record { world = w; locks = a ++ l ∷ b })
        → Inv (record { world = w'; locks = a ++ l' ∷ b })
    Kept-Inv w w' a l l' b kept inv = record {
      ready = kept.ready;
      all_ok = AllOk-replace (view w) (view w') a l l' b kept.others kept.lock_ok inv.all_ok;
      balance = subst (Balanced (view w')) (around l') (
          kept.balance (holders a + holders b)
            (subst (Balanced (view w)) (sym (around l)) inv.balance));
    }
      where
        around : (m : IpcLock) → holding m + (holders a + holders b) ≡ holders (a ++ m ∷ b)
        around m = omega (arith, holders-append a (m ∷ b))

    Step-Inv : {s t : Processes W} → Step s t → Inv s → Inv t
    Step-Inv (locks_it a l b w timeout) inv =
        Kept-Inv w _ a l _ b
          (mosys_lock-Kept os key laws l w timeout inv.ready (AllOk-here (view w) a l b inv.all_ok))
          inv
    Step-Inv (unlocks_it a l b w) inv =
        Kept-Inv w _ a l _ b
          (mosys_unlock-Kept os key laws l w inv.ready (AllOk-here (view w) a l b inv.all_ok)) inv

    -- There is no semaphore of the key, or it is free.
    abbrev pub IsFree : W → Type 0
    IsFree w = (view w ≡ absent) ⊎ ((s : ℕ) × (view w ≡ present s 1 true))

    fresh-AllOk : (v : View) (n : ℕ) → AllOk v (fresh_locks key n)
    fresh-AllOk v zero = tt
    fresh-AllOk v (suc n) = (record { same_key = refl; known = tt; fits = refl }, fresh-AllOk v n)

    holders-fresh : (n : ℕ) → holders (fresh_locks key n) ≡ 0
    holders-fresh zero = refl
    holders-fresh (suc n) = omega (arith, holders-fresh n)

    begun-Inv : (w : W) (n : ℕ) → IsFree w → Inv (record { world = w; locks = fresh_locks key n })
    begun-Inv w n (inl nothing) = record {
      ready = rw (nothing) tt;
      all_ok = fresh-AllOk (view w) n;
      balance = rw (nothing) (holders-fresh n);
    }
    begun-Inv w n (inr (s, here)) = record {
      ready = rw (here) refl;
      all_ok = fresh-AllOk (view w) n;
      balance = rw (here) (omega (arith, holders-fresh n));
    }

    pub Reach-Inv : {start : W} {s : Processes W} → IsFree start → Reach key start s → Inv s
    Reach-Inv {start} free (begun n) = begun-Inv start n free
    Reach-Inv free (later r st) = Step-Inv st (Reach-Inv free r)

    -- If the semaphore of the key does not exist or is free at the start, then whatever the processes
    -- lock and unlock, and in whatever order, at most one of them holds the lock.
    pub mutual_exclusion :
        {start : W} {s : Processes W} → IsFree start → Reach key start s → holders s.locks ≤ 1
    mutual_exclusion {s = s} free r =
        at_most (holders s.locks) (view s.world) (Reach-Inv free r).balance
      where
        at_most : (n : ℕ) (v : View) → Balanced v n → n ≤ 1
        at_most n absent b = omega arith
        at_most n (present sem_id x rd) b = omega arith
