-- ===== src/Locks/Laws.antt =====
-- What core/csem.c and core/ipc_lock.c rely on of the system's semaphores, seen at one key.
use mosys.Common.{◌==◌, ℕ, ◌+◌, ◌≡◌, ◌≢◌, Bool, true, false, ◌||◌, Option, none, some, ltb}
use mosys.Locks.{
  Semaphores, Made, made, exists_already, make_failed, down_done, down_failed, down_waits,
}

-- The semaphore of the key: its value, and whether `sem_otime` is set.
pub data View : Type 0 where
  absent : View
  present : (sem_id value : ℕ) (ready : Bool) → View

abbrev pub sem_of : View → Option ℕ
sem_of absent = none
sem_of (present sem_id value ready) = some sem_id

-- `semget` with IPC_CREAT and IPC_EXCL makes a semaphore only if there is none.
abbrev pub NewSpec : View → Made → View → Type 0
NewSpec v exists_already v' = (v' ≡ v) × (v ≢ absent)
NewSpec v make_failed v' = v' ≡ v
NewSpec v (made sem_id) v' = (v ≡ absent) × ((x : ℕ) × (v' ≡ present sem_id x false))

-- The documented behaviour of the calls on the semaphore of a key, which is not the 0 of CSEM_PRIVATE, and
-- that a private one is another.
-- Nobody else runs during a call, and no signal comes: at value 0 a wait with a timeout fails when its
-- time is over, and one without a timeout does not return. `sets_otime` is whether SETVAL sets `sem_otime`
-- on this platform.
pub record SemLaws {W : Type 0} (os : Semaphores W) (key : ℕ) : Type 0 where
  pub view : W → View
  pub sets_otime : Bool
  pub shared_key : (key == 0) ≡ false
  pub get : (w : W) → os.semget w key ≡ sem_of (view w)
  pub new : (w : W) → NewSpec (view w) (os.semget_new w key).0 (view (os.semget_new w key).1)
  pub otime :
      (w : W) (s v : ℕ) (r : Bool)
      → view w ≡ present s v r
      → (t : ℕ) × (os.sem_otime w s ≡ some t) × (ltb 0 t ≡ r)
  pub setval_own :
      (w : W) (s v x : ℕ) (r : Bool)
      → view w ≡ present s v r
      → (w' : W) × (os.setval w s x ≡ some w') × (view w' ≡ present s x (r || sets_otime))
  pub up_own :
      (w : W) (s v : ℕ) (r undo : Bool)
      → view w ≡ present s v r
      → (w' : W) × (os.semop w s true undo ≡ some w') × (view w' ≡ present s (v + 1) true)
  pub down_own :
      (w : W) (s v : ℕ) (r undo : Bool)
      → view w ≡ present s (v + 1) r
      → (w' : W) × (os.semop w s false undo ≡ some w') × (view w' ≡ present s v true)
  pub timed_own :
      (w : W) (s v : ℕ) (r undo : Bool) (t : Option (ℕ × ℕ))
      → view w ≡ present s (v + 1) r
      → (w' : W) × (os.semtimedop w s t undo ≡ down_done w') × (view w' ≡ present s v true)
  pub timed_zero :
      (w : W) (s : ℕ) (r undo : Bool) (t : ℕ × ℕ)
      → view w ≡ present s 0 r
      → os.semtimedop w s (some t) undo ≡ down_failed
  pub wait_zero :
      (w : W) (s : ℕ) (r undo : Bool)
      → view w ≡ present s 0 r
      → os.semtimedop w s none undo ≡ down_waits
  pub private_new :
      (w w' : W) (p : ℕ)
      → os.semget_private w ≡ some (p, w')
      → (view w' ≡ view w) × (sem_of (view w') ≢ some p)
  pub private_set :
      (w w' : W) (p : ℕ)
      → sem_of (view w) ≢ some p
      → os.setval w p 1 ≡ some w'
      → (view w' ≡ view w) × ((t : ℕ) → os.sem_otime w' p ≡ some t → ltb 0 t ≡ sets_otime)
  pub private_remove :
      (w w' : W) (p : ℕ) → sem_of (view w) ≢ some p → os.remove w p ≡ some w' → view w' ≡ view w
