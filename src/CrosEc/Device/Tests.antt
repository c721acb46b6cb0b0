-- ===== src/CrosEc/Device/Tests.antt =====
-- An EC on the LPC bus that answers the greeting.
use mosys.Common.{
  ℕ, ◌-◌, ◌<◌, ◌≡◌, refl, true, false, none, some, ◌==◌, if◌then◌else◌, [], get_or, arith,
}
use mosys.Locks.{
  down_done, Semaphores, made, csem_get_or_create, csem_create, does_semctl_set_otime, create_known,
}
use mosys.Locks.Ipc.{cros_ec_lock, lock_init, take_lock, mosys_lock}
use mosys.CrosEc.{Ports, wait_loop}
use mosys.CrosEc.Command.{EcState, lpc_v3, cros_ec_command_lpc_detect}
use mosys.CrosEc.Request.{PacketWindow}
use mosys.CrosEc.Answer.{ec_response}
use mosys.CrosEc.Device.{cros_ec_probe_lpc}
use mosys.CrosEc.Device.Probe.{Greets, hello_answer, cros_ec_probe_lpc-Greets}

abbrev Memory : Type 0
Memory = ℕ → ℕ

abbrev greeted : Memory
greeted a = get_or (ec_response hello_answer) (a - 0x800) 0

-- The EC is ready at once, and its memory map says that it speaks version 3.
abbrev map_read : Memory → ℕ → ℕ
map_read w a =
    if a == 0x204
    then 0
    else if a == 0x200
    then 0
    else if a == 0x920
    then b'E'
    else if a == 0x921
    then b'C'
    else if a == 0x927
    then 0x02
    else w a

abbrev greeting_ports : Ports Memory
greeting_ports = record {
  io_read8 = λ w a. (some (map_read w a), w);
  io_write8 = λ w a b. (true, if a == 0x204 then greeted else (λ c. if c == a then b else w c));
  usleep = λ w t. w;
}

above : (a r : ℕ) → r < a → (a == r) ≡ false
above a r h = ground arith

below : (a r : ℕ) → a < r → (a == r) ≡ false
below a r h = ground arith

greeting_window : PacketWindow greeting_ports
greeting_window = record {
  window = λ w. w;
  write_window = λ w a b c lo hi. rw (above a 0x204 (omega arith)) refl;
  read_window = λ w a lo hi. (
    w,
    rw
        (
          above a 0x204 (omega arith),
          above a 0x200 (omega arith),
          below a 0x920 (omega arith),
          below a 0x921 (omega arith),
          below a 0x927 (omega arith),
        )
        refl,
    λ c. refl,
  );
}

-- The semaphore is always free.
abbrev free_system : Semaphores Memory
free_system = record {
  semget_private = λ w. some (9, w);
  semget_new = λ w key. (made 7, w);
  semget = λ w key. some 7;
  setval = λ w s x. some w;
  getval = λ w s. some 1;
  sem_otime = λ w s. some 1;
  remove = λ w s. some w;
  semop = λ w s up undo. some w;
  semtimedop = λ w s t undo. down_done w;
  sched_yield = λ w. w;
}

abbrev blank : Memory
blank a = 0

abbrev fresh : EcState Memory
fresh = record { lock = cros_ec_lock; raw = none; world = blank }

fresh-Greets : Greets free_system greeting_ports greeting_window fresh
unfolding mosys_lock lock_init csem_get_or_create csem_create does_semctl_set_otime create_known
    take_lock cros_ec_command_lpc_detect wait_loop greeting_window
fresh-Greets = record {
  lock = record { key = 0x67736c01; sem = some 7; is_held = true; need_otime_hack = some false };
  locked = blank;
  detected = blank;
  ready = greeted;
  answered = greeted;
  takes = refl;
  detects = refl;
  waits = refl;
  code = refl;
  answer = refl;
}

cros_ec_probe_lpc-Greets_example :
    ((cros_ec_probe_lpc free_system greeting_ports fresh []).0 ≡ 1)
    × ((cros_ec_probe_lpc free_system greeting_ports fresh []).1.raw ≡ some lpc_v3)
    × ((cros_ec_probe_lpc free_system greeting_ports fresh []).1.lock.is_held ≡ false)
cros_ec_probe_lpc-Greets_example =
    cros_ec_probe_lpc-Greets free_system greeting_ports greeting_window fresh [] fresh-Greets
