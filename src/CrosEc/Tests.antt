-- ===== src/CrosEc/Tests.antt =====
-- An EC that answers each command with the same data, and a machine without one.
use mosys.Common.{
  ℕ, ◌-◌, ◌<◌, ◌≡◌, ◌↔◌, refl, true, false, none, some, ◌==◌, if◌then◌else◌, [], ◌∷◌, get_or, arith,
}
use mosys.Locks.{down_done, Semaphores, made}
use mosys.Locks.Ipc.{cros_ec_lock}
use mosys.CrosEc.{
  Ports, negative, zero_rc, wait_loop, write_request, read_bytes, check_result,
  cros_ec_command_lpc_v3,
}
use mosys.CrosEc.Command.{EcState, cros_ec_command_lpc}
use mosys.CrosEc.Request.{PacketWindow, IsRequest, region, write_request-IsRequest}
use mosys.CrosEc.Exchange.{Exchanged, cros_ec_command_lpc_v3-Exchanged}
use mosys.CrosEc.Reported.{IsReported, cros_ec_command_lpc_v3-IsReported}
use mosys.CrosEc.Answer.{cros_ec_command_lpc_v3-ec_response}
use mosys.CrosEc.Release.{IsUndetected, cros_ec_command_lpc-IsUndetected}

abbrev Memory : Type 0
Memory = ℕ → ℕ

abbrev answered : Memory
answered a = get_or (3 ∷ 0xf8 ∷ 0 ∷ 0 ∷ 2 ∷ 0 ∷ 0 ∷ 0 ∷ 1 ∷ 2 ∷ []) (a - 0x800) 0

-- The EC is ready at once with the result code; a write to the command port makes it answer.
abbrev ec_read : ℕ → Memory → ℕ → ℕ
ec_read out w a = if a == 0x204 then 0 else if a == 0x200 then out else w a

abbrev ec_write : Memory → ℕ → ℕ → Memory
ec_write w a b = if a == 0x204 then answered else (λ c. if c == a then b else w c)

abbrev ec_ports : ℕ → Ports Memory
ec_ports out = record {
  io_read8 = λ w a. (some (ec_read out w a), w);
  io_write8 = λ w a b. (true, ec_write w a b);
  usleep = λ w t. w;
}

not_a_register : (a r : ℕ) → r < a → (a == r) ≡ false
not_a_register a r h = ground arith

ec_window : (out : ℕ) → PacketWindow (ec_ports out)
ec_window out = record {
  window = λ w. w;
  write_window = λ w a b c lo hi. rw (not_a_register a 0x204 (omega arith)) refl;
  read_window = λ w a lo hi. (
    w,
    rw (not_a_register a 0x204 (omega arith), not_a_register a 0x200 (omega arith)) refl,
    λ c. refl,
  );
}

abbrev blank : Memory
blank a = 0

write_request-IsRequest_example :
    IsRequest 1 0
      (0xa0 ∷ 0xb0 ∷ [])
      (region (write_request (ec_ports 0) blank 0 1 0 (0xa0 ∷ 0xb0 ∷ [])).1 0x800 10)
unfolding ec_window
write_request-IsRequest_example =
    write_request-IsRequest (ec_ports 0) (ec_window 0) blank 0 1 0 (0xa0 ∷ 0xb0 ∷ []) (omega arith)
      (omega arith)

cros_ec_command_lpc_v3-IsReported_example :
    ((cros_ec_command_lpc_v3 (ec_ports 3) blank 0 1 0 4 (0xa0 ∷ [])).0 ≡ negative 8)
    ↔ IsReported (ec_ports 3) answered (0xa0 ∷ [])
cros_ec_command_lpc_v3-IsReported_example =
    cros_ec_command_lpc_v3-IsReported (ec_ports 3) blank 0 1 0 4 (0xa0 ∷ [])

-- Its right side holds.
answered-IsReported : IsReported (ec_ports 3) answered (0xa0 ∷ [])
unfolding wait_loop
answered-IsReported = record {
  fitting = omega arith;
  before = answered;
  reported = answered;
  out = 3;
  ready = refl;
  code = refl;
  bad = λ e. cc e;
}

cros_ec_command_lpc_v3-ec_response_example :
    (w' : Memory) × (cros_ec_command_lpc_v3 (ec_ports 0) blank 0 1 0 4 (0xa0 ∷ [])
      ≡ (zero_rc, 1 ∷ 2 ∷ [], w'))
unfolding wait_loop ec_window
cros_ec_command_lpc_v3-ec_response_example =
    cros_ec_command_lpc_v3-ec_response (ec_ports 0) (ec_window 0) blank answered answered 0 1 0 4
      (0xa0 ∷ []) (1 ∷ 2 ∷ []) (omega arith) (omega arith) (omega arith) refl refl refl

cros_ec_command_lpc_v3-Exchanged_example :
    Exchanged
      (ec_ports 0)
      (ec_window 0)
      4
      (0xa0 ∷ [])
      (cros_ec_command_lpc_v3 (ec_ports 0) blank 0 1 0 4 (0xa0 ∷ [])).1
unfolding cros_ec_command_lpc_v3 check_result wait_loop read_bytes
cros_ec_command_lpc_v3-Exchanged_example =
    cros_ec_command_lpc_v3-Exchanged (ec_ports 0) (ec_window 0) blank 0 1 0 4 (0xa0 ∷ [])
      (omega arith) refl

-- Nothing answers at the ports; the semaphore is always free.
abbrev no_ec : Ports Unit
no_ec = record { io_read8 = λ w a. (none, w); io_write8 = λ w a b. (false, w); usleep = λ w t. w }

abbrev free_system : Semaphores Unit
free_system = record {
  semget_private = λ w. some (9, w);
  semget_new = λ w key. (made 7, w);
  semget = λ w key. some 7;
  setval = λ w s x. some w;
  getval = λ w s. some 1;
  sem_otime = λ w s. some 1;
  remove = λ w s. some w;
  semop = λ w s up undo. some w;
  semtimedop = λ w s t undo. down_done w;
  sched_yield = λ w. w;
}

abbrev idle_state : EcState Unit
idle_state = record { lock = cros_ec_lock; raw = none; world = tt }

cros_ec_command_lpc-IsUndetected_example :
    ((cros_ec_command_lpc free_system no_ec idle_state (some 0) 1 0 4 []).2.lock.is_held ≡ true)
    ↔ IsUndetected free_system no_ec idle_state 4 []
cros_ec_command_lpc-IsUndetected_example =
    cros_ec_command_lpc-IsUndetected free_system no_ec 0 1 0 4 [] idle_state refl
