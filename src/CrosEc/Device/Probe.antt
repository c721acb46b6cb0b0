-- ===== src/CrosEc/Device/Probe.antt =====
-- The EC is found on the LPC bus, with the lock of drivers/google/cros_ec_lock.c, the command of
-- drivers/google/cros_ec_lpc.c and the greeting of drivers/google/cros_ec.c.
use mosys.Common.{ℕ, ◌+◌, ◌%◌, ◌^◌, ◌≡◌, ap, ◌∙◌, true, false, some, List, le32, arith}
use mosys.Locks.{Semaphores}
use mosys.Locks.Ipc.{mosys_unlock, IpcLock, acquired, acquire_cros_ec_lock}
use mosys.Locks.Held.{mosys_unlock-is_held}
use mosys.CrosEc.{
  Ports, EcRc, ec_lpc_addr_host_data, ec_lpc_addr_host_cmd, ec_lpc_addr_host_packet, wait_for_ec,
  send_request,
}
use mosys.CrosEc.Command.{
  lpc_v3, EcState, cros_ec_command_lpc_detect, run_detected, run_locked, cros_ec_command_lpc,
}
use mosys.CrosEc.Request.{PacketWindow, region}
use mosys.CrosEc.Answer.{ec_response, cros_ec_command_lpc_v3-ec_response}
use mosys.CrosEc.Device.{hello_request, hello_answered, lpc_cmd, cros_ec_probe_lpc}

-- The EC adds 0x01020304 to the number that it is greeted with.
abbrev pub hello_answer : List ℕ
hello_answer = le32 ((0xf0e0d0c0 + 0x01020304) % 2 ^ 32)

module _ {W : Type 0} (os : Semaphores W) (io : Ports W) (laws : PacketWindow io) where
  open laws use {window}

  -- The lock is acquired, the EC speaks version 3, is ready in time after the greeting, and answers it.
  pub record Greets (s : EcState W) : Type 0 where
    pub lock : IpcLock
    pub locked : W
    pub detected : W
    pub ready : W
    pub answered : W
    pub takes : acquire_cros_ec_lock os s.lock s.world 30 ≡ (acquired, lock, locked)
    pub detects : cros_ec_command_lpc_detect io s.raw locked ≡ (some lpc_v3, detected)
    pub waits :
        wait_for_ec io
          (send_request io detected 0 0x01 0 hello_request).1
          ec_lpc_addr_host_cmd
          1000000
        ≡ (true, ready)
    pub code : io.io_read8 ready ec_lpc_addr_host_data ≡ (some 0, answered)
    pub answer : region (window answered) ec_lpc_addr_host_packet 12 ≡ ec_response hello_answer

  -- If the lock is acquired, and then the EC is detected to speak version 3, is ready in time after the
  -- greeting and answers it with 0 and the number plus 0x01020304, cros_ec_probe_lpc returns 1, remembers
  -- the version, and leaves the lock released.
  pub cros_ec_probe_lpc-Greets :
      (s : EcState W) (response : List ℕ)
      → Greets s
      → ((cros_ec_probe_lpc os io s response).0 ≡ 1)
        × ((cros_ec_probe_lpc os io s response).1.raw ≡ some lpc_v3)
        × ((cros_ec_probe_lpc os io s response).1.lock.is_held ≡ false)
  unfolding cros_ec_command_lpc
  cros_ec_probe_lpc-Greets s response g =
      let (w', answers) =
        cros_ec_command_lpc_v3-ec_response io laws detected ready answered 0 0x01 0 4 hello_request
          hello_answer (omega arith) (omega arith) (omega arith) waits code answer in
      let same =
        ap (λ t. run_locked os io t s.raw 0 0x01 0 4 hello_request) takes
        ∙ ap (λ t. run_detected os io t lock 0 0x01 0 4 hello_request) detects
        ∙ ap (λ (t : EcRc × List ℕ × W). (t.0, t.1, after_unlock t.2)) answers in
      let seen = ap (hello_answered (lpc_cmd os io 0) response) same in
      (
        ap (λ (t : ℕ × EcState W). t.0) seen,
        ap (λ (t : ℕ × EcState W). t.1.raw) seen,
        ap (λ (t : ℕ × EcState W). t.1.lock.is_held) seen ∙ mosys_unlock-is_held os lock w',
      )
    where
      open g use {lock, locked, detected, ready, answered, takes, detects, waits, code, answer}

      after_unlock : W → EcState W
      after_unlock w = record {
        lock = (mosys_unlock os lock w).1;
        raw = some lpc_v3;
        world = (mosys_unlock os lock w).2;
      }
