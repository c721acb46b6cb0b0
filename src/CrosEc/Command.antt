-- ===== src/CrosEc/Command.antt =====
-- The older protocols of drivers/google/cros_ec_lpc.c, the choice among them, and cros_ec_command_lpc,
-- which runs a command under the lock of the EC.
use mosys.Common.{
  ℕ, ◌+◌, bit_and, Bool, true, false, not, ◌||◌, Option, none, some, ltb, ◌==◌, if◌then◌else◌, List,
  [], ◌∷◌, u8, length, get_or,
}
use mosys.Math.Checksum.{byte_sum}
use mosys.Locks.{Semaphores}
use mosys.Locks.Ipc.{
  IpcLock, Taken, acquired, was_held, not_acquired, still_waiting, acquire_cros_ec_lock,
  release_cros_ec_lock,
}
use mosys.CrosEc.{
  Ports, EcRc, zero_rc, negative, ec_lpc_addr_host_data, ec_lpc_addr_host_cmd,
  ec_lpc_addr_host_args, ec_lpc_addr_host_param, ec_lpc_addr_old_param, ec_lpc_addr_memmap,
  wait_for_ec, read_bytes, cros_ec_command_lpc_v3,
}

-- The 4 bytes of a `struct ec_lpc_host_args`.
abbrev pub ec_lpc_host_args : ℕ → ℕ → ℕ → ℕ → List ℕ
ec_lpc_host_args flags command_version data_size checksum =
    flags ∷ u8 command_version ∷ u8 data_size ∷ checksum ∷ []

-- The checksum over the command, the first three bytes of the arguments and the data.
abbrev pub args_checksum : ℕ → List ℕ → List ℕ → ℕ
args_checksum command args bytes =
    u8 (command + get_or args 0 0 + get_or args 1 0 + get_or args 2 0 + byte_sum bytes)

-- EC_HOST_ARGS_FLAG_TO_HOST.
abbrev pub is_to_host : List ℕ → Bool
is_to_host args = not (bit_and (get_or args 0 0) 0x02 == 0)

-- `priv->raw`.
pub data Raw : Type 0 where
  lpc_v3 : Raw
  lpc_v1 : Raw
  lpc_v0 : Raw

module _ {W : Type 0} (io : Ports W) where
  -- The first write that fails ends the loop.
  unfoldable pub write_bytes : W → ℕ → List ℕ → Bool × W
  write_bytes w addr [] = (true, w)
  write_bytes w addr (b ∷ bytes) =
      let (good, w') = io.io_write8 w addr b in
      let rest = write_bytes w' (addr + 1) bytes in if good then rest else (false, w')

  -- The answer of the EC to a command with arguments.
  unfoldable pub read_args_response : W → ℕ → ℕ → EcRc × List ℕ × W
  read_args_response w command insize =
      let (args, all, w1) = read_bytes io 4 w ec_lpc_addr_host_args in
      if not all
      then (negative 1, [], w1)
      else if not (is_to_host args)
      then (negative 1, [], w1)
      else if ltb insize (get_or args 2 0)
      then (negative 1, [], w1)
      else let (bytes, all', w2) = read_bytes io (get_or args 2 0) w1 ec_lpc_addr_host_param in
        if not all'
        then (negative 1, bytes, w2)
        else if not (get_or args 3 0 == args_checksum command args bytes)
        then (negative 1, bytes, w2)
        else (zero_rc, bytes, w2)

  -- The start of a command, its result code, and then `read`.
  abbrev issue : W → ℕ → (W → EcRc × List ℕ × W) → EcRc × List ℕ × W
  issue w command read =
      let (written, w1) = io.io_write8 w ec_lpc_addr_host_cmd (u8 command) in
      if not written
      then (negative 1, [], w1)
      else let (ready, w2) = wait_for_ec io w1 ec_lpc_addr_host_cmd 1000000 in
        if not ready
        then (negative 1, [], w2)
        else let (ec_response, w3) = io.io_read8 w2 ec_lpc_addr_host_data in
          elim ec_response [
            | none ↦ (negative 1, [], w3)
            | some code ↦ if code == 0 then read w3 else (negative 1, [], w3)
          ]

  unfoldable pub cros_ec_command_lpc_v1 : W → ℕ → ℕ → ℕ → List ℕ → EcRc × List ℕ × W
  cros_ec_command_lpc_v1 w command command_version insize outdata =
      let args = ec_lpc_host_args 0x01 command_version (length outdata) 0 in
      let (ready, w1) = wait_for_ec io w ec_lpc_addr_host_cmd 1000000 in
      if not ready
      then (negative 1, [], w1)
      else let (data_written, w2) = write_bytes w1 ec_lpc_addr_host_param outdata in
        if not data_written
        then (negative 1, [], w2)
        else let (args_written, w3) = write_bytes w2 ec_lpc_addr_host_args (
            ec_lpc_host_args 0x01 command_version (length outdata)
              (args_checksum command args outdata)) in
          if not args_written
          then (negative 1, [], w3)
          else issue w3 command (λ w'. read_args_response w' command insize)

  unfoldable pub cros_ec_command_lpc_v0 : W → ℕ → ℕ → List ℕ → EcRc × List ℕ × W
  cros_ec_command_lpc_v0 w command insize outdata =
      let (ready, w1) = wait_for_ec io w ec_lpc_addr_host_cmd 1000000 in
      if not ready
      then (negative 1, [], w1)
      else let (data_written, w2) = write_bytes w1 ec_lpc_addr_old_param outdata in
        if not data_written
        then (negative 1, [], w2)
        else issue w2 command (λ w'.
          let (bytes, all, w'') = read_bytes io insize w' ec_lpc_addr_old_param in
          (if all then zero_rc else negative 1, bytes, w''))

  -- EC_HOST_CMD_FLAG_VERSION_3 and EC_HOST_CMD_FLAG_LPC_ARGS_SUPPORTED.
  abbrev pub protocol_of : ℕ → Raw
  protocol_of flags =
      if not (bit_and flags 0x02 == 0)
      then lpc_v3
      else if not (bit_and flags 0x01 == 0)
      then lpc_v1
      else lpc_v0

  -- `priv->raw` afterwards, `none` if the detection fails.
  unfoldable pub cros_ec_command_lpc_detect : Option Raw → W → Option Raw × W
  cros_ec_command_lpc_detect (some raw) w = (some raw, w)
  cros_ec_command_lpc_detect none w =
      let (id1, w1) = io.io_read8 w (ec_lpc_addr_memmap + 0x20) in
      elim id1 [
        | none ↦ (none, w1)
        | some i1 ↦
            let (id2, w2) = io.io_read8 w1 (ec_lpc_addr_memmap + 0x20 + 1) in
            elim id2 [
              | none ↦ (none, w2)
              | some i2 ↦
                  let (flags, w3) = io.io_read8 w2 (ec_lpc_addr_memmap + 0x27) in
                  elim flags [
                    | none ↦ (none, w3)
                    | some f ↦
                        if not (i1 == b'E') || not (i2 == b'C')
                        then (none, w3)
                        else (some (protocol_of f), w3)
                  ]
            ]
      ]

  -- The command of the protocol.
  abbrev pub run_raw : Raw → W → ℕ → ℕ → ℕ → ℕ → List ℕ → EcRc × List ℕ × W
  run_raw lpc_v3 w device_index command command_version insize outdata =
      cros_ec_command_lpc_v3 io w device_index command command_version insize outdata
  run_raw lpc_v1 w device_index command command_version insize outdata =
      cros_ec_command_lpc_v1 w command command_version insize outdata
  run_raw lpc_v0 w device_index command command_version insize outdata =
      cros_ec_command_lpc_v0 w command insize outdata

-- The static lock, `raw` of the EC's private data, and the machine.
pub record EcState (W : Type 0) : Type 0 where
  pub lock : IpcLock
  pub raw : Option Raw
  pub world : W

module _ {W : Type 0} (os : Semaphores W) (io : Ports W) where
  -- With the lock, in the state that the detection leaves.
  abbrev pub run_detected :
      Option Raw × W → IpcLock → ℕ → ℕ → ℕ → ℕ → List ℕ → EcRc × List ℕ × EcState W
  run_detected (none, w) lock device_index command command_version insize outdata =
      (negative 1, [], record { lock = lock; raw = none; world = w })
  run_detected (some raw, w) lock device_index command command_version insize outdata =
      let (rc, indata, w') = run_raw io raw w device_index command command_version insize outdata in
      let (released, lock', w'') = release_cros_ec_lock os lock w' in
      (rc, indata, record { lock = lock'; raw = some raw; world = w'' })

  -- A wait with a timeout ends, so the clause for one that lasts is not reached.
  abbrev pub run_locked :
      Taken × IpcLock × W → Option Raw → ℕ → ℕ → ℕ → ℕ → List ℕ → EcRc × List ℕ × EcState W
  run_locked (not_acquired, lock, w) raw device_index command command_version insize outdata =
      (negative 1, [], record { lock = lock; raw = raw; world = w })
  run_locked (still_waiting, lock, w) raw device_index command command_version insize outdata =
      (negative 1, [], record { lock = lock; raw = raw; world = w })
  run_locked (acquired, lock, w) raw device_index command command_version insize outdata =
      run_detected (cros_ec_command_lpc_detect io raw w) lock device_index command command_version
        insize outdata
  run_locked (was_held, lock, w) raw device_index command command_version insize outdata =
      run_detected (cros_ec_command_lpc_detect io raw w) lock device_index command command_version
        insize outdata

  -- `device_index` is that of `ec->priv`, `none` if a pointer on the way to it is NULL.
  unfoldable pub cros_ec_command_lpc :
      EcState W → Option ℕ → ℕ → ℕ → ℕ → List ℕ → EcRc × List ℕ × EcState W
  cros_ec_command_lpc s none command command_version insize outdata = (negative 1, [], s)
  cros_ec_command_lpc s (some device_index) command command_version insize outdata =
      if ltb 0xfc insize || ltb 0xfc (length outdata)
      then (negative 1, [], s)
      else run_locked (acquire_cros_ec_lock os s.lock s.world 30) s.raw device_index command
          command_version insize outdata
