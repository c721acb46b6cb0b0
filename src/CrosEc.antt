-- ===== src/CrosEc.antt =====
-- drivers/google/cros_ec_lpc.c: commands to the Chrome embedded controller (EC) through I/O ports. The
-- state of the machine is passed along. A buffer `indata` is the list of the bytes written at its front.
pub mod Command
pub mod Device
pub mod Request
pub mod Reply
pub mod Exchange
pub mod Reported
pub mod Answer
pub mod Release
mod Tests
use mosys.Common.{
  ℕ, zero, suc, ◌+◌, ◌-◌, ◌*◌, ◌/◌, ◌%◌, bit_and, bit_or, Bool, true, false, not, ◌||◌, Option,
  none, some, ltb, ◌==◌, if◌then◌else◌, List, [], ◌∷◌, ◌++◌, u8, length, get_or,
}
use mosys.Math.Checksum.{byte_sum}

-- The port functions of the platform. A read gives `none` if it fails, and a write tells if it succeeds.
pub record Ports (W : Type 0) : Type 0 where
  pub io_read8 : W → ℕ → Option ℕ × W
  pub io_write8 : W → ℕ → ℕ → Bool × W
  pub usleep : W → ℕ → W

-- 0, or minus a number.
pub data EcRc : Type 0 where
  zero_rc : EcRc
  negative : ℕ → EcRc

abbrev pub ec_lpc_addr_host_data : ℕ
ec_lpc_addr_host_data = 0x200

abbrev pub ec_lpc_addr_host_cmd : ℕ
ec_lpc_addr_host_cmd = 0x204

abbrev pub ec_lpc_addr_host_args : ℕ
ec_lpc_addr_host_args = 0x800

abbrev pub ec_lpc_addr_host_param : ℕ
ec_lpc_addr_host_param = 0x804

abbrev pub ec_lpc_addr_host_packet : ℕ
ec_lpc_addr_host_packet = 0x800

abbrev pub ec_lpc_addr_old_param : ℕ
ec_lpc_addr_old_param = 0x880

abbrev pub ec_lpc_addr_memmap : ℕ
ec_lpc_addr_memmap = 0x900

-- EC_LPC_STATUS_BUSY_MASK.
abbrev pub is_busy : ℕ → Bool
is_busy status = not (bit_and status 0x06 == 0)

-- The 8 bytes of a `struct ec_host_request` with the checksum `checksum`.
abbrev pub ec_host_request : ℕ → ℕ → ℕ → ℕ → List ℕ
ec_host_request checksum command command_version data_len =
    3
    ∷ checksum
    ∷ command % 256
    ∷ command / 256 % 256
    ∷ u8 command_version
    ∷ 0
    ∷ data_len % 256
    ∷ data_len / 256 % 256
    ∷ []

-- EC_CMD_PASSTHRU_OFFSET of the device.
abbrev pub device_command : ℕ → ℕ → ℕ
device_command device_index command = bit_or command (0x4000 * device_index)

-- The header of a request; all its bytes and those of the data sum to 0.
abbrev pub request_header : ℕ → ℕ → ℕ → List ℕ → List ℕ
request_header device_index command command_version outdata =
    let command' = device_command device_index command in
    let csum =
      byte_sum outdata + byte_sum (ec_host_request 0 command' command_version (length outdata)) in
    ec_host_request (u8 (256 - u8 csum)) command' command_version (length outdata)

-- The fields of a `struct ec_host_response`.
abbrev pub rs_struct_version : List ℕ → ℕ
rs_struct_version rs = get_or rs 0 0

abbrev pub rs_data_len : List ℕ → ℕ
rs_data_len rs = get_or rs 4 0 + 256 * get_or rs 5 0

abbrev pub rs_reserved : List ℕ → ℕ
rs_reserved rs = get_or rs 6 0 + 256 * get_or rs 7 0

module _ {W : Type 0} (io : Ports W) where
  -- The rounds of 10 microseconds that are left.
  unfoldable pub wait_loop : ℕ → W → ℕ → Bool × W
  wait_loop zero w status_addr = (false, w)
  wait_loop (suc rounds) w status_addr =
      let (status, w') = io.io_read8 (io.usleep w 10) status_addr in
      elim status [
        | none ↦ (false, w')
        | some value ↦ elim (is_busy value) [
          | false ↦ (true, w')
          | true ↦ wait_loop rounds w' status_addr
        ]
      ]

  -- Whether the EC is not busy.
  abbrev pub wait_for_ec : W → ℕ → ℕ → Bool × W
  wait_for_ec w status_addr timeout_usec = wait_loop (timeout_usec / 10) w status_addr

  -- The loop over the bytes from the port `addr` on, with its variable `i`, which is kept behind it. What
  -- the writes give is not looked at.
  unfoldable pub write_all : ℕ → W → ℕ → List ℕ → ℕ × W
  write_all i w addr [] = (i, w)
  write_all i w addr (b ∷ bytes) = write_all (i + 1) (io.io_write8 w addr b).1 (addr + 1) bytes

  abbrev pub read_before : ℕ → List ℕ × Bool × W → List ℕ × Bool × W
  read_before b (bytes, all, w) = (b ∷ bytes, all, w)

  -- As many bytes as `n` from the port `addr` on, and whether none of the reads failed.
  unfoldable pub read_bytes : ℕ → W → ℕ → List ℕ × Bool × W
  read_bytes zero w addr = ([], true, w)
  read_bytes (suc n) w addr =
      let (value, w') = io.io_read8 w addr in
      let rest = read_bytes n w' (addr + 1) in
      elim value [ none ↦ ([], false, w') | some b ↦ read_before b rest ]

  -- With the response's header `rs` and what the read of its data gave.
  abbrev pub verify_checksum : List ℕ → List ℕ × Bool × W → EcRc × List ℕ × W
  verify_checksum rs (bytes, all, w) =
      if not all
      then (negative 1, bytes, w)
      else if not (u8 (byte_sum rs + byte_sum bytes) == 0)
      then (negative 1, bytes, w)
      else (zero_rc, bytes, w)

  -- With what the read of the response's header gave.
  abbrev pub read_data : ℕ → List ℕ × Bool × W → EcRc × List ℕ × W
  read_data insize (rs, all, w) =
      if not all
      then (negative 1, [], w)
      else if not (rs_struct_version rs == 3)
      then (negative 1, [], w)
      else if not (rs_reserved rs == 0)
      then (negative 1, [], w)
      else if ltb insize (rs_data_len rs)
      then (negative 1, [], w)
      else verify_checksum rs (read_bytes (rs_data_len rs) w (ec_lpc_addr_host_packet + 8))

  -- The answer of the EC to a request of version 3.
  abbrev pub read_response : W → ℕ → EcRc × List ℕ × W
  read_response w insize = read_data insize (read_bytes 8 w ec_lpc_addr_host_packet)

  -- With the loop variable `i` and the read of the result code. An error gives minus the loop variable.
  abbrev pub check_code : ℕ → ℕ → Option ℕ × W → EcRc × List ℕ × W
  check_code i insize (none, w) = (negative 1, [], w)
  check_code i insize (some out, w) =
      if out == 0 then read_response w insize else (negative i, [], w)

  -- With what the wait for the answer gave.
  abbrev pub check_ready : ℕ → ℕ → Bool × W → EcRc × List ℕ × W
  check_ready i insize (ready, w) =
      if not ready
      then (negative 1, [], w)
      else check_code i insize (io.io_read8 w ec_lpc_addr_host_data)

  unfoldable pub check_result : ℕ → W → ℕ → EcRc × List ℕ × W
  check_result i w insize = check_ready i insize (wait_for_ec w ec_lpc_addr_host_cmd 1000000)

  -- The request in the packet window: first the data, then the header. The loop variable, which each
  -- loop starts at 0, comes from the last one.
  abbrev pub write_request : W → ℕ → ℕ → ℕ → List ℕ → ℕ × W
  write_request w device_index command command_version outdata =
      let w' = (write_all 0 w (ec_lpc_addr_host_packet + 8) outdata).1 in
      write_all 0 w' ec_lpc_addr_host_packet
        (request_header device_index command command_version outdata)

  -- With the start of the command.
  abbrev pub send_request : W → ℕ → ℕ → ℕ → List ℕ → ℕ × W
  send_request w device_index command command_version outdata =
      let (i, w') = write_request w device_index command command_version outdata in
      (i, (io.io_write8 w' ec_lpc_addr_host_cmd 0xda).1)

  unfoldable pub cros_ec_command_lpc_v3 : W → ℕ → ℕ → ℕ → ℕ → List ℕ → EcRc × List ℕ × W
  cros_ec_command_lpc_v3 w device_index command command_version insize outdata =
      if ltb 0x100 (length outdata + 8)
      then (negative 1, [], w)
      else let (i, w') = send_request w device_index command command_version outdata in
        check_result i w' insize
