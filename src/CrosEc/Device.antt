-- ===== src/CrosEc/Device.antt =====
-- drivers/google/cros_ec.c: what the program asks of the embedded controller, over the command function
-- of the bus that it is found on. A buffer that the code does not initialise is an argument.
pub mod Probe
mod Tests
use mathlib.Core.Option
use mosys.Common.{
  ℕ, ◌+◌, ◌*◌, ◌^◌, Bool, true, false, not, Option, none, some, ◌==◌, if◌then◌else◌, List, [], ◌∷◌,
  ◌++◌, length, get_or, take, drop, Rc, ok, failed,
}
use mosys.Vbnv.Hex.{hex_text, parse_pairs}
use mosys.Locks.{Semaphores}
use mosys.CrosEc.{Ports, EcRc, zero_rc, negative}
use mosys.CrosEc.Command.{EcState, cros_ec_command_lpc}

-- `priv->cmd`: the command, its version, the size of the buffer and the data that are sent; it gives the
-- bytes at the front of the buffer.
abbrev pub EcCmd : Type 0 → Type 0
EcCmd W = W → ℕ → ℕ → ℕ → List ℕ → EcRc × List ℕ × W

-- The buffer, after bytes were written at its front.
abbrev pub filled : List ℕ → List ℕ → List ℕ
filled bytes buffer = bytes ++ drop (length bytes) buffer

abbrev pub word32 : List ℕ → ℕ
word32 bytes =
    get_or bytes 0 0
    + 2 ^ 8 * get_or bytes 1 0
    + 2 ^ 16 * get_or bytes 2 0
    + 2 ^ 24 * get_or bytes 3 0

abbrev pub ec_vbnv_block_size : ℕ
ec_vbnv_block_size = 16

-- 0xf0e0d0c0 in little endian.
abbrev pub hello_request : List ℕ
hello_request = 0xc0 ∷ 0xd0 ∷ 0xe0 ∷ 0xf0 ∷ []

module _ {W : Type 0} (cmd : EcCmd W) where
  -- The response is sent, as it stands on the stack, and the answer is written over the request.
  unfoldable pub cros_ec_hello : W → List ℕ → EcRc × W
  cros_ec_hello w response =
      let (rv, request, w') = cmd w 0x01 0 4 response in
      elim rv [
        | negative n ↦ (negative n, w')
        | zero_rc ↦ (if word32 response == 0xa1b2c3d4 then zero_rc else negative 1, w')
      ]

  -- With the outcome of the command.
  abbrev pub hello_answered : List ℕ → EcRc × List ℕ × W → ℕ × W
  hello_answered response (negative n, bytes, w) = (0, w)
  hello_answered response (zero_rc, bytes, w) =
      (if word32 (filled bytes response) == 0xf1e2d3c4 then 1 else 0, w)

  -- No pointer on the way is NULL.
  abbrev pub cros_ec_detect : W → List ℕ → ℕ × W
  cros_ec_detect w response = hello_answered response (cmd w 0x01 0 4 hello_request)

  -- `none` is -1.
  abbrev pub board_version_of : List ℕ → EcRc × List ℕ × W → Option ℕ × W
  board_version_of response (negative n, bytes, w) = (none, w)
  board_version_of response (zero_rc, bytes, w) =
      (some (get_or (filled bytes response) 0 0 + 2 ^ 8 * get_or (filled bytes response) 1 0), w)

  abbrev pub cros_ec_board_version : W → List ℕ → Option ℕ × W
  cros_ec_board_version w response = board_version_of response (cmd w 0x06 0 2 [])

  abbrev pub context_read : List ℕ → EcRc × List ℕ × W → Option (List ℕ) × W
  context_read block (negative n, bytes, w) = (none, w)
  context_read block (zero_rc, bytes, w) = (some (filled bytes block), w)

  -- The request has the operation only, EC_VBNV_CONTEXT_OP_READ; `none` is -1.
  abbrev pub cros_ec_vbnvcontext_read : W → List ℕ → Option (List ℕ) × W
  cros_ec_vbnvcontext_read w block =
      context_read block (cmd w 0x17 1 ec_vbnv_block_size (0 ∷ 0 ∷ 0 ∷ 0 ∷ []))

  abbrev pub context_written : EcRc × List ℕ × W → Rc × W
  context_written (negative n, bytes, w) = (failed, w)
  context_written (zero_rc, bytes, w) = (ok, w)

  -- EC_VBNV_CONTEXT_OP_WRITE with the 16 bytes of the block.
  abbrev pub cros_ec_vbnvcontext_write : W → List ℕ → Rc × W
  cros_ec_vbnvcontext_write w block =
      context_written (cmd w 0x17 1 0 (1 ∷ 0 ∷ 0 ∷ 0 ∷ take ec_vbnv_block_size block))

  -- The text that is printed under the key "vbnvcontext", if the read succeeds.
  unfoldable pub cros_ec_vboot_read : W → List ℕ → Option (List ℕ) × W
  cros_ec_vboot_read w block =
      let (result, w') = cros_ec_vbnvcontext_read w block in
      (Option.map (λ bytes. hex_text (take ec_vbnv_block_size bytes)) result, w')

  unfoldable pub cros_ec_vboot_write : W → List ℕ → Rc × W
  cros_ec_vboot_write w hexstring =
      if not (length hexstring == ec_vbnv_block_size * 2)
      then (failed, w)
      else cros_ec_vbnvcontext_write w (parse_pairs hexstring)

-- The EC on the LPC bus has the device index 0.
module _ {W : Type 0} (os : Semaphores W) (io : Ports W) where
  abbrev pub lpc_cmd : ℕ → EcCmd (EcState W)
  lpc_cmd device_index s command command_version insize outdata =
      cros_ec_command_lpc os io s (some device_index) command command_version insize outdata

  abbrev pub cros_ec_probe_lpc : EcState W → List ℕ → ℕ × EcState W
  cros_ec_probe_lpc s response = cros_ec_detect (lpc_cmd 0) s response

  abbrev pub cros_pd_probe_lpc : EcState W → List ℕ → ℕ × EcState W
  cros_pd_probe_lpc s response = cros_ec_detect (lpc_cmd 1) s response
