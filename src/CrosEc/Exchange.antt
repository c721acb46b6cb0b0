-- ===== src/CrosEc/Exchange.antt =====
-- A command of version 3 from end to end, in drivers/google/cros_ec_lpc.c.
use mosys.Common.{
  ℕ, ◌+◌, ◌≤◌, ◌≡◌, refl, sym, ap, subst, Bool, true, false, Option, none, some, ltb, ◌==◌, ==_iff,
  Bool-cases, inl, inr, List, length, ltb→ge,
}
use mosys.CrosEc.{
  Ports, EcRc, zero_rc, ec_lpc_addr_host_data, ec_lpc_addr_host_cmd, ec_lpc_addr_host_packet,
  wait_for_ec, read_response, check_code, check_ready, check_result, send_request,
  cros_ec_command_lpc_v3,
}
use mosys.CrosEc.Request.{PacketWindow, region}
use mosys.CrosEc.Reply.{IsResponse, passed_not, read_response-IsResponse}

module _ {W : Type 0} (io : Ports W) where
  -- The outcome 0 comes from a response that is read after the result code 0.
  check_result-read :
      (i : ℕ) (w : W) (insize : ℕ)
      → (check_result io i w insize).0 ≡ zero_rc
      → (w1 : W) × (w2 : W) × (io.io_read8 w1 ec_lpc_addr_host_data ≡ (some 0, w2))
        × (check_result io i w insize ≡ read_response io w2 insize)
  unfolding check_result
  check_result-read i w insize h = go (wait_for_ec io w ec_lpc_addr_host_cmd 1000000) refl h
    where
      code :
          (w1 : W) (t : Option ℕ × W)
          → io.io_read8 w1 ec_lpc_addr_host_data ≡ t
          → (check_code io i insize t).0 ≡ zero_rc
          → (w2 : W) × (t ≡ (some 0, w2)) × (check_code io i insize t ≡ read_response io w2 insize)
      code w1 (none, w2) e h = absurd (cc (h))
      code w1 (some out, w2) e h = elim (Bool-cases (out == 0)) [
        | inl zero_code ↦
            (w2, ap (λ x. (some x, w2)) ((==_iff out 0).0 zero_code), rw (zero_code) refl)
        | inr bad ↦ absurd (cc (rw bad at h))
      ]

      go :
          (t : Bool × W)
          → wait_for_ec io w ec_lpc_addr_host_cmd 1000000 ≡ t
          → (check_ready io i insize t).0 ≡ zero_rc
          → (w1 : W) × (w2 : W) × (io.io_read8 w1 ec_lpc_addr_host_data ≡ (some 0, w2))
            × (check_ready io i insize t ≡ read_response io w2 insize)
      go (false, w1) e h = absurd (cc (h))
      go (true, w1) e h = let (w2, a, b) = code w1 _ refl h in (w1, w2, a, b)

module _ {W : Type 0} (io : Ports W) (laws : PacketWindow io) where
  open laws use {window}

  -- The request fits, and a response with the result code 0 carries the bytes, at most `insize`.
  pub record Exchanged (insize : ℕ) (outdata bytes : List ℕ) : Type 0 where
    pub fitting : length outdata + 8 ≤ 0x100
    pub small : length bytes ≤ insize
    pub before : W
    pub answered : W
    pub code : io.io_read8 before ec_lpc_addr_host_data ≡ (some 0, answered)
    pub response :
        IsResponse (region (window answered) ec_lpc_addr_host_packet (8 + length bytes)) bytes

  read_response-Exchanged :
      (insize : ℕ) (outdata : List ℕ) (w1 w2 : W) (t : EcRc × List ℕ × W)
      → insize ≤ 248
      → length outdata + 8 ≤ 0x100
      → io.io_read8 w1 ec_lpc_addr_host_data ≡ (some 0, w2)
      → t ≡ read_response io w2 insize
      → t.0 ≡ zero_rc
      → Exchanged insize outdata t.1
  read_response-Exchanged insize outdata w1 w2 t fits fitting code same h =
      let (response, small) =
        read_response-IsResponse io laws w2 insize fits (subst (λ x. x.0 ≡ zero_rc) same h) in
      subst (λ x. Exchanged insize outdata x.1) (sym same)
        (record {
          fitting = fitting;
          small = small;
          before = w1;
          answered = w2;
          code = code;
          response = response;
        })

  -- If a command of version 3 gives 0 for a buffer of at most 248 bytes, then the request fitted, the EC
  -- gave the result code 0, and the packet window then held a response of version 3 whose bytes all sum
  -- to 0 modulo 256 and whose data, no more than the buffer takes, are the data in the buffer.
  pub cros_ec_command_lpc_v3-Exchanged :
      (w : W) (device_index command command_version insize : ℕ) (outdata : List ℕ)
      → insize ≤ 248
      → (cros_ec_command_lpc_v3 io w device_index command command_version insize outdata).0
        ≡ zero_rc
      → Exchanged insize outdata
          (cros_ec_command_lpc_v3 io w device_index command command_version insize outdata).1
  unfolding cros_ec_command_lpc_v3
  cros_ec_command_lpc_v3-Exchanged w device_index command command_version insize outdata fits h =
      let (fitting, h') = passed_not _ _ refl (ltb 0x100 (length outdata + 8)) h in
      let (w1, w2, code, same) =
        check_result-read io (send_request io w device_index command command_version outdata).0
          (send_request io w device_index command command_version outdata).1 insize h' in
      rw (fitting)
        (read_response-Exchanged insize outdata w1 w2 _ fits (ltb→ge _ _ fitting) code same h')
