-- ===== src/CrosEc/Answer.antt =====
-- A command of version 3 and the response of an EC that has data, in drivers/google/cros_ec_lpc.c.
use mosys.Common.{
  ℕ, ◌+◌, ◌-◌, ◌*◌, ◌/◌, ◌%◌, ◌≤◌, ◌≡◌, refl, sym, ap, ◌∙◌, subst, true, false, some, ltb, ==_iff,
  List, ◌∷◌, ◌++◌, u8, length, take, drop, arith,
}
use mosys.Math.Checksum.{byte_sum}
use mosys.CrosEc.{
  Ports, zero_rc, ec_lpc_addr_host_data, ec_lpc_addr_host_cmd, ec_lpc_addr_host_packet, rs_data_len,
  wait_for_ec, read_data, read_response, check_code, check_ready, check_result, send_request,
  cros_ec_command_lpc_v3,
}
use mosys.CrosEc.Request.{PacketWindow, region}
use mosys.CrosEc.Reply.{
  Checked, read_data-accepts, first_read, second_read, header, payload, packet_lem,
}

-- The response of an EC that has the data `bytes`.
abbrev pub ec_response : List ℕ → List ℕ
ec_response bytes =
    let csum = byte_sum bytes + 3 + length bytes % 256 + length bytes / 256 in
    3 ∷ u8 (256 - u8 csum) ∷ 0 ∷ 0 ∷ length bytes % 256 ∷ length bytes / 256 ∷ 0 ∷ 0 ∷ bytes

module _ {W : Type 0} (io : Ports W) (laws : PacketWindow io) where
  open laws use {window}

  response_header : List ℕ → List ℕ
  response_header bytes = take 8 (ec_response bytes)

  response_header-Checked :
      (insize : ℕ) (bytes : List ℕ)
      → length bytes ≤ insize
      → Checked insize (response_header bytes) bytes
  unfolding response_header
  response_header-Checked insize bytes small = record {
    version = refl;
    reserved = refl;
    small = fits (length bytes) small;
    sums = (==_iff _ _).1 (zero_sum (byte_sum bytes) (length bytes));
  }
    where
      fits : (n : ℕ) → n ≤ insize → ltb insize (n % 256 + 256 * (n / 256)) ≡ false
      fits n h = ground arith

      zero_sum :
          (s n : ℕ)
          → u8 (
              3
              + (u8 (256 - u8 (s + 3 + n % 256 + n / 256))
                  + (0 + (0 + (n % 256 + (n / 256 + (0 + (0 + 0)))))))
              + s)
            ≡ 0
      zero_sum s n = omega arith

  module _ (w : W) (insize : ℕ) (bytes : List ℕ) (most : insize ≤ 248) where
    read_response-ec_response :
        length bytes ≤ insize
        → region (window w) ec_lpc_addr_host_packet (8 + length bytes) ≡ ec_response bytes
        → (w' : W) × (read_response io w insize ≡ (zero_rc, bytes, w'))
    unfolding response_header
    read_response-ec_response small answer =
        let (w', two) = second_read io laws w insize most few in
        (
          w',
          ap (read_data io insize) (first_read io laws w insize most).1
              ∙ read_data-accepts io insize (header io laws w insize most)
                  (payload io laws w insize most) (first_read io laws w insize most).0 w' two
                  checked
              ∙ ap (λ bs. (zero_rc, bs, w')) tail,
        )
      where
        parts :
            header io laws w insize most ++ region (window w) 0x808 (length bytes)
            ≡ ec_response bytes
        parts = sym (packet_lem io laws w insize most (length bytes)) ∙ answer

        head : header io laws w insize most ≡ response_header bytes
        head = ap (take 8) parts

        long : rs_data_len (header io laws w insize most) ≡ length bytes
        long = ap rs_data_len head ∙ omega arith

        few : rs_data_len (header io laws w insize most) ≤ insize
        few = omega (arith, long)

        tail : payload io laws w insize most ≡ bytes
        tail = ap (region (window w) 0x808) long ∙ ap (drop 8) parts

        checked : Checked insize (header io laws w insize most) (payload io laws w insize most)
        checked =
            subst (λ bs. Checked insize (header io laws w insize most) bs) (sym tail)
              (subst (λ h. Checked insize h bytes) (sym head)
                (response_header-Checked insize bytes small))

  -- If the request fits, the EC is ready in time with the result code 0, and the packet window then holds
  -- the response with some data that fit in the buffer, then the command gives 0 and these data.
  pub cros_ec_command_lpc_v3-ec_response :
      (w w1 w2 : W) (device_index command command_version insize : ℕ) (outdata bytes : List ℕ)
      → length outdata + 8 ≤ 0x100
      → length bytes ≤ insize
      → insize ≤ 248
      → wait_for_ec io
          (send_request io w device_index command command_version outdata).1
          ec_lpc_addr_host_cmd
          1000000
        ≡ (true, w1)
      → io.io_read8 w1 ec_lpc_addr_host_data ≡ (some 0, w2)
      → region (window w2) ec_lpc_addr_host_packet (8 + length bytes) ≡ ec_response bytes
      → (w' : W) × (cros_ec_command_lpc_v3 io w device_index command command_version insize outdata
          ≡ (zero_rc, bytes, w'))
  unfolding cros_ec_command_lpc_v3 check_result
  cros_ec_command_lpc_v3-ec_response w w1 w2 device_index command command_version insize outdata
        bytes fits small most ready code answer =
      let (w', received) = read_response-ec_response w2 insize bytes most small answer in
      (
        w',
        rw (fitting)
            (ap (check_ready io _ insize) ready ∙ ap (check_code io _ insize) code ∙ received),
      )
    where
      fitting : ltb 0x100 (length outdata + 8) ≡ false
      fitting = ground arith
