-- ===== src/CrosEc/Reported.antt =====
-- The error codes of a command of version 3, in drivers/google/cros_ec_lpc.c.
use mosys.Common.{
  ℕ, ◌+◌, ◌≤◌, ◌≡◌, ◌≢◌, ◌↔◌, refl, ap, ◌∙◌, Bool, true, false, Option, none, some, ltb, ◌==◌,
  if◌then◌else◌, Bool-cases, inl, inr, List, [], ◌∷◌, length, arith, ltb→ge, u8, not,
}
use mosys.Math.Checksum.{byte_sum}
use mosys.CrosEc.{
  rs_struct_version, rs_reserved, rs_data_len, read_bytes, ec_lpc_addr_host_packet, Ports, EcRc,
  zero_rc, negative, ec_lpc_addr_host_data, ec_lpc_addr_host_cmd, wait_for_ec, verify_checksum,
  read_data, read_response, check_code, check_ready, check_result, write_all, request_header,
  send_request, cros_ec_command_lpc_v3,
}

module _ {W : Type 0} (io : Ports W) where
  -- The loop over some bytes moves its variable by their number.
  write_all-length :
      (bytes : List ℕ) (i : ℕ) (w : W) (addr : ℕ)
      → (write_all io i w addr bytes).0 ≡ i + length bytes
  unfolding write_all
  write_all-length [] i w addr = omega arith
  write_all-length (b ∷ bytes) i w addr =
      write_all-length bytes (i + 1) (io.io_write8 w addr b).1 (addr + 1) ∙ omega arith

  send_request-length :
      (w : W) (device_index command command_version : ℕ) (outdata : List ℕ)
      → (send_request io w device_index command command_version outdata).0 ≡ 8
  send_request-length w device_index command command_version outdata =
      write_all-length (request_header device_index command command_version outdata) 0 _ _

  -- The outcome 0 or -1.
  data IsPlain (t : EcRc × List ℕ × W) : Type 0 where
    is_fine : t.0 ≡ zero_rc → IsPlain t
    is_failed : t.0 ≡ negative 1 → IsPlain t

  IsPlain-if :
      (b : Bool) (x y : EcRc × List ℕ × W) → IsPlain x → IsPlain y → IsPlain (if b then x else y)
  IsPlain-if true x y fine other = fine
  IsPlain-if false x y other fine = fine

  verify_checksum-IsPlain :
      (rs : List ℕ) (t : List ℕ × Bool × W) → IsPlain (verify_checksum io rs t)
  verify_checksum-IsPlain rs (bytes, all, w) = IsPlain-if (not all) _ _ (is_failed refl) (
      IsPlain-if (not (u8 (byte_sum rs + byte_sum bytes) == 0)) _ _ (is_failed refl) (is_fine refl))

  read_data-IsPlain : (insize : ℕ) (t : List ℕ × Bool × W) → IsPlain (read_data io insize t)
  read_data-IsPlain insize (rs, all, w) = IsPlain-if (not all) _ _ (is_failed refl) (
      IsPlain-if (not (rs_struct_version rs == 3)) _ _ (is_failed refl) (
        IsPlain-if (not (rs_reserved rs == 0)) _ _ (is_failed refl) (
          IsPlain-if (ltb insize (rs_data_len rs)) _ _ (is_failed refl) (
            verify_checksum-IsPlain rs
              (read_bytes io (rs_data_len rs) w (ec_lpc_addr_host_packet + 8))))))

  IsPlain-not_8 : (t : EcRc × List ℕ × W) → IsPlain t → t.0 ≢ negative 8
  IsPlain-not_8 t (is_fine fine) e = absurd (cc (fine, e))
  IsPlain-not_8 t (is_failed bad) e = absurd (cc (bad, e))

  -- The request fits, the EC is ready in time behind its start, and then it reports an error.
  pub record IsReported (sent : W) (outdata : List ℕ) : Type 0 where
    pub fitting : length outdata + 8 ≤ 0x100
    pub before : W
    pub reported : W
    pub out : ℕ
    pub ready : wait_for_ec io sent ec_lpc_addr_host_cmd 1000000 ≡ (true, before)
    pub code : io.io_read8 before ec_lpc_addr_host_data ≡ (some out, reported)
    pub bad : out ≢ 0

  module _ (outdata : List ℕ) (insize : ℕ) (sent : W) where
    check_code-IsReported :
        (i : ℕ) (before : W) (t : Option ℕ × W)
        → length outdata + 8 ≤ 0x100
        → wait_for_ec io sent ec_lpc_addr_host_cmd 1000000 ≡ (true, before)
        → io.io_read8 before ec_lpc_addr_host_data ≡ t
        → (check_code io i insize t).0 ≡ negative 8
        → IsReported sent outdata
    check_code-IsReported i before (none, w) fits ready code h = absurd (cc h)
    check_code-IsReported i before (some out, w) fits ready code h = elim (Bool-cases (out == 0)) [
      | inl fine ↦ absurd (
          IsPlain-not_8 (read_response io w insize)
            (read_data-IsPlain insize (read_bytes io 8 w ec_lpc_addr_host_packet)) (rw fine at h))
      | inr bad ↦ record {
        fitting = fits;
        before = before;
        reported = w;
        out = out;
        ready = ready;
        code = code;
        bad = ground arith;
      }
    ]

    check_ready-IsReported :
        (i : ℕ) (t : Bool × W)
        → length outdata + 8 ≤ 0x100
        → wait_for_ec io sent ec_lpc_addr_host_cmd 1000000 ≡ t
        → (check_ready io i insize t).0 ≡ negative 8
        → IsReported sent outdata
    check_ready-IsReported i (false, w) fits ready h = absurd (cc h)
    check_ready-IsReported i (true, w) fits ready h = check_code-IsReported i w _ fits ready refl h

    IsReported-check_result :
        (i : ℕ) → IsReported sent outdata → (check_result io i sent insize).0 ≡ negative i
    unfolding check_result
    IsReported-check_result i r =
        ap (λ (t : EcRc × List ℕ × W). t.0)
          (ap (check_ready io i insize) r.ready ∙ ap (check_code io i insize) r.code)
        ∙ rw (refused) refl
      where
        refused : (r.out == 0) ≡ false
        refused = let bad = r.bad in ground arith

  -- A command of version 3 gives -8 exactly if its request fits, the EC is ready in time and it reports
  -- an error, whatever the error is: the number is that of the bytes of the request's header.
  pub cros_ec_command_lpc_v3-IsReported :
      (w : W) (device_index command command_version insize : ℕ) (outdata : List ℕ)
      → ((cros_ec_command_lpc_v3 io w device_index command command_version insize outdata).0
          ≡ negative 8)
        ↔ IsReported (send_request io w device_index command command_version outdata).1 outdata
  unfolding cros_ec_command_lpc_v3 check_result
  cros_ec_command_lpc_v3-IsReported w device_index command command_version insize outdata =
      (forth, back)
    where
      sent : ℕ × W
      sent = send_request io w device_index command command_version outdata

      forth :
          (cros_ec_command_lpc_v3 io w device_index command command_version insize outdata).0
            ≡ negative 8
          → IsReported sent.1 outdata
      forth h = elim (Bool-cases (ltb 0x100 (length outdata + 8))) [
        | inl long ↦ absurd (cc (rw long at h))
        | inr fitting ↦
            check_ready-IsReported outdata insize sent.1 sent.0 _ (ltb→ge _ _ fitting) refl
              (rw fitting at h)
      ]

      back :
          IsReported sent.1 outdata
          → (cros_ec_command_lpc_v3 io w device_index command command_version insize outdata).0
            ≡ negative 8
      back r = rw (fitting) (
          IsReported-check_result outdata insize sent.1 sent.0 r
          ∙ ap negative (send_request-length w device_index command command_version outdata))
        where
          fitting : ltb 0x100 (length outdata + 8) ≡ false
          fitting = let fits = r.fitting in ground arith
