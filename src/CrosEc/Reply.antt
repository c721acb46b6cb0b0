-- ===== src/CrosEc/Reply.antt =====
-- The answers of the EC to a request of version 3 in drivers/google/cros_ec_lpc.c.
use mosys.Common.{
  ℕ, zero, suc, ◌+◌, ◌≤◌, ◌≡◌, refl, sym, ap, ◌∙◌, subst, Bool, true, false, not, Option, none,
  some, ltb, ◌==◌, ==_iff, if◌then◌else◌, List, [], ◌∷◌, ◌++◌, u8, length, drop, arith, ltb→ge,
}
use mosys.Math.Checksum.{byte_sum, byte_sum-append}
use mosys.CrosEc.{
  Ports, EcRc, zero_rc, negative, rs_struct_version, rs_data_len, rs_reserved, read_bytes,
  read_before, verify_checksum, read_data, read_response,
}
use mosys.CrosEc.Request.{PacketWindow, region, region-append, region_same}

-- A packet of version 3 with the data at its end, whose bytes all sum to 0.
pub record IsResponse (packet bytes : List ℕ) : Type 0 where
  pub version : rs_struct_version packet ≡ 3
  pub reserved : rs_reserved packet ≡ 0
  pub measured : rs_data_len packet ≡ length bytes
  pub sums : u8 (byte_sum packet) ≡ 0
  pub carried : drop 8 packet ≡ bytes

-- The checks on the way to the result 0.
module _ {W : Type 0} (y z : EcRc × List ℕ × W) (no_good : y.0 ≡ negative 1) where
  pub passed : (b : Bool) → (if not b then y else z).0 ≡ zero_rc → (b ≡ true) × (z.0 ≡ zero_rc)
  passed true h = (refl, h)
  passed false h = absurd (cc (no_good, h))

  pub passed_not : (b : Bool) → (if b then y else z).0 ≡ zero_rc → (b ≡ false) × (z.0 ≡ zero_rc)
  passed_not false h = (refl, h)
  passed_not true h = absurd (cc (no_good, h))

length-region : (f : ℕ → ℕ) (addr n : ℕ) → length (region f addr n) ≡ n
length-region f addr zero = refl
length-region f addr (suc n) = omega (arith, length-region f (addr + 1) n)

-- What `read_data` looks at.
pub record Checked (insize : ℕ) (rs payload : List ℕ) : Type 0 where
  pub version : (rs_struct_version rs == 3) ≡ true
  pub reserved : (rs_reserved rs == 0) ≡ true
  pub small : ltb insize (rs_data_len rs) ≡ false
  pub sums : (u8 (byte_sum rs + byte_sum payload) == 0) ≡ true

module _ {W : Type 0} (io : Ports W) (insize : ℕ) (rs payload : List ℕ) (w w' : W) where
  pub read_data-accepts :
      read_bytes io (rs_data_len rs) w 0x808 ≡ (payload, true, w')
      → Checked insize rs payload
      → read_data io insize (rs, true, w) ≡ (zero_rc, payload, w')
  read_data-accepts here c =
      rw (c.version, c.reserved, c.small) (ap (verify_checksum io rs) here ∙ rw (c.sums) refl)

  read_data-small :
      (read_data io insize (rs, true, w)).0 ≡ zero_rc → (ltb insize (rs_data_len rs) ≡ false)
  read_data-small h =
      let (version, h1) = passed _ _ refl (rs_struct_version rs == 3) h in
      let (reserved, h2) = passed _ _ refl (rs_reserved rs == 0) h1 in
      (passed_not _ _ refl (ltb insize (rs_data_len rs)) h2).0

  read_data-Checked :
      read_bytes io (rs_data_len rs) w 0x808 ≡ (payload, true, w')
      → (read_data io insize (rs, true, w)).0 ≡ zero_rc
      → Checked insize rs payload
  read_data-Checked here h =
      let (version, h1) = passed _ _ refl (rs_struct_version rs == 3) h in
      let (reserved, h2) = passed _ _ refl (rs_reserved rs == 0) h1 in
      let (small, h3) = passed_not _ _ refl (ltb insize (rs_data_len rs)) h2 in
      let (sums, h4) =
        passed (negative 1, payload, w') (zero_rc, payload, w') refl
          (u8 (byte_sum rs + byte_sum payload) == 0)
          (subst (λ t. (verify_checksum io rs t).0 ≡ zero_rc) here h3) in
      record { version = version; reserved = reserved; small = small; sums = sums }

module _ {W : Type 0} (io : Ports W) (laws : PacketWindow io) where
  open laws use {window}

  read_bytes-step :
      (n : ℕ) (w w' : W) (addr b : ℕ)
      → io.io_read8 w addr ≡ (some b, w')
      → read_bytes io (suc n) w addr ≡ read_before io b (read_bytes io n w' (addr + 1))
  unfolding read_bytes
  read_bytes-step n w w' addr b here =
      ap {A = Option ℕ × W} {B = List ℕ × Bool × W}
        (λ t. elim t.0 [
          | none ↦ ([], false, t.1)
          | some x ↦ read_before io x (read_bytes io n t.1 (addr + 1))
        ])
        here

  read_bytes-zero : (w : W) (addr : ℕ) → read_bytes io 0 w addr ≡ ([], true, w)
  unfolding read_bytes
  read_bytes-zero w addr = refl

  read_bytes-region :
      (n : ℕ) (w : W) (addr : ℕ)
      → 0x800 ≤ addr
      → addr + n ≤ 0x900
      → (w' : W) × (read_bytes io n w addr ≡ (region (window w) addr n, true, w'))
        × ((c : ℕ) → window w' c ≡ window w c)
  read_bytes-region zero w addr lo hi = (w, read_bytes-zero w addr, λ c. refl)
  read_bytes-region (suc n) w addr lo hi =
      let (w1, here, same1) = laws.read_window w addr lo (omega arith) in
      let (w2, rest, same2) = read_bytes-region n w1 (addr + 1) (omega arith) (omega arith) in
      (
        w2,
        read_bytes-step n w w1 addr (window w addr) here
            ∙ ap (read_before io (window w addr)) rest
            ∙ ap (λ bs. (window w addr ∷ bs, true, w2))
                (region_same _ _ (addr + 1) n (λ c a b. same1 c)),
        λ c. same2 c ∙ same1 c,
      )

  -- What `read_response` makes of the packet in the window.
  module _ (w : W) (insize : ℕ) (fits : insize ≤ 248) where
    abbrev pub header : List ℕ
    header = region (window w) 0x800 8

    abbrev pub payload : List ℕ
    payload = region (window w) 0x808 (rs_data_len header)

    pub first_read :
        (w1 : W) × (read_bytes io 8 w 0x800 ≡ (header, true, w1))
        × ((c : ℕ) → window w1 c ≡ window w c)
    first_read = read_bytes-region 8 w 0x800 (omega arith) (omega arith)

    pub second_read :
        rs_data_len header ≤ insize
        → (w2 : W) × (read_bytes io (rs_data_len header) first_read.0 0x808 ≡ (payload, true, w2))
    second_read small =
        let (w2, rest, same2) =
          read_bytes-region (rs_data_len header) first_read.0 0x808 (omega arith) (omega arith) in
        (
          w2,
          rest
              ∙ ap (λ bs. (bs, true, w2))
                  (region_same _ _ 0x808 (rs_data_len header) (λ c a b. first_read.2 c)),
        )

    accepted :
        (read_response io w insize).0 ≡ zero_rc
        → (w2 : W) × (read_response io w insize ≡ (zero_rc, payload, w2))
          × Checked insize header payload
    accepted h =
        let one = ap (read_data io insize) first_read.1 in
        let h' = ap {B = EcRc} (λ t. t.0) (sym one) ∙ h in
        let small = read_data-small io insize header payload first_read.0 first_read.0 h' in
        let (w2, two) = second_read (ltb→ge _ _ small) in
        let checked = read_data-Checked io insize header payload first_read.0 w2 two h' in
        (w2, one ∙ read_data-accepts io insize header payload first_read.0 w2 two checked, checked)

    -- The packet, in its two parts.
    pub packet_lem : (n : ℕ) → region (window w) 0x800 (8 + n) ≡ header ++ region (window w) 0x808 n
    packet_lem n = region-append (window w) 8 n 0x800

    pub read_response-IsResponse :
        (read_response io w insize).0 ≡ zero_rc
        → IsResponse
            (region (window w) 0x800 (8 + length (read_response io w insize).1))
            (read_response io w insize).1
          × (length (read_response io w insize).1 ≤ insize)
    read_response-IsResponse h =
        let (w2, e, c) = accepted h in
        let long = length-region (window w) 0x808 (rs_data_len header) in
        rw (e, long, packet_lem (rs_data_len header))
          (
            record {
              version = (==_iff _ _).0 c.version;
              reserved = (==_iff _ _).0 c.reserved;
              measured = sym long;
              sums = ap u8 (byte_sum-append header payload) ∙ (==_iff _ _).0 c.sums;
              carried = refl;
            },
            ltb→ge _ _ c.small,
          )
