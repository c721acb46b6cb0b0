-- ===== src/CrosEc/Request.antt =====
-- The packet of a request of version 3 in drivers/google/cros_ec_lpc.c.
use mosys.Common.{
  ℕ, zero, suc, ◌+◌, ◌*◌, ◌/◌, ◌%◌, ◌^◌, ◌≤◌, ◌<◌, ◌≡◌, refl, sym, ap, ap₂, ◌∙◌, subst, Bool, true,
  false, some, ◌==◌, ==_iff, if◌then◌else◌, List, [], ◌∷◌, ◌++◌, u8, length, get_or, drop, arith,
  ◌⊎◌, inl, inr,
}
use mosys.Math.Checksum.{byte_sum}
use mosys.CrosEc.{
  Ports, ec_lpc_addr_host_packet, device_command, request_header, write_all, write_request,
}

-- The packet window of the EC: what is written there can be read, and reading changes nothing there.
pub record PacketWindow {W : Type 0} (io : Ports W) : Type 0 where
  pub window : W → ℕ → ℕ
  pub write_window :
      (w : W) (a b c : ℕ)
      → 0x800 ≤ a
      → a < 0x900
      → window (io.io_write8 w a b).1 c ≡ (if c == a then b else window w c)
  pub read_window :
      (w : W) (a : ℕ)
      → 0x800 ≤ a
      → a < 0x900
      → (w' : W) × (io.io_read8 w a ≡ (some (window w a), w'))
        × ((c : ℕ) → window w' c ≡ window w c)

-- The `n` bytes from the port `addr` on.
abbrev pub region : (ℕ → ℕ) → ℕ → ℕ → List ℕ
region window addr zero = []
region window addr (suc n) = window addr ∷ region window (addr + 1) n

pub region-append :
    (f : ℕ → ℕ) (m n addr : ℕ) → region f addr (m + n) ≡ region f addr m ++ region f (addr + m) n
region-append f zero n addr = ap₂ (region f) (omega arith) (omega arith)
region-append f (suc m) n addr =
    more
    ∙ ap (λ bs. f addr ∷ bs)
        (region-append f m n (addr + 1) ∙ ap (λ a. region f (addr + 1) m ++ region f a n) along)
  where
    moved : suc m + n ≡ suc (m + n)
    moved = omega arith

    more : region f addr (suc m + n) ≡ region f addr (suc (m + n))
    more = ap (region f addr) moved

    along : addr + 1 + m ≡ addr + suc m
    along = omega arith

pub region_same :
    (f g : ℕ → ℕ) (addr n : ℕ)
    → ((c : ℕ) → addr ≤ c → c < addr + n → f c ≡ g c)
    → region f addr n ≡ region g addr n
region_same f g addr zero same = refl
region_same f g addr (suc n) same =
    ap₂ (λ b bs. b ∷ bs) (same addr (omega arith) (omega arith))
      (region_same f g (addr + 1) n (λ c lo hi. same c (omega arith) (omega arith)))

module _ {W : Type 0} (io : Ports W) (laws : PacketWindow io) where
  open laws use {window}

  -- Outside of the bytes that are written nothing changes.
  write_all-outside :
      (bytes : List ℕ) (i : ℕ) (w : W) (addr c : ℕ)
      → 0x800 ≤ addr
      → addr + length bytes ≤ 0x900
      → (c < addr) ⊎ (addr + length bytes ≤ c)
      → window (write_all io i w addr bytes).1 c ≡ window w c
  unfolding write_all
  write_all-outside [] i w addr c lo hi out = refl
  write_all-outside (b ∷ bytes) i w addr c lo hi out =
      write_all-outside bytes (i + 1) (io.io_write8 w addr b).1 (addr + 1) c (omega arith)
        (omega arith) (still out)
      ∙ laws.write_window w addr b c lo (omega arith)
      ∙ other (c == addr) ((==_iff c addr).0)
    where
      still :
          (c < addr) ⊎ (addr + suc (length bytes) ≤ c)
          → (c < addr + 1) ⊎ (addr + 1 + length bytes ≤ c)
      still (inl before) = inl (omega arith)
      still (inr after) = inr (omega arith)

      other : (t : Bool) → (t ≡ true → c ≡ addr) → (if t then b else window w c) ≡ window w c
      other false e = refl
      other true e = absurd (apart (e refl) out)
        where
          apart : c ≡ addr → ¬ ((c < addr) ⊎ (addr + suc (length bytes) ≤ c))
          apart same (inl before) = omega arith
          apart same (inr after) = omega arith

  write_all-region :
      (bytes : List ℕ) (i : ℕ) (w : W) (addr : ℕ)
      → 0x800 ≤ addr
      → addr + length bytes ≤ 0x900
      → region (window (write_all io i w addr bytes).1) addr (length bytes) ≡ bytes
  unfolding write_all
  write_all-region [] i w addr lo hi = refl
  write_all-region (b ∷ bytes) i w addr lo hi =
      ap₂ (λ x xs. x ∷ xs)
        (write_all-outside bytes (i + 1) (io.io_write8 w addr b).1 (addr + 1) addr (omega arith)
            (omega arith) (inl (omega arith))
          ∙ laws.write_window w addr b addr lo (omega arith)
          ∙ ground arith)
        (write_all-region bytes (i + 1) (io.io_write8 w addr b).1 (addr + 1) (omega arith)
          (omega arith))

-- What the fields of a request say.
abbrev pub request_length : List ℕ → ℕ
request_length packet = get_or packet 6 0 + 256 * get_or packet 7 0

abbrev pub request_command : List ℕ → ℕ
request_command packet = get_or packet 2 0 + 256 * get_or packet 3 0

-- A packet of version 3 for the command, whose bytes all sum to 0, with the data at its end.
pub record IsRequest (command command_version : ℕ) (outdata packet : List ℕ) : Type 0 where
  pub version : get_or packet 0 0 ≡ 3
  pub sums : u8 (byte_sum packet) ≡ 0
  pub to_run : request_command packet ≡ command
  pub to_version : get_or packet 4 0 ≡ u8 command_version
  pub reserved : get_or packet 5 0 ≡ 0
  pub measured : request_length packet ≡ length outdata
  pub carried : drop 8 packet ≡ outdata

request_header-IsRequest :
    (device_index command command_version : ℕ) (outdata : List ℕ)
    → length outdata + 8 ≤ 0x100
    → device_command device_index command < 2 ^ 16
    → IsRequest
        (device_command device_index command)
        command_version
        outdata
        (request_header device_index command command_version outdata ++ outdata)
request_header-IsRequest device_index command command_version outdata fits small = record {
  version = refl;
  sums = omega arith;
  to_run = split_word (device_command device_index command) small;
  to_version = refl;
  reserved = refl;
  measured = split_word (length outdata) (omega arith);
  carried = refl;
}
  where
    split_word : (n : ℕ) → n < 2 ^ 16 → n % 256 + 256 * (n / 256 % 256) ≡ n
    split_word n h = omega arith

module _ {W : Type 0} (io : Ports W) (laws : PacketWindow io) where
  open laws use {window}

  -- If the data fit in the packet window and the command in 16 bits, the EC finds in the window a packet
  -- of version 3 for the command and the device, with the data, whose bytes all sum to 0 modulo 256.
  pub write_request-IsRequest :
      (w : W) (device_index command command_version : ℕ) (outdata : List ℕ)
      → length outdata + 8 ≤ 0x100
      → device_command device_index command < 2 ^ 16
      → IsRequest (device_command device_index command) command_version outdata (
          region
            (window (write_request io w device_index command command_version outdata).1)
            ec_lpc_addr_host_packet
            (8 + length outdata))
  write_request-IsRequest w device_index command command_version outdata fits small =
      subst (IsRequest (device_command device_index command) command_version outdata) (sym whole)
        (request_header-IsRequest device_index command command_version outdata fits small)
    where
      header : List ℕ
      header = request_header device_index command command_version outdata

      after_data : W
      after_data = (write_all io 0 w 0x808 outdata).1

      behind :
          region (window (write_all io 0 after_data 0x800 header).1) 0x808 (length outdata)
          ≡ outdata
      behind =
          region_same _ _ 0x808 (length outdata) (λ c lo hi.
            write_all-outside io laws header 0 after_data 0x800 c (omega arith) (omega arith)
              (inr lo))
          ∙ write_all-region io laws outdata 0 w 0x808 (omega arith) (omega arith)

      whole :
          region (window (write_all io 0 after_data 0x800 header).1) 0x800 (8 + length outdata)
          ≡ header ++ outdata
      whole =
          region-append _ 8 (length outdata) 0x800
          ∙ ap₂ (λ a b. a ++ b)
              (write_all-region io laws header 0 after_data 0x800 (omega arith) (omega arith))
              behind
