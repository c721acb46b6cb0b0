-- ===== src/Platform.antt =====
-- core/platform.c and core/intf_list.c: the choice of the platform that the program runs on, and its set-up.
-- The state of the machine is passed along.
pub mod Choice
pub mod SetUp
mod Tests
use mosys.Common.{
  ℕ, ◌+◌, Bool, true, false, not, ◌&&◌, Option, none, some, leb, ◌==◌, if◌then◌else◌, List, [], ◌∷◌,
}

-- What a probe gives: below 0, 0, or above 0.
pub data Probed : Type 0 where
  probe_error : Probed
  not_here : Probed
  here : Probed

-- The functions of a kind of bus; a NULL one is `none`. A function tells whether its result is not below 0.
pub record Bus (W : Type 0) : Type 0 where
  pub setup : Option (W → Bool × W)
  pub destroy : Option (W → W)

-- `struct platform_intf`, with the names and the functions that the choice looks at.
pub record PlatformIntf (W : Type 0) : Type 0 where
  pub id_list : List (List ℕ)
  pub probe : Option (W → Probed × W)
  pub setup : Option (W → Bool × W)
  pub setup_post : Option (W → Bool × W)
  pub destroy : Option (W → W)
  pub pci : Bus W
  pub i2c : Bus W
  pub io : Bus W
  pub mmio : Bus W

-- tolower of the C library in the locale "C".
abbrev pub tolower : ℕ → ℕ
tolower c = if leb b'A' c && leb c b'Z' then c + 32 else c

-- strncasecmp over the length of the second text gives 0.
unfoldable pub strncasecmp_eq : List ℕ → List ℕ → Bool
strncasecmp_eq str [] = true
strncasecmp_eq [] (c ∷ id) = false
strncasecmp_eq (a ∷ str) (c ∷ id) =
    let rest = strncasecmp_eq str id in if tolower a == tolower c then rest else false

-- Without regard to case.
unfoldable pub strlfind : List ℕ → List (List ℕ) → Option (List ℕ)
strlfind str [] = none
strlfind str (id ∷ ids) =
    let rest = strlfind str ids in if strncasecmp_eq str id then some id else rest

module _ {W : Type 0} where
  -- An optional function that is not there succeeds.
  abbrev pub call : Option (W → Bool × W) → W → Bool × W
  call none w = (true, w)
  call (some f) w = f w

  abbrev pub call_destroy : Option (W → W) → W → W
  call_destroy none w = w
  call_destroy (some f) w = f w

  -- All are called; the whole fails if one does.
  unfoldable pub intf_op_setup : PlatformIntf W → W → Bool × W
  intf_op_setup intf w =
      let (pci_ok, w1) = call intf.pci.setup w in
      let (i2c_ok, w2) = call intf.i2c.setup w1 in
      let (io_ok, w3) = call intf.io.setup w2 in
      let (mmio_ok, w4) = call intf.mmio.setup w3 in (pci_ok && i2c_ok && io_ok && mmio_ok, w4)

  abbrev pub intf_op_destroy : PlatformIntf W → W → W
  intf_op_destroy intf w = call_destroy intf.mmio.destroy (
      call_destroy intf.io.destroy
        (call_destroy intf.i2c.destroy (call_destroy intf.pci.destroy w)))

  -- The loop for a name that the user gives.
  unfoldable pub find_named : List ℕ → List (PlatformIntf W) → Option (PlatformIntf W)
  find_named p_opt [] = none
  find_named p_opt (intf ∷ list) =
      let rest = find_named p_opt list in
      elim (strlfind p_opt intf.id_list) [ some id ↦ some intf | none ↦ rest ]

  -- The loop that probes; a platform without a probe is passed over.
  unfoldable pub find_probed : List (PlatformIntf W) → W → Option (PlatformIntf W) × W
  find_probed [] w = (none, w)
  find_probed (intf ∷ list) w = elim intf.probe [
    | none ↦ find_probed list w
    | some probe ↦
        let (rc, w') = probe w in
        let rest = find_probed list w' in
        elim rc [ here ↦ (some intf, w') | not_here ↦ rest | probe_error ↦ rest ]
  ]

  abbrev pub find_intf : Option (List ℕ) → List (PlatformIntf W) → W → Option (PlatformIntf W) × W
  find_intf none list w = find_probed list w
  find_intf (some p_opt) list w = (find_named p_opt list, w)

  abbrev pub setup_post_done : PlatformIntf W → Bool × W → Option (PlatformIntf W) × W
  setup_post_done intf (true, w) = (some intf, w)
  setup_post_done intf (false, w) = (none, call_destroy intf.destroy w)

  abbrev pub op_setup_done : PlatformIntf W → Bool × W → Option (PlatformIntf W) × W
  op_setup_done intf (true, w) = setup_post_done intf (call intf.setup_post w)
  op_setup_done intf (false, w) = (none, intf_op_destroy intf (call_destroy intf.destroy w))

  abbrev pub setup_done : PlatformIntf W → Bool × W → Option (PlatformIntf W) × W
  setup_done intf (true, w) = op_setup_done intf (intf_op_setup intf w)
  setup_done intf (false, w) = (none, w)

  abbrev pub setup_found : Option (PlatformIntf W) × W → Option (PlatformIntf W) × W
  setup_found (none, w) = (none, w)
  setup_found (some intf, w) = setup_done intf (call intf.setup w)

  unfoldable pub mosys_platform_setup :
      List (PlatformIntf W) → Option (List ℕ) → W → Option (PlatformIntf W) × W
  mosys_platform_setup list p_opt w = setup_found (find_intf p_opt list w)

  unfoldable pub mosys_platform_destroy : Option (PlatformIntf W) → W → W
  mosys_platform_destroy none w = w
  mosys_platform_destroy (some intf) w = intf_op_destroy intf (call_destroy intf.destroy w)
