-- ===== src/Platform/Tests.antt =====
-- Two platforms without functions of their own.
use mosys.Common.{ℕ, ◌≡◌, ◌↔◌, refl, none, some, List, [], ◌∷◌}
use mosys.Platform.{
  Bus, PlatformIntf, strncasecmp_eq, strlfind, find_named, intf_op_setup, mosys_platform_setup,
}
use mosys.Platform.Choice.{IsFirst}
use mosys.Platform.SetUp.{IsSetUp, mosys_platform_setup-IsFirst}

abbrev no_bus : Bus Unit
no_bus = record { setup = none; destroy = none }

abbrev platform : List ℕ → PlatformIntf Unit
platform id = record {
  id_list = id ∷ [];
  probe = none;
  setup = none;
  setup_post = none;
  destroy = none;
  pci = no_bus;
  i2c = no_bus;
  io = no_bus;
  mmio = no_bus;
}

abbrev link_platform : PlatformIntf Unit
link_platform = platform (b'l' ∷ b'i' ∷ b'n' ∷ b'k' ∷ [])

abbrev coral : PlatformIntf Unit
coral = platform (b'C' ∷ b'o' ∷ b'r' ∷ b'a' ∷ b'l' ∷ [])

abbrev longer_name : List ℕ
longer_name = b'c' ∷ b'o' ∷ b'r' ∷ b'a' ∷ b'l' ∷ b'8' ∷ []

-- A longer name is taken.
coral_found :
    mosys_platform_setup (link_platform ∷ coral ∷ []) (some longer_name) tt ≡ (some coral, tt)
unfolding mosys_platform_setup find_named strlfind strncasecmp_eq intf_op_setup
coral_found = refl

-- A name that is cut short is not.
nothing_found :
    mosys_platform_setup (link_platform ∷ coral ∷ []) (some (b'c' ∷ b'o' ∷ [])) tt ≡ (none, tt)
unfolding mosys_platform_setup find_named strlfind strncasecmp_eq
nothing_found = refl

mosys_platform_setup-IsFirst_example :
    (mosys_platform_setup (link_platform ∷ coral ∷ []) (some longer_name) tt ≡ (some coral, tt))
    ↔ (IsFirst longer_name (link_platform ∷ coral ∷ []) coral × IsSetUp coral tt tt)
mosys_platform_setup-IsFirst_example =
    mosys_platform_setup-IsFirst (link_platform ∷ coral ∷ []) longer_name tt tt coral
