-- ===== src/Platform/SetUp.antt =====
-- The set-up of the platform that a name chooses, core/platform.c.
use mosys.Common.{ℕ, ◌≡◌, ◌↔◌, refl, ap, ◌∙◌, subst, Bool, true, false, Option, none, some, List}
use mosys.Platform.{
  PlatformIntf, call, intf_op_setup, find_named, setup_post_done, op_setup_done, setup_done,
  setup_found, mosys_platform_setup,
}
use mosys.Platform.Choice.{IsFirst, find_named-first, find_named-IsFirst}

module _ {W : Type 0} where
  -- The three steps of the set-up succeed one after another.
  pub record IsSetUp (intf : PlatformIntf W) (w w' : W) : Type 0 where
    pub set_up : W
    pub with_buses : W
    pub own : call intf.setup w ≡ (true, set_up)
    pub buses : intf_op_setup intf set_up ≡ (true, with_buses)
    pub post : call intf.setup_post with_buses ≡ (true, w')

  setup_done-IsSetUp :
      (intf other : PlatformIntf W) (w w' : W)
      → setup_done other (call other.setup w) ≡ (some intf, w')
      → (other ≡ intf) × IsSetUp other w w'
  setup_done-IsSetUp intf other w w' h = own (call other.setup w) refl h
    where
      post :
          (w1 w2 : W) (t : Bool × W)
          → call other.setup w ≡ (true, w1)
          → intf_op_setup other w1 ≡ (true, w2)
          → call other.setup_post w2 ≡ t
          → setup_post_done other t ≡ (some intf, w')
          → (other ≡ intf) × IsSetUp other w w'
      post w1 w2 (false, w3) a b c h = absurd (cc (h))
      post w1 w2 (true, w3) a b c h = (
        cc (h),
        record {
          set_up = w1;
          with_buses = w2;
          own = a;
          buses = b;
          post = c ∙ ap (λ x. (true, x)) (ap {A = Option (PlatformIntf W) × W} (λ t. t.1) h);
        },
      )

      buses :
          (w1 : W) (t : Bool × W)
          → call other.setup w ≡ (true, w1)
          → intf_op_setup other w1 ≡ t
          → op_setup_done other t ≡ (some intf, w')
          → (other ≡ intf) × IsSetUp other w w'
      buses w1 (false, w2) a b h = absurd (cc (h))
      buses w1 (true, w2) a b h = post w1 w2 (call other.setup_post w2) a b refl h

      own :
          (t : Bool × W)
          → call other.setup w ≡ t
          → setup_done other t ≡ (some intf, w')
          → (other ≡ intf) × IsSetUp other w w'
      own (false, w1) a h = absurd (cc (h))
      own (true, w1) a h = buses w1 (intf_op_setup other w1) a refl h

  IsSetUp-setup_done :
      (intf : PlatformIntf W) (w w' : W)
      → IsSetUp intf w w'
      → setup_done intf (call intf.setup w) ≡ (some intf, w')
  IsSetUp-setup_done intf w w' u =
      ap (setup_done intf) u.own
      ∙ ap (op_setup_done intf) u.buses
      ∙ ap (setup_post_done intf) u.post

  -- For a name that the user gives, mosys_platform_setup returns a platform exactly if it is the first of
  -- the list with an id that the name starts with, without regard to case, and its own set-up, that of
  -- its buses and its last step succeed one after another.
  pub mosys_platform_setup-IsFirst :
      (list : List (PlatformIntf W)) (str : List ℕ) (w w' : W) (intf : PlatformIntf W)
      → (mosys_platform_setup list (some str) w ≡ (some intf, w'))
        ↔ (IsFirst str list intf × IsSetUp intf w w')
  unfolding mosys_platform_setup
  mosys_platform_setup-IsFirst list str w w' intf = (forth (find_named str list) refl, back)
    where
      forth :
          (o : Option (PlatformIntf W))
          → find_named str list ≡ o
          → setup_found (o, w) ≡ (some intf, w')
          → IsFirst str list intf × IsSetUp intf w w'
      forth none e h = absurd (cc (h))
      forth (some other) e h =
          let (same, set_up) = setup_done-IsSetUp intf other w w' h in
          (
            subst (IsFirst str list) same (find_named-IsFirst str list other e),
            subst (λ i. IsSetUp i w w') same set_up,
          )

      back :
          IsFirst str list intf × IsSetUp intf w w'
          → setup_found (find_named str list, w) ≡ (some intf, w')
      back (first, set_up) =
          ap (λ o. setup_found (o, w))
            (ap (find_named str) first.place
              ∙ find_named-first str first.before intf first.after first.unnamed first.named)
          ∙ IsSetUp-setup_done intf w w' set_up
