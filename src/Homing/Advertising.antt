-- ===== src/Homing/Advertising.antt =====
-- `set_subnet_advertised` changes one subnet's flag, and a converged configuration not at all.
use testprotocols.Prelude.{
  All-append, String, ◌≡◌, refl, sym, ap, ◌∙◌, Bool, true, false, not, ◌&&◌, ◌||◌, Bool_eq→eq, List,
  [], ◌∷◌, ◌++◌, append-nil, All, if◌then◌else◌, eq_iff, eq_refl, arith,
}
use testprotocols.Exec.{Outcome, ret}
use testprotocols.Exec.Post.{Post, Returns, Post-bind, Post-Returns, Post-if}
use testprotocols.Homing.{
  VpnHub, VpnSubnet, SiteToSiteVpnConfig, SdwanApplianceDevice, role_eq, hubs_eq, subnets_eq,
  config_eq, without, is_listed, reflagged, rebuild, set_subnet_advertised, VpnRole,
}
use testprotocols.Homing.Laws.{Views, Abides, flags, flags-append}

role_eq→eq : (a b : VpnRole) → role_eq a b ≡ true → a ≡ b
role_eq→eq a b h = ground arith

hubs_eq→eq : (a b : List VpnHub) → hubs_eq a b ≡ true → a ≡ b
hubs_eq→eq [] [] h = refl
hubs_eq→eq [] (k ∷ b) h = absurd (cc h)
hubs_eq→eq (x ∷ a) [] h = absurd (cc h)
hubs_eq→eq (x ∷ a) (k ∷ b) h = ground (
  arith,
  h,
  hubs_eq→eq a b,
  (eq_iff x.name k.name).0,
  Bool_eq→eq x.use_default_route k.use_default_route,
)

subnets_eq→eq : (a b : List VpnSubnet) → subnets_eq a b ≡ true → a ≡ b
subnets_eq→eq [] [] h = refl
subnets_eq→eq [] (k ∷ b) h = absurd (cc h)
subnets_eq→eq (x ∷ a) [] h = absurd (cc h)
subnets_eq→eq (x ∷ a) (k ∷ b) h =
    ground (
      arith,
      h,
      subnets_eq→eq a b,
      (eq_iff x.subnet k.subnet).0,
      Bool_eq→eq x.advertise k.advertise,
    )

config_eq→eq : (c d : SiteToSiteVpnConfig) → config_eq c d ≡ true → c ≡ d
unfolding config_eq
config_eq→eq c d h = ground (
  arith,
  h,
  role_eq→eq c.role d.role,
  hubs_eq→eq c.hubs d.hubs,
  subnets_eq→eq c.subnets d.subnets,
)

hubs_eq_refl : (a : List VpnHub) → hubs_eq a a ≡ true
hubs_eq_refl [] = refl
hubs_eq_refl (x ∷ a) = ground (arith, hubs_eq_refl a, eq_refl x.name)

subnets_eq_refl : (a : List VpnSubnet) → subnets_eq a a ≡ true
subnets_eq_refl [] = refl
subnets_eq_refl (x ∷ a) = ground (arith, subnets_eq_refl a, eq_refl x.subnet)

config_eq_refl : (c : SiteToSiteVpnConfig) → config_eq c c ≡ true
unfolding config_eq
config_eq_refl c = ground (arith, hubs_eq_refl c.hubs, subnets_eq_refl c.subnets)

reflagged-append :
    (s : String) (b : Bool) (xs ys : List VpnSubnet)
    → reflagged s b (xs ++ ys) ≡ reflagged s b xs ++ reflagged s b ys
unfolding reflagged
reflagged-append s b [] ys = refl
reflagged-append s b (x ∷ xs) ys = rw (reflagged-append s b xs ys)

reflagged-twice :
    (s : String) (b : Bool) (xs : List VpnSubnet)
    → reflagged s b (reflagged s b xs) ≡ reflagged s b xs
unfolding reflagged
reflagged-twice s b [] = refl
reflagged-twice s b (x ∷ xs) = ground (arith, reflagged-twice s b xs)

is_listed-append :
    (s : String) (xs ys : List VpnSubnet)
    → is_listed s (xs ++ ys) ≡ (is_listed s xs || is_listed s ys)
unfolding is_listed
is_listed-append s [] ys = refl
is_listed-append s (x ∷ xs) ys = ground (arith, is_listed-append s xs ys)

is_listed-reflagged :
    (s : String) (b : Bool) (xs : List VpnSubnet) → is_listed s (reflagged s b xs) ≡ is_listed s xs
unfolding is_listed reflagged
is_listed-reflagged s b [] = refl
is_listed-reflagged s b (x ∷ xs) = ground (arith, is_listed-reflagged s b xs)

without-append :
    (s : String) (xs ys : List VpnSubnet) → without s (xs ++ ys) ≡ without s xs ++ without s ys
unfolding without
without-append s [] ys = refl
without-append s (x ∷ xs) ys = ground (arith, without-append s xs ys)

without-reflagged :
    (s : String) (b : Bool) (xs : List VpnSubnet) → without s (reflagged s b xs) ≡ without s xs
unfolding without reflagged
without-reflagged s b [] = refl
without-reflagged s b (x ∷ xs) = ground (arith, without-reflagged s b xs)

flags-reflagged :
    (s : String) (b : Bool) (xs : List VpnSubnet) → All (λ f. f ≡ b) (flags s (reflagged s b xs))
unfolding reflagged
flags-reflagged s b [] = tt
flags-reflagged s b (x ∷ xs) = ground (arith, flags-reflagged s b xs)

-- The entry that `set_subnet_advertised` appends.
abbrev added : String → Bool → Bool → List VpnSubnet
added s b listed = if b && not listed then record { subnet = s; advertise = true } ∷ [] else []

reflagged-added : (s : String) (b l : Bool) → reflagged s b (added s b l) ≡ added s b l
unfolding reflagged
reflagged-added s b l = ground (arith, eq_refl s)

is_listed-added : (s : String) (b l : Bool) → (l || is_listed s (added s b l)) ≡ (b || l)
unfolding is_listed
is_listed-added s b l = ground (arith, eq_refl s)

without-added : (s : String) (b l : Bool) → without s (added s b l) ≡ []
unfolding without
without-added s b l = ground (arith, eq_refl s)

flags-added : (s : String) (b l : Bool) → All (λ f. f ≡ b) (flags s (added s b l))
flags-added s true true = tt
flags-added s true false = rw (eq_refl s) (refl, tt)
flags-added s false l = tt

added_again : (s : String) (b l : Bool) → added s b (b || l) ≡ []
added_again s b l = ground arith

-- What becomes of a configuration: `s` is listed if it is advertised now or was listed before, every
-- entry of it has the flag, and the role, the hubs and the other entries in their order are the same.
pub record SubnetSet (s : String) (b : Bool) (c c' : SiteToSiteVpnConfig) : Type 0 where
  pub same_role : c'.role ≡ c.role
  pub same_hubs : c'.hubs ≡ c.hubs
  pub same_others : without s c'.subnets ≡ without s c.subnets
  pub flagged : All (λ f. f ≡ b) (flags s c'.subnets)
  pub listed : is_listed s c'.subnets ≡ (b || is_listed s c.subnets)

rebuild-SubnetSet :
    (s : String) (b : Bool) (c : SiteToSiteVpnConfig) → SubnetSet s b c (rebuild s b c)
unfolding rebuild
rebuild-SubnetSet s b c =
    let r = reflagged s b c.subnets in
    let l = is_listed s c.subnets in
    record {
      same_role = refl;
      same_hubs = refl;
      same_others =
          without-append s r (added s b l)
          ∙ rw (without-added s b l, append-nil (without s r)) (without-reflagged s b c.subnets);
      flagged = rw (flags-append s r (added s b l)) (
          All-append _ (flags s r) (flags s (added s b l)) (flags-reflagged s b c.subnets)
            (flags-added s b l));
      listed =
          is_listed-append s r (added s b l)
          ∙ rw (is_listed-reflagged s b c.subnets) (is_listed-added s b l);
    }

rebuild-twice :
    (s : String) (b : Bool) (c : SiteToSiteVpnConfig) → rebuild s b (rebuild s b c) ≡ rebuild s b c
unfolding rebuild
rebuild-twice s b c =
    let r = reflagged s b c.subnets in
    let l = is_listed s c.subnets in
    ap (λ (x : List VpnSubnet). record { role = c.role; hubs = c.hubs; subnets = x })
      (rw (
        reflagged-append s b r (added s b l),
        reflagged-twice s b c.subnets,
        reflagged-added s b l,
        is_listed-append s r (added s b l),
        is_listed-reflagged s b c.subnets,
        is_listed-added s b l,
        added_again s b l,
        append-nil (r ++ added s b l),
      ))

module _ {W : Type 0} (views : Views W) (d : SdwanApplianceDevice W) (h : Abides views d)
    (s : String) (b : Bool) where
  open views use {configs}

  converged :
      (w : W)
      → config_eq (rebuild s b (configs w d.ident)) (configs w d.ident) ≡ true
      → set_subnet_advertised d.vpn s b w ≡ (ret tt, w)
  unfolding set_subnet_advertised
  converged w e = rw (h.gets_config w, e)

  -- The configuration is the rebuilt one; then a second call writes nothing.
  rebuilt_Done :
      (c : SiteToSiteVpnConfig) (w : W)
      → configs w d.ident ≡ rebuild s b c
      → SubnetSet s b c (configs w d.ident) × (set_subnet_advertised d.vpn s b w ≡ (ret tt, w))
  rebuilt_Done c w e = (
    rw e (rebuild-SubnetSet s b c),
    converged w (rw (e, rebuild-twice s b c) (config_eq_refl (rebuild s b c))),
  )

  -- What a call from `w` leaves.
  abbrev Done : W → Outcome (Unit {0}) → W → Type 0
  Done w = Returns (λ _ w'.
      SubnetSet s b (configs w d.ident) (configs w' d.ident)
      × (set_subnet_advertised d.vpn s b w' ≡ (ret tt, w')))

  -- On an appliance that keeps its contract `set_subnet_advertised` returns, and has set this subnet's
  -- flag and nothing else: every entry of the subnet carries the flag, there is one if it is advertised
  -- or if there was one, and the role, the hubs and the other entries are as before. A second call
  -- returns at once and leaves the world as it is.
  pub set_subnet_advertised-SubnetSet :
      (w : W)
      → Post
          (set_subnet_advertised d.vpn s b)
          (Returns (λ _ w'.
            SubnetSet s b (configs w d.ident) (configs w' d.ident)
            × (set_subnet_advertised d.vpn s b w' ≡ (ret tt, w'))))
          w
  unfolding set_subnet_advertised
  set_subnet_advertised-SubnetSet w =
      let c = configs w d.ident in
      Post-bind (λ x w'. (x ≡ c) × (w' ≡ w)) (Done w) d.vpn.get_vpn_config _ w
        (rw (h.gets_config w) (refl, refl))
        (λ x w' (e, e').
          rw (e, e')
            (Post-if (Done w) (config_eq (rebuild s b c) c) _ _ w
              (λ same. rebuilt_Done c w (sym (config_eq→eq (rebuild s b c) c same)))
              (λ _.
                Post-Returns _ _ (d.vpn.set_vpn_config (rebuild s b c)) w
                  (h.sets_config (rebuild s b c) w) (λ _ w'' k. rebuilt_Done c w'' k.here))))
