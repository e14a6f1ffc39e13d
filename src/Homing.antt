-- ===== src/Homing.antt =====
-- packages/testoperations/src/testoperations/homing.py: which appliance defines a client's VLAN and
-- which subnets it advertises. The capabilities and the models are those of testprotocols; a VLAN
-- keeps the fields that homing reads, the others only pass through.
mod Models
pub mod Laws
pub mod Clients
pub mod SingleDefiner
pub mod Advertising
mod Examples
unfoldable pub use Models.*
use testprotocols.Prelude.{
  ℕ, ◌==◌, String, str_eq, Bool, true, false, not, ◌&&◌, ◌||◌, Bool_eq, Option, none, some, List,
  [], ◌∷◌, ◌++◌, set_item, if◌then◌else◌,
}
use testprotocols.Exec.{Action, pure, raise, try_except, ◌>>=◌, ◌>>◌}
use testprotocols.Exec.Failure.{Exception, key_error}

-- `[s for s in subnets if s.subnet != subnet]`
unfoldable pub without : String → List VpnSubnet → List VpnSubnet
without subnet [] = []
without subnet (s ∷ ss) =
    if str_eq s.subnet subnet then without subnet ss else s ∷ without subnet ss

-- `any(s.subnet == subnet for s in subnets)`
unfoldable pub is_listed : String → List VpnSubnet → Bool
is_listed subnet [] = false
is_listed subnet (s ∷ ss) = str_eq s.subnet subnet || is_listed subnet ss

-- An existing entry takes the flag in its place.
unfoldable pub reflagged : String → Bool → List VpnSubnet → List VpnSubnet
reflagged subnet advertise [] = []
reflagged subnet advertise (s ∷ ss) =
    (if str_eq s.subnet subnet then record { subnet = s.subnet; advertise = advertise } else s)
    ∷ reflagged subnet advertise ss

-- What `set_subnet_advertised` makes of the configuration.
unfoldable pub rebuild : String → Bool → SiteToSiteVpnConfig → SiteToSiteVpnConfig
unfolding reflagged is_listed
rebuild subnet advertise cfg = record cfg {
  subnets =
      reflagged subnet advertise cfg.subnets
      ++ (if advertise && not (is_listed subnet cfg.subnets)
          then record { subnet = subnet; advertise = true } ∷ []
          else []);
}

-- `any(s.subnet == subnet and s.advertise for s in subnets)`
unfoldable pub is_advertised : String → List VpnSubnet → Bool
is_advertised subnet [] = false
is_advertised subnet (s ∷ ss) = (str_eq s.subnet subnet && s.advertise) || is_advertised subnet ss

abbrev is_reachable : VpnPeerState → Bool
is_reachable reachable = true
is_reachable _ = false

abbrev all_reachable : List VpnPeerStatus → Bool
all_reachable [] = true
all_reachable (p ∷ ps) = is_reachable p.state && all_reachable ps

-- `bool(peers) and all(...)`
unfoldable pub peers_reachable : List VpnPeerStatus → Bool
peers_reachable [] = false
peers_reachable (p ∷ ps) = all_reachable (p ∷ ps)

unfoldable pub peer_states :
    List VpnPeerStatus → List (String × VpnPeerState) → List (String × VpnPeerState)
peer_states [] found = found
peer_states (p ∷ ps) found = peer_states ps (set_item p.name p.state found)

pub record HomeDetails : Type 0 where
  pub defined_subnet : Option String
  pub defined_gateway : Option String
  pub peer_states : List (String × VpnPeerState)

pub record HomeVerification : Type 0 where
  pub vlan_defined : Bool
  pub subnet_advertised : Bool
  pub peers_reachable : Bool
  pub details : HomeDetails

abbrev is_home : VlanConfig → Option VlanConfig → Bool
is_home vlan none = false
is_home vlan (some d) = str_eq d.subnet vlan.subnet && str_eq d.appliance_ip vlan.appliance_ip

abbrev verification_of :
    VlanConfig → Option VlanConfig → SiteToSiteVpnConfig → List VpnPeerStatus → HomeVerification
verification_of vlan defined cfg peers = record {
  vlan_defined = is_home vlan defined;
  subnet_advertised = is_advertised vlan.subnet cfg.subnets;
  peers_reachable = peers_reachable peers;
  details = record {
    defined_subnet = elim defined [ none ↦ none | some d ↦ some d.subnet ];
    defined_gateway = elim defined [ none ↦ none | some d ↦ some d.appliance_ip ];
    peer_states = peer_states peers [];
  };
}

module _ {W : Type 0} where
  -- `except KeyError: return None`
  abbrev pub absent : {A : Type 0} → Exception → Action W (Option A)
  absent key_error = pure none
  absent e = raise e

  abbrev pub present_vlan : ApplianceVlans W → ℕ → Action W (Option VlanConfig)
  present_vlan lan vlan_id = try_except (do vlan ← lan.get_vlan vlan_id; pure (some vlan)) absent

  -- `_delete_if_present`
  unfoldable pub delete_if_present : ApplianceVlans W → ℕ → Action W (Unit {0})
  delete_if_present lan vlan_id = do
    found ← present_vlan lan vlan_id
    elim found [ none ↦ pure tt | some vlan ↦ lan.delete_vlan vlan_id ]

  -- `_set_advertise`
  unfoldable pub set_advertise : SiteToSiteVpn W → String → Bool → Action W (Unit {0})
  set_advertise vpn subnet advertise = do
    cfg ← vpn.get_vpn_config
    vpn.set_vpn_config (record cfg {
      subnets =
          without subnet cfg.subnets
          ++ (if advertise then record { subnet = subnet; advertise = true } ∷ [] else []);
    })

  unfoldable pub set_subnet_advertised : SiteToSiteVpn W → String → Bool → Action W (Unit {0})
  set_subnet_advertised vpn subnet advertise = do
    cfg ← vpn.get_vpn_config
    if config_eq (rebuild subnet advertise cfg) cfg
        then pure tt
        else vpn.set_vpn_config (rebuild subnet advertise cfg)

  unfoldable pub verify_home :
      VlanConfig → ApplianceVlans W → SiteToSiteVpn W → Action W HomeVerification
  verify_home vlan target_lan target_vpn = do
    defined ← present_vlan target_lan vlan.vlan_id
    cfg ← target_vpn.get_vpn_config
    peers ← target_vpn.get_vpn_peers
    pure (verification_of vlan defined cfg peers)

  -- Withdraw one appliance's definition and advertisement.
  abbrev pub withdraw_lan : VlanConfig → Option (ApplianceVlans W) → Action W (Unit {0})
  withdraw_lan vlan none = pure tt
  withdraw_lan vlan (some lan) = delete_if_present lan vlan.vlan_id

  abbrev pub withdraw_vpn : VlanConfig → Option (SiteToSiteVpn W) → Action W (Unit {0})
  withdraw_vpn vlan none = pure tt
  withdraw_vpn vlan (some vpn) = set_advertise vpn vlan.subnet false

  unfoldable pub home_client :
      VlanConfig
      → ApplianceVlans W
      → SiteToSiteVpn W
      → (previous_lan : Option (ApplianceVlans W)) → (previous_vpn : Option (SiteToSiteVpn W))
      → Action W (Unit {0})
  home_client vlan target_lan target_vpn previous_lan previous_vpn = do
    withdraw_lan vlan previous_lan
    withdraw_vpn vlan previous_vpn
    target_lan.set_vlan vlan
    set_advertise target_vpn vlan.subnet true

pub record HomeAssignment (W : Type 0) : Type 0 where
  pub vlan : VlanConfig
  pub target : SdwanApplianceDevice W

module _ {W : Type 0} where
  -- The body of the inner loop, for an appliance that is not the target.
  unfoldable pub withdraw : VlanConfig → SdwanApplianceDevice W → Action W (Unit {0})
  withdraw vlan ap = do
    delete_if_present ap.lan vlan.vlan_id
    set_advertise ap.vpn vlan.subnet false

  unfoldable pub withdraw_others :
      HomeAssignment W → List (SdwanApplianceDevice W) → Action W (Unit {0})
  withdraw_others a [] = pure tt
  withdraw_others a (ap ∷ aps) = do
    if ap.ident == a.target.ident then pure tt else withdraw a.vlan ap
    withdraw_others a aps

  unfoldable pub assign : List (SdwanApplianceDevice W) → HomeAssignment W → Action W (Unit {0})
  assign all_appliances a = do
    withdraw_others a all_appliances
    a.target.lan.set_vlan a.vlan
    set_advertise a.target.vpn a.vlan.subnet true

  unfoldable pub realize :
      List (HomeAssignment W)
      → (all_appliances : List (SdwanApplianceDevice W)) → Action W (Unit {0})
  realize [] all_appliances = pure tt
  realize (a ∷ as') all_appliances = do assign all_appliances a; realize as' all_appliances
