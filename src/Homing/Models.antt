-- ===== src/Homing/Models.antt =====
-- The models and capabilities of testprotocols that homing.py reads: models/sdwan_appliance.py,
-- appliance_vlans.py and site_to_site_vpn.py of packages/testprotocols/src/testprotocols/. Records have
-- the fields and members that homing uses.
use testprotocols.Prelude.{ℕ, String, str_eq, Bool, true, false, ◌&&◌, Bool_eq, List, [], ◌∷◌}
use testprotocols.Exec.{Action}

pub record VlanConfig : Type 0 where
  pub vlan_id : ℕ
  pub name : String
  pub subnet : String
  pub appliance_ip : String

pub data VpnRole : Type 0 where
  hub spoke disabled : VpnRole

pub record VpnHub : Type 0 where
  pub name : String
  pub use_default_route : Bool

pub record VpnSubnet : Type 0 where
  pub subnet : String
  pub advertise : Bool

pub record SiteToSiteVpnConfig : Type 0 where
  pub role : VpnRole
  pub hubs : List VpnHub
  pub subnets : List VpnSubnet

pub data VpnPeerState : Type 0 where
  reachable unreachable unknown : VpnPeerState

pub record VpnPeerStatus : Type 0 where
  pub name : String
  pub state : VpnPeerState

pub record ApplianceVlans (W : Type 0) : Type 0 where
  pub get_vlan : ℕ → Action W VlanConfig
  pub set_vlan : VlanConfig → Action W (Unit {0})
  pub delete_vlan : ℕ → Action W (Unit {0})

pub record SiteToSiteVpn (W : Type 0) : Type 0 where
  pub get_vpn_config : Action W SiteToSiteVpnConfig
  pub set_vpn_config : SiteToSiteVpnConfig → Action W (Unit {0})
  pub get_vpn_peers : Action W (List VpnPeerStatus)

-- `ident` stands for the identity of the object, which `is` compares.
pub record SdwanApplianceDevice (W : Type 0) : Type 0 where
  pub ident : ℕ
  pub lan : ApplianceVlans W
  pub vpn : SiteToSiteVpn W

-- The equality of the dataclasses.
abbrev pub role_eq : VpnRole → VpnRole → Bool
role_eq hub hub = true
role_eq spoke spoke = true
role_eq disabled disabled = true
role_eq _ _ = false

abbrev pub hubs_eq : List VpnHub → List VpnHub → Bool
hubs_eq [] [] = true
hubs_eq (h ∷ hs) (k ∷ ks) =
    str_eq h.name k.name && Bool_eq h.use_default_route k.use_default_route && hubs_eq hs ks
hubs_eq _ _ = false

abbrev pub subnets_eq : List VpnSubnet → List VpnSubnet → Bool
subnets_eq [] [] = true
subnets_eq (s ∷ ss) (t ∷ ts) =
    str_eq s.subnet t.subnet && Bool_eq s.advertise t.advertise && subnets_eq ss ts
subnets_eq _ _ = false

unfoldable pub config_eq : SiteToSiteVpnConfig → SiteToSiteVpnConfig → Bool
config_eq c d = role_eq c.role d.role && hubs_eq c.hubs d.hubs && subnets_eq c.subnets d.subnets
