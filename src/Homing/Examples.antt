-- ===== src/Homing/Examples.antt =====
-- A fleet whose world is its tables, and two clients realized on it.
use testprotocols.Exec.{ret}
use testprotocols.Exec.Post.{Post, Returns}
use testprotocols.Homing.{
  VlanConfig, SiteToSiteVpnConfig, SdwanApplianceDevice, HomeAssignment, spoke, realize,
  set_subnet_advertised, true,
}
use testprotocols.Homing.Advertising.{SubnetSet, set_subnet_advertised-SubnetSet}
use testprotocols.Homing.Laws.{Views, Abides, VlanChange, found}
use testprotocols.Homing.SingleDefiner.{Homed, realize-Homed}
use testprotocols.Prelude.{
  ℕ, ◌≡◌, refl, true, false, ◌&&◌, Option, none, some, List, [], ◌∷◌, arith, ◌==◌, if◌then◌else◌,
  All,
}

pub record Fleet : Type 0 where
  pub vlans : ℕ → ℕ → Option VlanConfig
  pub configs : ℕ → SiteToSiteVpnConfig

abbrev put_vlan : ℕ → ℕ → Option VlanConfig → Fleet → Fleet
put_vlan i k v w = record w { vlans = λ j l. if j == i && l == k then v else w.vlans j l }

abbrev put_config : ℕ → SiteToSiteVpnConfig → Fleet → Fleet
put_config i c w = record w { configs = λ j. if j == i then c else w.configs j }

abbrev appliance : ℕ → SdwanApplianceDevice Fleet
appliance i = record {
  ident = i;
  lan = record {
    get_vlan = λ k w. (found (w.vlans i k), w);
    set_vlan = λ v w. (ret tt, put_vlan i v.vlan_id (some v) w);
    delete_vlan = λ k w. (ret tt, put_vlan i k none w);
  };
  vpn = record {
    get_vpn_config = λ w. (ret (w.configs i), w);
    set_vpn_config = λ c w. (ret tt, put_config i c w);
    get_vpn_peers = λ w. (ret [], w);
  };
}

abbrev views : Views Fleet
views = record { vlans = λ w. w.vlans; configs = λ w. w.configs }

put_vlan-VlanChange :
    (i k : ℕ) (v : Option VlanConfig) (w : Fleet) → VlanChange views i k v w (put_vlan i k v w)
put_vlan-VlanChange i k v w = record {
  here = ground arith;
  elsewhere = λ j l o. ground arith;
  same_configs = λ j. refl;
}

appliance-Abides : (i : ℕ) → Abides views (appliance i)
appliance-Abides i = record {
  gets_vlan = λ k w. refl;
  gets_config = λ w. refl;
  sets_vlan = λ v w. put_vlan-VlanChange i v.vlan_id (some v) w;
  deletes_vlan = λ k w v e. put_vlan-VlanChange i k none w;
  sets_config = λ c w. record {
    here = ground arith;
    elsewhere = λ j n. ground arith;
    same_vlans = λ j l. refl;
  };
}

abbrev client : ℕ → VlanConfig
client n =
    if n == 1
    then record { vlan_id = 10; name = "lab"; subnet = "10.0.1.0/24"; appliance_ip = "10.0.1.1" }
    else record { vlan_id = 20; name = "voice"; subnet = "10.0.2.0/24"; appliance_ip = "10.0.2.1" }

abbrev homes : List (HomeAssignment Fleet)
homes =
    record { vlan = client 1; target = appliance 1 }
    ∷ record { vlan = client 2; target = appliance 2 }
    ∷ []

abbrev fleet : List (SdwanApplianceDevice Fleet)
fleet = appliance 1 ∷ appliance 2 ∷ []

-- Both clients are at the wrong appliance.
abbrev swapped : Fleet
swapped = record {
  vlans = λ j k.
      if j == 1 && k == 20
      then some (client 2)
      else if j == 2 && k == 10
      then some (client 1)
      else none;
  configs = λ j. record {
    role = spoke;
    hubs = [];
    subnets = record { subnet = "10.0.1.0/24"; advertise = false } ∷ [];
  };
}

realize-Homed_example :
    Post (realize homes fleet) (Returns (λ _ w. All (λ a. Homed views fleet a w) homes)) swapped
realize-Homed_example =
    realize-Homed views fleet homes (appliance-Abides 1, (appliance-Abides 2, tt))
      (appliance-Abides 1, (appliance-Abides 2, tt)) (((refl, refl), tt), (tt, tt)) swapped

set_subnet_advertised-SubnetSet_example :
    Post
      (set_subnet_advertised (appliance 1).vpn "10.0.1.0/24" true)
      (Returns (λ _ w.
        SubnetSet "10.0.1.0/24" true (swapped.configs 1) (w.configs 1)
        × (set_subnet_advertised (appliance 1).vpn "10.0.1.0/24" true w ≡ (ret tt, w))))
      swapped
set_subnet_advertised-SubnetSet_example =
    set_subnet_advertised-SubnetSet views (appliance 1) (appliance-Abides 1) "10.0.1.0/24" true
      swapped
