-- ===== src/Homing/Laws.antt =====
-- What homing assumes of appliances, and what its single steps then do.
use testprotocols.Prelude.{
  ==_iff, ℕ, String, ◌≡◌, refl, sym, ◌∙◌, ◌⊎◌, inl, inr, Bool, true, false, Option, none, some,
  List, [], ◌∷◌, ◌++◌, append-nil, arith, eq_iff, eq_refl, str_eq, ◌==◌, if◌then◌else◌,
}
use testprotocols.Exec.{Outcome, ret, exc, continue, handle, pure}
use testprotocols.Exec.Failure.{key_error}
use testprotocols.Exec.Post.{Post, Returns, Post-bind, Post-Returns}
use testprotocols.Homing.{
  VlanConfig, VpnSubnet, SiteToSiteVpnConfig, SdwanApplianceDevice, without, set_advertise,
  delete_if_present, present_vlan, absent,
}

-- The flags of a subnet's entries, in order.
abbrev pub flags : String → List VpnSubnet → List Bool
flags t [] = []
flags t (s ∷ ss) = if str_eq s.subnet t then s.advertise ∷ flags t ss else flags t ss

pub flags-append :
    (t : String) (xs ys : List VpnSubnet) → flags t (xs ++ ys) ≡ flags t xs ++ flags t ys
flags-append t [] ys = refl
flags-append t (x ∷ xs) ys = ground (arith, flags-append t xs ys)

pub flags-without : (s : String) (xs : List VpnSubnet) → flags s (without s xs) ≡ []
unfolding without
flags-without s [] = refl
flags-without s (x ∷ xs) = ground (arith, flags-without s xs)

skipped : (a s t : String) → str_eq a s ≡ true → str_eq s t ≡ false → str_eq a t ≡ false
skipped a s t h k = rw ((eq_iff a s).0 h) k

pub flags-without_other :
    (s t : String) (xs : List VpnSubnet) → str_eq s t ≡ false → flags t (without s xs) ≡ flags t xs
unfolding without
flags-without_other s t [] h = refl
flags-without_other s t (x ∷ xs) h =
    ground (arith, flags-without_other s t xs h, skipped x.subnet s t, h)

abbrev pub found : Option VlanConfig → Outcome VlanConfig
found none = exc key_error
found (some v) = ret v

-- What can be seen of the appliances in a world, each by its identity.
pub record Views (W : Type 0) : Type 0 where
  pub vlans : W → ℕ → ℕ → Option VlanConfig
  pub configs : W → ℕ → SiteToSiteVpnConfig

module _ {W : Type 0} (views : Views W) where
  open views use {vlans, configs}

  pub record VlanChange (ident vlan_id : ℕ) (v : Option VlanConfig) (w w' : W) : Type 0 where
    pub here : vlans w' ident vlan_id ≡ v
    pub elsewhere :
        (i k : ℕ) → ((i == ident) ≡ false) ⊎ ((k == vlan_id) ≡ false) → vlans w' i k ≡ vlans w i k
    pub same_configs : (i : ℕ) → configs w' i ≡ configs w i

  pub record ConfigChange (ident : ℕ) (c : SiteToSiteVpnConfig) (w w' : W) : Type 0 where
    pub here : configs w' ident ≡ c
    pub elsewhere : (i : ℕ) → (i == ident) ≡ false → configs w' i ≡ configs w i
    pub same_vlans : (i k : ℕ) → vlans w' i k ≡ vlans w i k

  -- The contracts of `ApplianceVlans` and `SiteToSiteVpn` for an appliance that works: reads return
  -- what is there, a missing VLAN is a `KeyError`, writes replace one VLAN or the configuration.
  pub record Abides (d : SdwanApplianceDevice W) : Type 0 where
    pub gets_vlan : (k : ℕ) (w : W) → d.lan.get_vlan k w ≡ (found (vlans w d.ident k), w)
    pub gets_config : (w : W) → d.vpn.get_vpn_config w ≡ (ret (configs w d.ident), w)
    pub sets_vlan :
        (v : VlanConfig) (w : W)
        → Post (d.lan.set_vlan v) (Returns (λ _. VlanChange d.ident v.vlan_id (some v) w)) w
    pub deletes_vlan :
        (k : ℕ) (w : W) (v : VlanConfig)
        → vlans w d.ident k ≡ some v
        → Post (d.lan.delete_vlan k) (Returns (λ _. VlanChange d.ident k none w)) w
    pub sets_config :
        (c : SiteToSiteVpnConfig) (w : W)
        → Post (d.vpn.set_vpn_config c) (Returns (λ _. ConfigChange d.ident c w)) w

  abbrev pub entries : W → ℕ → String → List Bool
  entries w i s = flags s (configs w i).subnets

  -- What `_set_advertise` leaves.
  pub record Advertised (ident : ℕ) (s : String) (b : Bool) (w w' : W) : Type 0 where
    pub here : entries w' ident s ≡ (if b then true ∷ [] else [])
    pub elsewhere :
        (i : ℕ) (t : String)
        → ((i == ident) ≡ false) ⊎ (str_eq s t ≡ false)
        → entries w' i t ≡ entries w i t
    pub same_vlans : (i k : ℕ) → vlans w' i k ≡ vlans w i k

  -- The configuration that `_set_advertise` writes.
  abbrev edited : String → Bool → SiteToSiteVpnConfig → SiteToSiteVpnConfig
  edited s b cfg = record cfg {
    subnets =
        without s cfg.subnets ++ (if b then record { subnet = s; advertise = true } ∷ [] else []);
  }

  entries-edited :
      (s : String) (b : Bool) (cfg : SiteToSiteVpnConfig)
      → flags s (edited s b cfg).subnets ≡ (if b then true ∷ [] else [])
  entries-edited s true cfg =
      flags-append s (without s cfg.subnets) _ ∙ rw (flags-without s cfg.subnets, eq_refl s)
  entries-edited s false cfg =
      flags-append s (without s cfg.subnets) [] ∙ rw (flags-without s cfg.subnets)

  entries-edited_other :
      (s t : String) (b : Bool) (cfg : SiteToSiteVpnConfig)
      → str_eq s t ≡ false
      → flags t (edited s b cfg).subnets ≡ flags t cfg.subnets
  entries-edited_other s t true cfg h =
      flags-append t (without s cfg.subnets) _
      ∙ rw (flags-without_other s t cfg.subnets h, h, append-nil)
  entries-edited_other s t false cfg h =
      flags-append t (without s cfg.subnets) []
      ∙ rw (flags-without_other s t cfg.subnets h, append-nil)

  entries_elsewhere :
      (ident : ℕ) (s : String) (b : Bool) (w w' : W)
      → ConfigChange ident (edited s b (configs w ident)) w w'
      → (i : ℕ) (t : String) → ((i == ident) ≡ false) ⊎ (str_eq s t ≡ false)
      → (x : Bool) → (i == ident) ≡ x
      → entries w' i t ≡ entries w i t
  entries_elsewhere ident s b w w' c i t o false e = rw (c.elsewhere i e)
  entries_elsewhere ident s b w w' c i t (inl n) true e = absurd (ground arith)
  entries_elsewhere ident s b w w' c i t (inr n) true e =
      rw ((==_iff i ident).0 e, c.here) (entries-edited_other s t b (configs w ident) n)

  ConfigChange→Advertised :
      (ident : ℕ) (s : String) (b : Bool) (w w' : W)
      → ConfigChange ident (edited s b (configs w ident)) w w'
      → Advertised ident s b w w'
  ConfigChange→Advertised ident s b w w' c = record {
    here = rw c.here (entries-edited s b (configs w ident));
    elsewhere = λ i t o. entries_elsewhere ident s b w w' c i t o (i == ident) refl;
    same_vlans = c.same_vlans;
  }

  present_found :
      (o : Option VlanConfig) (w : W)
      → (let (r, w') = continue (found o) (λ v. pure (some v)) w in handle absent r w') ≡ (ret o, w)
  present_found none w = refl
  present_found (some v) w = refl

  module _ {d : SdwanApplianceDevice W} (h : Abides d) where
    present_vlan-found : (k : ℕ) (w : W) → present_vlan d.lan k w ≡ (ret (vlans w d.ident k), w)
    present_vlan-found k w = rw (h.gets_vlan k w) (present_found (vlans w d.ident k) w)

    deleted :
        (k : ℕ) (w : W) (o : Option VlanConfig)
        → vlans w d.ident k ≡ o
        → Post
            (elim o [ none ↦ pure tt | some vlan ↦ d.lan.delete_vlan k ])
            (Returns (λ _. VlanChange d.ident k none w))
            w
    deleted k w none e = record { here = e; elsewhere = λ i j _. refl; same_configs = λ i. refl }
    deleted k w (some v) e = h.deletes_vlan k w v e

    pub delete_if_present-VlanChange :
        (k : ℕ) (w : W)
        → Post (delete_if_present d.lan k) (Returns (λ _. VlanChange d.ident k none w)) w
    unfolding delete_if_present
    delete_if_present-VlanChange k w =
        Post-bind (λ o w'. (o ≡ vlans w d.ident k) × (w' ≡ w))
          (Returns (λ _. VlanChange d.ident k none w)) (present_vlan d.lan k) _ w
          (rw (present_vlan-found k w) (refl, refl)) (λ o w' (e, e'). rw e' (deleted k w o (sym e)))

    pub set_advertise-Advertised :
        (s : String) (b : Bool) (w : W)
        → Post (set_advertise d.vpn s b) (Returns (λ _. Advertised d.ident s b w)) w
    unfolding set_advertise
    set_advertise-Advertised s b w =
        let Q = Returns (λ _. Advertised d.ident s b w) in
        Post-bind (λ c w'. (c ≡ configs w d.ident) × (w' ≡ w)) Q d.vpn.get_vpn_config _ w
          (rw (h.gets_config w) (refl, refl))
          (λ c w' (e, e').
            rw (e, e')
              (Post-Returns _ _ (d.vpn.set_vpn_config (edited s b (configs w d.ident))) w
                (h.sets_config (edited s b (configs w d.ident)) w)
                (λ _ w''. ConfigChange→Advertised d.ident s b w w'')))
