-- ===== src/Homing/Clients.antt =====
-- What one appliance holds of one client, and what a withdrawal or a definition leaves there.
use testprotocols.Prelude.{
  ℕ, ◌==◌, str_eq, ◌≡◌, ◌∙◌, ◌⊎◌, inl, inr, Bool, true, false, Option, none, some, [], ◌∷◌,
  if◌then◌else◌,
}
use testprotocols.Exec.{◌>>◌}
use testprotocols.Exec.Post.{Post, Returns, Post-bind, Post-call, Post-Returns}
use testprotocols.Homing.{
  VlanConfig, SdwanApplianceDevice, withdraw, delete_if_present, set_advertise,
}
use testprotocols.Homing.Laws.{
  Views, Abides, VlanChange, Advertised, entries, delete_if_present-VlanChange,
  set_advertise-Advertised,
}

-- Two clients: neither the VLAN nor the subnet is shared.
abbrev pub Apart : VlanConfig → VlanConfig → Type 0
Apart u v = ((u.vlan_id == v.vlan_id) ≡ false) × (str_eq v.subnet u.subnet ≡ false)

module _ {W : Type 0} (views : Views W) where
  open views use {vlans, configs}

  pub record Undefined (v : VlanConfig) (i : ℕ) (w : W) : Type 0 where
    pub no_vlan : vlans w i v.vlan_id ≡ none
    pub no_entry : entries views w i v.subnet ≡ []

  pub record Defined (v : VlanConfig) (i : ℕ) (w : W) : Type 0 where
    pub has_vlan : vlans w i v.vlan_id ≡ some v
    pub one_entry : entries views w i v.subnet ≡ true ∷ []

  -- What a client finds at an appliance has not changed.
  pub record SameAt (u : VlanConfig) (i : ℕ) (w w' : W) : Type 0 where
    pub same_vlan : vlans w' i u.vlan_id ≡ vlans w i u.vlan_id
    pub same_entries : entries views w' i u.subnet ≡ entries views w i u.subnet

  pub SameAt-trans :
      (u : VlanConfig) (i : ℕ) (w w' w'' : W)
      → SameAt u i w w'
      → SameAt u i w' w''
      → SameAt u i w w''
  SameAt-trans u i w w' w'' h k = record {
    same_vlan = k.same_vlan ∙ h.same_vlan;
    same_entries = k.same_entries ∙ h.same_entries;
  }

  pub SameAt-Undefined :
      (v : VlanConfig) (i : ℕ) (w w' : W) → SameAt v i w w' → Undefined v i w → Undefined v i w'
  SameAt-Undefined v i w w' s h = record {
    no_vlan = s.same_vlan ∙ h.no_vlan;
    no_entry = s.same_entries ∙ h.no_entry;
  }

  pub SameAt-Defined :
      (v : VlanConfig) (i : ℕ) (w w' : W) → SameAt v i w w' → Defined v i w → Defined v i w'
  SameAt-Defined v i w w' s h = record {
    has_vlan = s.same_vlan ∙ h.has_vlan;
    one_entry = s.same_entries ∙ h.one_entry;
  }

  -- One client's step at one appliance: it changes nothing elsewhere, and nothing for others.
  abbrev pub Only : VlanConfig → ℕ → W → W → Type 0
  Only v ident w w' =
      (u : VlanConfig) (i : ℕ) → ((i == ident) ≡ false) ⊎ Apart u v → SameAt u i w w'

  vlan_part :
      (u v : VlanConfig) (i ident : ℕ)
      → ((i == ident) ≡ false) ⊎ Apart u v
      → ((i == ident) ≡ false) ⊎ ((u.vlan_id == v.vlan_id) ≡ false)
  vlan_part u v i ident (inl n) = inl n
  vlan_part u v i ident (inr a) = inr a.0

  subnet_part :
      (u v : VlanConfig) (i ident : ℕ)
      → ((i == ident) ≡ false) ⊎ Apart u v
      → ((i == ident) ≡ false) ⊎ (str_eq v.subnet u.subnet ≡ false)
  subnet_part u v i ident (inl n) = inl n
  subnet_part u v i ident (inr a) = inr a.1

  -- A change of one VLAN, then of its subnet's entry, at one appliance.
  both_changes :
      (v : VlanConfig) (ident : ℕ) (o : Option VlanConfig) (b : Bool) (w w₁ w₂ : W)
      → VlanChange views ident v.vlan_id o w w₁
      → Advertised views ident v.subnet b w₁ w₂
      → Only v ident w w₂
  both_changes v ident o b w w₁ w₂ c a u i k = record {
    same_vlan = a.same_vlans i u.vlan_id ∙ c.elsewhere i u.vlan_id (vlan_part u v i ident k);
    same_entries = a.elsewhere i u.subnet (subnet_part u v i ident k) ∙ rw (c.same_configs i);
  }

  -- What a withdrawal at `ap` leaves, and what the definition at the target leaves.
  module _ (d : SdwanApplianceDevice W) (h : Abides views d) (v : VlanConfig) where
    advertised_after :
        (o : Option VlanConfig) (b : Bool) (w w₁ : W)
        → VlanChange views d.ident v.vlan_id o w w₁
        → Post
            (set_advertise d.vpn v.subnet b)
            (Returns (λ _ w₂.
              (vlans w₂ d.ident v.vlan_id ≡ o)
              × (entries views w₂ d.ident v.subnet ≡ (if b then true ∷ [] else []))
              × Only v d.ident w w₂))
            w₁
    advertised_after o b w w₁ c =
        Post-Returns _ _ (set_advertise d.vpn v.subnet b) w₁
          (set_advertise-Advertised views h v.subnet b w₁)
          (λ _ w₂ a. (
            a.same_vlans d.ident v.vlan_id ∙ c.here,
            a.here,
            both_changes v d.ident o b w w₁ w₂ c a,
          ))

    pub withdraw-Undefined :
        (w : W)
        → Post (withdraw v d) (Returns (λ _ w'. Undefined v d.ident w' × Only v d.ident w w')) w
    unfolding withdraw
    withdraw-Undefined w =
        let Q = Returns (λ _ w'. Undefined v d.ident w' × Only v d.ident w w') in
        let gone = delete_if_present d.lan v.vlan_id in
        Post-bind (λ _. VlanChange views d.ident v.vlan_id none w) Q gone _ w
          (Post-call _ _ Q gone w (delete_if_present-VlanChange views h v.vlan_id w) (λ _ _ c. c))
          (λ _ w₁ c.
            Post-Returns _ _ (set_advertise d.vpn v.subnet false) w₁
              (advertised_after none false w w₁ c)
              (λ _ w₂ (e, l, o). (record { no_vlan = e; no_entry = l }, o)))

    pub define-Defined :
        (w : W)
        → Post
            (d.lan.set_vlan v >> set_advertise d.vpn v.subnet true)
            (Returns (λ _ w'. Defined v d.ident w' × Only v d.ident w w'))
            w
    define-Defined w =
        let Q = Returns (λ _ w'. Defined v d.ident w' × Only v d.ident w w') in
        Post-bind (λ _. VlanChange views d.ident v.vlan_id (some v) w) Q (d.lan.set_vlan v) _ w
          (Post-call _ _ Q (d.lan.set_vlan v) w (h.sets_vlan v w) (λ _ _ c. c))
          (λ _ w₁ c.
            Post-Returns _ _ (set_advertise d.vpn v.subnet true) w₁
              (advertised_after (some v) true w w₁ c)
              (λ _ w₂ (e, l, o). (record { has_vlan = e; one_entry = l }, o)))
