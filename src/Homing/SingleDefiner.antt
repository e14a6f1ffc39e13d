-- ===== src/Homing/SingleDefiner.antt =====
-- After `realize`, each client's VLAN is defined and advertised by its target alone.
use testprotocols.Prelude.{
  ℕ, ◌==◌, ==_iff, ◌≡◌, refl, inl, inr, Bool, true, false, List, [], ◌∷◌, All, All-map,
  if◌then◌else◌,
}
use testprotocols.Exec.{pure, ◌>>◌}
use testprotocols.Exec.Post.{Post, Returns, Post-bind, Post-call, Post-Returns}
use testprotocols.Homing.{
  VlanConfig, SdwanApplianceDevice, HomeAssignment, withdraw, withdraw_others, assign, realize,
  set_advertise,
}
use testprotocols.Homing.Laws.{Views, Abides}
use testprotocols.Homing.Clients.{
  Apart, Undefined, Defined, SameAt, SameAt-trans, SameAt-Undefined, SameAt-Defined, Only,
  withdraw-Undefined, define-Defined,
}

module _ {W : Type 0} (views : Views W) where
  -- A client at one appliance, which is its target or is not.
  abbrev pub HomedAt : Bool → VlanConfig → ℕ → W → Type 0
  HomedAt true v i w = Defined views v i w
  HomedAt false v i w = Undefined views v i w

  -- The target defines and advertises the client, and no other appliance does either.
  pub record Homed (all_appliances : List (SdwanApplianceDevice W)) (a : HomeAssignment W) (w : W)
      : Type 0 where
    pub at_target : Defined views a.vlan a.target.ident w
    pub everywhere :
        All (λ ap. HomedAt (ap.ident == a.target.ident) a.vlan ap.ident w) all_appliances

  abbrev GoneIf : Bool → VlanConfig → ℕ → W → Type 0
  GoneIf true v i w = Unit
  GoneIf false v i w = Undefined views v i w

  -- Withdrawals of one client change nothing for others, and do not bring it back.
  record Through (v : VlanConfig) (w w' : W) : Type 0 where
    apart : (u : VlanConfig) (i : ℕ) → Apart u v → SameAt views u i w w'
    kept : (i : ℕ) → Undefined views v i w → Undefined views v i w'

  stays_Undefined :
      (v : VlanConfig) (ident i : ℕ) (w w' : W)
      → Undefined views v ident w'
      → Only views v ident w w'
      → (x : Bool) → (i == ident) ≡ x
      → Undefined views v i w
      → Undefined views v i w'
  stays_Undefined v ident i w w' h o true e k = rw ((==_iff i ident).0 e) h
  stays_Undefined v ident i w w' h o false e k = SameAt-Undefined views v i w w' (o v i (inl e)) k

  Undefined→Through :
      (v : VlanConfig) (ident : ℕ) (w w' : W)
      → Undefined views v ident w'
      → Only views v ident w w'
      → Through v w w'
  Undefined→Through v ident w w' h o = record {
    apart = λ u i a. o u i (inr a);
    kept = λ i. stays_Undefined v ident i w w' h o (i == ident) refl;
  }

  Through-trans :
      (v : VlanConfig) (w w' w'' : W) → Through v w w' → Through v w' w'' → Through v w w''
  Through-trans v w w' w'' h k = record {
    apart = λ u i a. SameAt-trans views u i w w' w'' (h.apart u i a) (k.apart u i a);
    kept = λ i g. k.kept i (h.kept i g);
  }

  GoneIf-kept :
      (v : VlanConfig) (i : ℕ) (w w' : W)
      → Through v w w'
      → (x : Bool) → GoneIf x v i w
      → GoneIf x v i w'
  GoneIf-kept v i w w' t true h = tt
  GoneIf-kept v i w w' t false h = t.kept i h

  one_withdrawal :
      (v : VlanConfig) (d : SdwanApplianceDevice W)
      → Abides views d
      → (x : Bool) (w : W)
      → Post
          (if x then pure tt else withdraw v d)
          (Returns (λ _ w'. GoneIf x v d.ident w' × Through v w w'))
          w
  one_withdrawal v d h true w = (
    tt,
    record { apart = λ u i a. record { same_vlan = refl; same_entries = refl }; kept = λ i g. g },
  )
  one_withdrawal v d h false w =
      Post-Returns _ _ (withdraw v d) w (withdraw-Undefined views d h v w)
        (λ _ w' (g, o). (g, Undefined→Through v d.ident w w' g o))

  abbrev AllGone : HomeAssignment W → List (SdwanApplianceDevice W) → W → Type 0
  AllGone a aps w = All (λ ap. GoneIf (ap.ident == a.target.ident) a.vlan ap.ident w) aps

  withdraw_others-AllGone :
      (a : HomeAssignment W) (aps : List (SdwanApplianceDevice W))
      → All (Abides views) aps
      → (w : W)
      → Post (withdraw_others a aps) (Returns (λ _ w'. AllGone a aps w' × Through a.vlan w w')) w
  unfolding withdraw_others
  withdraw_others-AllGone a [] h w = (
    tt,
    record { apart = λ u i k. record { same_vlan = refl; same_entries = refl }; kept = λ i g. g },
  )
  withdraw_others-AllGone a (ap ∷ aps) h w =
      let Q = Returns (λ _ w'. AllGone a (ap ∷ aps) w' × Through a.vlan w w') in
      let x = ap.ident == a.target.ident in
      let first = if x then pure tt else withdraw a.vlan ap in
      Post-bind (λ _ w'. GoneIf x a.vlan ap.ident w' × Through a.vlan w w') Q first _ w
        (Post-call _ _ Q first w (one_withdrawal a.vlan ap h.0 x w) (λ _ _ k. k))
        (λ _ w₁ (g, t).
          Post-Returns _ _ (withdraw_others a aps) w₁ (withdraw_others-AllGone a aps h.1 w₁)
            (λ _ w₂ (rest, t'). (
              (GoneIf-kept a.vlan ap.ident w₁ w₂ t' x g, rest),
              Through-trans a.vlan w w₁ w₂ t t',
            )))

  abbrev SameForOthers : VlanConfig → W → W → Type 0
  SameForOthers v w w' = (u : VlanConfig) (i : ℕ) → Apart u v → SameAt views u i w w'

  GoneIf→HomedAt :
      (v : VlanConfig) (t i : ℕ) (w w' : W)
      → Defined views v t w'
      → Only views v t w w'
      → (x : Bool) → (i == t) ≡ x
      → GoneIf x v i w
      → HomedAt x v i w'
  GoneIf→HomedAt v t i w w' d o true e g = rw ((==_iff i t).0 e) d
  GoneIf→HomedAt v t i w w' d o false e g = SameAt-Undefined views v i w w' (o v i (inl e)) g

  assign-Homed :
      (all_appliances : List (SdwanApplianceDevice W)) (a : HomeAssignment W)
      → All (Abides views) all_appliances
      → Abides views a.target
      → (w : W)
      → Post
          (assign all_appliances a)
          (Returns (λ _ w'. Homed all_appliances a w' × SameForOthers a.vlan w w'))
          w
  unfolding assign
  assign-Homed all_appliances a h ht w =
      let Q = Returns (λ _ w'. Homed all_appliances a w' × SameForOthers a.vlan w w') in
      let others = withdraw_others a all_appliances in
      let define = a.target.lan.set_vlan a.vlan >> set_advertise a.target.vpn a.vlan.subnet true in
      Post-bind (λ _ w'. AllGone a all_appliances w' × Through a.vlan w w') Q others (λ _. define) w
        (Post-call _ _ Q others w (withdraw_others-AllGone a all_appliances h w) (λ _ _ k. k))
        (λ _ w₁ (g, t).
          Post-Returns _ _ define w₁ (define-Defined views a.target ht a.vlan w₁) (λ _ w₂ (d, o). (
            record {
              at_target = d;
              everywhere =
                  All-map _ _ all_appliances
                    (λ ap.
                      GoneIf→HomedAt a.vlan a.target.ident ap.ident w₁ w₂ d o
                        (ap.ident == a.target.ident) refl)
                    g;
            },
            λ u i k. SameAt-trans views u i w w₁ w₂ (t.apart u i k) (o u i (inr k)),
          )))

  HomedAt-kept :
      (v : VlanConfig) (i : ℕ) (w w' : W)
      → SameAt views v i w w'
      → (x : Bool) → HomedAt x v i w
      → HomedAt x v i w'
  HomedAt-kept v i w w' s true h = SameAt-Defined views v i w w' s h
  HomedAt-kept v i w w' s false h = SameAt-Undefined views v i w w' s h

  Homed-kept :
      (all_appliances : List (SdwanApplianceDevice W)) (a : HomeAssignment W) (w w' : W)
      → ((i : ℕ) → SameAt views a.vlan i w w')
      → Homed all_appliances a w
      → Homed all_appliances a w'
  Homed-kept all_appliances a w w' s h = record {
    at_target = SameAt-Defined views a.vlan a.target.ident w w' (s a.target.ident) h.at_target;
    everywhere =
        All-map _ _ all_appliances
          (λ ap. HomedAt-kept a.vlan ap.ident w w' (s ap.ident) (ap.ident == a.target.ident))
          h.everywhere;
  }

  -- No two assignments share a VLAN or a subnet.
  abbrev pub AreApart : List (HomeAssignment W) → Type 0
  AreApart [] = Unit
  AreApart (a ∷ as') = All (λ b. Apart a.vlan b.vlan) as' × AreApart as'

  module _ (all_appliances : List (SdwanApplianceDevice W)) where
    -- The induction also says what the rest of the assignments leaves alone.
    abbrev Realized : List (HomeAssignment W) → W → W → Type 0
    Realized as' w w' =
        All (λ a. Homed all_appliances a w') as'
        × ((u : VlanConfig) (i : ℕ) → All (λ b. Apart u b.vlan) as' → SameAt views u i w w')

    realize-Realized :
        (as' : List (HomeAssignment W))
        → All (Abides views) all_appliances
        → All (λ a. Abides views a.target) as'
        → AreApart as'
        → (w : W) → Post (realize as' all_appliances) (Returns (λ _. Realized as' w)) w
    unfolding realize
    realize-Realized [] h ht k w = (tt, λ u i _. record { same_vlan = refl; same_entries = refl })
    realize-Realized (a ∷ as') h ht k w =
        let Q = Returns (λ _. Realized (a ∷ as') w) in
        Post-bind (λ _ w'. Homed all_appliances a w' × SameForOthers a.vlan w w') Q
          (assign all_appliances a) _ w
          (Post-call _ _ Q (assign all_appliances a) w (assign-Homed all_appliances a h ht.0 w)
            (λ _ _ l. l))
          (λ _ w₁ (g, o).
            Post-Returns _ _ (realize as' all_appliances) w₁ (realize-Realized as' h ht.1 k.1 w₁)
              (λ _ w₂ (rest, same). (
                (Homed-kept all_appliances a w₁ w₂ (λ i. same a.vlan i k.0) g, rest),
                λ u i l. SameAt-trans views u i w w₁ w₂ (o u i l.0) (same u i l.1),
              )))

    -- With appliances that keep their contracts, and clients that share neither VLANs nor subnets,
    -- `realize` returns and afterwards every client is defined by its target, advertised there by one
    -- entry, and neither defined nor listed at any other of the appliances.
    pub realize-Homed :
        (as' : List (HomeAssignment W))
        → All (Abides views) all_appliances
        → All (λ a. Abides views a.target) as'
        → AreApart as'
        → (w : W)
        → Post
            (realize as' all_appliances)
            (Returns (λ _ w'. All (λ a. Homed all_appliances a w') as'))
            w
    realize-Homed as' h ht k w =
        Post-Returns _ _ (realize as' all_appliances) w (realize-Realized as' h ht k w)
          (λ _ _ r. r.0)
