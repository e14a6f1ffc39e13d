-- ===== src/Segmentation/Decoy/Collisions.antt =====
-- The decoy target is judged safe exactly where no network in use shares an address with it.
use testprotocols.Prelude.{
  ℕ, ◌≤◌, ◌<◌, ◌≡◌, refl, sym, ◌∙◌, ◌≢◌, ◌↔◌, ◌⊎◌, inl, inr, Bool, true, false, ◌||◌, Option, none,
  some, List, [], ◌∷◌, arith, if◌then◌else◌, Bool-cases, All,
}
use testprotocols.Exec.{Outcome, ret, exc, out_of_fuel, map_outcome}
use testprotocols.Exec.Failure.{value_error}
use testprotocols.Prelude.Text.{strip}
use testprotocols.Prelude.Text.Split.{text_eq}
use testprotocols.Segmentation.Decoy.{
  Network, v4, v6, DecoyDerivation, decoy_first, decoy_last, overlaps_decoy, set_default,
  collect_collisions, derive_decoy_target,
}

-- No address of the entry's network is one of the decoy's; an entry that is no network is not clear.
abbrev pub IsClear : Option Network → Type 0
IsClear none = ⊥
IsClear (some v6) = Unit
IsClear (some (v4 text first last)) =
    (address : ℕ) → first ≤ address → address ≤ last → address < decoy_first ⊎ decoy_last < address

overlaps_decoy-apart :
    (first last : ℕ)
    → overlaps_decoy first last ≡ false
    → (address : ℕ) → first ≤ address
    → address ≤ last
    → address < decoy_first ⊎ decoy_last < address
unfolding overlaps_decoy
overlaps_decoy-apart first last h address k l = ground (arith, h, k, l)

overlaps_decoy-shared :
    (first last : ℕ)
    → first ≤ last
    → overlaps_decoy first last ≡ true
    → ¬ (
        (address : ℕ)
        → first ≤ address
        → address ≤ last
        → address < decoy_first ⊎ decoy_last < address)
unfolding overlaps_decoy
overlaps_decoy-shared first last wf h k =
    ground (arith, h, wf, k decoy_first, k decoy_last, k first, k last)

abbrev pub AreClear : (List ℕ → Option Network) → List (List ℕ) → Type 0
AreClear ip_network in_use = All (λ raw. IsClear (ip_network (strip raw))) in_use

abbrev is_malformed : Option Network → Bool
is_malformed none = true
is_malformed (some net) = false

abbrev pub any_malformed : (List ℕ → Option Network) → List (List ℕ) → Bool
any_malformed ip_network [] = false
any_malformed ip_network (raw ∷ in_use) =
    is_malformed (ip_network (strip raw)) || any_malformed ip_network in_use

set_default-ne-nil : (text : List ℕ) (collisions : List (List ℕ)) → set_default text collisions ≢ []
unfolding set_default
set_default-ne-nil text [] e = cc
set_default-ne-nil text (t ∷ collisions) e = elim (Bool-cases (text_eq t text)) [
  | inl k ↦ cc (rw k at e)
  | inr k ↦ cc (rw k at e)
]

module _ (ip_network : List ℕ → Option Network) where
  -- What the loop makes of the collisions found before: none are left exactly where there were none and
  -- every entry is clear; it raises where an entry is no network.
  abbrev Collected : (before in_use : List (List ℕ)) → Outcome (List (List ℕ)) → Type 0
  Collected before in_use (ret collisions) =
      (any_malformed ip_network in_use ≡ false)
      × ((collisions ≡ []) ↔ ((before ≡ []) × AreClear ip_network in_use))
  Collected before in_use (exc e) = (e ≡ value_error) × (any_malformed ip_network in_use ≡ true)
  Collected before in_use out_of_fuel = ⊥

  -- The networks that `ip_network` gives have a last address that is not below the first.
  abbrev pub WellFormed : Type 0
  WellFormed =
      (raw text : List ℕ) (first last : ℕ)
      → ip_network raw ≡ some (v4 text first last)
      → first ≤ last

  -- An entry that leaves the collisions, in front of the others.
  Collected-clear :
      (before : List (List ℕ)) (raw : List ℕ) (in_use : List (List ℕ)) (r : Outcome (List (List ℕ)))
      → is_malformed (ip_network (strip raw)) ≡ false
      → IsClear (ip_network (strip raw))
      → Collected before in_use r
      → Collected before (raw ∷ in_use) r
  Collected-clear before raw in_use (ret c) m k h =
      (rw m h.0, ((λ e. let (b, cs) = h.1.0 e in (b, (k, cs))), λ b. h.1.1 (b.0, b.1.1)))
  Collected-clear before raw in_use (exc e) m k h = rw m h
  Collected-clear before raw in_use out_of_fuel m k h = h

  -- An entry that collides.
  Collected-hit :
      (before : List (List ℕ)) (text raw : List ℕ) (in_use : List (List ℕ))
      (r : Outcome (List (List ℕ)))
      → is_malformed (ip_network (strip raw)) ≡ false
      → ¬ IsClear (ip_network (strip raw))
      → Collected (set_default text before) in_use r
      → Collected before (raw ∷ in_use) r
  Collected-hit before text raw in_use (ret c) m k h = (
    rw m h.0,
    ((λ e. absurd (set_default-ne-nil text before (h.1.0 e).0)), λ b. absurd (k b.1.0)),
  )
  Collected-hit before text raw in_use (exc e) m k h = rw m h
  Collected-hit before text raw in_use out_of_fuel m k h = h

  abbrev collect_entry : List (List ℕ) → List (List ℕ) → Option Network → Outcome (List (List ℕ))
  collect_entry before in_use o = elim o [
    | none ↦ exc value_error
    | some net ↦ elim net [
      | v4 text first last ↦
          collect_collisions ip_network
            (if overlaps_decoy first last then set_default text before else before) in_use
      | v6 ↦ collect_collisions ip_network before in_use
    ]
  ]

  Collected-entry :
      (before : List (List ℕ)) (raw : List ℕ) (in_use : List (List ℕ)) (o : Option Network)
      → WellFormed
      → ip_network (strip raw) ≡ o
      → ((b : List (List ℕ)) → Collected b in_use (collect_collisions ip_network b in_use))
      → Collected before (raw ∷ in_use) (collect_entry before in_use o)
  Collected-entry before raw in_use none wf e k = (refl, rw e refl)
  Collected-entry before raw in_use (some v6) wf e k =
      Collected-clear before raw in_use (collect_collisions ip_network before in_use) (rw e refl)
        (rw e tt) (k before)
  Collected-entry before raw in_use (some (v4 text first last)) wf e k =
      elim (Bool-cases (overlaps_decoy first last)) [
        | inl hit ↦ rw hit (
            Collected-hit before text raw in_use
              (collect_collisions ip_network (set_default text before) in_use) (rw e refl)
              (rw e (overlaps_decoy-shared first last (wf (strip raw) text first last e) hit))
              (k (set_default text before)))
        | inr miss ↦ rw miss (
            Collected-clear before raw in_use (collect_collisions ip_network before in_use)
              (rw e refl) (rw e (overlaps_decoy-apart first last miss)) (k before))
      ]

  collect_collisions-Collected :
      (before in_use : List (List ℕ))
      → WellFormed
      → Collected before in_use (collect_collisions ip_network before in_use)
  unfolding collect_collisions
  collect_collisions-Collected before [] wf = (refl, ((λ e. (e, tt)), λ h. h.0))
  collect_collisions-Collected before (raw ∷ in_use) wf =
      Collected-entry before raw in_use (ip_network (strip raw)) wf refl
        (λ b. collect_collisions-Collected b in_use wf)

  -- What is derived: there are no collisions exactly where no network in use shares an address with the
  -- decoy's range; an entry that is no network raises.
  abbrev pub Derived : (in_use : List (List ℕ)) → Outcome DecoyDerivation → Type 0
  Derived in_use (ret d) =
      (any_malformed ip_network in_use ≡ false) × ((d.collisions ≡ []) ↔ AreClear ip_network in_use)
  Derived in_use (exc e) = (e ≡ value_error) × (any_malformed ip_network in_use ≡ true)
  Derived in_use out_of_fuel = ⊥

  Collected-Derived :
      (in_use : List (List ℕ)) (r : Outcome (List (List ℕ)))
      (make : List (List ℕ) → DecoyDerivation)
      → ((c : List (List ℕ)) → (make c).collisions ≡ c)
      → Collected [] in_use r
      → Derived in_use (map_outcome make r)
  Collected-Derived in_use (ret c) make same h =
      (h.0, ((λ e. (h.1.0 (sym (same c) ∙ e)).1), λ k. same c ∙ h.1.1 (refl, k)))
  Collected-Derived in_use (exc e) make same h = h
  Collected-Derived in_use out_of_fuel make same h = h

  -- Where the networks that `ip_network` reads have no last address below the first: the derived target
  -- has no collisions exactly where no network in use shares an IPv4 address with 198.51.100.0/24, and a
  -- `ValueError` is raised exactly where one of the entries is no network.
  pub derive_decoy_target-Derived :
      (in_use : List (List ℕ)) → WellFormed → Derived in_use (derive_decoy_target ip_network in_use)
  unfolding derive_decoy_target
  derive_decoy_target-Derived in_use wf =
      Collected-Derived in_use (collect_collisions ip_network [] in_use) _ (λ c. refl)
        (collect_collisions-Collected [] in_use wf)
