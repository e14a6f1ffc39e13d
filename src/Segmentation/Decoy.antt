-- ===== src/Segmentation/Decoy.antt =====
-- packages/testoperations/src/testoperations/segmentation.py: a deny target that collides with no
-- network in use. `ip_network` is `ipaddress.ip_network(text, strict=False)`, and nothing where that
-- raises a `ValueError`.
pub mod Collisions
use testprotocols.Prelude.{
  ℕ, zero, suc, ◌+◌, ◌-◌, ◌*◌, ◌≤◌, ◌<◌, String, ◌≡◌, refl, sym, ap, ◌∙◌, subst, ◌≢◌, ◌↔◌, ◌⊎◌, inl,
  inr, Bool, true, false, not, ◌&&◌, ◌||◌, Option, none, some, List, [], ◌∷◌, ◌++◌, map, append-nil,
  append_assoc, arith, eq_iff, eq_refl, str_eq, ltb, leb, ◌==◌, if◌then◌else◌, Bool-cases,
  Option-cases, length, All, length-append, length-map, All-append,
}
use testprotocols.Exec.{Outcome, ret, exc, map_outcome}
use testprotocols.Prelude.Text.{codes}
use testprotocols.Exec.Failure.{value_error}
use testprotocols.Prelude.Text.Split.{text_eq}
use testprotocols.Prelude.Text.{strip}

-- A network with its text; of an IPv4 network the first and the last address, as numbers.
pub data Network : Type 0 where
  v4 : (text : List ℕ) → (first last : ℕ) → Network
  v6 : Network

pub record DecoyDerivation : Type 0 where
  pub subnet : List ℕ
  pub host : List ℕ
  pub collisions : List (List ℕ)

-- `DECOY_RANGE`: 198.51.100.0/24.
abbrev pub decoy_first : ℕ
decoy_first = ((198 * 256 + 51) * 256 + 100) * 256

abbrev pub decoy_last : ℕ
decoy_last = ((198 * 256 + 51) * 256 + 100) * 256 + 255

-- `_BaseNetwork.overlaps`: an end of one network lies in the other.
abbrev is_within : (first last address : ℕ) → Bool
is_within first last address = leb first address && leb address last

unfoldable pub overlaps_decoy : (first last : ℕ) → Bool
overlaps_decoy first last =
    is_within first last decoy_first
    || is_within first last decoy_last
    || is_within decoy_first decoy_last first
    || is_within decoy_first decoy_last last

-- `collisions.setdefault(text, None)`
unfoldable pub set_default : List ℕ → List (List ℕ) → List (List ℕ)
set_default text [] = text ∷ []
set_default text (t ∷ collisions) =
    let rest = set_default text collisions in if text_eq t text then t ∷ collisions else t ∷ rest

module _ (ip_network : List ℕ → Option Network) where
  -- The loop over the networks in use.
  unfoldable pub collect_collisions : (collisions in_use : List (List ℕ)) → Outcome (List (List ℕ))
  unfolding overlaps_decoy set_default
  collect_collisions collisions [] = ret collisions
  collect_collisions collisions (raw ∷ in_use) = elim (ip_network (strip raw)) [
    | none ↦ exc value_error
    | some net ↦ elim net [
      | v4 text first last ↦
          collect_collisions
            (if overlaps_decoy first last then set_default text collisions else collisions) in_use
      | v6 ↦ collect_collisions collisions in_use
    ]
  ]

  unfoldable pub derive_decoy_target : (in_use : List (List ℕ)) → Outcome DecoyDerivation
  unfolding collect_collisions
  derive_decoy_target in_use =
      map_outcome
        (λ collisions. record {
          subnet = codes "198.51.100.0/24";
          host = codes "198.51.100.1/32";
          collisions = collisions;
        })
        (collect_collisions [] in_use)
