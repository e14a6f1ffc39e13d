-- ===== src/Segmentation/Roles.antt =====
-- The roles that `select_roles` assigns, whatever the order of the candidates.
pub mod Order
use testprotocols.Prelude.{
  ℕ, zero, suc, ◌+◌, ◌-◌, ◌*◌, ◌≤◌, ◌<◌, String, ◌≡◌, refl, sym, ap, ◌∙◌, subst, ◌≢◌, ◌↔◌, ◌⊎◌, inl,
  inr, Bool, true, false, not, ◌&&◌, ◌||◌, Option, none, some, List, [], ◌∷◌, ◌++◌, map, append-nil,
  append_assoc, arith, eq_iff, eq_refl, str_eq, ltb, leb, ◌==◌, if◌then◌else◌, Bool-cases,
  Option-cases, length, All, length-append, length-map, All-append,
}
use testprotocols.Prelude.Text.Order.{text_leb}
use testprotocols.Prelude.Text.Split.{text_eq, text_eq_sound}
use testprotocols.Segmentation.{
  SpokeCandidate, RoleAssignment, Selection, assigned, no_such_model, too_few_peers, insert_by_name,
  sort_by_name, onto_others, find_source, peers_of, assign_roles, roles_from, select_roles,
}

-- One list is the other with its elements moved.
pub data Reordered {A : Type 0} : List A → List A → Type 0 where
  same : {l : List A} → Reordered l l
  keep : {l m : List A} (x : A) → Reordered l m → Reordered (x ∷ l) (x ∷ m)
  swap : {l : List A} (x y : A) → Reordered (x ∷ y ∷ l) (y ∷ x ∷ l)
  chain : {l m n : List A} → Reordered l m → Reordered m n → Reordered l n

insert_by_name-Reordered :
    (c : SpokeCandidate) (l : List SpokeCandidate) → Reordered (c ∷ l) (insert_by_name c l)
unfolding insert_by_name
insert_by_name-Reordered c [] = same
insert_by_name-Reordered c (d ∷ ds) = elim (Bool-cases (text_leb c.name d.name)) [
  | inl e ↦ rw e same
  | inr e ↦ rw e (chain (swap c d) (keep d (insert_by_name-Reordered c ds)))
]

sort_by_name-Reordered : (l : List SpokeCandidate) → Reordered l (sort_by_name l)
unfolding sort_by_name
sort_by_name-Reordered [] = same
sort_by_name-Reordered (c ∷ cs) =
    chain (keep c (sort_by_name-Reordered cs)) (insert_by_name-Reordered c (sort_by_name cs))

-- The source's place among the candidates, or that no candidate is of the model.
pub data SourceOf (model : List ℕ) (l : List SpokeCandidate)
    : Option (SpokeCandidate × List SpokeCandidate) → Type 0 where
  no_source : All (λ c. text_eq c.mx_model model ≡ false) l → SourceOf model l none
  a_source :
      (source : SpokeCandidate) (others : List SpokeCandidate)
      → source.mx_model ≡ model
      → Reordered l (source ∷ others)
      → SourceOf model l (some (source, others))

SourceOf-onto :
    (model : List ℕ) (c : SpokeCandidate) (l : List SpokeCandidate)
    (o : Option (SpokeCandidate × List SpokeCandidate))
    → text_eq c.mx_model model ≡ false
    → SourceOf model l o
    → SourceOf model (c ∷ l) (onto_others c o)
SourceOf-onto model c l none h (no_source k) = no_source (h, k)
SourceOf-onto model c l (some (s, others)) h (a_source _ _ e k) =
    a_source s (c ∷ others) e (chain (keep c k) (swap c s))

find_source-SourceOf :
    (model : List ℕ) (l : List SpokeCandidate) → SourceOf model l (find_source model l)
unfolding find_source
find_source-SourceOf model [] = no_source tt
find_source-SourceOf model (c ∷ cs) = elim (Bool-cases (text_eq c.mx_model model)) [
  | inl e ↦ rw e (a_source c cs (text_eq_sound c.mx_model model e) same)
  | inr e ↦ rw e (SourceOf-onto model c cs (find_source model cs) e (find_source-SourceOf model cs))
]

abbrev not_peers : List ℕ → List SpokeCandidate → List SpokeCandidate
not_peers hub [] = []
not_peers hub (c ∷ cs) = if text_eq c.hub hub then not_peers hub cs else c ∷ not_peers hub cs

to_front : {A : Type 0} (x : A) (l m : List A) → Reordered (x ∷ (l ++ m)) (l ++ x ∷ m)
to_front x [] m = same
to_front x (y ∷ l) m = chain (swap x y) (keep y (to_front x l m))

peers_of-Reordered :
    (hub : List ℕ) (l : List SpokeCandidate) → Reordered l (peers_of hub l ++ not_peers hub l)
unfolding peers_of
peers_of-Reordered hub [] = same
peers_of-Reordered hub (c ∷ cs) = elim (Bool-cases (text_eq c.hub hub)) [
  | inl e ↦ rw e (keep c (peers_of-Reordered hub cs))
  | inr e ↦
      rw e (
        chain (keep c (peers_of-Reordered hub cs))
          (to_front c (peers_of hub cs) (not_peers hub cs)))
]

abbrev SharesHub : List ℕ → SpokeCandidate → Type 0
SharesHub hub c = c.hub ≡ hub

peers_of-SharesHub :
    (hub : List ℕ) (l : List SpokeCandidate) → All (λ c. c.hub ≡ hub) (peers_of hub l)
unfolding peers_of
peers_of-SharesHub hub [] = tt
peers_of-SharesHub hub (c ∷ cs) = elim (Bool-cases (text_eq c.hub hub)) [
  | inl e ↦ rw e (text_eq_sound c.hub hub e, peers_of-SharesHub hub cs)
  | inr e ↦ rw e (peers_of-SharesHub hub cs)
]

not_peers-apart :
    (hub : List ℕ) (l : List SpokeCandidate)
    → All (λ c. text_eq c.hub hub ≡ false) (not_peers hub l)
not_peers-apart hub [] = tt
not_peers-apart hub (c ∷ cs) = elim (Bool-cases (text_eq c.hub hub)) [
  | inl e ↦ rw e (not_peers-apart hub cs)
  | inr e ↦ rw e (e, not_peers-apart hub cs)
]

All-Reordered : {A : Type 0} (P : A → Type 0) {l m : List A} → Reordered l m → All P m → All P l
All-Reordered P same h = h
All-Reordered P (keep x r) h = (h.0, All-Reordered P r h.1)
All-Reordered P (swap x y) (hy, (hx, h)) = (hx, (hy, h))
All-Reordered P (chain r q) h = All-Reordered P r (All-Reordered P q h)

-- What the roles are, among the candidates, or why there are none.
pub data RolesOf (model : List ℕ) (candidates : List SpokeCandidate) : Selection → Type 0 where
  roles_found :
      (r : RoleAssignment) (rest : List SpokeCandidate)
      → r.source.mx_model ≡ model
      → r.destination.hub ≡ r.source.hub
      → r.control.hub ≡ r.source.hub
      → Reordered candidates (r.source ∷ r.destination ∷ r.control ∷ rest)
      → RolesOf model candidates (assigned r)
  none_of_model :
      All (λ c. text_eq c.mx_model model ≡ false) candidates
      → RolesOf model candidates no_such_model
  few_peers :
      (source : SpokeCandidate) (peers apart : List SpokeCandidate)
      → source.mx_model ≡ model
      → Reordered candidates (source ∷ (peers ++ apart))
      → length peers ≤ 1
      → All (λ c. c.hub ≡ source.hub) peers
      → All (λ c. text_eq c.hub source.hub ≡ false) apart
      → RolesOf model candidates (too_few_peers (map (λ p. p.name) peers))

assign_roles-RolesOf :
    (model : List ℕ) (candidates : List SpokeCandidate) (source : SpokeCandidate)
    (peers apart : List SpokeCandidate)
    → source.mx_model ≡ model
    → Reordered candidates (source ∷ (peers ++ apart))
    → All (λ c. c.hub ≡ source.hub) peers
    → All (λ c. text_eq c.hub source.hub ≡ false) apart
    → RolesOf model candidates (assign_roles source peers)
assign_roles-RolesOf model candidates source [] apart e r h k =
    few_peers source [] apart e r (omega arith) h k
assign_roles-RolesOf model candidates source (p ∷ []) apart e r h k =
    few_peers source (p ∷ []) apart e r (omega arith) h k
assign_roles-RolesOf model candidates source (p ∷ q ∷ more) apart e r (hp, (hq, h)) k =
    roles_found _ (more ++ apart) e hp hq r

roles_from-RolesOf :
    (model : List ℕ) (candidates ordered : List SpokeCandidate)
    (o : Option (SpokeCandidate × List SpokeCandidate))
    → Reordered candidates ordered
    → SourceOf model ordered o
    → RolesOf model candidates (roles_from o)
roles_from-RolesOf model candidates ordered none r (no_source h) =
    none_of_model (All-Reordered _ r h)
roles_from-RolesOf model candidates ordered (some (s, others)) r (a_source _ _ e k) =
    assign_roles-RolesOf model candidates s (peers_of s.hub others) (not_peers s.hub others) e
      (chain r (chain k (keep s (peers_of-Reordered s.hub others))))
      (peers_of-SharesHub s.hub others) (not_peers-apart s.hub others)

-- `select_roles` assigns three of the candidates, each in a place of its own: a source of the model, and
-- a destination and a control that share its hub. Where it raises, no candidate is of the model, or all
-- but one of the others have another hub than a source of the model.
pub select_roles-RolesOf :
    (candidates : List SpokeCandidate) (model : List ℕ)
    → RolesOf model candidates (select_roles candidates model)
unfolding select_roles
select_roles-RolesOf candidates model =
    roles_from-RolesOf model candidates (sort_by_name candidates)
      (find_source model (sort_by_name candidates)) (sort_by_name-Reordered candidates)
      (find_source-SourceOf model (sort_by_name candidates))
