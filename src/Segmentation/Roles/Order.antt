-- ===== src/Segmentation/Roles/Order.antt =====
-- `select_roles` does not depend on the order in which the candidates were discovered.
use testprotocols.Prelude.{
  ℕ, ◌≡◌, refl, ap, ◌∙◌, ◌≢◌, inl, inr, not, List, [], ◌∷◌, arith, Bool-cases,
}
use testprotocols.Prelude.Text.Order.{text_leb, text_leb_total, text_leb_trans, text_leb_antisym}
use testprotocols.Segmentation.{
  SpokeCandidate, insert_by_name, sort_by_name, roles_from, find_source, select_roles,
}

-- One discovery is the other with candidates of different names moved.
pub data Rediscovered : List SpokeCandidate → List SpokeCandidate → Type 0 where
  as_found : {l : List SpokeCandidate} → Rediscovered l l
  behind :
      {l m : List SpokeCandidate} (c : SpokeCandidate)
      → Rediscovered l m
      → Rediscovered (c ∷ l) (c ∷ m)
  exchanged :
      {l : List SpokeCandidate} (c d : SpokeCandidate)
      → c.name ≢ d.name
      → Rediscovered (c ∷ d ∷ l) (d ∷ c ∷ l)
  in_steps : {l m n : List SpokeCandidate} → Rediscovered l m → Rediscovered m n → Rediscovered l n

-- The order of two different names, in both directions.
ordered_apart : (s t : List ℕ) → s ≢ t → text_leb t s ≡ not (text_leb s t)
ordered_apart s t h = elim (Bool-cases (text_leb s t)) [
  | inl e ↦ elim (Bool-cases (text_leb t s)) [
    | inl k ↦ absurd (h (text_leb_antisym s t e k))
    | inr k ↦ rw (e, k) refl
  ]
  | inr e ↦ rw (e, text_leb_total s t e) refl
]

insert_by_name_comm :
    (c d : SpokeCandidate) (l : List SpokeCandidate)
    → c.name ≢ d.name
    → insert_by_name c (insert_by_name d l) ≡ insert_by_name d (insert_by_name c l)
unfolding insert_by_name
insert_by_name_comm c d [] h = rw (ordered_apart c.name d.name h) (ground arith)
insert_by_name_comm c d (x ∷ l) h = ground (
  arith,
  ordered_apart c.name d.name h,
  text_leb_trans d.name c.name x.name,
  text_leb_trans c.name d.name x.name,
  insert_by_name_comm c d l h,
)

sort_by_name-Rediscovered :
    {l m : List SpokeCandidate} → Rediscovered l m → sort_by_name l ≡ sort_by_name m
unfolding sort_by_name
sort_by_name-Rediscovered as_found = refl
sort_by_name-Rediscovered (behind c r) = ap (insert_by_name c) (sort_by_name-Rediscovered r)
sort_by_name-Rediscovered (exchanged {l = l} c d h) = insert_by_name_comm c d (sort_by_name l) h
sort_by_name-Rediscovered (in_steps r q) = sort_by_name-Rediscovered r ∙ sort_by_name-Rediscovered q

-- The same candidates, discovered in another order that moves only candidates of different names past
-- each other, get the same roles.
pub select_roles-Rediscovered :
    (l m : List SpokeCandidate) (model : List ℕ)
    → Rediscovered l m
    → select_roles l model ≡ select_roles m model
unfolding select_roles
select_roles-Rediscovered l m model r =
    ap (λ ordered. roles_from (find_source model ordered)) (sort_by_name-Rediscovered r)
