-- ===== src/Review/Checks.antt =====
-- Of a check's runs the newest decides, once all have completed.
use testprotocols.Prelude.{
  ℕ, ◌≤◌, ◌<◌, ◌≡◌, refl, sym, ap, ◌∙◌, subst, ◌≢◌, inl, inr, true, List, [], ◌∷◌, ◌++◌, arith, leb,
  if◌then◌else◌, Bool-cases, All, All-append, All-map,
}
use testprotocols.Review.{CheckRun, insert_by_id, sort_by_id, last_of}

-- The newest run, as the last of those with the greatest id.
abbrev pub newest_of : CheckRun → List CheckRun → CheckRun
newest_of r [] = r
newest_of r (s ∷ runs) = if leb r.id (newest_of s runs).id then newest_of s runs else r

pub record IsNewest (r : CheckRun) (runs : List CheckRun) : Type 0 where
  pub before : List CheckRun
  pub after : List CheckRun
  pub occurs : runs ≡ before ++ r ∷ after
  pub not_older : All (λ s. s.id ≤ r.id) before
  pub newer : All (λ s. s.id < r.id) after

IsNewest-All : (r : CheckRun) (runs : List CheckRun) → IsNewest r runs → All (λ s. s.id ≤ r.id) runs
IsNewest-All r runs n = subst (All (λ s. s.id ≤ r.id)) (sym n.occurs) (
    All-append (λ s. s.id ≤ r.id) n.before (r ∷ n.after) n.not_older
      (
        omega arith,
        All-map (λ s. s.id < r.id) (λ s. s.id ≤ r.id) n.after (λ s h. omega (arith, h)) n.newer,
      ))

newest_of-IsNewest : (r : CheckRun) (runs : List CheckRun) → IsNewest (newest_of r runs) (r ∷ runs)
newest_of-IsNewest r [] = record {
  before = [];
  after = [];
  occurs = refl;
  not_older = tt;
  newer = tt;
}
newest_of-IsNewest r (s ∷ runs) =
    let n = newest_of-IsNewest s runs in
    elim (Bool-cases (leb r.id (newest_of s runs).id)) [
      | inl e ↦ rw e (record {
        before = r ∷ n.before;
        after = n.after;
        occurs = ap (λ l. r ∷ l) n.occurs;
        not_older = (ground (arith, e), n.not_older);
        newer = n.newer;
      })
      | inr e ↦ rw e (record {
        before = [];
        after = s ∷ runs;
        occurs = refl;
        not_older = tt;
        newer =
            All-map (λ t. t.id ≤ (newest_of s runs).id) (λ t. t.id < r.id) (s ∷ runs)
              (λ t h. ground (arith, e, h)) (IsNewest-All (newest_of s runs) (s ∷ runs) n);
      })
    ]

abbrev IsSorted : List CheckRun → Type 0
IsSorted [] = Unit
IsSorted (r ∷ runs) = All (λ s. r.id ≤ s.id) runs × IsSorted runs

pub All-insert_by_id :
    (P : CheckRun → Type 0) (r : CheckRun) (runs : List CheckRun)
    → P r
    → All P runs
    → All P (insert_by_id r runs)
unfolding insert_by_id
All-insert_by_id P r [] h k = (h, tt)
All-insert_by_id P r (s ∷ runs) h k = elim (Bool-cases (leb r.id s.id)) [
  | inl e ↦ rw e (h, k)
  | inr e ↦ rw e (k.0, All-insert_by_id P r runs h k.1)
]

first_apart :
    (P : CheckRun → Type 0) (r s : CheckRun) (runs : List CheckRun)
    → All P (r ∷ s ∷ runs)
    → P r × All P (s ∷ runs)
first_apart P r s runs h = h

second_apart :
    (P : CheckRun → Type 0) (r s : CheckRun) (runs : List CheckRun)
    → All P (s ∷ insert_by_id r runs)
    → (All P (insert_by_id r runs) → P r × All P runs)
    → P r × All P (s ∷ runs)
second_apart P r s runs h k = let more = k h.1 in (more.0, (h.0, more.1))

insert_by_id-All :
    (P : CheckRun → Type 0) (r : CheckRun) (runs : List CheckRun)
    → All P (insert_by_id r runs)
    → P r × All P runs
unfolding insert_by_id
insert_by_id-All P r [] h = h
insert_by_id-All P r (s ∷ runs) h = elim (Bool-cases (leb r.id s.id)) [
  | inl e ↦ first_apart P r s runs (rw e at h)
  | inr e ↦ second_apart P r s runs (rw e at h) (insert_by_id-All P r runs)
]

insert_by_id-IsSorted :
    (r : CheckRun) (runs : List CheckRun) → IsSorted runs → IsSorted (insert_by_id r runs)
unfolding insert_by_id
insert_by_id-IsSorted r [] h = (tt, tt)
insert_by_id-IsSorted r (s ∷ runs) h = elim (Bool-cases (leb r.id s.id)) [
  | inl e ↦ rw e (
    (
      ground (arith, e),
      All-map (λ t. s.id ≤ t.id) (λ t. r.id ≤ t.id) runs (λ t k. ground (arith, e, k)) h.0,
    ),
    h,
  )
  | inr e ↦ rw e (
    All-insert_by_id (λ t. s.id ≤ t.id) r runs (ground (arith, e)) h.0,
    insert_by_id-IsSorted r runs h.1,
  )
]

sort_by_id-IsSorted : (runs : List CheckRun) → IsSorted (sort_by_id runs)
unfolding sort_by_id
sort_by_id-IsSorted [] = tt
sort_by_id-IsSorted (r ∷ runs) =
    insert_by_id-IsSorted r (sort_by_id runs) (sort_by_id-IsSorted runs)

pub sort_by_id-All :
    (P : CheckRun → Type 0) (runs : List CheckRun) → All P (sort_by_id runs) → All P runs
unfolding sort_by_id
sort_by_id-All P [] h = tt
sort_by_id-All P (r ∷ runs) h =
    let k = insert_by_id-All P r (sort_by_id runs) h in (k.0, sort_by_id-All P runs k.1)

-- The last of a list, whatever stands in front.
abbrev pub last_or : CheckRun → List CheckRun → CheckRun
last_or r [] = r
last_or r (s ∷ runs) = last_of s runs

last_of-last_or : (r : CheckRun) (runs : List CheckRun) → last_of r runs ≡ last_or r runs
last_of-last_or r [] = refl
last_of-last_or r (s ∷ runs) = refl

pub All-last_of :
    (P : CheckRun → Type 0) (r : CheckRun) (runs : List CheckRun)
    → All P (r ∷ runs)
    → P (last_of r runs)
All-last_of P r [] h = h.0
All-last_of P r (s ∷ runs) h = All-last_of P s runs h.1

below : (a b c : ℕ) → leb a b ≡ true → b ≤ c → leb a c ≡ true
below a b c h k = ground arith

last_of-insert :
    (d r s : CheckRun) (runs : List CheckRun)
    → IsSorted (s ∷ runs)
    → last_or d (insert_by_id r (s ∷ runs))
      ≡ (if leb r.id (last_of s runs).id then last_of s runs else r)
unfolding insert_by_id
last_of-insert d r s [] h = elim (Bool-cases (leb r.id s.id)) [
  | inl e ↦ rw e refl
  | inr e ↦ rw e refl
]
last_of-insert d r s (t ∷ runs) h = elim (Bool-cases (leb r.id s.id)) [
  | inl e ↦
      rw (e, below r.id s.id (last_of t runs).id e (All-last_of (λ u. s.id ≤ u.id) t runs h.0)) refl
  | inr e ↦ rw e (last_of-last_or s (insert_by_id r (t ∷ runs)) ∙ last_of-insert s r t runs h.1)
]

pub insert_by_id-ne-nil : (r : CheckRun) (runs : List CheckRun) → insert_by_id r runs ≢ []
unfolding insert_by_id
insert_by_id-ne-nil r [] e = cc
insert_by_id-ne-nil r (s ∷ runs) e = elim (Bool-cases (leb r.id s.id)) [
  | inl k ↦ cc (rw k at e)
  | inr k ↦ cc (rw k at e)
]

last_or-insert :
    (d r m : CheckRun) (runs : List CheckRun)
    → IsSorted runs
    → runs ≢ []
    → last_or d runs ≡ m
    → last_or d (insert_by_id r runs) ≡ (if leb r.id m.id then m else r)
last_or-insert d r m [] h k e = absurd (k refl)
last_or-insert d r m (s ∷ runs) h k e =
    last_of-insert d r s runs h ∙ ap (λ l. if leb r.id l.id then l else r) e

pub last_of-sort :
    (d r : CheckRun) (runs : List CheckRun) → last_or d (sort_by_id (r ∷ runs)) ≡ newest_of r runs
unfolding sort_by_id
last_of-sort d r [] = unfold insert_by_id in refl
last_of-sort d r (s ∷ runs) =
    last_or-insert d r (newest_of s runs) (sort_by_id (s ∷ runs)) (sort_by_id-IsSorted (s ∷ runs))
      (insert_by_id-ne-nil s (sort_by_id runs)) (last_of-sort d s runs)
