-- ===== src/Review/States.antt =====
-- The state that `conclusions` gives a check that has run.
use testprotocols.Prelude.{
  ℕ, ◌≡◌, refl, sym, ap, ◌∙◌, ◌≢◌, ◌↔◌, inl, inr, true, Option, none, some, List, [], ◌∷◌,
  Bool-cases, All,
}
use testprotocols.Prelude.Text.{codes}
use testprotocols.Prelude.Text.Split.{text_eq}
use testprotocols.Review.{
  CheckRun, sort_by_id, is_completed, running_of, or_pending, last_of, newest_state, state_by,
  state_of,
}
use testprotocols.Review.Checks.{
  newest_of, last_or, All-insert_by_id, sort_by_id-All, insert_by_id-ne-nil, All-last_of,
  last_of-sort,
}

abbrev pub success : List ℕ
success = codes "success"

-- All of a check's runs have completed, and the newest of them with success.
abbrev pub Passes : CheckRun → List CheckRun → Type 0
Passes r runs =
    All (λ s. is_completed s ≡ true) (r ∷ runs) × ((newest_of r runs).conclusion ≡ some success)

-- A run's status is `queued`, `in_progress`, `completed` and so on, but never `success`.
abbrev pub NoSuccessStatus : CheckRun → Type 0
NoSuccessStatus r = r.status ≢ some success

All-sort_by_id :
    (P : CheckRun → Type 0) (runs : List CheckRun) → All P runs → All P (sort_by_id runs)
unfolding sort_by_id
All-sort_by_id P [] h = tt
All-sort_by_id P (r ∷ runs) h =
    All-insert_by_id P r (sort_by_id runs) h.0 (All-sort_by_id P runs h.1)

All-running_of :
    (P : CheckRun → Type 0) (runs : List CheckRun) → All P runs → All P (running_of runs)
unfolding running_of
All-running_of P [] h = tt
All-running_of P (r ∷ runs) h = elim (Bool-cases (is_completed r)) [
  | inl e ↦ rw e (All-running_of P runs h.1)
  | inr e ↦ rw e (h.0, All-running_of P runs h.1)
]

cons_not_nil : (r : CheckRun) (runs : List CheckRun) → r ∷ runs ≢ []
cons_not_nil r runs e = cc

none_running : (runs : List CheckRun) → running_of runs ≡ [] → All (λ s. is_completed s ≡ true) runs
unfolding running_of
none_running [] h = tt
none_running (r ∷ runs) h = elim (Bool-cases (is_completed r)) [
  | inl e ↦ (e, none_running runs (rw e at h))
  | inr e ↦ absurd (cons_not_nil r (running_of runs) (rw e at h))
]

none_left : (runs : List CheckRun) → All (λ s. is_completed s ≡ true) runs → running_of runs ≡ []
unfolding running_of
none_left [] h = refl
none_left (r ∷ runs) h = rw h.0 (none_left runs h.1)

pending_not_success : codes "pending" ≢ success
pending_not_success h = cc (ap (λ t. text_eq t success) h)

or_pending-success : (o : Option (List ℕ)) → or_pending o ≡ success → o ≡ some success
or_pending-success none h = absurd (pending_not_success h)
or_pending-success (some []) h = absurd (pending_not_success h)
or_pending-success (some (c ∷ t)) h = ap some h

newest_state-last_or :
    (d : CheckRun) (runs : List CheckRun)
    → runs ≢ []
    → newest_state runs ≡ or_pending (last_or d runs).conclusion
newest_state-last_or d [] h = absurd (h refl)
newest_state-last_or d (r ∷ runs) h = refl

state_by-success :
    (running ordered : List CheckRun)
    → All NoSuccessStatus running
    → state_by running ordered ≡ success
    → (running ≡ []) × (newest_state ordered ≡ success)
state_by-success [] ordered h e = (refl, e)
state_by-success (r ∷ running) ordered h e =
    absurd
      (All-last_of NoSuccessStatus r running h (or_pending-success (last_of r running).status e))

newest_state-sort :
    (r : CheckRun) (runs : List CheckRun)
    → newest_state (sort_by_id (r ∷ runs)) ≡ or_pending (newest_of r runs).conclusion
newest_state-sort r runs =
    newest_state-last_or r (sort_by_id (r ∷ runs))
      (unfold sort_by_id in insert_by_id-ne-nil r (sort_by_id runs))
    ∙ ap (λ s. or_pending s.conclusion) (last_of-sort r r runs)

-- A check that has run is a success by `conclusions` exactly where all its runs have completed and the
-- newest of them, the last one with the greatest id, with success, if no run has the status `success`.
pub state_of-Passes :
    (r : CheckRun) (runs : List CheckRun)
    → All NoSuccessStatus (r ∷ runs)
    → (state_of (r ∷ runs) ≡ success) ↔ Passes r runs
unfolding state_of
state_of-Passes r runs h = (
  (λ e.
      let k =
        state_by-success (running_of (sort_by_id (r ∷ runs))) (sort_by_id (r ∷ runs))
          (All-running_of NoSuccessStatus (sort_by_id (r ∷ runs))
            (All-sort_by_id NoSuccessStatus (r ∷ runs) h))
          e in
      (
        sort_by_id-All (λ s. is_completed s ≡ true) (r ∷ runs)
            (none_running (sort_by_id (r ∷ runs)) k.0),
        or_pending-success (newest_of r runs).conclusion (sym (newest_state-sort r runs) ∙ k.1),
      )),
  (λ k.
      ap (λ l. state_by l (sort_by_id (r ∷ runs)))
        (none_left (sort_by_id (r ∷ runs))
          (All-sort_by_id (λ s. is_completed s ≡ true) (r ∷ runs) k.0))
      ∙ newest_state-sort r runs
      ∙ ap or_pending k.1),
)
