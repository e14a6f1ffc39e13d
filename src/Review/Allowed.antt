-- ===== src/Review/Allowed.antt =====
-- When the gate lets a review, or a refresh of its status, start.
use testprotocols.Prelude.{
  ℕ, ◌≡◌, refl, sym, ap, ◌∙◌, subst, ◌≢◌, ◌↔◌, inl, inr, Bool, true, false, not, Option, none, some,
  List, [], ◌∷◌, ◌++◌, if◌then◌else◌, Bool-cases, All,
}
use testprotocols.Prelude.Text.{codes, strip, lower}
use testprotocols.Prelude.Text.Split.{text_eq, text_eq_sound, text_eq_refl}
use testprotocols.Review.{
  is_approval, no_review_status, not_approved, or_empty, is_draft, not_listed, no_write_access,
  not_a_command, CheckRun, Refusal, not_green, is_in, commands, write_permissions, required_checks,
  maintainers, runs_named, state_if_any, or_missing, conclusion_of, first_not_green, CommitStatus,
  refusal, has_status, is_approval, refresh_allowed, gate, refreshed,
}
use testprotocols.Review.States.{success, Passes, NoSuccessStatus, state_of-Passes}

-- The named check has run, and passes.
abbrev pub CheckPasses : List CheckRun → List ℕ → Type 0
CheckPasses runs name =
    (r : CheckRun) × (rest : List CheckRun) × (runs_named name runs ≡ r ∷ rest) × Passes r rest

All-runs_named :
    (P : CheckRun → Type 0) (name : List ℕ) (runs : List CheckRun)
    → All P runs
    → All P (runs_named name runs)
unfolding runs_named
All-runs_named P name [] h = tt
All-runs_named P name (r ∷ runs) h = elim (Bool-cases (text_eq r.name name)) [
  | inl e ↦ rw e (h.0, All-runs_named P name runs h.1)
  | inr e ↦ rw e (All-runs_named P name runs h.1)
]

missing_not_success : codes "missing" ≢ success
missing_not_success h = cc (ap (λ t. text_eq t success) h)

named_lem :
    (named : List CheckRun)
    → All NoSuccessStatus named
    → (or_missing (state_if_any named) ≡ success)
      ↔ ((r : CheckRun) × (rest : List CheckRun) × (named ≡ r ∷ rest) × Passes r rest)
named_lem [] h = ((λ e. absurd (missing_not_success e)), λ k. cc (k.2))
named_lem (r ∷ rest) h = (
  (λ e. (r, rest, refl, (state_of-Passes r rest h).0 e)),
  (λ k.
      ap (λ l. or_missing (state_if_any l)) k.2
      ∙ (state_of-Passes k.0 k.1 (subst (All NoSuccessStatus) k.2 h)).1 k.3),
)

check_lem :
    (runs : List CheckRun) (name : List ℕ)
    → All NoSuccessStatus runs
    → (or_missing (conclusion_of runs name) ≡ success) ↔ CheckPasses runs name
unfolding conclusion_of
check_lem runs name h =
    named_lem (runs_named name runs) (All-runs_named NoSuccessStatus name runs h)

some_not_none : (r : Refusal) → some r ≢ none
some_not_none r e = cc

text_ne : (s t : List ℕ) → text_eq s t ≡ false → s ≢ t
text_ne s t h e = cc (sym h ∙ ap (λ u. text_eq u t) e ∙ text_eq_refl t)

first_not_green_lem :
    (runs : List CheckRun) (names : List (List ℕ))
    → All NoSuccessStatus runs
    → (first_not_green runs names ≡ none) ↔ All (CheckPasses runs) names
unfolding first_not_green
first_not_green_lem runs [] h = ((λ _. tt), λ _. refl)
first_not_green_lem runs (name ∷ names) h =
    let conclusion = or_missing (conclusion_of runs name) in
    elim (Bool-cases (text_eq conclusion (codes "success"))) [
      | inl e ↦ rw e (
        (λ k. (
          (check_lem runs name h).0 (text_eq_sound conclusion (codes "success") e),
          (first_not_green_lem runs names h).0 k,
        )),
        (λ k. (first_not_green_lem runs names h).1 k.1),
      )
      | inr e ↦ rw e (
        (λ k. absurd (some_not_none (not_green name conclusion) k)),
        (λ k. absurd (text_ne conclusion success e ((check_lem runs name h).1 k.0))),
      )
    ]

-- What the gate asks for.
pub record Allowed (body commenter permission maintainers_text : List ℕ) (draft : Bool)
    (runs : List CheckRun) : Type 0 where
  pub command : is_in (strip body) commands ≡ true
  pub write_access : is_in permission write_permissions ≡ true
  pub listed : is_in (lower commenter) (maintainers maintainers_text) ≡ true
  pub not_draft : draft ≡ false
  pub green : All (CheckPasses runs) required_checks

unless_lem :
    (b : Bool) (r : Refusal) (o : Option Refusal)
    → ((if not b then some r else o) ≡ none) ↔ ((b ≡ true) × (o ≡ none))
unless_lem true r o = ((λ e. (refl, e)), λ h. h.1)
unless_lem false r o = ((λ e. absurd (some_not_none r e)), λ h. cc (h.0))

when_lem :
    (b : Bool) (r : Refusal) (o : Option Refusal)
    → ((if b then some r else o) ≡ none) ↔ ((b ≡ false) × (o ≡ none))
when_lem false r o = ((λ e. (refl, e)), λ h. h.1)
when_lem true r o = ((λ e. absurd (some_not_none r e)), λ h. cc (h.0))

-- Where no run has the status `success`: a review is not refused exactly where the comment is one of the
-- commands, the commenter has write access and is listed as a maintainer, the PR is no draft, and each
-- required check has run, all its runs have completed, and the newest with success.
pub refusal-Allowed :
    (body commenter permission maintainers_text : List ℕ) (draft : Bool) (runs : List CheckRun)
    → All NoSuccessStatus runs
    → (refusal body commenter permission maintainers_text draft runs ≡ none)
      ↔ Allowed body commenter permission maintainers_text draft runs
unfolding refusal
refusal-Allowed body commenter permission maintainers_text draft runs h =
    let last = first_not_green runs required_checks in
    let third = if draft then some is_draft else last in
    let second =
      if not (is_in (lower commenter) (maintainers maintainers_text))
      then some not_listed
      else third in
    let first = if not (is_in permission write_permissions) then some no_write_access else second in
    (
      (λ e.
          let a = (unless_lem (is_in (strip body) commands) not_a_command first).0 e in
          let b = (unless_lem (is_in permission write_permissions) no_write_access second).0 a.1 in
          let c =
            (unless_lem (is_in (lower commenter) (maintainers maintainers_text)) not_listed third).0
              b.1 in
          let d = (when_lem draft is_draft last).0 c.1 in
          record {
            command = a.0;
            write_access = b.0;
            listed = c.0;
            not_draft = d.0;
            green = (first_not_green_lem runs required_checks h).0 d.1;
          }),
      (λ k. (unless_lem (is_in (strip body) commands) not_a_command first).1 (
        k.command,
        (unless_lem (is_in permission write_permissions) no_write_access second).1 (
          k.write_access,
          (unless_lem (is_in (lower commenter) (maintainers maintainers_text)) not_listed third).1 (
            k.listed,
            (when_lem draft is_draft last).1
                (k.not_draft, (first_not_green_lem runs required_checks h).1 k.green),
          ),
        ),
      )),
    )

-- The newest status of the review is an approval.
pub record NewestApproves (statuses : List CommitStatus) : Type 0 where
  pub before : List CommitStatus
  pub newest : CommitStatus
  pub after : List CommitStatus
  pub occurs : statuses ≡ before ++ newest ∷ after
  pub others : All (λ s. has_status (codes "review") s.context ≡ false) before
  pub of_review : has_status (codes "review") newest.context ≡ true
  pub approves : is_approval newest ≡ true

NewestApproves-behind :
    (s : CommitStatus) (statuses : List CommitStatus)
    → has_status (codes "review") s.context ≡ false
    → NewestApproves statuses
    → NewestApproves (s ∷ statuses)
NewestApproves-behind s statuses h n = record {
  before = s ∷ n.before;
  newest = n.newest;
  after = n.after;
  occurs = ap (λ l. s ∷ l) n.occurs;
  others = (h, n.others);
  of_review = n.of_review;
  approves = n.approves;
}

refresh_allowed-NewestApproves :
    (statuses : List CommitStatus) → refresh_allowed statuses ≡ none → NewestApproves statuses
unfolding refresh_allowed
refresh_allowed-NewestApproves [] h = absurd (some_not_none no_review_status h)
refresh_allowed-NewestApproves (s ∷ statuses) h =
    elim (Bool-cases (has_status (codes "review") s.context)) [
      | inl e ↦ elim (Bool-cases (is_approval s)) [
        | inl k ↦ record {
          before = [];
          newest = s;
          after = statuses;
          occurs = refl;
          others = tt;
          of_review = e;
          approves = k;
        }
        | inr k ↦ absurd (some_not_none (not_approved (or_empty s.description)) (rw (e, k) at h))
      ]
      | inr e ↦
          NewestApproves-behind s statuses e (refresh_allowed-NewestApproves statuses (rw e at h))
    ]

-- What a refresh asks for besides.
abbrev pub Refreshable : Option (List CommitStatus) → Type 0
Refreshable none = Unit
Refreshable (some statuses) = NewestApproves statuses

refreshed_lem :
    (o : Option Refusal) (statuses : Option (List CommitStatus))
    → refreshed o statuses ≡ none
    → (o ≡ none) × Refreshable statuses
refreshed_lem (some r) statuses h = absurd (some_not_none r h)
refreshed_lem none none h = (refl, tt)
refreshed_lem none (some statuses) h = (refl, refresh_allowed-NewestApproves statuses h)

-- Where no run has the status `success`: the gate says ok only for a command by a listed maintainer with
-- write access, on a PR that is no draft and whose required checks pass; and a refresh only where the
-- newest review status of the previous head is a success that begins with the approval's words.
pub gate-Allowed :
    (body commenter permission maintainers_text : List ℕ) (draft : Bool) (runs : List CheckRun)
    (statuses : Option (List CommitStatus))
    → All NoSuccessStatus runs
    → gate body commenter permission maintainers_text draft runs statuses ≡ none
    → Allowed body commenter permission maintainers_text draft runs × Refreshable statuses
unfolding gate
gate-Allowed body commenter permission maintainers_text draft runs statuses h e =
    let k =
      refreshed_lem (refusal body commenter permission maintainers_text draft runs) statuses e in
    ((refusal-Allowed body commenter permission maintainers_text draft runs h).0 k.0, k.1)
