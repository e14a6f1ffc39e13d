-- ===== src/Review/Examples.antt =====
-- Runs and witnesses for the review gate.
use testprotocols.Prelude.Text.{strip, is_space}
use testprotocols.Prelude.{
  ℕ, ◌≡◌, refl, ap, ◌≢◌, ◌↔◌, false, Option, none, some, List, [], ◌∷◌, All,
}
use testprotocols.Prelude.Text.{codes}
use testprotocols.Review.{CheckRun, CommitStatus, refusal, gate, maintainers, state_of}
use testprotocols.Review.States.{success, Passes, NoSuccessStatus, state_of-Passes}
use testprotocols.Review.Allowed.{Allowed, Refreshable, refusal-Allowed, gate-Allowed}

abbrev completed_run : (name : List ℕ) → (id : ℕ) → (conclusion : List ℕ) → CheckRun
completed_run name id conclusion = record {
  name = name;
  id = id;
  status = some (codes "completed");
  conclusion = some conclusion;
}

-- The cancelled run of `hygiene` is older than the one that succeeded.
abbrev head_runs : List CheckRun
head_runs =
    completed_run (codes "dco") 1 (codes "success")
    ∷ completed_run (codes "hygiene") 4 (codes "success")
    ∷ completed_run (codes "lint") 2 (codes "success")
    ∷ completed_run (codes "hygiene") 3 (codes "cancelled")
    ∷ []

completed_lem : codes "completed" ≢ success
completed_lem e = cc

abbrev some_or_empty : Option (List ℕ) → List ℕ
some_or_empty none = []
some_or_empty (some t) = t

completed_run-NoSuccessStatus :
    (name : List ℕ) (id : ℕ) (conclusion : List ℕ)
    → NoSuccessStatus (completed_run name id conclusion)
completed_run-NoSuccessStatus name id conclusion e = completed_lem (ap some_or_empty e)

head_runs-NoSuccessStatus : All NoSuccessStatus head_runs
head_runs-NoSuccessStatus = (
  completed_run-NoSuccessStatus (codes "dco") 1 (codes "success"),
  (
    completed_run-NoSuccessStatus (codes "hygiene") 4 (codes "success"),
    (
      completed_run-NoSuccessStatus (codes "lint") 2 (codes "success"),
      (completed_run-NoSuccessStatus (codes "hygiene") 3 (codes "cancelled"), tt),
    ),
  ),
)

abbrev maintainers_file : List ℕ
maintainers_file =
    codes "# Project\n## Maintainers\n\n- @Ada-L (lead)\n- @bob\n- carol\n## Past\n- @dan\n"

refusal-Allowed_example :
    (refusal (codes "/review") (codes "ada-l") (codes "write") maintainers_file false head_runs
      ≡ none)
    ↔ Allowed (codes "/review") (codes "ada-l") (codes "write") maintainers_file false head_runs
refusal-Allowed_example =
    refusal-Allowed (codes "/review") (codes "ada-l") (codes "write") maintainers_file false
      head_runs head_runs-NoSuccessStatus

state_of-Passes_example :
    (state_of (
        completed_run (codes "hygiene") 4 (codes "success")
        ∷ completed_run (codes "hygiene") 3 (codes "cancelled")
        ∷ [])
      ≡ success)
    ↔ Passes
        (completed_run (codes "hygiene") 4 (codes "success"))
        (completed_run (codes "hygiene") 3 (codes "cancelled") ∷ [])
state_of-Passes_example =
    state_of-Passes (completed_run (codes "hygiene") 4 (codes "success"))
      (completed_run (codes "hygiene") 3 (codes "cancelled") ∷ [])
      (
        completed_run-NoSuccessStatus (codes "hygiene") 4 (codes "success"),
        (completed_run-NoSuccessStatus (codes "hygiene") 3 (codes "cancelled"), tt),
      )

maintainers_file-handles : maintainers maintainers_file ≡ codes "ada-l" ∷ codes "bob" ∷ []
unfolding maintainers is_space
maintainers_file-handles = refl

abbrev approved_head : List CommitStatus
approved_head =
    record {
      context = some (codes "review");
      state = some (codes "success");
      description = some (codes "review: approve with conditions");
    }
    ∷ []

review_allowed :
    gate
      (codes " /review full\n")
      (codes "BOB")
      (codes "admin")
      maintainers_file
      false
      head_runs
      (some approved_head)
    ≡ none
unfolding gate strip
review_allowed = refl

gate-Allowed_example :
    Allowed (codes " /review full\n") (codes "BOB") (codes "admin") maintainers_file false head_runs
    × Refreshable (some approved_head)
gate-Allowed_example =
    gate-Allowed (codes " /review full\n") (codes "BOB") (codes "admin") maintainers_file false
      head_runs (some approved_head) head_runs-NoSuccessStatus review_allowed
