-- ===== src/Review.antt =====
-- scripts/review_gate.py: whether a review, or the refresh of its status, may start. What was fetched
-- through the API is data: of each record the fields that are read.
pub mod Checks
pub mod States
pub mod Allowed
mod Examples
use testprotocols.Prelude.Text.{codes, strip, lower, is_space, is_digit}
use testprotocols.Prelude.{
  ℕ, zero, suc, ◌+◌, ◌-◌, ◌*◌, ◌≤◌, ◌<◌, String, ◌≡◌, refl, sym, ap, ◌∙◌, subst, ◌≢◌, ◌↔◌, ◌⊎◌, inl,
  inr, Bool, true, false, not, ◌&&◌, ◌||◌, Option, none, some, List, [], ◌∷◌, ◌++◌, map, append-nil,
  append_assoc, arith, eq_iff, eq_refl, str_eq, ltb, leb, ◌==◌, if◌then◌else◌, Bool-cases,
  Option-cases, length, All, length-append, length-map, All-append,
}
use testprotocols.Prelude.Text.{codes, strip, lower, is_space, is_digit}
use testprotocols.Prelude.Text.Split.{text_eq, split_at}

-- A check run; `none` is a missing or null field.
pub record CheckRun : Type 0 where
  pub name : List ℕ
  pub id : ℕ
  pub status : Option (List ℕ)
  pub conclusion : Option (List ℕ)

-- `sorted(named, key=lambda run: int(run["id"]))`
unfoldable pub insert_by_id : CheckRun → List CheckRun → List CheckRun
insert_by_id r [] = r ∷ []
insert_by_id r (s ∷ runs) =
    let rest = insert_by_id r runs in if leb r.id s.id then r ∷ s ∷ runs else s ∷ rest

unfoldable pub sort_by_id : List CheckRun → List CheckRun
unfolding insert_by_id
sort_by_id [] = []
sort_by_id (r ∷ runs) = insert_by_id r (sort_by_id runs)

abbrev pub has_status : List ℕ → Option (List ℕ) → Bool
has_status wanted none = false
has_status wanted (some status) = text_eq status wanted

abbrev pub is_completed : CheckRun → Bool
is_completed run = has_status (codes "completed") run.status

unfoldable pub running_of : List CheckRun → List CheckRun
running_of [] = []
running_of (r ∷ runs) = let rest = running_of runs in if is_completed r then rest else r ∷ rest

-- `str(field or "pending")`
abbrev pub or_pending : Option (List ℕ) → List ℕ
or_pending none = codes "pending"
or_pending (some []) = codes "pending"
or_pending (some (c ∷ t)) = c ∷ t

-- The last of a list, whose first is split off.
abbrev pub last_of : CheckRun → List CheckRun → CheckRun
last_of r [] = r
last_of r (s ∷ runs) = last_of s runs

abbrev pub newest_state : List CheckRun → List ℕ
newest_state [] = codes "pending"
newest_state (r ∷ runs) = or_pending (last_of r runs).conclusion

abbrev pub state_by : (running ordered : List CheckRun) → List ℕ
state_by [] ordered = newest_state ordered
state_by (r ∷ running) ordered = or_pending (last_of r running).status

-- The state of one name's runs.
unfoldable pub state_of : List CheckRun → List ℕ
unfolding sort_by_id running_of
state_of named = state_by (running_of (sort_by_id named)) (sort_by_id named)

unfoldable pub runs_named : List ℕ → List CheckRun → List CheckRun
runs_named name [] = []
runs_named name (r ∷ runs) =
    let rest = runs_named name runs in if text_eq r.name name then r ∷ rest else rest

abbrev pub state_if_any : List CheckRun → Option (List ℕ)
state_if_any [] = none
state_if_any (r ∷ named) = some (state_of (r ∷ named))

-- `conclusions(runs).get(name)`: the dictionary, by its key.
unfoldable pub conclusion_of : List CheckRun → (name : List ℕ) → Option (List ℕ)
unfolding state_of runs_named
conclusion_of runs name = state_if_any (runs_named name runs)

abbrev pub starts_with : List ℕ → List ℕ → Bool
starts_with [] t = true
starts_with (c ∷ prefix) [] = false
starts_with (c ∷ prefix) (d ∷ t) = c == d && starts_with prefix t

abbrev all_space : List ℕ → Bool
all_space [] = true
all_space (c ∷ t) = is_space c && all_space t

-- `prefix` in front, and the rest.
abbrev pub after_prefix : List ℕ → List ℕ → Option (List ℕ)
after_prefix [] t = some t
after_prefix (c ∷ prefix) [] = none
after_prefix (c ∷ prefix) (d ∷ t) = if c == d then after_prefix prefix t else none

abbrev holds_space : Option (List ℕ) → Bool
holds_space none = false
holds_space (some rest) = all_space rest

-- A line that `_LIST_HEADING` matches.
abbrev pub is_list_heading : List ℕ → Bool
is_list_heading line = holds_space (after_prefix (codes "## Maintainers") line)

-- `^#{1,6} `, behind `n` of them.
abbrev heading_from : ℕ → List ℕ → Bool
heading_from n [] = false
heading_from zero (c ∷ t) = if c == b'#' then heading_from 1 t else false
heading_from (suc n) (c ∷ t) =
    if c == b' ' then leb (suc n) 6 else (if c == b'#' then heading_from (suc (suc n)) t else false)

abbrev pub is_heading : List ℕ → Bool
is_heading line = heading_from 0 line

abbrev is_handle_char : ℕ → Bool
is_handle_char c = (leb 65 c && leb c 90) || (leb 97 c && leb c 122) || is_digit c || c == b'-'

-- The longest handle in front, and what follows.
abbrev span_handle : List ℕ → List ℕ × List ℕ
span_handle [] = ([], [])
span_handle (c ∷ t) =
    let more = span_handle t in if is_handle_char c then (c ∷ more.0, more.1) else ([], c ∷ t)

abbrev ends_handle : List ℕ → Bool
ends_handle [] = true
ends_handle (c ∷ t) = is_space c

abbrev entry_of : List ℕ × List ℕ → Option (List ℕ)
entry_of ([], rest) = none
entry_of (c ∷ handle, rest) = if ends_handle rest then some (c ∷ handle) else none

abbrev entry_after : Option (List ℕ) → Option (List ℕ)
entry_after none = none
entry_after (some t) = entry_of (span_handle t)

-- The handle of a line that `_ENTRY` matches.
abbrev pub entry_handle : List ℕ → Option (List ℕ)
entry_handle line = entry_after (after_prefix (codes "- @") line)

abbrev onto_handles : Option (List ℕ) → List (List ℕ) → List (List ℕ)
onto_handles none handles = handles
onto_handles (some handle) handles = lower handle ∷ handles

-- The entries up to the next heading.
unfoldable pub listed_handles : List (List ℕ) → List (List ℕ)
listed_handles [] = []
listed_handles (line ∷ lines) =
    let rest = listed_handles lines in
    if is_heading line then [] else onto_handles (entry_handle line) rest

unfoldable pub after_list_heading : List (List ℕ) → List (List ℕ)
after_list_heading [] = []
after_list_heading (line ∷ lines) =
    let rest = after_list_heading lines in if is_list_heading line then lines else rest

-- `maintainers`, by the lines of the text.
unfoldable pub maintainers : List ℕ → List (List ℕ)
unfolding listed_handles after_list_heading split_at
maintainers text = listed_handles (after_list_heading ((split_at 10 text).0 ∷ (split_at 10 text).1))

-- Why a review, or a refresh, may not start.
pub data Refusal : Type 0 where
  not_a_command no_write_access not_listed is_draft no_review_status : Refusal
  not_green : (name conclusion : List ℕ) → Refusal
  not_approved : (description : List ℕ) → Refusal

abbrev pub required_checks : List (List ℕ)
required_checks = codes "dco" ∷ codes "lint" ∷ codes "hygiene" ∷ []

abbrev pub is_in : List ℕ → List (List ℕ) → Bool
is_in t [] = false
is_in t (u ∷ us) = text_eq u t || is_in t us

abbrev pub or_missing : Option (List ℕ) → List ℕ
or_missing none = codes "missing"
or_missing (some conclusion) = conclusion

-- The loop over the required checks.
unfoldable pub first_not_green : List CheckRun → List (List ℕ) → Option Refusal
unfolding conclusion_of
first_not_green runs [] = none
first_not_green runs (name ∷ names) =
    let rest = first_not_green runs names in
    let conclusion = or_missing (conclusion_of runs name) in
    if text_eq conclusion (codes "success") then rest else some (not_green name conclusion)

abbrev pub commands : List (List ℕ)
commands = codes "/review" ∷ codes "/review full" ∷ []

abbrev pub write_permissions : List (List ℕ)
write_permissions = codes "admin" ∷ codes "maintain" ∷ codes "write" ∷ []

-- `refusal(checks=conclusions(runs))`
unfoldable pub refusal :
    (body commenter permission maintainers_text : List ℕ)
    → (draft : Bool) → List CheckRun
    → Option Refusal
unfolding maintainers first_not_green
refusal body commenter permission maintainers_text draft runs =
    if not (is_in (strip body) commands)
    then some not_a_command
    else if not (is_in permission write_permissions)
    then some no_write_access
    else if not (is_in (lower commenter) (maintainers maintainers_text))
    then some not_listed
    else if draft
    then some is_draft
    else first_not_green runs required_checks

pub record CommitStatus : Type 0 where
  pub context : Option (List ℕ)
  pub state : Option (List ℕ)
  pub description : Option (List ℕ)

abbrev pub or_empty : Option (List ℕ) → List ℕ
or_empty none = []
or_empty (some description) = description

abbrev pub is_approval : CommitStatus → Bool
is_approval status =
    has_status (codes "success") status.state
    && starts_with (codes "review: approve") (or_empty status.description)

unfoldable pub refresh_allowed : List CommitStatus → Option Refusal
refresh_allowed [] = some no_review_status
refresh_allowed (status ∷ statuses) =
    let rest = refresh_allowed statuses in
    if has_status (codes "review") status.context
    then (if is_approval status then none else some (not_approved (or_empty status.description)))
    else rest

abbrev pub refreshed : Option Refusal → Option (List CommitStatus) → Option Refusal
refreshed (some reason) statuses = some reason
refreshed none none = none
refreshed none (some statuses) = refresh_allowed statuses

-- The decision of `main`; `none` prints `ok`.
unfoldable pub gate :
    (body commenter permission maintainers_text : List ℕ)
    → (draft : Bool) → List CheckRun
    → (refresh_statuses : Option (List CommitStatus)) → Option Refusal
unfolding refusal refresh_allowed
gate body commenter permission maintainers_text draft runs refresh_statuses =
    refreshed (refusal body commenter permission maintainers_text draft runs) refresh_statuses
