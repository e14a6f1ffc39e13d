-- ===== src/Changelog.antt =====
-- scripts/changelog_section.py and, of scripts/changelog_entries.py, the reader of the unreleased
-- entries and the match of entries and register rows. Digits are the ASCII ones.
pub mod Published
pub mod Register
pub mod Unreleased
mod Examples
use testprotocols.Prelude.{
  ℕ, zero, suc, ◌+◌, ◌-◌, ◌*◌, ◌≤◌, ◌<◌, String, ◌≡◌, refl, sym, ap, ◌∙◌, subst, ◌≢◌, ◌↔◌, ◌⊎◌, inl,
  inr, Bool, true, false, not, ◌&&◌, ◌||◌, Option, none, some, List, [], ◌∷◌, ◌++◌, map, append-nil,
  append_assoc, arith, eq_iff, eq_refl, str_eq, ltb, leb, ◌==◌, if◌then◌else◌, Bool-cases,
  Option-cases, length, All, length-append, length-map, All-append,
}
use testprotocols.Prelude.Text.{codes, strip, rstrip, is_digit, is_space, span_digits}
use testprotocols.Prelude.Text.{codes, strip, rstrip, is_digit, is_space, span_digits}
use testprotocols.Prelude.Text.Lines.{split_lines}
use testprotocols.Prelude.Text.Split.{text_eq, split_at}
use testprotocols.Review.{starts_with, after_prefix}

abbrev pub no_entries : List ℕ
no_entries = codes "- no entries yet"

abbrev pub version_bump_only : List ℕ
version_bump_only = codes "- no API change (version bump only)"

-- Why a released section must not publish.
pub data SectionError : Type 0 where
  bad_version no_heading repeated_heading is_empty still_no_entries only_version_bump : SectionError

pub data Section : Type 0 where
  published : (body : List ℕ) → Section
  refused : SectionError → Section

abbrev pub ends_version : List ℕ → Bool
ends_version [] = true
ends_version (c ∷ []) = c == 10
ends_version (c ∷ d ∷ t) = false

-- `\d+`, behind which `n` more groups follow, each with its point.
abbrev pub version_from : ℕ → List ℕ × List ℕ → Bool
version_from n ([], rest) = false
version_from zero (d ∷ ds, rest) = ends_version rest
version_from (suc n) (d ∷ ds, []) = false
version_from (suc n) (d ∷ ds, c ∷ rest) = c == b'.' && version_from n (span_digits rest)

-- `_VERSION`, whose `$` matches in front of a last line feed as well.
abbrev pub is_version : List ℕ → Bool
is_version version = version_from 2 (span_digits version)

-- `n` digits, and the rest.
abbrev pub take_digits : ℕ → List ℕ → Option (List ℕ)
take_digits zero t = some t
take_digits (suc n) [] = none
take_digits (suc n) (c ∷ t) = if is_digit c then take_digits n t else none

abbrev pub and_then : Option (List ℕ) → (List ℕ → Option (List ℕ)) → Option (List ℕ)
and_then none f = none
and_then (some t) f = f t

abbrev pub dash : List ℕ → Option (List ℕ)
dash [] = none
dash (c ∷ t) = if c == 0x2014 || c == b'-' then some t else none

abbrev pub holds : Option (List ℕ) → Bool
holds none = false
holds (some t) = true

-- A line that the heading's expression matches.
unfoldable pub is_heading_of : (version : List ℕ) → List ℕ → Bool
unfolding span_digits
is_heading_of version line =
    let opened = after_prefix (codes "## [" ++ (version ++ codes "] ")) line in
    let spaced = and_then (and_then opened dash) (after_prefix (codes " ")) in
    holds (
      and_then spaced (λ t.
        and_then (and_then (take_digits 4 t) (after_prefix (codes "-")))
          (λ u. and_then (and_then (take_digits 2 u) (after_prefix (codes "-"))) (take_digits 2))))

unfoldable pub headings_of : (version : List ℕ) → List (List ℕ) → ℕ
unfolding is_heading_of
headings_of version [] = 0
headings_of version (line ∷ lines) =
    let rest = headings_of version lines in if is_heading_of version line then suc rest else rest

-- The lines up to the next section.
unfoldable pub until_next : List (List ℕ) → List (List ℕ)
until_next [] = []
until_next (line ∷ lines) =
    let rest = until_next lines in if starts_with (codes "## [") line then [] else line ∷ rest

unfoldable pub after_heading : (version : List ℕ) → List (List ℕ) → List (List ℕ)
unfolding is_heading_of
after_heading version [] = []
after_heading version (line ∷ lines) =
    let rest = after_heading version lines in if is_heading_of version line then lines else rest

unfoldable pub join_lines : List (List ℕ) → List ℕ
join_lines [] = []
join_lines (line ∷ lines) = line ++ 10 ∷ join_lines lines

-- `body`
unfoldable pub body_of : (version : List ℕ) → List (List ℕ) → List ℕ
unfolding until_next after_heading join_lines
body_of version lines = strip (join_lines (until_next (after_heading version lines)))

-- `entries`
unfoldable pub entries_of : List (List ℕ) → List (List ℕ)
entries_of [] = []
entries_of (line ∷ lines) =
    let rest = entries_of lines in
    if starts_with (codes "- ") line then rstrip line ∷ rest else rest

abbrev pub has_entry : List ℕ → List (List ℕ) → Bool
has_entry entry [] = false
has_entry entry (e ∷ entries) = text_eq e entry || has_entry entry entries

abbrev pub all_entries : List ℕ → List (List ℕ) → Bool
all_entries entry [] = true
all_entries entry (e ∷ entries) = text_eq e entry && all_entries entry entries

abbrev pub judge : (allow_empty : Bool) → (body : List ℕ) → (entries : List (List ℕ)) → Section
judge allow_empty body [] = refused is_empty
judge allow_empty body (e ∷ entries) =
    if has_entry no_entries (e ∷ entries)
    then refused still_no_entries
    else if not allow_empty && all_entries version_bump_only (e ∷ entries)
    then refused only_version_bump
    else published body

abbrev pub by_headings : ℕ → Section → Section
by_headings zero s = refused no_heading
by_headings (suc zero) s = s
by_headings (suc (suc n)) s = refused repeated_heading

abbrev pub lines_of : List ℕ → List (List ℕ)
lines_of text = (split_at 10 text).0 ∷ (split_at 10 text).1

unfoldable pub section : (text version : List ℕ) → (allow_empty : Bool) → Section
unfolding headings_of body_of entries_of split_lines
section text version allow_empty =
    if is_version version
    then by_headings (headings_of version (lines_of text)) (
        judge allow_empty (body_of version (lines_of text))
          (entries_of (split_lines (body_of version (lines_of text)))))
    else refused bad_version

-- `register_problems`: rows and entries with equal keys are matched, each once.
module _ {R E K : Type 0} (row_key : R → K) (entry_key : E → K) (eqb : K → K → Bool) where
  abbrev pub onto_entries : E → Option (List E) → Option (List E)
  onto_entries e none = none
  onto_entries e (some rest) = some (e ∷ rest)

  -- `unmatched` without the first entry of the row's key, if there is one.
  unfoldable pub remove_match : K → List E → Option (List E)
  remove_match key [] = none
  remove_match key (e ∷ entries) =
      let rest = onto_entries e (remove_match key entries) in
      if eqb (entry_key e) key then some entries else rest

  -- The rows and the entries that are reported.
  unfoldable pub match_rows : List R → List E → List R × List E
  unfolding remove_match
  match_rows [] unmatched = ([], unmatched)
  match_rows (row ∷ rows) unmatched = elim (remove_match (row_key row) unmatched) [
    | none ↦ (row ∷ (match_rows rows unmatched).0, (match_rows rows unmatched).1)
    | some rest ↦ match_rows rows rest
  ]
