-- ===== src/Changelog/Unreleased.antt =====
-- `unreleased` of scripts/changelog_entries.py: the entries of the `[Unreleased]` section.
pub mod Places
use testprotocols.Prelude.{
  ℕ, zero, suc, ◌+◌, ◌-◌, ◌*◌, ◌≤◌, ◌<◌, String, ◌≡◌, refl, sym, ap, ◌∙◌, subst, ◌≢◌, ◌↔◌, ◌⊎◌, inl,
  inr, Bool, true, false, not, ◌&&◌, ◌||◌, Option, none, some, List, [], ◌∷◌, ◌++◌, map, append-nil,
  append_assoc, arith, eq_iff, eq_refl, str_eq, ltb, leb, ◌==◌, if◌then◌else◌, Bool-cases,
  Option-cases, length, All, length-append, length-map, All-append,
}
use testprotocols.Prelude.Text.{codes, strip, is_space}
use testprotocols.Prelude.Text.Lines.{split_lines}
use testprotocols.Review.{starts_with}

pub record Entry : Type 0 where
  pub line : ℕ
  pub package_name : List ℕ
  pub subsection : List ℕ
  pub text : List ℕ

abbrev starts_solid : List ℕ → Bool
starts_solid [] = false
starts_solid (c ∷ t) = not (is_space c)

abbrev onto_word : ℕ → List (List ℕ) → List (List ℕ)
onto_word c [] = (c ∷ []) ∷ []
onto_word c (word ∷ words) = (c ∷ word) ∷ words

-- `text.split()`
unfoldable pub words_of : List ℕ → List (List ℕ)
unfolding is_space
words_of [] = []
words_of (c ∷ t) =
    let words = words_of t in
    if is_space c then words else if starts_solid t then onto_word c words else (c ∷ []) ∷ words

-- `" ".join(words)`
unfoldable pub join_words : List (List ℕ) → List ℕ
join_words [] = []
join_words (word ∷ []) = word
join_words (word ∷ other ∷ words) = word ++ b' ' ∷ join_words (other ∷ words)

-- `_collapse`
unfoldable pub collapse : List ℕ → List ℕ
unfolding words_of join_words
collapse text = join_words (words_of text)

-- The variables of the loop.
pub record Reading : Type 0 where
  pub entries : List Entry
  pub package_name : List ℕ
  pub subsection : List ℕ
  pub current : List (List ℕ)
  pub first : ℕ

-- `flush`
unfoldable pub flush_lines : List (List ℕ) → Reading → Reading
unfolding collapse join_words
flush_lines [] s = s
flush_lines (line ∷ lines) s = record s {
  entries =
      s.entries
      ++ record {
        line = s.first + 1;
        package_name = s.package_name;
        subsection = s.subsection;
        text = collapse (join_words (line ∷ lines));
      }
        ∷ [];
  current = [];
}

abbrev pub flush : Reading → Reading
flush s = flush_lines s.current s

abbrev some_line : List (List ℕ) → Bool
some_line [] = false
some_line (line ∷ lines) = true

abbrev not_blank : List ℕ → Bool
not_blank [] = false
not_blank (c ∷ t) = true

abbrev drop_codes : ℕ → List ℕ → List ℕ
drop_codes zero t = t
drop_codes (suc n) [] = []
drop_codes (suc n) (c ∷ t) = drop_codes n t

-- A heading sets the package or the subsection.
unfoldable pub read_heading : List ℕ → Reading → Reading
read_heading line s =
    if starts_with (codes "### ") line
    then record s { package_name = strip (drop_codes 4 line); subsection = [] }
    else if starts_with (codes "#### ") line
    then record s { subsection = strip (drop_codes 5 line) }
    else s

-- One line of the loop, at index `i`.
unfoldable pub read_line : ℕ → List ℕ → Reading → Reading
unfolding flush_lines read_heading
read_line i line s =
    if starts_with (codes "- ") line
    then record (flush s) { current = line ∷ []; first = i }
    else if some_line s.current && starts_with (codes "  ") line && not_blank (strip line)
    then record s { current = s.current ++ line ∷ [] }
    else read_heading line (flush s)

unfoldable pub read_lines : ℕ → List (List ℕ) → Reading → Reading
unfolding read_line
read_lines i [] s = s
read_lines i (line ∷ lines) s =
    let next = read_lines (suc i) lines (read_line i line s) in
    if starts_with (codes "## ") line then s else next

abbrev pub is_unreleased : List ℕ → Bool
is_unreleased line = starts_with (codes "## [Unreleased]") line

abbrev nothing_read : Reading
nothing_read = record { entries = []; package_name = []; subsection = []; current = []; first = 0 }

-- The entries with the heading's line, from the line at index `i` on.
unfoldable pub find_unreleased : ℕ → List (List ℕ) → List Entry × Option ℕ
unfolding read_lines flush_lines
find_unreleased i [] = ([], none)
find_unreleased i (line ∷ lines) =
    let rest = find_unreleased (suc i) lines in
    if is_unreleased line
    then ((flush (read_lines (suc i) lines nothing_read)).entries, some (i + 1))
    else rest

unfoldable pub unreleased : List ℕ → List Entry × Option ℕ
unfolding find_unreleased split_lines
unreleased text = find_unreleased 0 (split_lines text)
