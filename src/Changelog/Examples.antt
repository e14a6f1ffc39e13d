-- ===== src/Changelog/Examples.antt =====
-- Runs and witnesses for the changelog's checks.
use testprotocols.Changelog.Unreleased.{unreleased}
use testprotocols.Changelog.Unreleased.Places.{BulletAt, unreleased-Placed}
use testprotocols.Prelude.Text.Lines.{split_lines}
use testprotocols.Prelude.Text.Split.{split_at}
use testprotocols.Prelude.{ℕ, ◌-◌, ◌≡◌, refl, false, some, List, [], ◌∷◌, ◌==◌, All, ==_iff}
use testprotocols.Prelude.Text.{codes, strip, is_space}
use testprotocols.Changelog.{section, published, match_rows}
use testprotocols.Changelog.Published.{IsPublishable, section-IsPublishable}
use testprotocols.Changelog.Register.{IsEquality, count_key, count_key-match_rows}

abbrev changelog : List ℕ
changelog =
    codes
      "# Changelog\n\n## [Unreleased]\n- no entries yet\n\n## [1.2.0] - 2026-01-31 notes\n### Added\n- an entry \n\n## [1.1.0] - 2025-12-01\n- old\n"

abbrev its_body : List ℕ
its_body = codes "### Added\n- an entry"

changelog-published : section changelog (codes "1.2.0") false ≡ published its_body
unfolding section strip is_space split_at
changelog-published = refl

section-IsPublishable_example : IsPublishable changelog (codes "1.2.0") false its_body
section-IsPublishable_example =
    section-IsPublishable changelog (codes "1.2.0") false its_body changelog-published

number-IsEquality : IsEquality ◌==◌
number-IsEquality = record {
  sound = λ j k h. (==_iff j k).0 h;
  complete = λ j. (==_iff j j).1 refl;
}

abbrev itself : ℕ → ℕ
itself n = n

-- A row without an entry, an entry without a row, and a key that two rows and two entries share.
count_key-match_rows_example :
    (count_key ◌==◌ itself 1 (match_rows itself itself ◌==◌ (1 ∷ 2 ∷ 1 ∷ []) (1 ∷ 3 ∷ 1 ∷ [])).0
      ≡ 2 - 2)
    × (count_key ◌==◌ itself 1 (match_rows itself itself ◌==◌ (1 ∷ 2 ∷ 1 ∷ []) (1 ∷ 3 ∷ 1 ∷ [])).1
        ≡ 2 - 2)
count_key-match_rows_example =
    count_key-match_rows itself itself ◌==◌ number-IsEquality (1 ∷ 2 ∷ 1 ∷ []) (1 ∷ 3 ∷ 1 ∷ []) 1

match_rows-run : match_rows itself itself ◌==◌ (1 ∷ 2 ∷ 1 ∷ []) (1 ∷ 3 ∷ 1 ∷ []) ≡ (2 ∷ [], 3 ∷ [])
unfolding match_rows
match_rows-run = refl

abbrev unreleased_text : List ℕ
unreleased_text =
    codes
      "# Changelog\n## [Unreleased]\n### testprotocols\n#### Deprecated\n- **field** `a`\n  more\n## [1.0.0]\n"

unreleased-Placed_example :
    All (λ e. BulletAt (split_lines unreleased_text) e.line) (unreleased unreleased_text).0
unreleased-Placed_example = unreleased-Placed unreleased_text

unreleased-run : unreleased unreleased_text ≡ (
  record {
    line = 5;
    package_name = codes "testprotocols";
    subsection = codes "Deprecated";
    text = codes "- **field** `a` more";
  }
      ∷ [],
  some 2,
)
unfolding unreleased strip is_space
unreleased-run = refl
