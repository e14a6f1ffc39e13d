-- ===== src/Changelog/Published.antt =====
-- What `section` publishes, and when.
pub mod Heading
pub mod Lines
use testprotocols.Prelude.Text.{strip}
use testprotocols.Changelog.Published.Heading.{AreNumbers, is_version-AreNumbers}
use testprotocols.Changelog.Published.Lines.{
  OneHeading, OneSection, NoEntry, SomeEntry, SomeEntry-map, after_heading-OneHeading,
  until_next-OneSection, has_entry-NoEntry, all_entries-SomeEntry, entries_of-SomeEntry,
}
use testprotocols.Prelude.{
  subst, ℕ, zero, suc, ◌≡◌, refl, sym, ap, ◌∙◌, ◌≢◌, ◌⊎◌, inl, inr, Bool, true, false, not, ◌&&◌,
  List, [], ◌∷◌, Bool-cases,
}
use testprotocols.Changelog.{
  SectionError, bad_version, no_heading, repeated_heading, is_empty, still_no_entries,
  only_version_bump, Section, published, refused, is_version, headings_of, body_of, entries_of,
  has_entry, all_entries, no_entries, version_bump_only, judge, by_headings, lines_of, section,
  join_lines, after_heading, until_next,
}
use testprotocols.Prelude.Text.Lines.{split_lines}

-- What a published section has, with its lines and what is behind its heading.
pub record IsPublishable (text version : List ℕ) (allow_empty : Bool) (body : List ℕ) : Type 0 where
  pub version_is_right : AreNumbers 2 version
  pub after : List (List ℕ)
  pub content : List (List ℕ)
  pub one_heading : OneHeading version (lines_of text) after
  pub one_section : OneSection after content
  pub the_body : body ≡ strip (join_lines content)
  pub all_filled : NoEntry no_entries (split_lines body)
  pub more_than_bump :
      SomeEntry (λ e. (allow_empty ≡ true) ⊎ (e ≢ version_bump_only)) (split_lines body)

refused-ne-published : (e : SectionError) (body : List ℕ) → refused e ≢ published body
refused-ne-published e body h = cc

-- The entries behind a verdict.
abbrev Judged : Bool → List ℕ → List (List ℕ) → List ℕ → Type 0
Judged allow_empty body entries out =
    (body ≡ out)
    × (e : List ℕ) × (es : List (List ℕ)) × (entries ≡ e ∷ es)
    × (has_entry no_entries (e ∷ es) ≡ false)
    × (allow_empty ≡ true ⊎ all_entries version_bump_only (e ∷ es) ≡ false)

published-inj : (a b : List ℕ) → published a ≡ published b → a ≡ b
published-inj a b h = cc

allow_or : (a b : Bool) → (not a && b) ≡ false → a ≡ true ⊎ b ≡ false
allow_or true b h = inl refl
allow_or false b h = inr h

judge-Judged :
    (allow_empty : Bool) (body : List ℕ) (entries : List (List ℕ)) (out : List ℕ)
    → judge allow_empty body entries ≡ published out
    → Judged allow_empty body entries out
judge-Judged allow_empty body [] out h = absurd (refused-ne-published is_empty out h)
judge-Judged allow_empty body (e ∷ es) out h = elim (Bool-cases (has_entry no_entries (e ∷ es))) [
  | inl k ↦ absurd (refused-ne-published still_no_entries out (rw k at h))
  | inr k ↦ elim (Bool-cases (not allow_empty && all_entries version_bump_only (e ∷ es))) [
    | inl l ↦ absurd (refused-ne-published only_version_bump out (rw (k, l) at h))
    | inr l ↦ (
      published-inj body out (rw (k, l) at h),
      e,
      es,
      refl,
      k,
      allow_or allow_empty (all_entries version_bump_only (e ∷ es)) l,
    )
  ]
]

by_headings-one :
    (n : ℕ) (s : Section) (out : List ℕ)
    → by_headings n s ≡ published out
    → (n ≡ 1) × (s ≡ published out)
by_headings-one zero s out h = absurd (refused-ne-published no_heading out h)
by_headings-one (suc zero) s out h = (refl, h)
by_headings-one (suc (suc n)) s out h = absurd (refused-ne-published repeated_heading out h)

-- Of the entries behind a verdict, one is more than the version bump, or that is allowed.
more_SomeEntry :
    (allow_empty : Bool) (lines : List (List ℕ)) (e : List ℕ) (es : List (List ℕ))
    → entries_of lines ≡ e ∷ es
    → (allow_empty ≡ true) ⊎ (all_entries version_bump_only (e ∷ es) ≡ false)
    → SomeEntry (λ e'. (allow_empty ≡ true) ⊎ (e' ≢ version_bump_only)) lines
more_SomeEntry allow_empty lines e es h (inl allowed) =
    SomeEntry-map (λ _. Unit) (λ e'. (allow_empty ≡ true) ⊎ (e' ≢ version_bump_only)) lines
      (λ _ _. inl allowed) (entries_of-SomeEntry lines e es h)
more_SomeEntry allow_empty lines e es h (inr more) =
    SomeEntry-map (λ e'. e' ≢ version_bump_only)
      (λ e'. (allow_empty ≡ true) ⊎ (e' ≢ version_bump_only)) lines (λ _ k. inr k)
      (all_entries-SomeEntry version_bump_only lines (ap (all_entries version_bump_only) h ∙ more))

-- A section is published only under a version X.Y.Z that one line of the file alone has a dated heading
-- of. The published text is that of the lines from there to the next section, stripped; no entry in it
-- is the placeholder, and there is an entry, which says more than the version bump unless that is
-- allowed.
pub section-IsPublishable :
    (text version : List ℕ) (allow_empty : Bool) (body : List ℕ)
    → section text version allow_empty ≡ published body
    → IsPublishable text version allow_empty body
unfolding section body_of
section-IsPublishable text version allow_empty body h = elim (Bool-cases (is_version version)) [
  | inr k ↦ absurd (refused-ne-published bad_version body (rw k at h))
  | inl k ↦
      let lines = lines_of text in
      let found = body_of version lines in
      let entries = entries_of (split_lines found) in
      let verdict = judge allow_empty found entries in
      let one = by_headings-one (headings_of version lines) verdict body (rw k at h) in
      let (same, e, es, some_entry, filled, more) =
        judge-Judged allow_empty found entries body one.1 in
      record {
        version_is_right = is_version-AreNumbers version k;
        after = after_heading version lines;
        content = until_next (after_heading version lines);
        one_heading = after_heading-OneHeading version lines one.0;
        one_section = until_next-OneSection (after_heading version lines);
        the_body = sym same;
        all_filled =
            subst (λ b. NoEntry no_entries (split_lines b)) same
              (has_entry-NoEntry no_entries (split_lines found)
                (ap (has_entry no_entries) some_entry ∙ filled));
        more_than_bump =
            subst
              (λ b.
                SomeEntry (λ e'. (allow_empty ≡ true) ⊎ (e' ≢ version_bump_only)) (split_lines b))
              same (more_SomeEntry allow_empty (split_lines found) e es some_entry more);
      }
]
