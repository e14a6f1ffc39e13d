-- ===== src/Changelog/Published/Lines.antt =====
-- How a published section lies in the lines of the file, and what its entries are.
use testprotocols.Prelude.{
  ℕ, ◌≡◌, refl, sym, ap, ◌∙◌, ◌≢◌, inl, inr, true, false, List, [], ◌∷◌, ◌++◌, arith, ==_iff,
  Bool-cases, All,
}
use testprotocols.Prelude.Text.{codes, rstrip}
use testprotocols.Prelude.Text.Split.{text_eq, text_eq_refl}
use testprotocols.Changelog.{
  is_heading_of, headings_of, after_heading, until_next, entries_of, has_entry, all_entries,
}
use testprotocols.Changelog.Published.Heading.{
  IsHeading, is_heading_of-IsHeading, IsHeading-is_heading_of,
}
use testprotocols.Review.{starts_with}

-- The line begins with the text.
abbrev pub Begins : (prefix line : List ℕ) → Type 0
Begins prefix line = (t : List ℕ) × (line ≡ prefix ++ t)

starts_with_sound : (p line : List ℕ) → starts_with p line ≡ true → Begins p line
starts_with_sound [] line h = (line, refl)
starts_with_sound (c ∷ p) [] h = absurd (ground (arith, h))
starts_with_sound (c ∷ p) (d ∷ line) h =
    let (t, e) = starts_with_sound p line (ground (arith, h)) in
    (t, rw ((==_iff c d).0 (ground (arith, h))) (ap (λ l. d ∷ l) e))

starts_with_complete : (p t : List ℕ) → starts_with p (p ++ t) ≡ true
starts_with_complete [] t = refl
starts_with_complete (c ∷ p) t = rw ((==_iff c c).1 refl) (starts_with_complete p t)

not_Begins : (p line : List ℕ) → starts_with p line ≡ false → ¬ Begins p line
not_Begins p line h (t, e) = cc (sym h ∙ ap (starts_with p) e ∙ starts_with_complete p t)

not_IsHeading :
    (version line : List ℕ) → is_heading_of version line ≡ false → ¬ IsHeading version line
not_IsHeading version line h k = cc (sym h ∙ IsHeading-is_heading_of version line k)

-- No heading of the version among the lines.
abbrev pub NoHeading : (version : List ℕ) → List (List ℕ) → Type 0
NoHeading version = All (λ line. ¬ IsHeading version line)

headings_of-NoHeading :
    (version : List ℕ) (lines : List (List ℕ))
    → headings_of version lines ≡ 0
    → NoHeading version lines
unfolding headings_of
headings_of-NoHeading version [] h = tt
headings_of-NoHeading version (line ∷ lines) h = elim (Bool-cases (is_heading_of version line)) [
  | inl e ↦ absurd (omega (arith, rw e at h))
  | inr e ↦ (not_IsHeading version line e, headings_of-NoHeading version lines (rw e at h))
]

-- One heading of the version among the lines, and the lines before it and behind it.
abbrev pub OneHeading : (version : List ℕ) → (lines after : List (List ℕ)) → Type 0
OneHeading version lines after =
    (before : List (List ℕ)) × (heading : List ℕ) × (lines ≡ before ++ heading ∷ after)
    × IsHeading version heading
    × NoHeading version before
    × NoHeading version after

pub after_heading-OneHeading :
    (version : List ℕ) (lines : List (List ℕ))
    → headings_of version lines ≡ 1
    → OneHeading version lines (after_heading version lines)
unfolding headings_of after_heading
after_heading-OneHeading version [] h = absurd (omega (arith, h))
after_heading-OneHeading version (line ∷ lines) h = elim (Bool-cases (is_heading_of version line)) [
  | inl e ↦ rw e (
    [],
    line,
    refl,
    is_heading_of-IsHeading version line e,
    tt,
    headings_of-NoHeading version lines (omega (arith, rw e at h)),
  )
  | inr e ↦
      let (before, heading, split, is_heading, none_before, none_after) =
        after_heading-OneHeading version lines (rw e at h) in
      rw e (
        line ∷ before,
        heading,
        ap (λ l. line ∷ l) split,
        is_heading,
        (not_IsHeading version line e, none_before),
        none_after,
      )
]

-- The lines are the content of one section, and then nothing or the next section.
abbrev StartsSection : List (List ℕ) → Type 0
StartsSection [] = Unit
StartsSection (line ∷ lines) = Begins (codes "## [") line

abbrev pub OneSection : (lines content : List (List ℕ)) → Type 0
OneSection lines content =
    (rest : List (List ℕ)) × (lines ≡ content ++ rest)
    × All (λ line. ¬ Begins (codes "## [") line) content
    × StartsSection rest

pub until_next-OneSection : (lines : List (List ℕ)) → OneSection lines (until_next lines)
unfolding until_next
until_next-OneSection [] = ([], refl, tt, tt)
until_next-OneSection (line ∷ lines) = elim (Bool-cases (starts_with (codes "## [") line)) [
  | inl e ↦ rw e (line ∷ lines, refl, tt, starts_with_sound (codes "## [") line e)
  | inr e ↦
      let (rest, split, none_starts, next) = until_next-OneSection lines in
      rw e (rest, ap (λ l. line ∷ l) split, (not_Begins (codes "## [") line e, none_starts), next)
]

-- A line that is an entry, with what the entry says.
abbrev pub Bullet : List ℕ → Type 0
Bullet = Begins (codes "- ")

-- No entry of the lines is `entry`.
abbrev pub NoEntry : (entry : List ℕ) → List (List ℕ) → Type 0
NoEntry entry = All (λ line. Bullet line → rstrip line ≢ entry)

-- One of the lines is an entry of which `P` holds.
abbrev pub SomeEntry : (P : List ℕ → Type 0) → List (List ℕ) → Type 0
SomeEntry P lines =
    (before : List (List ℕ)) × (line : List ℕ) × (after : List (List ℕ)) × (lines
      ≡ before ++ line ∷ after)
    × Bullet line
    × P (rstrip line)

SomeEntry-behind :
    (P : List ℕ → Type 0) (line : List ℕ) (lines : List (List ℕ))
    → SomeEntry P lines
    → SomeEntry P (line ∷ lines)
SomeEntry-behind P line lines (before, l, after, e, bullet, p) =
    (line ∷ before, l, after, ap (λ ls. line ∷ ls) e, bullet, p)

text_ne : (t u : List ℕ) → text_eq t u ≡ false → t ≢ u
text_ne t u h e = cc (sym h ∙ ap (λ x. text_eq x u) e ∙ text_eq_refl u)

pub has_entry-NoEntry :
    (entry : List ℕ) (lines : List (List ℕ))
    → has_entry entry (entries_of lines) ≡ false
    → NoEntry entry lines
unfolding entries_of
has_entry-NoEntry entry [] h = tt
has_entry-NoEntry entry (line ∷ lines) h = elim (Bool-cases (starts_with (codes "- ") line)) [
  | inl e ↦
      let k = rw e at h in
      (
        λ _. text_ne (rstrip line) entry (ground (arith, k)),
        has_entry-NoEntry entry lines (ground (arith, k)),
      )
  | inr e ↦
      (λ b. absurd (not_Begins (codes "- ") line e b), has_entry-NoEntry entry lines (rw e at h))
]

pub all_entries-SomeEntry :
    (entry : List ℕ) (lines : List (List ℕ))
    → all_entries entry (entries_of lines) ≡ false
    → SomeEntry (λ e. e ≢ entry) lines
unfolding entries_of
all_entries-SomeEntry entry [] h = absurd (ground (arith, h))
all_entries-SomeEntry entry (line ∷ lines) h = elim (Bool-cases (starts_with (codes "- ") line)) [
  | inr e ↦
      SomeEntry-behind (λ x. x ≢ entry) line lines (all_entries-SomeEntry entry lines (rw e at h))
  | inl e ↦ elim (Bool-cases (text_eq (rstrip line) entry)) [
    | inr k ↦ (
      [],
      line,
      lines,
      refl,
      starts_with_sound (codes "- ") line e,
      text_ne (rstrip line) entry k,
    )
    | inl k ↦
        SomeEntry-behind (λ x. x ≢ entry) line lines
          (all_entries-SomeEntry entry lines (rw (e, k) at h))
  ]
]

pub entries_of-SomeEntry :
    (lines : List (List ℕ)) (e : List ℕ) (es : List (List ℕ))
    → entries_of lines ≡ e ∷ es
    → SomeEntry (λ _. Unit) lines
unfolding entries_of
entries_of-SomeEntry [] e es h = cc
entries_of-SomeEntry (line ∷ lines) e es h = elim (Bool-cases (starts_with (codes "- ") line)) [
  | inl k ↦ ([], line, lines, refl, starts_with_sound (codes "- ") line k, tt)
  | inr k ↦ SomeEntry-behind (λ _. Unit) line lines (entries_of-SomeEntry lines e es (rw k at h))
]

pub SomeEntry-map :
    (P Q : List ℕ → Type 0) (lines : List (List ℕ))
    → ((e : List ℕ) → P e → Q e)
    → SomeEntry P lines
    → SomeEntry Q lines
SomeEntry-map P Q lines f (before, line, after, e, bullet, p) =
    (before, line, after, e, bullet, f (rstrip line) p)
