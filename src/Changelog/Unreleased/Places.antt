-- ===== src/Changelog/Unreleased/Places.antt =====
-- Where the entries stand in the file.
use testprotocols.Prelude.{
  ℕ, zero, suc, ◌+◌, ◌≡◌, refl, sym, ◌∙◌, subst, ◌≢◌, ◌⊎◌, inl, inr, Bool, true, ◌&&◌, Option, none,
  some, List, [], ◌∷◌, ◌++◌, arith, Bool-cases, All, All-append,
}
use testprotocols.Prelude.Text.{codes, strip}
use testprotocols.Prelude.Text.Lines.{split_lines}
use testprotocols.Review.{starts_with}
use testprotocols.Changelog.Unreleased.{
  Reading, flush_lines, flush, read_heading, read_line, read_lines, some_line, not_blank,
  is_unreleased, nothing_read, find_unreleased, unreleased,
}

-- The line at an index.
abbrev pub line_at : ℕ → List (List ℕ) → Option (List ℕ)
line_at i [] = none
line_at zero (line ∷ lines) = some line
line_at (suc i) (line ∷ lines) = line_at i lines

-- The 1-based line `n` of the file is a bullet.
abbrev pub BulletAt : List (List ℕ) → ℕ → Type 0
BulletAt lines n =
    (i : ℕ) × (line : List ℕ) × (n ≡ i + 1)
    × (line_at i lines ≡ some line)
    × (starts_with (codes "- ") line ≡ true)

cons_not_nil : (line : List ℕ) (lines : List (List ℕ)) → line ∷ lines ≢ []
cons_not_nil line lines e = cc

not_some_line :
    (lines : List (List ℕ)) (b c : Bool) → lines ≡ [] → (some_line lines && b && c) ≢ true
not_some_line [] b c e h = cc
not_some_line (line ∷ lines) b c e h = cons_not_nil line lines e

module _ (file : List (List ℕ)) where
  -- Every entry so far stands on a bullet, and so does the one that is being read.
  pub record IsPlaced (s : Reading) : Type 0 where
    pub entries_placed : All (λ e. BulletAt file e.line) s.entries
    pub current_placed : s.current ≡ [] ⊎ BulletAt file (s.first + 1)

  flush_lines-IsPlaced :
      (lines : List (List ℕ)) (s : Reading)
      → s.current ≡ lines
      → IsPlaced s
      → IsPlaced (flush_lines lines s)
  unfolding flush_lines
  flush_lines-IsPlaced [] s e p = p
  flush_lines-IsPlaced (line ∷ lines) s e p = elim p.current_placed [
    | inl none_left ↦ absurd (cons_not_nil line lines (sym e ∙ none_left))
    | inr bullet ↦ record {
      entries_placed =
          All-append (λ e. BulletAt file e.line) s.entries _ p.entries_placed (bullet, tt);
      current_placed = inl refl;
    }
  ]

  read_heading-IsPlaced :
      (line : List ℕ) (s : Reading) → IsPlaced s → IsPlaced (read_heading line s)
  unfolding read_heading
  read_heading-IsPlaced line s p = elim (Bool-cases (starts_with (codes "### ") line)) [
    | inl e ↦ rw e (record { entries_placed = p.entries_placed; current_placed = p.current_placed })
    | inr e ↦ elim (Bool-cases (starts_with (codes "#### ") line)) [
      | inl k ↦
          rw (e, k)
            (record { entries_placed = p.entries_placed; current_placed = p.current_placed })
      | inr k ↦ rw (e, k) p
    ]
  ]

  goes_on :
      (s : Reading) (b c : Bool) (line : List ℕ)
      → (some_line s.current && b && c) ≡ true
      → s.current ≡ [] ⊎ BulletAt file (s.first + 1)
      → (s.current ++ line ∷ []) ≡ [] ⊎ BulletAt file (s.first + 1)
  goes_on s b c line h (inl none_left) = absurd (not_some_line s.current b c none_left h)
  goes_on s b c line h (inr bullet) = inr bullet

  read_line-IsPlaced :
      (i : ℕ) (line : List ℕ) (s : Reading)
      → line_at i file ≡ some line
      → IsPlaced s
      → IsPlaced (read_line i line s)
  unfolding read_line
  read_line-IsPlaced i line s at_i p =
      let flushed = flush_lines-IsPlaced s.current s refl p in
      elim (Bool-cases (starts_with (codes "- ") line)) [
        | inl e ↦ rw e (record {
          entries_placed = flushed.entries_placed;
          current_placed = inr (i, line, refl, at_i, e);
        })
        | inr e ↦
            elim (Bool-cases
              (some_line s.current && starts_with (codes "  ") line && not_blank (strip line))) [
                | inl k ↦
                    rw (e, k)
                      (record {
                        entries_placed = p.entries_placed;
                        current_placed =
                            goes_on s (starts_with (codes "  ") line) (not_blank (strip line)) line
                              k p.current_placed;
                      })
                | inr k ↦ rw (e, k) (read_heading-IsPlaced line (flush s) flushed)
              ]
      ]

  -- The lines are those of the file from index `i` on.
  abbrev StandsAt : ℕ → List (List ℕ) → Type 0
  StandsAt i lines =
      (j : ℕ) (line : List ℕ) → line_at j lines ≡ some line → line_at (i + j) file ≡ some line

  behind_first :
      (i : ℕ) (line : List ℕ) (lines : List (List ℕ))
      → StandsAt i (line ∷ lines)
      → StandsAt (suc i) lines
  behind_first i line lines h j l k =
      subst (λ n. line_at n file ≡ some l) (omega arith) (h (suc j) l k)

  read_lines-IsPlaced :
      (i : ℕ) (lines : List (List ℕ)) (s : Reading)
      → StandsAt i lines
      → IsPlaced s
      → IsPlaced (read_lines i lines s)
  unfolding read_lines
  read_lines-IsPlaced i [] s h p = p
  read_lines-IsPlaced i (line ∷ lines) s h p = elim (Bool-cases (starts_with (codes "## ") line)) [
    | inl e ↦ rw e p
    | inr e ↦ rw e (
        read_lines-IsPlaced (suc i) lines (read_line i line s) (behind_first i line lines h) (
          read_line-IsPlaced i line s
            (subst (λ k. line_at k file ≡ some line) (omega arith) (h 0 line refl)) p))
  ]

  find_unreleased-Placed :
      (i : ℕ) (lines : List (List ℕ))
      → StandsAt i lines
      → All (λ e. BulletAt file e.line) (find_unreleased i lines).0
  unfolding find_unreleased
  find_unreleased-Placed i [] h = tt
  find_unreleased-Placed i (line ∷ lines) h = elim (Bool-cases (is_unreleased line)) [
    | inl e ↦ rw e (
        let s = read_lines (suc i) lines nothing_read in
        let p =
          read_lines-IsPlaced (suc i) lines nothing_read (behind_first i line lines h)
            (record { entries_placed = tt; current_placed = inl refl }) in
        (flush_lines-IsPlaced s.current s refl p).entries_placed)
    | inr e ↦ rw e (find_unreleased-Placed (suc i) lines (behind_first i line lines h))
  ]

-- Every entry that `unreleased` returns gives the number of a line of the file that is a bullet.
pub unreleased-Placed :
    (text : List ℕ) → All (λ e. BulletAt (split_lines text) e.line) (unreleased text).0
unfolding unreleased
unreleased-Placed text =
    find_unreleased-Placed (split_lines text) 0 (split_lines text)
      (λ j line h. subst (λ n. line_at n (split_lines text) ≡ some line) (omega arith) h)
