-- ===== src/Changelog/Register.antt =====
-- What the match of register rows and changelog entries reports, counted by key.
use testprotocols.Prelude.{
  ℕ, suc, ◌-◌, ◌≡◌, refl, ap, subst, inl, inr, Bool, true, false, Option, none, some, List, [], ◌∷◌,
  arith, if◌then◌else◌, Bool-cases,
}
use testprotocols.Changelog.{remove_match, match_rows, onto_entries}

module _ {K : Type 0} (eqb : K → K → Bool) where
  -- How many of the elements have the key.
  abbrev pub count_key : {A : Type 0} → (A → K) → K → List A → ℕ
  count_key key k [] = 0
  count_key key k (a ∷ as') =
      if eqb (key a) k then suc (count_key key k as') else count_key key k as'

  -- A test of equality.
  pub record IsEquality : Type 0 where
    pub sound : (j k : K) → eqb j k ≡ true → j ≡ k
    pub complete : (j : K) → eqb j j ≡ true

module _ {R E K : Type 0} (row_key : R → K) (entry_key : E → K) (eqb : K → K → Bool)
    (laws : IsEquality eqb) where
  abbrev Removed : K → List E → Option (List E) → Type 0
  Removed key entries none = count_key eqb entry_key key entries ≡ 0
  Removed key entries (some rest) =
      (k : K)
      → count_key eqb entry_key k entries ≡ (
          if eqb key k
          then suc (count_key eqb entry_key k rest)
          else count_key eqb entry_key k rest)

  Removed-behind :
      (key : K) (e : E) (entries : List E) (o : Option (List E))
      → eqb (entry_key e) key ≡ false
      → Removed key entries o
      → Removed key (e ∷ entries) (onto_entries row_key entry_key eqb e o)
  Removed-behind key e entries none h k = rw h k
  Removed-behind key e entries (some rest) h k = λ j. rw (k j) (ground arith)

  remove_match-Removed :
      (key : K) (entries : List E)
      → Removed key entries (remove_match row_key entry_key eqb key entries)
  unfolding remove_match
  remove_match-Removed key [] = refl
  remove_match-Removed key (e ∷ entries) = elim (Bool-cases (eqb (entry_key e) key)) [
    | inl h ↦ rw h (λ k.
        ap
          (λ j.
            if eqb j k
            then suc (count_key eqb entry_key k entries)
            else count_key eqb entry_key k entries)
          (laws.sound (entry_key e) key h))
    | inr h ↦ rw h (
        Removed-behind key e entries (remove_match row_key entry_key eqb key entries) h
          (remove_match-Removed key entries))
  ]

  -- Of each key as many rows are reported as the rows outnumber the entries, and as many entries as the
  -- entries outnumber the rows.
  abbrev pub Matched : List R → List E → List R × List E → Type 0
  Matched rows entries (missing, left) =
      (k : K)
      → (count_key eqb row_key k missing
          ≡ count_key eqb row_key k rows - count_key eqb entry_key k entries)
        × (count_key eqb entry_key k left
            ≡ count_key eqb entry_key k entries - count_key eqb row_key k rows)

  Matched-row :
      (row : R) (rows : List R) (entries : List E) (o : Option (List E))
      → Removed (row_key row) entries o
      → ((es : List E) → Matched rows es (match_rows row_key entry_key eqb rows es))
      → Matched (row ∷ rows) entries (elim o [
        | none ↦ (
          row ∷ (match_rows row_key entry_key eqb rows entries).0,
          (match_rows row_key entry_key eqb rows entries).1,
        )
        | some rest ↦ match_rows row_key entry_key eqb rows rest
      ])
  Matched-row row rows entries none h ih = λ k. elim (Bool-cases (eqb (row_key row) k)) [
    | inl e ↦
        let zero_entries =
          subst (λ j. count_key eqb entry_key j entries ≡ 0) (laws.sound (row_key row) k e) h in
        rw e (ground (arith, zero_entries, (ih entries k).0, (ih entries k).1))
    | inr e ↦ rw e (ih entries k)
  ]
  Matched-row row rows entries (some rest) h ih =
      λ k. ground (arith, h k, (ih rest k).0, (ih rest k).1)

  match_rows_lem :
      (rows : List R) (entries : List E)
      → Matched rows entries (match_rows row_key entry_key eqb rows entries)
  unfolding match_rows
  match_rows_lem [] entries = λ k. (omega arith, omega arith)
  match_rows_lem (row ∷ rows) entries =
      Matched-row row rows entries (remove_match row_key entry_key eqb (row_key row) entries)
        (remove_match-Removed (row_key row) entries) (match_rows_lem rows)

  -- For keys with a test of equality: of each key the match reports as many rows as the rows outnumber
  -- the entries, and as many entries as the entries outnumber the rows, whatever their orders.
  pub count_key-match_rows :
      (rows : List R) (entries : List E) (k : K)
      → (count_key eqb row_key k (match_rows row_key entry_key eqb rows entries).0
          ≡ count_key eqb row_key k rows - count_key eqb entry_key k entries)
        × (count_key eqb entry_key k (match_rows row_key entry_key eqb rows entries).1
            ≡ count_key eqb entry_key k entries - count_key eqb row_key k rows)
  count_key-match_rows rows entries k = match_rows_lem rows entries k
