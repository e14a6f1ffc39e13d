-- ===== src/Selection/FirstMatch.antt =====
-- `select_one` binds the first candidate that meets every criterion, or says where each one fails.
use testprotocols.Prelude.{
  ℕ, String, ◌≡◌, ◌≢◌, refl, sym, subst, Bool, true, false, Option, none, some, List, [], ◌∷◌, ◌++◌,
  append_assoc, append-nil, All, if◌then◌else◌,
}
use testprotocols.Prelude.Int.{ℤ}
use testprotocols.Selection.{
  Mismatch, CandidateMismatch, Selected, chosen, no_reader, unknown_criteria, no_matching_candidate,
  lookup, Verdict, full_match, mismatch_at, missing_reader, criterion_matches, unknown_criteria_of,
  first_mismatch, examine, select_one,
}

module _ (int_of : List ℕ → Option ℤ) {T : Type 0} (vocabulary : List (String × (T → List ℕ))) where
  -- A criterion that a candidate's reading meets.
  pub record Meets (c : T) (criterion : String × List ℕ) : Type 0 where
    pub read : T → List ℕ
    pub known : lookup criterion.0 vocabulary ≡ some read
    pub met : criterion_matches int_of criterion.1 (read c) ≡ true

  -- The first criterion that a candidate fails, with the ones before it met.
  pub record FirstFailure (criteria : List (String × List ℕ)) (c : T) (m : Mismatch) : Type 0 where
    pub before : List (String × List ℕ)
    pub after : List (String × List ℕ)
    pub split : criteria ≡ before ++ (m.attribute, m.want) ∷ after
    pub met : All (Meets c) before
    pub read : T → List ℕ
    pub known : lookup m.attribute vocabulary ≡ some read
    pub got_read : m.got ≡ read c
    pub fails : criterion_matches int_of m.want m.got ≡ false

  abbrev pub IsVerdict : List (String × List ℕ) → T → Verdict → Type 0
  IsVerdict criteria c full_match = All (Meets c) criteria
  IsVerdict criteria c (mismatch_at m) = FirstFailure criteria c m
  IsVerdict criteria c missing_reader = ⊥

  -- Every attribute has a reader.
  abbrev AllKnown : List (String × List ℕ) → Type 0
  AllKnown = All (λ (attr, want). (read : T → List ℕ) × (lookup attr vocabulary ≡ some read))

  later-IsVerdict :
      (c : T) (criterion : String × List ℕ) (criteria : List (String × List ℕ))
      → Meets c criterion
      → (v : Verdict) → IsVerdict criteria c v
      → IsVerdict (criterion ∷ criteria) c v
  later-IsVerdict c criterion criteria m full_match h = (m, h)
  later-IsVerdict c criterion criteria m (mismatch_at n) h = record {
    before = criterion ∷ h.before;
    after = h.after;
    split = rw h.split;
    met = (m, h.met);
    read = h.read;
    known = h.known;
    got_read = h.got_read;
    fails = h.fails;
  }
  later-IsVerdict c criterion criteria m missing_reader h = absurd h

  criterion-IsVerdict :
      (c : T) (attr : String) (want : List ℕ) (criteria : List (String × List ℕ))
      (read : T → List ℕ)
      → lookup attr vocabulary ≡ some read
      → IsVerdict criteria c (first_mismatch int_of vocabulary c criteria)
      → (met : Bool) → criterion_matches int_of want (read c) ≡ met
      → IsVerdict ((attr, want) ∷ criteria) c (
          if met
          then first_mismatch int_of vocabulary c criteria
          else mismatch_at (record { attribute = attr; want = want; got = read c }))
  criterion-IsVerdict c attr want criteria read k h true e =
      later-IsVerdict c (attr, want) criteria (record { read = read; known = k; met = e })
        (first_mismatch int_of vocabulary c criteria) h
  criterion-IsVerdict c attr want criteria read k h false e = record {
    before = [];
    after = criteria;
    split = refl;
    met = tt;
    read = read;
    known = k;
    got_read = refl;
    fails = e;
  }

  first_mismatch-IsVerdict :
      (c : T) (criteria : List (String × List ℕ))
      → AllKnown criteria
      → IsVerdict criteria c (first_mismatch int_of vocabulary c criteria)
  unfolding first_mismatch
  first_mismatch-IsVerdict c [] k = tt
  first_mismatch-IsVerdict c ((attr, want) ∷ criteria) k =
      let (read, e) = k.0 in
      subst
        (λ o. IsVerdict ((attr, want) ∷ criteria) c (elim o [
          | none ↦ missing_reader
          | some read' ↦
              if criterion_matches int_of want (read' c)
              then first_mismatch int_of vocabulary c criteria
              else mismatch_at (record { attribute = attr; want = want; got = read' c })
        ]))
        (sym e)
        (criterion-IsVerdict c attr want criteria read e (first_mismatch-IsVerdict c criteria k.1)
          (criterion_matches int_of want (read c)) refl)

  known_reader :
      (attr : String) (want : List ℕ) (criteria : List (String × List ℕ))
      → (unknown_criteria_of vocabulary criteria ≡ [] → AllKnown criteria)
      → (o : Option (T → List ℕ)) → lookup attr vocabulary ≡ o
      → elim o [
        | some read ↦ unknown_criteria_of vocabulary criteria
        | none ↦ attr ∷ unknown_criteria_of vocabulary criteria
      ]
        ≡ []
      → AllKnown ((attr, want) ∷ criteria)
  known_reader attr want criteria rest (some read) e h = ((read, e), rest h)
  known_reader attr want criteria rest none e h = absurd (cc h)

  unknown_criteria_of-AllKnown :
      (criteria : List (String × List ℕ))
      → unknown_criteria_of vocabulary criteria ≡ []
      → AllKnown criteria
  unfolding unknown_criteria_of
  unknown_criteria_of-AllKnown [] h = tt
  unknown_criteria_of-AllKnown ((attr, want) ∷ criteria) h =
      known_reader attr want criteria (unknown_criteria_of-AllKnown criteria)
        (lookup attr vocabulary) refl h

  module _ (sorted : List String → List String) (describe : T → List ℕ)
      (criteria : List (String × List ℕ)) where
    -- One entry for each candidate, in order: its description and its first failure.
    abbrev pub Reported : List T → List CandidateMismatch → Type 0
    Reported [] [] = Unit
    Reported (c ∷ cs) (f ∷ fs) =
        (f.candidate ≡ describe c) × FirstFailure criteria c f.mismatch × Reported cs fs
    Reported _ _ = ⊥

    -- What the result says of the candidates.
    abbrev pub IsSelection : List T → Selected T → Type 0
    IsSelection candidates (chosen c) =
        (before : List T) × (after : List T) × (failures : List CandidateMismatch) × (candidates
          ≡ before ++ c ∷ after)
        × Reported before failures
        × All (Meets c) criteria
    IsSelection candidates (unknown_criteria unknown) =
        (unknown ≡ sorted (unknown_criteria_of vocabulary criteria))
        × (unknown_criteria_of vocabulary criteria ≢ [])
    IsSelection candidates (no_matching_candidate failures) = Reported candidates failures
    IsSelection candidates no_reader = ⊥

    Reported-append :
        (cs ds : List T) (fs gs : List CandidateMismatch)
        → Reported cs fs
        → Reported ds gs
        → Reported (cs ++ ds) (fs ++ gs)
    Reported-append [] ds [] gs h k = k
    Reported-append [] ds (f ∷ fs) gs h k = absurd h
    Reported-append (c ∷ cs) ds [] gs h k = absurd h
    Reported-append (c ∷ cs) ds (f ∷ fs) gs h k = (h.0, h.1, Reported-append cs ds fs gs h.2 k)

    module _ (known : AllKnown criteria) where
      examined :
          (before : List T) (c : T) (cs : List T) (failures : List CandidateMismatch)
          → Reported before failures
          → ((m : Mismatch)
              → FirstFailure criteria c m
              → IsSelection (before ++ c ∷ cs) (
                  examine int_of vocabulary sorted describe criteria cs
                    (failures ++ record { candidate = describe c; mismatch = m } ∷ [])))
          → (v : Verdict) → IsVerdict criteria c v
          → IsSelection (before ++ c ∷ cs) (elim v [
            | full_match ↦ chosen c
            | missing_reader ↦ no_reader
            | mismatch_at m ↦
                examine int_of vocabulary sorted describe criteria cs
                  (failures ++ record { candidate = describe c; mismatch = m } ∷ [])
          ])
      examined before c cs failures h next full_match k = (before, cs, failures, refl, h, k)
      examined before c cs failures h next (mismatch_at m) k = next m k
      examined before c cs failures h next missing_reader k = absurd k

      examine-IsSelection :
          (before cs : List T) (failures : List CandidateMismatch)
          → Reported before failures
          → IsSelection
              (before ++ cs)
              (examine int_of vocabulary sorted describe criteria cs failures)
      unfolding examine
      examine-IsSelection before [] failures h = rw (append-nil before) h
      examine-IsSelection before (c ∷ cs) failures h =
          examined before c cs failures h
            (λ m k. rw (append_assoc) at (
              examine-IsSelection (before ++ c ∷ []) cs
                (failures ++ record { candidate = describe c; mismatch = m } ∷ [])
                (Reported-append before (c ∷ []) failures _ h (refl, k, tt))))
            (first_mismatch int_of vocabulary c criteria)
            (first_mismatch-IsVerdict c criteria known)

    checked :
        (candidates : List T) (unknown : List String)
        → unknown_criteria_of vocabulary criteria ≡ unknown
        → IsSelection candidates (elim unknown [
          | [] ↦ examine int_of vocabulary sorted describe criteria candidates []
          | u ∷ us ↦ unknown_criteria (sorted (u ∷ us))
        ])
    checked candidates [] e =
        examine-IsSelection (unknown_criteria_of-AllKnown criteria e) [] candidates [] tt
    checked candidates (u ∷ us) e = (rw e, λ n. cc (e, n))

    -- `select_one` chooses the first candidate that meets every criterion, each one before it failing
    -- at least one; or, if none does, reports for every candidate in order the first criterion that it
    -- fails and the reading; or, if criteria lie outside the vocabulary, names those. It never looks
    -- up a reader that is not there.
    pub select_one-IsSelection :
        (candidates : List T)
        → IsSelection candidates (select_one int_of vocabulary sorted describe criteria candidates)
    unfolding select_one
    select_one-IsSelection candidates =
        checked candidates (unknown_criteria_of vocabulary criteria) refl
