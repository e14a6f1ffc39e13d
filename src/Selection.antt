-- ===== src/Selection.antt =====
-- packages/testoperations/src/testoperations/selection.py: one candidate that meets every criterion.
-- A criteria table is an association list in mapping order; texts are lists of character codes.
pub mod FirstMatch
mod Examples
use testprotocols.Prelude.{
  ℕ, String, str_eq, Bool, true, false, ◌&&◌, Option, none, some, List, [], ◌∷◌, ◌++◌, ◌==◌,
  if◌then◌else◌,
}
use testprotocols.Prelude.Int.{ℤ, leb_ℤ}
use testprotocols.Prelude.Text.{strip}

-- Attributes are texts that are only compared.
pub record Mismatch : Type 0 where
  pub attribute : String
  pub want : List ℕ
  pub got : List ℕ

pub record CandidateMismatch : Type 0 where
  pub candidate : List ℕ
  pub mismatch : Mismatch

-- What `select_one` returns or raises.
pub data Selected (T : Type 0) : Type 0 where
  chosen : T → Selected T
  -- The `KeyError` of `vocabulary[attr]`.
  no_reader : Selected T
  unknown_criteria : (unknown : List String) → Selected T
  no_matching_candidate : (failures : List CandidateMismatch) → Selected T

abbrev pub text_eq : List ℕ → List ℕ → Bool
text_eq [] [] = true
text_eq (x ∷ xs) (y ∷ ys) = if x == y then text_eq xs ys else false
text_eq _ _ = false

-- `int(got) >= int(want)`, which is false when one is no number; `int` is Python's own.
abbrev at_least : Option ℤ → Option ℤ → Bool
at_least (some got) (some want) = leb_ℤ want got
at_least _ _ = false

-- The prefix `>=` off a stripped criterion.
abbrev minimum_of : List ℕ → Option (List ℕ)
minimum_of (c ∷ d ∷ rest) = if c == b'>' && d == b'=' then some rest else none
minimum_of _ = none

abbrev pub lookup : {A : Type 0} → String → List (String × A) → Option A
lookup k [] = none
lookup k ((j, a) ∷ l) = if str_eq j k then some a else lookup k l

pub data Verdict : Type 0 where
  full_match : Verdict
  mismatch_at : Mismatch → Verdict
  missing_reader : Verdict

module _ {T : Type 0} (vocabulary : List (String × (T → List ℕ))) where
  -- `set(criteria) - set(vocabulary)`
  unfoldable pub unknown_criteria_of : List (String × List ℕ) → List String
  unknown_criteria_of [] = []
  unknown_criteria_of ((attr, want) ∷ criteria) = elim (lookup attr vocabulary) [
    | some read ↦ unknown_criteria_of criteria
    | none ↦ attr ∷ unknown_criteria_of criteria
  ]

-- `int_of` is Python's `int` of a text, `none` for its `ValueError`; `sorted` is Python's own.
module _ (int_of : List ℕ → Option ℤ) where
  unfoldable pub criterion_matches : (want got : List ℕ) → Bool
  unfolding strip
  criterion_matches want got = elim (minimum_of (strip want)) [
    | some minimum ↦ at_least (int_of got) (int_of (strip minimum))
    | none ↦ text_eq got want
  ]

  module _ {T : Type 0} (vocabulary : List (String × (T → List ℕ))) where
    unfoldable pub first_mismatch : T → List (String × List ℕ) → Verdict
    unfolding criterion_matches
    first_mismatch candidate [] = full_match
    first_mismatch candidate ((attr, want) ∷ criteria) = elim (lookup attr vocabulary) [
      | none ↦ missing_reader
      | some read ↦
          if criterion_matches want (read candidate)
          then first_mismatch candidate criteria
          else mismatch_at (record { attribute = attr; want = want; got = read candidate })
    ]

    module _ (sorted : List String → List String) (describe : T → List ℕ)
        (criteria : List (String × List ℕ)) where
      -- The loop over the candidates.
      unfoldable pub examine : List T → List CandidateMismatch → Selected T
      examine [] failures = no_matching_candidate failures
      examine (c ∷ cs) failures = elim (first_mismatch c criteria) [
        | full_match ↦ chosen c
        | missing_reader ↦ no_reader
        | mismatch_at m ↦
            examine cs (failures ++ record { candidate = describe c; mismatch = m } ∷ [])
      ]

      -- `validate_criteria`, then the loop.
      unfoldable pub select_one : List T → Selected T
      select_one candidates = elim (unknown_criteria_of vocabulary criteria) [
        | [] ↦ examine candidates []
        | u ∷ us ↦ unknown_criteria (sorted (u ∷ us))
      ]
