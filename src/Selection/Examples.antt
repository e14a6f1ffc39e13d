-- ===== src/Selection/Examples.antt =====
-- Candidates that are numbers, with one attribute.
use testprotocols.Prelude.{ℕ, String, ◌≡◌, refl, Option, none, some, List, [], ◌∷◌}
use testprotocols.Prelude.Int.{ℤ, pos}
use testprotocols.Prelude.Text.{codes, decimal, number_from}
use testprotocols.Selection.{
  chosen, unknown_criteria, unknown_criteria_of, examine, first_mismatch, select_one,
}
use testprotocols.Selection.FirstMatch.{IsSelection, select_one-IsSelection}

abbrev int_of : List ℕ → Option ℤ
int_of [] = none
int_of (c ∷ t) = some (pos (number_from 0 (c ∷ t)))

abbrev uplinks : List (String × (ℕ → List ℕ))
uplinks = ("uplinks", λ n. decimal n) ∷ []

abbrev two_uplinks : List (String × List ℕ)
two_uplinks = ("uplinks", codes ">= 2") ∷ []

select_tests :
    (select_one int_of uplinks (λ l. l) decimal two_uplinks (1 ∷ 3 ∷ 2 ∷ []) ≡ chosen 3)
    × (select_one int_of uplinks (λ l. l) decimal (("role", codes "hub") ∷ []) (1 ∷ [])
        ≡ unknown_criteria ("role" ∷ []))
unfolding select_one number_from decimal unknown_criteria_of examine first_mismatch
select_tests = (refl, refl)

select_one-IsSelection_example :
    IsSelection int_of uplinks
      (λ l. l)
      decimal
      two_uplinks
      (1 ∷ 3 ∷ 2 ∷ [])
      (select_one int_of uplinks (λ l. l) decimal two_uplinks (1 ∷ 3 ∷ 2 ∷ []))
select_one-IsSelection_example =
    select_one-IsSelection int_of uplinks (λ l. l) decimal two_uplinks (1 ∷ 3 ∷ 2 ∷ [])
