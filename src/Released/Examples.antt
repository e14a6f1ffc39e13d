-- ===== src/Released/Examples.antt =====
-- Witnesses for the conversion of a record.
use testprotocols.Prelude.{◌≡◌, refl, List, [], ◌∷◌, ◌++◌, length}
use testprotocols.Exec.{Action, ret, pure, ◌>>◌}
use testprotocols.Released.{ReleasedUse, keys_call}
use testprotocols.Generators.{FlowPair, released_pair}
use testprotocols.Released.Conversion.{dict_of, warned_reads, dict_of-released}

-- A record of the warnings.
abbrev noted : ReleasedUse → Action (List ReleasedUse) (Unit {0})
noted use' uses = (ret tt, uses ++ use' ∷ [])

abbrev pair : FlowPair
pair = record { a_to_b = "flow-7"; b_to_a = "flow-9" }

dict_of-released_example :
    dict_of noted released_pair pair []
    ≡ (noted keys_call
          >> warned_reads noted released_pair
              (length (released_pair pair))
              (pure (released_pair pair)))
        []
dict_of-released_example = dict_of-released noted released_pair pair ((refl, tt), (tt, tt)) []
