-- ===== src/Generators/Examples.antt =====
-- Witnesses for the traffic between two generators.
use testprotocols.Prelude.{ℕ, String, some, []}
use testprotocols.Prelude.Int.{pos}
use testprotocols.Exec.{Outcome, ret}
use testprotocols.Generators.{TrafficSpec, released_protocol, saturate_link}
use testprotocols.Generators.Saturation.{booking, Saturated, saturate_link-Saturated}

abbrev flow_one : TrafficSpec ℕ → Outcome String
flow_one spec = ret "flow-1"

abbrev flow_two : TrafficSpec ℕ → Outcome String
flow_two spec = ret "flow-2"

saturate_link-Saturated_example :
    let (r, flows) =
      saturate_link
        (λ w. (ret tt, w))
        (booking "10.1.0.5" flow_one (ret tt))
        (booking "10.2.0.5" flow_two (ret tt))
        40
        (some 8)
        (pos 0)
        (pos 120)
        released_protocol
        [] in
    Saturated {Results = Unit}
      (ret tt)
      "10.1.0.5"
      "10.2.0.5"
      flow_one
      flow_two
      (ret tt)
      40
      (some 8)
      (pos 0)
      (pos 120)
      released_protocol
      r
      flows
saturate_link-Saturated_example =
    saturate_link-Saturated (ret tt) "10.1.0.5" "10.2.0.5" flow_one flow_two (ret tt) 40 (some 8)
      (pos 0) (pos 120) released_protocol
