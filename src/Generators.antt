-- ===== src/Generators.antt =====
-- packages/testoperations/src/testoperations/iperf_generator.py: traffic between two generators, over the
-- generators' capability and models/traffic.py of testprotocols.
pub mod Saturation
mod Examples
use testprotocols.Prelude.{
  ℕ, String, true, Option, none, some, List, [], ◌∷◌, str_eq, if◌then◌else◌,
}
use testprotocols.Prelude.Int.{ℤ, pos}
use testprotocols.Prelude.Text.{codes}
use testprotocols.Compat.Coerce.{EnumType, str_enum, Given, text_given, coerce_enum}
use testprotocols.Exec.{Action, pure, raise, ◌>>=◌, ◌>>◌}
use testprotocols.Exec.Failure.{value_error}

pub data TransportProtocol : Type 0 where
  tcp udp : TransportProtocol

abbrev pub protocol_texts : List (List ℕ × TransportProtocol)
protocol_texts = (codes "tcp", tcp) ∷ (codes "udp", udp) ∷ []

abbrev pub transport_protocols : EnumType TransportProtocol
transport_protocols = str_enum protocol_texts

-- `Mbps` is a float, which is passed on. The fields that have their defaults here are left out.
pub record TrafficSpec (Mbps : Type 0) : Type 0 where
  pub destination : String
  pub bandwidth_mbps : Mbps
  pub protocol : TransportProtocol
  pub dscp : ℤ
  pub duration_s : ℤ

-- `Results` is what `stop_all_traffic` returns.
pub record IperfGenerator (W Mbps Results : Type 0) : Type 0 where
  pub server_ip : String
  pub start_traffic : TrafficSpec Mbps → Action W String
  pub stop_all_traffic : Action W Results

-- The ids of the two flows.
pub record FlowPair : Type 0 where
  pub a_to_b : String
  pub b_to_a : String

abbrev pub released_pair : FlowPair → List (String × String)
released_pair self = ("a_to_b", self.a_to_b) ∷ ("b_to_a", self.b_to_a) ∷ []

-- `_UDP`, the released default
abbrev pub released_protocol : Given TransportProtocol
released_protocol = text_given (codes "udp") true

abbrev pub or_same : {Mbps : Type 0} → Mbps → Option Mbps → Mbps
or_same a_to_b_mbps none = a_to_b_mbps
or_same a_to_b_mbps (some b_to_a_mbps) = b_to_a_mbps

module _ {W Mbps Results : Type 0} where
  unfoldable pub flow_spec :
      (destination_peer : IperfGenerator W Mbps Results)
      → Mbps
      → (dscp duration_s : ℤ) → TransportProtocol
      → TrafficSpec Mbps
  flow_spec destination_peer bandwidth_mbps dscp duration_s protocol = record {
    destination = destination_peer.server_ip;
    bandwidth_mbps = bandwidth_mbps;
    protocol = protocol;
    dscp = dscp;
    duration_s = duration_s;
  }

  unfoldable pub assert_distinct_peers :
      (peer_a peer_b : IperfGenerator W Mbps Results) → Action W (Unit {0})
  assert_distinct_peers peer_a peer_b =
      if str_eq peer_a.server_ip peer_b.server_ip then raise value_error else pure tt

  -- `warn` is `warnings.warn`.
  unfoldable pub saturate_link :
      (warn : Action W (Unit {0})) (peer_a peer_b : IperfGenerator W Mbps Results)
      (a_to_b_mbps : Mbps) (b_to_a_mbps : Option Mbps) (dscp duration_s : ℤ)
      → Given TransportProtocol
      → Action W FlowPair
  unfolding flow_spec assert_distinct_peers coerce_enum
  saturate_link warn peer_a peer_b a_to_b_mbps b_to_a_mbps dscp duration_s given = do
    _ ← assert_distinct_peers peer_a peer_b
    protocol ← coerce_enum warn transport_protocols given
    a_to_b ← peer_a.start_traffic (flow_spec peer_b a_to_b_mbps dscp duration_s protocol)
    b_to_a ←
        peer_b.start_traffic
          (flow_spec peer_a (or_same a_to_b_mbps b_to_a_mbps) dscp duration_s protocol)
    pure (record { a_to_b = a_to_b; b_to_a = b_to_a })

  unfoldable pub stop_all_generators :
      List (IperfGenerator W Mbps Results) → Action W (List Results)
  stop_all_generators [] = pure []
  stop_all_generators (gen ∷ generators) = do
    stopped ← gen.stop_all_traffic
    results ← stop_all_generators generators
    pure (stopped ∷ results)
