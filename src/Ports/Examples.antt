-- ===== src/Ports/Examples.antt =====
-- Runs and witnesses for the port texts.
use testprotocols.Exec.{exc}
use testprotocols.Prelude.Text.{number_from}
use testprotocols.Exec.Failure.{value_error}
use testprotocols.Prelude.Text.{is_space}
use testprotocols.Ports.{
  L3Rule, deny, tcp, parse_port_ranges, firewall_rule_dst_ports, nat_rule_dst_ports,
  nat_rule_translated_ports, l3_rule_src_ports, l3_rule_dst_ports, some,
}
use testprotocols.Ports.Bounds.{InRange, Parsed, parse_port_ranges-InRange}
use testprotocols.Ports.Written.{Item, IsItem, ports_text, parse_port_ranges-ports_text}
use testprotocols.Ports.Readers.{
  text_only, both_forms, firewall_rule, nat_rule, with_ports, ranges_of, readers-agree,
}
use testprotocols.Ports.Classifier.{parse_qos_classifier}
use testprotocols.Ports.Classifier.Bounds.{Classified, parse_qos_classifier-Classified}
use testprotocols.Ports.Classifier.Keys.{keys_of, pieces_of, repeats_keys}
use testprotocols.Ports.Classifier.Groups.{raises, parse_qos_classifier-raises}
use testprotocols.Prelude.{ℕ, ◌≡◌, refl, true, none, List, [], ◌∷◌, arith, All}
use testprotocols.Prelude.Text.{codes, strip}
use testprotocols.Exec.{ret}

abbrev two_ranges : List ℕ
two_ranges = codes "22, 8000-8100"

parse_port_ranges-InRange_example : Parsed (All InRange) (parse_port_ranges two_ranges)
parse_port_ranges-InRange_example = parse_port_ranges-InRange two_ranges

abbrev ssh : Item
ssh = record { before = []; range = record { first = 22; last = 22 }; after = [] }

abbrev web : Item
web = record { before = b' ' ∷ []; range = record { first = 8000; last = 8100 }; after = [] }

ssh-IsItem : IsItem ssh
ssh-IsItem = record {
  blank_before = tt;
  in_range = record { positive = omega arith; ordered = omega arith; bounded = omega arith };
  blank_after = tt;
}

web-IsItem : IsItem web
unfolding is_space
web-IsItem = record {
  blank_before = (refl, tt);
  in_range = record { positive = omega arith; ordered = omega arith; bounded = omega arith };
  blank_after = tt;
}

parse_port_ranges-ports_text_example :
    parse_port_ranges (ports_text ssh (web ∷ [])) ≡ ret (ssh.range ∷ web.range ∷ [])
parse_port_ranges-ports_text_example =
    parse_port_ranges-ports_text ssh (web ∷ []) ssh-IsItem (web-IsItem, tt)

abbrev deny_rule : L3Rule
deny_rule = record {
  action = deny;
  protocol = tcp;
  src_cidr = codes "any";
  src_port = none;
  dst_cidr = codes "10.0.0.0/24";
  dst_port = none;
  comment = [];
  syslog_enabled = true;
  src_ports = none;
  dst_ports = none;
}

readers-agree_example :
    (firewall_rule_dst_ports (firewall_rule text_only ssh (web ∷ []))
      ≡ ret (ranges_of ssh (web ∷ [])))
    × (nat_rule_dst_ports (nat_rule text_only both_forms ssh (web ∷ []) web [])
        ≡ ret (ranges_of ssh (web ∷ [])))
    × (nat_rule_translated_ports (nat_rule text_only both_forms ssh (web ∷ []) web [])
        ≡ ret (ranges_of web []))
    × (l3_rule_src_ports (with_ports deny_rule text_only both_forms ssh (web ∷ []) web [])
        ≡ ret (ranges_of ssh (web ∷ [])))
    × (l3_rule_dst_ports (with_ports deny_rule text_only both_forms ssh (web ∷ []) web [])
        ≡ ret (ranges_of web []))
readers-agree_example =
    readers-agree text_only both_forms ssh (web ∷ []) web [] deny_rule ssh-IsItem (web-IsItem, tt)
      web-IsItem tt

abbrev web_classifier : List ℕ
web_classifier = codes " vlan=10, protocol=TCP, dstPortRange=8000-8100 "

parse_qos_classifier-Classified_example : Parsed Classified (parse_qos_classifier web_classifier)
parse_qos_classifier-Classified_example = parse_qos_classifier-Classified web_classifier

abbrev twice : List ℕ
twice = codes "dstPort=80, dstPortRange=8000-8100"

parse_qos_classifier-raises_example :
    raises (parse_qos_classifier twice) ≡ repeats_keys (keys_of (pieces_of twice))
parse_qos_classifier-raises_example = parse_qos_classifier-raises twice

-- The port and the range key of one direction are one group.
twice-raises : parse_qos_classifier twice ≡ exc value_error
unfolding parse_qos_classifier strip
twice-raises = refl

web_classifier-read :
    parse_qos_classifier web_classifier
    ≡ ret (
        some (record {
          vlan = some 10;
          protocol = some tcp;
          src_ports = [];
          dst_ports = record { first = 8000; last = 8100 } ∷ [];
        }))
unfolding parse_qos_classifier strip number_from
web_classifier-read = refl
