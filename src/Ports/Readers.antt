-- ===== src/Ports/Readers.antt =====
-- The readers of a record's pair of port fields agree on the forms that a driver may fill.
use testprotocols.Prelude.{◌≡◌, refl, Option, none, some, List, [], ◌∷◌, map, All, ℕ}
use testprotocols.Prelude.Text.{codes, strip, skip_space, rstrip}
use testprotocols.Prelude.Text.Split.{split_at, partition_at}
use testprotocols.Exec.{Outcome, ret}
use testprotocols.Ports.{
  PortRange, parse_range, parse_items, port_number, FirewallRule, NatRule, L3Rule, ports_of,
  parse_port_ranges, parse_nat_port_ranges, firewall_rule_dst_ports, nat_rule_dst_ports,
  nat_rule_translated_ports, l3_rule_src_ports, l3_rule_dst_ports, parse_items, split_at,
  parse_range, partition_at,
}
use testprotocols.Ports.Written.{Item, IsItem, ports_text, parse_port_ranges-ports_text}

-- Which fields of a pair a driver fills.
pub data Filled : Type 0 where
  typed_only text_only both_forms : Filled

-- The text field and the typed field.
abbrev pub text_form : Filled → List ℕ → Option (List ℕ)
text_form typed_only text = none
text_form text_only text = some text
text_form both_forms text = some text

abbrev pub typed_form : Filled → List PortRange → Option (List PortRange)
typed_form typed_only ranges = some ranges
typed_form text_only ranges = none
typed_form both_forms ranges = some ranges

ports_of-filled :
    (parse : List ℕ → Outcome (List PortRange)) (f : Filled) (ranges : List PortRange)
    (text : List ℕ) (unset : Option (List ℕ))
    → parse text ≡ ret ranges
    → ports_of parse (typed_form f ranges) (text_form f text) unset ≡ ret ranges
unfolding ports_of
ports_of-filled parse typed_only ranges text unset h = refl
ports_of-filled parse text_only ranges text unset h = h
ports_of-filled parse both_forms ranges text unset h = refl

-- A nonempty text is read the same by both parsers.
parse_nat_lem :
    (text : List ℕ) (r : PortRange) (rs : List PortRange)
    → parse_port_ranges text ≡ ret (r ∷ rs)
    → parse_nat_port_ranges text ≡ ret (r ∷ rs)
unfolding parse_nat_port_ranges parse_port_ranges parse_items split_at parse_range partition_at
    port_number strip skip_space rstrip
parse_nat_lem [] r rs h = cc h
parse_nat_lem (c ∷ t) r rs h = h

abbrev pub ranges_of : Item → List Item → List PortRange
ranges_of i items = i.range ∷ map (λ j. j.range) items

-- Records whose first pair of fields is filled with the items of `i`, and the second with those of `j`.
abbrev pub firewall_rule : Filled → Item → List Item → FirewallRule
firewall_rule f i items = record {
  dst_port = text_form f (ports_text i items);
  dst_ports = typed_form f (ranges_of i items);
}

abbrev pub nat_rule :
    (f g : Filled) (i : Item) (items : List Item) (j : Item) (others : List Item) → NatRule
nat_rule f g i items j others = record {
  dst_port = text_form f (ports_text i items);
  dst_ports = typed_form f (ranges_of i items);
  translated_port = text_form g (ports_text j others);
  translated_ports = typed_form g (ranges_of j others);
}

abbrev pub with_ports :
    L3Rule → (f g : Filled) (i : Item) (items : List Item) (j : Item) (others : List Item) → L3Rule
with_ports rule f g i items j others = record {
  action = rule.action;
  protocol = rule.protocol;
  src_cidr = rule.src_cidr;
  src_port = text_form f (ports_text i items);
  dst_cidr = rule.dst_cidr;
  dst_port = text_form g (ports_text j others);
  comment = rule.comment;
  syslog_enabled = rule.syslog_enabled;
  src_ports = typed_form f (ranges_of i items);
  dst_ports = typed_form g (ranges_of j others);
}

-- A driver may fill the typed field of a pair with ranges in 1-65535, its text field with the same
-- ranges written out, or both: each of the five readers gives those ranges.
pub readers-agree :
    (f g : Filled) (i : Item) (items : List Item) (j : Item) (others : List Item) (rule : L3Rule)
    → IsItem i
    → All IsItem items
    → IsItem j
    → All IsItem others
    → (firewall_rule_dst_ports (firewall_rule f i items) ≡ ret (ranges_of i items))
      × (nat_rule_dst_ports (nat_rule f g i items j others) ≡ ret (ranges_of i items))
      × (nat_rule_translated_ports (nat_rule f g i items j others) ≡ ret (ranges_of j others))
      × (l3_rule_src_ports (with_ports rule f g i items j others) ≡ ret (ranges_of i items))
      × (l3_rule_dst_ports (with_ports rule f g i items j others) ≡ ret (ranges_of j others))
unfolding firewall_rule_dst_ports nat_rule_dst_ports nat_rule_translated_ports l3_rule_src_ports
    l3_rule_dst_ports
readers-agree f g i items j others rule h hs k ks =
    let first = parse_port_ranges-ports_text i items h hs in
    let second = parse_port_ranges-ports_text j others k ks in
    (
      ports_of-filled parse_port_ranges f (ranges_of i items) (ports_text i items) none first,
      ports_of-filled parse_nat_port_ranges f (ranges_of i items) (ports_text i items) (some [])
          (parse_nat_lem (ports_text i items) i.range (map (λ m. m.range) items) first),
      ports_of-filled parse_nat_port_ranges g (ranges_of j others) (ports_text j others) (some [])
          (parse_nat_lem (ports_text j others) j.range (map (λ m. m.range) others) second),
      ports_of-filled parse_port_ranges f (ranges_of i items) (ports_text i items)
          (some (codes "any")) first,
      ports_of-filled parse_port_ranges g (ranges_of j others) (ports_text j others)
          (some (codes "any")) second,
    )
