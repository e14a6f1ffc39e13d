-- ===== src/Ports.antt =====
-- The released port texts of pairs.py, and PortRange of models/ports.py. Texts are lists of character
-- codes; the messages of errors are not kept.
pub mod Bounds
pub mod Written
pub mod Classifier
pub mod Readers
pub mod Timestamp
mod Examples
use testprotocols.Prelude.{
  ℕ, ◌==◌, ◌&&◌, ltb, leb, Bool, true, false, Option, none, some, List, [], ◌∷◌, ◌++◌,
  if◌then◌else◌,
}
use testprotocols.Prelude.Text.{codes, is_digit, strip, number_from, decimal}
use testprotocols.Prelude.Text.Split.{text_eq, split_at, partition_at}
use testprotocols.Exec.{Outcome, ret, exc}
use testprotocols.Exec.Failure.{value_error}
use testprotocols.Exec.Pure.{◌>>=◌}

pub record PortRange : Type 0 where
  pub first : ℕ
  pub last : ℕ

-- `PortRange.single`
abbrev pub single : ℕ → PortRange
single port = record { first = port; last = port }

-- `PortRange.__str__`
unfoldable pub show_range : PortRange → List ℕ
show_range r =
    if r.first == r.last then decimal r.first else decimal r.first ++ (b'-' ∷ decimal r.last)

abbrev max_port : ℕ
max_port = 65535

-- `text.isascii() and text.isdigit()`: no digits are no number.
unfoldable pub all_digits : List ℕ → Bool
all_digits [] = true
all_digits (c ∷ t) = is_digit c && all_digits t

abbrev pub is_number : List ℕ → Bool
is_number [] = false
is_number (c ∷ t) = all_digits (c ∷ t)

-- `_port_number`
unfoldable pub port_number : List ℕ → Outcome ℕ
unfolding all_digits
port_number text =
    if is_number text
    then (if leb 1 (number_from 0 text) && leb (number_from 0 text) max_port
        then ret (number_from 0 text)
        else exc value_error)
    else exc value_error

-- `_port_range`
unfoldable pub port_range : ℕ → ℕ → Outcome PortRange
port_range first last =
    if ltb last first then exc value_error else ret (record { first = first; last = last })

-- The end of a range: the number behind the dash, or the first number again.
abbrev last_port : ℕ → Option (List ℕ) → Outcome ℕ
last_port low none = ret low
last_port low (some last) = port_number last

-- `_qos_port`, and the body of the loop of `parse_port_ranges` behind `strip`
unfoldable pub parse_range : List ℕ → Outcome PortRange
unfolding port_number port_range partition_at
parse_range text = do
  low ← port_number (partition_at b'-' text).0
  high ← last_port low (partition_at b'-' text).1
  port_range low high

-- The loop over the items.
unfoldable pub parse_items : List (List ℕ) → Outcome (List PortRange)
unfolding parse_range
parse_items [] = ret []
parse_items (item ∷ items) = do
  range ← parse_range (strip item)
  ranges ← parse_items items
  ret (range ∷ ranges)

unfoldable pub parse_port_ranges : List ℕ → Outcome (List PortRange)
unfolding parse_items split_at
parse_port_ranges text =
    if text_eq text (codes "any")
    then ret []
    else parse_items ((split_at b',' text).0 ∷ (split_at b',' text).1)

unfoldable pub parse_nat_port_ranges : List ℕ → Outcome (List PortRange)
unfolding parse_port_ranges
parse_nat_port_ranges [] = ret []
parse_nat_port_ranges (c ∷ t) = parse_port_ranges (c ∷ t)

-- `_ports_of`; `unset` is `none` where the released field was required.
unfoldable pub ports_of :
    (List ℕ → Outcome (List PortRange))
    → (typed : Option (List PortRange)) → (text : Option (List ℕ)) → (unset : Option (List ℕ))
    → Outcome (List PortRange)
ports_of parse (some typed) text unset = ret typed
ports_of parse none (some text) unset = parse text
ports_of parse none none (some text) = parse text
ports_of parse none none none = exc value_error

-- Of FirewallRule and NatRule the pairs of port fields: no code here reads the others.
pub record FirewallRule : Type 0 where
  pub dst_port : Option (List ℕ)
  pub dst_ports : Option (List PortRange)

pub record NatRule : Type 0 where
  pub dst_port : Option (List ℕ)
  pub dst_ports : Option (List PortRange)
  pub translated_port : Option (List ℕ)
  pub translated_ports : Option (List PortRange)

pub data RuleAction : Type 0 where
  allow deny : RuleAction

pub data RuleProtocol : Type 0 where
  tcp udp icmp icmp6 any_protocol : RuleProtocol

-- Of `L3Rule`, the defaults are the callers' to write out.
pub record L3Rule : Type 0 where
  pub action : RuleAction
  pub protocol : RuleProtocol
  pub src_cidr : List ℕ
  pub src_port : Option (List ℕ)
  pub dst_cidr : List ℕ
  pub dst_port : Option (List ℕ)
  pub comment : List ℕ
  pub syslog_enabled : Bool
  pub src_ports : Option (List PortRange)
  pub dst_ports : Option (List PortRange)

unfoldable pub firewall_rule_dst_ports : FirewallRule → Outcome (List PortRange)
unfolding ports_of
firewall_rule_dst_ports rule = ports_of parse_port_ranges rule.dst_ports rule.dst_port none

unfoldable pub nat_rule_dst_ports : NatRule → Outcome (List PortRange)
unfolding ports_of
nat_rule_dst_ports rule = ports_of parse_nat_port_ranges rule.dst_ports rule.dst_port (some [])

unfoldable pub nat_rule_translated_ports : NatRule → Outcome (List PortRange)
unfolding ports_of
nat_rule_translated_ports rule =
    ports_of parse_nat_port_ranges rule.translated_ports rule.translated_port (some [])

unfoldable pub l3_rule_src_ports : L3Rule → Outcome (List PortRange)
unfolding ports_of
l3_rule_src_ports rule =
    ports_of parse_port_ranges rule.src_ports rule.src_port (some (codes "any"))

unfoldable pub l3_rule_dst_ports : L3Rule → Outcome (List PortRange)
unfolding ports_of
l3_rule_dst_ports rule =
    ports_of parse_port_ranges rule.dst_ports rule.dst_port (some (codes "any"))
