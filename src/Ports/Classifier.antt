-- ===== src/Ports/Classifier.antt =====
-- The released QoS classifier text of pairs.py, read into QosClassifier of models/switch.py.
pub mod Bounds
pub mod Groups
pub mod Keys
use testprotocols.Prelude.{
  ℕ, ◌+◌, ◌&&◌, ◌||◌, not, leb, Bool, false, Option, none, some, List, [], ◌∷◌, ◌++◌, if◌then◌else◌,
}
use testprotocols.Prelude.Text.{lower, codes, strip, number_from}
use testprotocols.Prelude.Text.Split.{text_eq, split_at, partition_at}
use testprotocols.Exec.{Outcome, ret, exc, out_of_fuel}
use testprotocols.Exec.Failure.{value_error}
use testprotocols.Exec.Pure.{◌>>=◌}
use testprotocols.Ports.{
  RuleProtocol, tcp, udp, icmp, icmp6, any_protocol, PortRange, is_number, parse_range,
}

pub record QosClassifier : Type 0 where
  pub vlan : Option ℕ
  pub protocol : Option RuleProtocol
  pub src_ports : List PortRange
  pub dst_ports : List PortRange

abbrev max_vlan : ℕ
max_vlan = 4094

-- `_qos_vlan`
unfoldable pub qos_vlan : List ℕ → Outcome ℕ
qos_vlan value =
    if not (is_number value)
      || not (leb 1 (number_from 0 value) && leb (number_from 0 value) max_vlan)
    then exc value_error
    else ret (number_from 0 value)

-- `RuleProtocol(text)`
unfoldable pub rule_protocol : List ℕ → Outcome RuleProtocol
rule_protocol text =
    if text_eq text (codes "tcp")
    then ret tcp
    else if text_eq text (codes "udp")
    then ret udp
    else if text_eq text (codes "icmp")
    then ret icmp
    else if text_eq text (codes "icmp6")
    then ret icmp6
    else if text_eq text (codes "any")
    then ret any_protocol
    else exc value_error

-- `_QOS_KEYS`
abbrev pub qos_keys : List (List ℕ)
qos_keys =
    codes "vlan"
    ∷ codes "protocol"
    ∷ codes "srcPort"
    ∷ codes "srcPortRange"
    ∷ codes "dstPort"
    ∷ codes "dstPortRange"
    ∷ []

abbrev pub is_among : List ℕ → List (List ℕ) → Bool
is_among t [] = false
is_among t (u ∷ us) = text_eq u t || is_among t us

abbrev pub term_of : List ℕ × Option (List ℕ) → Option (List ℕ × List ℕ)
term_of (key, none) = none
term_of (key, some value) = if is_among key qos_keys then some (key, strip value) else none

-- A term of the text: its key and value, or nothing where there is no classifier.
unfoldable pub qos_term : List ℕ → Option (List ℕ × List ℕ)
unfolding partition_at
qos_term term = term_of (partition_at b'=' (strip term))

abbrev pub cons_term :
    Option (List ℕ × List ℕ) → Option (List (List ℕ × List ℕ)) → Option (List (List ℕ × List ℕ))
cons_term (some term) (some terms) = some (term ∷ terms)
cons_term _ _ = none

unfoldable pub qos_terms : List (List ℕ) → Option (List (List ℕ × List ℕ))
unfolding qos_term
qos_terms [] = some []
qos_terms (term ∷ terms) = cons_term (qos_term term) (qos_terms terms)

-- `text.removesuffix(suffix)`, of a suffix that is not empty.
unfoldable pub remove_suffix : List ℕ → List ℕ → List ℕ
remove_suffix suffix [] = []
remove_suffix suffix (c ∷ t) =
    let rest = remove_suffix suffix t in if text_eq (c ∷ t) suffix then [] else c ∷ rest

abbrev pub group_of : List ℕ → List ℕ
group_of key = remove_suffix (codes "Range") key

abbrev pub value_of : List ℕ → List (List ℕ × List ℕ) → Option (List ℕ)
value_of key [] = none
value_of key ((k, value) ∷ seen) = if text_eq k key then some value else value_of key seen

abbrev pub is_seen : List ℕ → List (List ℕ × List ℕ) → Bool
is_seen key [] = false
is_seen key ((k, value) ∷ seen) = text_eq k key || is_seen key seen

-- The loop that fills `seen`.
unfoldable pub group_terms :
    List (List ℕ × List ℕ) → List (List ℕ × List ℕ) → Outcome (List (List ℕ × List ℕ))
unfolding remove_suffix
group_terms seen [] = ret seen
group_terms seen ((key, value) ∷ terms) =
    let rest = group_terms (seen ++ (group_of key, value) ∷ []) terms in
    if is_seen (group_of key) seen then exc value_error else rest

-- `read(seen[key]) if key in seen else unset`
abbrev pub read_seen : {A : Type 0} → (List ℕ → Outcome A) → A → Option (List ℕ) → Outcome A
read_seen read unset none = ret unset
read_seen read unset (some value) = read value

abbrev pub some_of : {A : Type 0} → Outcome A → Outcome (Option A)
some_of m = m >>= (λ a. ret (some a))

abbrev pub one_of : {A : Type 0} → Outcome A → Outcome (List A)
one_of m = m >>= (λ a. ret (a ∷ []))

-- The body of the `try`.
unfoldable pub read_classifier : List (List ℕ × List ℕ) → Outcome QosClassifier
unfolding qos_vlan rule_protocol parse_range
read_classifier seen = do
  vlan ← read_seen (λ value. some_of (qos_vlan value)) none (value_of (codes "vlan") seen)
  protocol ←
      read_seen (λ value. some_of (rule_protocol (lower value))) none
        (value_of (codes "protocol") seen)
  src ← read_seen (λ value. one_of (parse_range value)) [] (value_of (codes "srcPort") seen)
  dst ← read_seen (λ value. one_of (parse_range value)) [] (value_of (codes "dstPort") seen)
  ret (record { vlan = vlan; protocol = protocol; src_ports = src; dst_ports = dst })

-- `except ValueError: return None`
abbrev pub unspelled : Outcome QosClassifier → Outcome (Option QosClassifier)
unspelled (ret c) = ret (some c)
unspelled (exc value_error) = ret none
unspelled (exc e) = exc e
unspelled out_of_fuel = out_of_fuel

abbrev pub classify : Option (List (List ℕ × List ℕ)) → Outcome (Option QosClassifier)
classify none = ret none
classify (some terms) = group_terms [] terms >>= (λ seen. unspelled (read_classifier seen))

abbrev pub classify_body : List ℕ → Outcome (Option QosClassifier)
classify_body [] = ret none
classify_body (c ∷ t) = classify (qos_terms ((split_at b',' (c ∷ t)).0 ∷ (split_at b',' (c ∷ t)).1))

unfoldable pub parse_qos_classifier : List ℕ → Outcome (Option QosClassifier)
unfolding qos_terms group_terms read_classifier split_at
parse_qos_classifier text = classify_body (strip text)

-- A QoS rule's two forms.
pub record QosRule : Type 0 where
  pub match_text : Option (List ℕ)
  pub classifier : Option QosClassifier

abbrev parse_match : Option (List ℕ) → Outcome (Option QosClassifier)
parse_match (some text) = parse_qos_classifier text
parse_match none = ret none

abbrev classifier_or :
    Option QosClassifier → Outcome (Option QosClassifier) → Outcome (Option QosClassifier)
classifier_or (some c) parsed = ret (some c)
classifier_or none parsed = parsed

unfoldable pub qos_rule_classifier : QosRule → Outcome (Option QosClassifier)
unfolding parse_qos_classifier
qos_rule_classifier rule = classifier_or rule.classifier (parse_match rule.match_text)
