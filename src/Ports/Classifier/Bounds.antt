-- ===== src/Ports/Classifier/Bounds.antt =====
-- What `parse_qos_classifier` returns is a classifier that a QoS rule may hold.
use testprotocols.Prelude.{
  ℕ, ◌≤◌, ◌≡◌, refl, inl, inr, not, ◌&&◌, ◌||◌, Option, none, some, List, [], ◌∷◌, ◌++◌, arith, leb,
  Bool-cases, length, All,
}
use testprotocols.Prelude.Text.{lower, codes, strip, number_from}
use testprotocols.Prelude.Text.Split.{split_at}
use testprotocols.Exec.{Outcome, ret, exc, out_of_fuel}
use testprotocols.Exec.Failure.{value_error}
use testprotocols.Ports.{PortRange, is_number, parse_range}
use testprotocols.Ports.Bounds.{InRange, Parsed, Parsed-bind, Parsed-if, parse_range-InRange}
use testprotocols.Ports.Classifier.{
  QosClassifier, qos_vlan, rule_protocol, read_seen, some_of, one_of, value_of, read_classifier,
  unspelled, classify, classify_body, group_terms, parse_qos_classifier, qos_terms, is_seen,
  group_of, max_vlan,
}

-- `vlan` is `1` to `4094`; at most one source and one destination range, within the ports.
pub record IsQosClassifier (c : QosClassifier) : Type 0 where
  pub vlan_in_range : (v : ℕ) → c.vlan ≡ some v → (1 ≤ v) × (v ≤ 4094)
  pub src_in_range : All InRange c.src_ports
  pub one_src : length c.src_ports ≤ 1
  pub dst_in_range : All InRange c.dst_ports
  pub one_dst : length c.dst_ports ≤ 1

abbrev IsVlan : Option ℕ → Type 0
IsVlan o = (v : ℕ) → o ≡ some v → (1 ≤ v) × (v ≤ 4094)

abbrev AtMostOne : List PortRange → Type 0
AtMostOne ranges = All InRange ranges × (length ranges ≤ 1)

abbrev Anything : {A : Type 0} → A → Type 0
Anything a = Unit

abbrev pub Classified : Option QosClassifier → Type 0
Classified none = Unit
Classified (some c) = IsQosClassifier c

qos_vlan-IsVlan : (value : List ℕ) → Parsed IsVlan (some_of (qos_vlan value))
unfolding qos_vlan
qos_vlan-IsVlan value =
    let n = number_from 0 value in
    elim (Bool-cases (not (is_number value) || not (leb 1 n && leb n max_vlan))) [
      | inl bad ↦ rw bad refl
      | inr good ↦ rw good (λ v e. ground arith)
    ]

one_of-AtMostOne : (m : Outcome PortRange) → Parsed InRange m → Parsed AtMostOne (one_of m)
one_of-AtMostOne (ret r) h = ((h, tt), omega arith)
one_of-AtMostOne (exc e) h = h
one_of-AtMostOne out_of_fuel h = elim h [ ]

rule_protocol-Parsed : (text : List ℕ) → Parsed Anything (some_of (rule_protocol text))
unfolding rule_protocol
rule_protocol-Parsed text = ground arith

read_seen-Parsed :
    {A : Type 0} (P : A → Type 0) (read : List ℕ → Outcome A) (unset : A) (o : Option (List ℕ))
    → ((value : List ℕ) → Parsed P (read value))
    → P unset
    → Parsed P (read_seen read unset o)
read_seen-Parsed P read unset none h k = k
read_seen-Parsed P read unset (some value) h k = h value

ports-Parsed :
    (o : Option (List ℕ)) → Parsed AtMostOne (read_seen (λ value. one_of (parse_range value)) [] o)
ports-Parsed o =
    read_seen-Parsed AtMostOne (λ value. one_of (parse_range value)) [] o
      (λ value. one_of-AtMostOne (parse_range value) (parse_range-InRange value)) (tt, omega arith)

pub read_classifier-Parsed :
    (seen : List (List ℕ × List ℕ)) → Parsed IsQosClassifier (read_classifier seen)
unfolding read_classifier
read_classifier-Parsed seen =
    let vlan = value_of (codes "vlan") seen in
    let protocol = value_of (codes "protocol") seen in
    let src = value_of (codes "srcPort") seen in
    let dst = value_of (codes "dstPort") seen in
    Parsed-bind IsVlan IsQosClassifier (read_seen (λ value. some_of (qos_vlan value)) none vlan) _
      (read_seen-Parsed IsVlan (λ value. some_of (qos_vlan value)) none vlan qos_vlan-IsVlan
        (λ v e. cc))
      (λ v hv.
        Parsed-bind Anything IsQosClassifier
          (read_seen (λ value. some_of (rule_protocol (lower value))) none protocol) _
          (read_seen-Parsed Anything (λ value. some_of (rule_protocol (lower value))) none protocol
            (λ value. rule_protocol-Parsed (lower value)) tt)
          (λ p hp.
            Parsed-bind AtMostOne IsQosClassifier
              (read_seen (λ value. one_of (parse_range value)) [] src) _ (ports-Parsed src)
              (λ s hs.
                Parsed-bind AtMostOne IsQosClassifier
                  (read_seen (λ value. one_of (parse_range value)) [] dst) _ (ports-Parsed dst)
                  (λ d hd. record {
                    vlan_in_range = hv;
                    src_in_range = hs.0;
                    one_src = hs.1;
                    dst_in_range = hd.0;
                    one_dst = hd.1;
                  }))))

pub unspelled-Parsed :
    (m : Outcome QosClassifier) → Parsed IsQosClassifier m → Parsed Classified (unspelled m)
unspelled-Parsed (ret c) h = h
unspelled-Parsed (exc value_error) h = tt
unspelled-Parsed (exc e) h = h
unspelled-Parsed out_of_fuel h = h

group_terms-Parsed :
    (seen terms : List (List ℕ × List ℕ)) → Parsed Anything (group_terms seen terms)
unfolding group_terms
group_terms-Parsed seen [] = tt
group_terms-Parsed seen ((key, value) ∷ terms) =
    Parsed-if Anything (is_seen (group_of key) seen) (exc value_error)
      (group_terms (seen ++ (group_of key, value) ∷ []) terms) (λ _. refl)
      (λ _. group_terms-Parsed (seen ++ (group_of key, value) ∷ []) terms)

classify-Parsed : (o : Option (List (List ℕ × List ℕ))) → Parsed Classified (classify o)
classify-Parsed none = tt
classify-Parsed (some terms) =
    Parsed-bind Anything Classified (group_terms [] terms) _ (group_terms-Parsed [] terms)
      (λ seen _. unspelled-Parsed (read_classifier seen) (read_classifier-Parsed seen))

classify_body-Parsed : (body : List ℕ) → Parsed Classified (classify_body body)
classify_body-Parsed [] = tt
classify_body-Parsed (c ∷ t) =
    classify-Parsed (qos_terms ((split_at b',' (c ∷ t)).0 ∷ (split_at b',' (c ∷ t)).1))

-- Of any text at all, `parse_qos_classifier` raises a `ValueError`, or returns nothing, or a classifier
-- whose VLAN is in 1-4094 and that has at most one source and one destination range, with
-- 1 ≤ first ≤ last ≤ 65535.
pub parse_qos_classifier-Classified :
    (text : List ℕ) → Parsed Classified (parse_qos_classifier text)
unfolding parse_qos_classifier
parse_qos_classifier-Classified text = classify_body-Parsed (strip text)
