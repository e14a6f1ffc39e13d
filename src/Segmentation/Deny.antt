-- ===== src/Segmentation/Deny.antt =====
-- A read of the policy for a deny rule.
pub mod Build
use testprotocols.Prelude.{
  ℕ, ◌≡◌, refl, sym, ap, ◌∙◌, inl, inr, true, false, Option, none, some, List, [], ◌∷◌, ◌++◌, arith,
  Bool-cases, All,
}
use testprotocols.Prelude.Text.Split.{text_eq_sound, text_eq_refl}
use testprotocols.Ports.{
  L3Rule, RuleAction, allow, deny, RuleProtocol, tcp, udp, icmp, icmp6, any_protocol,
}
use testprotocols.Ports.Classifier.{rule_protocol}
use testprotocols.Exec.{ret}
use testprotocols.Segmentation.{is_deny, protocol_text, protocol_eq, denies, find_matching_deny}

-- An active deny of the protocol between the networks.
abbrev pub IsDenyOf : RuleProtocol → (src_cidr dst_cidr : List ℕ) → L3Rule → Type 0
IsDenyOf protocol src_cidr dst_cidr r =
    (r.action ≡ deny) × (r.protocol ≡ protocol) × (r.src_cidr ≡ src_cidr) × (r.dst_cidr ≡ dst_cidr)

is_deny_sound : (a : RuleAction) → is_deny a ≡ true → a ≡ deny
is_deny_sound allow h = cc
is_deny_sound deny h = refl

rule_protocol-text : (p : RuleProtocol) → rule_protocol (protocol_text p) ≡ ret p
unfolding rule_protocol
rule_protocol-text tcp = refl
rule_protocol-text udp = refl
rule_protocol-text icmp = refl
rule_protocol-text icmp6 = refl
rule_protocol-text any_protocol = refl

protocol_eq_sound : (p q : RuleProtocol) → protocol_eq p q ≡ true → p ≡ q
protocol_eq_sound p q h = cc (
    sym (rule_protocol-text p)
    ∙ ap rule_protocol (text_eq_sound (protocol_text p) (protocol_text q) h)
    ∙ rule_protocol-text q)

protocol_eq_refl : (p : RuleProtocol) → protocol_eq p p ≡ true
protocol_eq_refl tcp = refl
protocol_eq_refl udp = refl
protocol_eq_refl icmp = refl
protocol_eq_refl icmp6 = refl
protocol_eq_refl any_protocol = refl

denies-IsDenyOf :
    (protocol : RuleProtocol) (src dst : List ℕ) (r : L3Rule)
    → denies protocol src dst r ≡ true
    → IsDenyOf protocol src dst r
unfolding denies
denies-IsDenyOf protocol src dst r h = (
  is_deny_sound r.action (ground (arith, h)),
  protocol_eq_sound r.protocol protocol (ground (arith, h)),
  text_eq_sound r.src_cidr src (ground (arith, h)),
  text_eq_sound r.dst_cidr dst (ground (arith, h)),
)

IsDenyOf-denies :
    (protocol : RuleProtocol) (src dst : List ℕ) (r : L3Rule)
    → IsDenyOf protocol src dst r
    → denies protocol src dst r ≡ true
unfolding denies
IsDenyOf-denies protocol src dst r h =
    rw (h.0, h.1, h.2, h.3, protocol_eq_refl protocol, text_eq_refl src, text_eq_refl dst) refl

-- What a read of the policy gives: the first deny of the kind, or nothing where there is none.
abbrev pub FoundDeny : RuleProtocol → (src dst : List ℕ) → List L3Rule → Option L3Rule → Type 0
FoundDeny protocol src dst rules none = All (λ r. ¬ IsDenyOf protocol src dst r) rules
FoundDeny protocol src dst rules (some found) =
    (before : List L3Rule) × (after : List L3Rule) × (rules ≡ before ++ found ∷ after)
    × IsDenyOf protocol src dst found
    × All (λ r. ¬ IsDenyOf protocol src dst r) before

FoundDeny-front :
    (protocol : RuleProtocol) (src dst : List ℕ) (r : L3Rule) (rules : List L3Rule)
    (o : Option L3Rule)
    → ¬ IsDenyOf protocol src dst r
    → FoundDeny protocol src dst rules o
    → FoundDeny protocol src dst (r ∷ rules) o
FoundDeny-front protocol src dst r rules none h k = (h, k)
FoundDeny-front protocol src dst r rules (some found) h
      (before, after, e, match_found, none_before) =
    (r ∷ before, after, ap (λ l. r ∷ l) e, match_found, (h, none_before))

not_denied :
    (protocol : RuleProtocol) (src dst : List ℕ) (r : L3Rule)
    → denies protocol src dst r ≡ false
    → ¬ IsDenyOf protocol src dst r
not_denied protocol src dst r h k = cc (sym h ∙ IsDenyOf-denies protocol src dst r k)

-- `find_matching_deny` returns the first rule of the policy that denies the protocol between the
-- networks, and nothing exactly where no rule does.
pub find_matching_deny-FoundDeny :
    (rules : List L3Rule) (protocol : RuleProtocol) (src dst : List ℕ)
    → FoundDeny protocol src dst rules (find_matching_deny rules protocol src dst)
unfolding find_matching_deny
find_matching_deny-FoundDeny [] protocol src dst = tt
find_matching_deny-FoundDeny (r ∷ rules) protocol src dst =
    elim (Bool-cases (denies protocol src dst r)) [
      | inl e ↦ rw e ([], rules, refl, denies-IsDenyOf protocol src dst r e, tt)
      | inr e ↦ rw e (
          FoundDeny-front protocol src dst r rules (find_matching_deny rules protocol src dst)
            (not_denied protocol src dst r e) (find_matching_deny-FoundDeny rules protocol src dst))
    ]
