-- ===== src/Segmentation/Examples.antt =====
-- Witnesses for the segmentation operations.
use testprotocols.Prelude.{
  ℕ, ◌+◌, ◌≤◌, ◌≡◌, refl, subst, ◌≢◌, true, Option, none, some, List, [], ◌∷◌, arith, false,
}
use testprotocols.Prelude.Text.{codes}
use testprotocols.Ports.{L3Rule, deny, RuleProtocol, tcp, icmp}
use testprotocols.Segmentation.{SpokeCandidate, select_roles, build_deny_rule, find_matching_deny}
use testprotocols.Segmentation.Roles.{RolesOf, select_roles-RolesOf}
use testprotocols.Segmentation.Roles.Order.{exchanged, select_roles-Rediscovered}
use testprotocols.Segmentation.Deny.Build.{Built, build_deny_rule-Built}
use testprotocols.Compat.Coerce.{text_given, member_given}
use testprotocols.Exec.{ret, Action}
use testprotocols.Exec.Post.{Post}
use testprotocols.Segmentation.Deny.{FoundDeny, find_matching_deny-FoundDeny}
use testprotocols.Segmentation.Decoy.{Network, v4, decoy_first, derive_decoy_target}
use testprotocols.Segmentation.Decoy.Collisions.{WellFormed, Derived, derive_decoy_target-Derived}

abbrev spoke : (name mx_model hub : List ℕ) → SpokeCandidate
spoke name mx_model hub = record { name = name; mx_model = mx_model; hub = hub; subnet = [] }

abbrev paris : SpokeCandidate
paris = spoke (codes "paris") (codes "MX68") (codes "hub1")

abbrev oslo : SpokeCandidate
oslo = spoke (codes "oslo") (codes "MX85") (codes "hub1")

abbrev bern : SpokeCandidate
bern = spoke (codes "bern") (codes "MX68") (codes "hub1")

select_roles-RolesOf_example :
    RolesOf
      (codes "MX68")
      (paris ∷ oslo ∷ bern ∷ [])
      (select_roles (paris ∷ oslo ∷ bern ∷ []) (codes "MX68"))
select_roles-RolesOf_example = select_roles-RolesOf (paris ∷ oslo ∷ bern ∷ []) (codes "MX68")

paris_not_oslo : codes "paris" ≢ codes "oslo"
paris_not_oslo e = cc

select_roles-Rediscovered_example :
    select_roles (paris ∷ oslo ∷ bern ∷ []) (codes "MX68")
    ≡ select_roles (oslo ∷ paris ∷ bern ∷ []) (codes "MX68")
select_roles-Rediscovered_example =
    select_roles-Rediscovered (paris ∷ oslo ∷ bern ∷ []) (oslo ∷ paris ∷ bern ∷ []) (codes "MX68")
      (exchanged paris oslo paris_not_oslo)

abbrev rule_of : RuleProtocol → L3Rule
rule_of protocol = record {
  action = deny;
  protocol = protocol;
  src_cidr = codes "10.0.0.0/24";
  src_port = some (codes "any");
  dst_cidr = codes "10.1.0.0/24";
  dst_port = some (codes "any");
  comment = [];
  syslog_enabled = true;
  src_ports = some [];
  dst_ports = some [];
}

find_matching_deny-FoundDeny_example :
    FoundDeny icmp (codes "10.0.0.0/24") (codes "10.1.0.0/24") (rule_of tcp ∷ rule_of icmp ∷ []) (
      find_matching_deny
        (rule_of tcp ∷ rule_of icmp ∷ [])
        icmp
        (codes "10.0.0.0/24")
        (codes "10.1.0.0/24"))
find_matching_deny-FoundDeny_example =
    find_matching_deny-FoundDeny (rule_of tcp ∷ rule_of icmp ∷ []) icmp (codes "10.0.0.0/24")
      (codes "10.1.0.0/24")

abbrev quiet : Action ℕ (Unit {0})
quiet w = (ret tt, w)

build_deny_rule-Built_example :
    Post
      (build_deny_rule quiet
        (text_given (codes "host") false)
        (member_given icmp)
        (codes "10.0.0.0/24")
        (codes "10.0.0.5")
        (codes "10.1.0.0/24")
        (codes "10.1.0.5")
        []
        true)
      (λ r _.
        Built
          (text_given (codes "host") false)
          (member_given icmp)
          (codes "10.0.0.0/24")
          (codes "10.0.0.5")
          (codes "10.1.0.0/24")
          (codes "10.1.0.5")
          r)
      0
build_deny_rule-Built_example =
    build_deny_rule-Built (text_given (codes "host") false) (member_given icmp)
      (codes "10.0.0.0/24") (codes "10.0.0.5") (codes "10.1.0.0/24") (codes "10.1.0.5") quiet
      (λ w. refl) [] true 0

-- A reader of two networks: any text reads as one inside the decoy's range, or no text as none.
abbrev inside_decoy : List ℕ → Option Network
inside_decoy [] = none
inside_decoy (c ∷ t) = some (v4 (c ∷ t) decoy_first (decoy_first + 127))

abbrev IsOrdered : Option Network → Type 0
IsOrdered (some (v4 text first last)) = first ≤ last
IsOrdered _ = Unit

inside_decoy-WellFormed : WellFormed inside_decoy
inside_decoy-WellFormed [] text first last e = cc
inside_decoy-WellFormed (c ∷ t) text first last e = subst IsOrdered e (omega arith)

derive_decoy_target-Derived_example :
    Derived inside_decoy
      (codes "198.51.100.0/25" ∷ [])
      (derive_decoy_target inside_decoy (codes "198.51.100.0/25" ∷ []))
derive_decoy_target-Derived_example =
    derive_decoy_target-Derived inside_decoy (codes "198.51.100.0/25" ∷ []) inside_decoy-WellFormed
