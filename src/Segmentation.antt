-- ===== src/Segmentation.antt =====
-- packages/testoperations/src/testoperations/segmentation.py: the roles of a segmentation test, its
-- deny rule and the decoy target.
pub mod Roles
pub mod Deny
pub mod Decoy
mod Examples
use testprotocols.Prelude.Text.{codes}
use testprotocols.Prelude.{
  ℕ, zero, suc, ◌+◌, ◌-◌, ◌*◌, ◌≤◌, ◌<◌, String, ◌≡◌, refl, sym, ap, ◌∙◌, subst, ◌≢◌, ◌↔◌, ◌⊎◌, inl,
  inr, Bool, true, false, not, ◌&&◌, ◌||◌, Option, none, some, List, [], ◌∷◌, ◌++◌, map, append-nil,
  append_assoc, arith, eq_iff, eq_refl, str_eq, ltb, leb, ◌==◌, if◌then◌else◌, Bool-cases,
  Option-cases, length, All, length-append, length-map, All-append,
}
use testprotocols.Prelude.Text.Order.{text_leb}
use testprotocols.Prelude.Text.Split.{text_eq}
use testprotocols.Ports.{
  L3Rule, RuleAction, allow, deny, RuleProtocol, tcp, udp, icmp, icmp6, any_protocol,
}
use testprotocols.Compat.Coerce.{EnumType, str_enum, Given, coerce_enum}
use testprotocols.Exec.{Outcome, ret, exc, Action, pure, ◌>>=◌}

pub data DenyScope : Type 0 where
  host subnet : DenyScope

pub record SpokeCandidate : Type 0 where
  pub name : List ℕ
  pub mx_model : List ℕ
  pub hub : List ℕ
  pub subnet : List ℕ

pub record RoleAssignment : Type 0 where
  pub source : SpokeCandidate
  pub destination : SpokeCandidate
  pub control : SpokeCandidate

-- What `select_roles` returns, or why it raises `NoEligibleSelectionError`: no spoke of the model, or
-- too few peers, which are named.
pub data Selection : Type 0 where
  assigned : RoleAssignment → Selection
  no_such_model : Selection
  too_few_peers : (found : List (List ℕ)) → Selection

-- `sorted(candidates, key=lambda c: c.name)`, which keeps the order of equal names.
unfoldable pub insert_by_name : SpokeCandidate → List SpokeCandidate → List SpokeCandidate
insert_by_name c [] = c ∷ []
insert_by_name c (d ∷ ds) =
    let rest = insert_by_name c ds in if text_leb c.name d.name then c ∷ d ∷ ds else d ∷ rest

unfoldable pub sort_by_name : List SpokeCandidate → List SpokeCandidate
unfolding insert_by_name
sort_by_name [] = []
sort_by_name (c ∷ cs) = insert_by_name c (sort_by_name cs)

abbrev pub onto_others :
    SpokeCandidate
    → Option (SpokeCandidate × List SpokeCandidate)
    → Option (SpokeCandidate × List SpokeCandidate)
onto_others c none = none
onto_others c (some (source, others)) = some (source, c ∷ others)

-- The first spoke of the model, and the other spokes in order. The candidates are distinct objects,
-- which `c is not source` tells apart.
unfoldable pub find_source :
    List ℕ → List SpokeCandidate → Option (SpokeCandidate × List SpokeCandidate)
find_source model [] = none
find_source model (c ∷ cs) =
    let rest = onto_others c (find_source model cs) in
    if text_eq c.mx_model model then some (c, cs) else rest

unfoldable pub peers_of : List ℕ → List SpokeCandidate → List SpokeCandidate
peers_of hub [] = []
peers_of hub (c ∷ cs) = let rest = peers_of hub cs in if text_eq c.hub hub then c ∷ rest else rest

abbrev pub assign_roles : SpokeCandidate → List SpokeCandidate → Selection
assign_roles source (destination ∷ control ∷ more) =
    assigned (record { source = source; destination = destination; control = control })
assign_roles source peers = too_few_peers (map (λ p. p.name) peers)

abbrev pub roles_from : Option (SpokeCandidate × List SpokeCandidate) → Selection
roles_from none = no_such_model
roles_from (some (source, others)) = assign_roles source (peers_of source.hub others)

unfoldable pub select_roles : List SpokeCandidate → (source_mx_model : List ℕ) → Selection
unfolding sort_by_name find_source peers_of
select_roles candidates source_mx_model =
    roles_from (find_source source_mx_model (sort_by_name candidates))

abbrev pub deny_scopes : EnumType DenyScope
deny_scopes = str_enum ((codes "host", host) ∷ (codes "subnet", subnet) ∷ [])

abbrev pub rule_protocols : EnumType RuleProtocol
rule_protocols = str_enum (
    (codes "tcp", tcp)
    ∷ (codes "udp", udp)
    ∷ (codes "icmp", icmp)
    ∷ (codes "icmp6", icmp6)
    ∷ (codes "any", any_protocol)
    ∷ [])

-- The CIDR of a rule: one host, or the subnet.
abbrev pub cidr_of : DenyScope → (subnet_cidr host_address : List ℕ) → List ℕ
cidr_of host subnet_cidr host_address = host_address ++ codes "/32"
cidr_of subnet subnet_cidr host_address = subnet_cidr

module _ {W : Type 0} where
  unfoldable pub build_deny_rule :
      (warn : Action W (Unit {0}))
      → (scope : Given DenyScope) → (proto : Given RuleProtocol)
      → (source_subnet source_host dest_subnet dest_host comment : List ℕ) → (syslog_enabled : Bool)
      → Action W L3Rule
  unfolding coerce_enum
  build_deny_rule warn scope proto source_subnet source_host dest_subnet dest_host comment
        syslog_enabled =
      do
        width ← coerce_enum warn deny_scopes scope
        protocol ← coerce_enum warn rule_protocols proto
        pure (record {
          action = deny;
          protocol = protocol;
          src_cidr = cidr_of width source_subnet source_host;
          src_port = some (codes "any");
          dst_cidr = cidr_of width dest_subnet dest_host;
          dst_port = some (codes "any");
          comment = comment;
          syslog_enabled = syslog_enabled;
          src_ports = some [];
          dst_ports = some [];
        })

abbrev is_deny : RuleAction → Bool
is_deny allow = false
is_deny deny = true

abbrev pub protocol_text : RuleProtocol → List ℕ
protocol_text tcp = codes "tcp"
protocol_text udp = codes "udp"
protocol_text icmp = codes "icmp"
protocol_text icmp6 = codes "icmp6"
protocol_text any_protocol = codes "any"

-- Members of a `StrEnum` compare as their texts.
abbrev protocol_eq : RuleProtocol → RuleProtocol → Bool
protocol_eq p q = text_eq (protocol_text p) (protocol_text q)

-- The condition of the loop.
unfoldable pub denies : RuleProtocol → (src_cidr dst_cidr : List ℕ) → L3Rule → Bool
denies protocol src_cidr dst_cidr rule =
    is_deny rule.action
    && protocol_eq rule.protocol protocol
    && text_eq rule.src_cidr src_cidr
    && text_eq rule.dst_cidr dst_cidr

unfoldable pub find_matching_deny :
    List L3Rule → RuleProtocol → (src_cidr dst_cidr : List ℕ) → Option L3Rule
unfolding denies
find_matching_deny [] protocol src_cidr dst_cidr = none
find_matching_deny (rule ∷ rules) protocol src_cidr dst_cidr =
    let rest = find_matching_deny rules protocol src_cidr dst_cidr in
    if denies protocol src_cidr dst_cidr rule then some rule else rest
