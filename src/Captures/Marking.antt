-- ===== src/Captures/Marking.antt =====
-- packages/testoperations/src/testoperations/marking_observation.py: how often each DSCP value occurs
-- among the frames of a flow. `ip_version` is `ipaddress.ip_address(text).version`, and nothing where
-- that raises a `ValueError`.
use testprotocols.Prelude.Text.{decimal, strip}
use testprotocols.Prelude.Text.Split.{text_eq, split_at}
pub mod Outermost
pub mod Histogram
use testprotocols.Prelude.{
  ℕ, zero, suc, ◌+◌, ◌-◌, ◌*◌, ◌≤◌, ◌<◌, String, ◌≡◌, refl, sym, ap, ◌∙◌, subst, ◌≢◌, ◌↔◌, ◌⊎◌, inl,
  inr, Bool, true, false, not, ◌&&◌, ◌||◌, Option, none, some, List, [], ◌∷◌, ◌++◌, map, append-nil,
  append_assoc, arith, eq_iff, eq_refl, str_eq, ltb, leb, ◌==◌, if◌then◌else◌, Bool-cases,
  Option-cases, length, All, length-append, length-map, All-append,
}
use testprotocols.Ports.{RuleProtocol, tcp, udp, icmp, icmp6, any_protocol}
use testprotocols.Captures.{PcapCapture, FieldRead, capture_shared_window, read_fields, codes}
use testprotocols.Exec.{
  Outcome, ret, exc, out_of_fuel, Action, pure, lift, map_outcome, ◌>>=◌, ◌>>◌,
}
use testprotocols.Exec.Pure.{combine}
use testprotocols.Exec.Failure.{value_error}
use testprotocols.Prelude.Text.Numeral.{int_of_text}
use testprotocols.Prelude.Int.{ℤ, eqb_ℤ}

-- `_PROTOCOL_TOKENS.get`
unfoldable pub protocol_token : RuleProtocol → Option (List ℕ)
protocol_token tcp = some (codes "tcp")
protocol_token udp = some (codes "udp")
protocol_token icmp = some (codes "icmp")
protocol_token icmp6 = some (codes "icmpv6")
protocol_token any_protocol = none

-- `_DSCP_FIELDS`
abbrev dscp_fields : List ℕ
dscp_fields =
    codes "-T fields -e ip.dsfield.dscp -e ipv6.tclass.dscp -e frame.protocols"
    ++ codes " -E occurrence=f -E separator=/t"

pub record FlowSelector : Type 0 where
  pub dst_host : List ℕ
  pub src_host : Option (List ℕ)
  pub protocol : Option RuleProtocol
  pub dst_port : Option ℕ

abbrev bears_ports : Option RuleProtocol → Bool
bears_ports (some tcp) = true
bears_ports (some udp) = true
bears_ports _ = false

abbrev port_is_clear : Option ℕ → Option RuleProtocol → Bool
port_is_clear none protocol = true
port_is_clear (some port) protocol = bears_ports protocol

abbrev token_of : Option RuleProtocol → Option (List ℕ)
token_of none = none
token_of (some protocol) = protocol_token protocol

-- `" and ".join(clauses)`, of one clause and the others.
unfoldable pub join_and : List ℕ → List (List ℕ) → List ℕ
join_and clause [] = clause
join_and clause (other ∷ clauses) = clause ++ (codes " and " ++ join_and other clauses)

module _ (ip_version : List ℕ → Option ℕ) where
  abbrev same_family : ℕ → Option (List ℕ) → Bool
  same_family version none = true
  same_family version (some src) = elim (ip_version src) [ none ↦ false | some w ↦ w == version ]

  abbrev hosts_are_clear : Option ℕ → Option (List ℕ) → Bool
  hosts_are_clear none src_host = false
  hosts_are_clear (some version) src_host = same_family version src_host

  -- `__post_init__`: the selector, or a `ValueError`.
  unfoldable pub make_selector : FlowSelector → Outcome FlowSelector
  make_selector flow =
      if port_is_clear flow.dst_port flow.protocol
        && hosts_are_clear (ip_version flow.dst_host) flow.src_host
      then ret flow
      else exc value_error

  abbrev host_field : ℕ → List ℕ
  host_field version = if version == 4 then codes "ip" else codes "ipv6"

  abbrev src_clause : List ℕ → Option (List ℕ) → List (List ℕ)
  src_clause field none = []
  src_clause field (some src) = (field ++ (codes ".src==" ++ src)) ∷ []

  abbrev transport_clauses : Option (List ℕ) → Option ℕ → List (List ℕ)
  transport_clauses none port = []
  transport_clauses (some token) none = token ∷ []
  transport_clauses (some token) (some port) =
      token ∷ (token ++ (codes ".dstport==" ++ decimal port)) ∷ []

  abbrev filter_of : FlowSelector → ℕ → List ℕ
  filter_of flow version = join_and (host_field version ++ (codes ".dst==" ++ flow.dst_host)) (
      src_clause (host_field version) flow.src_host
      ++ transport_clauses (token_of flow.protocol) flow.dst_port)

  abbrev filter_or_raise : FlowSelector → Option ℕ → Outcome (List ℕ)
  filter_or_raise flow none = exc value_error
  filter_or_raise flow (some version) = ret (filter_of flow version)

  -- `_flow_filter`
  unfoldable pub flow_filter : FlowSelector → Outcome (List ℕ)
  unfolding join_and protocol_token
  flow_filter flow = filter_or_raise flow (ip_version flow.dst_host)

  -- `reads`
  unfoldable pub flow_reads : List (List ℕ × FlowSelector) → Outcome (List FieldRead)
  unfolding flow_filter
  flow_reads [] = ret []
  flow_reads ((name, flow) ∷ flows) =
      combine (λ filter reads. record { display_filter = filter; field_args = dscp_fields } ∷ reads)
        (flow_filter flow) (flow_reads flows)

abbrev int_or_raise : Option ℤ → Outcome (Option ℤ)
int_or_raise none = exc value_error
int_or_raise (some n) = ret (some n)

abbrev pub dscp_int : List ℕ → Outcome (Option ℤ)
dscp_int text = int_or_raise (int_of_text text)

-- The first of the tokens that names an address family tells which header is outermost.
unfoldable pub outermost : (v4 v6 : List ℕ) → (tokens : List (List ℕ)) → Outcome (Option ℤ)
unfolding int_of_text
outermost v4 v6 [] = dscp_int v4
outermost v4 v6 (token ∷ tokens) =
    let rest = outermost v4 v6 tokens in
    if text_eq token (codes "ip")
    then dscp_int v4
    else if text_eq token (codes "ipv6")
    then dscp_int v6
    else rest

-- The columns are stripped.
unfoldable pub columns_dscp : (v4 v6 protocols : List ℕ) → Outcome (Option ℤ)
unfolding outermost split_at
columns_dscp [] [] protocols = ret none
columns_dscp [] (c ∷ v6) protocols = dscp_int (c ∷ v6)
columns_dscp (c ∷ v4) [] protocols = dscp_int (c ∷ v4)
columns_dscp (c ∷ v4) (d ∷ v6) protocols =
    outermost (c ∷ v4) (d ∷ v6) ((split_at b':' protocols).0 ∷ (split_at b':' protocols).1)

-- A column of the line, which is empty where the line has fewer.
abbrev pub column : ℕ → List (List ℕ) → List ℕ
column n [] = []
column zero (part ∷ parts) = strip part
column (suc n) (part ∷ parts) = column n parts

-- `_line_dscp`
unfoldable pub line_dscp : List ℕ → Outcome (Option ℤ)
unfolding columns_dscp
line_dscp line =
    let parts = (split_at 9 line).0 ∷ (split_at 9 line).1 in
    columns_dscp (column 0 parts) (column 1 parts) (column 2 parts)

-- `histogram[value] = histogram.get(value, 0) + 1`
unfoldable pub count_value : ℤ → List (ℤ × ℕ) → List (ℤ × ℕ)
count_value value [] = (value, 1) ∷ []
count_value value ((v, n) ∷ histogram) =
    let rest = count_value value histogram in
    if eqb_ℤ v value then (v, suc n) ∷ histogram else (v, n) ∷ rest

abbrev pub count_if : Option ℤ → List (ℤ × ℕ) → List (ℤ × ℕ)
count_if none histogram = histogram
count_if (some value) histogram = count_value value histogram

-- The loop over the lines.
unfoldable pub fill_histogram : List (ℤ × ℕ) → List (List ℕ) → Outcome (List (ℤ × ℕ))
unfolding line_dscp count_value
fill_histogram histogram [] = ret histogram
fill_histogram histogram (line ∷ lines) = elim (line_dscp line) [
  | ret value ↦ fill_histogram (count_if value histogram) lines
  | exc e ↦ exc e
  | out_of_fuel ↦ out_of_fuel
]

-- `zip(flows, outputs, strict=True)`
unfoldable pub fill_histograms :
    List (List ℕ × FlowSelector) → List (List (List ℕ)) → Outcome (List (List ℕ × List (ℤ × ℕ)))
unfolding fill_histogram
fill_histograms [] [] = ret []
fill_histograms [] (lines ∷ outputs) = exc value_error
fill_histograms (f ∷ flows) [] = exc value_error
fill_histograms ((name, flow) ∷ flows) (lines ∷ outputs) =
    combine (λ histogram rest. (name, histogram) ∷ rest) (fill_histogram [] lines)
      (fill_histograms flows outputs)

module _ {W : Type 0} (ip_version : List ℕ → Option ℕ) where
  unfoldable pub observe_flow_dscp :
      (sleep : Action W (Unit {0}))
      → PcapCapture W
      → (interface : List ℕ) → List (List ℕ × FlowSelector)
      → (capture_file : List ℕ) → Action W (List (List ℕ × List (ℤ × ℕ)))
  unfolding flow_reads fill_histograms capture_shared_window read_fields
  observe_flow_dscp sleep pcap interface flows capture_file = do
    reads ← lift (flow_reads ip_version flows)
    capture_shared_window sleep
        (record { pcap = pcap; interface = interface; capture_file = capture_file } ∷ [])
    outputs ← read_fields pcap capture_file reads true
    lift (fill_histograms flows outputs)
