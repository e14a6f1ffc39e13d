-- ===== src/Generators/Saturation.antt =====
-- What two generators are asked to send by one call of saturate_link.
use testprotocols.Prelude.{
  String, ◌≡◌, ◌≢◌, refl, sym, subst, inl, inr, ◌⊎◌, Bool, true, false, Option, none, some, List,
  [], ◌∷◌, ◌++◌, eq_iff, str_eq, Bool-cases,
}
use testprotocols.Prelude.Int.{ℤ}
use testprotocols.Compat.Coerce.{
  Given, coerce_enum, member_or_raise, warned_unless, of_text, member_given, text_given, int_given,
  other_given,
}
use testprotocols.Exec.{Outcome, ret, exc, out_of_fuel, Action, lift, pure, continue, ◌>>=◌}
use testprotocols.Generators.{
  TransportProtocol, protocol_texts, transport_protocols, TrafficSpec, IperfGenerator, FlowPair,
  or_same, saturate_link,
}

str_eq_distinct : (s t : String) → str_eq s t ≡ false → s ≢ t
str_eq_distinct s t h = λ e. cc (h, (eq_iff s t).1 e)

-- A coercion starts no flow: it leaves the world as it is, if the warning does.
member_or_raise_still :
    {E W : Type 0} (warned : Outcome (Unit {0})) (is_default : Bool) (o : Option E) (w : W)
    → (member_or_raise o >>= warned_unless (lift warned) is_default) w
      ≡ (((member_or_raise o >>= warned_unless (lift warned) is_default) w).0, w)
member_or_raise_still warned is_default none w = refl
member_or_raise_still warned true (some e) w = refl
member_or_raise_still (ret _) false (some e) w = refl
member_or_raise_still (exc _) false (some e) w = refl
member_or_raise_still out_of_fuel false (some e) w = refl

coerce_enum_still :
    {W : Type 0} (warned : Outcome (Unit {0})) (given : Given TransportProtocol) (w : W)
    → coerce_enum (lift warned) transport_protocols given w
      ≡ ((coerce_enum (lift warned) transport_protocols given w).0, w)
unfolding coerce_enum
coerce_enum_still warned (member_given p) w = refl
coerce_enum_still warned (text_given text is_default) w =
    member_or_raise_still warned is_default (of_text text protocol_texts) w
coerce_enum_still warned (int_given n) w = refl
coerce_enum_still warned other_given w = refl

-- The rate of the way back: the one that is given, or that of the way there.
abbrev pub return_rate : {Mbps : Type 0} → (there : Mbps) → (back : Option Mbps) → Mbps
return_rate there none = there
return_rate there (some rate) = rate

or_same-return_rate :
    {Mbps : Type 0} (there : Mbps) (back : Option Mbps)
    → or_same there back ≡ return_rate there back
or_same-return_rate there none = refl
or_same-return_rate there (some rate) = refl

-- A flow that the generator at `source` was asked to start.
pub record Flow (Mbps : Type 0) : Type 0 where
  pub source : String
  pub spec : TrafficSpec Mbps

module _ {Mbps Results : Type 0} where
  -- A generator that books what it is asked to start, and answers what it likes.
  abbrev pub booking :
      (source : String) (answer : TrafficSpec Mbps → Outcome String) (stopped : Outcome Results)
      → IperfGenerator (List (Flow Mbps)) Mbps Results
  booking source answer stopped = record {
    server_ip = source;
    start_traffic =
        λ spec flows. (answer spec, flows ++ record { source = source; spec = spec } ∷ []);
    stop_all_traffic = lift stopped;
  }

module _ {Mbps : Type 0} where
  abbrev no_flows : List (Flow Mbps)
  no_flows = []

  -- The flow from one address to another.
  abbrev pub flow :
      (source destination : String) → Mbps → (dscp duration_s : ℤ) → TransportProtocol → Flow Mbps
  flow source destination mbps dscp duration_s protocol = record {
    source = source;
    spec = record {
      destination = destination;
      bandwidth_mbps = mbps;
      protocol = protocol;
      dscp = dscp;
      duration_s = duration_s;
    };
  }

module _ {Mbps Results : Type 0} (warned : Outcome (Unit {0})) (ip_a ip_b : String)
    (answer_a answer_b : TrafficSpec Mbps → Outcome String) (stopped : Outcome Results)
    (a_to_b_mbps : Mbps) (b_to_a_mbps : Option Mbps) (dscp duration_s : ℤ)
    (given : Given TransportProtocol) where
  abbrev forth : TransportProtocol → Flow Mbps
  forth = flow ip_a ip_b a_to_b_mbps dscp duration_s

  abbrev back : TransportProtocol → Flow Mbps
  back = flow ip_b ip_a (return_rate a_to_b_mbps b_to_a_mbps) dscp duration_s

  -- The protocol that the argument stands for.
  abbrev Asked : TransportProtocol → Type 0
  Asked p =
      coerce_enum (lift warned) transport_protocols given (no_flows {Mbps = Mbps})
      ≡ (ret p, no_flows)

  abbrev pub Saturated : Outcome FlowPair → List (Flow Mbps) → Type 0
  Saturated (ret pair) flows =
      (p : TransportProtocol) × (ip_a ≢ ip_b)
      × Asked p
      × (flows ≡ forth p ∷ back p ∷ [])
      × (answer_a (forth p).spec ≡ ret pair.a_to_b)
      × (answer_b (back p).spec ≡ ret pair.b_to_a)
  Saturated _ flows =
      (flows ≡ [])
      ⊎ (p : TransportProtocol) × (ip_a ≢ ip_b)
        × Asked p
        × ((flows ≡ forth p ∷ []) ⊎ (flows ≡ forth p ∷ back p ∷ []))

  abbrev Ends : Outcome FlowPair × List (Flow Mbps) → Type 0
  Ends (r, flows) = Saturated r flows

  -- what the second start answers
  back-Saturated :
      (p : TransportProtocol) (id_a : String)
      → ip_a ≢ ip_b
      → Asked p
      → answer_a (forth p).spec ≡ ret id_a
      → (r : Outcome String) → answer_b (back p).spec ≡ r
      → Ends (
          continue r
            (λ id_b. pure (record { a_to_b = id_a; b_to_a = id_b }))
            (forth p ∷ back p ∷ []))
  back-Saturated p id_a distinct asked a (ret id_b) b = (p, distinct, asked, refl, a, b)
  back-Saturated p id_a distinct asked a (exc e) b = inr (p, distinct, asked, inr refl)
  back-Saturated p id_a distinct asked a out_of_fuel b = inr (p, distinct, asked, inr refl)

  -- what the first start answers
  forth-Saturated :
      (p : TransportProtocol)
      → ip_a ≢ ip_b
      → Asked p
      → (r : Outcome String) → answer_a (forth p).spec ≡ r
      → Ends (
          continue r
            (λ id_a.
              (booking {Results = Results} ip_b answer_b stopped).start_traffic (back p).spec
              >>= λ id_b. pure (record { a_to_b = id_a; b_to_a = id_b }))
            (forth p ∷ []))
  forth-Saturated p distinct asked (ret id_a) a =
      back-Saturated p id_a distinct asked a (answer_b (back p).spec) refl
  forth-Saturated p distinct asked (exc e) a = inr (p, distinct, asked, inl refl)
  forth-Saturated p distinct asked out_of_fuel a = inr (p, distinct, asked, inl refl)

  abbrev starts : TransportProtocol → Action (List (Flow Mbps)) FlowPair
  starts p = do
    id_a ← (booking {Results = Results} ip_a answer_a stopped).start_traffic (forth p).spec
    id_b ← (booking {Results = Results} ip_b answer_b stopped).start_traffic (back p).spec
    pure (record { a_to_b = id_a; b_to_a = id_b })

  asked-Saturated :
      ip_a ≢ ip_b
      → (r : Outcome TransportProtocol)
      → coerce_enum (lift warned) transport_protocols given (no_flows {Mbps = Mbps}) ≡ (r, no_flows)
      → Ends (continue r starts [])
  asked-Saturated distinct (ret p) h = forth-Saturated p distinct h (answer_a (forth p).spec) refl
  asked-Saturated distinct (exc e) h = inl refl
  asked-Saturated distinct out_of_fuel h = inl refl

  -- Both generators book what they are asked to start: a call that returns had two peers of different
  -- addresses, and has started one flow from each to the other, of the protocol that was asked for,
  -- the way back at the rate that is given, or at the same rate where none is; it returns the ids that
  -- they answered. A call that raises has started nothing, or, between peers of different addresses,
  -- the first or both.
  pub saturate_link-Saturated :
      let (r, flows) =
        saturate_link
          (lift warned)
          (booking ip_a answer_a stopped)
          (booking ip_b answer_b stopped)
          a_to_b_mbps
          b_to_a_mbps
          dscp
          duration_s
          given
          [] in
      Saturated r flows
  unfolding saturate_link
  saturate_link-Saturated = elim (Bool-cases (str_eq ip_a ip_b)) [
    | inl h ↦ rw h (inl refl)
    | inr h ↦
        rw (h, or_same-return_rate a_to_b_mbps b_to_a_mbps)
          (subst (λ (r, flows). Ends (continue r starts flows))
            (sym (coerce_enum_still warned given (no_flows {Mbps = Mbps})))
            (asked-Saturated (str_eq_distinct ip_a ip_b h)
              (coerce_enum (lift warned) transport_protocols given (no_flows {Mbps = Mbps})).0
              (coerce_enum_still warned given (no_flows {Mbps = Mbps}))))
  ]
