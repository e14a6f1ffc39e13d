-- ===== src/Segmentation/Deny/Build.antt =====
-- The rule that `build_deny_rule` makes of what a caller passes.
use testprotocols.Prelude.{
  ℕ, ◌≡◌, refl, sym, ap, ◌∙◌, ◌≢◌, ◌⊎◌, inl, inr, Bool, true, false, Option, none, some, List, [],
  ◌∷◌, ◌++◌, map, Bool-cases, All,
}
use testprotocols.Prelude.Text.{codes}
use testprotocols.Prelude.Text.Split.{text_eq, text_eq_sound, text_eq_refl}
use testprotocols.Ports.{L3Rule, RuleProtocol, tcp, udp, icmp, icmp6, any_protocol}
use testprotocols.Compat.Coerce.{
  Given, member_given, text_given, int_given, other_given, str_enum, of_text, coerce_enum,
  member_or_raise, warned_unless,
}
use testprotocols.Exec.{Outcome, ret, exc, out_of_fuel, Action, ◌>>=◌}
use testprotocols.Exec.Post.{Post, OnReturn, Post-bind}
use testprotocols.Segmentation.{
  DenyScope, host, subnet, cidr_of, deny_scopes, rule_protocols, build_deny_rule, protocol_text,
}
use testprotocols.Segmentation.Deny.{IsDenyOf}

-- The member that a caller's value stands for: the member itself, or the member of the text.
abbrev pub Means : {E : Type 0} → (texts : E → List ℕ) → Given E → E → Type 0
Means texts (member_given e) m = e ≡ m
Means texts (text_given t is_default) m = t ≡ texts m
Means texts (int_given n) m = ⊥
Means texts other_given m = ⊥

abbrev pub scope_text : DenyScope → List ℕ
scope_text host = codes "host"
scope_text subnet = codes "subnet"

-- The network of one end: that of one host, or the subnet.
abbrev pub IsNetwork : DenyScope → (subnet_cidr host_address cidr : List ℕ) → Type 0
IsNetwork host subnet_cidr host_address cidr = cidr ≡ host_address ++ codes "/32"
IsNetwork subnet subnet_cidr host_address cidr = cidr ≡ subnet_cidr

cidr_of-IsNetwork :
    (width : DenyScope) (subnet_cidr host_address : List ℕ)
    → IsNetwork width subnet_cidr host_address (cidr_of width subnet_cidr host_address)
cidr_of-IsNetwork host subnet_cidr host_address = refl
cidr_of-IsNetwork subnet subnet_cidr host_address = refl

module _ {E : Type 0} (texts : E → List ℕ) where
  abbrev Chosen : List ℕ → List E → Option E → Type 0
  Chosen t es (some e) = t ≡ texts e
  Chosen t es none = All (λ e. t ≢ texts e) es

  Chosen-behind :
      (t : List ℕ) (e : E) (es : List E) (o : Option E)
      → t ≢ texts e
      → Chosen t es o
      → Chosen t (e ∷ es) o
  Chosen-behind t e es none h k = (h, k)
  Chosen-behind t e es (some m) h k = k

  of_text-Chosen : (t : List ℕ) (es : List E) → Chosen t es (of_text t (map (λ e. (texts e, e)) es))
  unfolding of_text
  of_text-Chosen t [] = tt
  of_text-Chosen t (e ∷ es) = elim (Bool-cases (text_eq (texts e) t)) [
    | inl k ↦ rw k (sym (text_eq_sound (texts e) t k))
    | inr k ↦ rw k (
        Chosen-behind t e es (of_text t (map (λ e'. (texts e', e')) es))
          (λ h. cc (sym k ∙ ap (text_eq (texts e)) h ∙ text_eq_refl (texts e)))
          (of_text-Chosen t es))
  ]

  -- What a coercion makes of a value: the member that it stands for, or an exception where it stands
  -- for none.
  abbrev Coerced : Given E → Outcome E → Type 0
  Coerced given (ret m) = Means texts given m
  Coerced given (exc x) = (m : E) → ¬ Means texts given m
  Coerced given out_of_fuel = ⊥

  module _ {W : Type 0} (warn : Action W (Unit {0})) (returns : (w : W) → warn w ≡ (ret tt, w))
      (es : List E) (complete : (P : E → Type 0) (m : E) → All P es → P m) where
    text-Coerced :
        (t : List ℕ) (is_default : Bool) (o : Option E) (w : W)
        → Chosen t es o
        → Post
            (member_or_raise o >>= warned_unless warn is_default)
            (λ r _. Coerced (text_given t is_default) r)
            w
    text-Coerced t is_default none w h = λ m. complete (λ e. t ≢ texts e) m h
    text-Coerced t true (some e) w h = h
    text-Coerced t false (some e) w h = rw (returns w) h

    coerce_enum-Coerced :
        (given : Given E) (w : W)
        → Post
            (coerce_enum warn (str_enum (map (λ e. (texts e, e)) es)) given)
            (λ r _. Coerced given r)
            w
    unfolding coerce_enum
    coerce_enum-Coerced (member_given e) w = refl
    coerce_enum-Coerced (text_given t is_default) w =
        text-Coerced t is_default (of_text t (map (λ e. (texts e, e)) es)) w (of_text-Chosen t es)
    coerce_enum-Coerced (int_given n) w = λ m h. h
    coerce_enum-Coerced other_given w = λ m h. h

all_scopes : (P : DenyScope → Type 0) (m : DenyScope) → All P (host ∷ subnet ∷ []) → P m
all_scopes P host h = h.0
all_scopes P subnet h = h.1.0

all_protocols :
    (P : RuleProtocol → Type 0) (m : RuleProtocol)
    → All P (tcp ∷ udp ∷ icmp ∷ icmp6 ∷ any_protocol ∷ [])
    → P m
all_protocols P tcp h = h.0
all_protocols P udp h = h.1.0
all_protocols P icmp h = h.1.1.0
all_protocols P icmp6 h = h.1.1.1.0
all_protocols P any_protocol h = h.1.1.1.1.0

module _ (scope : Given DenyScope) (proto : Given RuleProtocol)
    (source_subnet source_host dest_subnet dest_host : List ℕ) where
  -- A rule that denies what was asked for, or an exception where that is no scope or no protocol.
  abbrev pub Built : Outcome L3Rule → Type 0
  Built (ret rule) =
      (width : DenyScope) × (protocol : RuleProtocol) × Means scope_text scope width
      × Means protocol_text proto protocol
      × IsNetwork width source_subnet source_host rule.src_cidr
      × IsNetwork width dest_subnet dest_host rule.dst_cidr
      × IsDenyOf protocol rule.src_cidr rule.dst_cidr rule
      × (rule.src_port ≡ some (codes "any"))
      × (rule.dst_port ≡ some (codes "any"))
  Built (exc x) =
      ((m : DenyScope) → ¬ Means scope_text scope m)
      ⊎ ((m : RuleProtocol) → ¬ Means protocol_text proto m)
  Built out_of_fuel = ⊥

  scope-return :
      {W : Type 0} (o : Outcome DenyScope) (w : W)
      → Coerced scope_text scope o
      → OnReturn (λ m _. Means scope_text scope m) (λ r _. Built r) o w
  scope-return (ret m) w h = h
  scope-return (exc x) w h = inl h
  scope-return out_of_fuel w h = h

  proto-return :
      {W : Type 0} (o : Outcome RuleProtocol) (w : W)
      → Coerced protocol_text proto o
      → OnReturn (λ m _. Means protocol_text proto m) (λ r _. Built r) o w
  proto-return (ret m) w h = h
  proto-return (exc x) w h = inr h
  proto-return out_of_fuel w h = h

  -- Where the warning returns: `build_deny_rule` returns an active deny of the protocol that was asked
  -- for, on any ports, from the source to the destination: between the hosts, each as a network of its
  -- own, or between the subnets, by the scope. It raises exactly where the scope or the protocol is
  -- neither a member nor the text of one.
  pub build_deny_rule-Built :
      {W : Type 0} (warn : Action W (Unit {0}))
      → ((w : W) → warn w ≡ (ret tt, w))
      → (comment : List ℕ) (syslog_enabled : Bool) (w : W)
      → Post
          (build_deny_rule warn scope proto source_subnet source_host dest_subnet dest_host comment
            syslog_enabled)
          (λ r _. Built r)
          w
  unfolding build_deny_rule
  build_deny_rule-Built warn returns comment syslog_enabled w =
      let coerced =
        coerce_enum-Coerced scope_text warn returns (host ∷ subnet ∷ []) all_scopes scope in
      let spoken =
        coerce_enum-Coerced protocol_text warn returns
          (tcp ∷ udp ∷ icmp ∷ icmp6 ∷ any_protocol ∷ []) all_protocols proto in
      Post-bind (λ m _. Means scope_text scope m) (λ r _. Built r)
        (coerce_enum warn deny_scopes scope) _ w
        (scope-return (coerce_enum warn deny_scopes scope w).0
          (coerce_enum warn deny_scopes scope w).1 (coerced w))
        (λ width w₁ h.
          Post-bind (λ m _. Means protocol_text proto m) (λ r _. Built r)
            (coerce_enum warn rule_protocols proto) _ w₁
            (proto-return (coerce_enum warn rule_protocols proto w₁).0
              (coerce_enum warn rule_protocols proto w₁).1 (spoken w₁))
            (λ protocol w₂ k. (
              width,
              protocol,
              h,
              k,
              cidr_of-IsNetwork width source_subnet source_host,
              cidr_of-IsNetwork width dest_subnet dest_host,
              (refl, refl, refl, refl),
              refl,
              refl,
            )))
