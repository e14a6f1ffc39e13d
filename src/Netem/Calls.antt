-- ===== src/Netem/Calls.antt =====
-- The call that each injection makes, on drivers that record their calls.
use testprotocols.Prelude.{ℕ, ◌≡◌, refl, Option, none, some, List, [], ◌∷◌, ◌++◌, if◌then◌else◌}
use testprotocols.Netem.{
  Float, ImpairmentProfile, NetemController, TransientEvent, blackout, brownout, latency_spike,
  packet_storm, an_int, a_float, Kwargs, inject_blackout, inject_brownout, inject_latency_spike,
  inject_packet_storm, percent, codes, Action,
}
use testprotocols.Prelude.Text.Split.{text_eq}
use testprotocols.Exec.{Outcome, Action, ret, exc}
use testprotocols.Exec.Failure.{attribute_error}

pub data Call : Type 0 where
  profile_call : ImpairmentProfile → Call
  event_call : TransientEvent → (duration_ms : ℕ) → Call
  transient_call : (event : List ℕ) → (duration_ms : ℕ) → Kwargs → Call

abbrev record_call : Call → Action (List Call) (Unit {0})
record_call call calls = (ret tt, calls ++ call ∷ [])

-- Which of the two names a driver has.
pub data Names : Type 0 where
  new_name old_name both_names no_name : Names

abbrev new_of : {A : Type 0} → A → Names → Option A
new_of a new_name = some a
new_of a old_name = none
new_of a both_names = some a
new_of a no_name = none

abbrev old_of : {A : Type 0} → A → Names → Option A
old_of a new_name = none
old_of a old_name = some a
old_of a both_names = some a
old_of a no_name = none

abbrev pub recording : Names → NetemController (List Call)
recording names = record {
  set_impairment_profile = λ p. record_call (profile_call p);
  inject_event = new_of (λ event duration_ms. record_call (event_call event duration_ms)) names;
  inject_transient =
      old_of (λ event duration_ms kwargs. record_call (transient_call event duration_ms kwargs))
        names;
}

-- A call of one of the four operations.
pub data Injection : Type 0 where
  a_blackout : (duration_ms : ℕ) → Injection
  a_brownout : (duration_ms : ℕ) → (loss_percent : Float) → Injection
  a_latency_spike : (duration_ms latency_ms : ℕ) → Injection
  a_packet_storm : (duration_ms : ℕ) → (duplicate_percent loss_percent : Option Float) → Injection

abbrev pub run_injection : {W : Type 0} → NetemController W → Injection → Action W (Unit {0})
run_injection netem (a_blackout d) = inject_blackout netem d
run_injection netem (a_brownout d loss) = inject_brownout netem d loss
run_injection netem (a_latency_spike d latency) = inject_latency_spike netem d latency
run_injection netem (a_packet_storm d duplicate loss) = inject_packet_storm netem d duplicate loss

abbrev int_of : List ℕ → Kwargs → Option ℕ
int_of key [] = none
int_of key ((k, an_int n) ∷ kwargs) = if text_eq k key then some n else int_of key kwargs
int_of key ((k, a_float x) ∷ kwargs) = int_of key kwargs

abbrev float_of : List ℕ → Kwargs → Option Float
float_of key [] = none
float_of key ((k, an_int n) ∷ kwargs) = float_of key kwargs
float_of key ((k, a_float x) ∷ kwargs) = if text_eq k key then some x else float_of key kwargs

-- The event that the released drivers make of a released call: the latency of a spike is the keyword
-- `spike_latency_ms` there. What a call leaves out is the driver's own default.
abbrev pub spelled_event : List ℕ → Kwargs → Option TransientEvent
spelled_event name kwargs =
    let latency = int_of (codes "latency_ms") kwargs in
    let jitter = int_of (codes "jitter_ms") kwargs in
    let loss = float_of (codes "loss_percent") kwargs in
    if text_eq name (codes "blackout")
    then some blackout
    else if text_eq name (codes "brownout")
    then some (brownout latency jitter loss)
    else if text_eq name (codes "latency_spike")
    then some (latency_spike (int_of (codes "spike_latency_ms") kwargs) jitter)
    else if text_eq name (codes "packet_storm")
    then some (packet_storm loss latency jitter (float_of (codes "duplicate_percent") kwargs))
    else none

-- The latency that a released call names and that the released drivers do not read.
abbrev pub unread_latency : List ℕ → Kwargs → Option ℕ
unread_latency name kwargs =
    if text_eq name (codes "latency_spike") then int_of (codes "latency_ms") kwargs else none

-- The event and the duration that a call asks for, and the latency that it names in vain.
abbrev pub asks_for : Call → Option TransientEvent × ℕ × Option ℕ
asks_for (profile_call p) = (none, 0, none)
asks_for (event_call event d) = (some event, d, none)
asks_for (transient_call name d kwargs) = (spelled_event name kwargs, d, unread_latency name kwargs)

-- The duplication of a packet storm where none is asked for: the released call has one.
abbrev pub storm_duplicate : Names → Option Float → Option Float
storm_duplicate old_name none = some (percent 1000 1)
storm_duplicate names duplicate = duplicate

-- A released call of a spike names its latency in vain.
abbrev pub spike : Names → (d latency : ℕ) → Option TransientEvent × ℕ × Option ℕ
spike old_name d latency = (some (latency_spike none none), d, some latency)
spike names d latency = (some (latency_spike (some latency) none), d, none)

abbrev pub requested : Names → Injection → Option TransientEvent × ℕ × Option ℕ
requested names (a_blackout d) = (some blackout, d, none)
requested names (a_brownout d loss) = (some (brownout none none (some loss)), d, none)
requested names (a_latency_spike d latency) = spike names d latency
requested names (a_packet_storm d duplicate loss) =
    (some (packet_storm loss none none (storm_duplicate names duplicate)), d, none)

-- What an injection did: one call, for what was requested, or none and an `AttributeError`.
abbrev pub Injected : Names → Injection → List Call → Outcome (Unit {0}) × List Call → Type 0
Injected no_name i calls after = after ≡ (exc attribute_error, calls)
Injected names i calls after =
    (call : Call) × (after ≡ (ret tt, calls ++ call ∷ [])) × (asks_for call ≡ requested names i)

-- Each of the four operations makes exactly one call of a driver that has `inject_event` or
-- `inject_transient`, for the event, its values and the duration that were requested, but for two of
-- the released calls: that of a packet storm asks for 100.0 % duplication where none is given, and
-- that of a latency spike names the latency by a keyword that the released drivers do not read. A
-- driver with neither name gets no call, and an `AttributeError` is raised.
pub run_injection-Injected :
    (names : Names) (i : Injection) (calls : List Call)
    → Injected names i calls (run_injection (recording names) i calls)
unfolding inject_blackout inject_brownout inject_latency_spike inject_packet_storm
run_injection-Injected no_name (a_blackout d) calls = refl
run_injection-Injected no_name (a_brownout d loss) calls = refl
run_injection-Injected no_name (a_latency_spike d latency) calls = refl
run_injection-Injected no_name (a_packet_storm d duplicate loss) calls = refl
run_injection-Injected old_name (a_packet_storm d none none) calls = (_, refl, refl)
run_injection-Injected old_name (a_packet_storm d none (some l)) calls = (_, refl, refl)
run_injection-Injected old_name (a_packet_storm d (some x) none) calls = (_, refl, refl)
run_injection-Injected old_name (a_packet_storm d (some x) (some l)) calls = (_, refl, refl)
run_injection-Injected old_name (a_blackout d) calls = (_, refl, refl)
run_injection-Injected old_name (a_brownout d loss) calls = (_, refl, refl)
run_injection-Injected old_name (a_latency_spike d latency) calls = (_, refl, refl)
run_injection-Injected new_name (a_blackout d) calls = (_, refl, refl)
run_injection-Injected new_name (a_brownout d loss) calls = (_, refl, refl)
run_injection-Injected new_name (a_latency_spike d latency) calls = (_, refl, refl)
run_injection-Injected new_name (a_packet_storm d duplicate loss) calls = (_, refl, refl)
run_injection-Injected both_names (a_blackout d) calls = (_, refl, refl)
run_injection-Injected both_names (a_brownout d loss) calls = (_, refl, refl)
run_injection-Injected both_names (a_latency_spike d latency) calls = (_, refl, refl)
run_injection-Injected both_names (a_packet_storm d duplicate loss) calls = (_, refl, refl)
