-- ===== src/Netem.antt =====
-- packages/testoperations/src/testoperations/netem_controller.py: impairment presets and transient
-- events, with models/impairment.py and, of _renamed.py, `inject`. A `float` is only passed on, so it
-- is kept as the digits of its decimal numeral and the number of places behind the point.
pub mod Calls
pub mod Presets
mod Examples
use testprotocols.Prelude.{ℕ, Option, none, some, List, [], ◌∷◌, ◌++◌}
use testprotocols.Prelude.Text.{codes}
use testprotocols.Exec.{Action, ◌>>=◌}
use testprotocols.Compat.Coerce.{EnumType, str_enum, Given, coerce_enum}
use mathlib.Core.Option
use testprotocols.Drivers.{member}

pub record Float : Type 0 where
  pub digits : ℕ
  pub places : ℕ

pub record ImpairmentProfile : Type 0 where
  pub latency_ms : ℕ
  pub jitter_ms : ℕ
  pub loss_percent : Float
  pub bandwidth_limit_mbps : Option ℕ
  pub reorder_percent : Float
  pub corrupt_percent : Float
  pub duplicate_percent : Float

pub data TransientEvent : Type 0 where
  blackout : TransientEvent
  brownout : (latency_ms jitter_ms : Option ℕ) (loss_percent : Option Float) → TransientEvent
  latency_spike : (latency_ms jitter_ms : Option ℕ) → TransientEvent
  packet_storm :
      (loss_percent : Option Float) (latency_ms jitter_ms : Option ℕ)
      (duplicate_percent : Option Float)
      → TransientEvent

-- `event_name`
abbrev pub event_name : TransientEvent → List ℕ
event_name blackout = codes "blackout"
event_name (brownout _ _ _) = codes "brownout"
event_name (latency_spike _ _) = codes "latency_spike"
event_name (packet_storm _ _ _ _) = codes "packet_storm"

pub data Number : Type 0 where
  an_int : ℕ → Number
  a_float : Float → Number

abbrev pub Kwargs : Type 0
Kwargs = List (List ℕ × Number)

-- The members that the operations call; a renamed one that a driver lacks is `none`.
pub record NetemController (W : Type 0) : Type 0 where
  pub set_impairment_profile : ImpairmentProfile → Action W (Unit {0})
  pub inject_event : Option (TransientEvent → (duration_ms : ℕ) → Action W (Unit {0}))
  pub inject_transient : Option (List ℕ → (duration_ms : ℕ) → Kwargs → Action W (Unit {0}))

pub data NetemPreset : Type 0 where
  clean dsl cable lte three_g satellite degraded lossy : NetemPreset

abbrev pub preset_members : List (List ℕ × NetemPreset)
preset_members =
    (codes "clean", clean)
    ∷ (codes "dsl", dsl)
    ∷ (codes "cable", cable)
    ∷ (codes "lte", lte)
    ∷ (codes "3g", three_g)
    ∷ (codes "satellite", satellite)
    ∷ (codes "degraded", degraded)
    ∷ (codes "lossy", lossy)
    ∷ []

abbrev pub netem_presets : EnumType NetemPreset
netem_presets = str_enum preset_members

abbrev percent : (digits places : ℕ) → Float
percent digits places = record { digits = digits; places = places }

abbrev zero_percent : Float
zero_percent = percent 0 1

-- A profile whose other percentages are the defaults.
abbrev profile : (latency_ms jitter_ms : ℕ) → Float → Option ℕ → ImpairmentProfile
profile latency_ms jitter_ms loss_percent bandwidth_limit_mbps = record {
  latency_ms = latency_ms;
  jitter_ms = jitter_ms;
  loss_percent = loss_percent;
  bandwidth_limit_mbps = bandwidth_limit_mbps;
  reorder_percent = zero_percent;
  corrupt_percent = zero_percent;
  duplicate_percent = zero_percent;
}

-- `_PRESETS`
unfoldable pub preset_profile : NetemPreset → ImpairmentProfile
preset_profile clean = profile 0 0 (percent 0 1) none
preset_profile dsl = profile 20 5 (percent 1 1) (some 20)
preset_profile cable = profile 10 2 (percent 5 2) (some 100)
preset_profile lte = profile 50 10 (percent 2 1) (some 50)
preset_profile three_g = profile 100 20 (percent 10 1) (some 7)
preset_profile satellite = profile 600 50 (percent 5 1) (some 10)
preset_profile degraded = profile 200 50 (percent 50 1) none
preset_profile lossy = profile 50 10 (percent 100 1) none

abbrev or_default : Option Float → Float
or_default none = percent 1000 1
or_default (some duplicate_percent) = duplicate_percent

abbrev loss_kwargs : Option Float → Kwargs
loss_kwargs none = []
loss_kwargs (some loss_percent) = (codes "loss_percent", a_float loss_percent) ∷ []

module _ {W : Type 0} where
  -- `warn` is `warnings.warn`.
  unfoldable pub apply_preset :
      (warn : Action W (Unit {0})) → NetemController W → Given NetemPreset → Action W (Unit {0})
  unfolding preset_profile coerce_enum
  apply_preset warn netem_controller preset_name = do
    preset ← coerce_enum warn netem_presets preset_name
    netem_controller.set_impairment_profile (preset_profile preset)

  unfoldable pub inject :
      NetemController W
      → TransientEvent
      → (duration_ms : ℕ) → (released_kwargs : Kwargs) → Action W (Unit {0})
  inject driver event duration_ms released_kwargs = elim driver.inject_event [
    | some inject_new ↦ inject_new event duration_ms
    | none ↦ member (
        Option.map (λ inject_old. inject_old (event_name event) duration_ms released_kwargs)
          driver.inject_transient)
  ]

  unfoldable pub inject_blackout : NetemController W → (duration_ms : ℕ) → Action W (Unit {0})
  unfolding inject
  inject_blackout netem duration_ms = inject netem blackout duration_ms []

  unfoldable pub inject_brownout :
      NetemController W → (duration_ms : ℕ) → (loss_percent : Float) → Action W (Unit {0})
  unfolding inject
  inject_brownout netem duration_ms loss_percent =
      inject netem (brownout none none (some loss_percent)) duration_ms
        ((codes "loss_percent", a_float loss_percent) ∷ [])

  unfoldable pub inject_latency_spike :
      NetemController W → (duration_ms latency_ms : ℕ) → Action W (Unit {0})
  unfolding inject
  inject_latency_spike netem duration_ms latency_ms =
      inject netem (latency_spike (some latency_ms) none) duration_ms
        ((codes "latency_ms", an_int latency_ms) ∷ [])

  unfoldable pub inject_packet_storm :
      NetemController W
      → (duration_ms : ℕ) → (duplicate_percent loss_percent : Option Float) → Action W (Unit {0})
  unfolding inject
  inject_packet_storm netem duration_ms duplicate_percent loss_percent =
      inject netem (packet_storm loss_percent none none duplicate_percent) duration_ms (
        (codes "duplicate_percent", a_float (or_default duplicate_percent))
        ∷ loss_kwargs loss_percent)
