-- ===== src/Throughput/Rounds.antt =====
-- `_measure_rounds` of throughput.py: rounds of a probe and every direction.
use testprotocols.Prelude.{
  set_item, ℕ, zero, suc, String, Bool, Option, none, some, List, [], ◌∷◌, ◌++◌, if◌then◌else◌,
}
use testprotocols.Prelude.Int.{ℤ, ◌+ℤ◌, leb_ℤ}
use testprotocols.Exec.{Action, pure, exhausted, ◌>>=◌, ◌>>◌}
use testprotocols.Throughput.Concurrent.{FlowThroughput}
use testprotocols.Throughput.Retry.{Retrying, retry_on_noncompletion}

pub record DirectionSpec : Type 0 where
  pub name : String
  pub reverse : Bool

pub record PathMeasurement (F : Type 0) : Type 0 where
  pub probe_min_rtt_ms : Option F
  pub probe_mean_rtt_ms : Option F
  pub by_direction : List (String × FlowThroughput F)

-- The caller's part in the round loop.
pub record Rounds (W F : Type 0) : Type 0 where
  pub directions : List DirectionSpec
  pub stop_when : List (PathMeasurement F) → Action W Bool
  pub on_round : Option (PathMeasurement F → Action W (Unit {0}))
  pub budget_s : ℤ

module _ {W F : Type 0} (measure_flow : ℕ → Option DirectionSpec → Action W (FlowThroughput F))
    (allocate_port : Action W ℕ) (retrying : Retrying W ℕ) (fuel : ℕ) where
  -- `_attempt`
  unfoldable pub attempt_flow : (deadline : ℤ) → Option DirectionSpec → Action W (FlowThroughput F)
  attempt_flow deadline spec =
      retry_on_noncompletion (λ port. measure_flow port spec) allocate_port retrying fuel deadline

  unfoldable pub measure_directions :
      (deadline : ℤ)
      → List DirectionSpec
      → List (String × FlowThroughput F)
      → Action W (List (String × FlowThroughput F))
  measure_directions deadline [] found = pure found
  measure_directions deadline (spec ∷ specs) found = do
    facts ← attempt_flow deadline (some spec)
    measure_directions deadline specs (set_item spec.name facts found)

  unfoldable pub one_round : (deadline : ℤ) → List DirectionSpec → Action W (PathMeasurement F)
  one_round deadline directions = do
    probe ← attempt_flow deadline none
    by_direction ← measure_directions deadline directions []
    pure (record {
      probe_min_rtt_ms = probe.min_rtt_ms;
      probe_mean_rtt_ms = probe.mean_rtt_ms;
      by_direction = by_direction;
    })

  abbrev pub announce : Rounds W F → PathMeasurement F → Action W (Unit {0})
  announce rounds facts = elim rounds.on_round [ none ↦ pure tt | some on_round ↦ on_round facts ]

  -- The `while True` loop, with fuel.
  unfoldable pub repeat_rounds :
      Rounds W F
      → ℕ
      → (deadline : ℤ) → List (PathMeasurement F)
      → Action W (List (PathMeasurement F))
  repeat_rounds rounds zero deadline findings = exhausted
  repeat_rounds rounds (suc f) deadline findings = do
    facts ← one_round deadline rounds.directions
    announce rounds facts
    stop ← rounds.stop_when (findings ++ facts ∷ [])
    if stop then pure (findings ++ facts ∷ []) else do
      now ← retrying.monotonic
      if leb_ℤ deadline now
          then pure (findings ++ facts ∷ [])
          else repeat_rounds rounds f deadline (findings ++ facts ∷ [])

  unfoldable pub measure_rounds : Rounds W F → ℕ → Action W (List (PathMeasurement F))
  measure_rounds rounds fuel' = do
    now ← retrying.monotonic
    repeat_rounds rounds fuel' (now +ℤ rounds.budget_s) []
