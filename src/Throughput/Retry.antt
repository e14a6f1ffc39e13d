-- ===== src/Throughput/Retry.antt =====
-- `_retry_on_noncompletion` and `measure_concurrent_throughput_with_retry` of throughput.py.
pub mod Ends
mod Examples
use testprotocols.Prelude.{
  ℕ, zero, suc, Bool, false, not, Option, none, some, List, [], ◌∷◌, map, if◌then◌else◌,
}
use testprotocols.Prelude.Int.{ℤ, ◌+ℤ◌, leb_ℤ}
use testprotocols.Exec.{Action, pure, raise, lift, exhausted, try_except, ◌>>=◌, ◌>>◌}
use testprotocols.Exec.Failure.{Exception, NonCompletion, non_completion}
use testprotocols.Throughput.Await.{Timing, Parsing}
use testprotocols.Throughput.Concurrent.{
  ThroughputFlow, FlowThroughput, zip_strict, measure_concurrent_throughput,
}
use testprotocols.Throughput.Json.{Floating}

-- The caller's policy on non-completions and the pace of the retries; `R` is what an attempt runs on.
pub record Retrying (W R : Type 0) : Type 0 where
  pub retry_when : Option (NonCompletion → Action W Bool)
  pub on_retry : Option (NonCompletion → R → Action W (Unit {0}))
  pub busy_backoff_s : ℤ
  pub sleep : ℤ → Action W (Unit {0})
  pub monotonic : Action W ℤ

module _ {W T R : Type 0} (attempt : R → Action W T) (allocate : Action W R)
    (retrying : Retrying W R) where
  -- Whether the caller wants a retry: never, without a `retry_when`.
  abbrev pub is_retried : NonCompletion → Action W Bool
  is_retried failure = elim retrying.retry_when [
    | none ↦ pure false
    | some retry_when ↦ retry_when failure
  ]

  abbrev pub report : NonCompletion → R → Action W (Unit {0})
  report failure resource = elim retrying.on_retry [
    | none ↦ pure tt
    | some on_retry ↦ on_retry failure resource
  ]

  -- The body of the `except`, with what the loop does next.
  abbrev pub absorb : Action W T → ℤ → R → Exception → Action W T
  absorb again deadline resource (non_completion failure) = do
    now ← retrying.monotonic
    if leb_ℤ deadline now then raise (non_completion failure) else do
      retried ← is_retried failure
      if not retried
          then raise (non_completion failure)
          else do report failure resource; retrying.sleep retrying.busy_backoff_s; again
  absorb again deadline resource e = raise e

  -- `_retry_on_noncompletion`, with fuel.
  unfoldable pub retry_on_noncompletion : ℕ → (deadline : ℤ) → Action W T
  retry_on_noncompletion zero deadline = exhausted
  retry_on_noncompletion (suc f) deadline = do
    resource ← allocate
    try_except (attempt resource) (absorb (retry_on_noncompletion f deadline) deadline resource)

module _ {W : Type 0} (allocate_port : Action W ℕ) where
  -- `[allocate_port() for _ in flows]`
  unfoldable pub allocate_ports : List (ThroughputFlow W) → Action W (List ℕ)
  allocate_ports [] = pure []
  allocate_ports (flow ∷ flows) = do
    port ← allocate_port
    ports ← allocate_ports flows
    pure (port ∷ ports)

abbrev pub with_port : {W : Type 0} → ThroughputFlow W × ℕ → ThroughputFlow W
with_port (flow, port) = record flow { port = port }

module _ {fl : Floating} (parsing : Parsing fl) {W : Type 0} (timing : Timing W)
    (duration_s fuel : ℕ) (allocate_port : Action W ℕ) (retrying : Retrying W (List ℕ)) where
  -- `_attempt` of the set engine
  unfoldable pub attempt_set :
      List (ThroughputFlow W) → List ℕ → Action W (List (FlowThroughput fl.F))
  attempt_set flows ports = do
    pairs ← lift (zip_strict flows ports)
    measure_concurrent_throughput parsing timing duration_s fuel (map with_port pairs)

  unfoldable pub measure_concurrent_throughput_with_retry :
      (retry_budget_s : ℤ) → List (ThroughputFlow W) → Action W (List (FlowThroughput fl.F))
  measure_concurrent_throughput_with_retry retry_budget_s flows = do
    now ← retrying.monotonic
    retry_on_noncompletion (attempt_set flows) (allocate_ports allocate_port flows) retrying fuel
        (now +ℤ retry_budget_s)
