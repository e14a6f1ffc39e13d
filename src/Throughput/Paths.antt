-- ===== src/Throughput/Paths.antt =====
-- The measurements of one flow and of a path between managed endpoints, in throughput.py.
use testprotocols.Prelude.{ℕ, String, Bool, false, Option, none, some, List, [], ◌∷◌}
use testprotocols.Prelude.Int.{ℤ}
use testprotocols.Exec.{Action, Outcome, ret, exc, pure, lift, ◌>>=◌}
use testprotocols.Exec.Failure.{value_error}
use testprotocols.Drivers.{IperfClient, IperfServer}
use testprotocols.Throughput.Concurrent.{ThroughputFlow, FlowThroughput}
use testprotocols.Throughput.Retry.{Retrying}
use testprotocols.Throughput.Rounds.{DirectionSpec, PathMeasurement, Rounds, measure_rounds}

-- `MeasureFn`
abbrev pub MeasureFn : (W F : Type 0) → Type 0
MeasureFn W F =
    List (ThroughputFlow W)
    → (duration_s : ℕ) → (result_timeout_s poll_interval_s : ℤ) → Action W (List (FlowThroughput F))

-- `(result,) = results`
abbrev pub single : {A : Type 0} → List A → Outcome A
single (a ∷ []) = ret a
single _ = exc value_error

-- The two ends of a path, and the times that every measurement on it is given.
pub record Endpoints (W : Type 0) : Type 0 where
  pub sender : IperfClient W
  pub receiver : IperfServer W
  pub dest_host : String
  pub result_timeout_s : ℤ
  pub poll_interval_s : ℤ

module _ {W F : Type 0} (measure : MeasureFn W F) (path : Endpoints W) where
  -- `_probe_flow`
  unfoldable pub probe_flow : (port rate_mbps duration_s : ℕ) → Action W (FlowThroughput F)
  probe_flow port rate_mbps duration_s = do
    results ←
        measure
          (record {
            sender = path.sender;
            receiver = path.receiver;
            dest_host = path.dest_host;
            port = port;
            reverse = false;
            omit_s = 0;
            bandwidth_mbps = some rate_mbps;
            parallel = none;
            window = none;
          }
            ∷ [])
          duration_s path.result_timeout_s path.poll_interval_s
    lift (single results)

  unfoldable pub measure_path_rtt : (port rate_mbps duration_s : ℕ) → Action W (Option F × Option F)
  measure_path_rtt port rate_mbps duration_s = do
    result ← probe_flow port rate_mbps duration_s
    pure (result.min_rtt_ms, result.mean_rtt_ms)

  unfoldable pub measure_one_direction :
      (port : ℕ)
      → (reverse : Bool) → (duration_s omit_s : ℕ) → (window : Option (List ℕ))
      → (parallel : Option ℕ) → Action W (FlowThroughput F)
  measure_one_direction port reverse duration_s omit_s window parallel = do
    results ←
        measure
          (record {
            sender = path.sender;
            receiver = path.receiver;
            dest_host = path.dest_host;
            port = port;
            reverse = reverse;
            omit_s = omit_s;
            bandwidth_mbps = none;
            parallel = parallel;
            window = window;
          }
            ∷ [])
          duration_s path.result_timeout_s path.poll_interval_s
    lift (single results)

-- What the path loops are told of their flows.
pub record Settings : Type 0 where
  pub probe_rate_mbps : ℕ
  pub probe_duration_s : ℕ
  pub measure_duration_s : ℕ
  pub omit_s : ℕ
  pub window : Option (List ℕ)
  pub parallel : Option ℕ

module _ {W F : Type 0} (measure : MeasureFn W F) (path : Endpoints W) (settings : Settings) where
  -- `_flow` of the path loop
  unfoldable pub path_flow : ℕ → Option DirectionSpec → Action W (FlowThroughput F)
  path_flow port none =
      probe_flow measure path port settings.probe_rate_mbps settings.probe_duration_s
  path_flow port (some spec) =
      measure_one_direction measure path port spec.reverse settings.measure_duration_s
        settings.omit_s settings.window settings.parallel

  unfoldable pub measure_path_until :
      (allocate_port : Action W ℕ)
      → Retrying W ℕ
      → Rounds W F
      → (fuel : ℕ) → Action W (List (PathMeasurement F))
  measure_path_until allocate_port retrying rounds fuel =
      measure_rounds path_flow allocate_port retrying fuel rounds fuel
