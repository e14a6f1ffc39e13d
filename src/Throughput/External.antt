-- ===== src/Throughput/External.antt =====
-- The measurements toward an endpoint that is not managed, in throughput.py: every fact comes from
-- the log of the client.
pub mod Balance
mod Examples
use testprotocols.Prelude.{
  ℕ, ◌+◌, String, Bool, true, false, Option, none, some, List, if◌then◌else◌,
}
use testprotocols.Prelude.Int.{pos, ◌+ℤ◌}
use testprotocols.Exec.{ret, Action, pure, lift, try_finally, ◌>>=◌, ◌>>◌}
use testprotocols.Drivers.{IperfClient, SenderArgs, start_sender_session}
use testprotocols.Throughput.Await.{Timing, Parsing, await_client_session}
use testprotocols.Throughput.Concurrent.{FlowThroughput, or_none, quietly}
use testprotocols.Throughput.Json.{Floating}
use testprotocols.Throughput.Paths.{Settings}
use testprotocols.Throughput.Retry.{Retrying}
use testprotocols.Throughput.Rounds.{DirectionSpec, PathMeasurement, Rounds, measure_rounds}
use testprotocols.Throughput.Sessions.{last_session_rtt_ms, last_session_retransmits}

pub record ExternalFlow (W : Type 0) : Type 0 where
  pub sender : IperfClient W
  pub dest_host : String
  pub port : ℕ
  pub reverse : Bool
  pub parallel : Option ℕ
  pub omit_s : ℕ
  pub bandwidth_mbps : Option ℕ
  pub window : Option (List ℕ)

module _ {fl : Floating} (parsing : Parsing fl) {W : Type 0} where
  abbrev pub external_args : ExternalFlow W → ℕ → SenderArgs
  external_args flow duration_s = record {
    host = flow.dest_host;
    traffic_port = flow.port;
    bandwidth = flow.bandwidth_mbps;
    time = duration_s;
    reverse = flow.reverse;
    omit_s = or_none flow.omit_s;
    json_output = true;
    parallel = flow.parallel;
  }

  -- The body of the `try`.
  unfoldable pub await_external :
      ExternalFlow W → ℕ → Timing W → ℕ → String → Action W (List ℕ × fl.F)
  await_external flow duration_s timing fuel sender_log = do
    timing.sleep (pos (duration_s + flow.omit_s))
    now ← timing.monotonic
    await_client_session parsing (flow.sender.get_iperf_logs sender_log) timing fuel sender_log
        flow.port (now +ℤ timing.result_timeout_s)

  -- What is read of the log: a reverse flow has no round-trip time.
  unfoldable pub external_facts : ExternalFlow W → List ℕ × fl.F → Action W (FlowThroughput fl.F)
  external_facts flow (text, mbps) = do
    rtt ←
        lift (if flow.reverse then ret (none, none) else last_session_rtt_ms fl parsing.loads text)
    retransmits ← lift (last_session_retransmits fl parsing.loads text)
    pure (record {
      port = flow.port;
      mbps = mbps;
      min_rtt_ms = rtt.0;
      mean_rtt_ms = rtt.1;
      retransmits = retransmits;
    })

  unfoldable pub measure_external_flow :
      (fuel : ℕ) → ExternalFlow W → (duration_s : ℕ) → Timing W → Action W (FlowThroughput fl.F)
  measure_external_flow fuel flow duration_s timing = do
    tx ← start_sender_session flow.sender (external_args flow duration_s) flow.window
    result ←
        try_finally (await_external flow duration_s timing fuel tx.log_file)
          (quietly (flow.sender.stop_traffic tx.pid))
    external_facts flow result

module _ {W F : Type 0}
    (measure_flow : ExternalFlow W → (duration_s : ℕ) → Action W (FlowThroughput F))
    (sender : IperfClient W) (dest_host : String) (settings : Settings) where
  -- `_flow` of the external loop
  unfoldable pub external_flow : ℕ → Option DirectionSpec → Action W (FlowThroughput F)
  external_flow port none =
      measure_flow
        (record {
          sender = sender;
          dest_host = dest_host;
          port = port;
          reverse = false;
          parallel = none;
          omit_s = 0;
          bandwidth_mbps = some settings.probe_rate_mbps;
          window = none;
        })
        settings.probe_duration_s
  external_flow port (some spec) =
      measure_flow
        (record {
          sender = sender;
          dest_host = dest_host;
          port = port;
          reverse = spec.reverse;
          parallel = settings.parallel;
          omit_s = settings.omit_s;
          bandwidth_mbps = none;
          window = settings.window;
        })
        settings.measure_duration_s

  unfoldable pub measure_external_path_until :
      (allocate_port : Action W ℕ)
      → Retrying W ℕ
      → Rounds W F
      → (fuel : ℕ) → Action W (List (PathMeasurement F))
  measure_external_path_until allocate_port retrying rounds fuel =
      measure_rounds external_flow allocate_port retrying fuel rounds fuel
