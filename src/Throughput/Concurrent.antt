-- ===== src/Throughput/Concurrent.antt =====
-- `measure_concurrent_throughput` of throughput.py. The lists `started` and `senders` that its
-- `finally` reads are state, so they are kept beside the world.
use testprotocols.Prelude.{
  ℕ, ◌+◌, String, Bool, true, false, not, ◌&&◌, ◌||◌, Option, none, some, List, [], ◌∷◌, ◌++◌, map,
  ◌==◌, if◌then◌else◌,
}
use testprotocols.Drivers.{
  IperfClient, IperfServer, SenderArgs, start_sender_session, start_receiver_session,
}
use testprotocols.Exec.{
  Outcome, ret, exc, map_outcome, Action, pure, raise, get, lift, try_except, try_finally, ◌>>=◌,
  ◌>>◌,
}
use testprotocols.Exec.Failure.{
  value_error, non_completion, local_receiver, no_completed_session, silent_receiver,
  silent_initiator,
}
use Prim.Native.Nat.{max}
use testprotocols.Prelude.Int.{ℤ, pos, ◌+ℤ◌}
use testprotocols.Throughput.Await.{Timing, Parsing, await_session}
use testprotocols.Throughput.Json.{Floating}
use testprotocols.Throughput.Sessions.{
  count_sessions, last_session_rtt_ms, last_session_retransmits,
}

pub record ThroughputFlow (W : Type 0) : Type 0 where
  pub sender : IperfClient W
  pub receiver : IperfServer W
  pub dest_host : String
  pub port : ℕ
  pub reverse : Bool
  pub omit_s : ℕ
  pub bandwidth_mbps : Option ℕ
  pub parallel : Option ℕ
  pub window : Option (List ℕ)

pub record FlowThroughput (F : Type 0) : Type 0 where
  pub port : ℕ
  pub mbps : F
  pub min_rtt_ms : Option F
  pub mean_rtt_ms : Option F
  pub retransmits : Option ℤ

-- An entry of `started`, and one of `senders`.
pub record Started (W : Type 0) : Type 0 where
  pub flow : ThroughputFlow W
  pub receiver_pid : ℕ
  pub receiver_log : String
  pub prior_sessions : ℕ

pub record Sending (W : Type 0) : Type 0 where
  pub sender : IperfClient W
  pub sender_pid : ℕ
  pub sender_log : String

pub record Local (W : Type 0) : Type 0 where
  pub world : W
  pub started : List (Started W)
  pub senders : List (Sending W)

module _ {W A : Type 0} where
  -- A call that leaves the two lists alone.
  abbrev pub outside : Action W A → Action (Local W) A
  outside m c = let (r, w) = m c.world in (r, record c { world = w })

module _ {W : Type 0} where
  abbrev pub modify : (Local W → Local W) → Action (Local W) (Unit {0})
  modify f c = (ret tt, f c)

-- `x in xs`
abbrev contains : ℕ → List ℕ → Bool
contains x [] = false
contains x (y ∷ ys) = x == y || contains x ys

-- `len(set(ports)) == len(ports)`
unfoldable pub are_distinct : List ℕ → Bool
are_distinct [] = true
are_distinct (x ∷ xs) = not (contains x xs) && are_distinct xs

-- `flow.omit_s or None`
abbrev pub or_none : ℕ → Option ℕ
or_none n = if n == 0 then none else some n

abbrev max_omit : {W : Type 0} → List (ThroughputFlow W) → ℕ
max_omit [] = 0
max_omit (f ∷ fs) = max f.omit_s (max_omit fs)

-- `zip(..., strict=True)`
unfoldable pub zip_strict : {A B : Type 0} → List A → List B → Outcome (List (A × B))
zip_strict [] [] = ret []
zip_strict (a ∷ as') (b ∷ bs) = map_outcome (λ ps. (a, b) ∷ ps) (zip_strict as' bs)
zip_strict _ _ = exc value_error

module _ {W : Type 0} where
  -- `try: stop` / `except Exception: pass`
  abbrev pub quietly : Action W (Unit {0}) → Action W (Unit {0})
  quietly stop = try_except stop (λ _. pure tt)

  unfoldable pub stop_senders : List (Sending W) → Action W (Unit {0})
  stop_senders [] = pure tt
  stop_senders (t ∷ ts) = do quietly (t.sender.stop_traffic t.sender_pid); stop_senders ts

  unfoldable pub stop_receivers : List (Started W) → Action W (Unit {0})
  stop_receivers [] = pure tt
  stop_receivers (s ∷ ss) = do
    quietly (s.flow.receiver.stop_traffic s.receiver_pid)
    stop_receivers ss

  -- The `finally`.
  unfoldable pub stop_all : Action (Local W) (Unit {0})
  unfolding stop_senders stop_receivers
  stop_all = do
    senders ← get (λ c. c.senders)
    outside (stop_senders senders)
    started ← get (λ c. c.started)
    outside (stop_receivers started)

module _ {fl : Floating} (parsing : Parsing fl) {W : Type 0} (timing : Timing W)
    (duration_s fuel : ℕ) where
  -- The first loop of the `try`: every receiver, and the sessions that its log already has.
  unfoldable pub start_receivers : List (ThroughputFlow W) → Action (Local W) (Unit {0})
  start_receivers [] = pure tt
  start_receivers (flow ∷ flows) = do
    rx ← outside (start_receiver_session flow.receiver flow.port)
    log_text ← outside (flow.receiver.get_iperf_logs rx.log_file)
    modify (λ c. record c {
      started =
          c.started
          ++ record {
            flow = flow;
            receiver_pid = rx.pid;
            receiver_log = rx.log_file;
            prior_sessions = count_sessions fl parsing.loads log_text;
          }
            ∷ [];
    })
    start_receivers flows

  abbrev pub sender_args : ThroughputFlow W → SenderArgs
  sender_args flow = record {
    host = flow.dest_host;
    traffic_port = flow.port;
    bandwidth = flow.bandwidth_mbps;
    time = duration_s;
    reverse = flow.reverse;
    omit_s = or_none flow.omit_s;
    json_output = true;
    parallel = flow.parallel;
  }

  -- The second loop: every sender.
  unfoldable pub start_senders : List (Started W) → Action (Local W) (Unit {0})
  start_senders [] = pure tt
  start_senders (s ∷ started) = do
    tx ← outside (start_sender_session s.flow.sender (sender_args s.flow) s.flow.window)
    modify (λ c. record c {
      senders =
          c.senders
          ++ record { sender = s.flow.sender; sender_pid = tx.pid; sender_log = tx.log_file } ∷ [];
    })
    start_senders started

  abbrev no_session : Bool → ℕ → Action W (FlowThroughput fl.F)
  no_session initiator port = raise (
      non_completion (record {
        which_side = local_receiver;
        what = no_completed_session;
        detail = if initiator then silent_initiator port else silent_receiver port;
        port = port;
      }))

  -- The facts of a flow whose rate is known, from the log of the side that sent the data.
  abbrev sent_facts : ℕ → fl.F → List ℕ → Action W (FlowThroughput fl.F)
  sent_facts port mbps log_text = do
    rtt ← lift (last_session_rtt_ms fl parsing.loads log_text)
    retransmits ← lift (last_session_retransmits fl parsing.loads log_text)
    pure (record {
      port = port;
      mbps = mbps;
      min_rtt_ms = rtt.0;
      mean_rtt_ms = rtt.1;
      retransmits = retransmits;
    })

  -- A reverse flow has its rate from the sender's log and the rest from the receiver's; a forward
  -- flow has its rate from the receiver's log and the rest, if there is one, from the sender's.
  unfoldable pub flow_facts :
      (reverse : Bool) (port : ℕ)
      → List ℕ × fl.F
      → Option (List ℕ × fl.F)
      → Action W (FlowThroughput fl.F)
  flow_facts true port (receiver_text, rx_mbps) none = no_session true port
  flow_facts true port (receiver_text, rx_mbps) (some (sender_text, mbps)) =
      sent_facts port mbps receiver_text
  flow_facts false port (receiver_text, rx_mbps) (some (sender_text, mbps)) =
      sent_facts port rx_mbps sender_text
  flow_facts false port (receiver_text, rx_mbps) none = pure (record {
    port = port;
    mbps = rx_mbps;
    min_rtt_ms = none;
    mean_rtt_ms = none;
    retransmits = none;
  })

  -- One round of the last loop.
  unfoldable pub flow_result : ℤ → Started W × Sending W → Action W (FlowThroughput fl.F)
  unfolding flow_facts
  flow_result deadline (s, t) = do
    rx ←
        await_session parsing (s.flow.receiver.get_iperf_logs s.receiver_log) timing fuel
          s.prior_sessions deadline
    elim rx [
      | none ↦ no_session false s.flow.port
      | some r ↦ do
        tx ←
            await_session parsing (s.flow.sender.get_iperf_logs t.sender_log) timing fuel 0 deadline
        flow_facts s.flow.reverse s.flow.port r tx
    ]

  unfoldable pub collect : ℤ → List (Started W × Sending W) → Action W (List (FlowThroughput fl.F))
  unfolding flow_result
  collect deadline [] = pure []
  collect deadline (p ∷ ps) = do
    result ← flow_result deadline p
    results ← collect deadline ps
    pure (result ∷ results)

  -- The body of the `try`.
  unfoldable pub run_flows : List (ThroughputFlow W) → Action (Local W) (List (FlowThroughput fl.F))
  unfolding start_receivers start_senders collect zip_strict
  run_flows flows = do
    start_receivers flows
    started ← get (λ c. c.started)
    start_senders started
    outside (timing.sleep (pos (duration_s + max_omit flows)))
    now ← outside timing.monotonic
    c ← get (λ c. c)
    pairs ← lift (zip_strict c.started c.senders)
    outside (collect (now +ℤ timing.result_timeout_s) pairs)

  unfoldable pub measure_concurrent_throughput :
      List (ThroughputFlow W) → Action W (List (FlowThroughput fl.F))
  unfolding are_distinct run_flows stop_all
  measure_concurrent_throughput flows w =
      if are_distinct (map (λ f. f.port) flows)
      then (let (r, c) =
            try_finally (run_flows flows) stop_all
              (record { world = w; started = []; senders = [] }) in
          (r, c.world))
      else (exc value_error, w)
