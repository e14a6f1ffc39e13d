-- ===== src/Throughput/External/Examples.antt =====
-- A sender that books what it does and cannot be stopped without an exception.
use testprotocols.Drivers.{IperfClient, start_sender_session}
use testprotocols.Exec.{ret, exc}
use testprotocols.Exec.Failure.{attribute_error}
use testprotocols.Exec.Post.{Post}
use testprotocols.Prelude.{refl, none, some, false, List, [], ◌∷◌, ◌++◌}
use testprotocols.Prelude.Int.{pos}
use testprotocols.Prelude.Text.{codes}
use testprotocols.Throughput.Await.{Timing}
use testprotocols.Throughput.Examples.{parsing}
use testprotocols.Throughput.External.{ExternalFlow, measure_external_flow}
use testprotocols.Throughput.External.Balance.{
  Event, started, stopped, BooksSender, IsQuiet, Balanced, measure_external_flow-Balanced,
}

abbrev client : IperfClient (List Event)
client = record {
  start_sender = none;
  start_traffic_sender =
      some (λ args window l. (ret (record { pid = 7; log_file = "c.log" }), l ++ started 7 ∷ []));
  stop_traffic = λ pid l. (exc attribute_error, l ++ stopped pid ∷ []);
  get_iperf_logs = λ file l. (ret (codes "{s}"), l);
}

client-BooksSender : BooksSender (λ l. l) client
unfolding start_sender_session
client-BooksSender = record {
  starts = λ args window l. refl;
  stops = λ pid l. refl;
  reads = λ file l. refl;
}

abbrev timing : Timing (List Event)
timing = record {
  sleep = λ d l. (ret tt, l);
  monotonic = λ l. (ret (pos 0), l);
  result_timeout_s = pos 0;
  poll_interval_s = pos 1;
}

timing-IsQuiet : IsQuiet (λ l. l) timing
timing-IsQuiet = record { sleeps = λ d l. refl; reads = λ l. refl }

abbrev flow : ExternalFlow (List Event)
flow = record {
  sender = client;
  dest_host = "198.51.100.7";
  port = 5201;
  reverse = false;
  parallel = none;
  omit_s = 0;
  bandwidth_mbps = none;
  window = none;
}

measure_external_flow-Balanced_example :
    Post
      (measure_external_flow parsing 1 flow 10 timing)
      (Balanced (λ l. l) parsing timing timing-IsQuiet [])
      []
measure_external_flow-Balanced_example =
    measure_external_flow-Balanced (λ l. l) parsing timing timing-IsQuiet flow client-BooksSender 1
      10 []
