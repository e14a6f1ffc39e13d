-- ===== src/Drivers.antt =====
-- packages/testoperations/src/testoperations/_renamed.py, for iperf: a driver's member by its new
-- name when the driver has it, else by its released name.
use testprotocols.Prelude.{ℕ, String, Bool, Option, none, some, List}
use mathlib.Core.Option
use testprotocols.Compat.{parse_window_size}
use testprotocols.Exec.{Outcome, ret, map_outcome, Action, raise, lift, ◌>>=◌}
use testprotocols.Exec.Failure.{attribute_error}

pub record IperfProcess : Type 0 where
  pub pid : ℕ
  pub log_file : String

-- The arguments of a sender that its two names share.
pub record SenderArgs : Type 0 where
  pub host : String
  pub traffic_port : ℕ
  pub bandwidth : Option ℕ
  pub time : ℕ
  pub reverse : Bool
  pub omit_s : Option ℕ
  pub json_output : Bool
  pub parallel : Option ℕ

-- The members that the measurements call; one that a driver lacks is `none`. The boolean that
-- `stop_traffic` returns is not read.
pub record IperfClient (W : Type 0) : Type 0 where
  pub start_sender : Option (SenderArgs → (window_bytes : Option ℕ) → Action W IperfProcess)
  pub start_traffic_sender :
      Option (SenderArgs → (window : Option (List ℕ)) → Action W IperfProcess)
  pub stop_traffic : ℕ → Action W (Unit {0})
  pub get_iperf_logs : String → Action W (List ℕ)

pub record IperfServer (W : Type 0) : Type 0 where
  pub start_receiver : Option (ℕ → Action W IperfProcess)
  pub start_traffic_receiver : Option (ℕ → Action W IperfProcess)
  pub stop_traffic : ℕ → Action W (Unit {0})
  pub get_iperf_logs : String → Action W (List ℕ)

module _ {W A : Type 0} where
  -- `_callable_member`: a missing member is an `AttributeError`.
  abbrev pub member : Option (Action W A) → Action W A
  member none = raise attribute_error
  member (some call) = call

abbrev pub window_size : Option (List ℕ) → Outcome (Option ℕ)
window_size none = ret none
window_size (some text) = map_outcome some (parse_window_size text)

module _ {W : Type 0} where
  unfoldable pub start_sender_session :
      IperfClient W → SenderArgs → (window : Option (List ℕ)) → Action W IperfProcess
  start_sender_session driver args window = elim driver.start_sender [
    | some start ↦ do window_bytes ← lift (window_size window); start args window_bytes
    | none ↦ member (Option.map (λ start. start args window) driver.start_traffic_sender)
  ]

  unfoldable pub start_receiver_session : IperfServer W → ℕ → Action W IperfProcess
  start_receiver_session driver traffic_port = elim driver.start_receiver [
    | some start ↦ start traffic_port
    | none ↦ member (Option.map (λ start. start traffic_port) driver.start_traffic_receiver)
  ]
