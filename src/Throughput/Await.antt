-- ===== src/Throughput/Await.antt =====
-- `_await_session` and `_await_client_session` of throughput.py: the loops that wait for a log.
pub mod Rule
pub mod Rates
pub mod Ends
use mathlib.Core.Option
use testprotocols.Exec.{Action, Outcome, ret, lift, pure, raise, exhausted, ◌>>=◌, ◌>>◌}
use testprotocols.Exec.Failure.{
  NonCompletion, endpoint, unknown, error_document, no_completed_session, raw, silent_client,
  non_completion,
}
use testprotocols.Prelude.Int.{ℤ, leb_ℤ}
use testprotocols.Prelude.{ℕ, zero, suc, String, Option, none, some, List, ltb, if◌then◌else◌}
use testprotocols.Throughput.Json.{Floating, JsonValue}
use testprotocols.Throughput.Sessions.{count_sessions, last_session_mbps, last_session_error}

-- What every wait is given of time; all of it is a parameter in the source.
pub record Timing (W : Type 0) : Type 0 where
  pub sleep : ℤ → Action W (Unit {0})
  pub monotonic : Action W ℤ
  pub result_timeout_s : ℤ
  pub poll_interval_s : ℤ

-- The loop that both waits run, with fuel: try, stop at the deadline with `expired`, sleep.
module _ {W A : Type 0} (attempt : Action W (Option A)) (expired : Action W A)
    (timing : Timing W) where
  unfoldable pub poll_for : ℕ → ℤ → Action W A
  poll_for zero deadline = exhausted
  poll_for (suc f) deadline = do
    found ← attempt
    elim found [
      | some a ↦ pure a
      | none ↦ do
        now ← timing.monotonic
        if leb_ℤ deadline now
            then expired
            else do timing.sleep timing.poll_interval_s; poll_for f deadline
    ]

-- `json.loads` and `str`, of Python's own library.
pub record Parsing (fl : Floating) : Type 0 where
  pub loads : List ℕ → Option (JsonValue fl.F)
  pub show : JsonValue fl.F → List ℕ

module _ {fl : Floating} (parsing : Parsing fl) where
  -- The rate of a log with more than `prior` sessions.
  unfoldable pub new_rate : ℕ → List ℕ → Outcome (Option fl.F)
  new_rate prior log_text =
      if ltb prior (count_sessions fl parsing.loads log_text)
      then last_session_mbps fl parsing.loads log_text
      else ret none

  module _ {W : Type 0} (read_log : Action W (List ℕ)) (timing : Timing W) where
    unfoldable pub look_for_session : ℕ → Action W (Option (Option (List ℕ × fl.F)))
    look_for_session prior = do
      log_text ← read_log
      rate ← lift (new_rate prior log_text)
      pure (Option.map (λ mbps. some (log_text, mbps)) rate)

    -- `_await_session`
    unfoldable pub await_session :
        ℕ → (prior : ℕ) → (deadline : ℤ) → Action W (Option (List ℕ × fl.F))
    await_session fuel prior deadline =
        poll_for (look_for_session prior) (pure none) timing fuel deadline

    -- What one round makes of a client's log: an error document comes before a session.
    unfoldable pub look_for_client_session : ℕ → Action W (Option (List ℕ × fl.F))
    look_for_client_session port = do
      log_text ← read_log
      elim (last_session_error fl parsing.loads parsing.show log_text) [
        | some error ↦ raise (
            non_completion (record {
              which_side = endpoint;
              what = error_document;
              detail = raw error;
              port = port;
            }))
        | none ↦ do
          rate ← lift (new_rate 0 log_text)
          pure (Option.map (λ mbps. (log_text, mbps)) rate)
      ]

    -- `_await_client_session`
    unfoldable pub await_client_session :
        ℕ → (log_path : String) → (port : ℕ) → (deadline : ℤ) → Action W (List ℕ × fl.F)
    await_client_session fuel log_path port deadline =
        poll_for (look_for_client_session port)
          (raise (
            non_completion (record {
              which_side = unknown;
              what = no_completed_session;
              detail = silent_client log_path;
              port = port;
            })))
          timing fuel deadline
