-- ===== src/Throughput/Await/Ends.antt =====
-- How the waits of throughput.py end, given a clock that moves on and a log that can be read.
use testprotocols.Prelude.{
  ℕ, suc, String, ◌≡◌, refl, ◌⊎◌, inl, inr, true, false, Option, none, some, List,
}
use mathlib.Core.Option
use testprotocols.Exec.{Outcome, ret, exc, out_of_fuel, Action, pure, raise, lift, ◌>>=◌}
use testprotocols.Exec.Failure.{
  endpoint, unknown, error_document, no_completed_session, raw, silent_client, non_completion,
  overflow_error,
}
use testprotocols.Exec.Post.{Post, OnReturn, Returns, Post-bind, Post-call}
use testprotocols.Exec.Time.{Near, InTime, Early, Early-sleep, Clock}
use testprotocols.Prelude.Int.{ℤ, pos, ◌≤ℤ◌, leb_ℤ, leb_ℤ→le, int_laws}
use testprotocols.Throughput.Await.{
  Timing, Parsing, poll_for, new_rate, look_for_session, await_session, look_for_client_session,
  await_client_session, ℕ, Option, List, some,
}
use testprotocols.Throughput.Await.Rule.{LoopRule, Attempted, poll_for-Post}
use testprotocols.Throughput.Await.Rates.{IsNewSession, IsHuge, ReadRate, new_rate-ReadRate}
use testprotocols.Throughput.Json.{Floating}
use testprotocols.Throughput.Sessions.{last_session_error}

module _ {W : Type 0} (now : W → ℤ) where
  -- A log that can be read, at any time.
  abbrev pub Readable : Action W (List ℕ) → Type 0
  Readable read = (w : W) → Post read (Returns (λ _ w'. now w ≤ℤ now w')) w

  deadline_split :
      {A : Type 0} (step : ℕ) (deadline : ℤ) (Q : Outcome A → W → Type 0) (expired : Action W A)
      → ((w : W) → deadline ≤ℤ now w → Post expired Q w)
      → (f : ℕ) (w : W) → Near now step deadline f w
      → (t : ℤ) (w' : W) → (t ≡ now w') × (now w ≤ℤ now w')
      → (leb_ℤ deadline t ≡ true → Post expired Q w')
        × (leb_ℤ deadline t ≡ false → Early now step deadline f w')
  deadline_split step deadline Q expired late f w h t w' (e, k) =
      rw e (λ l. late w' (leb_ℤ→le deadline (now w') l), λ early. (omega int_laws, early))

  module _ {A : Type 0} (attempt : Action W (Option A)) (expired : Action W A) (timing : Timing W)
      (step : ℕ) (deadline : ℤ) (Q : Outcome A → W → Type 0)
      (clock : Clock now timing.monotonic
        (timing.sleep timing.poll_interval_s)
        timing.poll_interval_s)
      (interval : timing.poll_interval_s ≡ pos step)
      (late : (w : W) → deadline ≤ℤ now w → Post expired Q w)
      (attempts : (f : ℕ) (w : W)
        → Near now step deadline f w
        → Post attempt (OnReturn (Attempted Q (Near now step deadline f)) Q) w) where
    time_rule :
        LoopRule attempt expired timing deadline
          (InTime now step deadline)
          (Near now step deadline)
          (Early now step deadline)
          Q
    time_rule = record {
      spent = λ w h. absurd h;
      tried = λ f w h. attempts f w h;
      clocked = λ f w h.
          Post-call _ _ Q timing.monotonic w (clock.reads w)
            (deadline_split step deadline Q expired late f w h);
      slept = λ f w h.
          Post-call _ _ Q (timing.sleep timing.poll_interval_s) w (clock.sleeps w)
            (λ _ w' k. Early-sleep now step deadline f w w' h (rw interval at k));
    }

    timed_Post :
        (f : ℕ) (w : W)
        → Near now step deadline f w
        → Post (poll_for attempt expired timing (suc f) deadline) Q w
    timed_Post f w h = poll_for-Post time_rule (suc f) w h

module _ {fl : Floating} (parsing : Parsing fl) {W : Type 0} (now : W → ℤ) where
  abbrev pub SessionOrLate : ℕ → ℤ → Option (List ℕ × fl.F) → W → Type 0
  SessionOrLate prior deadline (some (log_text, mbps)) w = IsNewSession parsing prior log_text mbps
  SessionOrLate prior deadline none w = deadline ≤ℤ now w

  -- How `_await_session` may end.
  abbrev pub SessionOutcome : ℕ → ℤ → Outcome (Option (List ℕ × fl.F)) → W → Type 0
  SessionOutcome prior deadline (ret found) w = SessionOrLate prior deadline found w
  SessionOutcome prior deadline (exc e) w =
      (e ≡ overflow_error) × (log_text : List ℕ) × IsHuge parsing prior log_text
  SessionOutcome prior deadline out_of_fuel w = ⊥

  session_found :
      (prior : ℕ) (deadline : ℤ) (Missed : W → Type 0) (log_text : List ℕ) (w : W)
      → Missed w
      → (rate : Outcome (Option fl.F)) → ReadRate parsing prior log_text rate
      → Post
          (lift rate >>= λ r. pure (Option.map (λ mbps. some (log_text, mbps)) r))
          (OnReturn
            (Attempted (SessionOutcome prior deadline) Missed)
            (SessionOutcome prior deadline))
          w
  session_found prior deadline Missed log_text w h (ret none) e = h
  session_found prior deadline Missed log_text w h (ret (some mbps)) e = e
  session_found prior deadline Missed log_text w h (exc x) (o, k) = (o, log_text, k)
  session_found prior deadline Missed log_text w h out_of_fuel e = e

  session_looks :
      (read : Action W (List ℕ)) (timing : Timing W) (prior step : ℕ) (deadline : ℤ)
      → Readable now read
      → (f : ℕ) (w : W) → Near now step deadline f w
      → Post
          (look_for_session parsing read timing prior)
          (OnReturn
            (Attempted (SessionOutcome prior deadline) (Near now step deadline f))
            (SessionOutcome prior deadline))
          w
  unfolding look_for_session
  session_looks read timing prior step deadline readable f w h =
      let Q =
        OnReturn (Attempted (SessionOutcome prior deadline) (Near now step deadline f))
          (SessionOutcome prior deadline) in
      Post-bind (λ _. Near now step deadline f) Q read _ w
        (Post-call _ _ Q read w (readable w) (λ _ w' l. omega int_laws))
        (λ log_text w' k.
          session_found prior deadline (Near now step deadline f) log_text w' k
            (new_rate parsing prior log_text) (new_rate-ReadRate parsing prior log_text))

  -- Given a clock that moves on, a log that can be read and fuel for the time left, `_await_session`
  -- ends: it returns a log with more than `prior` sessions and the rate of its last one, or nothing
  -- once the deadline has passed; it raises only an `OverflowError`, of a log with more than `prior`
  -- sessions whose last one has a whole number as a rate that no float holds.
  pub await_session-SessionOutcome :
      (read : Action W (List ℕ)) (timing : Timing W) (step f prior : ℕ) (deadline : ℤ)
      → Readable now read
      → Clock now timing.monotonic (timing.sleep timing.poll_interval_s) timing.poll_interval_s
      → timing.poll_interval_s ≡ pos step
      → (w : W) → Near now step deadline f w
      → Post
          (await_session parsing read timing (suc f) prior deadline)
          (SessionOutcome prior deadline)
          w
  unfolding await_session
  await_session-SessionOutcome read timing step f prior deadline readable clock interval w h =
      let Q = SessionOutcome prior deadline in
      timed_Post now (look_for_session parsing read timing prior) (pure none) timing step deadline Q
        clock interval (λ w l. l) (session_looks read timing prior step deadline readable) f w h

  -- What `_await_client_session` may leave.
  abbrev pub ClientOutcome :
      (log_path : String) (port : ℕ) (deadline : ℤ) → Outcome (List ℕ × fl.F) → W → Type 0
  ClientOutcome log_path port deadline (ret (log_text, mbps)) w =
      (last_session_error fl parsing.loads parsing.show log_text ≡ none)
      × IsNewSession parsing 0 log_text mbps
  ClientOutcome log_path port deadline (exc (non_completion failure)) w =
      ((log_text : List ℕ) × (error : List ℕ) × (last_session_error fl parsing.loads parsing.show
            log_text
          ≡ some error)
        × (failure ≡ record {
          which_side = endpoint;
          what = error_document;
          detail = raw error;
          port = port;
        }))
      ⊎ ((failure ≡ record {
        which_side = unknown;
        what = no_completed_session;
        detail = silent_client log_path;
        port = port;
      })
          × (deadline ≤ℤ now w))
  ClientOutcome log_path port deadline (exc e) w =
      (e ≡ overflow_error)
      × (log_text : List ℕ) × IsHuge parsing 0 log_text
      × (last_session_error fl parsing.loads parsing.show log_text ≡ none)
  ClientOutcome log_path port deadline out_of_fuel w = ⊥

  module _ (log_path : String) (port : ℕ) (deadline : ℤ) where
    abbrev Client : Outcome (List ℕ × fl.F) → W → Type 0
    Client = ClientOutcome log_path port deadline

    rate_end :
        (Missed : W → Type 0) (log_text : List ℕ) (w : W)
        → Missed w
        → last_session_error fl parsing.loads parsing.show log_text ≡ none
        → (rate : Outcome (Option fl.F)) → ReadRate parsing 0 log_text rate
        → Post
            (lift rate >>= λ r. pure (Option.map (λ mbps. (log_text, mbps)) r))
            (OnReturn (Attempted Client Missed) Client)
            w
    rate_end Missed log_text w h clean (ret none) e = h
    rate_end Missed log_text w h clean (ret (some mbps)) e = (clean, e)
    rate_end Missed log_text w h clean (exc x) (o, k) = rw o (refl, log_text, k, clean)
    rate_end Missed log_text w h clean out_of_fuel e = e

    -- The rest of a round, by the error of the log.
    abbrev client_round : List ℕ → Option (List ℕ) → Action W (Option (List ℕ × fl.F))
    client_round log_text (some error) = raise (
        non_completion (record {
          which_side = endpoint;
          what = error_document;
          detail = raw error;
          port = port;
        }))
    client_round log_text none = do
      rate ← lift (new_rate parsing 0 log_text)
      pure (Option.map (λ mbps. (log_text, mbps)) rate)

    error_end :
        (Missed : W → Type 0) (log_text : List ℕ) (w : W)
        → Missed w
        → (error : Option (List ℕ))
        → last_session_error fl parsing.loads parsing.show log_text ≡ error
        → Post (client_round log_text error) (OnReturn (Attempted Client Missed) Client) w
    error_end Missed log_text w h none e =
        rate_end Missed log_text w h e (new_rate parsing 0 log_text)
          (new_rate-ReadRate parsing 0 log_text)
    error_end Missed log_text w h (some error) e = inl (log_text, error, e, refl)

    round_end :
        (read : Action W (List ℕ)) (timing : Timing W) (step : ℕ)
        → Readable now read
        → (f : ℕ) (w : W) → Near now step deadline f w
        → Post
            (look_for_client_session parsing read timing port)
            (OnReturn (Attempted Client (Near now step deadline f)) Client)
            w
    unfolding look_for_client_session
    round_end read timing step readable f w h =
        let Q = OnReturn (Attempted Client (Near now step deadline f)) Client in
        Post-bind (λ _. Near now step deadline f) Q read _ w
          (Post-call _ _ Q read w (readable w) (λ _ w' l. omega int_laws))
          (λ log_text w' k.
            error_end (Near now step deadline f) log_text w' k
              (last_session_error fl parsing.loads parsing.show log_text) refl)

  -- Given a clock that moves on, a log that can be read and fuel for the time left,
  -- `_await_client_session` ends in one of four ways: with a log that has a session and a rate and no
  -- error in its last document; with the `NonCompletion` that carries an error document's text; the
  -- deadline passed, with the one that names the silent log; or with an `OverflowError`, of a log
  -- without an error whose last document has a whole number as a rate that no float holds.
  pub await_client_session-ClientOutcome :
      (read : Action W (List ℕ)) (timing : Timing W) (step f : ℕ) (log_path : String) (port : ℕ)
      (deadline : ℤ)
      → Readable now read
      → Clock now timing.monotonic (timing.sleep timing.poll_interval_s) timing.poll_interval_s
      → timing.poll_interval_s ≡ pos step
      → (w : W) → Near now step deadline f w
      → Post
          (await_client_session parsing read timing (suc f) log_path port deadline)
          (ClientOutcome log_path port deadline)
          w
  unfolding await_client_session
  await_client_session-ClientOutcome read timing step f log_path port deadline readable clock
        interval w h =
      timed_Post now (look_for_client_session parsing read timing port) _ timing step deadline
        (Client log_path port deadline) clock interval (λ w l. inr (refl, l))
        (round_end log_path port deadline read timing step readable) f w h
