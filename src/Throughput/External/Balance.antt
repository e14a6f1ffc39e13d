-- ===== src/Throughput/External/Balance.antt =====
-- `measure_external_flow` stops the sender that it started, whatever happens in between.
use testprotocols.Prelude.{
  ℕ, String, ◌≡◌, ◌∙◌, ◌⊎◌, inl, inr, true, false, Option, none, some, List, [], ◌∷◌, ◌++◌,
  append-nil, append_assoc, if◌then◌else◌,
}
use testprotocols.Prelude.Int.{ℤ, ◌+ℤ◌, leb_ℤ}
use mathlib.Core.Option
use testprotocols.Exec.{
  Action, Outcome, ret, exc, out_of_fuel, pure, raise, lift, restore, finish, try_finally, handle,
  ◌>>=◌,
}
use testprotocols.Exec.Failure.{endpoint, error_document, raw, non_completion}
use testprotocols.Exec.Post.{Post, OnReturn, Post-bind}
use testprotocols.Drivers.{IperfClient, IperfProcess, SenderArgs, start_sender_session}
use testprotocols.Throughput.Await.{
  Timing, Parsing, new_rate, look_for_client_session, await_client_session,
}
use testprotocols.Throughput.Await.Rule.{LoopRule, Attempted, poll_for-Post}
use testprotocols.Throughput.Concurrent.{quietly, FlowThroughput}
use testprotocols.Throughput.External.{
  ExternalFlow, await_external, external_facts, external_args, measure_external_flow,
}
use testprotocols.Throughput.Json.{Floating}
use testprotocols.Throughput.Sessions.{
  last_session_error, last_session_retransmits, last_session_rtt_ms,
}

-- A start that returned a process, and a call that stops one, by the process's pid.
pub data Event : Type 0 where
  started stopped : ℕ → Event

abbrev pub start_event : Outcome IperfProcess → List Event
start_event (ret p) = started p.pid ∷ []
start_event _ = []

module _ {V : Type 0} (events : V → List Event) where
  -- A driver whose starts and stops are booked in `events`, and whose log reads are not.
  pub record BooksSender (c : IperfClient V) : Type 0 where
    pub starts :
        (args : SenderArgs) (window : Option (List ℕ)) (v : V)
        → Post
            (start_sender_session c args window)
            (λ r v'. events v' ≡ events v ++ start_event r)
            v
    pub stops :
        (pid : ℕ) (v : V)
        → Post (c.stop_traffic pid) (λ _ v'. events v' ≡ events v ++ stopped pid ∷ []) v
    pub reads :
        (file : String) (v : V) → Post (c.get_iperf_logs file) (λ _ v'. events v' ≡ events v) v

  -- A clock that books nothing.
  pub record IsQuiet (timing : Timing V) : Type 0 where
    pub sleeps : (d : ℤ) (v : V) → Post (timing.sleep d) (λ _ v'. events v' ≡ events v) v
    pub reads : (v : V) → Post timing.monotonic (λ _ v'. events v' ≡ events v) v

  abbrev Same : {A : Type 0} → List Event → Outcome A → V → Type 0
  Same l o v = events v ≡ l

  Same-return :
      {A : Type 0} (B : Type 0) (l : List Event) (R : A → V → Type 0)
      → ((a : A) (v : V) → events v ≡ l → R a v)
      → (o : Outcome A) (v : V) → events v ≡ l
      → OnReturn R (Same {A = B} l) o v
  Same-return B l R k (ret a) v e = k a v e
  Same-return B l R k (exc _) v e = e
  Same-return B l R k out_of_fuel v e = e

  -- A call that books nothing, in a block that books nothing.
  Same-bind :
      {A B : Type 0} (l : List Event) (m : Action V A) (f : A → Action V B) (v : V)
      → events v ≡ l
      → Post m (λ _ v'. events v' ≡ events v) v
      → ((a : A) (v' : V) → events v' ≡ l → Post (f a) (Same l) v')
      → Post (m >>= f) (Same l) v
  Same-bind {B = B} l m f v e h k =
      Post-bind (λ _ v'. events v' ≡ l) (Same l) m f v
        (Same-return B l (λ _ v'. events v' ≡ l) (λ _ _ x. x) (m v).0 (m v).1 (h ∙ e)) k

  module _ {fl : Floating} (parsing : Parsing fl) (timing : Timing V) (quiet : IsQuiet timing) where
    rated_Same :
        (log_text : List ℕ) (l : List Event) (v : V)
        → events v ≡ l
        → (rate : Outcome (Option fl.F))
        → Post {A = Option (List ℕ × fl.F)}
            (lift rate >>= λ r. pure (Option.map (λ mbps. (log_text, mbps)) r))
            (Same l)
            v
    rated_Same log_text l v e (ret rate) = e
    rated_Same log_text l v e (exc x) = e
    rated_Same log_text l v e out_of_fuel = e

    -- What a round makes of the log, by the log's error.
    look_end :
        (port : ℕ) (log_text : List ℕ) (l : List Event) (v : V)
        → events v ≡ l
        → (error : Option (List ℕ))
        → Post {A = Option (List ℕ × fl.F)}
            (elim error [
              | some error ↦ raise (
                  non_completion (record {
                    which_side = endpoint;
                    what = error_document;
                    detail = raw error;
                    port = port;
                  }))
              | none ↦ do
                rate ← lift (new_rate parsing 0 log_text)
                pure (Option.map (λ mbps. (log_text, mbps)) rate)
            ])
            (Same l)
            v
    look_end port log_text l v e none = rated_Same log_text l v e (new_rate parsing 0 log_text)
    look_end port log_text l v e (some error) = e

    look-Same :
        (read : Action V (List ℕ))
        → ((v : V) → Post read (λ _ v'. events v' ≡ events v) v)
        → (port : ℕ) (l : List Event) (v : V) → events v ≡ l
        → Post (look_for_client_session parsing read timing port) (Same l) v
    unfolding look_for_client_session
    look-Same read reads port l v e = Same-bind l read _ v e (reads v) (λ log_text v' e'.
        look_end port log_text l v' e' (last_session_error fl parsing.loads parsing.show log_text))

    attempted :
        {A : Type 0} (l : List Event) (o : Option A) (v : V)
        → events v ≡ l
        → Attempted (Same l) (λ v'. events v' ≡ l) o v
    attempted l none v e = e
    attempted l (some a) v e = e

    -- A wait books nothing if its attempts and its end at the deadline do not.
    events_rule :
        {A : Type 0} (attempt : Action V (Option A)) (expired : Action V A) (deadline : ℤ)
        (l : List Event)
        → ((v : V) → events v ≡ l → Post attempt (Same l) v)
        → ((v : V) → events v ≡ l → Post expired (Same l) v)
        → LoopRule attempt expired timing deadline
            (λ _ v. events v ≡ l)
            (λ _ v. events v ≡ l)
            (λ _ v. events v ≡ l)
            (Same l)
    events_rule {A} attempt expired deadline l tries ends = record {
      spent = λ v k. k;
      tried = λ f v k.
          Same-return A l (Attempted (Same l) (λ v'. events v' ≡ l)) (attempted l) (attempt v).0
            (attempt v).1 (tries v k);
      clocked = λ f v k.
          Same-return A l
            (λ now v'.
              (leb_ℤ deadline now ≡ true → Post expired (Same l) v')
              × (leb_ℤ deadline now ≡ false → events v' ≡ l))
            (λ now v' e'. (λ _. ends v' e', λ _. e')) (timing.monotonic v).0 (timing.monotonic v).1
            (quiet.reads v ∙ k);
      slept = λ f v k.
          let pause = timing.sleep timing.poll_interval_s v in
          Same-return A l (λ _ v'. events v' ≡ l) (λ _ v' e'. e') pause.0 pause.1
            (quiet.sleeps timing.poll_interval_s v ∙ k);
    }

    await-Same :
        (read : Action V (List ℕ))
        → ((v : V) → Post read (λ _ v'. events v' ≡ events v) v)
        → (fuel : ℕ) (log_path : String) (port : ℕ) (deadline : ℤ) (l : List Event) (v : V)
        → events v ≡ l
        → Post (await_client_session parsing read timing fuel log_path port deadline) (Same l) v
    unfolding await_client_session
    await-Same read reads fuel log_path port deadline l v e =
        poll_for-Post
          (events_rule (look_for_client_session parsing read timing port) _ deadline l
            (look-Same read reads port l) (λ _ k. k))
          fuel v e

    -- The sender with `pid` is stopped once, when the `try` ends by itself.
    abbrev Stopped : {A : Type 0} → List Event → ℕ → Outcome A → V → Type 0
    Stopped l pid (ret a) v = events v ≡ l ++ stopped pid ∷ []
    Stopped l pid (exc e) v = events v ≡ l ++ stopped pid ∷ []
    Stopped l pid out_of_fuel v = Unit

    restored :
        {A : Type 0} (l : List Event) (pid : ℕ) (r : Outcome A) (c : Outcome (Unit {0})) (v : V)
        → events v ≡ l ++ stopped pid ∷ []
        → Stopped l pid (restore r c) v
    restored l pid (ret a) (ret _) v e = e
    restored l pid (ret a) (exc _) v e = e
    restored l pid (ret a) out_of_fuel v e = tt
    restored l pid (exc x) (ret _) v e = e
    restored l pid (exc x) (exc _) v e = e
    restored l pid (exc x) out_of_fuel v e = tt
    restored l pid out_of_fuel (ret _) v e = tt
    restored l pid out_of_fuel (exc _) v e = e
    restored l pid out_of_fuel out_of_fuel v e = tt

    quiet_handle :
        (o : Outcome (Unit {0})) (l : List Event) (v : V)
        → events v ≡ l
        → Post (handle (λ _. pure tt) o) (Same l) v
    quiet_handle (ret _) l v e = e
    quiet_handle (exc _) l v e = e
    quiet_handle out_of_fuel l v e = e

    finish-Stopped :
        {A : Type 0} (l : List Event) (pid : ℕ) (stop : Action V (Unit {0}))
        → ((v : V) → Post stop (λ _ v'. events v' ≡ events v ++ stopped pid ∷ []) v)
        → (r : Outcome A) (v : V) → events v ≡ l
        → Post (finish (quietly stop) r) (Stopped l pid) v
    finish-Stopped l pid stop stops out_of_fuel v e = tt
    finish-Stopped l pid stop stops (ret a) v e =
        let (o, v') = stop v in
        let (c, v'') = handle (λ _. pure tt) o v' in
        restored l pid (ret a) c v''
          (quiet_handle o (l ++ stopped pid ∷ []) v' (rw (← e) (stops v)))
    finish-Stopped l pid stop stops (exc x) v e =
        let (o, v') = stop v in
        let (c, v'') = handle (λ _. pure tt) o v' in
        restored l pid (exc x) c v''
          (quiet_handle o (l ++ stopped pid ∷ []) v' (rw (← e) (stops v)))

    -- What a measurement leaves behind `l`: nothing, if no sender was started, or one start and the
    -- stop of the same process. (The model says nothing of a loop that it cut short.)
    abbrev pub Balanced : {A : Type 0} → List Event → Outcome A → V → Type 0
    Balanced l (ret a) v = (pid : ℕ) × (events v ≡ l ++ started pid ∷ stopped pid ∷ [])
    Balanced l (exc e) v =
        (events v ≡ l) ⊎ ((pid : ℕ) × (events v ≡ l ++ started pid ∷ stopped pid ∷ []))
    Balanced l out_of_fuel v = Unit

    started_return :
        (A : Type 0) (l : List Event) (o : Outcome IperfProcess) (v : V)
        → events v ≡ l ++ start_event o
        → OnReturn (λ p v'. events v' ≡ l ++ started p.pid ∷ []) (Balanced {A = A} l) o v
    started_return A l (ret p) v e = e
    started_return A l (exc x) v e = inl (e ∙ append-nil l)
    started_return A l out_of_fuel v e = tt

    stopped_return :
        {A : Type 0} (B : Type 0) (l : List Event) (pid : ℕ) (o : Outcome A) (v : V)
        → Stopped (l ++ started pid ∷ []) pid o v
        → OnReturn
            (λ _ v'. events v' ≡ l ++ started pid ∷ stopped pid ∷ [])
            (Balanced {A = B} l)
            o
            v
    stopped_return B l pid (ret a) v e = e ∙ append_assoc l (started pid ∷ []) (stopped pid ∷ [])
    stopped_return B l pid (exc x) v e =
        inr (pid, e ∙ append_assoc l (started pid ∷ []) (stopped pid ∷ []))
    stopped_return B l pid out_of_fuel v e = tt

    -- What is computed behind the stop.
    computed-Balanced :
        {A B : Type 0} (l : List Event) (pid : ℕ) (o : Outcome A) (f : A → Action V B) (v : V)
        → events v ≡ l ++ started pid ∷ stopped pid ∷ []
        → ((a : A) → Post (f a) (Balanced l) v)
        → Post (lift o >>= f) (Balanced l) v
    computed-Balanced l pid (ret a) f v e k = k a
    computed-Balanced l pid (exc x) f v e k = inr (pid, e)
    computed-Balanced l pid out_of_fuel f v e k = tt

    facts-Balanced :
        (flow : ExternalFlow V) (result : List ℕ × fl.F) (l : List Event) (pid : ℕ) (v : V)
        → events v ≡ l ++ started pid ∷ stopped pid ∷ []
        → Post (external_facts parsing flow result) (Balanced l) v
    unfolding external_facts
    facts-Balanced flow (text, mbps) l pid v e =
        let facts : Option fl.F × Option fl.F → Option ℤ → FlowThroughput fl.F = λ rtt n. record {
          port = flow.port;
          mbps = mbps;
          min_rtt_ms = rtt.0;
          mean_rtt_ms = rtt.1;
          retransmits = n;
        } in
        let retransmits = last_session_retransmits fl parsing.loads text in
        computed-Balanced l pid
          (if flow.reverse then ret (none, none) else last_session_rtt_ms fl parsing.loads text)
          (λ rtt. lift retransmits >>= λ n. pure (facts rtt n)) v e
          (λ rtt. computed-Balanced l pid retransmits (λ n. pure (facts rtt n)) v e (λ n. (pid, e)))

    -- With a driver that books what it starts and stops, and whatever else happens: a measurement
    -- that returns has started one sender and stopped that one; if it raises, it has done the same,
    -- or started none.
    pub measure_external_flow-Balanced :
        (flow : ExternalFlow V)
        → BooksSender flow.sender
        → (fuel duration_s : ℕ) (v : V)
        → Post (measure_external_flow parsing fuel flow duration_s timing) (Balanced (events v)) v
    unfolding measure_external_flow external_facts await_external
    measure_external_flow-Balanced flow books fuel duration_s v =
        let l = events v in
        let start =
          start_sender_session flow.sender (external_args parsing flow duration_s) flow.window in
        Post-bind (λ p v'. events v' ≡ l ++ started p.pid ∷ []) (Balanced l) start _ v
          (started_return (FlowThroughput fl.F) l (start v).0 (start v).1
            (books.starts (external_args parsing flow duration_s) flow.window v))
          (λ p v₁ e₁.
            let body = await_external parsing flow duration_s timing fuel p.log_file in
            let stop = flow.sender.stop_traffic p.pid in
            let guarded = try_finally body (quietly stop) in
            Post-bind (λ _ v'. events v' ≡ l ++ started p.pid ∷ stopped p.pid ∷ []) (Balanced l)
              guarded _ v₁
              (stopped_return (FlowThroughput fl.F) l p.pid (guarded v₁).0 (guarded v₁).1 (
                finish-Stopped (l ++ started p.pid ∷ []) p.pid stop (books.stops p.pid) (body v₁).0
                  (body v₁).1
                  (Same-bind (l ++ started p.pid ∷ []) (timing.sleep _) _ v₁ e₁ (quiet.sleeps _ v₁)
                    (λ _ v₂ e₂.
                      Same-bind (l ++ started p.pid ∷ []) timing.monotonic _ v₂ e₂ (quiet.reads v₂)
                        (λ now v₃ e₃.
                          await-Same (flow.sender.get_iperf_logs p.log_file)
                            (books.reads p.log_file) fuel p.log_file flow.port
                            (now +ℤ timing.result_timeout_s) (l ++ started p.pid ∷ []) v₃ e₃)))))
              (λ result v₂ e₂. facts-Balanced flow result l p.pid v₂ e₂))
