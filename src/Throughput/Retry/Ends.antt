-- ===== src/Throughput/Retry/Ends.antt =====
-- How the retries end.
use testprotocols.Prelude.{ℕ, zero, suc, ◌≡◌, ◌⊎◌, inl, inr, Bool, false, not, arith}
use testprotocols.Prelude.Int.{ℤ, pos, ◌≤ℤ◌, leb_ℤ, leb_ℤ→le, int_laws}
use testprotocols.Exec.{Outcome, ret, exc, out_of_fuel, Action, handle, ◌>>◌}
use testprotocols.Exec.Failure.{
  Exception, NonCompletion, non_completion, value_error, type_error, key_error, attribute_error,
  overflow_error, other,
}
use testprotocols.Exec.Post.{Post, Returns, Post-bind, Post-call, Post-if}
use testprotocols.Exec.Time.{Near, InTime, Early, Early-sleep, Clock}
use testprotocols.Throughput.Retry.{Retrying, retry_on_noncompletion, is_retried, report, absorb}

module _ {W T : Type 0} (now : W → ℤ) (Measured : T → W → Type 0)
    (Raised : Exception → Type 0) where
  -- How an attempt may end: with what it is to measure, or by an exception of its own.
  abbrev pub Attempted : Outcome T → W → Type 0
  Attempted (ret t) w = Measured t w
  Attempted (exc e) w = Raised e
  Attempted out_of_fuel w = ⊥

  -- A non-completion comes out late, or refused by the caller's predicate.
  abbrev pub EndsBy : (NonCompletion → Bool) → ℤ → Outcome T → W → Type 0
  EndsBy wanted deadline (ret t) w = Measured t w
  EndsBy wanted deadline (exc (non_completion failure)) w =
      Raised (non_completion failure) × ((deadline ≤ℤ now w) ⊎ (wanted failure ≡ false))
  EndsBy wanted deadline (exc e) w = Raised e
  EndsBy wanted deadline out_of_fuel w = ⊥

  -- The parts of the retry loop that the caller gives, and the time that they take.
  pub record RetryParts {R : Type 0} (attempt : R → Action W T) (allocate : Action W R)
      (retrying : Retrying W R) (wanted : NonCompletion → Bool) : Type 0 where
    pub allocates : (w : W) → Post allocate (Returns (λ _ w'. now w ≤ℤ now w')) w
    pub attempts : (r : R) (w : W) → Post (attempt r) (λ o w'. Attempted o w' × (now w ≤ℤ now w')) w
    pub decides :
        (n : NonCompletion) (w : W)
        → Post
            (is_retried attempt allocate retrying n)
            (Returns (λ b w'. (b ≡ wanted n) × (now w ≤ℤ now w')))
            w
    pub reports :
        (n : NonCompletion) (r : R) (w : W)
        → Post (report attempt allocate retrying n r) (Returns (λ _ w'. now w ≤ℤ now w')) w
    pub clock :
        Clock now retrying.monotonic
          (retrying.sleep retrying.busy_backoff_s)
          retrying.busy_backoff_s

  module _ {R : Type 0} {attempt : R → Action W T} {allocate : Action W R} {retrying : Retrying W R}
      {wanted : NonCompletion → Bool} (parts : RetryParts attempt allocate retrying wanted)
      (step : ℕ) (backoff : retrying.busy_backoff_s ≡ pos step) (deadline : ℤ) where
    abbrev Q : Outcome T → W → Type 0
    Q = EndsBy wanted deadline

    -- A retry that the caller wants, after the clock has shown time to be left at `w₁`.
    retried-EndsBy :
        (f : ℕ) (again : Action W T)
        → ((w : W) → InTime now step deadline f w → Post again Q w)
        → (r : R) (failure : NonCompletion) (w₁ w : W) → Early now step deadline f w₁
        → now w₁ ≤ℤ now w
        → Post
            (do
              report attempt allocate retrying failure r
              retrying.sleep retrying.busy_backoff_s
              again)
            Q
            w
    retried-EndsBy f again next r failure w₁ w early k =
        let told = report attempt allocate retrying failure r in
        let pause = retrying.sleep retrying.busy_backoff_s in
        Post-bind (λ _ w'. now w₁ ≤ℤ now w') Q told _ w
          (Post-call _ _ Q told w (parts.reports failure r w) (λ _ w' l. omega int_laws))
          (λ _ w' l.
            Post-bind (λ _. InTime now step deadline f) Q pause _ w'
              (Post-call _ _ Q pause w' (parts.clock.sleeps w') (λ _ w'' m.
                Early-sleep now step deadline f w₁ w'' early
                  (omega (int_laws, rw backoff at m, l))))
              (λ _. next))

    absorb-EndsBy :
        (f : ℕ) (again : Action W T)
        → ((w : W) → InTime now step deadline f w → Post again Q w)
        → (r : R) (failure : NonCompletion) (w : W) → Raised (non_completion failure)
        → Near now step deadline f w
        → Post (absorb attempt allocate retrying again deadline r (non_completion failure)) Q w
    absorb-EndsBy f again next r failure w m h =
        let asked = is_retried attempt allocate retrying failure in
        Post-bind (λ t w'. (t ≡ now w') × (now w ≤ℤ now w')) Q retrying.monotonic _ w
          (Post-call _ _ Q retrying.monotonic w (parts.clock.reads w) (λ _ _ k. k))
          (λ t w₁ (e, k).
            Post-if Q (leb_ℤ deadline t) _ _ w₁
              (λ late. (m, inl (leb_ℤ→le deadline (now w₁) (rw e at late))))
              (λ early.
                Post-bind (λ b w'. (b ≡ wanted failure) × (now w₁ ≤ℤ now w')) Q asked _ w₁
                  (Post-call _ _ Q asked w₁ (parts.decides failure w₁) (λ _ _ l. l))
                  (λ b w₂ (d, l).
                    Post-if Q (not b) _ _ w₂ (λ no. (m, inr (ground arith)))
                      (λ yes.
                        retried-EndsBy f again next r failure w₁ w₂ (omega int_laws, rw e at early)
                          l))))

    handled-EndsBy :
        (f : ℕ) (again : Action W T)
        → ((w : W) → InTime now step deadline f w → Post again Q w)
        → (r : R) (o : Outcome T) (w : W) → Attempted o w
        → Near now step deadline f w
        → Post (handle (absorb attempt allocate retrying again deadline r) o) Q w
    handled-EndsBy f again next r (ret t) w m h = m
    handled-EndsBy f again next r out_of_fuel w m h = absurd m
    handled-EndsBy f again next r (exc (non_completion failure)) w m h =
        absorb-EndsBy f again next r failure w m h
    handled-EndsBy f again next r (exc value_error) w m h = m
    handled-EndsBy f again next r (exc type_error) w m h = m
    handled-EndsBy f again next r (exc key_error) w m h = m
    handled-EndsBy f again next r (exc attribute_error) w m h = m
    handled-EndsBy f again next r (exc overflow_error) w m h = m
    handled-EndsBy f again next r (exc (other n)) w m h = m

    Near-later :
        (f : ℕ) (w w' : W)
        → Near now step deadline f w
        → now w ≤ℤ now w'
        → Near now step deadline f w'
    Near-later f w w' h k = omega int_laws

    loop-EndsBy :
        (f : ℕ) (w : W)
        → InTime now step deadline f w
        → Post (retry_on_noncompletion attempt allocate retrying f deadline) Q w
    unfolding retry_on_noncompletion
    loop-EndsBy zero w h = absurd h
    loop-EndsBy (suc f) w h =
        Post-bind (λ _. Near now step deadline f) Q allocate _ w
          (Post-call _ _ Q allocate w (parts.allocates w) (λ _ w' k. omega int_laws))
          (λ r w' k.
            let (o, w'') = attempt r w' in
            let (m, l) = parts.attempts r w' in
            handled-EndsBy f (retry_on_noncompletion attempt allocate retrying f deadline)
              (loop-EndsBy f) r o w'' m (Near-later f w' w'' k l))

  -- Given allocation, attempts, reports and a retry predicate that end without turning the clock back,
  -- of which only the attempts raise, a backoff of `step` ticks and fuel for the time left, the retry
  -- loop ends by itself: it returns what an attempt measured, or raises what an attempt may raise, and
  -- a `NonCompletion` only once the deadline has passed or when `retry_when` refuses it.
  pub retry_on_noncompletion-EndsBy :
      {R : Type 0} {attempt : R → Action W T} {allocate : Action W R} {retrying : Retrying W R}
      {wanted : NonCompletion → Bool} (parts : RetryParts attempt allocate retrying wanted)
      (step f : ℕ) (deadline : ℤ)
      → retrying.busy_backoff_s ≡ pos step
      → (w : W) → Near now step deadline f w
      → Post
          (retry_on_noncompletion attempt allocate retrying (suc f) deadline)
          (EndsBy wanted deadline)
          w
  retry_on_noncompletion-EndsBy parts step f deadline backoff w h =
      loop-EndsBy parts step backoff deadline (suc f) w h
