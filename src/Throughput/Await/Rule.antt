-- ===== src/Throughput/Await/Rule.antt =====
-- The invariant rule of the loop that waits for a log.
use testprotocols.Exec.{Outcome, ret, out_of_fuel, Action, pure, ◌>>=◌, ◌>>◌}
use testprotocols.Exec.Post.{Post, OnReturn, Post-bind, Post-if}
use testprotocols.Prelude.Int.{ℤ, leb_ℤ}
use testprotocols.Prelude.{ℕ, zero, suc, ◌≡◌, true, false, Option, none, some, if◌then◌else◌}
use testprotocols.Throughput.Await.{Timing, poll_for}

module _ {W A : Type 0} where
  -- What an attempt may leave: a result that ends the loop, or `Missed`.
  abbrev pub Attempted : (Outcome A → W → Type 0) → (W → Type 0) → Option A → W → Type 0
  Attempted Q Missed (some a) w = Q (ret a) w
  Attempted Q Missed none w = Missed w

  -- As the rule of the poll loop of `Waiting`; `f` is the fuel that is left after the round.
  pub record LoopRule (attempt : Action W (Option A)) (expired : Action W A) (timing : Timing W)
      (deadline : ℤ) (Idle Missed Early : ℕ → W → Type 0) (Q : Outcome A → W → Type 0)
      : Type 0 where
    pub spent : (w : W) → Idle zero w → Q out_of_fuel w
    pub tried :
        (f : ℕ) (w : W) → Idle (suc f) w → Post attempt (OnReturn (Attempted Q (Missed f)) Q) w
    pub clocked :
        (f : ℕ) (w : W)
        → Missed f w
        → Post timing.monotonic
            (OnReturn
              (λ now w'.
                (leb_ℤ deadline now ≡ true → Post expired Q w')
                × (leb_ℤ deadline now ≡ false → Early f w'))
              Q)
            w
    pub slept :
        (f : ℕ) (w : W)
        → Early f w
        → Post (timing.sleep timing.poll_interval_s) (OnReturn (λ _. Idle f) Q) w

module _ {W A : Type 0} {attempt : Action W (Option A)} {expired : Action W A} {timing : Timing W}
    {deadline : ℤ} {Idle Missed Early : ℕ → W → Type 0} {Q : Outcome A → W → Type 0}
    (rule : LoopRule attempt expired timing deadline Idle Missed Early Q) where
  pause_Post :
      (f : ℕ)
      → ((w : W) → Idle f w → Post (poll_for attempt expired timing f deadline) Q w)
      → (now : ℤ) (w : W)
      → (leb_ℤ deadline now ≡ true → Post expired Q w) × (leb_ℤ deadline now ≡ false → Early f w)
      → Post
          (if leb_ℤ deadline now
            then expired
            else (timing.sleep timing.poll_interval_s
                >> poll_for attempt expired timing f deadline))
          Q
          w
  pause_Post f again now w (late, early) = Post-if Q (leb_ℤ deadline now) _ _ w late λ e.
      Post-bind (λ _. Idle f) Q (timing.sleep timing.poll_interval_s) _ w (rule.slept f w (early e))
        (λ _. again)

  abbrev after_attempt : ℕ → Option A → Action W A
  after_attempt f (some a) = pure a
  after_attempt f none = do
    now ← timing.monotonic
    if leb_ℤ deadline now
        then expired
        else do timing.sleep timing.poll_interval_s; poll_for attempt expired timing f deadline

  attempt_Post :
      (f : ℕ)
      → ((w : W) → Idle f w → Post (poll_for attempt expired timing f deadline) Q w)
      → (found : Option A) (w : W) → Attempted Q (Missed f) found w
      → Post (after_attempt f found) Q w
  attempt_Post f again (some a) w k = k
  attempt_Post f again none w k =
      Post-bind _ Q timing.monotonic _ w (rule.clocked f w k) (pause_Post f again)

  pub poll_for-Post :
      (f : ℕ) (w : W) → Idle f w → Post (poll_for attempt expired timing f deadline) Q w
  unfolding poll_for
  poll_for-Post zero w h = rule.spent w h
  poll_for-Post (suc f) w h =
      Post-bind (Attempted Q (Missed f)) Q attempt _ w (rule.tried f w h)
        (attempt_Post f (poll_for-Post f))
