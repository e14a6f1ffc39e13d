-- ===== src/Waiting/Rule.antt =====
-- The invariant rule of the poll loop of waiting.py, and of every loop built on it.
use testprotocols.Prelude.{ℕ, zero, suc, ◌≡◌, Bool, true, false, if◌then◌else◌}
use testprotocols.Prelude.Int.{ℤ, leb_ℤ}
use testprotocols.Exec.{Outcome, ret, out_of_fuel, Action, pure, ◌>>=◌, ◌>>◌}
use testprotocols.Exec.Post.{Post, OnReturn, Post-bind, Post-if}
use testprotocols.Waiting.{Pace, poll}

module _ {W : Type 0} where
  abbrev pub Reading : (Outcome Bool → W → Type 0) → (W → Type 0) → Bool → W → Type 0
  Reading Q Missed true w = Q (ret true) w
  Reading Q Missed false w = Missed w

  -- What to show of a round with `f` rounds of fuel left after it: `Idle` holds before the
  -- predicate runs, `Missed` once it has read `false`, `Early` once the clock shows time to be left.
  pub record PollRule (predicate : Action W Bool) (pace : Pace W) (deadline : ℤ)
      (Idle Missed Early : ℕ → W → Type 0) (Q : Outcome Bool → W → Type 0) : Type 0 where
    pub spent : (w : W) → Idle zero w → Q out_of_fuel w
    pub tested :
        (f : ℕ) (w : W) → Idle (suc f) w → Post predicate (OnReturn (Reading Q (Missed f)) Q) w
    pub clocked :
        (f : ℕ) (w : W)
        → Missed f w
        → Post pace.monotonic
            (OnReturn
              (λ now w'.
                (leb_ℤ deadline now ≡ true → Q (ret false) w')
                × (leb_ℤ deadline now ≡ false → Early f w'))
              Q)
            w
    pub slept :
        (f : ℕ) (w : W) → Early f w → Post (pace.sleep pace.interval) (OnReturn (λ _. Idle f) Q) w

module _ {W : Type 0} {predicate : Action W Bool} {pace : Pace W} {deadline : ℤ}
    {Idle Missed Early : ℕ → W → Type 0} {Q : Outcome Bool → W → Type 0}
    (rule : PollRule predicate pace deadline Idle Missed Early Q) where
  round-Post :
      (f : ℕ) (w : W)
      → ((w' : W) → Idle f w' → Post (poll predicate pace f deadline) Q w')
      → Idle (suc f) w
      → Post (poll predicate pace (suc f) deadline) Q w
  unfolding poll
  round-Post f w again h = Post-bind (Reading Q (Missed f)) Q predicate _ w (rule.tested f w h) read
    where
      again_or_not :
          (now : ℤ) (w' : W)
          → (leb_ℤ deadline now ≡ true → Q (ret false) w')
            × (leb_ℤ deadline now ≡ false → Early f w')
          → Post
              (if leb_ℤ deadline now
                then pure false
                else (pace.sleep pace.interval >> poll predicate pace f deadline))
              Q
              w'
      again_or_not now w' (late, early) = Post-if Q (leb_ℤ deadline now) _ _ w' late λ e.
          Post-bind (λ _. Idle f) Q (pace.sleep pace.interval) _ w' (rule.slept f w' (early e))
            (λ _. again)

      read :
          (b : Bool) (w' : W)
          → Reading Q (Missed f) b w'
          → Post
              (if b
                then pure true
                else (pace.monotonic >>= λ now.
                    if leb_ℤ deadline now
                    then pure false
                    else (pace.sleep pace.interval >> poll predicate pace f deadline)))
              Q
              w'
      read true w' k = k
      read false w' k = Post-bind _ Q pace.monotonic _ w' (rule.clocked f w' k) again_or_not

  pub poll-Post : (f : ℕ) (w : W) → Idle f w → Post (poll predicate pace f deadline) Q w
  unfolding poll
  poll-Post zero w h = rule.spent w h
  poll-Post (suc f) w h = round-Post f w (poll-Post f) h
