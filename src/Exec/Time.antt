-- ===== src/Exec/Time.antt =====
-- How long a poll loop can go on by a clock: what its rounds keep of the time that is left.
use testprotocols.Exec.{Action}
use testprotocols.Exec.Post.{Post, Returns}
use testprotocols.Prelude.{ℕ, zero, suc, ◌*◌, ◌≡◌, false}
use testprotocols.Prelude.Int.{ℤ, pos, ◌+ℤ◌, ◌≤ℤ◌, leb_ℤ, leb_ℤ→lt, int_laws}

-- `now w` is the time at the world `w`. A clock that never goes back, and a pause of at least a
-- given length: `time.monotonic` and `time.sleep` as Python documents them.
pub record Clock {W : Type 0} (now : W → ℤ) (monotonic : Action W ℤ) (pause : Action W (Unit {0}))
    (by : ℤ) : Type 0 where
  pub reads : (w : W) → Post monotonic (Returns (λ t w'. (t ≡ now w') × (now w ≤ℤ now w'))) w
  pub sleeps : (w : W) → Post pause (Returns (λ _ w'. now w +ℤ by ≤ℤ now w')) w

-- A pause takes `step` ticks at least.
module _ {W : Type 0} (now : W → ℤ) (step : ℕ) (deadline : ℤ) where
  -- `f` pauses reach the deadline.
  abbrev pub Near : ℕ → W → Type 0
  Near f w = deadline ≤ℤ now w +ℤ pos (f * step)

  -- Before a round that `f` units of fuel are left for.
  abbrev pub InTime : ℕ → W → Type 0
  InTime zero w = ⊥
  InTime (suc f) w = Near f w

  -- The clock has shown time to be left.
  abbrev pub Early : ℕ → W → Type 0
  Early f w = Near f w × (leb_ℤ deadline (now w) ≡ false)

  pub Early-sleep : (f : ℕ) (w w' : W) → Early f w → now w +ℤ pos step ≤ℤ now w' → InTime f w'
  Early-sleep zero w w' (h, e) k = absurd (omega (int_laws, leb_ℤ→lt deadline (now w) e))
  Early-sleep (suc f) w w' (h, e) k = omega int_laws
