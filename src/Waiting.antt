-- ===== src/Waiting.antt =====
-- packages/testoperations/src/testoperations/waiting.py: poll loops over a clock. Times are integers
-- of one unit (the source has floats), since the code only adds, subtracts and compares them.
mod Rule
mod Tape
pub mod Readings
pub mod Deadline
pub mod Arrives
mod Rounds
pub mod Evidence
mod Examples
use testprotocols.Prelude.{
  ℕ, zero, suc, ◌+◌, String, Bool, true, false, not, Option, none, some, str_eq, Bool_eq,
  if◌then◌else◌,
}
use testprotocols.Prelude.Int.{ℤ, ◌+ℤ◌, ◌-ℤ◌, leb_ℤ}
use testprotocols.Exec.{Action, ret, pure, raise, exhausted, get, continue, ◌>>=◌, ◌>>◌}
use testprotocols.Exec.Failure.{value_error}

-- What the loops are given of time: `sleep` and `monotonic` are parameters in the source too.
pub record Pace (W : Type 0) : Type 0 where
  pub sleep : ℤ → Action W (Unit {0})
  pub monotonic : Action W ℤ
  pub budget : ℤ
  pub interval : ℤ

module _ {W : Type 0} (predicate : Action W Bool) (pace : Pace W) where
  -- The `while True` loop, with fuel.
  pub poll : ℕ → ℤ → Action W Bool
  poll zero deadline = exhausted
  poll (suc f) deadline = do
    matched ← predicate
    if matched then pure true else do
      now ← pace.monotonic
      if leb_ℤ deadline now then pure false else do pace.sleep pace.interval; poll f deadline

  pub wait_until : ℕ → Action W Bool
  wait_until fuel = do start ← pace.monotonic; poll fuel (start +ℤ pace.budget)

-- testprotocols.network_probe.NetworkProbe, as far as the waits call it.
pub record NetworkProbe (W : Type 0) : Type 0 where
  pub icmp_can_reach : String → Action W Bool
  pub tcp_can_connect : String → ℕ → Action W Bool
  pub udp_can_reach : String → ℕ → Action W Bool

-- A probe and the arguments that every round passes on to it.
pub record Target (W : Type 0) : Type 0 where
  pub probe : NetworkProbe W
  pub proto : String
  pub target_ip : String
  pub tcp_port : ℕ
  pub udp_port : ℕ

module _ {W : Type 0} where
  unfoldable pub probe_reachable : Target W → Action W Bool
  probe_reachable t =
      if str_eq t.proto "icmp"
      then t.probe.icmp_can_reach t.target_ip
      else if str_eq t.proto "tcp"
      then t.probe.tcp_can_connect t.target_ip t.tcp_port
      else if str_eq t.proto "udp"
      then t.probe.udp_can_reach t.target_ip t.udp_port
      else raise value_error

  pub wait_for_reachability : Target W → (want : Bool) → Pace W → ℕ → Action W Bool
  wait_for_reachability t want =
      wait_until (do reading ← probe_reachable t; pure (Bool_eq reading want))

pub record ReachabilityAwait : Type 0 where
  pub reachable : Bool
  pub elapsed_s : ℤ
  pub polls : ℕ
  pub poll_interval_s : ℤ
  pub not_converged_at_s : Option ℤ

-- The variables that `_matches` assigns (`last`, `rounds`, `still_wrong_at`), beside the world.
pub record Cells (W : Type 0) : Type 0 where
  pub world : W
  pub last : Bool
  pub rounds : ℕ
  pub still_wrong_at : Option ℤ

module _ {W A : Type 0} where
  -- A call that leaves these variables alone.
  abbrev pub outside : Action W A → Action (Cells W) A
  outside m c = let (r, w) = m c.world in (r, record c { world = w })

module _ {W : Type 0} where
  abbrev pub modify : (Cells W → Cells W) → Action (Cells W) (Unit {0})
  modify f c = (ret tt, f c)

  abbrev pub outside_pace : Pace W → Pace (Cells W)
  outside_pace pace = record {
    sleep = λ d. outside (pace.sleep d);
    monotonic = outside pace.monotonic;
    budget = pace.budget;
    interval = pace.interval;
  }

module _ {W : Type 0} (read : Action W Bool) (want : Bool) (pace : Pace W) where
  -- `_matches`
  pub matches : ℤ → Action (Cells W) Bool
  matches start = do
    modify (λ c. record c { rounds = c.rounds + 1 })
    reading ← outside read
    modify (λ c. record c { last = reading })
    if Bool_eq reading want then pure true else do
      now ← outside pace.monotonic
      modify (λ c. record c { still_wrong_at = some (now -ℤ start) })
      pure false

  pub await_cells : ℕ → ℤ → Action (Cells W) ReachabilityAwait
  unfolding matches
  await_cells fuel start = do
    wait_until (matches start) (outside_pace pace) fuel
    now ← outside pace.monotonic
    c ← get (λ c. c)
    pure (record {
      reachable = c.last;
      elapsed_s = now -ℤ start;
      polls = c.rounds;
      poll_interval_s = pace.interval;
      not_converged_at_s = c.still_wrong_at;
    })

  -- `_await_reading`
  pub await_reading : ℕ → Action W ReachabilityAwait
  unfolding await_cells
  await_reading fuel w =
      let (r, w') = pace.monotonic w in
      continue r
        (λ start w₁.
          let (result, c) =
            await_cells fuel start
              (record { world = w₁; last = not want; rounds = 0; still_wrong_at = none }) in
          (result, c.world))
        w'

module _ {W : Type 0} where
  pub await_reachability : Target W → (want : Bool) → Pace W → ℕ → Action W ReachabilityAwait
  await_reachability t = await_reading (probe_reachable t)
