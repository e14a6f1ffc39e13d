-- ===== src/Waiting/Examples.antt =====
-- The waits at a world that is its clock, with a predicate that turns true at the second tick.
use testprotocols.Exec.{Action, ret}
use testprotocols.Exec.Post.{Post, Returns}
use testprotocols.Exec.Time.{Clock}
use testprotocols.Prelude.{◌≡◌, refl, Bool, true, false, arith}
use testprotocols.Prelude.Int.{ℤ, pos, ◌+ℤ◌, ◌≤ℤ◌, leb_ℤ, int_laws}
use testprotocols.Waiting.{Pace, poll, wait_until, await_reading}
use testprotocols.Waiting.Arrives.{HoldsFrom, PromptClock, wait_until-Arrives}
use testprotocols.Waiting.Deadline.{Steady, wait_until-Returns}
use testprotocols.Waiting.Evidence.{EvidenceOnReturn, await_reading-Evidence}
use testprotocols.Waiting.Readings.{VerdictIsLast, wait_until-VerdictIsLast}
use testprotocols.Waiting.Tape.{taped, untaped_pace, blank}

abbrev pace : Pace ℤ
pace = record {
  sleep = λ d t. (ret tt, t +ℤ d);
  monotonic = λ t. (ret t, t);
  budget = pos 3;
  interval = pos 1;
}

abbrev from_two : Action ℤ Bool
from_two t = (ret (leb_ℤ (pos 2) t), t)

from_two-Steady : Steady (λ t. t) from_two
from_two-Steady t = omega arith

pace-Clock : Clock (λ t. t) pace.monotonic (pace.sleep pace.interval) pace.interval
pace-Clock = record { reads = λ t. (refl, omega arith); sleeps = λ t. omega arith }

wait_tests :
    (wait_until from_two pace 4 (pos 0) ≡ (ret true, pos 2))
    × (wait_until (λ t. (ret false, t)) pace 4 (pos 0) ≡ (ret false, pos 3))
unfolding wait_until poll ◌+ℤ◌
wait_tests = (refl, refl)

wait_until-VerdictIsLast_example :
    Post (wait_until (taped from_two) (untaped_pace pace) 4) VerdictIsLast (blank (pos 0))
wait_until-VerdictIsLast_example = wait_until-VerdictIsLast from_two pace 4 (pos 0)

wait_until-Returns_example :
    Post (wait_until from_two pace 4) (Returns (λ b t. b ≡ false → pos 0 +ℤ pos 3 ≤ℤ t)) (pos 0)
wait_until-Returns_example =
    wait_until-Returns (λ t. t) from_two pace 1 3 from_two-Steady pace-Clock refl (omega arith)
      (pos 0)

await_reading-Evidence_example :
    Post
      (await_reading (taped from_two) true (untaped_pace pace) 4)
      (EvidenceOnReturn true)
      (blank (pos 0))
await_reading-Evidence_example = await_reading-Evidence true from_two pace 4 (pos 0)

from_two-HoldsFrom : HoldsFrom (λ t. t) 0 1 (pos 2) from_two
from_two-HoldsFrom w = (omega int_laws, omega int_laws, λ h. ground (arith, h))

pace-PromptClock : PromptClock (λ t. t) 0 1 pace
pace-PromptClock = record {
  reads = λ w. (refl, omega int_laws, omega int_laws);
  sleeps = λ w. omega int_laws;
}

wait_until-Arrives_example : Post (wait_until from_two pace 4) (Returns (λ b w'. b ≡ true)) (pos 0)
wait_until-Arrives_example =
    wait_until-Arrives (λ t. t) 0 1 from_two pace 3 (pos 2) (pos 0) from_two-HoldsFrom
      pace-PromptClock (omega int_laws) (omega int_laws)
