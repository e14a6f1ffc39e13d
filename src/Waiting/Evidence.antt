-- ===== src/Waiting/Evidence.antt =====
-- What the record of `_await_reading` says of the readings that were made.
use testprotocols.Prelude.{
  ℕ, ◌+◌, ◌≡◌, refl, ◌∙◌, sym, ◌↔◌, Bool, true, false, not, none, List, [], ◌∷◌, ◌++◌, length,
}
use testprotocols.Prelude.Int.{ℤ, ◌+ℤ◌, ◌-ℤ◌}
use testprotocols.Exec.{Outcome, ret, exc, out_of_fuel, Action, continue, get, pure, ◌>>=◌}
use testprotocols.Exec.Post.{Post, OnReturn, Post-bind, Post-map}
use testprotocols.Waiting.{
  Pace, ReachabilityAwait, Cells, outside, outside_pace, wait_until, matches, await_cells,
  await_reading,
}
use testprotocols.Waiting.Rule.{poll-Post}
use testprotocols.Waiting.Tape.{Tape, taped, untaped, untaped_pace, blank}
use testprotocols.Waiting.Rounds.{
  AllOther, Idle, Missed, Hit, Ended, moved, not-ne, pause, evidence_rule,
}

module _ (want : Bool) where
  -- `misses` are the readings that were not the wanted one, the last reading aside.
  pub record Evidence (r : ReachabilityAwait) (readings : List Bool) : Type 0 where
    pub misses : List Bool
    pub others : AllOther want misses
    pub all_read : readings ≡ misses ++ r.reachable ∷ []
    pub counted : r.polls ≡ length misses + 1
    pub never_wrong : (r.not_converged_at_s ≡ none) ↔ ((misses ≡ []) × (r.reachable ≡ want))

module _ {W : Type 0} (want : Bool) where
  module _ (read : Action W Bool) (pace : Pace W) (start : ℤ) where
    -- The record that is made of the variables at the end.
    abbrev result_of : Cells (Tape W) → ℤ → ReachabilityAwait
    result_of c now = record {
      reachable = c.last;
      elapsed_s = now -ℤ start;
      polls = c.rounds;
      poll_interval_s = pace.interval;
      not_converged_at_s = c.still_wrong_at;
    }

    Hit-Evidence :
        (c : Cells (Tape W)) (now : ℤ)
        → Hit want c
        → Evidence want (result_of c now) c.world.readings
    Hit-Evidence c now h = record {
      misses = h.misses;
      others = h.others;
      all_read = rw h.last h.all_read;
      counted = h.counted;
      never_wrong = (λ e. (h.marked.0 e, h.last), λ (e, _). h.marked.1 e);
    }

    Missed-Evidence :
        (c : Cells (Tape W)) (now : ℤ)
        → Missed want c
        → Evidence want (result_of c now) c.world.readings
    Missed-Evidence c now m = record {
      misses = m.misses;
      others = m.others;
      all_read = rw m.last m.all_read;
      counted = m.counted;
      never_wrong = (λ e. cc (m.marked.1, e), λ (_, e). absurd (not-ne want (sym m.last ∙ e)));
    }

    abbrev Reported : Outcome ReachabilityAwait → Cells (Tape W) → Type 0
    Reported (ret r) c = Evidence want r c.world.readings
    Reported (exc e) c = Unit
    Reported out_of_fuel c = Unit

    report :
        (b : Bool) (c : Cells (Tape W))
        → Ended want (ret b) c
        → (r : Outcome ℤ) (w : W)
        → Post (continue r (λ now c'. (ret (result_of c' now), c'))) Reported (moved want c w)
    report true c h (ret now) w = Hit-Evidence c now h
    report false c h (ret now) w = Missed-Evidence c now h
    report b c h (exc _) w = tt
    report b c h out_of_fuel w = tt

    reported :
        (b : Bool) (c : Cells (Tape W))
        → Ended want (ret b) c
        → Post
            (do
              now ← outside (untaped pace.monotonic)
              final ← get (λ x. x)
              pure (result_of final now))
            Reported
            c
    reported b c h = let (r, w) = pace.monotonic c.world.world in report b c h r w

    wait-Ended :
        (fuel : ℕ) (c : Cells (Tape W))
        → Idle want c
        → Post
            (wait_until
              (matches (taped read) want (untaped_pace pace) start)
              (outside_pace (untaped_pace pace))
              fuel)
            (Ended want)
            c
    unfolding wait_until
    wait-Ended fuel c h =
        Post-bind (λ _. Idle want) (Ended want) (outside (untaped pace.monotonic)) _ c
          (let (r, w) = pace.monotonic c.world.world in
            pause want read pace start (λ _. Idle want) c r w (λ _. record { agree = h.agree }))
          (λ t. poll-Post (evidence_rule want read pace start (t +ℤ pace.budget)) fuel)

    Ended-verdict :
        (r : Outcome Bool) (c : Cells (Tape W))
        → Ended want r c
        → OnReturn (λ b. Ended want (ret b)) Reported r c
    Ended-verdict (ret b) c h = h
    Ended-verdict (exc _) c h = tt
    Ended-verdict out_of_fuel c h = tt

    await_cells-Post :
        (fuel : ℕ) (c : Cells (Tape W))
        → Idle want c
        → Post (await_cells (taped read) want (untaped_pace pace) fuel start) Reported c
    unfolding await_cells
    await_cells-Post fuel c h =
        Post-bind (λ b. Ended want (ret b)) Reported
          (wait_until (matches (taped read) want (untaped_pace pace) start)
            (outside_pace (untaped_pace pace)) fuel)
          _ c
          (Post-map (Ended want) _
            (wait_until (matches (taped read) want (untaped_pace pace) start)
              (outside_pace (untaped_pace pace)) fuel)
            c (wait-Ended fuel c h) Ended-verdict)
          reported

  abbrev pub EvidenceOnReturn : Outcome ReachabilityAwait → Tape W → Type 0
  EvidenceOnReturn (ret r) t = Evidence want r t.readings
  EvidenceOnReturn (exc e) t = Unit
  EvidenceOnReturn out_of_fuel t = Unit

  module _ (read : Action W Bool) (pace : Pace W) where
    world_of :
        (start : ℤ) (r : Outcome ReachabilityAwait) (c : Cells (Tape W))
        → Reported read pace start r c
        → EvidenceOnReturn r c.world
    world_of start (ret r) c h = h
    world_of start (exc _) c h = tt
    world_of start out_of_fuel c h = tt

    await_rest :
        (fuel : ℕ) (r : Outcome ℤ) (w : W)
        → Post
            (continue r (λ start w₁.
              let (result, c) =
                await_cells
                  (taped read)
                  want
                  (untaped_pace pace)
                  fuel
                  start
                  (record { world = w₁; last = not want; rounds = 0; still_wrong_at = none }) in
              (result, c.world)))
            EvidenceOnReturn
            (blank w)
    await_rest fuel (ret start) w =
        let c : Cells (Tape W) = record {
          world = blank w;
          last = not want;
          rounds = 0;
          still_wrong_at = none;
        } in
        let (r, c') = await_cells (taped read) want (untaped_pace pace) fuel start c in
        world_of start r c' (
          await_cells-Post read pace start fuel c (record {
            agree = record { others = tt; counted = refl; marked = (λ _. refl, λ _. refl) };
          }))
    await_rest fuel (exc _) w = tt
    await_rest fuel out_of_fuel w = tt

    -- A returned record tells the readings truly: `reachable` is the last reading, `polls` counts
    -- all of them, every earlier reading was the unwanted one, and `not_converged_at_s` is missing
    -- exactly when the first reading was the wanted one.
    pub await_reading-Evidence :
        (fuel : ℕ) (w : W)
        → Post (await_reading (taped read) want (untaped_pace pace) fuel) EvidenceOnReturn (blank w)
    unfolding await_reading
    await_reading-Evidence fuel w = let (r, w') = pace.monotonic w in await_rest fuel r w'
