-- ===== src/Waiting/Deadline.antt =====
-- `wait_until` ends, given a clock that moves on, and its negative verdict means a spent budget.
use testprotocols.Prelude.{ℕ, suc, ◌*◌, ◌≡◌, ap, Bool, true, false}
use testprotocols.Prelude.Int.{ℤ, pos, pos_part, neg_part, ◌+ℤ◌, ◌≤ℤ◌, leb_ℤ, leb_ℤ→le, int_laws}
use testprotocols.Exec.{Outcome, ret, Action}
use testprotocols.Exec.Post.{Post, Returns, Post-bind, Post-call, Post-map, Returns-map}
use testprotocols.Exec.Time.{Near, InTime, Early, Early-sleep, Clock}
use testprotocols.Waiting.{Pace, poll, wait_until}
use testprotocols.Waiting.Rule.{PollRule, Reading, poll-Post}

-- `now w` is the time at the world `w`.
module _ {W : Type 0} (now : W → ℤ) where
  -- A predicate that returns, after any time.
  abbrev pub Steady : Action W Bool → Type 0
  Steady read = (w : W) → Post read (Returns (λ _ w'. now w ≤ℤ now w')) w

  module _ (step : ℕ) (deadline : ℤ) where
    abbrev Verdict : Outcome Bool → W → Type 0
    Verdict = Returns (λ b w. b ≡ false → deadline ≤ℤ now w)

    Reading-Missed :
        (f : ℕ) (w : W)
        → Near now step deadline f w
        → (b : Bool) (w' : W) → now w ≤ℤ now w'
        → Reading Verdict (Near now step deadline f) b w'
    Reading-Missed f w h true w' k = λ e. cc
    Reading-Missed f w h false w' k = omega int_laws

    deadline_split :
        (f : ℕ) (w : W)
        → Near now step deadline f w
        → (t : ℤ) (w' : W) → (t ≡ now w') × (now w ≤ℤ now w')
        → (leb_ℤ deadline t ≡ true → Verdict (ret false) w')
          × (leb_ℤ deadline t ≡ false → Early now step deadline f w')
    deadline_split f w h t w' (e, k) =
        rw e (λ late _. leb_ℤ→le deadline (now w') late, λ early. (omega int_laws, early))

    deadline_rule :
        {read : Action W Bool} {pace : Pace W}
        → Steady read
        → Clock now pace.monotonic (pace.sleep pace.interval) pace.interval
        → pace.interval ≡ pos step
        → PollRule read pace deadline
            (InTime now step deadline)
            (Near now step deadline)
            (Early now step deadline)
            Verdict
    deadline_rule {read} {pace} steady clock interval = record {
      spent = λ w h. absurd h;
      tested = λ f w h. Post-call _ _ Verdict read w (steady w) (Reading-Missed f w h);
      clocked =
          λ f w h. Post-call _ _ Verdict pace.monotonic w (clock.reads w) (deadline_split f w h);
      slept = λ f w h.
          Post-call _ _ Verdict (pace.sleep pace.interval) w (clock.sleeps w)
            (λ _ w' k. Early-sleep now step deadline f w w' h (rw interval at k));
    }

  -- With a predicate and a clock that return, a pause of `step` ticks and fuel for the budget,
  -- `wait_until` returns a verdict, and it returns `false` only once the budget is spent.
  pub wait_until-Returns :
      (read : Action W Bool) (pace : Pace W) (step f : ℕ)
      → Steady read
      → Clock now pace.monotonic (pace.sleep pace.interval) pace.interval
      → pace.interval ≡ pos step
      → pace.budget ≤ℤ pos (f * step)
      → (w : W)
      → Post
          (wait_until read pace (suc f))
          (Returns (λ b w'. b ≡ false → now w +ℤ pace.budget ≤ℤ now w'))
          w
  unfolding wait_until
  wait_until-Returns read pace step f steady clock interval enough w =
      let Budget = Returns (λ b w'. b ≡ false → now w +ℤ pace.budget ≤ℤ now w') in
      Post-bind (λ t w'. (t ≡ now w') × (now w ≤ℤ now w')) Budget pace.monotonic _ w
        (Post-call _ _ Budget pace.monotonic w (clock.reads w) (λ _ _ k. k))
        (λ start w' (e, k).
          let deadline = start +ℤ pace.budget in
          Post-map (Verdict step deadline) Budget (poll read pace (suc f) deadline) w'
            (poll-Post (deadline_rule step deadline steady clock interval) (suc f) w'
              (rw e (omega int_laws)))
            (λ r w'' v.
              Returns-map _ _ r w'' v
                (λ b late none. omega (int_laws, late none, ap pos_part e, ap neg_part e))))
