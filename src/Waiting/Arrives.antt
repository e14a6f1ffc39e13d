-- ===== src/Waiting/Arrives.antt =====
-- What holds in time is seen: `wait_until` returns `true` when its predicate comes to hold early enough.
use testprotocols.Prelude.{ℕ, suc, ◌*◌, ◌≡◌, refl, ◌≢◌, inl, inr, Bool, true, false, Bool-cases}
use testprotocols.Prelude.Int.{ℤ, pos, ◌+ℤ◌, ◌≤ℤ◌, leb_ℤ, leb_ℤ→le, leb_ℤ→lt, int_laws}
use testprotocols.Exec.{Outcome, ret, Action}
use testprotocols.Exec.Post.{Post, Returns, Post-bind, Post-call}
use testprotocols.Exec.Time.{Near, InTime, Early, Early-sleep}
use testprotocols.Waiting.{Pace, wait_until}
use testprotocols.Waiting.Rule.{PollRule, Reading, poll-Post}

false_ne_true : false ≢ true
false_ne_true e = cc

module _ {W : Type 0} (now : W → ℤ) (lag step : ℕ) where
  -- The action returns, after any time up to `lag`.
  abbrev InLag : W → W → Type 0
  InLag w w' = (now w ≤ℤ now w') × (now w' ≤ℤ now w +ℤ pos lag)

  -- A predicate that reads `true` at any time from `ready` on.
  abbrev pub HoldsFrom : ℤ → Action W Bool → Type 0
  HoldsFrom ready read =
      (w : W)
      → Post read
          (Returns (λ b w'.
            (now w ≤ℤ now w') × (now w' ≤ℤ now w +ℤ pos lag) × (ready ≤ℤ now w → b ≡ true)))
          w

  -- A clock that is read within `lag`, and a pause of `step` ticks at least.
  pub record PromptClock (pace : Pace W) : Type 0 where
    pub reads :
        (w : W)
        → Post pace.monotonic
            (Returns (λ t w'. (t ≡ now w') × (now w ≤ℤ now w') × (now w' ≤ℤ now w +ℤ pos lag)))
            w
    pub sleeps :
        (w : W) → Post (pace.sleep pace.interval) (Returns (λ _ w'. now w +ℤ pos step ≤ℤ now w')) w

  module _ (ready deadline : ℤ) (in_time : ready +ℤ pos lag +ℤ pos lag ≤ℤ deadline) where
    abbrev SaysTrue : Outcome Bool → W → Type 0
    SaysTrue = Returns (λ b w. b ≡ true)

    -- The predicate has read `false`: it has run before `ready`.
    abbrev Missed : ℕ → W → Type 0
    Missed f w = Near now step deadline f w × (now w +ℤ pos 1 ≤ℤ ready +ℤ pos lag)

    Reading-Missed :
        (f : ℕ) (w : W)
        → Near now step deadline f w
        → (b : Bool) (w' : W)
        → (now w ≤ℤ now w') × (now w' ≤ℤ now w +ℤ pos lag) × (ready ≤ℤ now w → b ≡ true)
        → Reading SaysTrue (Missed f) b w'
    Reading-Missed f w h true w' k = refl
    Reading-Missed f w h false w' k = elim (Bool-cases (leb_ℤ ready (now w))) [
      | inl e ↦ absurd (false_ne_true (k.2 (leb_ℤ→le ready (now w) e)))
      | inr e ↦
          let before = leb_ℤ→lt ready (now w) e in
          (omega (int_laws, h, k.0), omega (int_laws, k.1, before))
    ]

    too_late :
        (w w' : W)
        → now w +ℤ pos 1 ≤ℤ ready +ℤ pos lag
        → now w' ≤ℤ now w +ℤ pos lag
        → deadline ≤ℤ now w'
        → ⊥
    too_late w w' h l late = omega (int_laws, in_time)

    deadline_split :
        (f : ℕ) (w : W)
        → Missed f w
        → (t : ℤ) (w' : W) → (t ≡ now w') × (now w ≤ℤ now w') × (now w' ≤ℤ now w +ℤ pos lag)
        → (leb_ℤ deadline t ≡ true → SaysTrue (ret false) w')
          × (leb_ℤ deadline t ≡ false → Early now step deadline f w')
    deadline_split f w h t w' (e, k, l) = rw e (
      λ late. absurd (too_late w w' h.1 l (leb_ℤ→le deadline (now w') late)),
      λ early. (omega (int_laws, h.0, k), early),
    )

    arrival_rule :
        {read : Action W Bool} {pace : Pace W}
        → HoldsFrom ready read
        → PromptClock pace
        → PollRule read pace deadline
            (InTime now step deadline)
            Missed
            (Early now step deadline)
            SaysTrue
    arrival_rule {read} {pace} holds clock = record {
      spent = λ w h. absurd h;
      tested = λ f w h. Post-call _ _ SaysTrue read w (holds w) (Reading-Missed f w h);
      clocked =
          λ f w h. Post-call _ _ SaysTrue pace.monotonic w (clock.reads w) (deadline_split f w h);
      slept = λ f w h.
          Post-call _ _ SaysTrue (pace.sleep pace.interval) w (clock.sleeps w)
            (λ _ w' k. Early-sleep now step deadline f w w' h k);
    }

  -- With a predicate and a clock that return within `lag`, a pause of `step` ticks at least and fuel for
  -- the budget: if the predicate reads `true` at any time from `ready` on, and `ready` leaves two lags to
  -- the end of the budget, `wait_until` returns `true`.
  pub wait_until-Arrives :
      (read : Action W Bool) (pace : Pace W) (f : ℕ) (ready : ℤ) (w : W)
      → HoldsFrom ready read
      → PromptClock pace
      → ready +ℤ pos lag +ℤ pos lag ≤ℤ now w +ℤ pace.budget
      → pace.budget ≤ℤ pos (f * step)
      → Post (wait_until read pace (suc f)) (Returns (λ b w'. b ≡ true)) w
  unfolding wait_until
  wait_until-Arrives read pace f ready w holds clock in_time enough =
      let True = Returns {W = W} {A = Bool} (λ b w'. b ≡ true) in
      Post-bind (λ t w'. (t ≡ now w') × (now w ≤ℤ now w') × (now w' ≤ℤ now w +ℤ pos lag)) True
        pace.monotonic _ w (Post-call _ _ True pace.monotonic w (clock.reads w) (λ _ _ k. k))
        (λ start w' (e, k, l).
          poll-Post
            (arrival_rule ready (start +ℤ pace.budget) (rw e (omega (int_laws, in_time, k))) holds
              clock)
            (suc f) w' (rw e (omega (int_laws, enough))))
