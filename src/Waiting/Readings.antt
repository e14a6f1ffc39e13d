-- ===== src/Waiting/Readings.antt =====
-- What `wait_until` has read when it ends.
use testprotocols.Prelude.{
  ℕ, ◌≡◌, refl, ◌∙◌, Bool, true, false, List, [], ◌∷◌, ◌++◌, All, All-append,
}
use testprotocols.Prelude.Int.{ℤ, ◌+ℤ◌}
use testprotocols.Exec.{Outcome, ret, exc, out_of_fuel, Action}
use testprotocols.Exec.Post.{Post, OnReturn, Post-bind, Post-map}
use testprotocols.Waiting.{Pace, poll, wait_until}
use testprotocols.Waiting.Rule.{PollRule, Reading, poll-Post}
use testprotocols.Waiting.Tape.{Tape, taped, untaped, untaped_pace, blank, Taped, taped-Post}

abbrev pub AllFalse : List Bool → Type 0
AllFalse = All (λ r. r ≡ false)

module _ {W : Type 0} where
  -- A verdict is the last reading, and every reading before it was `false`. A loop that ended in
  -- another way has read only `false`.
  abbrev pub VerdictIsLast : Outcome Bool → Tape W → Type 0
  VerdictIsLast (ret b) t = (before : List Bool) × (t.readings ≡ before ++ b ∷ []) × AllFalse before
  VerdictIsLast (exc e) t = AllFalse t.readings
  VerdictIsLast out_of_fuel t = AllFalse t.readings

  abbrev Idle : ℕ → Tape W → Type 0
  Idle _ t = AllFalse t.readings

  abbrev Missed : ℕ → Tape W → Type 0
  Missed _ t = (before : List Bool) × (t.readings ≡ before ++ false ∷ []) × AllFalse before

  Missed→AllFalse : (f : ℕ) (t : Tape W) → Missed f t → AllFalse t.readings
  Missed→AllFalse f t (before, e, h) = rw e (All-append _ before (false ∷ []) h (refl, tt))

  after-Reading :
      (before : List Bool)
      → AllFalse before
      → (r : Outcome Bool) (t : Tape W) → Taped before r t
      → OnReturn (Reading VerdictIsLast (Missed 0)) VerdictIsLast r t
  after-Reading before h (ret true) t e = (before, e, h)
  after-Reading before h (ret false) t e = (before, e, h)
  after-Reading before h (exc _) t e = rw e h
  after-Reading before h out_of_fuel t e = rw e h

  after_pause :
      {A : Type 0} (R : A → Tape W → Type 0) (l : List Bool)
      → ((a : A) (t : Tape W) → t.readings ≡ l → R a t)
      → AllFalse l
      → (r : Outcome A) (t : Tape W) → t.readings ≡ l
      → OnReturn R VerdictIsLast r t
  after_pause R l k h (ret a) t e = k a t e
  after_pause R l k h (exc _) t e = rw e h
  after_pause R l k h out_of_fuel t e = rw e h

  module _ (read : Action W Bool) (pace : Pace W) (deadline : ℤ) where
    readings_rule :
        PollRule (taped read) (untaped_pace pace) deadline Idle Missed Idle VerdictIsLast
    readings_rule = record {
      spent = λ t h. h;
      tested = λ f t h.
          Post-map (Taped t.readings) _ (taped read) t (taped-Post read t)
            (after-Reading t.readings h);
      clocked = λ f t (before, e, h).
          after_pause _ t.readings
            (λ now t' e'.
              (λ _. (before, e' ∙ e, h), λ _. rw e' (Missed→AllFalse f t (before, e, h))))
            (Missed→AllFalse f t (before, e, h)) (pace.monotonic t.world).0 _ refl;
      slept = λ f t h.
          after_pause _ t.readings (λ _ t' e. rw e h) h (pace.sleep pace.interval t.world).0 _ refl;
    }

    poll-VerdictIsLast :
        (fuel : ℕ) (t : Tape W)
        → AllFalse t.readings
        → Post (poll (taped read) (untaped_pace pace) fuel deadline) VerdictIsLast t
    poll-VerdictIsLast = poll-Post readings_rule

  -- Whatever the predicate and the clock do, and however often the loop goes round: a verdict is the
  -- predicate's last reading, there was at least that one, and all readings before it were `false`;
  -- if the loop ends by an exception, every reading was `false`.
  pub wait_until-VerdictIsLast :
      (read : Action W Bool) (pace : Pace W) (fuel : ℕ) (w : W)
      → Post (wait_until (taped read) (untaped_pace pace) fuel) VerdictIsLast (blank w)
  unfolding wait_until
  wait_until-VerdictIsLast read pace fuel w =
      Post-bind (λ _ t. AllFalse t.readings) VerdictIsLast (untaped pace.monotonic) _ (blank w)
        (after_pause _ [] (λ _ t e. rw e tt) tt (pace.monotonic w).0 _ refl)
        (λ start t h. poll-VerdictIsLast read pace (start +ℤ pace.budget) fuel t h)
