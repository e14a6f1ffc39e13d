-- ===== src/Waiting/Rounds.antt =====
-- What the rounds of `_await_reading` keep of its variables.
use testprotocols.Prelude.{
  ℕ, ◌+◌, ◌≡◌, refl, ◌∙◌, sym, ◌≢◌, ◌↔◌, Bool, true, false, not, Option, none, some, List, [], ◌∷◌,
  ◌++◌, All, All-append, length, length-append, arith, Bool_eq, Bool_eq→eq, Bool_eq→ne,
}
use testprotocols.Prelude.Int.{ℤ, ◌-ℤ◌}
use testprotocols.Exec.{Outcome, ret, exc, out_of_fuel, Action, continue, pure, ◌>>◌}
use testprotocols.Exec.Post.{Post, OnReturn, Post-bind, Post-if}
use testprotocols.Waiting.{Pace, Cells, outside, outside_pace, modify, matches}
use testprotocols.Waiting.Rule.{PollRule, Reading}
use testprotocols.Waiting.Tape.{Tape, taped, untaped_pace, Taped, taped-Post}

module _ (want : Bool) where
  abbrev pub AllOther : List Bool → Type 0
  AllOther = All (λ b. b ≡ not want)

  -- The loop's variables agree with `misses`.
  pub record Agree (misses : List Bool) (rounds : ℕ) (still : Option ℤ) : Type 0 where
    pub others : AllOther misses
    pub counted : rounds ≡ length misses
    pub marked : (still ≡ none) ↔ (misses ≡ [])

pub not-ne : (b : Bool) → not b ≢ b
not-ne b e = ground arith

append-ne-nil : (l : List Bool) (b : Bool) → l ++ b ∷ [] ≢ []
append-ne-nil [] b e = cc
append-ne-nil (x ∷ l) b e = cc

module _ {W : Type 0} (want : Bool) where
  pub record Idle (c : Cells (Tape W)) : Type 0 where
    pub agree : Agree want c.world.readings c.rounds c.still_wrong_at

  pub record Missed (c : Cells (Tape W)) : Type 0 where
    pub misses : List Bool
    pub others : AllOther want misses
    pub all_read : c.world.readings ≡ misses ++ not want ∷ []
    pub counted : c.rounds ≡ length misses + 1
    pub marked : (v : ℤ) × (c.still_wrong_at ≡ some v)
    pub last : c.last ≡ not want

  pub record Hit (c : Cells (Tape W)) : Type 0 where
    pub misses : List Bool
    pub others : AllOther want misses
    pub all_read : c.world.readings ≡ misses ++ want ∷ []
    pub counted : c.rounds ≡ length misses + 1
    pub marked : (c.still_wrong_at ≡ none) ↔ (misses ≡ [])
    pub last : c.last ≡ want

  abbrev pub Ended : Outcome Bool → Cells (Tape W) → Type 0
  Ended (ret true) c = Hit c
  Ended (ret false) c = Missed c
  Ended (exc e) c = Unit
  Ended out_of_fuel c = Unit

  abbrev RoundEnd : Outcome Bool → Cells (Tape W) → Type 0
  RoundEnd = OnReturn (Reading Ended Missed) Ended

  pub Idle-Missed : (c : Cells (Tape W)) → Missed c → Idle c
  Idle-Missed c m = record {
    agree = record {
      others = rw m.all_read (All-append _ m.misses (not want ∷ []) m.others (refl, tt));
      counted = rw m.all_read (omega (arith, m.counted, length-append m.misses (not want ∷ [])));
      marked = (
        λ e. cc (m.marked.1, e),
        λ e. absurd (append-ne-nil m.misses (not want) (sym m.all_read ∙ e)),
      );
    };
  }

  abbrev pub moved : Cells (Tape W) → W → Cells (Tape W)
  moved c w = record c { world = record { world = w; readings = c.world.readings } }

  pub Missed-moved : (c : Cells (Tape W)) (w : W) → Missed c → Missed (moved c w)
  Missed-moved c w m = record {
    misses = m.misses;
    others = m.others;
    all_read = m.all_read;
    counted = m.counted;
    marked = m.marked;
    last = m.last;
  }

  -- The variables after the read of a round that began with `before` read.
  record Read (before : Cells (Tape W)) (b : Bool) (c : Cells (Tape W)) : Type 0 where
    appended : c.world.readings ≡ before.world.readings ++ b ∷ []
    counted : c.rounds ≡ before.rounds + 1
    same_mark : c.still_wrong_at ≡ before.still_wrong_at

  module _ (read : Action W Bool) (pace : Pace W) (start : ℤ) where
    round_start :
        (before : Cells (Tape W)) (r : Outcome Bool) (t : Tape W)
        → Taped before.world.readings r t
        → OnReturn
            (Read before)
            RoundEnd
            r
            (record before { world = t; rounds = before.rounds + 1 })
    round_start before (ret b) t e = record { appended = e; counted = refl; same_mark = refl }
    round_start before (exc _) t e = tt
    round_start before out_of_fuel t e = tt

    hit :
        (before : Cells (Tape W))
        → Agree want before.world.readings before.rounds before.still_wrong_at
        → (b : Bool) → b ≡ want
        → (c : Cells (Tape W)) → Read before b c
        → Hit (record c { last = b })
    hit before h b e c k = record {
      misses = before.world.readings;
      others = h.others;
      all_read = rw (← e) k.appended;
      counted = omega (arith, k.counted, h.counted);
      marked = rw k.same_mark h.marked;
      last = e;
    }

    missed :
        (before : Cells (Tape W))
        → Agree want before.world.readings before.rounds before.still_wrong_at
        → (b : Bool) → b ≡ not want
        → (c : Cells (Tape W)) → Read before b c
        → (v : ℤ) (w : W)
        → Missed (record c {
          last = b;
          still_wrong_at = some v;
          world = record { world = w; readings = c.world.readings };
        })
    missed before h b e c k v w = record {
      misses = before.world.readings;
      others = h.others;
      all_read = rw (← e) k.appended;
      counted = omega (arith, k.counted, h.counted);
      marked = (v, refl);
      last = e;
    }

    clocked :
        (before : Cells (Tape W))
        → Agree want before.world.readings before.rounds before.still_wrong_at
        → (b : Bool) → b ≡ not want
        → (c : Cells (Tape W)) → Read before b c
        → (r : Outcome ℤ) (w : W)
        → Post
            (continue r (λ now.
              modify (λ x. record x { still_wrong_at = some (now -ℤ start) }) >> pure false))
            RoundEnd
            (record c { last = b; world = record { world = w; readings = c.world.readings } })
    clocked before h b e c k (ret now) w = missed before h b e c k (now -ℤ start) w
    clocked before h b e c k (exc _) w = tt
    clocked before h b e c k out_of_fuel w = tt

    matches-Post :
        (c : Cells (Tape W))
        → Idle c
        → Post (matches (taped read) want (untaped_pace pace) start) RoundEnd c
    unfolding matches
    matches-Post c h =
        Post-bind (Read c) RoundEnd (outside (taped read)) _ (record c { rounds = c.rounds + 1 })
          (round_start c (taped read c.world).0 (taped read c.world).1 (taped-Post read c.world))
          λ b c' k.
            Post-if RoundEnd (Bool_eq b want) _ _ (record c' { last = b })
              (λ e. hit c h.agree b (Bool_eq→eq b want e) c' k)
              (λ e.
                let (r, w) = pace.monotonic c'.world.world in
                clocked c h.agree b (Bool_eq→ne b want e) c' k r w)

    pub pause :
        {A : Type 0} (S : A → Cells (Tape W) → Type 0) (c : Cells (Tape W))
        → (r : Outcome A) (w : W) → ((a : A) → S a (moved c w))
        → OnReturn S Ended r (moved c w)
    pause S c (ret a) w k = k a
    pause S c (exc _) w k = tt
    pause S c out_of_fuel w k = tt

    pub evidence_rule :
        (deadline : ℤ)
        → PollRule
            (matches (taped read) want (untaped_pace pace) start)
            (outside_pace (untaped_pace pace))
            deadline
            (λ _. Idle)
            (λ _. Missed)
            (λ _. Idle)
            Ended
    evidence_rule deadline = record {
      spent = λ c h. tt;
      tested = λ f c h. matches-Post c h;
      clocked = λ f c m.
          let (r, w) = pace.monotonic c.world.world in
          pause _ c r w
            (λ now. (λ _. Missed-moved c w m, λ _. Idle-Missed (moved c w) (Missed-moved c w m)));
      slept = λ f c h.
          let (r, w) = pace.sleep pace.interval c.world.world in
          pause _ c r w (λ _. record { agree = h.agree });
    }
