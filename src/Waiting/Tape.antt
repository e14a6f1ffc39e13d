-- ===== src/Waiting/Tape.antt =====
-- A world that also keeps every reading that a predicate has returned, to state what a loop read.
use testprotocols.Prelude.{Bool, List, [], ◌∷◌, ◌++◌, ◌≡◌, refl}
use testprotocols.Exec.{Outcome, ret, exc, out_of_fuel, Action}
use testprotocols.Exec.Post.{Post}
use testprotocols.Waiting.{Pace}

pub record Tape (W : Type 0) : Type 0 where
  pub world : W
  pub readings : List Bool

abbrev keep : Outcome Bool → List Bool → List Bool
keep (ret b) l = l ++ b ∷ []
keep (exc e) l = l
keep out_of_fuel l = l

module _ {W : Type 0} where
  unfoldable pub taped : Action W Bool → Action (Tape W) Bool
  taped read t =
      let (r, w) = read t.world in (r, record { world = w; readings = keep r t.readings })

  abbrev pub untaped : {A : Type 0} → Action W A → Action (Tape W) A
  untaped m t = let (r, w) = m t.world in (r, record t { world = w })

  abbrev pub untaped_pace : Pace W → Pace (Tape W)
  untaped_pace pace = record {
    sleep = λ d. untaped (pace.sleep d);
    monotonic = untaped pace.monotonic;
    budget = pace.budget;
    interval = pace.interval;
  }

  abbrev pub blank : W → Tape W
  blank w = record { world = w; readings = [] }

  -- What the tape holds after an outcome of `taped read`.
  abbrev pub Taped : List Bool → Outcome Bool → Tape W → Type 0
  Taped before (ret b) t = t.readings ≡ before ++ b ∷ []
  Taped before (exc e) t = t.readings ≡ before
  Taped before out_of_fuel t = t.readings ≡ before

  tape_cases :
      (before : List Bool) (r : Outcome Bool) (w : W)
      → Taped before r (record { world = w; readings = keep r before })
  tape_cases before (ret b) w = refl
  tape_cases before (exc e) w = refl
  tape_cases before out_of_fuel w = refl

  pub taped-Post : (read : Action W Bool) (t : Tape W) → Post (taped read) (Taped t.readings) t
  unfolding taped
  taped-Post read t = let (r, w) = read t.world in tape_cases t.readings r w
