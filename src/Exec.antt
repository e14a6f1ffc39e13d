-- ===== src/Exec.antt =====
-- Python code that calls out, changes state and may raise. What was done before a raise stays done,
-- so the state comes back beside every outcome. A loop that the model cut short has an outcome of
-- its own, `out_of_fuel`, which no handler catches and no `finally` sees.
pub mod Failure
pub mod Post
pub mod Pure
pub mod Time
pub mod Takes
use Failure.{Exception}

pub data Outcome {ℓ} (A : Type ℓ) : Type ℓ where
  ret : A → Outcome A
  exc : Exception → Outcome A
  out_of_fuel : Outcome A

abbrev pub map_outcome {ℓ κ} : {A : Type ℓ} {B : Type κ} → (A → B) → Outcome A → Outcome B
map_outcome f (ret a) = ret (f a)
map_outcome f (exc e) = exc e
map_outcome f out_of_fuel = out_of_fuel

abbrev pub Action {ℓ} : Type ℓ → Type ℓ → Type ℓ
Action W A = W → Outcome A × W

module _ {ℓ} {W A : Type ℓ} where
  abbrev pub pure : A → Action W A
  pure a w = (ret a, w)

  abbrev pub raise : Exception → Action W A
  raise e w = (exc e, w)

  abbrev pub lift : Outcome A → Action W A
  lift r w = (r, w)

  abbrev pub exhausted : Action W A
  exhausted w = (out_of_fuel, w)

  abbrev pub get : (W → A) → Action W A
  get f w = (ret (f w), w)

module _ {ℓ} {W A B : Type ℓ} where
  abbrev pub continue : Outcome A → (A → Action W B) → Action W B
  continue (ret a) f w = f a w
  continue (exc e) f w = (exc e, w)
  continue out_of_fuel f w = (out_of_fuel, w)

  infixl 5 ◌>>=◌ ◌>>◌
  abbrev pub ◌>>=◌ : Action W A → (A → Action W B) → Action W B
  ◌>>=◌ m f w = let (r, w') = m w in continue r f w'

  abbrev pub ◌>>◌ : Action W A → Action W B → Action W B
  m >> n = m >>= λ _. n

module _ {ℓ} {W A : Type ℓ} where
  abbrev pub handle : (Exception → Action W A) → Outcome A → Action W A
  handle handler (ret a) w = (ret a, w)
  handle handler (exc e) w = handler e w
  handle handler out_of_fuel w = (out_of_fuel, w)

  -- `try: body` / `except ... as e: handler e`; the handler raises again what it does not catch.
  abbrev pub try_except : Action W A → (Exception → Action W A) → Action W A
  try_except body handler w = let (r, w') = body w in handle handler r w'

abbrev pub restore : {A : Type 0} → Outcome A → Outcome (Unit {0}) → Outcome A
restore r (ret _) = r
restore r (exc e) = exc e
restore r out_of_fuel = out_of_fuel

module _ {W A : Type 0} where
  abbrev pub finish : Action W (Unit {0}) → Outcome A → Action W A
  finish cleanup out_of_fuel w = (out_of_fuel, w)
  finish cleanup (ret a) w = let (c, w') = cleanup w in (restore (ret a) c, w')
  finish cleanup (exc e) w = let (c, w') = cleanup w in (restore (exc e) c, w')

  -- `try: body` / `finally: cleanup`; what the cleanup raises replaces the outcome.
  abbrev pub try_finally : Action W A → Action W (Unit {0}) → Action W A
  try_finally body cleanup w = let (r, w') = body w in finish cleanup r w'
