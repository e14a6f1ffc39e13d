-- ===== src/Exec/Pure.antt =====
-- Code that may raise and has no other effect: an outcome without a world.
use testprotocols.Exec.{Outcome, ret, exc, out_of_fuel}

infixl 5 ◌>>=◌
abbrev pub ◌>>=◌ {ℓ κ} : {A : Type ℓ} {B : Type κ} → Outcome A → (A → Outcome B) → Outcome B
ret a >>= f = f a
exc e >>= f = exc e
out_of_fuel >>= f = out_of_fuel

-- Two results of which the first is computed first.
abbrev pub combine : {A B C : Type 0} → (A → B → C) → Outcome A → Outcome B → Outcome C
combine f (ret a) (ret b) = ret (f a b)
combine f (ret a) (exc e) = exc e
combine f (ret a) out_of_fuel = out_of_fuel
combine f (exc e) _ = exc e
combine f out_of_fuel _ = out_of_fuel
