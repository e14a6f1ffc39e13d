-- ===== src/Exec/Post.antt =====
-- Postconditions of actions, over every outcome, and the rules to derive them.
use testprotocols.Prelude.{Bool, true, false, ◌≡◌, refl, if◌then◌else◌}
use testprotocols.Exec.{Outcome, ret, exc, out_of_fuel, Action, continue, ◌>>=◌}

module _ {W : Type 0} where
  -- `Q` holds of the outcome of `m` from `w`, and of the state that it leaves.
  abbrev pub Post : {A : Type 0} → Action W A → (Outcome A → W → Type 0) → W → Type 0
  Post m Q w = Q (m w).0 (m w).1

  -- `R` of a returned value; what ends the block early is to meet `Q` as it stands.
  abbrev pub OnReturn :
      {A B : Type 0} → (A → W → Type 0) → (Outcome B → W → Type 0) → Outcome A → W → Type 0
  OnReturn R Q (ret a) w = R a w
  OnReturn R Q (exc e) w = Q (exc e) w
  OnReturn R Q out_of_fuel w = Q out_of_fuel w

  -- `R` of a returned value, and nothing else may come out.
  abbrev pub Returns : {A : Type 0} → (A → W → Type 0) → Outcome A → W → Type 0
  Returns R (ret a) w = R a w
  Returns R (exc e) w = ⊥
  Returns R out_of_fuel w = ⊥

module _ {W A B : Type 0} where
  continue-Post :
      (R : A → W → Type 0) (Q : Outcome B → W → Type 0) (f : A → Action W B) (r : Outcome A) (w : W)
      → OnReturn R Q r w
      → ((a : A) (w' : W) → R a w' → Post (f a) Q w')
      → Post (continue r f) Q w
  continue-Post R Q f (ret a) w h k = k a w h
  continue-Post R Q f (exc e) w h k = h
  continue-Post R Q f out_of_fuel w h k = h

  pub Post-bind :
      (R : A → W → Type 0) (Q : Outcome B → W → Type 0) (m : Action W A) (f : A → Action W B)
      (w : W)
      → Post m (OnReturn R Q) w
      → ((a : A) (w' : W) → R a w' → Post (f a) Q w')
      → Post (m >>= f) Q w
  Post-bind R Q m f w h k = let (r, w') = m w in continue-Post R Q f r w' h k

  Returns→OnReturn :
      (R S : A → W → Type 0) (Q : Outcome B → W → Type 0) (r : Outcome A) (w : W)
      → Returns R r w
      → ((a : A) (w' : W) → R a w' → S a w')
      → OnReturn S Q r w
  Returns→OnReturn R S Q (ret a) w h k = k a w h
  Returns→OnReturn R S Q (exc e) w h k = absurd h
  Returns→OnReturn R S Q out_of_fuel w h k = absurd h

  -- From the contract of a call that only returns, its part in a longer block.
  pub Post-call :
      (R S : A → W → Type 0) (Q : Outcome B → W → Type 0) (m : Action W A) (w : W)
      → Post m (Returns R) w
      → ((a : A) (w' : W) → R a w' → S a w')
      → Post m (OnReturn S Q) w
  Post-call R S Q m w h k = Returns→OnReturn R S Q (m w).0 (m w).1 h k

module _ {W A : Type 0} where
  pub Returns-map :
      (R S : A → W → Type 0) (r : Outcome A) (w : W)
      → Returns R r w
      → ((a : A) → R a w → S a w)
      → Returns S r w
  Returns-map R S (ret a) w h k = k a h
  Returns-map R S (exc e) w h k = h
  Returns-map R S out_of_fuel w h k = h

  pub Post-Returns :
      (R S : A → W → Type 0) (m : Action W A) (w : W)
      → Post m (Returns R) w
      → ((a : A) (w' : W) → R a w' → S a w')
      → Post m (Returns S) w
  Post-Returns R S m w h k = Returns-map R S (m w).0 (m w).1 h (λ a. k a (m w).1)

  pub Post-map :
      (P Q : Outcome A → W → Type 0) (m : Action W A) (w : W)
      → Post m P w
      → ((r : Outcome A) (w' : W) → P r w' → Q r w')
      → Post m Q w
  Post-map P Q m w h k = k (m w).0 (m w).1 h

  pub Post-if :
      (Q : Outcome A → W → Type 0) (b : Bool) (m n : Action W A) (w : W)
      → (b ≡ true → Post m Q w)
      → (b ≡ false → Post n Q w)
      → Post (if b then m else n) Q w
  Post-if Q true m n w hm hn = hm refl
  Post-if Q false m n w hm hn = hn refl
