-- ===== src/Exec/Takes.antt =====
-- Actions that end, and how much of a clock's time those that return have taken.
use testprotocols.Prelude.{ℕ, ◌+◌, subst, arith}
use testprotocols.Exec.{
  Outcome, ret, exc, out_of_fuel, Action, pure, lift, map_outcome, try_finally, finish, restore,
  ◌>>=◌,
}
use testprotocols.Exec.Failure.{Exception}
use testprotocols.Exec.Post.{Post, OnReturn, Post-bind}
use testprotocols.Exec.Pure.{combine}
use testprotocols.Prelude.Int.{ℤ, pos, ◌+ℤ◌, ◌≤ℤ◌, int_laws}

-- An outcome that the model did not cut short.
abbrev pub Ends : {A : Type 0} → Outcome A → Type 0
Ends (ret a) = Unit
Ends (exc e) = Unit
Ends out_of_fuel = ⊥

pub combine-Ends :
    {A B C : Type 0} (f : A → B → C) (m : Outcome A) (n : Outcome B)
    → Ends m
    → Ends n
    → Ends (combine f m n)
combine-Ends f (ret a) (ret b) h k = tt
combine-Ends f (ret a) (exc e) h k = tt
combine-Ends f (ret a) out_of_fuel h k = k
combine-Ends f (exc e) n h k = tt
combine-Ends f out_of_fuel n h k = h

pub map-Ends : {A B : Type 0} (f : A → B) (m : Outcome A) → Ends m → Ends (map_outcome f m)
map-Ends f (ret a) h = tt
map-Ends f (exc e) h = tt
map-Ends f out_of_fuel h = h

-- `P` of a returned value and `Raised` of an exception, in an outcome that was not cut short.
abbrev pub Gives : {A : Type 0} → (Exception → Type 0) → (A → Type 0) → Outcome A → Type 0
Gives Raised P (ret a) = P a
Gives Raised P (exc e) = Raised e
Gives Raised P out_of_fuel = ⊥

abbrev pub Anything : {A : Type 0} → A → Type 0
Anything a = Unit

module _ {W : Type 0} (now : W → ℤ) (Raised : Exception → Type 0) where
  -- From the time `from`, an action that returned has taken `d` ticks at least, and `P` holds of what
  -- it returned; `Raised` holds of what it raised.
  abbrev pub Later : {A : Type 0} → (A → Type 0) → ℕ → ℤ → Outcome A → W → Type 0
  Later P d from (ret a) w = P a × (from +ℤ pos d ≤ℤ now w)
  Later P d from (exc e) w = Raised e
  Later P d from out_of_fuel w = ⊥

  abbrev pub Takes : {A : Type 0} → (A → Type 0) → ℕ → Action W A → Type 0
  Takes P d m = (w : W) → Post m (Later P d (now w)) w

  pub Later-return :
      {A B : Type 0} (P : A → Type 0) (d : ℕ) (from : ℤ) (Q : Outcome B → W → Type 0)
      (r : Outcome A) (w : W)
      → Later P d from r w
      → ((e : Exception) (w' : W) → Raised e → Q (exc e) w')
      → OnReturn (λ a w'. P a × (from +ℤ pos d ≤ℤ now w')) Q r w
  Later-return P d from Q (ret a) w h k = h
  Later-return P d from Q (exc e) w h k = k e w h
  Later-return P d from Q out_of_fuel w h k = absurd h

  Later-trans :
      {A : Type 0} (P : A → Type 0) (d e : ℕ) (from to : ℤ) (r : Outcome A) (w : W)
      → from +ℤ pos d ≤ℤ to
      → Later P e to r w
      → Later P (d + e) from r w
  Later-trans P d e from to (ret a) w h k = (k.0, omega (int_laws, k.1, h))
  Later-trans P d e from to (exc x) w h k = k
  Later-trans P d e from to out_of_fuel w h k = k

  pub Takes-bind :
      {A B : Type 0} (P : A → Type 0) (Q : B → Type 0) (d e : ℕ) (m : Action W A)
      (f : A → Action W B)
      → Takes P d m
      → ((a : A) → P a → Takes Q e (f a))
      → Takes Q (d + e) (m >>= f)
  Takes-bind {B = B} P Q d e m f h k w =
      Post-bind (λ a w'. P a × (now w +ℤ pos d ≤ℤ now w')) (Later Q (d + e) (now w)) m f w
        (Later-return {B = B} P d (now w) (Later Q (d + e) (now w)) (m w).0 (m w).1 (h w)
          (λ _ _ r. r))
        (λ a w' t. Later-trans Q d e (now w) (now w') (f a w').0 (f a w').1 t.1 (k a t.0 w'))

  pub Takes-pure : {A : Type 0} (P : A → Type 0) (a : A) → P a → Takes P 0 (pure a)
  Takes-pure P a h w = (h, omega int_laws)

  pub Takes-then :
      {A B : Type 0} (P : A → Type 0) (Q : B → Type 0) (d : ℕ) (m : Action W A) (f : A → Action W B)
      → Takes P 0 m
      → ((a : A) → P a → Takes Q d (f a))
      → Takes Q d (m >>= f)
  Takes-then P Q d m f h k =
      subst (λ e. Takes Q e (m >>= f)) (omega arith) (Takes-bind P Q 0 d m f h k)

  pub Takes-first :
      {A B : Type 0} (P : A → Type 0) (Q : B → Type 0) (d : ℕ) (m : Action W A) (f : A → Action W B)
      → Takes P d m
      → ((a : A) → P a → Takes Q 0 (f a))
      → Takes Q d (m >>= f)
  Takes-first P Q d m f h k =
      subst (λ e. Takes Q e (m >>= f)) (omega arith) (Takes-bind P Q d 0 m f h k)

  pub Takes-map :
      {A B : Type 0} (P : A → Type 0) (Q : B → Type 0) (m : Action W A) (f : A → B)
      → Takes P 0 m
      → ((a : A) → P a → Q (f a))
      → Takes Q 0 (m >>= (λ a. pure (f a)))
  Takes-map P Q m f h k = Takes-then P Q 0 m (λ a. pure (f a)) h (λ a x. Takes-pure Q (f a) (k a x))

  Later-lift :
      {A : Type 0} (P : A → Type 0) (r : Outcome A) (w : W)
      → Gives Raised P r
      → Later P 0 (now w) r w
  Later-lift P (ret a) w h = (h, omega int_laws)
  Later-lift P (exc e) w h = h
  Later-lift P out_of_fuel w h = h

  pub Takes-lift :
      {A : Type 0} (P : A → Type 0) (r : Outcome A) → Gives Raised P r → Takes P 0 (lift r)
  Takes-lift P r h w = Later-lift P r w h

  Later-returned :
      {A : Type 0} (P : A → Type 0) (d : ℕ) (from to : ℤ) (a : A) (c : Outcome (Unit {0})) (w : W)
      → P a × (from +ℤ pos d ≤ℤ to)
      → Later Anything 0 to c w
      → Later P d from (restore (ret a) c) w
  Later-returned P d from to a (ret _) w h k = (h.0, omega (int_laws, h.1, k.1))
  Later-returned P d from to a (exc e) w h k = k
  Later-returned P d from to a out_of_fuel w h k = k

  Later-raised :
      {A : Type 0} (P : A → Type 0) (d : ℕ) (from to : ℤ) (e : Exception) (c : Outcome (Unit {0}))
      (w : W)
      → Raised e
      → Later Anything 0 to c w
      → Later P d from (restore {A = A} (exc e) c) w
  Later-raised P d from to e (ret _) w h k = h
  Later-raised P d from to e (exc _) w h k = k
  Later-raised P d from to e out_of_fuel w h k = k

  Later-finish :
      {A : Type 0} (P : A → Type 0) (d : ℕ) (from : ℤ) (cleanup : Action W (Unit {0}))
      (r : Outcome A) (w : W)
      → Takes Anything 0 cleanup
      → Later P d from r w
      → Post (finish cleanup r) (Later P d from) w
  Later-finish P d from cleanup (ret a) w h k =
      let (c, w') = cleanup w in Later-returned P d from (now w) a c w' k (h w)
  Later-finish P d from cleanup (exc e) w h k =
      let (c, w') = cleanup w in Later-raised P d from (now w) e c w' k (h w)
  Later-finish P d from cleanup out_of_fuel w h k = k

  pub Takes-finally :
      {A : Type 0} (P : A → Type 0) (d : ℕ) (body : Action W A) (cleanup : Action W (Unit {0}))
      → Takes P d body
      → Takes Anything 0 cleanup
      → Takes P d (try_finally body cleanup)
  Takes-finally P d body cleanup h k w =
      let (r, w') = body w in Later-finish P d (now w) cleanup r w' k (h w)

module _ {W A B : Type 0} where
  -- A computed outcome, in a longer block.
  pub Post-lift :
      (Raised : Exception → Type 0) (P : A → Type 0) (Q : Outcome B → W → Type 0) (r : Outcome A)
      (f : A → Action W B) (w : W)
      → Gives Raised P r
      → ((e : Exception) → Raised e → Q (exc e) w)
      → ((a : A) → P a → Post (f a) Q w)
      → Post (lift r >>= f) Q w
  Post-lift Raised P Q (ret a) f w h k l = l a h
  Post-lift Raised P Q (exc e) f w h k l = k e h
  Post-lift Raised P Q out_of_fuel f w h k l = absurd h
