-- ===== src/Captures/Placement/Record.antt =====
-- What the rounds of `await_stream_on_path` record, and that they end.
use testprotocols.Prelude.{
  ℕ, zero, suc, ◌*◌, ◌≤◌, ◌≡◌, refl, subst, Bool, true, false, not, Option, List, [], ◌∷◌, ◌++◌,
  arith, All, All-append,
}
use testprotocols.Captures.Placement.{
  ConvergenceRecord, item_of, stream_counts, the_stream, located_in, is_on, await_rounds,
}
use testprotocols.Exec.{Outcome, ret, exc, out_of_fuel, Action}
use testprotocols.Exec.Post.{Post, Returns, Post-bind, Post-call, Post-if}
use testprotocols.Exec.Takes.{Anything, Gives, Post-lift, Takes, Later-return}
use testprotocols.Exec.Failure.{Exception}
use testprotocols.Exec.Pure.{combine}
use testprotocols.Prelude.Int.{ℤ, pos, ◌+ℤ◌, ◌-ℤ◌, ◌≤ℤ◌, leb_ℤ, int_laws, leb_ℤ→le}

-- `per_stream["stream"]` is there.
abbrev pub HasStream : List (List ℕ × ℕ) → Type 0
HasStream per_stream = (n : ℕ) × (item_of the_stream per_stream ≡ ret n)

counted-Gives :
    (Raised : Exception → Type 0) (path : List ℕ) (n : ℕ) (r : Outcome (List (List ℕ × ℕ)))
    → Gives Raised Anything r
    → Gives Raised Anything (combine (λ n' rest. (path, n') ∷ rest) (ret n) r)
counted-Gives Raised path n (ret rest) h = tt
counted-Gives Raised path n (exc e) h = h
counted-Gives Raised path n out_of_fuel h = h

stream_counts-Gives :
    (Raised : Exception → Type 0) (counts : List (List ℕ × List (List ℕ × ℕ)))
    → All (λ c. HasStream c.1) counts
    → Gives Raised Anything (stream_counts counts)
unfolding stream_counts
stream_counts-Gives Raised [] h = tt
stream_counts-Gives Raised ((path, per_stream) ∷ counts) h =
    rw h.0.1 (
      counted-Gives Raised path h.0.0 (stream_counts counts)
        (stream_counts-Gives Raised counts h.1))

flip_true : (b : Bool) → not b ≡ true → b ≡ false
flip_true b h = ground arith

flip_false : (b : Bool) → not b ≡ false → b ≡ true
flip_false b h = ground arith

module _ (Raised : Exception → Type 0) (expected_path : List ℕ) (budget_s : ℤ) where
  -- A sample that does not end the rounds.
  abbrev pub IsEarly : ℤ × Option (List ℕ) → Type 0
  IsEarly s = (is_on expected_path s.1 ≡ false) × (s.0 ≤ℤ budget_s)

  -- The last sample decides: it is on the expected path, or behind the budget; no earlier one is.
  pub record IsTruthful (r : ConvergenceRecord) : Type 0 where
    pub earlier : List (ℤ × Option (List ℕ))
    pub last : Option (List ℕ)
    pub trace : r.samples ≡ earlier ++ (r.elapsed_s, last) ∷ []
    pub none_ended : All IsEarly earlier
    pub arrived : is_on expected_path last ≡ r.converged
    pub spent : r.converged ≡ false → leb_ℤ r.elapsed_s budget_s ≡ false

  -- A record that tells the truth, or an exception of those that `Raised` names.
  abbrev pub Settled : Outcome ConvergenceRecord → Type 0
  Settled (ret r) = IsTruthful r
  Settled (exc e) = Raised e
  Settled out_of_fuel = ⊥

  module _ {W : Type 0} (now : W → ℤ) (poll : ℕ)
      (sample : Action W (List (List ℕ × List (List ℕ × ℕ))))
      (samples_take : Takes now Raised (All (λ c. HasStream c.1)) poll sample)
      (monotonic : Action W ℤ)
      (reads : (w : W) → Post monotonic (Returns (λ t w'. (t ≡ now w') × (now w ≤ℤ now w'))) w)
      (anchor_monotonic : ℤ) where
    -- `fuel` windows reach past the budget.
    abbrev pub Reaches : ℕ → W → Type 0
    Reaches fuel w =
        (1 ≤ fuel) × (anchor_monotonic +ℤ budget_s +ℤ pos 1 ≤ℤ now w +ℤ pos (fuel * poll))

    Reaches-next :
        (fuel : ℕ) (w w2 : W) (t : ℤ)
        → Reaches (suc fuel) w
        → t ≡ now w2
        → now w +ℤ pos poll ≤ℤ now w2
        → t -ℤ anchor_monotonic ≤ℤ budget_s
        → Reaches fuel w2
    Reaches-next zero w w2 t h same later low =
        let low' = subst (λ u. u -ℤ anchor_monotonic ≤ℤ budget_s) same low in
        absurd (omega (int_laws, h.1, later, low'))
    Reaches-next (suc fuel) w w2 t h same later low = (omega arith, omega (int_laws, h.1, later))

    pub await_rounds-Settled :
        (fuel : ℕ) (samples : List (ℤ × Option (List ℕ))) (w : W)
        → All IsEarly samples
        → Reaches fuel w
        → Post
            (await_rounds sample monotonic expected_path budget_s anchor_monotonic fuel samples)
            (λ r _. Settled r)
            w
    unfolding await_rounds
    await_rounds-Settled zero samples w early h = absurd (omega (arith, h.0))
    await_rounds-Settled (suc fuel) samples w early h =
        Post-bind (λ counts w'. All (λ c. HasStream c.1) counts × (now w +ℤ pos poll ≤ℤ now w'))
          (λ r _. Settled r) sample _ w
          (Later-return now Raised {B = ConvergenceRecord} (All (λ c. HasStream c.1)) poll (now w)
            (λ r _. Settled r) (sample w).0 (sample w).1 (samples_take w) (λ _ _ r. r))
          (λ counts w1 (streams, later).
            Post-bind (λ t w2. (t ≡ now w2) × (now w +ℤ pos poll ≤ℤ now w2)) (λ r _. Settled r)
              monotonic _ w1
              (Post-call _ (λ t w2. (t ≡ now w2) × (now w +ℤ pos poll ≤ℤ now w2)) (λ r _. Settled r)
                monotonic w1 (reads w1) (λ t w2 k. (k.0, omega (int_laws, k.1, later))))
              (λ t w2 k.
                Post-lift Raised Anything (λ r _. Settled r) (stream_counts counts) _ w2
                  (stream_counts-Gives Raised counts streams) (λ _ r. r)
                  (λ located _.
                    let loc = located_in located in
                    let elapsed = t -ℤ anchor_monotonic in
                    let seen = samples ++ (elapsed, loc) ∷ [] in
                    Post-if (λ r _. Settled r) (is_on expected_path loc) _ _ w2
                      (λ on. record {
                        earlier = samples;
                        last = loc;
                        trace = refl;
                        none_ended = early;
                        arrived = on;
                        spent = λ e. cc;
                      })
                      (λ off.
                        Post-if (λ r _. Settled r) (not (leb_ℤ elapsed budget_s)) _ _ w2
                          (λ over. record {
                            earlier = samples;
                            last = loc;
                            trace = refl;
                            none_ended = early;
                            arrived = off;
                            spent = λ _. flip_true (leb_ℤ elapsed budget_s) over;
                          })
                          (λ within.
                            let low =
                              leb_ℤ→le elapsed budget_s
                                (flip_false (leb_ℤ elapsed budget_s) within) in
                            await_rounds-Settled fuel seen w2
                              (All-append IsEarly samples ((elapsed, loc) ∷ []) early
                                ((off, low), tt))
                              (Reaches-next fuel w w2 t h k.0 k.1 low))))))
