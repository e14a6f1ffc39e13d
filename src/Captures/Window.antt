-- ===== src/Captures/Window.antt =====
-- All captures of a shared window start before the wait, and all stop behind it.
use testprotocols.Exec.{Outcome, ret, exc, out_of_fuel, pure, continue, finish}
use testprotocols.Exec.Post.{Post, OnReturn, Returns, Post-bind, Post-call, Post-Returns, Post-map}
use testprotocols.Prelude.{
  ℕ, suc, ◌<◌, ◌≡◌, refl, sym, ap, ◌∙◌, subst, Bool, true, false, List, [], ◌∷◌, ◌++◌, map,
  append-nil, append_assoc, arith, length, All,
}
use testprotocols.Captures.{
  PcapCapture, CaptureSpec, start_captures, stop_captures, Action, try_finally,
  capture_shared_window, length-map,
}

-- A start that returned a process, the wait, and a call that stops a process.
pub data Event : Type 0 where
  started stopped : List ℕ → Event
  waited : Event

-- The start of a capture that returned `process_id`, or that raised.
abbrev pub AfterStart : List Event → Outcome (List ℕ) → List Event → Type 0
AfterStart l (ret process_id) l' = l' ≡ l ++ started process_id ∷ []
AfterStart l (exc e) l' = l' ≡ l
AfterStart l out_of_fuel l' = ⊥

-- A call that returned or raised, and was booked.
abbrev pub AfterCall : Event → List Event → Outcome (Unit {0}) → List Event → Type 0
AfterCall event l (ret _) l' = l' ≡ l ++ event ∷ []
AfterCall event l (exc e) l' = l' ≡ l ++ event ∷ []
AfterCall event l out_of_fuel l' = ⊥

abbrev starts_of : List (List ℕ) → List Event
starts_of pids = map started pids

abbrev stops_of : List (List ℕ) → List Event
stops_of pids = map stopped pids

-- What one window booked, of `n` captures: every start, the wait, every stop; or, where a start
-- raised, the starts before it.
pub data Windowed (n : ℕ) (l l' : List Event) : (raised : Bool) → Type 0 where
  whole :
      {b : Bool} (pids : List (List ℕ))
      → length pids ≡ n
      → l' ≡ l ++ (starts_of pids ++ waited ∷ stops_of pids)
      → Windowed n l l' b
  cut_short :
      (pids : List (List ℕ)) → length pids < n → l' ≡ l ++ starts_of pids → Windowed n l l' true

abbrev pub is_raise : {A : Type 0} → Outcome A → Bool
is_raise (exc e) = true
is_raise _ = false

module _ {V : Type 0} (events : V → List Event) where
  -- A capture whose starts are booked in `events`, and its stops, which return.
  pub record Books (pcap : PcapCapture V) : Type 0 where
    pub starts :
        (interface file : List ℕ) (v : V)
        → Post (pcap.start_tcpdump interface file) (λ r v'. AfterStart (events v) r (events v')) v
    pub stops :
        (process_id : List ℕ) (v : V)
        → Post
            (pcap.stop_tcpdump process_id)
            (Returns (λ _ v'. events v' ≡ events v ++ stopped process_id ∷ []))
            v

  -- What the starts of `n` captures leave.
  abbrev Started : ℕ → List Event → Outcome (List (PcapCapture V × List ℕ)) → V → Type 0
  Started n l (ret ps) v =
      (length ps ≡ n) × All (λ p. Books p.0) ps × (events v ≡ l ++ starts_of (map (λ p. p.1) ps))
  Started n l (exc e) v =
      (pids : List (List ℕ)) × (length pids < n) × (events v ≡ l ++ starts_of pids)
  Started n l out_of_fuel v = ⊥

  Started-first :
      (n : ℕ) (l : List Event) (r : Outcome (List ℕ)) (v : V)
      → AfterStart l r (events v)
      → OnReturn (λ pid v'. events v' ≡ l ++ started pid ∷ []) (Started (suc n) l) r v
  Started-first n l (ret pid) v h = h
  Started-first n l (exc e) v h = ([], omega arith, h ∙ sym (append-nil l))
  Started-first n l out_of_fuel v h = absurd h

  Started-rest :
      (n : ℕ) (l : List Event) (pcap : PcapCapture V) (pid : List ℕ)
      (r : Outcome (List (PcapCapture V × List ℕ))) (v : V)
      → Books pcap
      → Started n (l ++ started pid ∷ []) r v
      → Post (continue r (λ ps. pure ((pcap, pid) ∷ ps))) (Started (suc n) l) v
  Started-rest n l pcap pid (ret ps) v b (size, bs, e) =
      (ap suc size, (b, bs), e ∙ append_assoc l (started pid ∷ []) (starts_of (map (λ p. p.1) ps)))
  Started-rest n l pcap pid (exc x) v b (pids, size, e) =
      (pid ∷ pids, omega arith, e ∙ append_assoc l (started pid ∷ []) (starts_of pids))
  Started-rest n l pcap pid out_of_fuel v b h = absurd h

  start_captures-Started :
      (captures : List (CaptureSpec V)) (v : V)
      → All (λ c. Books c.pcap) captures
      → Post (start_captures captures) (Started (length captures) (events v)) v
  unfolding start_captures
  start_captures-Started [] v hs = (refl, tt, sym (append-nil (events v)))
  start_captures-Started (spec ∷ captures) v hs =
      let n = length captures in
      Post-bind (λ pid v'. events v' ≡ events v ++ started pid ∷ []) (Started (suc n) (events v))
        (spec.pcap.start_tcpdump spec.interface spec.capture_file) _ v
        (Started-first n (events v) (spec.pcap.start_tcpdump spec.interface spec.capture_file v).0
          (spec.pcap.start_tcpdump spec.interface spec.capture_file v).1
          (hs.0.starts spec.interface spec.capture_file v))
        (λ pid v' e.
          let (r, v'') = start_captures captures v' in
          Started-rest n (events v) spec.pcap pid r v'' hs.0
            (subst (λ l. Started n l r v'') e (start_captures-Started captures v' hs.1)))

  Started-end :
      (n : ℕ) (l : List Event) (r : Outcome (List (PcapCapture V × List ℕ))) (v : V)
      → Started n l r v
      → OnReturn
          (λ ps v'. Started n l (ret ps) v')
          (λ (r' : Outcome (Unit {0})) v'. Windowed n l (events v') (is_raise r'))
          r
          v
  Started-end n l (ret ps) v h = h
  Started-end n l (exc e) v (pids, size, x) = cut_short pids size x
  Started-end n l out_of_fuel v h = absurd h

  stop_captures-Returns :
      (ps : List (PcapCapture V × List ℕ)) (v : V)
      → All (λ p. Books p.0) ps
      → Post
          (stop_captures ps)
          (Returns (λ _ v'. events v' ≡ events v ++ stops_of (map (λ p. p.1) ps)))
          v
  unfolding stop_captures
  stop_captures-Returns [] v hs = sym (append-nil (events v))
  stop_captures-Returns ((pcap, pid) ∷ ps) v hs =
      let Q = λ (_ : Unit {0}) (v' : V).
        events v' ≡ events v ++ (stopped pid ∷ stops_of (map (λ p. p.1) ps)) in
      Post-bind (λ _ v'. events v' ≡ events v ++ stopped pid ∷ []) (Returns Q)
        (pcap.stop_tcpdump pid) (λ _. stop_captures ps) v
        (Post-call _ (λ _ v'. events v' ≡ events v ++ stopped pid ∷ []) (Returns Q)
          (pcap.stop_tcpdump pid) v (hs.0.stops pid v) (λ _ _ x. x))
        (λ _ v' e.
          Post-Returns _ Q (stop_captures ps) v' (stop_captures-Returns ps v' hs.1) (λ _ v'' x.
            x
            ∙ ap (λ l. l ++ stops_of (map (λ p. p.1) ps)) e
            ∙ append_assoc (events v) (stopped pid ∷ []) (stops_of (map (λ p. p.1) ps))))

  returned : (Q : V → Type 0) (c : Outcome (Unit {0})) (v : V) → Returns (λ _ v'. Q v') c v → Q v
  returned Q (ret _) v x = x
  returned Q (exc _) v x = absurd x
  returned Q out_of_fuel v x = absurd x

  finish-Post :
      (cleanup : Action V (Unit {0})) (l : List Event) (r : Outcome (Unit {0})) (v : V)
      (Q : V → Type 0)
      → AfterCall waited l r (events v)
      → (events v ≡ l ++ waited ∷ [] → Post cleanup (Returns (λ _ v'. Q v')) v)
      → Post (finish cleanup r) (λ _ v'. Q v') v
  finish-Post cleanup l (ret _) v Q h k = returned Q (cleanup v).0 (cleanup v).1 (k h)
  finish-Post cleanup l (exc e) v Q h k = returned Q (cleanup v).0 (cleanup v).1 (k h)
  finish-Post cleanup l out_of_fuel v Q h k = absurd h

  module _ (sleep : Action V (Unit {0}))
      (waits : (v : V) → Post sleep (λ r v'. AfterCall waited (events v) r (events v')) v) where
    wait_and_stop-whole :
        (ps : List (PcapCapture V × List ℕ)) (l : List Event) (v : V)
        → All (λ p. Books p.0) ps
        → events v ≡ l ++ starts_of (map (λ p. p.1) ps)
        → Post
            (try_finally sleep (stop_captures ps))
            (λ r v'. Windowed (length ps) l (events v') (is_raise r))
            v
    wait_and_stop-whole ps l v hs e =
        let pids = map (λ p. p.1) ps in
        let Q = λ (v' : V). events v' ≡ l ++ (starts_of pids ++ waited ∷ stops_of pids) in
        let (r, v') = sleep v in
        Post-map (λ _ v''. Q v'') (λ r'' v''. Windowed (length ps) l (events v'') (is_raise r''))
          (finish (stop_captures ps) r) v'
          (finish-Post (stop_captures ps) (events v) r v' Q (waits v) (λ slept.
            Post-Returns (λ _ v''. events v'' ≡ events v' ++ stops_of pids) (λ _ v''. Q v'')
              (stop_captures ps) v' (stop_captures-Returns ps v' hs)
              (λ _ v'' x.
                x
                ∙ ap (λ m. m ++ stops_of pids) (slept ∙ ap (λ m. m ++ waited ∷ []) e)
                ∙ append_assoc (l ++ starts_of pids) (waited ∷ []) (stops_of pids)
                ∙ append_assoc l (starts_of pids) (waited ∷ stops_of pids))))
          (λ r' v'' x. whole pids (length-map ps (λ p. p.1)) x)

    -- A window over captures that are booked, with a wait that returns or raises and stops that
    -- return: every capture starts, then comes the wait, then each process is stopped, each once and
    -- in the order of the starts. Only where a start raised is there no wait and no stop, and then
    -- the window raises.
    pub capture_shared_window-Windowed :
        (captures : List (CaptureSpec V)) (v : V)
        → All (λ c. Books c.pcap) captures
        → Post
            (capture_shared_window sleep captures)
            (λ r v'. Windowed (length captures) (events v) (events v') (is_raise r))
            v
    unfolding capture_shared_window
    capture_shared_window-Windowed captures v hs =
        let n = length captures in
        Post-bind (λ ps v'. Started n (events v) (ret ps) v')
          (λ r v'. Windowed n (events v) (events v') (is_raise r)) (start_captures captures)
          (λ ps. try_finally sleep (stop_captures ps)) v
          (Started-end n (events v) (start_captures captures v).0 (start_captures captures v).1
            (start_captures-Started captures v hs))
          (λ ps v' h.
            subst
              (λ m.
                Post (try_finally sleep (stop_captures ps))
                  (λ r v''. Windowed m (events v) (events v'') (is_raise r)) v')
              h.0 (wait_and_stop-whole ps (events v) v' h.1 h.2))
