-- ===== src/Captures/Placement/Ends.antt =====
-- A window over all paths takes its time by the clock, so `await_stream_on_path` ends.
use testprotocols.Prelude.{
  ℕ, suc, ◌*◌, ◌≤◌, ◌≡◌, refl, ap, arith, Bool, true, ◌&&◌, List, [], ◌∷◌, length, All,
}
use testprotocols.Captures.{
  PcapCapture, CaptureSpec, FieldRead, is_last, start_captures, stop_captures,
  capture_shared_window, read_fields,
}
use testprotocols.Captures.Placement.{
  SizeBand, item_of, path_captures, count_lines, count_paths, length_read, locate_streams_by_size,
  the_stream, await_stream_on_path,
}
use testprotocols.Captures.Placement.Record.{HasStream, Settled, await_rounds-Settled}
use testprotocols.Exec.{Outcome, ret, exc, out_of_fuel, Action, lift, try_finally}
use testprotocols.Exec.Failure.{Exception}
use testprotocols.Exec.Post.{Post, Returns}
use testprotocols.Exec.Pure.{combine}
use testprotocols.Exec.Takes.{
  Anything, Gives, Takes, Takes-then, Takes-first, Takes-map, Takes-pure, Takes-lift, Takes-finally,
}
use testprotocols.Prelude.Int.{ℤ, pos, ◌+ℤ◌, ◌≤ℤ◌}

-- The one stream's frames are counted from one output.
count_lines-Gives :
    (Raised : Exception → Type 0) (signature : SizeBand) (outputs : List (List (List ℕ)))
    → length outputs ≡ 1
    → Gives Raised HasStream (count_lines ((the_stream, signature) ∷ []) outputs)
unfolding count_lines item_of
count_lines-Gives Raised signature [] h = absurd (omega (arith, h))
count_lines-Gives Raised signature (lines ∷ []) h = (length lines, refl)
count_lines-Gives Raised signature (l ∷ m ∷ outputs) h = absurd (omega (arith, h))

module _ {W : Type 0} (now : W → ℤ) (Raised : Exception → Type 0) where
  -- A vantage whose calls return, or raise what `Raised` names, and by which the clock never goes back.
  pub record IsPrompt (pcap : PcapCapture W) : Type 0 where
    pub starts :
        (interface file : List ℕ) → Takes now Raised Anything 0 (pcap.start_tcpdump interface file)
    pub stops : (process_id : List ℕ) → Takes now Raised Anything 0 (pcap.stop_tcpdump process_id)
    pub reads :
        (file args : List ℕ) (rm_pcap : Bool)
        → Takes now Raised Anything 0 (pcap.tshark_read_pcap file args rm_pcap)

  start_captures-Takes :
      (captures : List (CaptureSpec W))
      → All (λ c. IsPrompt c.pcap) captures
      → Takes now Raised (λ ps. All (λ p. IsPrompt p.0) ps) 0 (start_captures captures)
  unfolding start_captures
  start_captures-Takes [] hs =
      Takes-pure now Raised (All (λ (p : PcapCapture W × List ℕ). IsPrompt p.0)) [] tt
  start_captures-Takes (spec ∷ captures) hs =
      Takes-then now Raised Anything _ 0 (spec.pcap.start_tcpdump spec.interface spec.capture_file)
        _ (hs.0.starts spec.interface spec.capture_file)
        (λ pid _.
          Takes-map now Raised (λ ps. All (λ p. IsPrompt p.0) ps) _ (start_captures captures) _
            (start_captures-Takes captures hs.1) (λ ps k. (hs.0, k)))

  stop_captures-Takes :
      (ps : List (PcapCapture W × List ℕ))
      → All (λ p. IsPrompt p.0) ps
      → Takes now Raised Anything 0 (stop_captures ps)
  unfolding stop_captures
  stop_captures-Takes [] hs = Takes-pure now Raised Anything tt tt
  stop_captures-Takes ((pcap, pid) ∷ ps) hs =
      Takes-then now Raised Anything Anything 0 (pcap.stop_tcpdump pid) (λ _. stop_captures ps)
        (hs.0.stops pid) (λ _ _. stop_captures-Takes ps hs.1)

  -- As many outputs as reads.
  read_fields-Takes :
      (pcap : PcapCapture W) (file : List ℕ) (reads : List FieldRead) (remove : Bool)
      → IsPrompt pcap
      → Takes now Raised
          (λ outputs. length outputs ≡ length reads)
          0
          (read_fields pcap file reads remove)
  unfolding read_fields
  read_fields-Takes pcap file [] remove h =
      Takes-pure now Raised {A = List (List (List ℕ))} (λ outputs. length outputs ≡ 0) [] refl
  read_fields-Takes pcap file (read ∷ reads) remove h =
      Takes-then now Raised Anything _ 0 (pcap.tshark_read_pcap file _ (remove && is_last reads)) _
        (h.reads file _ (remove && is_last reads))
        (λ out _.
          Takes-map now Raised (λ outputs. length outputs ≡ length reads) _
            (read_fields pcap file reads remove) _ (read_fields-Takes pcap file reads remove h)
            (λ _ e. ap suc e))

  count_paths-Takes :
      (paths : List (List ℕ × PcapCapture W)) (signature : SizeBand) (dir : List ℕ)
      → All (λ p. IsPrompt p.1) paths
      → Takes now Raised
          (All (λ c. HasStream c.1))
          0
          (count_paths paths ((the_stream, signature) ∷ []) dir)
  unfolding count_paths
  count_paths-Takes [] signature dir hs =
      Takes-pure now Raised {A = List (List ℕ × List (List ℕ × ℕ))} (All (λ c. HasStream c.1)) [] tt
  count_paths-Takes ((path, pcap) ∷ paths) signature dir hs =
      Takes-then now Raised (λ outputs. length outputs ≡ 1) _ 0
        (read_fields pcap _ (length_read signature ∷ []) true) _
        (read_fields-Takes pcap _ (length_read signature ∷ []) true hs.0)
        (λ outputs e.
          Takes-then now Raised HasStream _ 0
            (lift (count_lines ((the_stream, signature) ∷ []) outputs)) _
            (Takes-lift now Raised HasStream (count_lines ((the_stream, signature) ∷ []) outputs)
              (count_lines-Gives Raised signature outputs e))
            (λ per_stream found.
              Takes-map now Raised (All (λ c. HasStream c.1)) _
                (count_paths paths ((the_stream, signature) ∷ []) dir) _
                (count_paths-Takes paths signature dir hs.1) (λ _ rest. (found, rest))))

  combine-IsPrompt :
      (make : List ℕ → CaptureSpec W) (m : Outcome (List ℕ)) (n : Outcome (List (CaptureSpec W)))
      → ((i : List ℕ) → IsPrompt (make i).pcap)
      → Gives Raised Anything m
      → Gives Raised (All (λ c. IsPrompt c.pcap)) n
      → Gives Raised (All (λ c. IsPrompt c.pcap)) (combine (λ i cs. make i ∷ cs) m n)
  combine-IsPrompt make (ret i) (ret cs) h k l = (h i, l)
  combine-IsPrompt make (ret i) (exc e) h k l = l
  combine-IsPrompt make (ret i) out_of_fuel h k l = l
  combine-IsPrompt make (exc e) n h k l = k
  combine-IsPrompt make out_of_fuel n h k l = k

  -- A look-up of a path's interface that raises, raises what `Raised` names.
  abbrev pub LooksUp : (interfaces : List (List ℕ × List ℕ)) → List ℕ × PcapCapture W → Type 0
  LooksUp interfaces p = Gives Raised Anything (item_of p.0 interfaces)

  path_captures-IsPrompt :
      (paths : List (List ℕ × PcapCapture W)) (interfaces : List (List ℕ × List ℕ)) (dir : List ℕ)
      → All (λ p. IsPrompt p.1) paths
      → All (LooksUp interfaces) paths
      → Gives Raised (All (λ c. IsPrompt c.pcap)) (path_captures paths interfaces dir)
  unfolding path_captures
  path_captures-IsPrompt [] interfaces dir hs ls = tt
  path_captures-IsPrompt ((path, pcap) ∷ paths) interfaces dir hs ls =
      combine-IsPrompt _ (item_of path interfaces) (path_captures paths interfaces dir) (λ _. hs.0)
        ls.0 (path_captures-IsPrompt paths interfaces dir hs.1 ls.1)

  module _ (poll : ℕ) (sleep : Action W (Unit {0}))
      (sleeps : Takes now Raised Anything poll sleep) where
    capture_shared_window-Takes :
        (captures : List (CaptureSpec W))
        → All (λ c. IsPrompt c.pcap) captures
        → Takes now Raised Anything poll (capture_shared_window sleep captures)
    unfolding capture_shared_window
    capture_shared_window-Takes captures hs =
        Takes-then now Raised (λ ps. All (λ p. IsPrompt p.0) ps) Anything poll
          (start_captures captures) (λ ps. try_finally sleep (stop_captures ps))
          (start_captures-Takes captures hs)
          (λ ps k.
            Takes-finally now Raised Anything poll sleep (stop_captures ps) sleeps
              (stop_captures-Takes ps k))

    locate_streams_by_size-Takes :
        (paths : List (List ℕ × PcapCapture W)) (interfaces : List (List ℕ × List ℕ))
        (signature : SizeBand) (dir : List ℕ)
        → All (λ p. IsPrompt p.1) paths
        → All (LooksUp interfaces) paths
        → Takes now Raised
            (All (λ c. HasStream c.1))
            poll
            (locate_streams_by_size sleep paths interfaces ((the_stream, signature) ∷ []) dir)
    unfolding locate_streams_by_size
    locate_streams_by_size-Takes paths interfaces signature dir hs ls =
        Takes-then now Raised (All (λ c. IsPrompt c.pcap)) _ poll
          (lift (path_captures paths interfaces dir)) _
          (Takes-lift now Raised _ (path_captures paths interfaces dir)
            (path_captures-IsPrompt paths interfaces dir hs ls))
          (λ captures k.
            Takes-first now Raised Anything _ poll (capture_shared_window sleep captures)
              (λ _. count_paths paths ((the_stream, signature) ∷ []) dir)
              (capture_shared_window-Takes captures k)
              (λ _ _. count_paths-Takes paths signature dir hs))

    -- With vantages and a clock that never go back in time, a window of `poll` ticks at least, and fuel
    -- for windows that reach past the budget: `await_stream_on_path` returns a record, or raises what
    -- one of the vantages' calls, the sleep or the look-up of a path's interface may raise, and never
    -- goes on. The record's last sample is on the expected path exactly where it has converged, and is
    -- behind the budget where it has not; no earlier sample is either.
    pub await_stream_on_path-Settled :
        (fuel : ℕ) (monotonic : Action W ℤ)
        (reads : (w : W) → Post monotonic (Returns (λ t w'. (t ≡ now w') × (now w ≤ℤ now w'))) w)
        (paths : List (List ℕ × PcapCapture W)) (interfaces : List (List ℕ × List ℕ))
        (signature : SizeBand) (expected_path : List ℕ) (budget_s anchor_monotonic : ℤ)
        (dir : List ℕ) (w : W)
        → All (λ p. IsPrompt p.1) paths
        → All (LooksUp interfaces) paths
        → (1 ≤ fuel) × (anchor_monotonic +ℤ budget_s +ℤ pos 1 ≤ℤ now w +ℤ pos (fuel * poll))
        → Post
            (await_stream_on_path fuel sleep monotonic paths interfaces signature expected_path
              budget_s anchor_monotonic dir)
            (λ r _. Settled Raised expected_path budget_s r)
            w
    unfolding await_stream_on_path
    await_stream_on_path-Settled fuel monotonic reads paths interfaces signature expected_path
          budget_s anchor_monotonic dir w hs ls enough =
        await_rounds-Settled Raised expected_path budget_s now poll
          (locate_streams_by_size sleep paths interfaces ((the_stream, signature) ∷ []) dir)
          (locate_streams_by_size-Takes paths interfaces signature dir hs ls) monotonic reads
          anchor_monotonic fuel [] w tt enough
