-- ===== src/Captures/Examples.antt =====
-- Runs and witnesses for the captures.
use testprotocols.Prelude.{ℕ, ◌+◌, ◌≡◌, refl, List, [], ◌∷◌, ◌++◌, arith}
use testprotocols.Captures.{PcapCapture, CaptureSpec, capture_shared_window, codes}
use testprotocols.Captures.Window.{
  Event, started, stopped, waited, Windowed, Books, is_raise, capture_shared_window-Windowed,
}
use testprotocols.Captures.Placement.{item_of, SizeBand, located_in, await_stream_on_path}
use testprotocols.Captures.Placement.Located.{LocatedRight, located_in-LocatedRight}
use testprotocols.Captures.Placement.Record.{Settled}
use testprotocols.Captures.Placement.Ends.{IsPrompt, await_stream_on_path-Settled}
use testprotocols.Captures.Marking.{fill_histogram}
use testprotocols.Captures.Marking.Histogram.{Counted, fill_histogram-Counted}
use testprotocols.Exec.{ret, Action}
use testprotocols.Exec.Failure.{Exception}
use testprotocols.Exec.Post.{Post}
use testprotocols.Prelude.Text.{strip}
use testprotocols.Prelude.Int.{int_laws, ℤ, pos}

-- A vantage that books what is asked of it; its processes are named by their interface.
abbrev booking : PcapCapture (List Event)
booking = record {
  start_tcpdump = λ interface file events. (ret interface, events ++ started interface ∷ []);
  stop_tcpdump = λ pid events. (ret tt, events ++ stopped pid ∷ []);
  tshark_read_pcap = λ file args rm events. (ret [], events);
}

booking-Books : Books (λ events. events) booking
booking-Books = record { starts = λ i f v. refl; stops = λ pid v. refl }

abbrev booked_wait : Action (List Event) (Unit {0})
booked_wait events = (ret tt, events ++ waited ∷ [])

abbrev two_captures : List (CaptureSpec (List Event))
two_captures =
    record { pcap = booking; interface = codes "wan1"; capture_file = codes "/tmp/a" }
    ∷ record { pcap = booking; interface = codes "wan2"; capture_file = codes "/tmp/b" }
    ∷ []

capture_shared_window-Windowed_example :
    Post (capture_shared_window booked_wait two_captures) (λ r v'. Windowed 2 [] v' (is_raise r)) []
capture_shared_window-Windowed_example =
    capture_shared_window-Windowed (λ events. events) booked_wait (λ v. refl) two_captures []
      (booking-Books, (booking-Books, tt))

abbrev three_counts : List (List ℕ × ℕ)
three_counts = (codes "mpls", 0) ∷ (codes "lte", 7) ∷ (codes "dsl", 7) ∷ []

located_in-LocatedRight_example : LocatedRight three_counts (located_in three_counts)
located_in-LocatedRight_example = located_in-LocatedRight three_counts

-- A vantage over a clock; its reads show two frames.
abbrev ticking : PcapCapture ℕ
ticking = record {
  start_tcpdump = λ interface file w. (ret interface, w);
  stop_tcpdump = λ pid w. (ret tt, w);
  tshark_read_pcap = λ file args rm w. (ret (codes "1400\n1400\n"), w);
}

-- Nothing here raises.
abbrev NeverRaised : Exception → Type 0
NeverRaised e = ⊥

ticking-IsPrompt : IsPrompt pos NeverRaised ticking
ticking-IsPrompt = record {
  starts = λ i f w. (tt, omega int_laws);
  stops = λ pid w. (tt, omega int_laws);
  reads = λ f a rm w. (tt, omega int_laws);
}

abbrev a_second : Action ℕ (Unit {0})
a_second w = (ret tt, w + 1)

abbrev clock : Action ℕ ℤ
clock w = (ret (pos w), w)

abbrev band : SizeBand
band = record { min_bytes = 1350; max_bytes = 1500 }

abbrev two_paths : List (List ℕ × PcapCapture ℕ)
two_paths = (codes "mpls", ticking) ∷ (codes "lte", ticking) ∷ []

abbrev two_interfaces : List (List ℕ × List ℕ)
two_interfaces = (codes "mpls", codes "wan1") ∷ (codes "lte", codes "wan2") ∷ []

await_stream_on_path-Settled_example :
    Post
      (await_stream_on_path 4 a_second clock two_paths two_interfaces band
        (codes "lte")
        (pos 3)
        (pos 0)
        (codes "/tmp"))
      (λ r _. Settled NeverRaised (codes "lte") (pos 3) r)
      0
unfolding item_of
await_stream_on_path-Settled_example =
    await_stream_on_path-Settled pos NeverRaised 1 a_second (λ w. (tt, omega int_laws)) 4 clock
      (λ w. (refl, omega int_laws)) two_paths two_interfaces band (codes "lte") (pos 3) (pos 0)
      (codes "/tmp") 0 (ticking-IsPrompt, (ticking-IsPrompt, tt)) (tt, (tt, tt))
      (omega arith, omega int_laws)

-- Two frames with DSCP 46, and one that carries both families, the IPv6 header outermost.
abbrev marked_lines : List (List ℕ)
marked_lines = codes "46\t\teth:ip:udp" ∷ codes "\t46\teth:ipv6" ∷ codes "0\t10\teth:ipv6:ip" ∷ []

fill_histogram-Counted_example : Counted [] marked_lines (fill_histogram [] marked_lines)
fill_histogram-Counted_example = fill_histogram-Counted [] marked_lines

marked_lines-histogram : fill_histogram [] marked_lines ≡ ret ((pos 46, 2) ∷ (pos 10, 1) ∷ [])
unfolding fill_histogram strip
marked_lines-histogram = refl
