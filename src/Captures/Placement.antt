-- ===== src/Captures/Placement.antt =====
-- packages/testoperations/src/testoperations/path_placement.py: which path carries a stream, told by
-- the sizes of its frames. Times are in ticks of the clock; a mapping is an association list in its
-- order, with distinct keys.
pub mod Record
pub mod Located
pub mod Ends
use testprotocols.Prelude.{
  ℕ, zero, suc, ◌+◌, ◌-◌, ◌*◌, ◌≤◌, ◌<◌, String, ◌≡◌, refl, sym, ap, ◌∙◌, subst, ◌≢◌, ◌↔◌, ◌⊎◌, inl,
  inr, Bool, true, false, not, ◌&&◌, ◌||◌, Option, none, some, List, [], ◌∷◌, ◌++◌, map, append-nil,
  append_assoc, arith, eq_iff, eq_refl, str_eq, ltb, leb, ◌==◌, if◌then◌else◌, Bool-cases,
  Option-cases, length, All, length-append, length-map, All-append,
}
use testprotocols.Prelude.Int.{ℤ, ◌-ℤ◌, leb_ℤ}
use testprotocols.Prelude.Text.{codes, decimal}
use testprotocols.Prelude.Text.Split.{text_eq}
use testprotocols.Exec.Pure.{combine}
use testprotocols.Exec.{map_outcome, Outcome, ret, exc, Action, pure, lift, exhausted, ◌>>=◌, ◌>>◌}
use testprotocols.Exec.Failure.{value_error, key_error}
use testprotocols.Captures.{PcapCapture, CaptureSpec, FieldRead, capture_shared_window, read_fields}

-- `_LENGTH_FIELDS`
abbrev length_fields : List ℕ
length_fields = codes "-T fields -e frame.len"

pub record SizeBand : Type 0 where
  pub min_bytes : ℕ
  pub max_bytes : ℕ

pub record ConvergenceRecord : Type 0 where
  pub elapsed_s : ℤ
  pub converged : Bool
  pub samples : List (ℤ × Option (List ℕ))

abbrev band_filter : SizeBand → List ℕ
band_filter signature =
    codes "frame.len>="
    ++ (decimal signature.min_bytes ++ (codes " and frame.len<=" ++ decimal signature.max_bytes))

abbrev pub length_read : SizeBand → FieldRead
length_read signature = record {
  display_filter = band_filter signature;
  field_args = length_fields;
}

-- `mapping[key]`
unfoldable pub item_of : {A : Type 0} → List ℕ → List (List ℕ × A) → Outcome A
item_of key [] = exc key_error
item_of key ((k, a) ∷ items) = let rest = item_of key items in if text_eq k key then ret a else rest

abbrev capture_path : List ℕ → List ℕ → List ℕ
capture_path capture_dir path = capture_dir ++ (codes "/placement_" ++ (path ++ codes ".pcap"))

-- `zip(signatures, outputs, strict=True)`, with the number of lines.
unfoldable pub count_lines :
    List (List ℕ × SizeBand) → List (List (List ℕ)) → Outcome (List (List ℕ × ℕ))
count_lines [] [] = ret []
count_lines [] (lines ∷ outputs) = exc value_error
count_lines (s ∷ signatures) [] = exc value_error
count_lines ((stream, band) ∷ signatures) (lines ∷ outputs) =
    map_outcome (λ counts. (stream, length lines) ∷ counts) (count_lines signatures outputs)

abbrev only : List (List (List ℕ)) → Outcome (List (List ℕ))
only (lines ∷ []) = ret lines
only _ = exc value_error

module _ {W : Type 0} where
  unfoldable pub count_signature_on_path :
      (sleep : Action W (Unit {0}))
      → PcapCapture W
      → (interface : List ℕ) → SizeBand
      → (capture_file : List ℕ) → Action W ℕ
  unfolding capture_shared_window read_fields
  count_signature_on_path sleep pcap interface signature capture_file = do
    capture_shared_window sleep
        (record { pcap = pcap; interface = interface; capture_file = capture_file } ∷ [])
    outputs ← read_fields pcap capture_file (length_read signature ∷ []) true
    lines ← lift (only outputs)
    pure (length lines)

  -- The captures of the window; a path without an interface is a `KeyError`.
  unfoldable pub path_captures :
      List (List ℕ × PcapCapture W)
      → (interfaces : List (List ℕ × List ℕ)) → (capture_dir : List ℕ)
      → Outcome (List (CaptureSpec W))
  unfolding item_of
  path_captures [] interfaces capture_dir = ret []
  path_captures ((path, pcap) ∷ paths) interfaces capture_dir =
      combine
        (λ interface captures.
          record {
            pcap = pcap;
            interface = interface;
            capture_file = capture_path capture_dir path;
          }
          ∷ captures)
        (item_of path interfaces) (path_captures paths interfaces capture_dir)

  -- The loop over the paths.
  unfoldable pub count_paths :
      List (List ℕ × PcapCapture W)
      → (signatures : List (List ℕ × SizeBand)) → (capture_dir : List ℕ)
      → Action W (List (List ℕ × List (List ℕ × ℕ)))
  unfolding read_fields count_lines
  count_paths [] signatures capture_dir = pure []
  count_paths ((path, pcap) ∷ paths) signatures capture_dir = do
    outputs ←
        read_fields pcap (capture_path capture_dir path) (map (λ s. length_read s.1) signatures)
          true
    per_stream ← lift (count_lines signatures outputs)
    counts ← count_paths paths signatures capture_dir
    pure ((path, per_stream) ∷ counts)

  unfoldable pub locate_streams_by_size :
      (sleep : Action W (Unit {0}))
      → List (List ℕ × PcapCapture W)
      → (interfaces : List (List ℕ × List ℕ)) → (signatures : List (List ℕ × SizeBand))
      → (capture_dir : List ℕ) → Action W (List (List ℕ × List (List ℕ × ℕ)))
  unfolding path_captures capture_shared_window count_paths
  locate_streams_by_size sleep paths interfaces signatures capture_dir = do
    captures ← lift (path_captures paths interfaces capture_dir)
    capture_shared_window sleep captures
    count_paths paths signatures capture_dir

abbrev pub the_stream : List ℕ
the_stream = codes "stream"

-- Each path with `per_stream["stream"]`.
unfoldable pub stream_counts : List (List ℕ × List (List ℕ × ℕ)) → Outcome (List (List ℕ × ℕ))
unfolding item_of
stream_counts [] = ret []
stream_counts ((path, per_stream) ∷ counts) =
    combine (λ n rest. (path, n) ∷ rest) (item_of the_stream per_stream) (stream_counts counts)

-- The paths that carry the signature.
unfoldable pub carrying : List (List ℕ × ℕ) → List (List ℕ × ℕ)
carrying [] = []
carrying ((path, n) ∷ counts) =
    let rest = carrying counts in if ltb 0 n then (path, n) ∷ rest else rest

-- `max` with a key: the first of the greatest.
unfoldable pub greatest : List ℕ × ℕ → List (List ℕ × ℕ) → List ℕ × ℕ
greatest best [] = best
greatest best (c ∷ counts) =
    let kept = greatest best counts in
    let replaced = greatest c counts in if ltb best.1 c.1 then replaced else kept

abbrev of_carrying : List (List ℕ × ℕ) → Option (List ℕ)
of_carrying [] = none
of_carrying (c ∷ counts) = some (greatest c counts).0

unfoldable pub located_in : List (List ℕ × ℕ) → Option (List ℕ)
unfolding carrying greatest
located_in counts = of_carrying (carrying counts)

abbrev pub is_on : List ℕ → Option (List ℕ) → Bool
is_on expected none = false
is_on expected (some path) = text_eq path expected

module _ {W : Type 0} (sample : Action W (List (List ℕ × List (List ℕ × ℕ))))
    (monotonic : Action W ℤ) (expected_path : List ℕ) (budget_s anchor_monotonic : ℤ) where
  -- The rounds, with fuel; `sample` is the window over all paths.
  unfoldable pub await_rounds :
      ℕ → (samples : List (ℤ × Option (List ℕ))) → Action W ConvergenceRecord
  unfolding stream_counts located_in
  await_rounds zero samples = exhausted
  await_rounds (suc fuel) samples = do
    counts ← sample
    now ← monotonic
    located ← lift (stream_counts counts)
    let elapsed = now -ℤ anchor_monotonic
    let seen = samples ++ (elapsed, located_in located) ∷ []
    let rest = await_rounds fuel seen
    if is_on expected_path (located_in located)
        then pure (record { elapsed_s = elapsed; converged = true; samples = seen })
        else if not (leb_ℤ elapsed budget_s)
        then pure (record { elapsed_s = elapsed; converged = false; samples = seen })
        else rest

module _ {W : Type 0} where
  unfoldable pub await_stream_on_path :
      (fuel : ℕ) (sleep : Action W (Unit {0})) (monotonic : Action W ℤ)
      → List (List ℕ × PcapCapture W)
      → (interfaces : List (List ℕ × List ℕ)) → SizeBand
      → (expected_path : List ℕ) → (budget_s anchor_monotonic : ℤ) → (capture_dir : List ℕ)
      → Action W ConvergenceRecord
  unfolding await_rounds locate_streams_by_size
  await_stream_on_path fuel sleep monotonic paths interfaces signature expected_path budget_s
        anchor_monotonic capture_dir =
      await_rounds
        (locate_streams_by_size sleep paths interfaces ((the_stream, signature) ∷ []) capture_dir)
        monotonic expected_path budget_s anchor_monotonic fuel []
