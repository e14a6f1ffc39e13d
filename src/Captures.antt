-- ===== src/Captures.antt =====
-- packages/testoperations/src/testoperations/_capture.py: one capture window over several captures,
-- and the reads of a finished capture file. Texts are lists of character codes.
pub mod Window
pub mod Placement
pub mod Marking
mod Examples
use testprotocols.Prelude.{
  ℕ, zero, suc, ◌+◌, ◌-◌, ◌*◌, ◌≤◌, ◌<◌, String, ◌≡◌, refl, sym, ap, ◌∙◌, subst, ◌≢◌, ◌↔◌, ◌⊎◌, inl,
  inr, Bool, true, false, not, ◌&&◌, ◌||◌, Option, none, some, List, [], ◌∷◌, ◌++◌, map, append-nil,
  append_assoc, arith, eq_iff, eq_refl, str_eq, ltb, leb, ◌==◌, if◌then◌else◌, Bool-cases,
  Option-cases, length, All, length-append, length-map, All-append,
}
use testprotocols.Prelude.Text.{codes}
use testprotocols.Prelude.Text.Lines.{split_lines, solid_lines}
use testprotocols.Exec.{Action, pure, try_finally, ◌>>=◌, ◌>>◌}

-- The members that the operations call, with the arguments that they vary: no port and no filters
-- are passed to a capture.
pub record PcapCapture (W : Type 0) : Type 0 where
  pub start_tcpdump : (interface output_file : List ℕ) → Action W (List ℕ)
  pub stop_tcpdump : (process_id : List ℕ) → Action W (Unit {0})
  pub tshark_read_pcap : (fname additional_args : List ℕ) → (rm_pcap : Bool) → Action W (List ℕ)

pub record CaptureSpec (W : Type 0) : Type 0 where
  pub pcap : PcapCapture W
  pub interface : List ℕ
  pub capture_file : List ℕ

pub record FieldRead : Type 0 where
  pub display_filter : List ℕ
  pub field_args : List ℕ

abbrev read_args : FieldRead → List ℕ
read_args read = codes "-Y \"" ++ (read.display_filter ++ (codes "\" " ++ read.field_args))

-- `last`, for the read in front of the others.
abbrev pub is_last : List FieldRead → Bool
is_last [] = true
is_last (read ∷ reads) = false

module _ {W : Type 0} where
  unfoldable pub start_captures : List (CaptureSpec W) → Action W (List (PcapCapture W × List ℕ))
  start_captures [] = pure []
  start_captures (spec ∷ captures) = do
    process_id ← spec.pcap.start_tcpdump spec.interface spec.capture_file
    started ← start_captures captures
    pure ((spec.pcap, process_id) ∷ started)

  unfoldable pub stop_captures : List (PcapCapture W × List ℕ) → Action W (Unit {0})
  stop_captures [] = pure tt
  stop_captures ((pcap, process_id) ∷ started) =
      pcap.stop_tcpdump process_id >> stop_captures started

  -- `sleep` is `time.sleep(window_s)`.
  unfoldable pub capture_shared_window :
      (sleep : Action W (Unit {0})) → List (CaptureSpec W) → Action W (Unit {0})
  unfolding start_captures stop_captures
  capture_shared_window sleep captures = do
    started ← start_captures captures
    try_finally sleep (stop_captures started)

  unfoldable pub read_fields :
      PcapCapture W
      → (capture_file : List ℕ) → List FieldRead
      → (remove_on_last : Bool) → Action W (List (List (List ℕ)))
  unfolding split_lines solid_lines
  read_fields pcap capture_file [] remove_on_last = pure []
  read_fields pcap capture_file (read ∷ reads) remove_on_last = do
    out ← pcap.tshark_read_pcap capture_file (read_args read) (remove_on_last && is_last reads)
    outputs ← read_fields pcap capture_file reads remove_on_last
    pure (solid_lines (split_lines out) ∷ outputs)
