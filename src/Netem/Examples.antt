-- ===== src/Netem/Examples.antt =====
-- Witnesses for the presets and the injections.
use testprotocols.Prelude.{◌≡◌, ◌≢◌, false, none, some, List, []}
use testprotocols.Netem.{
  NetemPreset, clean, dsl, cable, lte, three_g, satellite, degraded, lossy, apply_preset, percent,
  codes,
}
use testprotocols.Netem.Calls.{
  Call, old_name, recording, a_packet_storm, run_injection, Injected, run_injection-Injected,
}
use testprotocols.Netem.Presets.{preset_text, noticed, apply_preset-text, apply_preset-unknown}
use testprotocols.Compat.Coerce.{member_given, text_given}
use testprotocols.Exec.{Action, ret, exc}
use testprotocols.Exec.Failure.{value_error}

-- A warning that goes unseen.
abbrev quiet : Action (List Call) (Unit {0})
quiet calls = (ret tt, calls)

run_injection-Injected_example :
    Injected old_name
      (a_packet_storm 500 none (some (percent 50 1)))
      []
      (run_injection (recording old_name) (a_packet_storm 500 none (some (percent 50 1))) [])
run_injection-Injected_example =
    run_injection-Injected old_name (a_packet_storm 500 none (some (percent 50 1))) []

apply_preset-text_example :
    apply_preset quiet (recording old_name) (text_given (preset_text three_g) false) []
    ≡ noticed quiet false (apply_preset quiet (recording old_name) (member_given three_g)) []
apply_preset-text_example = apply_preset-text quiet (recording old_name) three_g false []

not_empty : (p : NetemPreset) → preset_text p ≢ codes ""
not_empty clean e = cc
not_empty dsl e = cc
not_empty cable e = cc
not_empty lte e = cc
not_empty three_g e = cc
not_empty satellite e = cc
not_empty degraded e = cc
not_empty lossy e = cc

apply_preset-unknown_example :
    apply_preset quiet (recording old_name) (text_given (codes "") false) [] ≡ (exc value_error, [])
apply_preset-unknown_example =
    apply_preset-unknown quiet (recording old_name) (codes "") false [] not_empty
