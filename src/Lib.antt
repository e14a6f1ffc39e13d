-- ===== src/Lib.antt =====
-- testprotocols is a library of capability protocols (interfaces of devices in a network test bed) and
-- testoperations one of operations over them: they wait, measure, place and observe, and return facts.
-- This is a model of the operations' own logic, with its theorems. The capabilities that an operation
-- is given (drivers, clocks, `json.loads`) are parameters here.
--
-- Paths below are from packages/testoperations/src/testoperations/, those of scripts from the root.
--
-- - Exec: Python code that calls out and may raise, as functions from a world to an outcome and a world
--   (`ret`, `exc`, and `out_of_fuel` for a loop that the model cut short); `try`/`except` and
--   `try`/`finally`; Exec.Post has postconditions, Exec.Time what a clock is assumed to do, Exec.Takes
--   how much time an action takes; Exec.Pure is code with no world.
-- - Waiting: waiting.py. `wait_until` is `wait_until` with its loop `poll`; `await_reading` is
--   `_await_reading`, whose nonlocal variables are `Cells`.
-- - Compat: _compat.py, `parse_window_size` and, in Coerce, `coerce_enum`.
-- - Drivers: the iperf drivers, and `start_sender_session`, `start_receiver_session` of _renamed.py.
-- - Ports: pairs.py, with PortRange and L3Rule of testprotocols' models: the port texts, in Classifier
--   the QoS classifier's text, in Timestamp the time of a security event.
-- - Released: _released.py, the uses of a record as the dict that it replaces; Generators is
--   iperf_generator.py, and its FlowPair is such a record.
-- - Netem: netem_controller.py, and `inject` of _renamed.py. Netem.Calls has drivers that record calls.
-- - Captures: _capture.py; Placement is path_placement.py and Marking marking_observation.py. In Window
--   the starts, the wait and the stops are booked as events of the world.
-- - Homing: homing.py; Homing.Models has the appliance models that it reads. Homing.Laws states the
--   contracts of the appliances' capabilities, by what can be seen of them.
-- - Selection: selection.py. `select_one` returns a `Selected` where the source returns or raises.
-- - Throughput: throughput.py. Documents is `iter_json_docs`, Sessions the readers of a log's last
--   session, Await the loops `_await_session` and `_await_client_session`, Concurrent
--   `measure_concurrent_throughput`, whose lists `started` and `senders` are `Local`; Retry
--   is `_retry_on_noncompletion` and the set engine on it, Rounds `_measure_rounds`, Paths and External
--   the flows of managed and of unmanaged endpoints.
-- - Segmentation: segmentation.py. `select_roles` returns a `Selection` where the source returns or
--   raises; Decoy is `derive_decoy_target`.
-- - Review: scripts/review_gate.py, the gate in front of a review; the repository's text is read by its
--   lines, and of the API's records the fields that the gate reads are kept.
-- - Changelog: `section` of scripts/changelog_section.py; Unreleased is `unreleased` of
--   scripts/changelog_entries.py, whose nested `flush` works on the loop's variables, and `match_rows`
--   the loop of its `register_problems`, for any keys of rows and entries.
--
-- A loop `while True` takes fuel, one unit for each round. The theorems on how a loop ends ask for fuel
-- that covers the time left, counted in pauses, and show that the loop then ends by itself.
--
-- Floats are a parameter (`Floating`), or the digits of a literal that is passed on; the times of the
-- waits are integers of one unit, as these are only added, subtracted and compared. Messages of exceptions are
-- kept where a caller reads them. Texts are lists of character codes where code reads their characters.
--
-- Not modelled: the protocols themselves (interfaces without code), the
-- operations that pass one call on, and the repository's other scripts, which walk syntax trees and git
-- output.
pub mod Prelude
pub mod Exec
pub mod Waiting
pub mod Compat
pub mod Drivers
pub mod Homing
pub mod Selection
pub mod Ports
pub mod Released
pub mod Generators
pub mod Captures
pub mod Netem
pub mod Segmentation
pub mod Review
pub mod Changelog
pub mod Throughput
