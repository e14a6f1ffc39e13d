-- ===== src/Throughput/Examples.antt =====
-- A log of two sessions and the waits for it, with whole numbers for floats and a `json.loads` that
-- knows two documents.
use testprotocols.Exec.{Action, ret}
use testprotocols.Exec.Post.{Post}
use testprotocols.Exec.Time.{Clock}
use testprotocols.Prelude.{
  ℕ, ◌/◌, ◌+◌, ◌==◌, ◌≡◌, refl, Option, none, some, List, [], ◌∷◌, ◌++◌, ltb, arith, if◌then◌else◌,
}
use testprotocols.Prelude.Int.{ℤ, pos, negsuc, ◌+ℤ◌}
use testprotocols.Prelude.Text.{codes}
use testprotocols.Throughput.Await.{Timing, Parsing, await_session, await_client_session}
use testprotocols.Throughput.Await.Ends.{
  Readable, SessionOutcome, await_session-SessionOutcome, ClientOutcome,
  await_client_session-ClientOutcome,
}
use testprotocols.Throughput.Documents.{iter_json_docs}
use testprotocols.Throughput.Documents.Growth.{iter_json_docs-append}
use testprotocols.Throughput.Documents.Grammar.{
  done, plain, quoted, block, escape, Log, IsWrittenLog, log_text, iter_json_docs-log_text,
}
use testprotocols.Throughput.Json.{Floating, JsonValue, num, str, object, empty, entry}

abbrev small_float : ℤ → Option ℕ
small_float (pos n) = if ltb n 100000000 then some n else none
small_float (negsuc n) = none

abbrev pub numbers : Floating
numbers = record {
  F = ℕ;
  of_ℕ = λ n. n;
  of_ℤ = small_float;
  add = λ x y. x + y;
  div = λ x y. x / y;
  lt = ltb;
  is_zero = λ x. x == 0;
  trunc = λ x. ret (pos x);
}

abbrev session_doc : JsonValue ℕ
session_doc = object (
    entry "end"
      (object (entry "sum_received" (object (entry "bits_per_second" (num 8000000) empty)) empty))
      empty)

abbrev error_doc : JsonValue ℕ
error_doc = object (entry "error" (str (codes "refused")) empty)

-- `{s...` is a session and `{e...` an error.
abbrev known_docs : List ℕ → Option (JsonValue ℕ)
known_docs (b ∷ c ∷ t) =
    if c == b's' then some session_doc else if c == b'e' then some error_doc else none
known_docs _ = none

abbrev pub parsing : Parsing numbers
parsing = record { loads = known_docs; show = λ _. codes "refused" }

-- The text `-{s{}"\""}-{x}{s` as a log.
abbrev two_sessions : Log
two_sessions = record {
  sessions =
      (codes "-", plain b's' (block done (quoted (escape b'"' ∷ []) done)))
      ∷ (codes "-", plain b'x' done)
      ∷ [];
  gap = [];
  unfinished = some (plain b's' done);
}

two_sessions-IsWrittenLog : IsWrittenLog two_sessions
two_sessions-IsWrittenLog = record {
  sessions = (
    (((refl, refl), tt), (refl, refl, refl, (tt, ((tt, tt), tt)))),
    ((((refl, refl), tt), (refl, refl, refl, tt)), tt),
  );
  gap = tt;
  unfinished = (refl, refl, refl, tt);
}

iter_json_docs-log_text_example :
    iter_json_docs known_docs (log_text two_sessions) ≡ session_doc ∷ []
iter_json_docs-log_text_example =
    iter_json_docs-log_text known_docs two_sessions two_sessions-IsWrittenLog

iter_json_docs-append_example :
    (new : List (JsonValue ℕ)) × (iter_json_docs known_docs (codes "{s}{" ++ codes "s}")
      ≡ iter_json_docs known_docs (codes "{s}{") ++ new)
iter_json_docs-append_example = iter_json_docs-append known_docs (codes "{s}{") (codes "s}")

abbrev timing : Timing ℤ
timing = record {
  sleep = λ d t. (ret tt, t +ℤ d);
  monotonic = λ t. (ret t, t);
  result_timeout_s = pos 3;
  poll_interval_s = pos 1;
}

-- A log with one session at once, and an empty one.
abbrev full_log : Action ℤ (List ℕ)
full_log t = (ret (codes "{s}"), t)

full_log-Readable : Readable (λ t. t) full_log
full_log-Readable t = omega arith

timing-Clock :
    Clock (λ t. t) timing.monotonic (timing.sleep timing.poll_interval_s) timing.poll_interval_s
timing-Clock = record { reads = λ t. (refl, omega arith); sleeps = λ t. omega arith }

await_session-SessionOutcome_example :
    Post
      (await_session parsing full_log timing 4 0 (pos 3))
      (SessionOutcome parsing (λ t. t) 0 (pos 3))
      (pos 0)
unfolding ◌+ℤ◌
await_session-SessionOutcome_example =
    await_session-SessionOutcome parsing (λ t. t) full_log timing 1 3 0 (pos 3) full_log-Readable
      timing-Clock refl (pos 0) (omega arith)

await_client_session-ClientOutcome_example :
    Post
      (await_client_session parsing full_log timing 4 "/tmp/iperf.log" 5201 (pos 3))
      (ClientOutcome parsing (λ t. t) "/tmp/iperf.log" 5201 (pos 3))
      (pos 0)
unfolding ◌+ℤ◌
await_client_session-ClientOutcome_example =
    await_client_session-ClientOutcome parsing (λ t. t) full_log timing 1 3 "/tmp/iperf.log" 5201
      (pos 3) full_log-Readable timing-Clock refl (pos 0) (omega arith)
