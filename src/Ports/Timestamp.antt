-- ===== src/Ports/Timestamp.antt =====
-- The time of a security event, from its timestamp or its released ISO-8601 text. `fromisoformat` is
-- `datetime.fromisoformat`: nothing where it raises a `ValueError`.
use testprotocols.Prelude.{ℕ, Option, none, some, List, [], ◌∷◌}
use testprotocols.Exec.{Outcome, ret, exc}
use testprotocols.Exec.Failure.{value_error}

-- Of SecurityEvent the pair of fields for its time.
pub record SecurityEvent (DateTime : Type 0) : Type 0 where
  pub ts : Option (List ℕ)
  pub timestamp : Option DateTime

module _ {DateTime : Type 0} (fromisoformat : List ℕ → Option DateTime) where
  abbrev parsed_time : Option DateTime → Outcome (Option DateTime)
  parsed_time (some time) = ret (some time)
  parsed_time none = exc value_error

  unfoldable pub parse_timestamp : List ℕ → Outcome (Option DateTime)
  parse_timestamp [] = ret none
  parse_timestamp (c ∷ t) = parsed_time (fromisoformat (c ∷ t))

  abbrev time_of_text : Option (List ℕ) → Outcome (Option DateTime)
  time_of_text (some text) = parse_timestamp text
  time_of_text none = ret none

  abbrev time_of : Option DateTime → Option (List ℕ) → Outcome (Option DateTime)
  time_of (some time) ts = ret (some time)
  time_of none ts = time_of_text ts

  unfoldable pub security_event_timestamp : SecurityEvent DateTime → Outcome (Option DateTime)
  unfolding parse_timestamp
  security_event_timestamp event = time_of event.timestamp event.ts
