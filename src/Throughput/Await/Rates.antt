-- ===== src/Throughput/Await/Rates.antt =====
-- What a read of the last session's rate may give.
use testprotocols.Prelude.{
  ℕ, ◌<◌, String, ◌≡◌, refl, inl, inr, Option, none, some, List, arith, ltb, Bool-cases,
  Option-cases,
}
use testprotocols.Prelude.Int.{ℤ}
use testprotocols.Exec.{Outcome, ret, exc, out_of_fuel, map_outcome}
use testprotocols.Exec.Failure.{overflow_error}
use testprotocols.Exec.Pure.{◌>>=◌}
use testprotocols.Throughput.Await.{Parsing, new_rate}
use testprotocols.Throughput.Documents.{iter_json_docs}
use testprotocols.Throughput.Json.{
  Floating, JsonValue, null, bool, int, num, str, array, object, obj, get, num_of,
}
use testprotocols.Throughput.Sessions.{
  count_sessions, last_session_mbps, last_doc, end_of, or_sum, in_mbps, bits_per_second,
}

module _ {fl : Floating} (parsing : Parsing fl) where
  abbrev rate_value : String → JsonValue fl.F → JsonValue fl.F
  rate_value key doc = get "bits_per_second" (obj (get key (end_of fl parsing.loads doc)))

  -- A session that the log shows beyond the `prior` ones.
  pub record IsNewSession (prior : ℕ) (log_text : List ℕ) (mbps : fl.F) : Type 0 where
    pub is_new : prior < count_sessions fl parsing.loads log_text
    pub rated : last_session_mbps fl parsing.loads log_text ≡ ret (some mbps)

  -- A rate in the document that no float holds.
  abbrev HasHugeRate : JsonValue fl.F → Type 0
  HasHugeRate doc = (key : String) × (n : ℤ) × (rate_value key doc ≡ int n) × (fl.of_ℤ n ≡ none)

  -- A log beyond the `prior` sessions, whose last document has such a rate.
  pub record IsHuge (prior : ℕ) (log_text : List ℕ) : Type 0 where
    pub is_new : prior < count_sessions fl parsing.loads log_text
    pub doc : JsonValue fl.F
    pub is_last : last_doc (iter_json_docs parsing.loads log_text) ≡ some doc
    pub huge : HasHugeRate doc

  abbrev Read : JsonValue fl.F → Outcome (Option fl.F) → Type 0
  Read v (ret x) = Unit
  Read v (exc e) = (e ≡ overflow_error) × (n : ℤ) × (v ≡ int n) × (fl.of_ℤ n ≡ none)
  Read v out_of_fuel = ⊥

  num_of-Read : (v : JsonValue fl.F) → Read v (num_of fl.of_ℤ v)
  unfolding num_of
  num_of-Read (int n) = elim (Option-cases (fl.of_ℤ n)) [
    | inl e ↦ rw e (refl, n, refl, e)
    | inr (x, e) ↦ rw e tt
  ]
  num_of-Read null = tt
  num_of-Read (bool b) = tt
  num_of-Read (num x) = tt
  num_of-Read (str t) = tt
  num_of-Read (array a) = tt
  num_of-Read (object o) = tt

  abbrev Rated : JsonValue fl.F → Outcome (Option fl.F) → Type 0
  Rated doc (ret x) = Unit
  Rated doc (exc e) = (e ≡ overflow_error) × HasHugeRate doc
  Rated doc out_of_fuel = ⊥

  sum-Rated :
      (doc : JsonValue fl.F) (r : Outcome (Option fl.F))
      → Read (rate_value "sum" doc) r
      → Rated doc (map_outcome (in_mbps fl parsing.loads) r)
  sum-Rated doc (ret x) h = tt
  sum-Rated doc (exc e) (o, n, v, k) = (o, ("sum", n, v, k))
  sum-Rated doc out_of_fuel h = h

  first-Rated :
      (doc : JsonValue fl.F) (r : Outcome (Option fl.F))
      → Read (rate_value "sum_received" doc) r
      → Rated doc (r >>= or_sum fl parsing.loads doc)
  first-Rated doc (ret (some x)) h = tt
  first-Rated doc (ret none) h =
      sum-Rated doc (bits_per_second fl parsing.loads "sum" doc)
        (num_of-Read (rate_value "sum" doc))
  first-Rated doc (exc e) (o, n, v, k) = (o, ("sum_received", n, v, k))
  first-Rated doc out_of_fuel h = h

  -- A read of the rate: none, that of a new session, or an `OverflowError` for a rate that no float
  -- holds.
  abbrev pub ReadRate : ℕ → List ℕ → Outcome (Option fl.F) → Type 0
  ReadRate prior log_text (ret none) = Unit
  ReadRate prior log_text (ret (some mbps)) = IsNewSession prior log_text mbps
  ReadRate prior log_text (exc e) = (e ≡ overflow_error) × IsHuge prior log_text
  ReadRate prior log_text out_of_fuel = ⊥

  rate_of_doc :
      (prior : ℕ) (log_text : List ℕ) (doc : JsonValue fl.F) (r : Outcome (Option fl.F))
      → prior < count_sessions fl parsing.loads log_text
      → last_doc (iter_json_docs parsing.loads log_text) ≡ some doc
      → last_session_mbps fl parsing.loads log_text ≡ r
      → Rated doc r
      → ReadRate prior log_text r
  rate_of_doc prior log_text doc (ret none) is_new last e h = tt
  rate_of_doc prior log_text doc (ret (some x)) is_new last e h = record {
    is_new = is_new;
    rated = e;
  }
  rate_of_doc prior log_text doc (exc x) is_new last e (o, huge) =
      (o, record { is_new = is_new; doc = doc; is_last = last; huge = huge })
  rate_of_doc prior log_text doc out_of_fuel is_new last e h = h

  rate_of_new :
      (prior : ℕ) (log_text : List ℕ)
      → prior < count_sessions fl parsing.loads log_text
      → ReadRate prior log_text (last_session_mbps fl parsing.loads log_text)
  unfolding last_session_mbps
  rate_of_new prior log_text is_new =
      elim (Option-cases (last_doc (iter_json_docs parsing.loads log_text))) [
        | inl e ↦ rw e tt
        | inr (doc, e) ↦
            rate_of_doc prior log_text doc (last_session_mbps fl parsing.loads log_text) is_new e
              refl
              (rw e (
                first-Rated doc (bits_per_second fl parsing.loads "sum_received" doc)
                  (num_of-Read (rate_value "sum_received" doc))))
      ]

  pub new_rate-ReadRate :
      (prior : ℕ) (log_text : List ℕ) → ReadRate prior log_text (new_rate parsing prior log_text)
  unfolding new_rate
  new_rate-ReadRate prior log_text =
      elim (Bool-cases (ltb prior (count_sessions fl parsing.loads log_text))) [
        | inl e ↦ rw e (rate_of_new prior log_text (ground (arith, e)))
        | inr e ↦ rw e tt
      ]
