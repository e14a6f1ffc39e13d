-- ===== src/Throughput/Sessions.antt =====
-- What throughput.py reads of the last session in a log. `loads` is `json.loads`.
use mathlib.Core.Option
use testprotocols.Exec.{Outcome, ret, map_outcome}
use testprotocols.Exec.Pure.{◌>>=◌}
use testprotocols.Prelude.Int.{ℤ, pos, eqb_ℤ}
use testprotocols.Prelude.{
  ℕ, Bool, true, false, not, Option, none, some, String, List, [], ◌∷◌, length, if◌then◌else◌,
}
use testprotocols.Throughput.Json.{
  Floating, JsonValue, JsonObj, null, bool, int, num, str, array, object, nil, cons, empty, entry,
  obj, seq, num_of, get,
}
use testprotocols.Throughput.Documents.{iter_json_docs}

-- `docs[-1]`
abbrev pub last_doc : {D : Type 0} → List D → Option D
last_doc [] = none
last_doc (d ∷ []) = some d
last_doc (d ∷ e ∷ l) = last_doc (e ∷ l)

module _ (fl : Floating) where
  open fl use {F, of_ℕ, of_ℤ, add, div, lt, is_zero, trunc}

  -- The truth of a JSON value.
  abbrev is_truthy : JsonValue F → Bool
  is_truthy null = false
  is_truthy (bool b) = b
  is_truthy (int n) = not (eqb_ℤ n (pos 0))
  is_truthy (num x) = not (is_zero x)
  is_truthy (str []) = false
  is_truthy (str (c ∷ t)) = true
  is_truthy (array nil) = false
  is_truthy (array (cons v vs)) = true
  is_truthy (object empty) = false
  is_truthy (object (entry k v o)) = true

  -- `min(xs)` of a first value and the rest: a later value replaces it only if it is less.
  abbrev min_of : F → List F → F
  min_of m [] = m
  min_of m (x ∷ xs) = min_of (if lt x m then x else m) xs

  -- `sum(xs)`
  abbrev sum_of : F → List F → F
  sum_of s [] = s
  sum_of s (x ∷ xs) = sum_of (add s x) xs

  abbrev append_some : Option F → List F → List F
  append_some none xs = xs
  append_some (some x) xs = x ∷ xs

  -- The `min_rtt` and the `mean_rtt` of every stream that has one.
  unfoldable pub rtt_values : List (JsonValue F) → Outcome (List F × List F)
  rtt_values [] = ret ([], [])
  rtt_values (stream ∷ streams) = do
    min_rtt ← num_of of_ℤ (get "min_rtt" (obj (get "sender" (obj stream))))
    mean_rtt ← num_of of_ℤ (get "mean_rtt" (obj (get "sender" (obj stream))))
    rest ← rtt_values streams
    ret (append_some min_rtt rest.0, append_some mean_rtt rest.1)

  -- `(None, None)` when one of the two lists is empty.
  unfoldable pub rtt_pair : List F → List F → Option F × Option F
  rtt_pair (m ∷ mins) (a ∷ means) = (
    some (div (min_of m mins) (of_ℕ 1000)),
    some (div (div (sum_of (of_ℕ 0) (a ∷ means)) (of_ℕ (length (a ∷ means)))) (of_ℕ 1000)),
  )
  rtt_pair _ _ = (none, none)

  module _ (loads : List ℕ → Option (JsonValue F)) where
    unfoldable pub count_sessions : List ℕ → ℕ
    count_sessions log_text = length (iter_json_docs loads log_text)

    abbrev pub end_of : JsonValue F → JsonObj F
    end_of doc = obj (get "end" (obj doc))

    abbrev pub rtt_of : Option (JsonValue F) → Outcome (Option F × Option F)
    rtt_of none = ret (none, none)
    rtt_of (some doc) =
        map_outcome (λ (mins, means). rtt_pair mins means)
          (rtt_values (seq (get "streams" (end_of doc))))

    unfoldable pub last_session_rtt_ms : List ℕ → Outcome (Option F × Option F)
    last_session_rtt_ms log_text = rtt_of (last_doc (iter_json_docs loads log_text))

    abbrev pub counted_of : Option F → Outcome (Option ℤ)
    counted_of none = ret none
    counted_of (some x) = map_outcome some (trunc x)

    abbrev pub retransmits_of : Option (JsonValue F) → Outcome (Option ℤ)
    retransmits_of none = ret none
    retransmits_of (some doc) =
        num_of of_ℤ (get "retransmits" (obj (get "sum_sent" (end_of doc)))) >>= counted_of

    unfoldable pub last_session_retransmits : List ℕ → Outcome (Option ℤ)
    last_session_retransmits log_text = retransmits_of (last_doc (iter_json_docs loads log_text))

    abbrev pub bits_per_second : String → JsonValue F → Outcome (Option F)
    bits_per_second key doc = num_of of_ℤ (get "bits_per_second" (obj (get key (end_of doc))))

    abbrev pub in_mbps : Option F → Option F
    in_mbps = Option.map (λ bps. div bps (of_ℕ 1000000))

    -- The second key is read only where the first has no rate.
    abbrev pub or_sum : JsonValue F → Option F → Outcome (Option F)
    or_sum doc (some bps) = ret (in_mbps (some bps))
    or_sum doc none = map_outcome in_mbps (bits_per_second "sum" doc)

    abbrev pub mbps_of : Option (JsonValue F) → Outcome (Option F)
    mbps_of none = ret none
    mbps_of (some doc) = bits_per_second "sum_received" doc >>= or_sum doc

    unfoldable pub last_session_mbps : List ℕ → Outcome (Option F)
    last_session_mbps log_text = mbps_of (last_doc (iter_json_docs loads log_text))

    -- `str(error) if error else None`; `show` is `str`.
    abbrev error_text : (JsonValue F → List ℕ) → JsonValue F → Option (List ℕ)
    error_text show error = if is_truthy error then some (show error) else none

    abbrev error_of : (JsonValue F → List ℕ) → Option (JsonValue F) → Option (List ℕ)
    error_of show none = none
    error_of show (some doc) = error_text show (get "error" (obj doc))

    unfoldable pub last_session_error : (JsonValue F → List ℕ) → List ℕ → Option (List ℕ)
    last_session_error show log_text = error_of show (last_doc (iter_json_docs loads log_text))
