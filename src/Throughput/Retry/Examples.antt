-- ===== src/Throughput/Retry/Examples.antt =====
-- A flow that never completes, retried until the deadline.
use testprotocols.Exec.{Action, ret, exc}
use testprotocols.Exec.Failure.{
  Exception, NonCompletion, non_completion, endpoint, error_document, raw,
}
use testprotocols.Exec.Post.{Post}
use testprotocols.Prelude.{ℕ, ◌≡◌, refl, true, some, none, [], arith}
use testprotocols.Prelude.Int.{ℤ, pos, ◌+ℤ◌, ◌≤ℤ◌}
use testprotocols.Throughput.Retry.{Retrying, retry_on_noncompletion}
use testprotocols.Throughput.Retry.Ends.{RetryParts, EndsBy, retry_on_noncompletion-EndsBy}

abbrev busy : NonCompletion
busy = record { which_side = endpoint; what = error_document; detail = raw []; port = 5201 }

abbrev refuse : ℕ → Action ℤ ℕ
refuse port t = (exc (non_completion busy), t)

abbrev draw_port : Action ℤ ℕ
draw_port t = (ret 5201, t)

abbrev always : Retrying ℤ ℕ
always = record {
  retry_when = some (λ _ t. (ret true, t));
  on_retry = none;
  busy_backoff_s = pos 1;
  sleep = λ d t. (ret tt, t +ℤ d);
  monotonic = λ t. (ret t, t);
}

-- What the attempts raise.
abbrev IsBusy : Exception → Type 0
IsBusy e = e ≡ non_completion busy

always-RetryParts :
    RetryParts (λ t. t) (λ (n : ℕ) t. pos 0 ≤ℤ t) IsBusy refuse draw_port always (λ _. true)
always-RetryParts = record {
  allocates = λ t. omega arith;
  attempts = λ r t. (refl, omega arith);
  decides = λ n t. (refl, omega arith);
  reports = λ n r t. omega arith;
  clock = record { reads = λ t. (refl, omega arith); sleeps = λ t. omega arith };
}

retry_test :
    retry_on_noncompletion refuse draw_port always 4 (pos 3) (pos 0)
    ≡ (exc (non_completion busy), pos 3)
unfolding retry_on_noncompletion ◌+ℤ◌
retry_test = refl

retry_on_noncompletion-EndsBy_example :
    Post
      (retry_on_noncompletion refuse draw_port always 4 (pos 3))
      (EndsBy (λ t. t) (λ n t. pos 0 ≤ℤ t) IsBusy (λ _. true) (pos 3))
      (pos 0)
unfolding ◌+ℤ◌
retry_on_noncompletion-EndsBy_example =
    retry_on_noncompletion-EndsBy (λ t. t) (λ n t. pos 0 ≤ℤ t) IsBusy always-RetryParts 1 3 (pos 3)
      refl (pos 0) (omega arith)
