-- ===== src/Exec/Failure.antt =====
-- The exceptions that the operations raise, and those of the capabilities that they call. Of
-- throughput.py it has the `NonCompletion` exception. Messages are kept only where they are data.
use testprotocols.Prelude.{ℕ, String, List}

-- From where a non-completion's evidence was read.
pub data NonCompletionSide : Type 0 where
  endpoint local_receiver unknown : NonCompletionSide

pub data NonCompletionKind : Type 0 where
  error_document no_completed_session : NonCompletionKind

-- `detail`: the raw text of an error document, or which of the module's own messages it is.
pub data Detail : Type 0 where
  raw : List ℕ → Detail
  silent_receiver silent_initiator : (port : ℕ) → Detail
  silent_client : (log_path : String) → Detail

pub record NonCompletion : Type 0 where
  pub which_side : NonCompletionSide
  pub what : NonCompletionKind
  pub detail : Detail
  pub port : ℕ

pub data Exception : Type 0 where
  value_error type_error key_error attribute_error overflow_error : Exception
  non_completion : NonCompletion → Exception
  other : ℕ → Exception
