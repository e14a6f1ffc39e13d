-- ===== src/Throughput/Documents.antt =====
-- `iter_json_docs` of throughput.py: the complete JSON documents of a log, by a brace scanner that
-- reads strings.
mod Buffered
pub mod Growth
pub mod Grammar
use mathlib.Core.Option
use testprotocols.Prelude.{
  ℕ, zero, suc, ◌+◌, ◌-◌, ◌<◌, Bool, true, false, ◌&&◌, Option, none, some, List, [], ◌∷◌, ◌++◌,
  ◌==◌, ltb, if◌then◌else◌, take, drop,
}

-- The characters that the scanner tells apart: `\\`, `\"`, `{` and `}`.
abbrev pub backslash : ℕ
backslash = 92

abbrev pub quote : ℕ
quote = 34

abbrev pub open_brace : ℕ
open_brace = 123

abbrev pub close_brace : ℕ
close_brace = 125

-- The variables of `iter_json_docs`; `start` is `none` for the source's -1.
pub record Scan (D : Type 0) : Type 0 where
  pub docs : List D
  pub depth : ℕ
  pub start : Option ℕ
  pub in_string : Bool
  pub escaped : Bool

abbrev pub fresh : {D : Type 0} → Scan D
fresh = record { docs = []; depth = 0; start = none; in_string = false; escaped = false }

-- `text[first : last + 1]`
abbrev pub slice : List ℕ → ℕ → ℕ → List ℕ
slice text first last = take (last + 1 - first) (drop first text)

abbrev pub to_list : {A : Type 0} → Option A → List A
to_list none = []
to_list (some a) = a ∷ []

-- `loads` is `json.loads`, with `none` for a `ValueError`.
module _ {D : Type 0} (loads : List ℕ → Option D) where
  -- A character inside a string.
  unfoldable pub step_string : ℕ → Scan D → Scan D
  step_string ch s =
      if s.escaped
      then record s { escaped = false }
      else if ch == backslash
      then record s { escaped = true }
      else if ch == quote
      then record s { in_string = false }
      else s

  -- A brace that closes: `doc` is the text from `start` to it.
  unfoldable pub close : Option (List ℕ) → Scan D → Scan D
  close doc s =
      if s.depth - 1 == 0
      then elim doc [
        | some d ↦ record s {
          depth = s.depth - 1;
          docs = s.docs ++ to_list (loads d);
          start = none;
        }
        | none ↦ record s { depth = s.depth - 1 }
      ]
      else record s { depth = s.depth - 1 }

  -- One round of the loop.
  unfoldable pub step : List ℕ → ℕ → ℕ → Scan D → Scan D
  unfolding step_string close
  step text i ch s =
      if s.in_string
      then step_string ch s
      else if ch == quote
      then record s { in_string = true }
      else if ch == open_brace
      then record s { start = if s.depth == 0 then some i else s.start; depth = s.depth + 1 }
      else if ch == close_brace && ltb 0 s.depth
      then close (Option.map (λ first. slice text first i) s.start) s
      else s

  unfoldable pub scan : List ℕ → ℕ → List ℕ → Scan D → Scan D
  scan text i [] s = s
  scan text i (ch ∷ rest) s = scan text (i + 1) rest (step text i ch s)

  unfoldable pub iter_json_docs : List ℕ → List D
  iter_json_docs text = (scan text 0 text fresh).docs
