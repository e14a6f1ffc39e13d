-- ===== src/Throughput/Documents/Buffered.antt =====
-- The scanner again, with the text of the open document kept in place of its first position. It does
-- not look back into the log, so it says what a part of a log contributes on its own.
use mathlib.Core.Option
use testprotocols.Prelude.{
  ℕ, zero, suc, ◌+◌, ◌-◌, ◌≤◌, ◌≡◌, refl, ◌∙◌, ap, Bool, true, false, ◌&&◌, Option, none, some,
  List, [], ◌∷◌, ◌++◌, ◌==◌, ltb, if◌then◌else◌, arith, length, length-append, take, drop,
  append_assoc,
}
use testprotocols.Throughput.Documents.{
  Scan, scan, iter_json_docs, slice, quote, open_brace, close_brace, backslash, to_list, step,
  fresh,
}

-- As `Scan`; `open` is what was read of the document that is open, if one is.
pub record Buffer (D : Type 0) : Type 0 where
  pub docs : List D
  pub depth : ℕ
  pub unfinished : Option (List ℕ)
  pub in_string : Bool
  pub escaped : Bool

abbrev pub no_buffer : {D : Type 0} → Buffer D
no_buffer = record { docs = []; depth = 0; unfinished = none; in_string = false; escaped = false }

abbrev pub grow : ℕ → Option (List ℕ) → Option (List ℕ)
grow ch none = none
grow ch (some t) = some (t ++ ch ∷ [])

module _ {D : Type 0} (loads : List ℕ → Option D) where
  unfoldable pub close_buffer : Option (List ℕ) → Buffer D → Buffer D
  close_buffer (some t) b = record b {
    depth = b.depth - 1;
    docs = b.docs ++ to_list (loads t);
    unfinished = none;
  }
  close_buffer none b = record b { depth = b.depth - 1; unfinished = none }

  unfoldable pub step_buffer : ℕ → Buffer D → Buffer D
  unfolding close_buffer
  step_buffer ch b =
      let more = grow ch b.unfinished in
      if b.in_string
      then (if b.escaped
          then record b { escaped = false; unfinished = more }
          else if ch == backslash
          then record b { escaped = true; unfinished = more }
          else if ch == quote
          then record b { in_string = false; unfinished = more }
          else record b { unfinished = more })
      else if ch == quote
      then record b { in_string = true; unfinished = more }
      else if ch == open_brace
      then record b {
        unfinished = if b.depth == 0 then some (ch ∷ []) else more;
        depth = b.depth + 1;
      }
      else if ch == close_brace && ltb 0 b.depth
      then (if b.depth - 1 == 0
          then close_buffer more b
          else record b { depth = b.depth - 1; unfinished = more })
      else record b { unfinished = more }

  unfoldable pub buffered : List ℕ → Buffer D → Buffer D
  buffered [] b = b
  buffered (ch ∷ rest) b = buffered rest (step_buffer ch b)

  pub buffered-append :
      (xs ys : List ℕ) (b : Buffer D) → buffered (xs ++ ys) b ≡ buffered ys (buffered xs b)
  unfolding buffered
  buffered-append [] ys b = refl
  buffered-append (x ∷ xs) ys b = buffered-append xs ys (step_buffer x b)

-- The text that a scan of `before` keeps open from its position `start`.
abbrev open_text : List ℕ → Option ℕ → Option (List ℕ)
open_text before none = none
open_text before (some first) = some (drop first before)

abbrev start_or_zero : Option ℕ → ℕ
start_or_zero none = 0
start_or_zero (some first) = first

-- The two scanners agree once `before` has been read.
module _ {D : Type 0} where
  record Same (before : List ℕ) (s : Scan D) (b : Buffer D) : Type 0 where
    docs : s.docs ≡ b.docs
    depth : s.depth ≡ b.depth
    in_string : s.in_string ≡ b.in_string
    escaped : s.escaped ≡ b.escaped
    unfinished : b.unfinished ≡ open_text before s.start
    bound : start_or_zero s.start ≤ length before

drop-append : (n : ℕ) (xs ys : List ℕ) → n ≤ length xs → drop n (xs ++ ys) ≡ drop n xs ++ ys
drop-append zero xs ys h = refl
drop-append (suc n) [] ys h = absurd (omega arith)
drop-append (suc n) (x ∷ xs) ys h = drop-append n xs ys (omega arith)

drop-length : (xs : List ℕ) → drop (length xs) xs ≡ []
drop-length [] = refl
drop-length (x ∷ xs) = drop-length xs

take-drop :
    (n : ℕ) (xs : List ℕ) (ch : ℕ) (rest : List ℕ)
    → n ≤ length xs
    → take (length xs + 1 - n) (drop n xs ++ ch ∷ rest) ≡ drop n xs ++ ch ∷ []
take-drop zero [] ch rest h = refl
take-drop zero (x ∷ xs) ch rest h =
    let e : suc (length xs) + 1 - 0 ≡ suc (length xs + 1 - 0) = omega arith in
    rw e (ap (λ l. x ∷ l) (take-drop zero xs ch rest (omega arith)))
take-drop (suc n) [] ch rest h = absurd (omega arith)
take-drop (suc n) (x ∷ xs) ch rest h =
    let e : suc (length xs) + 1 - suc n ≡ length xs + 1 - n = omega arith in
    rw e (take-drop n xs ch rest (omega arith))

module _ (before : List ℕ) (ch : ℕ) where
  open_text-grow :
      (st : Option ℕ)
      → start_or_zero st ≤ length before
      → open_text (before ++ ch ∷ []) st ≡ grow ch (open_text before st)
  open_text-grow none h = refl
  open_text-grow (some first) h = ap some (drop-append first before (ch ∷ []) h)

  open_text-start : open_text (before ++ ch ∷ []) (some (length before)) ≡ some (ch ∷ [])
  open_text-start =
      ap some (drop-append (length before) before (ch ∷ []) (omega arith) ∙ rw (drop-length before))

  slice-grow :
      (rest : List ℕ) (st : Option ℕ)
      → start_or_zero st ≤ length before
      → Option.map (λ first. slice (before ++ ch ∷ rest) first (length before)) st
        ≡ grow ch (open_text before st)
  slice-grow rest none h = refl
  slice-grow rest (some first) h =
      ap some (rw (drop-append first before (ch ∷ rest) h) (take-drop first before ch rest h))

module _ {D : Type 0} (loads : List ℕ → Option D) (before rest : List ℕ) (ch : ℕ) where
  Same-step :
      (s : Scan D) (b : Buffer D)
      → Same before s b
      → Same
          (before ++ ch ∷ [])
          (step loads (before ++ ch ∷ rest) (length before) ch s)
          (step_buffer loads ch b)
  unfolding step step_buffer
  Same-step s b h = ground (
    arith,
    open_text-grow before ch s.start h.bound,
    open_text-start before ch,
    slice-grow before ch rest s.start h.bound,
    length-append before (ch ∷ []),
  )

module _ {D : Type 0} (loads : List ℕ → Option D) where
  scan-buffered :
      (before rest text : List ℕ) (i : ℕ) (s : Scan D) (b : Buffer D)
      → text ≡ before ++ rest
      → i ≡ length before
      → Same before s b
      → (scan loads text i rest s).docs ≡ (buffered loads rest b).docs
  unfolding scan buffered
  scan-buffered before [] text i s b e k h = h.docs
  scan-buffered before (ch ∷ rest) text i s b e k h =
      scan-buffered (before ++ ch ∷ []) rest text (i + 1) _ _ (e ∙ rw append_assoc)
        (omega (arith, k, length-append before (ch ∷ [])))
        (rw (e, k) (Same-step loads before rest ch s b h))

  -- The positions of the source's scanner stand for the text that it has read.
  pub iter_json_docs-buffered :
      (text : List ℕ) → iter_json_docs loads text ≡ (buffered loads text no_buffer).docs
  unfolding iter_json_docs
  iter_json_docs-buffered text = scan-buffered [] text text 0 fresh no_buffer refl refl (record {
    docs = refl;
    depth = refl;
    in_string = refl;
    escaped = refl;
    unfinished = refl;
    bound = omega arith;
  })

  abbrev pub after_docs : List D → Buffer D → Buffer D
  after_docs pre b = record b { docs = pre ++ b.docs }

  abbrev found : Option (List ℕ) → List D
  found none = []
  found (some t) = to_list (loads t)

  step_buffer-after_docs :
      (pre : List D) (ch : ℕ) (b : Buffer D)
      → step_buffer loads ch (after_docs pre b) ≡ after_docs pre (step_buffer loads ch b)
  unfolding step_buffer
  step_buffer-after_docs pre ch b =
      ground (arith, append_assoc pre b.docs (found (grow ch b.unfinished)))

  -- The documents found before do not matter to what follows.
  pub buffered-after_docs :
      (pre : List D) (xs : List ℕ) (b : Buffer D)
      → buffered loads xs (after_docs pre b) ≡ after_docs pre (buffered loads xs b)
  unfolding buffered
  buffered-after_docs pre [] b = refl
  buffered-after_docs pre (x ∷ xs) b =
      ap (buffered loads xs) (step_buffer-after_docs pre x b)
      ∙ buffered-after_docs pre xs (step_buffer loads x b)
