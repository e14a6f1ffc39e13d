-- ===== src/Throughput/Documents/Grammar.antt =====
-- What the scanner finds in a log that is written by documents: an independent account, by syntax
-- trees and their text.
use testprotocols.Prelude.{
  ℕ, suc, ◌≡◌, refl, ◌∙◌, ap, false, Option, none, some, none, some, List, [], ◌∷◌, ◌++◌, ◌==◌, All,
  append_assoc, append-nil, arith, true,
}
use testprotocols.Throughput.Documents.{
  quote, backslash, open_brace, close_brace, to_list, iter_json_docs,
}
use testprotocols.Throughput.Documents.Buffered.{
  Buffer, no_buffer, step_buffer, buffered, buffered-append, iter_json_docs-buffered,
}

-- A character in a string: as it is, or behind a backslash.
pub data StringChar : Type 0 where
  raw escape : ℕ → StringChar

-- The inside of braces: other characters, strings, and nested braces.
pub data Inside : Type 0 where
  done : Inside
  plain : ℕ → Inside → Inside
  quoted : List StringChar → Inside → Inside
  block : Inside → Inside → Inside

abbrev pub string_text : List StringChar → List ℕ
string_text [] = quote ∷ []
string_text (raw c ∷ s) = c ∷ string_text s
string_text (escape c ∷ s) = backslash ∷ c ∷ string_text s

abbrev pub inside_text : Inside → List ℕ
inside_text done = []
inside_text (plain c p) = c ∷ inside_text p
inside_text (quoted s p) = quote ∷ (string_text s ++ inside_text p)
inside_text (block q p) = open_brace ∷ (inside_text q ++ close_brace ∷ inside_text p)

abbrev pub document_text : Inside → List ℕ
document_text p = open_brace ∷ (inside_text p ++ close_brace ∷ [])

abbrev pub IsRaw : StringChar → Type 0
IsRaw (raw c) = ((c == quote) ≡ false) × ((c == backslash) ≡ false)
IsRaw (escape c) = Unit

-- The trees whose text reads back as the tree.
abbrev pub IsWritten : Inside → Type 0
IsWritten done = Unit
IsWritten (plain c p) =
    ((c == quote) ≡ false)
    × ((c == open_brace) ≡ false)
    × ((c == close_brace) ≡ false)
    × IsWritten p
IsWritten (quoted s p) = All IsRaw s × IsWritten p
IsWritten (block q p) = IsWritten q × IsWritten p

-- Text between documents: anything but a quote and an opening brace.
abbrev pub IsGap : List ℕ → Type 0
IsGap = All (λ c. ((c == quote) ≡ false) × ((c == open_brace) ≡ false))

-- A log: documents behind gaps, and at its end a gap and perhaps a document that is still open.
pub record Log : Type 0 where
  pub sessions : List (List ℕ × Inside)
  pub gap : List ℕ
  pub unfinished : Option Inside

abbrev sessions_text : List (List ℕ × Inside) → List ℕ
sessions_text [] = []
sessions_text ((g, p) ∷ l) = g ++ (document_text p ++ sessions_text l)

abbrev unfinished_text : Option Inside → List ℕ
unfinished_text none = []
unfinished_text (some p) = open_brace ∷ inside_text p

abbrev pub log_text : Log → List ℕ
log_text log = sessions_text log.sessions ++ (log.gap ++ unfinished_text log.unfinished)

abbrev IsWrittenOption : Option Inside → Type 0
IsWrittenOption none = Unit
IsWrittenOption (some p) = IsWritten p

pub record IsWrittenLog (log : Log) : Type 0 where
  pub sessions : All (λ (g, p). IsGap g × IsWritten p) log.sessions
  pub gap : IsGap log.gap
  pub unfinished : IsWrittenOption log.unfinished

module _ {D : Type 0} (loads : List ℕ → Option D) where
  abbrev inside : List D → ℕ → List ℕ → Buffer D
  inside docs d t = record {
    docs = docs;
    depth = suc d;
    unfinished = some t;
    in_string = false;
    escaped = false;
  }

  abbrev in_text : List D → ℕ → List ℕ → Buffer D
  in_text docs d t = record {
    docs = docs;
    depth = suc d;
    unfinished = some t;
    in_string = true;
    escaped = false;
  }

  step_raw :
      (c : ℕ) (docs : List D) (d : ℕ) (t : List ℕ)
      → IsRaw (raw c)
      → step_buffer loads c (in_text docs d t) ≡ in_text docs d (t ++ c ∷ [])
  unfolding step_buffer
  step_raw c docs d t h = ground arith

  step_plain :
      (c : ℕ) (docs : List D) (d : ℕ) (t : List ℕ)
      → (c == quote) ≡ false
      → (c == open_brace) ≡ false
      → (c == close_brace) ≡ false
      → step_buffer loads c (inside docs d t) ≡ inside docs d (t ++ c ∷ [])
  unfolding step_buffer
  step_plain c docs d t h k l = ground arith

  step_escaped :
      (c : ℕ) (docs : List D) (d : ℕ) (t : List ℕ)
      → buffered loads (backslash ∷ c ∷ []) (in_text docs d t)
        ≡ in_text docs d ((t ++ backslash ∷ []) ++ c ∷ [])
  unfolding buffered step_buffer
  step_escaped c docs d t = refl

  step_open :
      (docs : List D) (d : ℕ) (t : List ℕ)
      → step_buffer loads open_brace (inside docs d t) ≡ inside docs (suc d) (t ++ open_brace ∷ [])
  unfolding step_buffer
  step_open docs d t = ground arith

  step_close :
      (docs : List D) (d : ℕ) (t : List ℕ)
      → step_buffer loads close_brace (inside docs (suc d) t)
        ≡ inside docs d (t ++ close_brace ∷ [])
  unfolding step_buffer
  step_close docs d t = ground arith

  step_quote :
      (docs : List D) (d : ℕ) (t : List ℕ)
      → step_buffer loads quote (inside docs d t) ≡ in_text docs d (t ++ quote ∷ [])
  unfolding step_buffer
  step_quote docs d t = refl

  -- A document that opens and one that ends, outside every other.
  abbrev between : List D → Buffer D
  between docs = record no_buffer { docs = docs }

  step_first :
      (docs : List D)
      → step_buffer loads open_brace (between docs) ≡ inside docs 0 (open_brace ∷ [])
  unfolding step_buffer
  step_first docs = refl

  step_last :
      (docs : List D) (t : List ℕ)
      → step_buffer loads close_brace (inside docs 0 t)
        ≡ between (docs ++ to_list (loads (t ++ close_brace ∷ [])))
  unfolding step_buffer
  step_last docs t = refl

  read_string :
      (s : List StringChar) (docs : List D) (d : ℕ) (t : List ℕ)
      → All IsRaw s
      → buffered loads (string_text s) (in_text docs d t) ≡ inside docs d (t ++ string_text s)
  unfolding buffered
  read_string [] docs d t h = unfold step_buffer in refl
  read_string (raw c ∷ s) docs d t h =
      ap (buffered loads (string_text s)) (step_raw c docs d t h.0)
      ∙ read_string s docs d (t ++ c ∷ []) h.1
      ∙ rw append_assoc
  read_string (escape c ∷ s) docs d t h =
      ap (buffered loads (string_text s)) (step_escaped c docs d t)
      ∙ read_string s docs d ((t ++ backslash ∷ []) ++ c ∷ []) h.1
      ∙ simp append_assoc

  read_inside :
      (p : Inside) (docs : List D) (d : ℕ) (t : List ℕ)
      → IsWritten p
      → buffered loads (inside_text p) (inside docs d t) ≡ inside docs d (t ++ inside_text p)
  unfolding buffered
  read_inside done docs d t h = rw append-nil
  read_inside (plain c p) docs d t h =
      ap (buffered loads (inside_text p)) (step_plain c docs d t h.0 h.1 h.2)
      ∙ read_inside p docs d (t ++ c ∷ []) h.3
      ∙ rw append_assoc
  read_inside (quoted s p) docs d t h =
      ap (buffered loads (string_text s ++ inside_text p)) (step_quote docs d t)
      ∙ buffered-append loads (string_text s) (inside_text p) (in_text docs d (t ++ quote ∷ []))
      ∙ ap (buffered loads (inside_text p)) (read_string s docs d (t ++ quote ∷ []) h.0)
      ∙ read_inside p docs d ((t ++ quote ∷ []) ++ string_text s) h.1
      ∙ simp append_assoc
  read_inside (block q p) docs d t h =
      ap (buffered loads (inside_text q ++ close_brace ∷ inside_text p)) (step_open docs d t)
      ∙ buffered-append loads (inside_text q) (close_brace ∷ inside_text p)
          (inside docs (suc d) (t ++ open_brace ∷ []))
      ∙ ap (buffered loads (close_brace ∷ inside_text p))
          (read_inside q docs (suc d) (t ++ open_brace ∷ []) h.0)
      ∙ ap (buffered loads (inside_text p))
          (step_close docs d ((t ++ open_brace ∷ []) ++ inside_text q))
      ∙ read_inside p docs d (((t ++ open_brace ∷ []) ++ inside_text q) ++ close_brace ∷ []) h.1
      ∙ simp append_assoc

  read_document :
      (p : Inside) (docs : List D)
      → IsWritten p
      → buffered loads (document_text p) (between docs)
        ≡ between (docs ++ to_list (loads (document_text p)))
  unfolding buffered
  read_document p docs h =
      ap (buffered loads (inside_text p ++ close_brace ∷ [])) (step_first docs)
      ∙ buffered-append loads (inside_text p) (close_brace ∷ []) (inside docs 0 (open_brace ∷ []))
      ∙ ap (buffered loads (close_brace ∷ [])) (read_inside p docs 0 (open_brace ∷ []) h)
      ∙ step_last docs (open_brace ∷ inside_text p)

  step_gap :
      (c : ℕ) (docs : List D)
      → (c == quote) ≡ false
      → (c == open_brace) ≡ false
      → step_buffer loads c (between docs) ≡ between docs
  unfolding step_buffer
  step_gap c docs h k = ground arith

  read_gap : (g : List ℕ) (docs : List D) → IsGap g → buffered loads g (between docs) ≡ between docs
  unfolding buffered
  read_gap [] docs h = refl
  read_gap (c ∷ g) docs h =
      ap (buffered loads g) (step_gap c docs h.0.0 h.0.1) ∙ read_gap g docs h.1

  abbrev session_docs : List (List ℕ × Inside) → List D
  session_docs [] = []
  session_docs ((g, p) ∷ l) = to_list (loads (document_text p)) ++ session_docs l

  read_sessions :
      (l : List (List ℕ × Inside)) (docs : List D)
      → All (λ (g, p). IsGap g × IsWritten p) l
      → buffered loads (sessions_text l) (between docs) ≡ between (docs ++ session_docs l)
  unfolding buffered
  read_sessions [] docs h = rw append-nil
  read_sessions ((g, p) ∷ l) docs h =
      buffered-append loads g (document_text p ++ sessions_text l) (between docs)
      ∙ ap (buffered loads (document_text p ++ sessions_text l)) (read_gap g docs h.0.0)
      ∙ buffered-append loads (document_text p) (sessions_text l) (between docs)
      ∙ ap (buffered loads (sessions_text l)) (read_document p docs h.0.1)
      ∙ read_sessions l (docs ++ to_list (loads (document_text p))) h.1
      ∙ rw append_assoc

  read_unfinished :
      (o : Option Inside) (docs : List D)
      → IsWrittenOption o
      → (buffered loads (unfinished_text o) (between docs)).docs ≡ docs
  unfolding buffered
  read_unfinished none docs h = refl
  read_unfinished (some p) docs h =
      ap (λ b. (buffered loads (inside_text p) b).docs) (step_first docs)
      ∙ ap (λ (b : Buffer D). b.docs) (read_inside p docs 0 (open_brace ∷ []) h)

  -- In a log written from syntax trees the scanner finds the text of every complete document, in
  -- order, with strings and nested braces read as such; a document that `json.loads` rejects is left
  -- out, and one that is still open is not reported.
  pub iter_json_docs-log_text :
      (log : Log)
      → IsWrittenLog log
      → iter_json_docs loads (log_text log) ≡ session_docs log.sessions
  iter_json_docs-log_text log h =
      let tail = log.gap ++ unfinished_text log.unfinished in
      let docs = session_docs log.sessions in
      iter_json_docs-buffered loads (log_text log)
      ∙ ap (λ (b : Buffer D). b.docs)
          (buffered-append loads (sessions_text log.sessions) tail no_buffer
            ∙ ap (buffered loads tail) (read_sessions log.sessions [] h.sessions)
            ∙ buffered-append loads log.gap (unfinished_text log.unfinished) (between docs)
            ∙ ap (buffered loads (unfinished_text log.unfinished)) (read_gap log.gap docs h.gap))
      ∙ read_unfinished log.unfinished docs h.unfinished
