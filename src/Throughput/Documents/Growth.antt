-- ===== src/Throughput/Documents/Growth.antt =====
-- A log that grows keeps the documents that were found in it.
use testprotocols.Prelude.{◌≡◌, ◌∙◌, ap, List, [], ◌++◌, append-nil, ℕ, Option, sym}
use testprotocols.Throughput.Documents.{iter_json_docs}
use testprotocols.Throughput.Documents.Buffered.{
  Buffer, no_buffer, buffered, buffered-append, iter_json_docs-buffered, buffered-after_docs,
}

module _ {D : Type 0} (loads : List ℕ → Option D) where
  -- The scanner without its findings.
  abbrev pub bare : Buffer D → Buffer D
  bare b = record b { docs = [] }

  pub buffered-bare :
      (xs : List ℕ) (b : Buffer D)
      → (buffered loads xs b).docs ≡ b.docs ++ (buffered loads xs (bare b)).docs
  buffered-bare xs b =
      ap (λ d. (buffered loads xs (record b { docs = d })).docs) (sym (append-nil b.docs))
      ∙ ap (λ (c : Buffer D). c.docs) (buffered-after_docs loads b.docs xs (bare b))

  -- What is written to a log later, even in the middle of a document, leaves the documents before it
  -- as they were and where they were: the scan of the longer log only adds to them.
  pub iter_json_docs-append :
      (old more : List ℕ)
      → (new : List D) × (iter_json_docs loads (old ++ more) ≡ iter_json_docs loads old ++ new)
  iter_json_docs-append old more =
      let b = buffered loads old no_buffer in
      (
        (buffered loads more (bare b)).docs,
        iter_json_docs-buffered loads (old ++ more)
            ∙ ap (λ (c : Buffer D). c.docs) (buffered-append loads old more no_buffer)
            ∙ buffered-bare more b
            ∙ rw (iter_json_docs-buffered loads old),
      )
