-- ===== src/Ports/Classifier/Groups.antt =====
-- When the loop over a classifier's terms raises.
use testprotocols.Prelude.Text.{strip, skip_space, rstrip}
use testprotocols.Exec.{Outcome, ret, exc, out_of_fuel}
use testprotocols.Exec.Failure.{value_error}
use testprotocols.Exec.Pure.{◌>>=◌}
use testprotocols.Ports.Bounds.{Parsed}
use testprotocols.Ports.Classifier.{QosClassifier, qos_term}
use testprotocols.Ports.Classifier.Bounds.{IsQosClassifier, read_classifier-Parsed}
use testprotocols.Prelude.Text.Split.{text_eq, split_at, partition_at}
use testprotocols.Ports.Classifier.Keys.{
  Key, key_text, part_of, keys_of, pieces_of, given_again, two_of_a_part, repeats_keys, Terms,
  Spelled, qos_terms-Spelled, group_of-part_text, part_text-part_number,
}
use testprotocols.Prelude.{
  ℕ, ◌≡◌, refl, ap, ◌∙◌, inl, inr, Bool, true, false, ◌||◌, Option, none, some, List, [], ◌∷◌, ◌++◌,
  arith, Bool-cases,
}
use testprotocols.Ports.Classifier.{
  qos_terms, qos_term, group_of, is_seen, group_terms, read_classifier, unspelled, classify,
  classify_body, parse_qos_classifier, split_at, strip, Outcome, text_eq, QosClassifier,
  partition_at, ◌>>=◌, exc, ret,
}

-- A text's terms, where each of them reads.
abbrev terms_of : List ℕ → Option (List (List ℕ × List ℕ))
terms_of text = qos_terms ((split_at b',' text).0 ∷ (split_at b',' text).1)

-- One of the terms is of the group.
abbrev recurs : List ℕ → List (List ℕ × List ℕ) → Bool
recurs group [] = false
recurs group ((key, value) ∷ terms) = text_eq group (group_of key) || recurs group terms

-- Two of the terms are of one group of the loop.
abbrev repeats : List (List ℕ × List ℕ) → Bool
repeats [] = false
repeats ((key, value) ∷ terms) = recurs (group_of key) terms || repeats terms

abbrev repeats_in : Option (List (List ℕ × List ℕ)) → Bool
repeats_in none = false
repeats_in (some terms) = repeats terms

abbrev pub raises : {A : Type 0} → Outcome A → Bool
raises (exc e) = true
raises _ = false

-- One of the terms is of a group that is seen.
abbrev clashes : List (List ℕ × List ℕ) → List (List ℕ × List ℕ) → Bool
clashes seen [] = false
clashes seen ((key, value) ∷ terms) = is_seen (group_of key) seen || clashes seen terms

is_seen-append :
    (key group value : List ℕ) (seen : List (List ℕ × List ℕ))
    → is_seen key (seen ++ (group, value) ∷ []) ≡ (is_seen key seen || text_eq group key)
is_seen-append key group value [] = ground arith
is_seen-append key group value ((k, v) ∷ seen) =
    rw (is_seen-append key group value seen) (ground arith)

clashes-append :
    (seen : List (List ℕ × List ℕ)) (group value : List ℕ) (terms : List (List ℕ × List ℕ))
    → clashes (seen ++ (group, value) ∷ []) terms ≡ (clashes seen terms || recurs group terms)
clashes-append seen group value [] = refl
clashes-append seen group value ((key, v) ∷ terms) =
    rw (is_seen-append (group_of key) group value seen, clashes-append seen group value terms)
      (ground arith)

group_terms-raises :
    (seen terms : List (List ℕ × List ℕ))
    → raises (group_terms seen terms) ≡ (clashes seen terms || repeats terms)
unfolding group_terms
group_terms-raises seen [] = refl
group_terms-raises seen ((key, value) ∷ terms) =
    let next = seen ++ (group_of key, value) ∷ [] in
    let rest =
      group_terms-raises next terms
      ∙ ap (λ b. b || repeats terms) (clashes-append seen (group_of key) value terms) in
    elim (Bool-cases (is_seen (group_of key) seen)) [
      | inl e ↦ rw e refl
      | inr e ↦ rw e (ground (arith, rest))
    ]

clashes-nil : (terms : List (List ℕ × List ℕ)) → clashes [] terms ≡ false
clashes-nil [] = refl
clashes-nil (t ∷ terms) = clashes-nil terms

unspelled-raises :
    (m : Outcome QosClassifier) → Parsed IsQosClassifier m → raises (unspelled m) ≡ false
unspelled-raises (ret c) h = refl
unspelled-raises (exc value_error) h = refl
unspelled-raises (exc e) h = cc
unspelled-raises out_of_fuel h = refl

bind-raises :
    {A B : Type 0} (m : Outcome A) (f : A → Outcome B)
    → ((a : A) → raises (f a) ≡ false)
    → raises (m >>= f) ≡ raises m
bind-raises (ret a) f h = h a
bind-raises (exc e) f h = refl
bind-raises out_of_fuel f h = refl

classify-raises : (o : Option (List (List ℕ × List ℕ))) → raises (classify o) ≡ repeats_in o
classify-raises none = refl
classify-raises (some terms) =
    bind-raises (group_terms [] terms) (λ seen. unspelled (read_classifier seen))
      (λ seen. unspelled-raises (read_classifier seen) (read_classifier-Parsed seen))
    ∙ group_terms-raises [] terms
    ∙ ap (λ b. b || repeats terms) (clashes-nil terms)

classify_body-raises : (body : List ℕ) → raises (classify_body body) ≡ repeats_in (terms_of body)
classify_body-raises [] =
    unfold qos_terms split_at partition_at strip skip_space rstrip qos_term in refl
classify_body-raises (c ∷ t) = classify-raises (terms_of (c ∷ t))

recurs-given_again :
    (k : Key) (terms : List (List ℕ × List ℕ)) (ks : List Key)
    → Terms terms ks
    → recurs (group_of (key_text k)) terms ≡ given_again k ks
recurs-given_again k [] [] h = refl
recurs-given_again k [] (j ∷ ks) h = absurd h
recurs-given_again k (t ∷ terms) [] h = absurd h
recurs-given_again k ((t, value) ∷ terms) (j ∷ ks) h =
    rw
      (
        recurs-given_again k terms ks h.1,
        h.0,
        group_of-part_text k,
        group_of-part_text j,
        part_text-part_number (part_of k) (part_of j),
      )
      refl

repeats-two_of_a_part :
    (terms : List (List ℕ × List ℕ)) (ks : List Key)
    → Terms terms ks
    → repeats terms ≡ two_of_a_part ks
repeats-two_of_a_part [] [] h = refl
repeats-two_of_a_part [] (j ∷ ks) h = absurd h
repeats-two_of_a_part (t ∷ terms) [] h = absurd h
repeats-two_of_a_part ((t, value) ∷ terms) (j ∷ ks) h =
    rw (h.0, recurs-given_again j terms ks h.1, repeats-two_of_a_part terms ks h.1) refl

Spelled-repeats :
    (terms : Option (List (List ℕ × List ℕ))) (ks : Option (List Key))
    → Spelled terms ks
    → repeats_in terms ≡ repeats_keys ks
Spelled-repeats none none h = refl
Spelled-repeats none (some ks) h = absurd h
Spelled-repeats (some terms) none h = absurd h
Spelled-repeats (some terms) (some ks) h = repeats-two_of_a_part terms ks h

-- `parse_qos_classifier` raises exactly where every term of the text is one of the released keys with
-- a value, and two of the terms have one key, or the port key and the range key of one direction.
pub parse_qos_classifier-raises :
    (text : List ℕ) → raises (parse_qos_classifier text) ≡ repeats_keys (keys_of (pieces_of text))
unfolding parse_qos_classifier
parse_qos_classifier-raises text =
    classify_body-raises (strip text)
    ∙ Spelled-repeats (terms_of (strip text)) (keys_of (pieces_of text))
        (qos_terms-Spelled (pieces_of text))
