-- ===== src/Ports/Classifier/Keys.antt =====
-- The keys that a classifier's text gives, told independently of the loop, and the terms of the code.
use testprotocols.Prelude.{
  ℕ, ◌≡◌, refl, sym, inl, inr, Bool, true, false, ◌||◌, Option, none, some, List, [], ◌∷◌, map,
  ◌==◌, if◌then◌else◌, Bool-cases,
}
use testprotocols.Prelude.Text.{codes, strip}
use testprotocols.Prelude.Text.Split.{text_eq, split_at, partition_at, text_eq_sound}
use testprotocols.Ports.Classifier.{
  qos_keys, is_among, term_of, qos_term, cons_term, qos_terms, remove_suffix, group_of,
}

-- The released keys, and the part of a classifier that each gives.
pub data Key : Type 0 where
  vlan_key protocol_key src_key src_range_key dst_key dst_range_key : Key

pub data Part : Type 0 where
  vlan_part protocol_part src_part dst_part : Part

abbrev pub key_text : Key → List ℕ
key_text vlan_key = codes "vlan"
key_text protocol_key = codes "protocol"
key_text src_key = codes "srcPort"
key_text src_range_key = codes "srcPortRange"
key_text dst_key = codes "dstPort"
key_text dst_range_key = codes "dstPortRange"

-- The port key and the range key of one direction give one part.
abbrev pub part_of : Key → Part
part_of vlan_key = vlan_part
part_of protocol_key = protocol_part
part_of src_key = src_part
part_of src_range_key = src_part
part_of dst_key = dst_part
part_of dst_range_key = dst_part

abbrev part_number : Part → ℕ
part_number vlan_part = 0
part_number protocol_part = 1
part_number src_part = 2
part_number dst_part = 3

abbrev same_part : Key → Key → Bool
same_part j k = part_number (part_of j) == part_number (part_of k)

abbrev all_keys : List Key
all_keys = vlan_key ∷ protocol_key ∷ src_key ∷ src_range_key ∷ dst_key ∷ dst_range_key ∷ []

abbrev find_key : List ℕ → List Key → Option Key
find_key t [] = none
find_key t (k ∷ ks) = if text_eq (key_text k) t then some k else find_key t ks

-- The key of a piece of the form key=value, if it is one of the released keys.
abbrev key_before : List ℕ × Option (List ℕ) → Option Key
key_before (t, none) = none
key_before (t, some value) = find_key t all_keys

abbrev onto : Option Key → Option (List Key) → Option (List Key)
onto (some k) (some ks) = some (k ∷ ks)
onto _ _ = none

-- The keys of the pieces, where each has one.
abbrev pub keys_of : List (List ℕ) → Option (List Key)
keys_of [] = some []
keys_of (piece ∷ pieces) = onto (key_before (partition_at b'=' (strip piece))) (keys_of pieces)

-- The pieces of a text that commas part.
abbrev pub pieces_of : List ℕ → List (List ℕ)
pieces_of text = (split_at b',' (strip text)).0 ∷ (split_at b',' (strip text)).1

abbrev pub given_again : Key → List Key → Bool
given_again j [] = false
given_again j (k ∷ ks) = same_part j k || given_again j ks

abbrev pub two_of_a_part : List Key → Bool
two_of_a_part [] = false
two_of_a_part (k ∷ ks) = given_again k ks || two_of_a_part ks

abbrev pub repeats_keys : Option (List Key) → Bool
repeats_keys none = false
repeats_keys (some ks) = two_of_a_part ks

-- A text that is or is not among the keys, and the key that it is.
abbrev Found : List ℕ → Bool → Option Key → Type 0
Found t true (some k) = t ≡ key_text k
Found t false none = Unit
Found t _ _ = ⊥

find_key-Found :
    (t : List ℕ) (ks : List Key) → Found t (is_among t (map key_text ks)) (find_key t ks)
find_key-Found t [] = tt
find_key-Found t (k ∷ ks) = elim (Bool-cases (text_eq (key_text k) t)) [
  | inl e ↦ rw e (sym (text_eq_sound (key_text k) t e))
  | inr e ↦ rw e (find_key-Found t ks)
]

-- The term that the code reads of a piece, and its key.
abbrev Term : Option (List ℕ × List ℕ) → Option Key → Type 0
Term none none = Unit
Term (some (t, value)) (some k) = t ≡ key_text k
Term _ _ = ⊥

Found-Term :
    (t value : List ℕ) (b : Bool) (o : Option Key)
    → Found t b o
    → Term (if b then some (t, value) else none) o
Found-Term t value true (some k) h = h
Found-Term t value true none h = h
Found-Term t value false (some k) h = h
Found-Term t value false none h = h

term_of-Term : (p : List ℕ × Option (List ℕ)) → Term (term_of p) (key_before p)
term_of-Term (t, none) = tt
term_of-Term (t, some value) =
    Found-Term t (strip value) (is_among t qos_keys) (find_key t all_keys)
      (find_key-Found t all_keys)

abbrev pub Terms : List (List ℕ × List ℕ) → List Key → Type 0
Terms [] [] = Unit
Terms ((t, value) ∷ terms) (k ∷ ks) = (t ≡ key_text k) × Terms terms ks
Terms _ _ = ⊥

abbrev pub Spelled : Option (List (List ℕ × List ℕ)) → Option (List Key) → Type 0
Spelled none none = Unit
Spelled (some terms) (some ks) = Terms terms ks
Spelled _ _ = ⊥

cons-Spelled :
    (a : Option (List ℕ × List ℕ)) (k : Option Key) (as' : Option (List (List ℕ × List ℕ)))
    (ks : Option (List Key))
    → Term a k
    → Spelled as' ks
    → Spelled (cons_term a as') (onto k ks)
cons-Spelled none none as' ks h l = tt
cons-Spelled none (some k) as' ks h l = absurd h
cons-Spelled (some a) none as' ks h l = absurd h
cons-Spelled (some a) (some k) none none h l = tt
cons-Spelled (some a) (some k) none (some ks) h l = absurd l
cons-Spelled (some a) (some k) (some as') none h l = absurd l
cons-Spelled (some a) (some k) (some as') (some ks) h l = (h, l)

pub qos_terms-Spelled : (pieces : List (List ℕ)) → Spelled (qos_terms pieces) (keys_of pieces)
unfolding qos_terms qos_term
qos_terms-Spelled [] = tt
qos_terms-Spelled (piece ∷ pieces) =
    let p = partition_at b'=' (strip piece) in
    cons-Spelled (term_of p) (key_before p) (qos_terms pieces) (keys_of pieces) (term_of-Term p)
      (qos_terms-Spelled pieces)

abbrev pub part_text : Part → List ℕ
part_text vlan_part = codes "vlan"
part_text protocol_part = codes "protocol"
part_text src_part = codes "srcPort"
part_text dst_part = codes "dstPort"

-- The group that the loop files a key under.
pub group_of-part_text : (k : Key) → group_of (key_text k) ≡ part_text (part_of k)
unfolding remove_suffix
group_of-part_text vlan_key = refl
group_of-part_text protocol_key = refl
group_of-part_text src_key = refl
group_of-part_text src_range_key = refl
group_of-part_text dst_key = refl
group_of-part_text dst_range_key = refl

pub part_text-part_number :
    (p q : Part) → text_eq (part_text p) (part_text q) ≡ (part_number p == part_number q)
part_text-part_number vlan_part vlan_part = refl
part_text-part_number vlan_part protocol_part = refl
part_text-part_number vlan_part src_part = refl
part_text-part_number vlan_part dst_part = refl
part_text-part_number protocol_part vlan_part = refl
part_text-part_number protocol_part protocol_part = refl
part_text-part_number protocol_part src_part = refl
part_text-part_number protocol_part dst_part = refl
part_text-part_number src_part vlan_part = refl
part_text-part_number src_part protocol_part = refl
part_text-part_number src_part src_part = refl
part_text-part_number src_part dst_part = refl
part_text-part_number dst_part vlan_part = refl
part_text-part_number dst_part protocol_part = refl
part_text-part_number dst_part src_part = refl
part_text-part_number dst_part dst_part = refl
