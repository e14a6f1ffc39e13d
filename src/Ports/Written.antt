-- ===== src/Ports/Written.antt =====
-- Port texts as they are written, read back.
use testprotocols.Prelude.{
  ℕ, ◌≤◌, ◌==◌, ==_iff, ◌≡◌, ◌≢◌, refl, ◌∙◌, ap, true, false, List, [], ◌∷◌, ◌++◌, map, All,
  All-append, All-map, arith, Bool-cases, inl, inr, sym,
}
use testprotocols.Prelude.Text.{codes, is_digit, is_space, strip, decimal}
use testprotocols.Prelude.Text.Decimal.{
  AreDigits, decimal-AreDigits, decimal-ne-nil, number-decimal,
}
use testprotocols.Prelude.Text.Split.{
  text_eq, split_at, Lacks, split_at-last, split_at-append, partition_at-none, partition_at-append,
  AreBlank, AreSolid, strip-padded,
}
use testprotocols.Exec.{Outcome, ret}
use testprotocols.Ports.{
  PortRange, show_range, all_digits, is_number, port_number, port_range, parse_range, parse_items,
  parse_port_ranges,
}
use testprotocols.Ports.Bounds.{InRange}

all_digits_lem : (t : List ℕ) → AreDigits t → all_digits t ≡ true
unfolding all_digits
all_digits_lem [] h = refl
all_digits_lem (c ∷ t) h = rw (h.0, all_digits_lem t h.1)

is_number_lem : (t : List ℕ) → AreDigits t → t ≢ [] → is_number t ≡ true
is_number_lem [] h k = absurd (k refl)
is_number_lem (c ∷ t) h k = all_digits_lem (c ∷ t) h

port_number-decimal : (n : ℕ) → 1 ≤ n → n ≤ 65535 → port_number (decimal n) ≡ ret n
unfolding port_number
port_number-decimal n lo hi =
    rw (is_number_lem (decimal n) (decimal-AreDigits n) (decimal-ne-nil n), number-decimal n)
      (ground arith)

digit_not_dash : (c : ℕ) → is_digit c ≡ true → (c == b'-') ≡ false
digit_not_dash c h = ground arith

digits-Lacks_dash : (t : List ℕ) → AreDigits t → Lacks b'-' t
digits-Lacks_dash t h = All-map _ _ t digit_not_dash h

pub parse_range-show_range : (r : PortRange) → InRange r → parse_range (show_range r) ≡ ret r
unfolding parse_range show_range
parse_range-show_range r h = elim (Bool-cases (r.first == r.last)) [
  | inl same ↦
      rw
        (
          same,
          partition_at-none b'-' (decimal r.first)
              (digits-Lacks_dash _ (decimal-AreDigits r.first)),
        )
        (rw (port_number-decimal r.first h.positive (omega (arith, h.ordered, h.bounded)))
          (unfold port_range in ground arith))
  | inr other ↦
      rw
        (
          other,
          partition_at-append b'-' (decimal r.first) (decimal r.last)
              (digits-Lacks_dash _ (decimal-AreDigits r.first)),
        )
        (rw
          (
            port_number-decimal r.first h.positive (omega (arith, h.ordered, h.bounded)),
            port_number-decimal r.last (omega (arith, h.positive, h.ordered)) h.bounded,
          )
          (unfold port_range in ground arith))
]

-- A character of a written range: a digit or the dash.
abbrev IsRangeChar : ℕ → Type 0
IsRangeChar c = (is_space c ≡ false) × ((c == b',') ≡ false) × ((c == b'a') ≡ false)

digit-IsRangeChar : (c : ℕ) → is_digit c ≡ true → IsRangeChar c
digit-IsRangeChar c h = (unfold is_space in ground arith, ground arith, ground arith)

show_range-IsRangeChar : (r : PortRange) → All IsRangeChar (show_range r)
unfolding show_range
show_range-IsRangeChar r =
    let firsts =
      All-map _ IsRangeChar (decimal r.first) digit-IsRangeChar (decimal-AreDigits r.first) in
    elim (Bool-cases (r.first == r.last)) [
      | inl same ↦ rw same firsts
      | inr other ↦ rw other (
          All-append IsRangeChar (decimal r.first) (b'-' ∷ decimal r.last) firsts (
            (unfold is_space in refl, refl, refl),
            All-map _ IsRangeChar (decimal r.last) digit-IsRangeChar (decimal-AreDigits r.last),
          ))
    ]

-- A range with blanks around it, as an item of the list.
pub record Item : Type 0 where
  pub before : List ℕ
  pub range : PortRange
  pub after : List ℕ

pub record IsItem (i : Item) : Type 0 where
  pub blank_before : AreBlank i.before
  pub in_range : InRange i.range
  pub blank_after : AreBlank i.after

abbrev pub item_text : Item → List ℕ
item_text i = i.before ++ (show_range i.range ++ i.after)

-- The items with commas between them.
abbrev pub ports_text : Item → List Item → List ℕ
ports_text i [] = item_text i
ports_text i (j ∷ items) = item_text i ++ (b',' ∷ ports_text j items)

strip-solid :
    (before after t : List ℕ)
    → AreBlank before
    → AreBlank after
    → AreSolid t
    → t ≢ []
    → strip (before ++ (t ++ after)) ≡ t
strip-solid before after [] hb ha hs k = absurd (k refl)
strip-solid before after (c ∷ t) hb ha hs k = strip-padded before after c t hb ha hs

blank-other : (x c : ℕ) → is_space x ≡ false → is_space c ≡ true → (c == x) ≡ false
blank-other x c solid h = elim (Bool-cases (c == x)) [
  | inl e ↦ cc (sym solid ∙ ap is_space (sym ((==_iff c x).0 e)) ∙ h)
  | inr e ↦ e
]

blanks-Lacks : (x : ℕ) (t : List ℕ) → is_space x ≡ false → AreBlank t → Lacks x t
blanks-Lacks x t solid h = All-map _ (λ c. (c == x) ≡ false) t (λ c k. blank-other x c solid k) h

item_text-Lacks :
    (x : ℕ) (i : Item)
    → is_space x ≡ false
    → Lacks x (show_range i.range)
    → IsItem i
    → Lacks x (item_text i)
item_text-Lacks x i solid k h =
    All-append (λ c. (c == x) ≡ false) i.before (show_range i.range ++ i.after)
      (blanks-Lacks x i.before solid h.blank_before)
      (All-append (λ c. (c == x) ≡ false) (show_range i.range) i.after k
        (blanks-Lacks x i.after solid h.blank_after))

item_text-Lacks_comma : (i : Item) → IsItem i → Lacks b',' (item_text i)
item_text-Lacks_comma i h =
    item_text-Lacks b',' i (unfold is_space in refl)
      (All-map IsRangeChar (λ c. (c == b',') ≡ false) (show_range i.range) (λ c k. k.1)
        (show_range-IsRangeChar i.range))
      h

item_text-Lacks_a : (i : Item) → IsItem i → Lacks b'a' (item_text i)
item_text-Lacks_a i h =
    item_text-Lacks b'a' i (unfold is_space in refl)
      (All-map IsRangeChar (λ c. (c == b'a') ≡ false) (show_range i.range) (λ c k. k.2)
        (show_range-IsRangeChar i.range))
      h

ports_text-Lacks_a :
    (i : Item) (items : List Item) → IsItem i → All IsItem items → Lacks b'a' (ports_text i items)
ports_text-Lacks_a i [] h hs = item_text-Lacks_a i h
ports_text-Lacks_a i (j ∷ items) h hs =
    All-append (λ c. (c == b'a') ≡ false) (item_text i) (b',' ∷ ports_text j items)
      (item_text-Lacks_a i h) (refl, ports_text-Lacks_a j items hs.0 hs.1)

not_any : (t : List ℕ) → Lacks b'a' t → text_eq t (codes "any") ≡ false
not_any [] h = refl
not_any (c ∷ t) h = rw h.0 refl

append-ne-nil : (xs ys : List ℕ) → xs ≢ [] → xs ++ ys ≢ []
append-ne-nil [] ys h e = absurd (h refl)
append-ne-nil (x ∷ xs) ys h e = cc

show_range-ne-nil : (r : PortRange) → show_range r ≢ []
unfolding show_range
show_range-ne-nil r = elim (Bool-cases (r.first == r.last)) [
  | inl same ↦ rw same (decimal-ne-nil r.first)
  | inr other ↦
      rw other (append-ne-nil (decimal r.first) (b'-' ∷ decimal r.last) (decimal-ne-nil r.first))
]

strip-item_text : (i : Item) → IsItem i → strip (item_text i) ≡ show_range i.range
strip-item_text i h =
    strip-solid i.before i.after (show_range i.range) h.blank_before h.blank_after
      (All-map IsRangeChar (λ c. is_space c ≡ false) (show_range i.range) (λ c k. k.0)
        (show_range-IsRangeChar i.range))
      (show_range-ne-nil i.range)

parse-item_text : (i : Item) → IsItem i → parse_range (strip (item_text i)) ≡ ret i.range
parse-item_text i h =
    ap parse_range (strip-item_text i h) ∙ parse_range-show_range i.range h.in_range

split_ports : Item → List Item → Outcome (List PortRange)
split_ports i items =
    let (item, others) = split_at b',' (ports_text i items) in parse_items (item ∷ others)

split_ports_lem :
    (i : Item) (items : List Item)
    → IsItem i
    → All IsItem items
    → split_ports i items ≡ ret (i.range ∷ map (λ j. j.range) items)
unfolding split_ports parse_items
split_ports_lem i [] h hs =
    rw (split_at-last b',' (item_text i) (item_text-Lacks_comma i h), parse-item_text i h) refl
split_ports_lem i (j ∷ items) h hs =
    rw
      (
        split_at-append b',' (item_text i) (ports_text j items) (item_text-Lacks_comma i h),
        parse-item_text i h,
        split_ports_lem j items hs.0 hs.1,
      )
      refl

-- Ranges with 1 ≤ first ≤ last ≤ 65535, each as `PortRange.__str__` writes it with any blanks around
-- it, joined by commas, are read back by `parse_port_ranges` as they were, in order.
pub parse_port_ranges-ports_text :
    (i : Item) (items : List Item)
    → IsItem i
    → All IsItem items
    → parse_port_ranges (ports_text i items) ≡ ret (i.range ∷ map (λ j. j.range) items)
unfolding parse_port_ranges
parse_port_ranges-ports_text i items h hs =
    rw (not_any (ports_text i items) (ports_text-Lacks_a i items h hs))
      (unfold split_ports in split_ports_lem i items h hs)
