-- ===== src/Ports/Bounds.antt =====
-- What the port parsers return lies in range.
use testprotocols.Prelude.{
  ℕ, ◌≤◌, ◌&&◌, ltb, leb, ◌≡◌, refl, Bool, true, false, Option, none, some, List, [], ◌∷◌, All,
  arith, if◌then◌else◌,
}
use testprotocols.Prelude.Text.{codes, strip, number_from}
use testprotocols.Prelude.Text.Split.{text_eq, split_at, partition_at}
use testprotocols.Exec.{Outcome, ret, exc, out_of_fuel}
use testprotocols.Exec.Failure.{value_error}
use testprotocols.Exec.Pure.{◌>>=◌}
use testprotocols.Ports.{
  PortRange, port_number, port_range, parse_range, parse_items, parse_port_ranges, is_number,
  last_port, max_port,
}

pub record InRange (r : PortRange) : Type 0 where
  pub positive : 1 ≤ r.first
  pub ordered : r.first ≤ r.last
  pub bounded : r.last ≤ 65535

-- A value with `P`, or a `ValueError`: nothing else comes out.
abbrev pub Parsed : {A : Type 0} → (A → Type 0) → Outcome A → Type 0
Parsed P (ret a) = P a
Parsed P (exc e) = e ≡ value_error
Parsed P out_of_fuel = ⊥

pub Parsed-bind :
    {A B : Type 0} (P : A → Type 0) (Q : B → Type 0) (m : Outcome A) (f : A → Outcome B)
    → Parsed P m
    → ((a : A) → P a → Parsed Q (f a))
    → Parsed Q (m >>= f)
Parsed-bind P Q (ret a) f h k = k a h
Parsed-bind P Q (exc e) f h k = h
Parsed-bind P Q out_of_fuel f h k = absurd h

pub Parsed-map :
    {A : Type 0} (P Q : A → Type 0) (m : Outcome A)
    → Parsed P m
    → ((a : A) → P a → Q a)
    → Parsed Q m
Parsed-map P Q (ret a) h k = k a h
Parsed-map P Q (exc e) h k = h
Parsed-map P Q out_of_fuel h k = absurd h

pub Parsed-if :
    {A : Type 0} (P : A → Type 0) (b : Bool) (m n : Outcome A)
    → (b ≡ true → Parsed P m)
    → (b ≡ false → Parsed P n)
    → Parsed P (if b then m else n)
Parsed-if P true m n h k = h refl
Parsed-if P false m n h k = k refl

abbrev pub IsPort : ℕ → Type 0
IsPort n = (1 ≤ n) × (n ≤ 65535)

pub port_number-IsPort : (text : List ℕ) → Parsed IsPort (port_number text)
unfolding port_number
port_number-IsPort text =
    let n = number_from 0 text in
    Parsed-if IsPort (is_number text) _ _
      (λ _. Parsed-if IsPort (leb 1 n && leb n max_port) _ _ (λ h. ground arith) (λ _. refl))
      (λ _. refl)

last_port-IsPort : (low : ℕ) (o : Option (List ℕ)) → IsPort low → Parsed IsPort (last_port low o)
last_port-IsPort low none h = h
last_port-IsPort low (some text) h = port_number-IsPort text

port_range-InRange :
    (low high : ℕ) → IsPort low → IsPort high → Parsed InRange (port_range low high)
unfolding port_range
port_range-InRange low high h k =
    Parsed-if InRange (ltb high low) _ _ (λ _. refl)
      (λ e. record { positive = h.0; ordered = ground arith; bounded = k.1 })

pub parse_range-InRange : (text : List ℕ) → Parsed InRange (parse_range text)
unfolding parse_range
parse_range-InRange text =
    Parsed-bind IsPort InRange (port_number (partition_at b'-' text).0) _
      (port_number-IsPort (partition_at b'-' text).0)
      (λ low h.
        Parsed-bind IsPort InRange (last_port low (partition_at b'-' text).1) _
          (last_port-IsPort low (partition_at b'-' text).1 h)
          (λ high k. port_range-InRange low high h k))

parse_items-InRange : (items : List (List ℕ)) → Parsed (All InRange) (parse_items items)
unfolding parse_items
parse_items-InRange [] = tt
parse_items-InRange (item ∷ items) =
    Parsed-bind InRange (All InRange) (parse_range (strip item)) _
      (parse_range-InRange (strip item))
      (λ r h.
        Parsed-bind (All InRange) (All InRange) (parse_items items) _ (parse_items-InRange items)
          (λ rs k. (h, k)))

-- Of any text at all, `parse_port_ranges` returns ranges with 1 ≤ first ≤ last ≤ 65535, or raises a
-- `ValueError`.
pub parse_port_ranges-InRange : (text : List ℕ) → Parsed (All InRange) (parse_port_ranges text)
unfolding parse_port_ranges
parse_port_ranges-InRange text =
    Parsed-if (All InRange) (text_eq text (codes "any")) _ _ (λ _. tt)
      (λ _. parse_items-InRange ((split_at b',' text).0 ∷ (split_at b',' text).1))
