-- ===== src/Prelude/Text/Decimal.antt =====
-- A number is read back from its decimal numeral.
use testprotocols.Prelude.{
  ℕ, zero, suc, ◌+◌, ◌-◌, ◌*◌, ◌≤◌, ◌<◌, ◌≡◌, refl, ◌≢◌, inl, inr, true, false, List, [], ◌∷◌, ◌++◌,
  arith, ltb, Bool-cases, All, All-append, ◌/◌, ◌%◌,
}
use testprotocols.Prelude.Text.{
  is_digit, span_digits, is_space, skip_space, number_from, decimal_fuel, decimal,
}

pub number_from-append :
    (n : ℕ) (xs ys : List ℕ) → number_from n (xs ++ ys) ≡ number_from (number_from n xs) ys
unfolding number_from
number_from-append n [] ys = refl
number_from-append n (c ∷ xs) ys = number_from-append (n * 10 + (c - 48)) xs ys

number-decimal_fuel : (f n : ℕ) → n ≤ f → number_from 0 (decimal_fuel f n) ≡ n
unfolding decimal_fuel
number-decimal_fuel zero n h = unfold number_from in omega arith
number-decimal_fuel (suc f) n h = elim (Bool-cases (ltb n 10)) [
  | inl small ↦ rw small (unfold number_from in omega arith)
  | inr large ↦
      rw
        (
          large,
          number_from-append 0 (decimal_fuel f (n / 10)) ((48 + n % 10) ∷ []),
          number-decimal_fuel f (n / 10) (ground arith),
        )
        (unfold number_from in omega arith)
]

pub number-decimal : (n : ℕ) → number_from 0 (decimal n) ≡ n
unfolding decimal
number-decimal n = number-decimal_fuel n n (omega arith)

abbrev pub AreDigits : List ℕ → Type 0
AreDigits = All (λ c. is_digit c ≡ true)

digit_lem : (d : ℕ) → d < 10 → is_digit (48 + d) ≡ true
digit_lem d h = ground arith

decimal_fuel-AreDigits : (f n : ℕ) → n ≤ f → AreDigits (decimal_fuel f n)
unfolding decimal_fuel
decimal_fuel-AreDigits zero n h = (digit_lem n (omega arith), tt)
decimal_fuel-AreDigits (suc f) n h = elim (Bool-cases (ltb n 10)) [
  | inl small ↦ rw small (digit_lem n (ground arith), tt)
  | inr large ↦ rw large (
      All-append _ (decimal_fuel f (n / 10)) ((48 + n % 10) ∷ [])
        (decimal_fuel-AreDigits f (n / 10) (ground arith)) (digit_lem (n % 10) (omega arith), tt))
]

pub decimal-AreDigits : (n : ℕ) → AreDigits (decimal n)
unfolding decimal
decimal-AreDigits n = decimal_fuel-AreDigits n n (omega arith)

-- `rest` begins with no digit.
abbrev pub NoDigit : List ℕ → Type 0
NoDigit [] = Unit
NoDigit (c ∷ t) = is_digit c ≡ false

pub span_digits-append :
    (ds rest : List ℕ) → AreDigits ds → NoDigit rest → span_digits (ds ++ rest) ≡ (ds, rest)
unfolding span_digits
span_digits-append [] [] h k = refl
span_digits-append [] (c ∷ t) h k = rw k
span_digits-append (c ∷ ds) rest h k = rw (h.0, span_digits-append ds rest h.1 k)

append-ne-nil : (xs ys : List ℕ) (c : ℕ) → xs ++ c ∷ ys ≢ []
append-ne-nil [] ys c e = cc
append-ne-nil (x ∷ xs) ys c e = cc

pub decimal-ne-nil : (n : ℕ) → decimal n ≢ []
unfolding decimal decimal_fuel
decimal-ne-nil zero e = cc
decimal-ne-nil (suc n) e = elim (Bool-cases (ltb (suc n) 10)) [
  | inl small ↦ cc (rw small at e)
  | inr large ↦ append-ne-nil (decimal_fuel n (suc n / 10)) [] (48 + suc n % 10) (rw large at e)
]

digit_not_space : (c : ℕ) → is_digit c ≡ true → is_space c ≡ false
unfolding is_space
digit_not_space c h = ground arith

pub skip_space-digits :
    (ds rest : List ℕ) → AreDigits ds → ds ≢ [] → skip_space (ds ++ rest) ≡ ds ++ rest
unfolding skip_space
skip_space-digits [] rest h k = absurd (k refl)
skip_space-digits (c ∷ ds) rest h k = ground (arith, digit_not_space c h.0)
