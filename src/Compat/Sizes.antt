-- ===== src/Compat/Sizes.antt =====
-- The size that a size option spells.
use testprotocols.Prelude.{
  ◌/◌, ◌^◌, ℕ, zero, suc, ◌-◌, ◌≤◌, ◌<◌, ltb, Bool, true, ◌*◌, ◌≡◌, refl, ◌≢◌, false, some, List,
  [], ◌∷◌, ◌++◌, append-nil, arith, ◌==◌, if◌then◌else◌,
}
use native.Mathlib.Nat.{pow-suc}
use testprotocols.Exec.{ret, exc}
use testprotocols.Exec.Failure.{value_error}
use testprotocols.Prelude.Text.{skip_space, number_from, is_digit, decimal, skip_space, number_from}
use testprotocols.Prelude.Text.Decimal.{
  NoDigit, skip_space-digits, decimal-ne-nil, number-decimal, decimal-AreDigits, span_digits-append,
}
use testprotocols.Compat.{
  positive, size_unit, size_whole, size_of, to_precision, round_off, count_digits,
  parse_window_size,
}

-- What is behind the digits of a size option: nothing, or a suffix, with its factor.
abbrev pub IsUnit : List ℕ → ℕ → Type 0
IsUnit [] unit = unit ≡ 1
IsUnit (c ∷ []) unit = size_unit c ≡ some unit
IsUnit (c ∷ d ∷ t) unit = ⊥

size_unit-not_digit : (c unit : ℕ) → size_unit c ≡ some unit → is_digit c ≡ false
unfolding size_unit
size_unit-not_digit c unit h = ground arith

size_unit-not_point : (c unit : ℕ) → size_unit c ≡ some unit → (c == b'.') ≡ false
unfolding size_unit
size_unit-not_point c unit h = ground arith

IsUnit-NoDigit : (suffix : List ℕ) (unit : ℕ) → IsUnit suffix unit → NoDigit suffix
IsUnit-NoDigit [] unit h = tt
IsUnit-NoDigit (c ∷ []) unit h = size_unit-not_digit c unit h
IsUnit-NoDigit (c ∷ d ∷ t) unit h = absurd h

div_unit : (x : ℕ) → x / 10 ^ 0 ≡ x
div_unit x = omega arith

size_of-plain :
    (ds : List ℕ) (unit : ℕ)
    → size_of ds [] (unit, []) ≡ positive (to_precision (number_from 0 ds * unit))
unfolding size_of skip_space number_from
size_of-plain ds unit = rw (append-nil ds, div_unit (to_precision (number_from 0 ds * unit)))

size_whole-unit :
    (ds suffix : List ℕ) (unit : ℕ)
    → ds ≢ []
    → IsUnit suffix unit
    → size_whole (ds, suffix) ≡ positive (to_precision (number_from 0 ds * unit))
unfolding size_whole
size_whole-unit [] suffix unit k h = absurd (k refl)
size_whole-unit (d ∷ ds) [] unit k h = rw h (size_of-plain (d ∷ ds) 1)
size_whole-unit (d ∷ ds) (c ∷ []) unit k h =
    ground (arith, h, size_unit-not_point c unit h, size_of-plain (d ∷ ds) unit)
size_whole-unit (d ∷ ds) (c ∷ e ∷ t) unit k h = absurd h

tenth_lem : (n m : ℕ) → n < m * 10 → n / 10 < m
tenth_lem n m h = omega arith

count_digits_step :
    (f k n : ℕ)
    → ((j : ℕ) → n / 10 < 10 ^ suc j → count_digits f (n / 10) ≤ suc j)
    → n < 10 ^ suc k
    → (b : Bool) → ltb n 10 ≡ b
    → elim b [ true ↦ 1 | false ↦ suc (count_digits f (n / 10)) ] ≤ suc k
count_digits_step f k n next h true e = omega arith
count_digits_step f zero n next h false e = absurd (ground (arith, e, h))
count_digits_step f (suc k) n next h false e =
    let fewer = next k (tenth_lem n (10 ^ suc k) (rw (pow-suc 10 (suc k)) at h)) in
    omega (arith, fewer)

count_digits-bound : (f k n : ℕ) → n < 10 ^ suc k → count_digits f n ≤ suc k
unfolding count_digits
count_digits-bound zero k n h = omega arith
count_digits-bound (suc f) k n h =
    count_digits_step f k n (λ j. count_digits-bound f j (n / 10)) h (ltb n 10) refl

round_off-none : (n digits : ℕ) → digits ≡ 0 → round_off n digits ≡ n
round_off-none n digits h = rw h (ground arith)

to_precision-exact : (n : ℕ) → n < 10 ^ 28 → to_precision n ≡ n
unfolding to_precision
to_precision-exact n h =
    let few = count_digits-bound n 27 n h in
    round_off-none n (count_digits n n - 28) (omega (arith, few))

-- A decimal number with an optional suffix, of less than 10 ^ 28 bytes, is that many units, and none of
-- them is no size.
pub parse_window_size-decimal :
    (n : ℕ) (suffix : List ℕ) (unit : ℕ)
    → IsUnit suffix unit
    → n * unit < 10 ^ 28
    → parse_window_size (decimal n ++ suffix)
      ≡ (if n * unit == 0 then exc value_error else ret (n * unit))
unfolding parse_window_size positive
parse_window_size-decimal n suffix unit h few = rw (
  skip_space-digits (decimal n) suffix (decimal-AreDigits n) (decimal-ne-nil n),
  span_digits-append (decimal n) suffix (decimal-AreDigits n) (IsUnit-NoDigit suffix unit h),
  size_whole-unit (decimal n) suffix unit (decimal-ne-nil n) h,
  number-decimal n,
  to_precision-exact (n * unit) few,
)
