-- ===== src/Compat.antt =====
-- packages/testoperations/src/testoperations/_compat.py: the iperf size option.
pub mod Coerce
pub mod Sizes
mod Examples
use testprotocols.Prelude.{
  ◌/◌, ◌%◌, ◌^◌, ℕ, zero, suc, ◌+◌, ◌-◌, ◌*◌, ◌≤◌, ◌<◌, String, ◌≡◌, refl, sym, ap, ◌∙◌, subst, ◌≢◌,
  ◌↔◌, ◌⊎◌, inl, inr, Bool, true, false, not, ◌&&◌, ◌||◌, Option, none, some, List, [], ◌∷◌, ◌++◌,
  map, append-nil, append_assoc, arith, eq_iff, eq_refl, str_eq, ltb, leb, ◌==◌, if◌then◌else◌,
  Bool-cases, Option-cases, length, All, length-append, length-map, All-append,
}
use testprotocols.Exec.{Outcome, ret, exc}
use testprotocols.Exec.Failure.{value_error}
use testprotocols.Prelude.Text.{codes, skip_space, span_digits, number_from}

-- `_SIZE_UNITS`, in either case; `none` for a character that is no suffix.
unfoldable pub size_unit : ℕ → Option ℕ
size_unit c =
    if c == b'k' || c == b'K'
    then some 1024
    else if c == b'm' || c == b'M'
    then some (1024 ^ 2)
    else if c == b'g' || c == b'G'
    then some (1024 ^ 3)
    else if c == b't' || c == b'T'
    then some (1024 ^ 4)
    else none

-- A suffix and what follows it; no suffix counts bytes.
unfoldable pub take_unit : List ℕ → ℕ × List ℕ
take_unit [] = (1, [])
take_unit (c ∷ t) = elim (size_unit c) [ some unit ↦ (unit, t) | none ↦ (1, c ∷ t) ]

-- A size of zero bytes is refused.
unfoldable pub positive : ℕ → Outcome ℕ
positive size = if size == 0 then exc value_error else ret size

-- `n / m`, rounded to the nearest, to the even one of two as near.
abbrev half_even : ℕ → ℕ → ℕ
half_even n m =
    if ltb (2 * (n % m)) m || (2 * (n % m) == m && n / m % 2 == 0) then n / m else suc (n / m)

-- The number of decimal digits, with fuel: as much as `n` is enough.
unfoldable pub count_digits : ℕ → ℕ → ℕ
count_digits zero n = 1
count_digits (suc f) n = elim (ltb n 10) [ true ↦ 1 | false ↦ suc (count_digits f (n / 10)) ]

abbrev pub round_off : (n digits : ℕ) → ℕ
round_off n digits = half_even n (10 ^ digits) * 10 ^ digits

-- A whole number to the 28 digits that a product of `Decimal`s keeps.
unfoldable pub to_precision : ℕ → ℕ
unfolding count_digits
to_precision n = round_off n (count_digits n n - 28)

-- The end of the match: blanks alone may follow. `whole` and `fraction` are the digits before and
-- behind the point; the value is `int(Decimal(number) * unit)`, of a product within the exponents
-- that `Decimal` has (a million digits).
unfoldable pub size_of : (whole fraction : List ℕ) → ℕ × List ℕ → Outcome ℕ
unfolding positive skip_space number_from to_precision
size_of whole fraction (unit, rest) = elim (skip_space rest) [
  | [] ↦ positive (to_precision (number_from 0 (whole ++ fraction) * unit) / 10 ^ length fraction)
  | c ∷ t ↦ exc value_error
]

-- `(?:\.[0-9]+)?`: a point counts only with a digit behind it.
unfoldable pub size_fraction : (whole : List ℕ) → List ℕ × List ℕ → Outcome ℕ
unfolding size_of take_unit size_unit
size_fraction whole ([], after) = exc value_error
size_fraction whole (d ∷ ds, after) = size_of whole (d ∷ ds) (take_unit after)

unfoldable pub size_whole : List ℕ × List ℕ → Outcome ℕ
unfolding size_fraction
size_whole ([], rest) = exc value_error
size_whole (d ∷ ds, []) = size_of (d ∷ ds) [] (1, [])
size_whole (d ∷ ds, c ∷ t) =
    if c == b'.'
    then size_fraction (d ∷ ds) (span_digits t)
    else size_of (d ∷ ds) [] (take_unit (c ∷ t))

-- `parse_window_size`, for a text
unfoldable pub parse_window_size : List ℕ → Outcome ℕ
unfolding size_whole skip_space span_digits number_from
parse_window_size text = size_whole (span_digits (skip_space text))
