-- ===== src/Prelude/Text/Numeral.antt =====
-- `int` of a text, over the ASCII digits.
use testprotocols.Prelude.{
  ℕ, zero, suc, ◌+◌, ◌-◌, ◌*◌, ◌==◌, ◌&&◌, Bool, true, false, Option, none, some, List, [], ◌∷◌,
  if◌then◌else◌,
}
use testprotocols.Prelude.Int.{ℤ, pos, negsuc}
use testprotocols.Prelude.Text.{is_digit, strip}

-- Digits, with single underscores between them, behind the number `n`.
unfoldable pub numeral_from : ℕ → (behind_digit : Bool) → List ℕ → Option ℕ
numeral_from n true [] = some n
numeral_from n false [] = none
numeral_from n behind_digit (c ∷ t) =
    let more = numeral_from (n * 10 + (c - 48)) true t in
    let skipped = numeral_from n false t in
    if is_digit c then more else if c == b'_' && behind_digit then skipped else none

abbrev negated : Option ℕ → Option ℤ
negated none = none
negated (some zero) = some (pos 0)
negated (some (suc n)) = some (negsuc n)

abbrev positive_of : Option ℕ → Option ℤ
positive_of none = none
positive_of (some n) = some (pos n)

abbrev signed : List ℕ → Option ℤ
signed [] = none
signed (c ∷ t) =
    if c == b'-'
    then negated (numeral_from 0 false t)
    else if c == b'+'
    then positive_of (numeral_from 0 false t)
    else positive_of (numeral_from 0 false (c ∷ t))

unfoldable pub int_of_text : List ℕ → Option ℤ
unfolding numeral_from
int_of_text text = signed (strip text)
