-- ===== src/Prelude/Text.antt =====
-- Texts as lists of code points, for the code that walks them, and decimal numerals in them.
pub mod Decimal
pub mod Split
pub mod Order
pub mod Lines
pub mod Numeral
use Prim.Native.Char.{code}
use testprotocols.Prelude.{
  ℕ, zero, suc, ◌+◌, ◌-◌, ◌*◌, ◌≤◌, ◌<◌, String, ◌≡◌, refl, sym, ap, ◌∙◌, subst, ◌≢◌, ◌↔◌, ◌⊎◌, inl,
  inr, Bool, true, false, not, ◌&&◌, ◌||◌, Option, none, some, List, [], ◌∷◌, ◌++◌, map, append-nil,
  append_assoc, arith, eq_iff, eq_refl, str_eq, ltb, leb, ◌==◌, if◌then◌else◌, Bool-cases,
  Option-cases, length, All, length-append, length-map, All-append, ◌/◌, ◌%◌,
}

-- The code points of a text. `String` has its own `[]` and `∷`.
abbrev pub codes : String → List ℕ
codes String.[] = []
codes (String.◌∷◌ c s) = code c ∷ codes s

-- `[0-9]`
abbrev pub is_digit : ℕ → Bool
is_digit c = leb 48 c && leb c 57

-- `str.isspace` of one character, which `\s` and `str.strip` go by.
unfoldable pub is_space : ℕ → Bool
is_space c =
    (leb 9 c && leb c 13)
    || (leb 28 c && leb c 32)
    || c == 0x85
    || c == 0xa0
    || c == 0x1680
    || (leb 0x2000 c && leb c 0x200a)
    || c == 0x2028
    || c == 0x2029
    || c == 0x202f
    || c == 0x205f
    || c == 0x3000

-- `str.lstrip`
unfoldable pub skip_space : List ℕ → List ℕ
unfolding is_space
skip_space [] = []
skip_space (c ∷ t) = if is_space c then skip_space t else c ∷ t

-- A character in front of a stripped rest.
unfoldable pub cons_stripped : ℕ → List ℕ → List ℕ
unfolding is_space
cons_stripped c [] = if is_space c then [] else c ∷ []
cons_stripped c (d ∷ t) = c ∷ d ∷ t

-- `str.rstrip`
unfoldable pub rstrip : List ℕ → List ℕ
unfolding cons_stripped
rstrip [] = []
rstrip (c ∷ t) = cons_stripped c (rstrip t)

-- `str.strip`
unfoldable pub strip : List ℕ → List ℕ
unfolding skip_space rstrip
strip t = rstrip (skip_space t)

-- The digits that a text begins with, and the rest.
unfoldable pub span_digits : List ℕ → List ℕ × List ℕ
span_digits [] = ([], [])
span_digits (c ∷ t) =
    let (ds, rest) = span_digits t in if is_digit c then (c ∷ ds, rest) else ([], c ∷ t)

-- The number that decimal digits spell, behind the number `n`.
unfoldable pub number_from : ℕ → List ℕ → ℕ
number_from n [] = n
number_from n (c ∷ t) = number_from (n * 10 + (c - 48)) t

-- `str(n)`, with fuel: as much as `n` is enough.
unfoldable pub decimal_fuel : ℕ → ℕ → List ℕ
decimal_fuel zero n = (48 + n) ∷ []
decimal_fuel (suc f) n =
    let more = decimal_fuel f (n / 10) ++ (48 + n % 10) ∷ [] in
    if ltb n 10 then (48 + n) ∷ [] else more

unfoldable pub decimal : ℕ → List ℕ
unfolding decimal_fuel
decimal n = decimal_fuel n n

abbrev lower_char : ℕ → ℕ
lower_char c = if leb 65 c && leb c 90 then c + 32 else c

-- `str.lower` over the ASCII letters; other letters are kept.
abbrev pub lower : List ℕ → List ℕ
lower [] = []
lower (c ∷ t) = lower_char c ∷ lower t
