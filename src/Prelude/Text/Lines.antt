-- ===== src/Prelude/Text/Lines.antt =====
-- `str.splitlines`.
use testprotocols.Prelude.{
  ℕ, ◌==◌, ◌&&◌, ◌||◌, leb, Bool, true, false, List, [], ◌∷◌, if◌then◌else◌,
}
use testprotocols.Prelude.Text.{strip}

-- Line boundaries; a carriage return and the line feed behind it are one.
abbrev is_boundary : ℕ → Bool
is_boundary c =
    (leb 10 c && leb c 13) || (leb 28 c && leb c 30) || c == 0x85 || c == 0x2028 || c == 0x2029

abbrev next_is_feed : List ℕ → Bool
next_is_feed [] = false
next_is_feed (c ∷ t) = c == 10

abbrev onto_first : ℕ → List (List ℕ) → List (List ℕ)
onto_first c [] = (c ∷ []) ∷ []
onto_first c (line ∷ lines) = (c ∷ line) ∷ lines

unfoldable pub split_lines : List ℕ → List (List ℕ)
split_lines [] = []
split_lines (c ∷ t) =
    let lines = split_lines t in
    if c == 13 && next_is_feed t
    then lines
    else if is_boundary c
    then [] ∷ lines
    else onto_first c lines

abbrev is_blank : List ℕ → Bool
is_blank [] = true
is_blank (c ∷ t) = false

-- `[line for line in lines if line.strip()]`
unfoldable pub solid_lines : List (List ℕ) → List (List ℕ)
solid_lines [] = []
solid_lines (line ∷ lines) =
    let rest = solid_lines lines in if is_blank (strip line) then rest else line ∷ rest
