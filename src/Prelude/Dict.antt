-- ===== src/Prelude/Dict.antt =====
-- Python's dictionaries with texts as keys, as association lists in the order of insertion.
use Prim.Native.String.{String}
use mathlib.Core.List.{List, [], ◌∷◌}
use mathlib.Core.Bool.{Bool, true, false, ◌&&◌}
use mathlib.Core.Option.{Option, none, some}
use text.Mathlib.Text.{◌==◌ as str_eq}
use testprotocols.Prelude.Tests.{◌==◌, if◌then◌else◌}
use testprotocols.Prelude.Lists.{length}

-- `d[key] = value`: a key that is there keeps its place.
abbrev pub set_item : {A : Type 0} → String → A → List (String × A) → List (String × A)
set_item key value [] = (key, value) ∷ []
set_item key value ((k, v) ∷ d) =
    if str_eq k key then (k, value) ∷ d else (k, v) ∷ set_item key value d

-- `d.get(key)`
abbrev pub find_item : {A : Type 0} → String → List (String × A) → Option A
find_item key [] = none
find_item key ((k, v) ∷ d) = if str_eq k key then some v else find_item key d

-- `d == e`
abbrev has_item : {A : Type 0} → (A → A → Bool) → A → Option A → Bool
has_item same v none = false
has_item same v (some w) = same v w

abbrev pub items_in : {A : Type 0} → (A → A → Bool) → (d e : List (String × A)) → Bool
items_in same [] e = true
items_in same ((k, v) ∷ d) e = has_item same v (find_item k e) && items_in same d e

abbrev pub dict_eq : {A : Type 0} → (A → A → Bool) → (d e : List (String × A)) → Bool
dict_eq same d e = length d == length e && items_in same d e
