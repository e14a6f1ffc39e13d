-- ===== src/Compat/Coerce.antt =====
-- packages/testoperations/src/testoperations/_compat.py: an operation's parameter that takes a member
-- of an enum and, for the deprecation period, a plain text.
use testprotocols.Prelude.{ℕ, Bool, true, false, List, [], ◌∷◌, Option, none, some, if◌then◌else◌}
use testprotocols.Prelude.Int.{ℤ, eqb_ℤ}
use testprotocols.Prelude.Text.Split.{text_eq}
use testprotocols.Exec.{Action, pure, raise, ◌>>=◌, ◌>>◌}
use testprotocols.Exec.Failure.{value_error, type_error}

-- An enum's members in the order of its definition, with the value of each: texts, or the numbers of
-- an `IntEnum`.
pub data EnumType (E : Type 0) : Type 0 where
  str_enum : List (List ℕ × E) → EnumType E
  int_enum : List (ℤ × E) → EnumType E

-- What a caller passes: a member, a text (and whether it is the `ReleasedDefault` of a parameter that
-- was left out), an `int`, or anything else, a `bool` and a `float` too.
pub data Given (E : Type 0) : Type 0 where
  member_given : E → Given E
  text_given : (text : List ℕ) → (is_default : Bool) → Given E
  int_given : ℤ → Given E
  other_given : Given E

module _ {E : Type 0} where
  -- `enum_type(given)`
  unfoldable pub of_text : List ℕ → List (List ℕ × E) → Option E
  of_text text [] = none
  of_text text ((value, e) ∷ members) =
      let rest = of_text text members in if text_eq value text then some e else rest

  unfoldable pub of_int : ℤ → List (ℤ × E) → Option E
  of_int n [] = none
  of_int n ((value, e) ∷ members) =
      let rest = of_int n members in if eqb_ℤ value n then some e else rest

  abbrev pub member_or_raise : {W : Type 0} → Option E → Action W E
  member_or_raise (some e) = pure e
  member_or_raise none = raise value_error

  -- `warn` is `warnings.warn`, which a filter may turn into a raise.
  abbrev pub warned_unless : {W : Type 0} → Action W (Unit {0}) → Bool → E → Action W E
  warned_unless warn true e = pure e
  warned_unless warn false e = warn >> pure e

  unfoldable pub coerce_enum :
      {W : Type 0} → Action W (Unit {0}) → EnumType E → Given E → Action W E
  unfolding of_text of_int
  coerce_enum warn enum_type (member_given e) = pure e
  coerce_enum warn (str_enum members) (text_given text is_default) = do
    e ← member_or_raise (of_text text members)
    warned_unless warn is_default e
  coerce_enum warn (int_enum members) (text_given text is_default) = raise value_error
  coerce_enum warn (str_enum members) (int_given n) = raise type_error
  coerce_enum warn (int_enum members) (int_given n) = member_or_raise (of_int n members)
  coerce_enum warn enum_type other_given = raise type_error
