-- ===== src/Released.antt =====
-- packages/testoperations/src/testoperations/_released.py: a record that replaces a released dict, and
-- the dict's operations on it, which warn.
pub mod Conversion
mod Examples
use testprotocols.Prelude.{
  ℕ, String, Bool, true, false, ◌&&◌, Option, none, some, List, [], ◌∷◌, map, ◌==◌, length,
  find_item, dict_eq,
}
use testprotocols.Exec.{Action, pure, raise, ◌>>=◌, ◌>>◌}
use testprotocols.Exec.Failure.{key_error}

-- The uses that `_warn` names.
pub data ReleasedUse : Type 0 where
  as_dict_call indexing get_call keys_call items_call values_call len_call iteration in_test
        dict_comparison :
      ReleasedUse

-- The right side of `==`: a `Mapping`, a record of the same type, or something else.
pub data Other (R V : Type 0) : Type 0 where
  mapping : List (String × V) → Other R V
  same_type : R → Other R V
  another : Other R V

abbrev pub item_or_raise : {W V : Type 0} → Option V → Action W V
item_or_raise (some value) = pure value
item_or_raise none = raise key_error

-- Of two records of one type the fields are compared in order.
abbrev pub all_fields : {V : Type 0} → (V → V → Bool) → List V → List V → Bool
all_fields same [] ws = true
all_fields same (v ∷ vs) [] = true
all_fields same (v ∷ vs) (w ∷ ws) = same v w && all_fields same vs ws

-- `warn` is `self._warn`, which a filter may turn into a raise; `released` is the subclass's
-- `_released`, `fields_of` its fields in order, `same` the `==` of the values.
module _ {W R V : Type 0} (warn : ReleasedUse → Action W (Unit {0}))
    (released : R → List (String × V)) where
  unfoldable pub as_dict : R → Action W (List (String × V))
  as_dict self = warn as_dict_call >> pure (released self)

  unfoldable pub getitem : R → String → Action W V
  getitem self key = warn indexing >> item_or_raise (find_item key (released self))

  unfoldable pub get_default : R → String → (default : V) → Action W V
  get_default self key default =
      warn get_call
      >> pure (elim (find_item key (released self)) [ some value ↦ value | none ↦ default ])

  unfoldable pub keys : R → Action W (List String)
  keys self = warn keys_call >> pure (map (λ item. item.0) (released self))

  unfoldable pub items : R → Action W (List (String × V))
  items self = warn items_call >> pure (released self)

  unfoldable pub values : R → Action W (List V)
  values self = warn values_call >> pure (map (λ item. item.1) (released self))

  unfoldable pub len : R → Action W ℕ
  len self = warn len_call >> pure (length (released self))

  unfoldable pub iter : R → Action W (List String)
  iter self = warn iteration >> pure (map (λ item. item.0) (released self))

  unfoldable pub contains_key : R → String → Action W Bool
  contains_key self key =
      warn in_test
      >> pure (elim (find_item key (released self)) [ some value ↦ true | none ↦ false ])

  -- `none` is `NotImplemented`.
  unfoldable pub equals :
      (fields_of : R → List V) → (same : V → V → Bool) → R → Other R V → Action W (Option Bool)
  equals fields_of same self (mapping other) =
      warn dict_comparison >> pure (some (dict_eq same (released self) other))
  equals fields_of same self (same_type other) =
      pure (some (all_fields same (fields_of self) (fields_of other)))
  equals fields_of same self another = pure none
