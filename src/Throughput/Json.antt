-- ===== src/Throughput/Json.antt =====
-- The JSON values of throughput.py, and its narrowers.
use testprotocols.Exec.{Outcome, ret, exc}
use testprotocols.Exec.Failure.{overflow_error}
use testprotocols.Prelude.Int.{ℤ}
use testprotocols.Prelude.{
  ℕ, Bool, Option, none, some, String, str_eq, List, [], ◌∷◌, if◌then◌else◌,
}

-- Floating point as the source uses it: a parameter, since the language here has no floats.
pub record Floating : Type 1 where
  pub F : Type 0
  pub of_ℕ : ℕ → F
  -- `float(n)`, and nothing where the number is too large for a float.
  pub of_ℤ : ℤ → Option F
  pub add : F → F → F
  pub div : F → F → F
  pub lt : F → F → Bool
  -- `bool(x)` is whether `x` is not zero.
  pub is_zero : F → Bool
  -- `int(x)` raises for a value that is not finite.
  pub trunc : F → Outcome ℤ

-- `JsonValue`; `int` is a whole number and `num` a float. An object has each key once.
mutual
  pub data JsonValue (F : Type 0) : Type 0 where
    null : JsonValue F
    bool : Bool → JsonValue F
    int : ℤ → JsonValue F
    num : F → JsonValue F
    str : List ℕ → JsonValue F
    array : JsonArray F → JsonValue F
    object : JsonObj F → JsonValue F

  pub data JsonArray (F : Type 0) : Type 0 where
    nil : JsonArray F
    cons : JsonValue F → JsonArray F → JsonArray F

  pub data JsonObj (F : Type 0) : Type 0 where
    empty : JsonObj F
    entry : String → JsonValue F → JsonObj F → JsonObj F

module _ {F : Type 0} where
  -- `_obj`
  unfoldable pub obj : JsonValue F → JsonObj F
  obj (object o) = o
  obj _ = empty

  items : JsonArray F → List (JsonValue F)
  items nil = []
  items (cons v vs) = v ∷ items vs

  -- `_seq`
  unfoldable pub seq : JsonValue F → List (JsonValue F)
  unfolding items
  seq (array a) = items a
  seq _ = []

  abbrev pub float_or_raise : Option F → Outcome (Option F)
  float_or_raise none = exc overflow_error
  float_or_raise (some x) = ret (some x)

  -- `_num`; `float_of` is `float`.
  unfoldable pub num_of : (float_of : ℤ → Option F) → JsonValue F → Outcome (Option F)
  num_of float_of (int n) = float_or_raise (float_of n)
  num_of float_of (num x) = ret (some x)
  num_of float_of _ = ret none

  -- `o.get(key)`, with `null` for a missing key: the narrowers take `None` and a missing key alike.
  unfoldable pub get : String → JsonObj F → JsonValue F
  get k empty = null
  get k (entry j v o) = if str_eq j k then v else get k o
