-- ===== src/Released/Conversion.antt =====
-- Reading a record as the dict that it replaces: `dict(record)` and `**record` ask for the keys and
-- then read each value by its key.
use testprotocols.Prelude.{
  ℕ, zero, suc, String, ◌≡◌, refl, ap, ◌∙◌, false, some, List, [], ◌∷◌, map, eq_refl, str_eq,
  length, All, find_item,
}
use testprotocols.Exec.{Outcome, ret, exc, out_of_fuel, Action, pure, continue, ◌>>=◌, ◌>>◌}
use testprotocols.Released.{ReleasedUse, keys_call, indexing, keys, getitem, item_or_raise}

-- A dict has no key twice.
abbrev pub KeysDistinct : {V : Type 0} → List (String × V) → Type 0
KeysDistinct [] = Unit
KeysDistinct ((k, v) ∷ d) = All (λ item. str_eq k item.0 ≡ false) d × KeysDistinct d

module _ {W R V : Type 0} (warn : ReleasedUse → Action W (Unit {0}))
    (released : R → List (String × V)) where
  abbrev pub read_items : R → List String → Action W (List (String × V))
  read_items self [] = pure []
  read_items self (k ∷ ks) = do
    value ← getitem warn released self k
    rest ← read_items self ks
    pure ((k, value) ∷ rest)

  -- `dict(self)`
  abbrev pub dict_of : R → Action W (List (String × V))
  dict_of self = do ks ← keys warn released self; read_items self ks

  abbrev pub warned_reads : ℕ → Action W (List (String × V)) → Action W (List (String × V))
  warned_reads zero action = action
  warned_reads (suc n) action = warn indexing >> warned_reads n action

  abbrev Found : R → List (String × V) → Type 0
  Found self = All (λ item. find_item item.0 (released self) ≡ some item.1)

  -- a warning's outcome `r`, then the rest
  continue-ap :
      {A : Type 0} (f g : Action W A)
      → ((w : W) → f w ≡ g w)
      → (r : Outcome (Unit {0})) (w : W) → continue r (λ _. f) w ≡ continue r (λ _. g) w
  continue-ap f g h (ret _) w = h w
  continue-ap f g h (exc e) w = refl
  continue-ap f g h out_of_fuel w = refl

  -- `(r >> m) >>= f`
  then_assoc :
      {A B : Type 0} (m : Action W A) (f : A → Action W B) (r : Outcome (Unit {0})) (w : W)
      → ◌>>=◌ (continue r (λ _. m)) f w ≡ continue r (λ _. m >>= f) w
  then_assoc m f (ret _) w = refl
  then_assoc m f (exc e) w = refl
  then_assoc m f out_of_fuel w = refl

  -- A warning that comes before `m`, and what follows `m`.
  warned_then :
      {A B : Type 0} (use' : ReleasedUse) (m : Action W A) (f : A → Action W B) (g : Action W B)
      → ((w : W) → (m >>= f) w ≡ g w)
      → (w : W) → ((warn use' >> m) >>= f) w ≡ (warn use' >> g) w
  warned_then use' m f g h w =
      let (r, w') = warn use' w in then_assoc m f r w' ∙ continue-ap (m >>= f) g h r w'

  warned_reads-map :
      (n : ℕ) (d : List (String × V)) (f : List (String × V) → List (String × V)) (w : W)
      → (warned_reads n (pure d) >>= λ rest. pure (f rest)) w ≡ warned_reads n (pure (f d)) w
  warned_reads-map zero d f w = refl
  warned_reads-map (suc n) d f w =
      warned_then indexing (warned_reads n (pure d)) (λ rest. pure (f rest))
        (warned_reads n (pure (f d))) (warned_reads-map n d f) w

  read_items-Found :
      (self : R) (d : List (String × V))
      → Found self d
      → (w : W) → read_items self (map (λ item. item.0) d) w ≡ warned_reads (length d) (pure d) w
  unfolding getitem
  read_items-Found self [] h w = refl
  read_items-Found self ((k, v) ∷ d) h w =
      warned_then indexing (item_or_raise (find_item k (released self)))
        (λ value. read_items self (map (λ item. item.0) d) >>= λ rest. pure ((k, value) ∷ rest))
        (warned_reads (length d) (pure ((k, v) ∷ d)))
        (λ w'. rw h.0 (
          ap (λ (r, w''). continue r (λ rest. pure ((k, v) ∷ rest)) w'')
            (read_items-Found self d h.1 w')
          ∙ warned_reads-map (length d) d (λ rest. (k, v) ∷ rest) w'))
        w

find_item_behind :
    {V : Type 0} (k : String) (v : V) (d e : List (String × V))
    → All (λ item. str_eq k item.0 ≡ false) e
    → All (λ item. find_item item.0 d ≡ some item.1) e
    → All (λ item. find_item item.0 ((k, v) ∷ d) ≡ some item.1) e
find_item_behind k v d [] distinct found = tt
find_item_behind k v d (item ∷ e) distinct found =
    (rw distinct.0 found.0, find_item_behind k v d e distinct.1 found.1)

-- In a dict with distinct keys each item is found by its key.
find_item-KeysDistinct :
    {V : Type 0} (d : List (String × V))
    → KeysDistinct d
    → All (λ item. find_item item.0 d ≡ some item.1) d
find_item-KeysDistinct [] h = tt
find_item-KeysDistinct ((k, v) ∷ d) h =
    (rw (eq_refl k) refl, find_item_behind k v d d h.0 (find_item-KeysDistinct d h.1))

module _ {W R V : Type 0} (warn : ReleasedUse → Action W (Unit {0}))
    (released : R → List (String × V)) where
  -- For a record whose released dict has no key twice, `dict(record)` does what `keys()` warns, warns once
  -- for each key, and returns the released dict; a warning that raises ends it there.
  pub dict_of-released :
      (self : R)
      → KeysDistinct (released self)
      → (w : W)
      → dict_of warn released self w
        ≡ (warn keys_call
              >> warned_reads warn released (length (released self)) (pure (released self)))
            w
  unfolding keys
  dict_of-released self h =
      warned_then warn released keys_call (pure (map (λ item. item.0) (released self)))
        (read_items warn released self)
        (warned_reads warn released (length (released self)) (pure (released self)))
        (read_items-Found warn released self (released self)
          (find_item-KeysDistinct (released self) h))
