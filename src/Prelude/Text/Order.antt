-- ===== src/Prelude/Text/Order.antt =====
-- The order of texts by their code points, as `<=` of `str`.
use Prim.Native.String.{same}
use testprotocols.Prelude.{
  ℕ, ◌≡◌, refl, ap, ◌∙◌, Bool, true, false, List, [], ◌∷◌, arith, ltb, ◌==◌, if◌then◌else◌,
}

unfoldable pub text_leb : List ℕ → List ℕ → Bool
text_leb [] t = true
text_leb (x ∷ s) [] = false
text_leb (x ∷ s) (y ∷ t) = let rest = text_leb s t in if x == y then rest else ltb x y

pub text_leb_total : (s t : List ℕ) → text_leb s t ≡ false → text_leb t s ≡ true
unfolding text_leb
text_leb_total [] t h = cc
text_leb_total (x ∷ s) [] h = refl
text_leb_total (x ∷ s) (y ∷ t) h = ground (arith, h, text_leb_total s t)

pub text_leb_trans :
    (r s t : List ℕ) → text_leb r s ≡ true → text_leb s t ≡ true → text_leb r t ≡ true
unfolding text_leb
text_leb_trans [] s t h k = refl
text_leb_trans (x ∷ r) [] t h k = cc
text_leb_trans (x ∷ r) (y ∷ s) [] h k = cc
text_leb_trans (x ∷ r) (y ∷ s) (z ∷ t) h k = ground (arith, h, k, text_leb_trans r s t)

cons_antisym :
    (x y : ℕ) (s t : List ℕ)
    → x ≡ y
    → (if x == y then text_leb s t else ltb x y) ≡ true
    → (if y == x then text_leb t s else ltb y x) ≡ true
    → (text_leb s t ≡ true → text_leb t s ≡ true → s ≡ t)
    → x ∷ s ≡ y ∷ t
cons_antisym x y s t same h k rest =
    ap (λ z. z ∷ s) same
    ∙ ap (λ u. y ∷ u) (rest (ground (arith, same, h)) (ground (arith, same, k)))

pub text_leb_antisym : (s t : List ℕ) → text_leb s t ≡ true → text_leb t s ≡ true → s ≡ t
unfolding text_leb
text_leb_antisym [] [] h k = refl
text_leb_antisym [] (y ∷ t) h k = cc
text_leb_antisym (x ∷ s) [] h k = cc
text_leb_antisym (x ∷ s) (y ∷ t) h k =
    cons_antisym x y s t (ground (arith, h, k)) h k (text_leb_antisym s t)
