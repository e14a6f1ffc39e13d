-- ===== src/Prelude/Text/Split.antt =====
-- `str.split` and `str.partition` by one character, and how they read texts that were joined.
use testprotocols.Prelude.{
  ℕ, ◌==◌, ==_iff, ◌≡◌, refl, ap, ◌∙◌, Bool, true, false, ◌&&◌, Option, none, some, List, [], ◌∷◌,
  ◌++◌, All, if◌then◌else◌, arith,
}
use testprotocols.Prelude.Text.{is_space, skip_space, cons_stripped, rstrip, strip}

abbrev pub text_eq : List ℕ → List ℕ → Bool
text_eq [] [] = true
text_eq (x ∷ xs) (y ∷ ys) = x == y && text_eq xs ys
text_eq _ _ = false

pub text_eq_sound : (s t : List ℕ) → text_eq s t ≡ true → s ≡ t
text_eq_sound [] [] h = refl
text_eq_sound (x ∷ s) (y ∷ t) h =
    ap (λ z. z ∷ s) ((==_iff x y).0 (ground arith))
    ∙ ap (λ u. y ∷ u) (text_eq_sound s t (ground arith))
text_eq_sound [] (y ∷ t) h = cc
text_eq_sound (x ∷ s) [] h = cc

pub text_eq_refl : (t : List ℕ) → text_eq t t ≡ true
text_eq_refl [] = refl
text_eq_refl (c ∷ t) = rw ((==_iff c c).1 refl, text_eq_refl t) refl

-- `text.split(c)`: the first item and the others, as there is always one.
unfoldable pub split_at : ℕ → List ℕ → List ℕ × List (List ℕ)
split_at c [] = ([], [])
split_at c (d ∷ t) =
    let (item, items) = split_at c t in if d == c then ([], item ∷ items) else (d ∷ item, items)

-- `text.partition(c)`, with `none` where there is no `c`.
unfoldable pub partition_at : ℕ → List ℕ → List ℕ × Option (List ℕ)
partition_at c [] = ([], none)
partition_at c (d ∷ t) =
    let (head, rest) = partition_at c t in if d == c then ([], some t) else (d ∷ head, rest)

abbrev pub Lacks : ℕ → List ℕ → Type 0
Lacks c = All (λ d. (d == c) ≡ false)

pub split_at-last : (c : ℕ) (t : List ℕ) → Lacks c t → split_at c t ≡ (t, [])
unfolding split_at
split_at-last c [] h = refl
split_at-last c (d ∷ t) h = rw (split_at-last c t h.1, h.0)

pub split_at-append :
    (c : ℕ) (t rest : List ℕ)
    → Lacks c t
    → split_at c (t ++ c ∷ rest) ≡ (t, (split_at c rest).0 ∷ (split_at c rest).1)
unfolding split_at
split_at-append c [] rest h = rw ((==_iff c c).1 refl)
split_at-append c (d ∷ t) rest h = rw (split_at-append c t rest h.1, h.0)

pub partition_at-none : (c : ℕ) (t : List ℕ) → Lacks c t → partition_at c t ≡ (t, none)
unfolding partition_at
partition_at-none c [] h = refl
partition_at-none c (d ∷ t) h = rw (partition_at-none c t h.1, h.0)

pub partition_at-append :
    (c : ℕ) (t rest : List ℕ) → Lacks c t → partition_at c (t ++ c ∷ rest) ≡ (t, some rest)
unfolding partition_at
partition_at-append c [] rest h = rw ((==_iff c c).1 refl)
partition_at-append c (d ∷ t) rest h = rw (partition_at-append c t rest h.1, h.0)

abbrev pub AreBlank : List ℕ → Type 0
AreBlank = All (λ c. is_space c ≡ true)

abbrev pub AreSolid : List ℕ → Type 0
AreSolid = All (λ c. is_space c ≡ false)

skip_space-append : (pad t : List ℕ) → AreBlank pad → skip_space (pad ++ t) ≡ skip_space t
unfolding skip_space
skip_space-append [] t h = refl
skip_space-append (c ∷ pad) t h = rw h.0 (skip_space-append pad t h.1)

skip_space-solid : (c : ℕ) (t : List ℕ) → is_space c ≡ false → skip_space (c ∷ t) ≡ c ∷ t
unfolding skip_space
skip_space-solid c t h = rw h

rstrip-blank : (pad : List ℕ) → AreBlank pad → rstrip pad ≡ []
unfolding rstrip cons_stripped
rstrip-blank [] h = refl
rstrip-blank (c ∷ pad) h = rw (rstrip-blank pad h.1, h.0)

cons_stripped-solid : (c : ℕ) (t : List ℕ) → is_space c ≡ false → cons_stripped c t ≡ c ∷ t
unfolding cons_stripped
cons_stripped-solid c [] h = rw h
cons_stripped-solid c (d ∷ t) h = refl

rstrip-append : (t pad : List ℕ) → AreSolid t → AreBlank pad → rstrip (t ++ pad) ≡ t
unfolding rstrip
rstrip-append [] pad h k = rstrip-blank pad k
rstrip-append (c ∷ t) pad h k = rw (rstrip-append t pad h.1 k) (cons_stripped-solid c t h.0)

pub strip-padded :
    (before after : List ℕ) (c : ℕ) (t : List ℕ)
    → AreBlank before
    → AreBlank after
    → AreSolid (c ∷ t)
    → strip (before ++ (c ∷ t ++ after)) ≡ c ∷ t
unfolding strip
strip-padded before after c t hb ha hs =
    ap rstrip (skip_space-append before (c ∷ t ++ after) hb ∙ skip_space-solid c (t ++ after) hs.0)
    ∙ rstrip-append (c ∷ t) after hs ha
