-- ===== src/Captures/Marking/Histogram.antt =====
-- A flow's histogram counts each frame once.
use testprotocols.Prelude.{
  ℕ, suc, sym, ◌+◌, ◌≡◌, refl, ◌∙◌, inl, inr, Bool, true, false, ◌||◌, Option, none, some, List, [],
  ◌∷◌, arith, if◌then◌else◌, Bool-cases, Option-cases,
}
use testprotocols.Captures.Marking.Outermost.{outermost_dscp, line_dscp-outermost_dscp}
use testprotocols.Captures.Marking.{
  column, dscp_int, outermost, columns_dscp, line_dscp, count_value, count_if, fill_histogram,
  codes,
}
use testprotocols.Exec.{Outcome, ret, exc, out_of_fuel}
use testprotocols.Prelude.Int.{ℤ, eqb_ℤ, eqb_ℤ→eq}
use testprotocols.Prelude.Text.Numeral.{int_of_text}
use testprotocols.Prelude.Text.Split.{split_at, text_eq}
use testprotocols.Exec.Takes.{Ends}

-- `histogram.get(value, 0)`
abbrev pub count_at : ℤ → List (ℤ × ℕ) → ℕ
count_at value [] = 0
count_at value ((v, n) ∷ histogram) = if eqb_ℤ v value then n else count_at value histogram

abbrev is_value : ℤ → Outcome (Option ℤ) → Bool
is_value value (ret (some v)) = eqb_ℤ v value
is_value value _ = false

-- The number of lines whose outermost DSCP is the value.
abbrev pub lines_with : ℤ → List (List ℕ) → ℕ
lines_with value [] = 0
lines_with value (line ∷ lines) =
    if is_value value (outermost_dscp line)
    then suc (lines_with value lines)
    else lines_with value lines

abbrev is_raised : {A : Type 0} → Outcome A → Bool
is_raised (exc e) = true
is_raised _ = false

-- A line has an outermost DSCP that is no number.
abbrev pub any_unreadable : List (List ℕ) → Bool
any_unreadable [] = false
any_unreadable (line ∷ lines) = is_raised (outermost_dscp line) || any_unreadable lines

-- What the loop over the lines makes of a histogram: each value is counted as often again as it occurs,
-- unless a line is unreadable.
abbrev pub Counted : List (ℤ × ℕ) → List (List ℕ) → Outcome (List (ℤ × ℕ)) → Type 0
Counted before lines (ret histogram) =
    (any_unreadable lines ≡ false)
    × ((value : ℤ) → count_at value histogram ≡ count_at value before + lines_with value lines)
Counted before lines (exc e) = any_unreadable lines ≡ true
Counted before lines out_of_fuel = ⊥

not_both :
    (u v w : ℤ) (n m : ℕ)
    → eqb_ℤ w v ≡ false
    → (if eqb_ℤ w u then n else (if eqb_ℤ v u then suc m else m))
      ≡ (if eqb_ℤ v u then suc (if eqb_ℤ w u then n else m) else (if eqb_ℤ w u then n else m))
not_both u v w n m h = ground arith

count_at-count_value :
    (u v : ℤ) (histogram : List (ℤ × ℕ))
    → count_at u (count_value v histogram)
      ≡ (if eqb_ℤ v u then suc (count_at u histogram) else count_at u histogram)
unfolding count_value
count_at-count_value u v [] = refl
count_at-count_value u v ((w, n) ∷ histogram) = elim (Bool-cases (eqb_ℤ w v)) [
  | inl same ↦ rw same (
      rw (eqb_ℤ→eq w v same)
        (elim (Bool-cases (eqb_ℤ v u)) [ inl e ↦ rw e refl | inr e ↦ rw e refl ]))
  | inr other ↦
      rw (other, count_at-count_value u v histogram) (not_both u v w n (count_at u histogram) other)
]

dscp_int-Ends : (text : List ℕ) → Ends (dscp_int text)
dscp_int-Ends text = elim (Option-cases (int_of_text text)) [
  | inl e ↦ rw e tt
  | inr (n, e) ↦ rw e tt
]

outermost-Ends : (v4 v6 : List ℕ) (tokens : List (List ℕ)) → Ends (outermost v4 v6 tokens)
unfolding outermost
outermost-Ends v4 v6 [] = dscp_int-Ends v4
outermost-Ends v4 v6 (token ∷ tokens) = elim (Bool-cases (text_eq token (codes "ip"))) [
  | inl e ↦ rw e (dscp_int-Ends v4)
  | inr e ↦ rw e (elim (Bool-cases (text_eq token (codes "ipv6"))) [
    | inl k ↦ rw k (dscp_int-Ends v6)
    | inr k ↦ rw k (outermost-Ends v4 v6 tokens)
  ])
]

columns_dscp-Ends : (v4 v6 protocols : List ℕ) → Ends (columns_dscp v4 v6 protocols)
unfolding columns_dscp
columns_dscp-Ends [] [] protocols = tt
columns_dscp-Ends [] (c ∷ v6) protocols = dscp_int-Ends (c ∷ v6)
columns_dscp-Ends (c ∷ v4) [] protocols = dscp_int-Ends (c ∷ v4)
columns_dscp-Ends (c ∷ v4) (d ∷ v6) protocols =
    outermost-Ends (c ∷ v4) (d ∷ v6) ((split_at b':' protocols).0 ∷ (split_at b':' protocols).1)

-- The loop behind a line that was read.
abbrev fill_line : List (ℤ × ℕ) → List (List ℕ) → Outcome (Option ℤ) → Outcome (List (ℤ × ℕ))
fill_line before lines o = elim o [
  | ret value ↦ fill_histogram (count_if value before) lines
  | exc e ↦ exc e
  | out_of_fuel ↦ out_of_fuel
]

line_dscp-Ends : (line : List ℕ) → Ends (line_dscp line)
unfolding line_dscp
line_dscp-Ends line =
    let parts = (split_at 9 line).0 ∷ (split_at 9 line).1 in
    columns_dscp-Ends (column 0 parts) (column 1 parts) (column 2 parts)

Counted-none :
    (before : List (ℤ × ℕ)) (line : List ℕ) (lines : List (List ℕ)) (r : Outcome (List (ℤ × ℕ)))
    → outermost_dscp line ≡ ret none
    → Counted before lines r
    → Counted before (line ∷ lines) r
Counted-none before line lines (ret h) e k = rw e k
Counted-none before line lines (exc x) e k = rw e k
Counted-none before line lines out_of_fuel e k = k

moved :
    (v u : ℤ) (c l d : ℕ)
    → d ≡ (if eqb_ℤ v u then suc c else c)
    → d + l ≡ c + (if eqb_ℤ v u then suc l else l)
moved v u c l d h = elim (Bool-cases (eqb_ℤ v u)) [
  | inl e ↦ rw (h, e) (omega arith)
  | inr e ↦ rw (h, e) refl
]

Counted-some :
    (before : List (ℤ × ℕ)) (v : ℤ) (line : List ℕ) (lines : List (List ℕ))
    (r : Outcome (List (ℤ × ℕ)))
    → outermost_dscp line ≡ ret (some v)
    → Counted (count_value v before) lines r
    → Counted before (line ∷ lines) r
Counted-some before v line lines (ret h) e k = rw e (
  k.0,
  λ u.
      k.1 u
      ∙ moved v u (count_at u before) (lines_with u lines) (count_at u (count_value v before))
          (count_at-count_value u v before),
)
Counted-some before v line lines (exc x) e k = rw e k
Counted-some before v line lines out_of_fuel e k = k

Counted-line :
    (before : List (ℤ × ℕ)) (line : List ℕ) (lines : List (List ℕ)) (o : Outcome (Option ℤ))
    → outermost_dscp line ≡ o
    → Ends o
    → ((h : List (ℤ × ℕ)) → Counted h lines (fill_histogram h lines))
    → Counted before (line ∷ lines) (fill_line before lines o)
Counted-line before line lines (ret none) e h k =
    Counted-none before line lines (fill_histogram before lines) e (k before)
Counted-line before line lines (ret (some v)) e h k =
    Counted-some before v line lines (fill_histogram (count_value v before) lines) e
      (k (count_value v before))
Counted-line before line lines (exc x) e h k = rw e refl
Counted-line before line lines out_of_fuel e h k = h

-- Over the lines of a flow, the loop ends with a histogram that has each value as often as lines have it
-- as their outermost DSCP (that of the one family that has one, or where both have, IPv6 exactly if it
-- comes first in the protocol chain), or raises where one of the lines has an outermost DSCP that is no
-- number.
pub fill_histogram-Counted :
    (before : List (ℤ × ℕ)) (lines : List (List ℕ))
    → Counted before lines (fill_histogram before lines)
unfolding fill_histogram
fill_histogram-Counted before [] = (refl, λ value. omega arith)
fill_histogram-Counted before (line ∷ lines) =
    Counted-line before line lines (line_dscp line) (sym (line_dscp-outermost_dscp line))
      (line_dscp-Ends line) (λ h. fill_histogram-Counted h lines)
