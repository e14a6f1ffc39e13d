-- ===== src/Captures/Marking/Outermost.antt =====
-- The outermost DSCP of a line, told independently of the code's walk over the protocol chain.
use testprotocols.Prelude.{
  ℕ, zero, suc, ◌≡◌, refl, sym, ◌∙◌, inl, inr, Bool, true, false, Option, none, some, List, [], ◌∷◌,
  arith, ltb, if◌then◌else◌, Bool-cases, Option-cases,
}
use testprotocols.Captures.{codes}
use testprotocols.Captures.Marking.{column, dscp_int, outermost, columns_dscp, line_dscp}
use testprotocols.Exec.{Outcome, ret, exc}
use testprotocols.Exec.Failure.{value_error}
use testprotocols.Prelude.Int.{ℤ}
use testprotocols.Prelude.Text.{strip, skip_space, rstrip}
use testprotocols.Prelude.Text.Numeral.{int_of_text}
use testprotocols.Prelude.Text.Split.{split_at, text_eq}

-- The element at a position, empty beyond the end.
abbrev entry_at : ℕ → List (List ℕ) → List ℕ
entry_at n [] = []
entry_at zero (x ∷ xs) = x
entry_at (suc n) (x ∷ xs) = entry_at n xs

-- The index of a token, the length of the list where it is missing.
abbrev index_of : List ℕ → List (List ℕ) → ℕ
index_of token [] = 0
index_of token (t ∷ tokens) = if text_eq t token then 0 else suc (index_of token tokens)

-- Whether the protocol chain has an IPv6 header in front of every IPv4 header.
abbrev v6_is_outermost : List ℕ → Bool
v6_is_outermost protocols =
    let tokens = (split_at b':' protocols).0 ∷ (split_at b':' protocols).1 in
    ltb (index_of (codes "ipv6") tokens) (index_of (codes "ip") tokens)

-- The text of the outermost DSCP: that of the one column that is filled, and where both are, that of
-- the outermost header's family.
abbrev outermost_text : (v4 v6 protocols : List ℕ) → Option (List ℕ)
outermost_text [] [] protocols = none
outermost_text [] (d ∷ v6) protocols = some (d ∷ v6)
outermost_text (c ∷ v4) [] protocols = some (c ∷ v4)
outermost_text (c ∷ v4) (d ∷ v6) protocols =
    some (if v6_is_outermost protocols then d ∷ v6 else c ∷ v4)

abbrev number_or_raise : Option ℤ → Outcome (Option ℤ)
number_or_raise none = exc value_error
number_or_raise (some n) = ret (some n)

abbrev number_of : Option (List ℕ) → Outcome (Option ℤ)
number_of none = ret none
number_of (some text) = number_or_raise (int_of_text text)

-- The outermost DSCP of a line of three columns that tabs part: the IPv4 DSCP, the IPv6 DSCP and the
-- protocol chain.
abbrev pub outermost_dscp : List ℕ → Outcome (Option ℤ)
outermost_dscp line =
    let columns = (split_at 9 line).0 ∷ (split_at 9 line).1 in
    number_of (
      outermost_text (strip (entry_at 0 columns)) (strip (entry_at 1 columns))
        (strip (entry_at 2 columns)))

column-entry_at : (n : ℕ) (parts : List (List ℕ)) → column n parts ≡ strip (entry_at n parts)
column-entry_at n [] = unfold strip skip_space rstrip in refl
column-entry_at zero (part ∷ parts) = refl
column-entry_at (suc n) (part ∷ parts) = column-entry_at n parts

none_less : (n : ℕ) → ltb n 0 ≡ false
none_less n = ground arith

zero_less : (n : ℕ) → ltb 0 (suc n) ≡ true
zero_less n = ground arith

suc_less : (m n : ℕ) → ltb (suc m) (suc n) ≡ ltb m n
suc_less m n = ground arith

chosen :
    (v4 v6 : List ℕ) (a b : Bool)
    → a ≡ b
    → dscp_int (if a then v6 else v4) ≡ dscp_int (if b then v6 else v4)
chosen v4 v6 a b h = rw h

dscp_int-number_of : (text : List ℕ) → dscp_int text ≡ number_of (some text)
dscp_int-number_of text = elim (Option-cases (int_of_text text)) [
  | inl e ↦ rw e refl
  | inr (n, e) ↦ rw e refl
]

outermost-index_of :
    (v4 v6 : List ℕ) (tokens : List (List ℕ))
    → outermost v4 v6 tokens
      ≡ dscp_int
          (if ltb (index_of (codes "ipv6") tokens) (index_of (codes "ip") tokens) then v6 else v4)
unfolding outermost
outermost-index_of v4 v6 [] = refl
outermost-index_of v4 v6 (token ∷ tokens) = elim (Bool-cases (text_eq token (codes "ip"))) [
  | inl e ↦ rw e (chosen v4 v6 false _ (sym (none_less _)))
  | inr e ↦ rw e (elim (Bool-cases (text_eq token (codes "ipv6"))) [
    | inl k ↦ rw k (chosen v4 v6 true _ (sym (zero_less _)))
    | inr k ↦ rw k (
        outermost-index_of v4 v6 tokens
        ∙ chosen v4 v6 _ _
            (sym (suc_less (index_of (codes "ipv6") tokens) (index_of (codes "ip") tokens))))
  ])
]

columns_dscp-number_of :
    (v4 v6 protocols : List ℕ)
    → columns_dscp v4 v6 protocols ≡ number_of (outermost_text v4 v6 protocols)
unfolding columns_dscp
columns_dscp-number_of [] [] protocols = refl
columns_dscp-number_of [] (d ∷ v6) protocols = dscp_int-number_of (d ∷ v6)
columns_dscp-number_of (c ∷ v4) [] protocols = dscp_int-number_of (c ∷ v4)
columns_dscp-number_of (c ∷ v4) (d ∷ v6) protocols =
    outermost-index_of (c ∷ v4) (d ∷ v6) ((split_at b':' protocols).0 ∷ (split_at b':' protocols).1)
    ∙ dscp_int-number_of (if v6_is_outermost protocols then d ∷ v6 else c ∷ v4)

pub line_dscp-outermost_dscp : (line : List ℕ) → line_dscp line ≡ outermost_dscp line
unfolding line_dscp
line_dscp-outermost_dscp line =
    let parts = (split_at 9 line).0 ∷ (split_at 9 line).1 in
    rw (column-entry_at 0 parts, column-entry_at 1 parts, column-entry_at 2 parts)
      (columns_dscp-number_of (strip (entry_at 0 parts)) (strip (entry_at 1 parts))
        (strip (entry_at 2 parts)))
