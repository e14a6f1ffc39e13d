-- ===== src/Changelog/Published/Heading.antt =====
-- The forms of a version and of a section's heading, told independently of the code that matches them.
use testprotocols.Prelude.{
  ℕ, zero, suc, ◌≡◌, refl, sym, subst, ap, ◌∙◌, ◌≢◌, ◌⊎◌, inl, inr, true, Option, none, some, List,
  [], ◌∷◌, ◌++◌, arith, ◌==◌, ==_iff, Bool-cases, length,
}
use testprotocols.Prelude.Text.{codes, is_digit, span_digits}
use testprotocols.Prelude.Text.Decimal.{AreDigits}
use testprotocols.Changelog.{
  is_version, version_from, ends_version, is_heading_of, take_digits, and_then, dash, holds,
}
use testprotocols.Review.{after_prefix}

-- `n` numbers with points behind them and one more, and perhaps a line feed.
abbrev pub AreNumbers : ℕ → List ℕ → Type 0
AreNumbers zero t =
    (ds : List ℕ) × (tail : List ℕ) × (ds ≢ [])
    × AreDigits ds
    × (t ≡ ds ++ tail)
    × ((tail ≡ []) ⊎ (tail ≡ 10 ∷ []))
AreNumbers (suc n) t =
    (ds : List ℕ) × (rest : List ℕ) × (ds ≢ [])
    × AreDigits ds
    × (t ≡ ds ++ b'.' ∷ rest)
    × AreNumbers n rest

-- `n` digits.
abbrev pub Digits : ℕ → List ℕ → Type 0
Digits n ds = (length ds ≡ n) × AreDigits ds

-- `## [version] — YYYY-MM-DD` and any tail, with a dash or a hyphen.
pub record IsHeading (version line : List ℕ) : Type 0 where
  pub mark : ℕ
  pub year : List ℕ
  pub month : List ℕ
  pub day : List ℕ
  pub tail : List ℕ
  pub is_mark : (mark ≡ 0x2014) ⊎ (mark ≡ b'-')
  pub has_year : Digits 4 year
  pub has_month : Digits 2 month
  pub has_day : Digits 2 day
  pub written :
      line
      ≡ (codes "## [" ++ (version ++ codes "] "))
        ++ mark ∷ b' ' ∷ (year ++ b'-' ∷ (month ++ b'-' ∷ (day ++ tail)))

span_digits_lem :
    (t : List ℕ) → (t ≡ (span_digits t).0 ++ (span_digits t).1) × AreDigits (span_digits t).0
unfolding span_digits
span_digits_lem [] = (refl, tt)
span_digits_lem (c ∷ t) = elim (Bool-cases (is_digit c)) [
  | inl e ↦ rw e (ap (λ l. c ∷ l) (span_digits_lem t).0, (e, (span_digits_lem t).1))
  | inr e ↦ rw e (refl, tt)
]

cons-ne-nil : (c : ℕ) (t : List ℕ) → c ∷ t ≢ []
cons-ne-nil c t e = cc

ends_version_lem : (t : List ℕ) → ends_version t ≡ true → (t ≡ []) ⊎ (t ≡ 10 ∷ [])
ends_version_lem [] h = inl refl
ends_version_lem (c ∷ []) h = inr (ap (λ d. d ∷ []) ((==_iff c 10).0 h))
ends_version_lem (c ∷ d ∷ t) h = absurd (ground (arith, h))

version_from-AreNumbers :
    (n : ℕ) (t ds rest : List ℕ)
    → t ≡ ds ++ rest
    → AreDigits ds
    → version_from n (ds, rest) ≡ true
    → AreNumbers n t
version_from-AreNumbers zero t [] rest e k h = absurd (ground (arith, h))
version_from-AreNumbers (suc n) t [] rest e k h = absurd (ground (arith, h))
version_from-AreNumbers zero t (d ∷ ds) rest e k h =
    (d ∷ ds, rest, cons-ne-nil d ds, k, e, ends_version_lem rest h)
version_from-AreNumbers (suc n) t (d ∷ ds) [] e k h = absurd (ground (arith, h))
version_from-AreNumbers (suc n) t (d ∷ ds) (c ∷ rest) e k h =
    let point = (==_iff c b'.').0 (ground (arith, h)) in
    let (spans, digits) = span_digits_lem rest in
    (
      d ∷ ds,
      rest,
      cons-ne-nil d ds,
      k,
      rw point at e,
      version_from-AreNumbers n rest (span_digits rest).0 (span_digits rest).1 spans digits
          (ground (arith, h)),
    )

pub is_version-AreNumbers : (version : List ℕ) → is_version version ≡ true → AreNumbers 2 version
is_version-AreNumbers version h =
    let (spans, digits) = span_digits_lem version in
    version_from-AreNumbers 2 version (span_digits version).0 (span_digits version).1 spans digits h

pub after_prefix_sound : (p line t : List ℕ) → after_prefix p line ≡ some t → line ≡ p ++ t
after_prefix_sound [] line t h = cc
after_prefix_sound (c ∷ p) [] t h = cc
after_prefix_sound (c ∷ p) (d ∷ line) t h = elim (Bool-cases (c == d)) [
  | inl e ↦ rw ((==_iff c d).0 e) (ap (λ l. d ∷ l) (after_prefix_sound p line t (rw e at h)))
  | inr e ↦ cc (rw e at h)
]

after_prefix_complete : (p t : List ℕ) → after_prefix p (p ++ t) ≡ some t
after_prefix_complete [] t = refl
after_prefix_complete (c ∷ p) t = rw ((==_iff c c).1 refl) (after_prefix_complete p t)

take_digits_sound :
    (n : ℕ) (t r : List ℕ) → take_digits n t ≡ some r → (ds : List ℕ) × Digits n ds × (t ≡ ds ++ r)
take_digits_sound zero t r h = ([], (refl, tt), cc)
take_digits_sound (suc n) [] r h = cc
take_digits_sound (suc n) (c ∷ t) r h = elim (Bool-cases (is_digit c)) [
  | inl e ↦
      let (ds, (l, digits), k) = take_digits_sound n t r (rw e at h) in
      (c ∷ ds, (ap suc l, (e, digits)), ap (λ x. c ∷ x) k)
  | inr e ↦ cc (rw e at h)
]

take_digits_complete : (ds r : List ℕ) → AreDigits ds → take_digits (length ds) (ds ++ r) ≡ some r
take_digits_complete [] r h = refl
take_digits_complete (c ∷ ds) r h = rw h.0 (take_digits_complete ds r h.1)

and_then-some :
    (o : Option (List ℕ)) (f : List ℕ → Option (List ℕ)) (r : List ℕ)
    → and_then o f ≡ some r
    → (t : List ℕ) × (o ≡ some t) × (f t ≡ some r)
and_then-some none f r h = cc
and_then-some (some t) f r h = (t, refl, h)

holds-some : (o : Option (List ℕ)) → holds o ≡ true → (t : List ℕ) × (o ≡ some t)
holds-some none h = absurd (ground (arith, h))
holds-some (some t) h = (t, refl)

dash_sound :
    (t r : List ℕ)
    → dash t ≡ some r
    → (mark : ℕ) × ((mark ≡ 0x2014) ⊎ (mark ≡ b'-')) × (t ≡ mark ∷ r)
dash_sound [] r h = cc
dash_sound (c ∷ t) r h = elim (Bool-cases (c == 0x2014)) [
  | inl e ↦ (c, inl ((==_iff c 0x2014).0 e), ap (λ l. c ∷ l) (cc (rw e at h)))
  | inr e ↦ elim (Bool-cases (c == b'-')) [
    | inl k ↦ (c, inr ((==_iff c b'-').0 k), ap (λ l. c ∷ l) (cc (rw (e, k) at h)))
    | inr k ↦ cc (rw (e, k) at h)
  ]
]

dash_complete : (mark : ℕ) (t : List ℕ) → (mark ≡ 0x2014) ⊎ (mark ≡ b'-') → dash (mark ∷ t) ≡ some t
dash_complete mark t (inl e) = rw e refl
dash_complete mark t (inr e) = rw e refl

-- The digits, and the hyphen behind them.
part_sound :
    (n : ℕ) (t u : List ℕ)
    → and_then (take_digits n t) (after_prefix (codes "-")) ≡ some u
    → (ds : List ℕ) × Digits n ds × (t ≡ ds ++ b'-' ∷ u)
part_sound n t u h =
    let (r, taken, hyphen) = and_then-some (take_digits n t) (after_prefix (codes "-")) u h in
    let (ds, digits, e) = take_digits_sound n t r taken in
    (ds, digits, e ∙ ap (λ l. ds ++ l) (after_prefix_sound (codes "-") r u hyphen))

part_complete :
    (n : ℕ) (ds u : List ℕ)
    → Digits n ds
    → and_then (take_digits n (ds ++ b'-' ∷ u)) (after_prefix (codes "-")) ≡ some u
part_complete n ds u (l, digits) = rw (sym l, take_digits_complete ds (b'-' ∷ u) digits) refl

pub is_heading_of-IsHeading :
    (version line : List ℕ) → is_heading_of version line ≡ true → IsHeading version line
unfolding is_heading_of
is_heading_of-IsHeading version line h =
    let prefix = codes "## [" ++ (version ++ codes "] ") in
    let (r, whole) = holds-some _ h in
    let (t, spaced, dated) = and_then-some _ _ r whole in
    let (t1, dashed, space) = and_then-some _ _ t spaced in
    let (t0, opened, a_dash) = and_then-some _ _ t1 dashed in
    let (u, a_year, days) = and_then-some _ _ r dated in
    let (year, has_year, in_year) = part_sound 4 t u a_year in
    let (v, a_month, a_day) = and_then-some _ _ r days in
    let (month, has_month, in_month) = part_sound 2 u v a_month in
    let (day, has_day, in_day) = take_digits_sound 2 v r a_day in
    let (mark, is_mark, in_mark) = dash_sound t0 t1 a_dash in
    record {
      mark = mark;
      year = year;
      month = month;
      day = day;
      tail = r;
      is_mark = is_mark;
      has_year = has_year;
      has_month = has_month;
      has_day = has_day;
      written =
          after_prefix_sound prefix line t0 opened
          ∙ ap (λ l. prefix ++ l)
              (in_mark
                ∙ ap (λ l. mark ∷ l)
                    (after_prefix_sound (codes " ") t1 t space
                      ∙ ap (λ l. b' ' ∷ l)
                          (in_year
                            ∙ ap (λ l. year ++ b'-' ∷ l)
                                (in_month ∙ ap (λ l. month ++ b'-' ∷ l) in_day))));
    }

pub IsHeading-is_heading_of :
    (version line : List ℕ) → IsHeading version line → is_heading_of version line ≡ true
unfolding is_heading_of
IsHeading-is_heading_of version line h =
    let last = h.day ++ h.tail in
    let dated = h.year ++ b'-' ∷ (h.month ++ b'-' ∷ last) in
    rw
      (
        h.written,
        after_prefix_complete (codes "## [" ++ (version ++ codes "] ")) (h.mark ∷ b' ' ∷ dated),
        dash_complete h.mark (b' ' ∷ dated) h.is_mark,
        part_complete 4 h.year (h.month ++ b'-' ∷ last) h.has_year,
        part_complete 2 h.month last h.has_month,
      )
      (ap holds (
        subst (λ n. take_digits n last ≡ some h.tail) h.has_day.0
          (take_digits_complete h.day h.tail h.has_day.1)))
