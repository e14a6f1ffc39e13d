-- ===== src/Captures/Placement/Located.antt =====
-- The path that a window locates the stream on.
use testprotocols.Prelude.{
  ℕ, ◌≤◌, ◌<◌, ◌≡◌, refl, ap, ◌⊎◌, inl, inr, Option, none, some, List, [], ◌∷◌, ◌++◌, arith, ltb,
  Bool-cases, All,
}
use testprotocols.Captures.Placement.{carrying, greatest, located_in}

abbrev PathCount : Type 0
PathCount = List ℕ × ℕ

-- `c` is the first of the greatest counts.
pub record IsFirstGreatest (c : PathCount) (counts : List PathCount) : Type 0 where
  pub before : List PathCount
  pub after : List PathCount
  pub occurs : counts ≡ before ++ c ∷ after
  pub above_before : All (λ d. d.1 < c.1) before
  pub above_after : All (λ d. d.1 ≤ c.1) after

-- The path located, by the counts of the stream on each path.
abbrev pub LocatedRight : List PathCount → Option (List ℕ) → Type 0
LocatedRight counts none = All (λ c. c.1 ≡ 0) counts
LocatedRight counts (some path) = (n : ℕ) × (0 < n) × IsFirstGreatest (path, n) counts

-- An entry in front that is less, and one that is at most the first greatest.
front_less :
    (b c : PathCount) (counts : List PathCount)
    → b.1 < c.1
    → IsFirstGreatest c counts
    → IsFirstGreatest c (b ∷ counts)
front_less b c counts h g = record {
  before = b ∷ g.before;
  after = g.after;
  occurs = ap (λ l. b ∷ l) g.occurs;
  above_before = (h, g.above_before);
  above_after = g.above_after;
}

Winner : PathCount → List PathCount → Type 0
Winner best counts =
    ((greatest best counts ≡ best) × All (λ d. d.1 ≤ best.1) counts)
    ⊎ ((best.1 < (greatest best counts).1) × IsFirstGreatest (greatest best counts) counts)

greatest-Winner : (best : PathCount) (counts : List PathCount) → Winner best counts
unfolding greatest Winner
greatest-Winner best [] = inl (refl, tt)
greatest-Winner best (c ∷ counts) = elim (Bool-cases (ltb best.1 c.1)) [
  | inl less ↦ rw less (
      inr (elim (greatest-Winner c counts) [
        | inl (same, most) ↦ (
          rw same (ground (arith, less)),
          rw same (record {
            before = [];
            after = counts;
            occurs = refl;
            above_before = tt;
            above_after = most;
          }),
        )
        | inr (above, g) ↦
            (ground (arith, less, above), front_less c (greatest c counts) counts above g)
      ]))
  | inr kept ↦ rw kept (elim (greatest-Winner best counts) [
    | inl (same, most) ↦ inl (same, (ground (arith, kept), most))
    | inr (above, g) ↦
        inr (above, front_less c (greatest best counts) counts (ground (arith, kept, above)) g)
  ])
]

greatest-carrying :
    (best : PathCount) (counts : List PathCount)
    → greatest best (carrying counts) ≡ greatest best counts
unfolding greatest carrying
greatest-carrying best [] = refl
greatest-carrying best ((path, n) ∷ counts) = elim (Bool-cases (ltb 0 n)) [
  | inl some_frames ↦
      rw (some_frames, greatest-carrying best counts, greatest-carrying (path, n) counts) refl
  | inr no_frames ↦ rw (no_frames, greatest-carrying best counts) (ground arith)
]

zero_front :
    (path : List ℕ) (n : ℕ) (counts : List PathCount) (o : Option (List ℕ))
    → n ≡ 0
    → LocatedRight counts o
    → LocatedRight ((path, n) ∷ counts) o
zero_front path n counts none h k = (h, k)
zero_front path n counts (some p) h (m, positive, g) =
    (m, positive, front_less (path, n) (p, m) counts (omega (arith, h)) g)

first_of_All :
    (c : PathCount) (counts : List PathCount)
    → All (λ d. d.1 ≤ c.1) counts
    → IsFirstGreatest c (c ∷ counts)
first_of_All c counts most = record {
  before = [];
  after = counts;
  occurs = refl;
  above_before = tt;
  above_after = most;
}

Winner-first :
    (c : PathCount) (counts : List PathCount)
    → 0 < c.1
    → Winner c counts
    → LocatedRight (c ∷ counts) (some (greatest c counts).0)
unfolding Winner
Winner-first c counts h (inl (same, most)) = rw same (c.1, h, first_of_All c counts most)
Winner-first c counts h (inr (above, g)) = (
  (greatest c counts).1,
  omega (arith, h, above),
  front_less c (greatest c counts) counts above g,
)

-- `located_in` names the path with the greatest positive count, the first of them in the order of the
-- paths, and no path exactly where no path carried a frame.
pub located_in-LocatedRight : (counts : List PathCount) → LocatedRight counts (located_in counts)
unfolding located_in carrying
located_in-LocatedRight [] = tt
located_in-LocatedRight ((path, n) ∷ counts) = elim (Bool-cases (ltb 0 n)) [
  | inl some_frames ↦
      rw (some_frames, greatest-carrying (path, n) counts)
        (Winner-first (path, n) counts (ground arith) (greatest-Winner (path, n) counts))
  | inr no_frames ↦
      rw no_frames (
        zero_front path n counts (located_in counts) (ground arith)
          (located_in-LocatedRight counts))
]
