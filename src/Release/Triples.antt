-- ===== src/Release/Triples.antt =====
-- The comparisons of triples.
use cssc.Common.{◌≡◌, ◌↔◌, true, not, ◌||◌, arith}
use cssc.Common.Int.{ℤ, ltb_ℤ, eqb_ℤ}
use cssc.Release.{RelVBr, relvbr_lt, relvbr_gt, relvbr_le, relvbr_ge, relvbr_eq, relvbr_ne}

-- Three comparisons of two components determine one another.
trichotomy : (x y : ℤ) → (ltb_ℤ x y ≡ not (ltb_ℤ y x || eqb_ℤ x y)) × (eqb_ℤ x y ≡ eqb_ℤ y x)
trichotomy x y = (ground arith, ground arith)

-- The six comparisons of triples fit together: `>` and `>=` are `<` and `<=` with the sides
-- exchanged, `<=` is the negation of `>`, `!=` that of `==`, and `==` is equality.
pub relvbr_order :
    (a b : RelVBr)
    → (relvbr_gt a b ≡ relvbr_lt b a)
      × (relvbr_ge a b ≡ relvbr_le b a)
      × (relvbr_le a b ≡ not (relvbr_gt a b))
      × (relvbr_ne a b ≡ not (relvbr_eq a b))
      × ((relvbr_eq a b ≡ true) ↔ (a ≡ b))
unfolding relvbr_lt relvbr_gt relvbr_le relvbr_ge relvbr_eq relvbr_ne
relvbr_order a b = (
  ground (arith, trichotomy a.rel b.rel, trichotomy a.level b.level),
  ground (arith, trichotomy a.rel b.rel, trichotomy a.level b.level),
  ground (arith, trichotomy a.rel b.rel, trichotomy a.level b.level, trichotomy a.branch b.branch),
  ground arith,
  ground arith,
)
