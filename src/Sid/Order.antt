-- ===== src/Sid/Order.antt =====
-- The comparisons of SIDs.
use mathlib.Core.Path.{subst}
use cssc.Common.{
  ◌&&◌, ◌-◌, ◌^◌, ◌≡◌, refl, sym, ◌∙◌, ◌↔◌, Bool, true, false, not, arith, if◌then◌else◌,
}
use cssc.Common.Int.{ℤ, pos, ltb_ℤ, eqb_ℤ, eqb_ℤ_iff}
use cssc.Sid.{
  Sid, sid, valid, comparable, gt, gte, is_gt, is_ge, is_lt, is_le, is_eq, is_ne, successor,
  is_null,
}

gte-not-gt : (a b : Sid) → gte a b ≡ not (gt b a)
unfolding gte gt
gte-not-gt a b = ground arith

comparable_symm : (a b : Sid) → comparable a b ≡ comparable b a
unfolding comparable valid
comparable_symm a b = ground arith

is_eq_iff : (a b : Sid) → (is_eq a b ≡ true) ↔ (a ≡ b)
unfolding is_eq
is_eq_iff a b = ground arith

-- `==` is equality of the four components, and `!=` its negation.
pub is_eq-is_ne : (a b : Sid) → ((is_eq a b ≡ true) ↔ (a ≡ b)) × (is_ne a b ≡ not (is_eq a b))
unfolding is_eq is_ne
is_eq-is_ne a b = (is_eq_iff a b, ground arith)

ltb_ℤ_antisymm : (x y : ℤ) → ltb_ℤ x y ≡ false → ltb_ℤ y x ≡ false → x ≡ y
ltb_ℤ_antisymm x y p q = ground arith

ltb_ℤ_refl : (x : ℤ) → ltb_ℤ x x ≡ false
ltb_ℤ_refl x = ground arith

eqb_ℤ_refl : (x : ℤ) → eqb_ℤ x x ≡ true
eqb_ℤ_refl x = (eqb_ℤ_iff x x).1 refl

-- The comparison of three components, highest first.
ladder : Bool → Bool → Bool → Bool → Bool → Bool
ladder above same above1 same1 last =
    if above
    then true
    else if not same
    then false
    else if above1
    then true
    else if not same1
    then false
    else last

gt-ladder :
    (a b : Sid)
    → gt a b
      ≡ ladder
          (ltb_ℤ b.rel a.rel)
          (eqb_ℤ a.rel b.rel)
          (ltb_ℤ b.level a.level)
          (eqb_ℤ a.level b.level)
          (ltb_ℤ b.sequence a.sequence)
unfolding gt ladder
gt-ladder a b = refl

ladder_first : (u v w x y : Bool) → ladder u v w x y ≡ false → u ≡ false
unfolding ladder
ladder_first u v w x y h = ground arith

ladder_second : (u v w x y : Bool) → ladder u v w x y ≡ false → v ≡ true → w ≡ false
unfolding ladder
ladder_second u v w x y h p = ground arith

ladder_third : (u v w x y : Bool) → ladder u v w x y ≡ false → v ≡ true → x ≡ true → y ≡ false
unfolding ladder
ladder_third u v w x y h p q = ground arith

comparable_branch : (a b : Sid) → comparable a b ≡ true → a.branch ≡ b.branch
unfolding comparable
comparable_branch a b c = (eqb_ℤ_iff a.branch b.branch).0 (ground arith)

le_antisymm : (a b : Sid) → comparable a b ≡ true → gt a b ≡ false → gt b a ≡ false → a ≡ b
le_antisymm a b c p q =
    let p' = sym (gt-ladder a b) ∙ p in
    let q' = sym (gt-ladder b a) ∙ q in
    let r : a.rel ≡ b.rel =
      ltb_ℤ_antisymm a.rel b.rel (ladder_first _ _ _ _ _ q') (ladder_first _ _ _ _ _ p') in
    let e1 = (eqb_ℤ_iff a.rel b.rel).1 r in
    let e2 = (eqb_ℤ_iff b.rel a.rel).1 (sym r) in
    let l : a.level ≡ b.level =
      ltb_ℤ_antisymm a.level b.level (ladder_second _ _ _ _ _ q' e2)
        (ladder_second _ _ _ _ _ p' e1) in
    let f1 = (eqb_ℤ_iff a.level b.level).1 l in
    let f2 = (eqb_ℤ_iff b.level a.level).1 (sym l) in
    let s : a.sequence ≡ b.sequence =
      ltb_ℤ_antisymm a.sequence b.sequence (ladder_third _ _ _ _ _ q' e2 f2)
        (ladder_third _ _ _ _ _ p' e1 f1) in
    let br = comparable_branch a b c in λ i. sid (r i) (l i) (br i) (s i)

self_le :
    (a : Sid)
    → valid a ≡ true
    → (comparable a a && not (gt a a)) && (comparable a a && not (gt a a)) ≡ true
unfolding comparable gt valid
self_le a v = ground arith

-- A SID that is comparable with any is valid.
comparable-valid : (a b : Sid) → comparable a b ≡ true → valid a ≡ true
unfolding comparable valid
comparable-valid a b h = ground arith

-- The four order operators fit together: each is the mirror image of another, a SID is below another
-- exactly if it is comparable with it and not at least that, and two SIDs of which each is at most
-- the other are one and the same valid SID.
pub sid_order :
    (a b : Sid)
    → (is_le a b ≡ is_ge b a)
      × (is_lt a b ≡ is_gt b a)
      × (is_lt a b ≡ (comparable a b && not (is_le b a)))
      × ((is_le a b && is_le b a ≡ true) ↔ ((a ≡ b) × (valid a ≡ true)))
unfolding is_le is_ge is_lt is_gt
sid_order a b = (
  rw (comparable_symm a b, gte-not-gt b a),
  rw (comparable_symm a b, gte-not-gt a b) (ground arith),
  rw (← comparable_symm a b, gte-not-gt a b) (ground arith),
  (
    λ p. (
      le_antisymm a b (ground arith) (ground arith) (ground arith),
      comparable-valid a b (ground arith),
    ),
    λ (same, v).
        subst (λ x. (comparable a x && not (gt a x)) && (comparable x a && not (gt x a)) ≡ true)
          same (self_le a v),
  ),
)

-- The SID that is proposed after a valid one is a later one, unless the component that is counted up
-- is at the end of its range.
pub successor-is_lt :
    (a : Sid)
    → valid a ≡ true
    → ltb_ℤ a.level (pos (2 ^ 15 - 1)) ≡ true
    → ltb_ℤ a.sequence (pos (2 ^ 15 - 1)) ≡ true
    → is_lt a (successor a) ≡ true
unfolding is_lt successor comparable gte valid is_null
successor-is_lt a v l s = ground arith
