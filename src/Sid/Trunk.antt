-- ===== src/Sid/Trunk.antt =====
-- The comparison of SIDs that are on the trunk or null.
use cssc.Common.{◌≡◌, refl, Bool, true, false, not, if◌then◌else◌, Bool-cases, inl, inr, arith}
use cssc.Common.Int.{ℤ, pos, eqb_ℤ, ltb_ℤ}
use cssc.Sid.{Sid, is_null, on_trunk, is_gt, components, comparable, gt, valid}

abbrev lex : Bool → Bool → Bool → Bool
lex more same rest = if more then true else if not same then false else rest

gt-lex :
    (a b : Sid)
    → gt a b
      ≡ lex
          (ltb_ℤ b.rel a.rel)
          (eqb_ℤ a.rel b.rel)
          (lex (ltb_ℤ b.level a.level) (eqb_ℤ a.level b.level) (ltb_ℤ b.sequence a.sequence))
unfolding gt
gt-lex a b = refl

lt_trans : (a b c : ℤ) → ltb_ℤ b a ≡ true → ltb_ℤ c b ≡ true → ltb_ℤ c a ≡ true
lt_trans a b c p q = ground arith

lt_same : (a b c : ℤ) → ltb_ℤ b a ≡ true → eqb_ℤ b c ≡ true → ltb_ℤ c a ≡ true
lt_same a b c p q = ground arith

same_lt : (a b c : ℤ) → eqb_ℤ a b ≡ true → ltb_ℤ c b ≡ true → ltb_ℤ c a ≡ true
same_lt a b c p q = ground arith

same_trans : (a b c : ℤ) → eqb_ℤ a b ≡ true → eqb_ℤ b c ≡ true → eqb_ℤ a c ≡ true
same_trans a b c p q = ground arith

lex_same : (more same rest : Bool) → same ≡ true → (rest ≡ true) → lex more same rest ≡ true
lex_same true same rest e r = refl
lex_same false same rest e r = rw (e, r) refl

lex_trans :
    (a b c : ℤ) (r s t : Bool)
    → (r ≡ true → s ≡ true → t ≡ true)
    → lex (ltb_ℤ b a) (eqb_ℤ a b) r ≡ true
    → lex (ltb_ℤ c b) (eqb_ℤ b c) s ≡ true
    → lex (ltb_ℤ c a) (eqb_ℤ a c) t ≡ true
lex_trans a b c r s t k p q = elim (Bool-cases (ltb_ℤ b a)) [
  | inl ab ↦ elim (Bool-cases (ltb_ℤ c b)) [
    | inl bc ↦ rw (lt_trans a b c ab bc) refl
    | inr bc ↦ elim (Bool-cases (eqb_ℤ b c)) [
      | inl e ↦ rw (lt_same a b c ab e) refl
      | inr e ↦ (let x = rw (bc, e) at q in cc)
    ]
  ]
  | inr ab ↦ elim (Bool-cases (eqb_ℤ a b)) [
    | inr e ↦ (let x = rw (ab, e) at p in cc)
    | inl e ↦ elim (Bool-cases (ltb_ℤ c b)) [
      | inl bc ↦ rw (same_lt a b c e bc) refl
      | inr bc ↦ elim (Bool-cases (eqb_ℤ b c)) [
        | inr f ↦ (let x = rw (bc, f) at q in cc)
        | inl f ↦ lex_same _ _ t (same_trans a b c e f) (k (rw (ab, e) at p) (rw (bc, f) at q))
      ]
    ]
  ]
]

gt_trans : (a b c : Sid) → gt a b ≡ true → gt b c ≡ true → gt a c ≡ true
unfolding gt
gt_trans a b c p q =
    lex_trans a.rel b.rel c.rel _ _ _
      (lex_trans a.level b.level c.level _ _ _ (lt_trans a.sequence b.sequence c.sequence)) p q

comparable_branch :
    (a b : Sid)
    → comparable a b ≡ true
    → (valid a ≡ true) × (valid b ≡ true) × (eqb_ℤ a.branch b.branch ≡ true)
unfolding comparable
comparable_branch a b h = ground arith

comparable_zero :
    (a b : Sid)
    → valid a ≡ true
    → valid b ≡ true
    → eqb_ℤ a.branch (pos 0) ≡ true
    → eqb_ℤ a.branch b.branch ≡ true
    → comparable a b ≡ true
unfolding comparable
comparable_zero a b v w z e = rw (v, w, e) (ground arith)

gt_parts : (a b : Sid) → is_gt a b ≡ true → (comparable a b ≡ true) × (gt a b ≡ true)
unfolding is_gt
gt_parts a b h = ground arith

pub gt_branch :
    (a b : Sid) → is_gt a b ≡ true → eqb_ℤ b.branch (pos 0) ≡ true → eqb_ℤ a.branch (pos 0) ≡ true
gt_branch a b p z =
    same_trans a.branch b.branch (pos 0) (comparable_branch a b (gt_parts a b p).0).2 z

-- A SID that is above another one, of branch 0, is above all below that.
pub is_gt_trans :
    (a b c : Sid)
    → is_gt a b ≡ true
    → is_gt b c ≡ true
    → eqb_ℤ c.branch (pos 0) ≡ true
    → is_gt a c ≡ true
unfolding is_gt
is_gt_trans a b c p q z =
    (let (v, _, e) = comparable_branch a b (gt_parts a b p).0 in
      let (_, w, f) = comparable_branch b c (gt_parts b c q).0 in
      rw
        (
          comparable_zero a c v w (gt_branch a b p (gt_branch b c q z))
              (same_trans a.branch b.branch c.branch e f),
          gt_trans a b c (gt_parts a b p).1 (gt_parts b c q).1,
        )
        refl)

pub trunk_branch : (a : Sid) → on_trunk a ≡ true → eqb_ℤ a.branch (pos 0) ≡ true
unfolding on_trunk components valid
trunk_branch a h = ground arith

gt_self_lem : (a : Sid) → gt a a ≡ false
unfolding gt
gt_self_lem a = ground arith

pub is_gt_self : (a : Sid) → is_gt a a ≡ false
unfolding is_gt
is_gt_self a = rw (gt_self_lem a) (ground arith)

pub trunk-is_null : (a : Sid) → on_trunk a ≡ true → is_null a ≡ false
unfolding on_trunk components valid is_null
trunk-is_null a h = ground arith

pub gt-is_null : (a b : Sid) → is_gt a b ≡ true → is_null a ≡ false
unfolding valid is_null
gt-is_null a b h = (let (v, _, _) = comparable_branch a b (gt_parts a b h).0 in rw v refl)
