-- ===== src/Sid/Line.antt =====
-- Lines of SIDs that the operators put in order: the trunk, and one branch.
use cssc.Common.{ℕ, ◌+◌, ◌*◌, ◌^◌, ◌<◌, ◌≡◌, ltb, leb, arith}
use cssc.Common.Int.{pos, pos_part}
use cssc.Sid.{Sid, sid, is_le, is_lt, is_gt, comparable, valid, gt, gte, increment, decrement}

-- SIDs that a number puts in order, with the operators on them and on their neighbours.
pub record Line : Type 1 where
  pub On : Sid → Type 0
  pub value : Sid → ℕ
  pub le_value : (a b : Sid) → On a → On b → is_le a b ≡ leb (value a) (value b)
  pub lt_value : (a b : Sid) → On a → On b → is_lt a b ≡ ltb (value a) (value b)
  pub gt_value : (a b : Sid) → On a → On b → is_gt a b ≡ ltb (value b) (value a)
  pub lt-decrement : (a b : Sid) → On a → On b → is_lt a (decrement b) ≡ ltb (value a + 1) (value b)
  pub le-increment : (a b : Sid) → On a → On b → is_le a (increment b) ≡ leb (value a) (value b + 1)

-- A SID R.L of the trunk, with room for a next level.
abbrev pub IsTrunk : Sid → Type 0
IsTrunk a =
    (r : ℕ) × (l : ℕ) × (0 < r)
    × (r < 2 ^ 15)
    × (0 < l)
    × (l + 1 < 2 ^ 15)
    × (a ≡ sid (pos r) (pos l) (pos 0) (pos 0))

abbrev trunk_value : Sid → ℕ
trunk_value a = 32768 * pos_part a.rel + pos_part a.level

-- The operators on SIDs of the trunk.
module _ (r l r' l' : ℕ) (p : 0 < r) (q : r < 2 ^ 15) (p1 : 0 < l) (q1 : l + 1 < 2 ^ 15)
    (p' : 0 < r') (q' : r' < 2 ^ 15) (p1' : 0 < l') (q1' : l' + 1 < 2 ^ 15) where
  abbrev first : Sid
  first = sid (pos r) (pos l) (pos 0) (pos 0)

  abbrev second : Sid
  second = sid (pos r') (pos l') (pos 0) (pos 0)

  pub trunk_le : is_le first second ≡ leb (32768 * r + l) (32768 * r' + l')
  unfolding is_le comparable gt valid
  trunk_le = ground arith

  pub trunk_lt : is_lt first second ≡ ltb (32768 * r + l) (32768 * r' + l')
  unfolding is_lt comparable gte valid
  trunk_lt = ground arith

  pub trunk_gt : is_gt first second ≡ ltb (32768 * r' + l') (32768 * r + l)
  unfolding is_gt comparable gt valid
  trunk_gt = ground arith

  pub trunk_before : is_lt first (decrement second) ≡ ltb (32768 * r + l + 1) (32768 * r' + l')
  unfolding is_lt comparable gte valid decrement
  trunk_before = ground arith

  pub trunk_after : is_le first (increment second) ≡ leb (32768 * r + l) (32768 * r' + l' + 1)
  unfolding is_le comparable gt valid increment
  trunk_after = ground arith

-- The trunk.
abbrev pub trunk : Line
trunk = record {
  On = IsTrunk;
  value = trunk_value;
  le_value = λ a b (r, l, p, q, p1, q1, e) (r', l', p', q', p1', q1', e').
      rw (e, e') (trunk_le r l r' l' p q p1 q1 p' q' p1' q1');
  lt_value = λ a b (r, l, p, q, p1, q1, e) (r', l', p', q', p1', q1', e').
      rw (e, e') (trunk_lt r l r' l' p q p1 q1 p' q' p1' q1');
  gt_value = λ a b (r, l, p, q, p1, q1, e) (r', l', p', q', p1', q1', e').
      rw (e, e') (trunk_gt r l r' l' p q p1 q1 p' q' p1' q1');
  lt-decrement = λ a b (r, l, p, q, p1, q1, e) (r', l', p', q', p1', q1', e').
      rw (e, e') (trunk_before r l r' l' p q p1 q1 p' q' p1' q1');
  le-increment = λ a b (r, l, p, q, p1, q1, e) (r', l', p', q', p1', q1', e').
      rw (e, e') (trunk_after r l r' l' p q p1 q1 p' q' p1' q1');
}

-- The SIDs of one branch.
module _ (r l b : ℕ) (p : 0 < r) (q : 0 < b) where
  -- A SID of the branch, with room for a next one.
  abbrev IsBranch : Sid → Type 0
  IsBranch a = (s : ℕ) × (0 < s) × (s + 1 < 2 ^ 15) × (a ≡ sid (pos r) (pos l) (pos b) (pos s))

  module _ (s s' : ℕ) (p1 : 0 < s) (q1 : s + 1 < 2 ^ 15) (p1' : 0 < s')
      (q1' : s' + 1 < 2 ^ 15) where
    abbrev this : Sid
    this = sid (pos r) (pos l) (pos b) (pos s)

    abbrev other : Sid
    other = sid (pos r) (pos l) (pos b) (pos s')

    pub branch_le : is_le this other ≡ leb s s'
    unfolding is_le comparable gt valid
    branch_le = ground arith

    pub branch_lt : is_lt this other ≡ ltb s s'
    unfolding is_lt comparable gte valid
    branch_lt = ground arith

    pub branch_gt : is_gt this other ≡ ltb s' s
    unfolding is_gt comparable gt valid
    branch_gt = ground arith

    pub branch_before : is_lt this (decrement other) ≡ ltb (s + 1) s'
    unfolding is_lt comparable gte valid decrement
    branch_before = ground arith

    pub branch_after : is_le this (increment other) ≡ leb s (s' + 1)
    unfolding is_le comparable gt valid increment
    branch_after = ground arith

  abbrev pub branch : Line
  branch = record {
    On = IsBranch;
    value = λ a. pos_part a.sequence;
    le_value = λ a b (s, p1, q1, e) (s', p1', q1', e'). rw (e, e') (branch_le s s' p1 q1 p1' q1');
    lt_value = λ a b (s, p1, q1, e) (s', p1', q1', e'). rw (e, e') (branch_lt s s' p1 q1 p1' q1');
    gt_value = λ a b (s, p1, q1, e) (s', p1', q1', e'). rw (e, e') (branch_gt s s' p1 q1 p1' q1');
    lt-decrement =
        λ a b (s, p1, q1, e) (s', p1', q1', e'). rw (e, e') (branch_before s s' p1 q1 p1' q1');
    le-increment =
        λ a b (s, p1, q1, e) (s', p1', q1', e'). rw (e, e') (branch_after s s' p1 q1 p1' q1');
  }
