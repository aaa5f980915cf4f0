-- ===== src/SidList/Clean.antt =====
-- Cleaning a list of ranges keeps its members.
use cssc.Common.{
  ℕ, ◌+◌, ◌≤◌, ◌<◌, ◌≡◌, ◌⊎◌, refl, ◌∙◌, inl, inr, List, [], ◌∷◌, ◌++◌, Bool, true, false, ◌&&◌,
  ◌||◌, leb, arith, All, All-append, Bool-cases,
}
use cssc.Sid.{Sid, is_le, is_lt, increment, decrement}
use cssc.Sid.Line.{Line}
use cssc.SidList.{Range, SidList, member, join, absorb, insert, clean_loop, clean, merge, is_empty}

-- All ranges are in order.
abbrev pub all_ordered : List Range → Bool
all_ordered [] = true
all_ordered (r ∷ rs) = is_le r.from r.to && all_ordered rs

pub kept :
    (sp : Range) (sps nh : List Range) (flag : Bool)
    → is_le sp.from sp.to ≡ true
    → clean_loop (sp ∷ sps) nh flag ≡ clean_loop sps (insert sp nh) flag
unfolding clean_loop
kept sp sps nh flag t = rw t refl

dropped :
    (sp : Range) (sps nh : List Range) (flag : Bool)
    → is_le sp.from sp.to ≡ false
    → clean_loop (sp ∷ sps) nh flag ≡ clean_loop sps nh false
unfolding clean_loop
dropped sp sps nh flag f = rw f refl

module _ (line : Line) where
  -- A range of which both ends are on the line, in order.
  abbrev pub IsProper : Range → Type 0
  IsProper r = line.On r.from × line.On r.to × (line.value r.from ≤ line.value r.to)

  -- The range begins behind `v`, and not directly behind it.
  abbrev Begins : ℕ → Range → Type 0
  Begins v r = v + 1 < line.value r.from

  -- The ranges are in order, with a gap between any two.
  abbrev pub IsSeparated : List Range → Type 0
  IsSeparated [] = Unit {0}
  IsSeparated (r ∷ rs) = IsProper r × All (Begins (line.value r.to)) rs × IsSeparated rs

  abbrev covers : Sid → Range → Bool
  covers id r = is_le r.from id && is_le id r.to

  covers_value :
      (id : Sid) (r : Range)
      → line.On id
      → IsProper r
      → covers id r
        ≡ (leb (line.value r.from) (line.value id) && leb (line.value id) (line.value r.to))
  covers_value id r on (a, b, le) =
      rw (line.le_value r.from id a on, line.le_value id r.to on b) refl

  join_from :
      (sp dp : Range)
      → IsProper sp
      → IsProper dp
      → ((join sp dp).from ≡ dp.from) × (line.value dp.from < line.value sp.from)
        ⊎ ((join sp dp).from ≡ sp.from) × (line.value sp.from ≤ line.value dp.from)
  unfolding join
  join_from sp dp (a, b, le) (a', b', le') = rw (line.lt_value dp.from sp.from a' a) (ground arith)

  join_to :
      (sp dp : Range)
      → IsProper sp
      → IsProper dp
      → ((join sp dp).to ≡ dp.to) × (line.value sp.to < line.value dp.to)
        ⊎ ((join sp dp).to ≡ sp.to) × (line.value dp.to ≤ line.value sp.to)
  unfolding join
  join_to sp dp (a, b, le) (a', b', le') = rw (line.gt_value dp.to sp.to b' b) (ground arith)

  -- The ranges touch.
  abbrev Touches : Range → Range → Type 0
  Touches sp dp =
      (line.value sp.from ≤ line.value dp.to + 1) × (line.value dp.from ≤ line.value sp.to + 1)

  join-IsProper : (sp dp : Range) → IsProper sp → IsProper dp → IsProper (join sp dp)
  join-IsProper sp dp (a, b, le) (a', b', le') = elim (join_from sp dp (a, b, le) (a', b', le')) [
    | inl (e, h) ↦ elim (join_to sp dp (a, b, le) (a', b', le')) [
      | inl (f, k) ↦ rw (e, f) (a', b', le')
      | inr (f, k) ↦ rw (e, f) (a', b, omega arith)
    ]
    | inr (e, h) ↦ elim (join_to sp dp (a, b, le) (a', b', le')) [
      | inl (f, k) ↦ rw (e, f) (a, b', omega arith)
      | inr (f, k) ↦ rw (e, f) (a, b, le)
    ]
  ]

  join-covers :
      (id : Sid) (sp dp : Range)
      → line.On id
      → IsProper sp
      → IsProper dp
      → Touches sp dp
      → covers id (join sp dp) ≡ (covers id sp || covers id dp)
  join-covers id sp dp on p p' t =
      rw
        (
          covers_value id (join sp dp) on (join-IsProper sp dp p p'),
          covers_value id sp on p,
          covers_value id dp on p',
        )
        (elim (join_from sp dp p p') [
          | inl (e, h) ↦ elim (join_to sp dp p p') [
            | inl (f, k) ↦ rw (e, f) (ground arith)
            | inr (f, k) ↦ rw (e, f) (ground arith)
          ]
          | inr (e, h) ↦ elim (join_to sp dp p p') [
            | inl (f, k) ↦ rw (e, f) (ground arith)
            | inr (f, k) ↦ rw (e, f) (ground arith)
          ]
        ])

  -- A range meets the others from the first on: none ends before it.
  abbrev Reaches : Range → Range → Type 0
  Reaches sp q = line.value sp.from ≤ line.value q.to + 1

  join_reaches :
      (sp dp : Range)
      → IsProper sp
      → IsProper dp
      → (line.value (join sp dp).from ≤ line.value sp.from)
        × (line.value (join sp dp).from ≤ line.value dp.from)
  join_reaches sp dp p p' = elim (join_from sp dp p p') [
    | inl (e, h) ↦ rw e (omega arith, omega arith)
    | inr (e, h) ↦ rw e (omega arith, omega arith)
  ]

  All-map :
      (P Q : Range → Type 0) → ((r : Range) → P r → Q r) → (rs : List Range) → All P rs → All Q rs
  All-map P Q f [] h = tt
  All-map P Q f (r ∷ rs) h = (f r h.0, All-map P Q f rs h.1)

  separated_reaches :
      (v : ℕ) (dp : Range) (rest : List Range)
      → v ≤ line.value dp.to + 1
      → IsSeparated (dp ∷ rest)
      → All (λ q. v ≤ line.value q.to + 1) (dp ∷ rest)
  separated_reaches v dp rest h s = (h, later v dp rest h s.1 s.2)
    where
      later :
          (v : ℕ) (dp : Range) (rest : List Range)
          → v ≤ line.value dp.to + 1
          → All (Begins (line.value dp.to)) rest
          → IsSeparated rest
          → All (λ q. v ≤ line.value q.to + 1) rest
      later v dp [] h b s = tt
      later v dp (q ∷ qs) h b s = (let (x, y, le) = s.0 in (omega arith, later v dp qs h b.1 s.2))

  bounded_join :
      (v : ℕ) (sp dp : Range)
      → IsProper sp
      → IsProper dp
      → Begins v sp
      → Begins v dp
      → Begins v (join sp dp)
  bounded_join v sp dp p p' h k = elim (join_from sp dp p p') [
    | inl (e, l) ↦ rw e k
    | inr (e, l) ↦ rw e h
  ]

  absorb-bound :
      (v : ℕ) (sp : Range) (rs : List Range)
      → IsProper sp
      → IsSeparated rs
      → Begins v sp
      → All (Begins v) rs
      → All (Begins v) (absorb sp rs)
  unfolding absorb
  absorb-bound v sp [] p s h b = (h, tt)
  absorb-bound v sp (dp ∷ rest) p s h b = elim (Bool-cases (is_le dp.from (increment sp.to))) [
    | inl t ↦ rw t (
        absorb-bound v (join sp dp) rest (join-IsProper sp dp p s.0) s.2
          (bounded_join v sp dp p s.0 h b.0) b.1)
    | inr f ↦ rw f (h, b)
  ]

  behind_all :
      (v : ℕ) (dp : Range) (rest : List Range)
      → IsSeparated (dp ∷ rest)
      → Begins v dp
      → All (Begins v) (dp ∷ rest)
  behind_all v dp rest s h =
      let (x, y, le) = s.0 in
      (h, All-map (Begins (line.value dp.to)) (Begins v) (λ r b. omega arith) rest s.1)

  -- A range that does not begin up to behind `sp` begins later.
  touching-Begins :
      (sp dp : Range)
      → IsProper sp
      → IsProper dp
      → is_le dp.from (increment sp.to) ≡ false
      → Begins (line.value sp.to) dp
  touching-Begins sp dp p p' f = let law = line.le-increment dp.from sp.to p'.0 p.1 in ground arith

  absorb-IsSeparated :
      (sp : Range) (rs : List Range) → IsProper sp → IsSeparated rs → IsSeparated (absorb sp rs)
  unfolding absorb
  absorb-IsSeparated sp [] p s = (p, tt, tt)
  absorb-IsSeparated sp (dp ∷ rest) p s = elim (Bool-cases (is_le dp.from (increment sp.to))) [
    | inl t ↦ rw t (absorb-IsSeparated (join sp dp) rest (join-IsProper sp dp p s.0) s.2)
    | inr f ↦ rw f (p, behind_all (line.value sp.to) dp rest s (touching-Begins sp dp p s.0 f), s)
  ]

  absorb-member :
      (id : Sid) (sp : Range) (rs : List Range)
      → line.On id
      → IsProper sp
      → IsSeparated rs
      → All (Reaches sp) rs
      → member id (absorb sp rs) ≡ (covers id sp || member id rs)
  unfolding absorb member
  absorb-member id sp [] on p s h = refl
  absorb-member id sp (dp ∷ rest) on p s h = elim (Bool-cases (is_le dp.from (increment sp.to))) [
    | inl t ↦
        (let near = touching sp dp p s.0 h.0 t in
          rw
            (
              t,
              absorb-member id (join sp dp) rest on (join-IsProper sp dp p s.0) s.2 (
                  All-map (Reaches sp) (Reaches (join sp dp))
                    (λ r k. omega (arith, join_reaches sp dp p s.0)) rest h.1),
              join-covers id sp dp on p s.0 near,
            )
            (ground arith))
    | inr f ↦ rw f refl
  ]
    where
      touching :
          (sp dp : Range)
          → IsProper sp
          → IsProper dp
          → Reaches sp dp
          → is_le dp.from (increment sp.to) ≡ true
          → Touches sp dp
      touching sp dp p p' h t =
          let law = line.le-increment dp.from sp.to p'.0 p.1 in (h, ground arith)

  passes :
      (sp dp : Range)
      → IsProper sp
      → IsProper dp
      → is_lt dp.to (decrement sp.from) ≡ true
      → Begins (line.value dp.to) sp
  passes sp dp p p' t = let law = line.lt-decrement dp.to sp.from p'.1 p.0 in ground arith

  meets :
      (sp dp : Range)
      → IsProper sp
      → IsProper dp
      → is_lt dp.to (decrement sp.from) ≡ false
      → Reaches sp dp
  meets sp dp p p' f = let law = line.lt-decrement dp.to sp.from p'.1 p.0 in ground arith

  insert-bound :
      (v : ℕ) (sp : Range) (rs : List Range)
      → IsProper sp
      → IsSeparated rs
      → Begins v sp
      → All (Begins v) rs
      → All (Begins v) (insert sp rs)
  unfolding insert
  insert-bound v sp [] p s h b = (h, tt)
  insert-bound v sp (dp ∷ rest) p s h b = elim (Bool-cases (is_lt dp.to (decrement sp.from))) [
    | inl t ↦ rw t (b.0, insert-bound v sp rest p s.2 h b.1)
    | inr f ↦ rw f (absorb-bound v sp (dp ∷ rest) p s h b)
  ]

  pub insert-IsSeparated :
      (sp : Range) (rs : List Range) → IsProper sp → IsSeparated rs → IsSeparated (insert sp rs)
  unfolding insert
  insert-IsSeparated sp [] p s = (p, tt, tt)
  insert-IsSeparated sp (dp ∷ rest) p s = elim (Bool-cases (is_lt dp.to (decrement sp.from))) [
    | inl t ↦ rw t (
      s.0,
      insert-bound (line.value dp.to) sp rest p s.2 (passes sp dp p s.0 t) s.1,
      insert-IsSeparated sp rest p s.2,
    )
    | inr f ↦ rw f (absorb-IsSeparated sp (dp ∷ rest) p s)
  ]

  insert-member :
      (id : Sid) (sp : Range) (rs : List Range)
      → line.On id
      → IsProper sp
      → IsSeparated rs
      → member id (insert sp rs) ≡ (covers id sp || member id rs)
  unfolding insert member
  insert-member id sp [] on p s = refl
  insert-member id sp (dp ∷ rest) on p s = elim (Bool-cases (is_lt dp.to (decrement sp.from))) [
    | inl t ↦ rw (t, insert-member id sp rest on p s.2) (ground arith)
    | inr f ↦
        rw
          (
            f,
            absorb-member id sp (dp ∷ rest) on p s
                (separated_reaches (line.value sp.from) dp rest (meets sp dp p s.0 f) s),
          )
          refl
  ]

  -- Both ends are on the line.
  abbrev pub EndsOn : Range → Type 0
  EndsOn r = line.On r.from × line.On r.to

  empty_range :
      (id : Sid) (r : Range)
      → line.On id
      → EndsOn r
      → is_le r.from r.to ≡ false
      → covers id r ≡ false
  empty_range id r on (a, b) f =
      let law = line.le_value r.from r.to a b in
      rw (line.le_value r.from id a on, line.le_value id r.to on b) (ground arith)

  abbrev Cleaned : List Range → List Range → Bool → SidList → Type 0
  Cleaned rs nh flag l =
      IsSeparated l.head
      × (l.valid_flag ≡ (flag && all_ordered rs))
      × ((id : Sid) → line.On id → member id l.head ≡ (member id rs || member id nh))

  clean_loop-Cleaned :
      (rs nh : List Range) (flag : Bool)
      → All EndsOn rs
      → IsSeparated nh
      → Cleaned rs nh flag (clean_loop rs nh flag)
  unfolding member
  clean_loop-Cleaned [] nh flag h s = unfold clean_loop in (s, ground arith, λ id on. refl)
  clean_loop-Cleaned (sp ∷ sps) nh flag h s = elim (Bool-cases (is_le sp.from sp.to)) [
    | inl t ↦
        (let law = line.le_value sp.from sp.to h.0.0 h.0.1 in
          let proper : IsProper sp = (h.0.0, h.0.1, ground arith) in
          let (sep, valid, mem) =
            clean_loop-Cleaned sps (insert sp nh) flag h.1 (insert-IsSeparated sp nh proper s) in
          rw (kept sp sps nh flag t, t)
            (
              sep,
              valid,
              λ id on. mem id on ∙ rw (insert-member id sp nh on proper s) (ground arith),
            ))
    | inr f ↦
        (let (sep, valid, mem) = clean_loop-Cleaned sps nh false h.1 s in
          rw (dropped sp sps nh flag f, f)
            (sep, valid ∙ ground arith, λ id on. mem id on ∙ rw (empty_range id sp on h.0 f) refl))
  ]

-- Cleaning keeps the members: for a valid list with all ends on one line of SIDs (the trunk, or one
-- branch), the ranges of the cleaned list are in order with a gap between any two, a SID of the line
-- is in it exactly if it is in one of the ranges before, and the list stays valid exactly if every
-- range has its ends in order.
pub clean-member :
    (line : Line) (l : SidList)
    → l.valid_flag ≡ true
    → All (EndsOn line) l.head
    → IsSeparated line (clean l).head
      × ((clean l).valid_flag ≡ all_ordered l.head)
      × ((id : Sid) → line.On id → member id (clean l).head ≡ member id l.head)
unfolding clean
clean-member line l v h =
    (let (sep, valid, mem) = clean_loop-Cleaned line l.head [] true h tt in
      rw v (sep, valid, λ id on. mem id on ∙ without_none id l.head))
  where
    without_none : (id : Sid) (rs : List Range) → (member id rs || member id []) ≡ member id rs
    without_none id rs = unfold member in ground arith

member-append : (id : Sid) (a b : List Range) → member id (a ++ b) ≡ (member id a || member id b)
unfolding member
member-append id [] b = refl
member-append id (r ∷ rs) b = rw (member-append id rs b) (ground arith)

-- Merging valid lists gives the SIDs of both: where the ends are on one line of SIDs, a SID of the line
-- is in the merged list exactly if it is in one of the two.
pub merge-member :
    (line : Line) (l list : SidList)
    → l.valid_flag ≡ true
    → list.valid_flag ≡ true
    → All (EndsOn line) l.head
    → All (EndsOn line) list.head
    → (id : Sid) → line.On id
    → member id (merge l list).head ≡ (member id l.head || member id list.head)
unfolding merge
merge-member line l list v w h k id on = elim (Bool-cases (is_empty list)) [
  | inl t ↦ rw (v, w, t) (rw (member_nil id list.head list.valid_flag t) (ground arith))
  | inr f ↦
      rw (v, w, f)
        ((clean-member line _ refl (All-append (EndsOn line) l.head list.head h k)).2 id on
          ∙ member-append id l.head list.head)
]
  where
    member_nil :
        (id : Sid) (hs : List Range) (flag : Bool)
        → is_empty (record { head = hs; valid_flag = flag }) ≡ true
        → member id hs ≡ false
    member_nil id [] flag t = unfold member in refl
    member_nil id (r ∷ rs) flag t = cc
