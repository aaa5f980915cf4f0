-- ===== src/Release/Sets.antt =====
-- Lists of releases as sets.
use cssc.Common.{
  ◌≡◌, sym, ap, ◌∙◌, List, [], ◌∷◌, ◌++◌, Bool, true, false, not, ◌&&◌, ◌||◌, arith, Bool-cases,
  inl, inr, ◌⊎◌, if◌then◌else◌,
}
use cssc.Common.Int.{eqb_ℤ, eqb_ℤ_iff}
use cssc.Release.{Release, member, merge, remove_into, remove_all}

member-append :
    (xs : List Release) (x r : Release) → member (xs ++ x ∷ []) r ≡ (member xs r || eqb_ℤ x r)
unfolding member
member-append [] x r = ground arith
member-append (y ∷ xs) x r = ground (arith, member-append xs x r)

or_swap : (a b c : Bool) → (a || b) || c ≡ a || (b || c)
or_swap a b c = ground arith

member_eq : (xs : List Release) (x r : Release) → eqb_ℤ x r ≡ true → member xs x ≡ member xs r
member_eq xs x r h = ap (member xs) ((eqb_ℤ_iff x r).0 h)

-- The member that a round of `merge` looks at is in the list afterwards.
merge_round :
    (xs : List Release) (x r : Release)
    → member (if not (member xs x) then xs ++ x ∷ [] else xs) r ≡ (member xs r || eqb_ℤ x r)
merge_round xs x r = elim (Bool-cases (member xs x)) [
  | inl old ↦ rw old (known (Bool-cases (eqb_ℤ x r)) old)
  | inr new ↦ rw new (member-append xs x r)
]
  where
    known :
        (eqb_ℤ x r ≡ true) ⊎ (eqb_ℤ x r ≡ false)
        → member xs x ≡ true
        → member xs r ≡ (member xs r || eqb_ℤ x r)
    known (inl e) old = let h = sym (member_eq xs x r e) ∙ old in rw h
    known (inr e) old = rw e (ground arith)

union : (xs rs : List Release) (r : Release) → member (merge xs rs) r ≡ (member xs r || member rs r)
unfolding merge member
union xs [] r = ground arith
union xs (x ∷ rs) r =
    union (if not (member xs x) then xs ++ x ∷ [] else xs) rs r
    ∙ ap (λ b. b || member rs r) (merge_round xs x r)
    ∙ or_swap (member xs r) (eqb_ℤ x r) (member rs r)

-- A round of `remove` keeps the release that it looks at, or passes it over.
remove_round :
    (done rs : List Release) (x r : Release)
    → member (if not (member rs x) then done ++ x ∷ [] else done) r
      ≡ (member done r || (eqb_ℤ x r && not (member rs r)))
remove_round done rs x r = elim (Bool-cases (eqb_ℤ x r)) [
  | inl same ↦
      rw (member_eq rs x r same, same)
        (elim (Bool-cases (member rs r)) [
          | inl old ↦ rw old (ground arith)
          | inr new ↦ rw new (member-append done x r ∙ ap (λ b. member done r || b) same)
        ])
  | inr other ↦ rw other (elim (Bool-cases (member rs x)) [
    | inl old ↦ rw old (ground arith)
    | inr new ↦ rw new (member-append done x r ∙ ap (λ b. member done r || b) other)
  ])
]

split_head : (d x m a : Bool) → (d || (x && not m)) || (a && not m) ≡ (d || ((x || a) && not m))
split_head d x m a = ground arith

difference :
    (done xs rs : List Release) (r : Release)
    → member (remove_into done xs rs) r ≡ (member done r || (member xs r && not (member rs r)))
unfolding remove_into member
difference done [] rs r = ground arith
difference done (x ∷ xs) rs r =
    difference (if not (member rs x) then done ++ x ∷ [] else done) xs rs r
    ∙ ap (λ b. b || (member xs r && not (member rs r))) (remove_round done rs x r)
    ∙ split_head (member done r) (eqb_ℤ x r) (member rs r) (member xs r)

-- `merge` is union, and `remove` is difference: they have exactly the members that they should.
pub merge-remove :
    (xs rs : List Release) (r : Release)
    → (member (merge xs rs) r ≡ (member xs r || member rs r))
      × (member (remove_all xs rs) r ≡ (member xs r && not (member rs r)))
unfolding remove_all member
merge-remove xs rs r = (union xs rs r, difference [] xs rs r)
