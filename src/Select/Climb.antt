-- ===== src/Select/Climb.antt =====
-- The loops that look for a free SID end: each round passes one that is in use.
use mathlib.Core.Path.{subst}
use cssc.Common.{
  ℕ, zero, suc, ◌+◌, ◌≤◌, ◌<◌, ◌≡◌, refl, sym, ◌∙◌, inl, inr, List, [], ◌∷◌, Bool, true, false, not,
  some, if◌then◌else◌, In, arith, Bool-cases, length,
}
use cssc.Common.Int.{ℤ, ltb_ℤ}
use cssc.Sid.{Sid}
use cssc.Select.{climb}

-- How many elements pass a test.
pub count : (Sid → Bool) → List Sid → ℕ
count p [] = 0
count p (x ∷ xs) = (if p x then 1 else 0) + count p xs

pub count-le-length : (p : Sid → Bool) (xs : List Sid) → count p xs ≤ length xs
unfolding count
count-le-length p [] = omega arith
count-le-length p (x ∷ xs) = ground (arith, count-le-length p xs)

module _ (p q : Sid → Bool) (stronger : (x : Sid) → q x ≡ true → p x ≡ true) where
  count-le : (xs : List Sid) → count q xs ≤ count p xs
  unfolding count
  count-le [] = omega arith
  count-le (x ∷ xs) = ground (arith, stronger x, count-le xs)

  count-lt :
      (xs : List Sid) (y : Sid) → In y xs → p y ≡ true → q y ≡ false → count q xs < count p xs
  unfolding count
  count-lt [] y h on off = elim h [ ]
  count-lt (x ∷ xs) y (inl e) on off =
      let here : p x ≡ true = subst (λ k. p k ≡ true) e on in
      let gone : q x ≡ false = subst (λ k. q k ≡ false) e off in ground (arith, count-le xs)
  count-lt (x ∷ xs) y (inr h) on off = ground (arith, stronger x, count-lt xs y h on off)

-- `s` is the first SID from `x` on, in the order of `step`, that is not used.
pub data Climbed (used : Sid → Bool) (step : Sid → Sid) : Sid → Sid → Type 0 where
  here : {x s : Sid} → used x ≡ false → s ≡ x → Climbed used step x s
  further : {x s : Sid} → used x ≡ true → Climbed used step (step x) s → Climbed used step x s

pub Climbed-free :
    {used : Sid → Bool} {step : Sid → Sid} {x s : Sid} → Climbed used step x s → used s ≡ false
Climbed-free {used} (here off e) = subst (λ k. used k ≡ false) (sym e) off
Climbed-free (further on c) = Climbed-free c

-- There is one first SID that is not used.
pub Climbed-unique :
    {used : Sid → Bool} {step : Sid → Sid} {x s s' : Sid}
    → Climbed used step x s
    → Climbed used step x s'
    → s ≡ s'
Climbed-unique (here off e) (here off' e') = e ∙ sym e'
Climbed-unique (here off e) (further on d) = cc
Climbed-unique (further on c) (here off e) = cc
Climbed-unique (further on c) (further on' d) = Climbed-unique c d

pub Climbed-map :
    {used used' : Sid → Bool} {step : Sid → Sid} {x s : Sid}
    → ((y : Sid) → used' y ≡ used y)
    → Climbed used step x s
    → Climbed used' step x s
Climbed-map same (here off e) = here (same _ ∙ off) e
Climbed-map same (further on c) = further (same _ ∙ on) (Climbed-map same c)

ltb_ℤ_irrefl : (a : ℤ) → ltb_ℤ a a ≡ false
ltb_ℤ_irrefl a = ground arith

below_trans : (a b c : ℤ) → ltb_ℤ a b ≡ true → not (ltb_ℤ c b) ≡ true → not (ltb_ℤ c a) ≡ true
below_trans a b c p q = ground arith

module _ (used : Sid → Bool) (step : Sid → Sid) (key : Sid → ℤ) (ids : List Sid)
    (members : (x : Sid) → used x ≡ true → In x ids)
    (grows : (x : Sid) → In x ids → ltb_ℤ (key x) (key (step x)) ≡ true) where
  -- The SIDs that are not below `x`.
  ahead : Sid → ℕ
  ahead x = count (λ y. not (ltb_ℤ (key y) (key x))) ids

  ahead-step : (x : Sid) → used x ≡ true → ahead (step x) < ahead x
  unfolding ahead
  ahead-step x on =
      let up = grows x (members x on) in
      let self = ltb_ℤ_irrefl (key x) in
      count-lt (λ y. not (ltb_ℤ (key y) (key x))) (λ y. not (ltb_ℤ (key y) (key (step x))))
        (λ y h. below_trans (key x) (key (step x)) (key y) up h) ids x (members x on) (ground arith)
        (ground arith)

  climb_within :
      (fuel : ℕ) (x : Sid)
      → ahead x < fuel
      → (s : Sid) × (climb fuel used step x ≡ some s) × Climbed used step x s
  unfolding climb
  climb_within zero x h = absurd (omega arith)
  climb_within (suc fuel) x h = elim (Bool-cases (used x)) [
    | inl on ↦
        let (s, ran, c) = climb_within fuel (step x) (omega (arith, ahead-step x on)) in
        (s, rw on ran, further on c)
    | inr off ↦ (x, rw off, here off refl)
  ]

  pub climb_ends :
      (fuel : ℕ) (x : Sid)
      → length ids < fuel
      → (s : Sid) × (climb fuel used step x ≡ some s) × Climbed used step x s
  unfolding ahead
  climb_ends fuel x h =
      climb_within fuel x (omega (arith, count-le-length (λ y. not (ltb_ℤ (key y) (key x))) ids))
