-- ===== src/Prepare/Included.antt =====
-- The pass over the inclusions: a closure.
use mathlib.Core.Path.{subst}
use cssc.Common.{
  ℕ, zero, suc, ◌≤◌, ◌<◌, ◌≡◌, refl, ◌↔◌, ◌⊎◌, inl, inr, Bool, true, ◌||◌, ◌&&◌, leb, arith,
  Bool-cases,
}
use cssc.DeltaTable.{DeltaList}
use cssc.SeqState.{SeqState, is_included}
use cssc.Prepare.{visit, down, include}
use cssc.Prepare.Marks.{IsMarking, include-IsMark}
use cssc.Prepare.Passes.{listed, listed-lt, IsListing, Ended, visit-listed}

-- The deltas that are wanted: those that are so from the start, and those that a wanted one, at most
-- `top`, includes.
pub data Wanted (l : DeltaList) (start : ℕ → Bool) (top : ℕ) : ℕ → Type 0 where
  base : {n : ℕ} → start n ≡ true → Wanted l start top n
  more :
      {n : ℕ} (m : ℕ)
      → 0 < m
      → m ≤ top
      → Wanted l start top m
      → listed (λ d. d.included) l m n ≡ true
      → Wanted l start top n

-- One more round at the front: `start'` is `start` with what delta `suc y` includes.
module _ (l : DeltaList) (y : ℕ) (w : IsListing (λ d. d.included) l (suc y))
    (start start' : ℕ → Bool)
    (round : (n : ℕ)
      → start' n ≡ (start n || (start (suc y) && listed (λ d. d.included) l (suc y) n))) where
  Wanted-cases : {n : ℕ} → Wanted l start' y n → (n ≤ y) ⊎ (start' n ≡ true)
  Wanted-cases (base e) = inr e
  Wanted-cases {n} (more m p q h e) =
      inl (omega (arith, listed-lt (λ d. d.included) l w m n p (omega arith) e))

  Wanted-up : {n : ℕ} → Wanted l start' y n → Wanted l start (suc y) n
  Wanted-up {n} (base e) = elim (Bool-cases (start n)) [
    | inl here ↦ base here
    | inr there ↦
        let r = round n in
        more (suc y) (omega arith) (omega arith) (base (ground arith)) (ground arith)
  ]
  Wanted-up (more m p q h e) = more m p (omega arith) (Wanted-up h) e

  top-Wanted : Wanted l start' y (suc y) → start (suc y) ≡ true
  top-Wanted h = elim (Wanted-cases h) [
    | inl low ↦ absurd (omega arith)
    | inr e ↦ elim (Bool-cases (start (suc y))) [
      | inl on ↦ on
      | inr off ↦ let r = round (suc y) in ground arith
    ]
  ]

  Wanted-down : {n : ℕ} → Wanted l start (suc y) n → Wanted l start' y n
  Wanted-down {n} (base e) = let r = round n in base (ground arith)
  Wanted-down {n} (more m p q h e) = elim (Bool-cases (leb m y)) [
    | inl low ↦ more m p (ground arith) (Wanted-down h) e
    | inr high ↦
        let top : m ≡ suc y = ground arith in
        let on : start (suc y) ≡ true =
          top-Wanted (subst (Wanted l start' y) top (Wanted-down h)) in
        let named : listed (λ d. d.included) l (suc y) n ≡ true =
          subst (λ k. listed (λ d. d.included) l k n ≡ true) top e in
        let r = round n in base (ground arith)
  ]

pub down-Wanted :
    {last : ℕ} (l : DeltaList) (top : ℕ) (st : SeqState)
    → IsListing (λ d. d.included) l top
    → top ≤ last
    → IsMarking last st
    → Ended last
        (λ st'. (n : ℕ) → (is_included st' n ≡ true) ↔ Wanted l (is_included st) top n)
        (down (visit include (λ d. d.included) l) top st)
unfolding down
down-Wanted l zero st w q k = record {
  end = st;
  ran = refl;
  marking = k;
  holds = λ n. (λ e. base e, λ h. from n h);
}
  where
    from : (n : ℕ) → Wanted l (is_included st) 0 n → is_included st n ≡ true
    from n (base e) = e
    from n (more m p q h e) = absurd (omega arith)
down-Wanted l (suc y) st w q k =
    let r =
      visit-listed (λ d. d.included) l (include-IsMark true) w (suc y) st (omega arith)
        (omega arith) q k in
    let rest = down-Wanted l y r.end (λ z p s. w z p (omega arith)) (omega arith) r.marking in
    record {
      end = rest.end;
      ran = rw r.ran rest.ran;
      marking = rest.marking;
      holds = λ n. (
        λ e. Wanted-up l y w (is_included st) (is_included r.end) r.includes ((rest.holds n).0 e),
        λ h. (rest.holds n).1 (Wanted-down l y w (is_included st) (is_included r.end) r.includes h),
      );
    }
