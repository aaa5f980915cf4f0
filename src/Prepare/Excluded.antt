-- ===== src/Prepare/Excluded.antt =====
-- The pass over the exclusions.
use mathlib.Core.Path.{subst}
use cssc.Common.{
  ℕ, zero, suc, ◌+◌, ◌-◌, ◌%◌, ◌^◌, ◌≤◌, ◌<◌, ◌≡◌, sym, ◌∙◌, ◌↔◌, inl, inr, Bool, true, false, ◌&&◌,
  not, leb, ◌==◌, arith, Bool-cases,
}
use cssc.DeltaTable.{DeltaList}
use cssc.SeqState.{SeqState, is_included, set_excluded}
use cssc.Prepare.{visit, up}
use cssc.Prepare.Marks.{IsMarking, set_excluded-IsMark}
use cssc.Prepare.Passes.{listed, not-listed, IsListing, Ended, visit-listed}

-- What is left of `inc` when the deltas from `y` on that it holds exclude others.
abbrev pub Kept : DeltaList → ℕ → ℕ → (ℕ → Bool) → ℕ → Type 0
Kept l seq y inc n =
    (inc n ≡ true)
    × ((z : ℕ) → y ≤ z → z ≤ seq → inc z ≡ true → listed (λ d. d.excluded) l z n ≡ false)

module _ (l : DeltaList) (seq y : ℕ) (w : IsListing (λ d. d.excluded) l seq) (positive : 0 < y)
    (within : y ≤ seq) (inc inc' : ℕ → Bool)
    (round : (n : ℕ) → inc' n ≡ (inc n && not (inc y && listed (λ d. d.excluded) l y n))) where
  later_same : (z : ℕ) → y ≤ z → inc' z ≡ inc z
  later_same z h =
      let r = round z in
      let e = not-listed (λ d. d.excluded) l w y z positive within h in ground arith

  Kept-next : (n : ℕ) → Kept l seq (y + 1) inc' n → Kept l seq y inc n
  Kept-next n (e, free) = (
    let r = round n in ground arith,
    λ z p q on. elim (Bool-cases (z == y)) [
      | inl same ↦
          let r = round n in
          let at : z ≡ y = ground arith in
          let here : inc y ≡ true = subst (λ k. inc k ≡ true) at on in
          subst (λ k. listed (λ d. d.excluded) l k n ≡ false) (sym at) (ground arith)
      | inr other ↦ free z (ground arith) q (later_same z p ∙ on)
    ],
  )

  Kept-first : (n : ℕ) → Kept l seq y inc n → Kept l seq (y + 1) inc' n
  Kept-first n (e, free) = (
    elim (Bool-cases (inc y)) [
      | inl on ↦ let r = round n in let f = free y (omega arith) within on in ground arith
      | inr off ↦ let r = round n in ground arith
    ],
    λ z p q on. free z (omega arith) q (sym (later_same z (omega arith)) ∙ on),
  )

-- A deletion pass from `y` up to `seq`: what is left is not named by a delta that was included
-- before the pass.
pub up-Kept :
    {last : ℕ} (l : DeltaList) (fuel seq y : ℕ) (st : SeqState)
    → IsListing (λ d. d.excluded) l seq
    → seq ≤ last
    → seq < 2 ^ 16 - 1
    → 0 < y
    → y ≤ seq + 1
    → seq + 1 < fuel + y
    → IsMarking last st
    → Ended last
        (λ st'. (n : ℕ) → (is_included st' n ≡ true) ↔ Kept l seq y (is_included st) n)
        (up (visit set_excluded (λ d. d.excluded) l) fuel seq y st)
unfolding up
up-Kept l zero seq y st w q small pos top enough k = absurd (omega arith)
up-Kept l (suc fuel) seq y st w q small pos top enough k = elim (Bool-cases (leb y seq)) [
  | inl again ↦
      let within : y ≤ seq = ground arith in
      let r = visit-listed (λ d. d.excluded) l set_excluded-IsMark w y st pos within q k in
      let rest =
        up-Kept l fuel seq (y + 1) r.end w q small (omega arith) (omega arith) (omega arith)
          r.marking in
      let wrap : (y + 1) % 2 ^ 16 ≡ y + 1 = omega arith in
      record {
        end = rest.end;
        ran = rw (again, r.ran, wrap) rest.ran;
        marking = rest.marking;
        holds = λ n. (
          λ e.
              Kept-next l seq y w pos within (is_included st) (is_included r.end) r.includes n
                ((rest.holds n).0 e),
          λ h.
              (rest.holds n).1 (
                Kept-first l seq y w pos within (is_included st) (is_included r.end) r.includes n
                  h),
        );
      }
  | inr over ↦ record {
    end = st;
    ran = rw over;
    marking = k;
    holds = λ n. (λ e. (e, λ z p q on. absurd (ground arith)), λ h. h.0);
  }
]
