-- ===== src/Prepare/Ignored.antt =====
-- The pass over the ignored deltas.
use mathlib.Core.Path.{subst}
use cssc.Common.{
  ℕ, zero, suc, ◌≤◌, ◌<◌, ◌≡◌, refl, sym, ◌↔◌, inl, inr, Bool, true, false, ◌&&◌, not, leb, arith,
  Bool-cases,
}
use cssc.DeltaTable.{DeltaList}
use cssc.SeqState.{SeqState, is_included, set_ignored}
use cssc.Prepare.{visit, down}
use cssc.Prepare.Marks.{IsMarking, set_ignored-IsMark}
use cssc.Prepare.Passes.{listed, not-listed, IsListing, Ended, visit-listed}

-- What is left of `inc` when those that are left, up to `top`, ignore others.
abbrev pub Left : DeltaList → ℕ → (ℕ → Bool) → (ℕ → Bool) → ℕ → Type 0
Left l top inc left n =
    (inc n ≡ true)
    × ((z : ℕ) → 0 < z → z ≤ top → left z ≡ true → listed (λ d. d.ignored) l z n ≡ false)

module _ (l : DeltaList) (y : ℕ) (w : IsListing (λ d. d.ignored) l (suc y))
    (inc inc' left : ℕ → Bool)
    (round : (n : ℕ) → inc' n ≡ (inc n && not (inc (suc y) && listed (λ d. d.ignored) l (suc y) n)))
    (rest : (n : ℕ) → (left n ≡ true) ↔ Left l y inc' left n) where
  top_left : (left (suc y) ≡ true) ↔ (inc (suc y) ≡ true)
  top_left =
      let r = round (suc y) in
      let e =
        not-listed (λ d. d.ignored) l w (suc y) (suc y) (omega arith) (omega arith) (omega arith) in
      (
        λ on. let i = ((rest (suc y)).0 on).0 in ground arith,
        λ on. (rest (suc y)).1 (
          ground arith,
          λ z p q h. not-listed (λ d. d.ignored) l w z (suc y) p (omega arith) (omega arith),
        ),
      )

  Left-up : (n : ℕ) → left n ≡ true → Left l (suc y) inc left n
  Left-up n on =
      let (e, free) = (rest n).0 on in
      let r = round n in
      (
        ground arith,
        λ z p q h. elim (Bool-cases (leb z y)) [
          | inl low ↦ free z p (ground arith) h
          | inr high ↦
              let at : z ≡ suc y = ground arith in
              let here : inc (suc y) ≡ true = top_left.0 (subst (λ k. left k ≡ true) at h) in
              subst (λ k. listed (λ d. d.ignored) l k n ≡ false) (sym at) (ground arith)
        ],
      )

  Left-down : (n : ℕ) → Left l (suc y) inc left n → left n ≡ true
  Left-down n (e, free) = (rest n).1 (
    elim (Bool-cases (inc (suc y))) [
      | inl on ↦
          let r = round n in
          let f = free (suc y) (omega arith) (omega arith) (top_left.1 on) in ground arith
      | inr off ↦ let r = round n in ground arith
    ],
    λ z p q h. free z p (omega arith) h,
  )

pub down-Left :
    {last : ℕ} (l : DeltaList) (top : ℕ) (st : SeqState)
    → IsListing (λ d. d.ignored) l top
    → top ≤ last
    → IsMarking last st
    → Ended last
        (λ st'.
          (n : ℕ) → (is_included st' n ≡ true) ↔ Left l top (is_included st) (is_included st') n)
        (down (visit set_ignored (λ d. d.ignored) l) top st)
unfolding down
down-Left l zero st w q k = record {
  end = st;
  ran = refl;
  marking = k;
  holds = λ n. (λ e. (e, λ z p q h. absurd (omega arith)), λ h. h.0);
}
down-Left l (suc y) st w q k =
    let r =
      visit-listed (λ d. d.ignored) l set_ignored-IsMark w (suc y) st (omega arith) (omega arith) q
        k in
    let rest = down-Left l y r.end (λ z p s. w z p (omega arith)) (omega arith) r.marking in
    record {
      end = rest.end;
      ran = rw r.ran rest.ran;
      marking = rest.marking;
      holds = λ n. (
        Left-up l y w (is_included st) (is_included r.end) (is_included rest.end) r.includes
            rest.holds n,
        Left-down l y w (is_included st) (is_included r.end) (is_included rest.end) r.includes
            rest.holds n,
      );
    }
