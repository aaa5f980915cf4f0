-- ===== src/Dates/Order.antt =====
-- The comparison of dates follows the calendar.
use mathlib.Core.Path.{subst}
use cssc.Common.{
  ℕ, suc, ◌+◌, ◌-◌, ◌≤◌, ◌<◌, ◌≡◌, refl, sym, ap, ◌⊎◌, inl, inr, List, [], ◌∷◌, false,
  if◌then◌else◌, not, ◌==◌, arith,
}
use cssc.Common.Int.{ℤ, pos, negsuc, pos_part, neg_part, ◌-ℤ◌, eqb_ℤ}
use cssc.Common.Runs.{value}
use cssc.Dates.{Date, update_yearday, difference, compare}
use cssc.Dates.YearDay.{
  before, month_length, before_mono, yearday-date_of, IsMade, Made, made, IsMade-Made,
}

infix 50 ◌<ℤ◌
abbrev pub ◌<ℤ◌ : ℤ → ℤ → Type 0
a <ℤ b = pos_part a + neg_part b < pos_part b + neg_part a

-- The order of the dictionary.
abbrev pub Lex : List ℤ → List ℤ → Type 0
Lex [] ys = ⊥
Lex (x ∷ xs) [] = ⊥
Lex (x ∷ xs) (y ∷ ys) = (x <ℤ y) ⊎ ((x ≡ y) × Lex xs ys)

abbrev pub fields : Date → List ℤ
fields d = d.year ∷ d.month ∷ d.month_day ∷ d.hour ∷ d.minute ∷ d.second ∷ []

-- One date is before the other by year, then month, day, hour, minute and second.
abbrev pub Earlier : Date → Date → Type 0
Earlier d e = Lex (fields d) (fields e)

-- The sign of a comparison says which of three things holds.
pub data Verdict (L E G : Type 0) : ℤ → Type 0 where
  less : {n : ℕ} → L → Verdict L E G (negsuc n)
  same : E → Verdict L E G (pos 0)
  greater : {n : ℕ} → G → Verdict L E G (pos (suc n))

Verdict-map :
    {L L' E E' G G' : Type 0} {r : ℤ}
    → (L → L')
    → (E → E')
    → (G → G')
    → Verdict L E G r
    → Verdict L' E' G' r
Verdict-map f g h (less x) = less (f x)
Verdict-map f g h (same x) = same (g x)
Verdict-map f g h (greater x) = greater (h x)

three_ways : (a b : ℕ) → (a < b) ⊎ ((a ≡ b) ⊎ (b < a))
three_ways a b = omega arith

difference_cases :
    (a b : ℕ)
    → ((a < b) × ((n : ℕ) × (pos a -ℤ pos b ≡ negsuc n)))
      ⊎ (((a ≡ b) × (pos a -ℤ pos b ≡ pos 0))
          ⊎ ((b < a) × ((n : ℕ) × (pos a -ℤ pos b ≡ pos (suc n)))))
unfolding ◌-ℤ◌
difference_cases a b = elim (three_ways a b) [
  | inl h ↦ inl (h, (b - a - 1, ground arith))
  | inr (inl h) ↦ inr (inl (h, ground arith))
  | inr (inr h) ↦ inr (inr (h, (a - b - 1, ground arith)))
]

-- The last difference.
last-Verdict : (a b : ℕ) → Verdict (a < b) (a ≡ b) (b < a) (pos a -ℤ pos b)
last-Verdict a b = elim (difference_cases a b) [
  | inl (h, (n, e)) ↦ rw e (less h)
  | inr (inl (h, e)) ↦ rw e (same h)
  | inr (inr (h, (n, e))) ↦ rw e (greater h)
]

pub suc_test : (n : ℕ) → (suc n == 0) ≡ false
suc_test n = ground arith

-- A difference before others.
first-Verdict :
    {L E G : Type 0} (a b : ℕ) {r : ℤ}
    → ((a ≡ b) → Verdict L E G r)
    → Verdict
        ((a < b) ⊎ ((a ≡ b) × L))
        ((a ≡ b) × E)
        ((b < a) ⊎ ((b ≡ a) × G))
        (if not (eqb_ℤ (pos a -ℤ pos b) (pos 0)) then pos a -ℤ pos b else r)
first-Verdict a b later = elim (difference_cases a b) [
  | inl (h, (n, e)) ↦ rw e (less (inl h))
  | inr (inl (h, e)) ↦
      rw e (Verdict-map (λ x. inr (h, x)) (λ x. (h, x)) (λ x. inr (sym h, x)) (later h))
  | inr (inr (h, (n, e))) ↦ rw (e, suc_test n) (greater (inl h))
]

-- The day of the year orders the days of one year.
day_order :
    (year : ℤ) (k k' d d' : ℕ)
    → 0 < d
    → 0 < d'
    → d ≤ month_length year (suc k)
    → d' ≤ month_length year (suc k')
    → ((before year k + d < before year k' + d') → (k < k') ⊎ ((k ≡ k') × (d < d')))
      × ((before year k + d ≡ before year k' + d') → (k ≡ k') × (d ≡ d'))
day_order year k k' d d' p p' q q' = elim (three_ways k k') [
  | inl h ↦ (let lt = before_mono year k k' d d' h q p' in ((λ _. inl h), (λ e. omega arith)))
  | inr (inl h) ↦
      (let e : before year k ≡ before year k' = ap (before year) h in
        ((λ lt. inr (h, omega arith)), (λ e'. (h, omega arith))))
  | inr (inr h) ↦
      (let gt = before_mono year k' k d' d h q' p in ((λ lt. omega arith), (λ e. omega arith)))
]

abbrev Less : (x x' : ℕ) → Type 0 → Type 0
Less x x' L = (x < x') ⊎ ((x ≡ x') × L)

times_Lex :
    (h h' mi mi' s s' : ℕ)
    → Less h h' (Less mi mi' (s < s'))
    → Lex (pos h ∷ pos mi ∷ pos s ∷ []) (pos h' ∷ pos mi' ∷ pos s' ∷ [])
times_Lex h h' mi mi' s s' (inl lt) = inl (omega arith)
times_Lex h h' mi mi' s s' (inr (e, inl lt)) = inr (ap pos e, inl (omega arith))
times_Lex h h' mi mi' s s' (inr (e, inr (e', lt))) =
    inr (ap pos e, inr (ap pos e', inl (omega arith)))

days_Lex :
    (y y' k k' d d' h h' mi mi' s s' : ℕ)
    → 0 < d
    → 0 < d'
    → d ≤ month_length (pos y) (suc k)
    → d' ≤ month_length (pos y') (suc k')
    → Less y y'
        (Less (before (pos y) k + d) (before (pos y') k' + d') (Less h h' (Less mi mi' (s < s'))))
    → Lex
        (pos y ∷ pos (suc k) ∷ pos d ∷ pos h ∷ pos mi ∷ pos s ∷ [])
        (pos y' ∷ pos (suc k') ∷ pos d' ∷ pos h' ∷ pos mi' ∷ pos s' ∷ [])
days_Lex y y' k k' d d' h h' mi mi' s s' p p' q q' (inl lt) = inl (omega arith)
days_Lex y y' k k' d d' h h' mi mi' s s' p p' q q' (inr (e, rest)) =
    (let q'' : d' ≤ month_length (pos y) (suc k') =
        subst (λ n. d' ≤ month_length (pos n) (suc k')) (sym e) q' in
      let b : before (pos y') k' ≡ before (pos y) k' = ap (λ n. before (pos n) k') (sym e) in
      let order = day_order (pos y) k k' d d' p p' q q'' in
      inr (
        ap pos e,
        elim rest [
          | inl lt ↦ elim (order.0 (omega arith)) [
            | inl lt' ↦ inl (omega arith)
            | inr (e', lt') ↦ inr (ap (λ n. pos (suc n)) e', inl (omega arith))
          ]
          | inr (e', t) ↦
              (let (ek, ed) = order.1 (omega arith) in
                inr (ap (λ n. pos (suc n)) ek, inr (ap pos ed, times_Lex h h' mi mi' s s' t)))
        ],
      ))

Made-Verdict :
    {d e : Date} → Made d → Made e → Verdict (Earlier d e) (d ≡ e) (Earlier e d) (difference d e)
unfolding difference update_yearday
Made-Verdict (made y k d h mi s a1 a2 a3 a4 a5 a6) (made y' k' d' h' mi' s' b1 b2 b3 b4 b5 b6) =
    rw (yearday-date_of y k d h mi s a2 a1, yearday-date_of y' k' d' h' mi' s' b2 b1)
      (Verdict-map (days_Lex y y' k k' d d' h h' mi mi' s s' a2 b2 a3 b3)
        (λ (ey, (ed, (eh, (em, es)))).
          (let q'' : d' ≤ month_length (pos y) (suc k') =
              subst (λ n. d' ≤ month_length (pos n) (suc k')) (sym ey) b3 in
            let b : before (pos y') k' ≡ before (pos y) k' = ap (λ n. before (pos n) k') (sym ey) in
            let (ek, ed') = (day_order (pos y) k k' d d' a2 b2 a3 q'').1 (omega arith) in
            rw (ey, ek, ed', eh, em, es) refl))
        (days_Lex y' y k' k d' d h' h mi' mi s' s b2 a2 b3 a3)
        (first-Verdict y y' (λ _.
          first-Verdict (before (pos y) k + d) (before (pos y') k' + d')
            (λ _. first-Verdict h h' (λ _. first-Verdict mi mi' (λ _. last-Verdict s s'))))))

-- The comparison of valid dates fails no assertion; it is negative if the first date is earlier by year,
-- month, day, hour, minute and second, 0 if the dates are the same, and positive if the second is earlier.
pub compare-Verdict :
    (d e : Date)
    → IsMade d
    → IsMade e
    → (r : ℤ) × ((compare d e ≡ value r) × Verdict (Earlier d e) (d ≡ e) (Earlier e d) r)
unfolding compare
compare-Verdict d e (v, u) (v', u') = (
  difference d e,
  (rw (v, v') refl, Made-Verdict (IsMade-Made d (v, u)) (IsMade-Made e (v', u'))),
)
