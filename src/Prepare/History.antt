-- ===== src/Prepare/History.antt =====
-- The deltas that a version takes: its ancestors and what they include, without what these exclude
-- or ignore.
use mathlib.Core.Path.{subst}
use mathlib.Core.Option.{some-injective}
use cssc.Common.{
  ℕ, zero, suc, ◌-◌, ◌^◌, ◌≤◌, ◌<◌, ◌≡◌, sym, ◌∙◌, ◌↔◌, ◌⊎◌, inl, inr, List, Bool, true, false,
  ◌||◌, some, ltb, ◌==◌, All, arith, Bool-cases,
}
use cssc.Common.Runs.{value}
use cssc.DeltaTable.{Delta, DeltaList, delta_at_seq, delta_at_seq_exists}
use cssc.SeqState.{SeqState, is_included, set_included}
use cssc.Prepare.{checked_delta, predecessor, descend, prepare_seqstate_1}
use cssc.Prepare.Marks.{IsMarking, include-IsMark, mark-IsMarking, mark-included}
use cssc.Prepare.Passes.{listed, IsListing, Ended}
use cssc.Prepare.Included.{Wanted, base, more, down-Wanted}
use cssc.Prepare.Excluded.{up-Kept}
use cssc.Prepare.Ignored.{down-Left}

-- Every number up to `seq` has a delta, whose predecessor is earlier and whose lists name no later
-- one.
pub record IsSound (l : DeltaList) (y : ℕ) (d : Delta) : Type 0 where
  pub found : delta_at_seq l y ≡ some d
  pub exists : delta_at_seq_exists l y ≡ true
  pub earlier : d.prev_seq < y
  pub includes : All (λ s. s ≤ y) d.included
  pub excludes : All (λ s. s ≤ y) d.excluded
  pub ignores : All (λ s. s ≤ y) d.ignored

pub record IsHistory (l : DeltaList) (seq : ℕ) : Type 0 where
  pub high : seq ≤ l.high_seqno
  pub deltas : (y : ℕ) → 0 < y → y ≤ seq → (d : Delta) × IsSound l y d

-- `Ancestor l y n`: `n` is `y`, or an ancestor of it.
pub data Ancestor (l : DeltaList) : ℕ → ℕ → Type 0 where
  self : {y n : ℕ} → n ≡ y → Ancestor l y n
  parent :
      {y n : ℕ} (d : Delta)
      → delta_at_seq l y ≡ some d
      → 0 < d.prev_seq
      → Ancestor l d.prev_seq n
      → Ancestor l y n

-- An ancestor of `y` but `y` itself.
abbrev Above : DeltaList → ℕ → ℕ → Type 0
Above l y n = (d : Delta) × (delta_at_seq l y ≡ some d) × (0 < d.prev_seq) × Ancestor l d.prev_seq n

Ancestor-cases : {l : DeltaList} {y n : ℕ} → Ancestor l y n → (n ≡ y) ⊎ Above l y n
Ancestor-cases (self e) = inl e
Ancestor-cases (parent d at p a) = inr (d, at, p, a)

sound-checked :
    (l : DeltaList) (y : ℕ) (d : Delta)
    → IsSound l y d
    → 0 < y
    → y ≤ l.high_seqno
    → (checked_delta l y ≡ value d) × (predecessor y d ≡ value d.prev_seq)
unfolding checked_delta predecessor
sound-checked l y d s p q = (rw (s.exists, s.found) (ground arith), ground (arith, s.earlier))

Above-parent :
    (l : DeltaList) (y : ℕ) {n : ℕ} (d : Delta)
    → delta_at_seq l y ≡ some d
    → Above l y n
    → (0 < d.prev_seq) × Ancestor l d.prev_seq n
Above-parent l y {n} d found (d', at, p, a) =
    subst (λ x. (0 < x.prev_seq) × Ancestor l x.prev_seq n) (some-injective _ _ (sym at ∙ found))
      (p, a)

-- One step of the loop: `inc'` is `inc` with the predecessor.
module _ (l : DeltaList) (y n : ℕ) (d : Delta) (found : delta_at_seq l y ≡ some d) (inc inc' : Bool)
    (one : inc' ≡ (inc || (d.prev_seq == n))) where
  at_root : 0 < n → ltb 0 d.prev_seq ≡ false → (inc' ≡ true) ↔ ((inc ≡ true) ⊎ Above l y n)
  at_root pos root = (
    λ e. inl (ground arith),
    λ h. elim h [
      | inl e ↦ ground arith
      | inr a ↦ let (p, _) = Above-parent l y d found a in absurd (ground arith)
    ],
  )

  not_root : 0 < d.prev_seq → ((inc' ≡ true) ⊎ Above l d.prev_seq n) ↔ ((inc ≡ true) ⊎ Above l y n)
  not_root p = (
    λ h. elim h [
      | inl e ↦ elim (Bool-cases inc) [
        | inl old ↦ inl old
        | inr new ↦ inr (d, found, p, self (ground arith))
      ]
      | inr (d', at, p', a) ↦ inr (d, found, p, parent d' at p' a)
    ],
    λ h. elim h [
      | inl e ↦ inl (ground arith)
      | inr a ↦ elim (Ancestor-cases (Above-parent l y d found a).1) [
        | inl e ↦ inl (ground arith)
        | inr b ↦ inr b
      ]
    ],
  )

descend-Above :
    {last : ℕ} (fuel : ℕ) (l : DeltaList) (seq y : ℕ) (st : SeqState)
    → IsHistory l seq
    → 0 < y
    → y ≤ seq
    → seq ≤ last
    → y ≤ fuel
    → IsMarking last st
    → Ended last
        (λ st'.
          (n : ℕ) → 0 < n → (is_included st' n ≡ true) ↔ ((is_included st n ≡ true) ⊎ Above l y n))
        (descend fuel l y st)
unfolding descend
descend-Above zero l seq y st h p q t f k = absurd (omega arith)
descend-Above (suc fuel) l seq y st h p q t f k =
    let (d, s) = h.deltas y p q in
    let (c, pr) = sound-checked l y d s p (omega (arith, h.high)) in
    let k1 = mark-IsMarking (include-IsMark false) st d.prev_seq k in
    let one = λ (n : ℕ).
      mark-included (include-IsMark false) st d.prev_seq n k (omega (arith, s.earlier)) in
    elim (Bool-cases (ltb 0 d.prev_seq)) [
      | inl again ↦
          let pos : 0 < d.prev_seq = ground arith in
          let rest =
            descend-Above fuel l seq d.prev_seq (set_included st d.prev_seq false) h pos
              (omega (arith, s.earlier)) t (omega (arith, s.earlier)) k1 in
          record {
            end = rest.end;
            ran = rw (c, pr, again) rest.ran;
            marking = rest.marking;
            holds = λ n z.
                let (to, from) = rest.holds n z in
                let (out, back) = not_root l y n d s.found (is_included st n) _ (one n) pos in
                (λ e. out (to e), λ e. from (back e));
          }
      | inr root ↦ record {
        end = set_included st d.prev_seq false;
        ran = rw (c, pr, root);
        marking = k1;
        holds = λ n z. at_root l y n d s.found (is_included st n) _ (one n) z root;
      }
    ]

-- What a version wants: its ancestors, and what a delta that it wants includes.
pub data Wants (l : DeltaList) (seq : ℕ) : ℕ → Type 0 where
  ancestor : {n : ℕ} → Ancestor l seq n → Wants l seq n
  includes :
      {n : ℕ} (m : ℕ)
      → 0 < m
      → m ≤ seq
      → Wants l seq m
      → listed (λ d. d.included) l m n ≡ true
      → Wants l seq n

-- The deltas that are included once the state is prepared: those that the version wants, that no
-- delta that it wants excludes, and that no delta that is included in the end ignores.
pub record IsPrepared (l : DeltaList) (seq : ℕ) (st : SeqState) : Type 0 where
  pub decided :
      (n : ℕ)
      → 0 < n
      → (is_included st n ≡ true) ↔ (
          Wants l seq n
          × ((z : ℕ) → 0 < z → z ≤ seq → Wants l seq z → listed (λ d. d.excluded) l z n ≡ false)
          × ((z : ℕ)
              → 0 < z
              → z ≤ seq
              → is_included st z ≡ true
              → listed (λ d. d.ignored) l z n ≡ false))

module _ (l : DeltaList) (seq : ℕ) (start : ℕ → Bool)
    (ancestors : (n : ℕ) → 0 < n → (start n ≡ true) ↔ Ancestor l seq n) where
  Wanted-Wants : {n : ℕ} → 0 < n → Wanted l start seq n → Wants l seq n
  Wanted-Wants {n} z (base e) = ancestor ((ancestors n z).0 e)
  Wanted-Wants z (more m p q w e) = includes m p q (Wanted-Wants p w) e

  Wants-Wanted : {n : ℕ} → 0 < n → Wants l seq n → Wanted l start seq n
  Wants-Wanted {n} z (ancestor a) = base ((ancestors n z).1 a)
  Wants-Wanted z (includes m p q w e) = more m p q (Wants-Wanted p w) e

module _ (l : DeltaList) (seq : ℕ) (h : IsHistory l seq) where
  listing :
      (numbers : Delta → List ℕ)
      → ((y : ℕ) (d : Delta) → IsSound l y d → All (λ s. s ≤ y) (numbers d))
      → IsListing numbers l seq
  listing numbers fits y p q = let (d, s) = h.deltas y p q in (d, s.found, fits y d s)

  -- The start of the closure, after the loop over the ancestors.
  ancestors :
      {last : ℕ} (st st1 : SeqState)
      → ((n : ℕ) → is_included st n ≡ false)
      → IsMarking last st1
      → seq ≤ last
      → ((n : ℕ) → 0 < n → (is_included st1 n ≡ true) ↔ ((is_included st n ≡ true) ⊎ Above l seq n))
      → (n : ℕ) → 0 < n
      → (is_included (set_included st1 seq false) n ≡ true) ↔ Ancestor l seq n
  ancestors st st1 none_yet k t marks n z =
      let one = mark-included (include-IsMark false) st1 seq n k t in
      (
        λ e. elim (Bool-cases (is_included st1 n)) [
          | inl old ↦ elim ((marks n z).0 old) [
            | inl on ↦ let off = none_yet n in cc
            | inr (d, at, p, a) ↦ parent d at p a
          ]
          | inr new ↦ self (ground arith)
        ],
        λ a. elim (Ancestor-cases a) [
          | inl e ↦ ground arith
          | inr b ↦ let old = (marks n z).1 (inr b) in ground arith
        ],
      )

-- In a file that is in order `prepare_seqstate_1` ends, and marks exactly the deltas that the version
-- takes. It needs a state in which nothing is included yet, and a number that is not the greatest.
pub prepare_seqstate_1-IsPrepared :
    {last : ℕ} (fuel : ℕ) (l : DeltaList) (seq : ℕ) (st : SeqState)
    → IsHistory l seq
    → 0 < seq
    → seq ≤ last
    → seq < 2 ^ 16 - 1
    → seq < fuel
    → IsMarking last st
    → ((n : ℕ) → is_included st n ≡ false)
    → Ended last (IsPrepared l seq) (prepare_seqstate_1 fuel l seq st)
unfolding prepare_seqstate_1
prepare_seqstate_1-IsPrepared fuel l seq st h z t small enough k none_yet =
    let r1 = descend-Above fuel l seq seq st h z (omega arith) t (omega arith) k in
    let k1 = mark-IsMarking (include-IsMark false) r1.end seq r1.marking in
    let start = ancestors l seq h st r1.end none_yet r1.marking t r1.holds in
    let st1 = set_included r1.end seq false in
    let r2 = down-Wanted l seq st1 (listing l seq h (λ d. d.included) (λ y d s. s.includes)) t k1 in
    let r3 =
      up-Kept l fuel seq 1 r2.end (listing l seq h (λ d. d.excluded) (λ y d s. s.excludes)) t small
        (omega arith) (omega arith) (omega arith) r2.marking in
    let r4 =
      down-Left l seq r3.end (listing l seq h (λ d. d.ignored) (λ y d s. s.ignores)) t r3.marking in
    let to = λ (n : ℕ) (p : 0 < n) (e : is_included r2.end n ≡ true).
      Wanted-Wants l seq (is_included st1) start p ((r2.holds n).0 e) in
    let from = λ (n : ℕ) (p : 0 < n) (w : Wants l seq n).
      (r2.holds n).1 (Wants-Wanted l seq (is_included st1) start p w) in
    record {
      end = r4.end;
      ran = rw (r1.ran, r2.ran, r3.ran) r4.ran;
      marking = r4.marking;
      holds = record {
        decided = λ n p. (
          λ e.
              let (e3, ign) = (r4.holds n).0 e in
              let (e2, exc) = (r3.holds n).0 e3 in
              (to n p e2, λ y py q w. exc y (omega arith) q (from y py w), ign),
          λ (w, exc, ign). (r4.holds n).1 (
            (r3.holds n).1 (from n p w, λ y py q on. exc y (omega arith) q (to y (omega arith) on)),
            ign,
          ),
        );
      };
    }
