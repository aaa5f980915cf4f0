-- ===== src/Prepare/Marks.antt =====
-- What one mark, a list of marks and one visit change: which deltas are included.
use cssc.Common.{
  ℕ, ◌≤◌, ◌<◌, ◌≡◌, refl, sym, ap, ◌∙◌, inl, inr, List, [], ◌∷◌, Bool, false, ◌||◌, ◌&&◌, not, some,
  if◌then◌else◌, ◌==◌, ==_iff, All, arith, Bool-cases, length, get_or-set_self, get_or-set_ne,
}
use cssc.Common.Runs.{Run, value}
use cssc.DeltaTable.{Delta, DeltaList, delta_at_seq}
use cssc.SeqState.{
  OneState, SeqState, write, initial_condition, is_included, set_included, set_excluded,
  set_ignored,
}
use cssc.SeqState.Create.{IsReady, set_included-IsReady, set_excluded-IsReady, set_ignored-IsReady}
use cssc.Prepare.{Fault, each, visit}

-- The numbers of a list but `y`.
unfoldable pub names : ℕ → List ℕ → ℕ → Bool
names y [] n = false
names y (s ∷ ss) n = (not (s == y) && (s == n)) || names y ss n

-- Reading an entry after a write.
pub is_included-write :
    (st : SeqState) (s : ℕ) (v : OneState) (n : ℕ)
    → s < length st.states
    → is_included (write st s v) n ≡ (if s == n then v.included else is_included st n)
unfolding is_included
is_included-write st s v n h = elim (Bool-cases (s == n)) [
  | inl e ↦
      rw (← (==_iff s n).0 e)
        (ap (λ c. c.included) (get_or-set_self st.states s v initial_condition h) ∙ ground arith)
  | inr e ↦ rw e (
      ap (λ c. c.included)
        (get_or-set_ne st.states s n v initial_condition (λ q. cc ((==_iff s n).1 q))))
]

-- A method that marks a delta, with its effect on whether a delta is included.
pub record IsMark (mark : SeqState → ℕ → SeqState) (effect : Bool → Bool → Bool) : Type 0 where
  pub unhit : (b : Bool) → effect b false ≡ b
  pub twice : (b x y : Bool) → effect (effect b x) y ≡ effect b (x || y)
  pub ready : (st : SeqState) (s : ℕ) → IsReady st → IsReady (mark st s)
  pub last : (st : SeqState) (s : ℕ) → (mark st s).last ≡ st.last
  pub marked :
      (st : SeqState) (s n : ℕ)
      → s < length st.states
      → is_included (mark st s) n ≡ effect (is_included st n) (s == n)

abbrev pub adds : Bool → Bool → Bool
adds b x = b || x

abbrev pub drops : Bool → Bool → Bool
drops b x = b && not x

pub include-IsMark : (b : Bool) → IsMark (λ st s. set_included st s b) adds
unfolding set_included
include-IsMark b = record {
  unhit = λ b. ground arith;
  twice = λ b x y. ground arith;
  ready = λ st s r. set_included-IsReady st s b r;
  last = λ st s. refl;
  marked = λ st s n h. is_included-write st s _ n h ∙ ground arith;
}

pub set_excluded-IsMark : IsMark set_excluded drops
unfolding set_excluded
set_excluded-IsMark = record {
  unhit = λ b. ground arith;
  twice = λ b x y. ground arith;
  ready = λ st s r. set_excluded-IsReady st s r;
  last = λ st s. refl;
  marked = λ st s n h. is_included-write st s _ n h ∙ ground arith;
}

pub set_ignored-IsMark : IsMark set_ignored drops
unfolding set_ignored
set_ignored-IsMark = record {
  unhit = λ b. ground arith;
  twice = λ b x y. ground arith;
  ready = λ st s r. set_ignored-IsReady st s r;
  last = λ st s. refl;
  marked = λ st s n h. is_included-write st s _ n h ∙ ground arith;
}

-- A state before a body is read, with its last number.
pub record IsMarking (last : ℕ) (st : SeqState) : Type 0 where
  pub ready : IsReady st
  pub last_is : st.last ≡ last

-- The end of a run: a state as before, with the given deltas included.
pub record Marked (last : ℕ) (inc : ℕ → Bool) (r : Run Fault SeqState) : Type 0 where
  pub end : SeqState
  pub ran : r ≡ value end
  pub marking : IsMarking last end
  pub includes : (n : ℕ) → is_included end n ≡ inc n

module _ {mark : SeqState → ℕ → SeqState} {effect : Bool → Bool → Bool}
    (m : IsMark mark effect) where
  pub mark-IsMarking :
      {last : ℕ} (st : SeqState) (s : ℕ) → IsMarking last st → IsMarking last (mark st s)
  mark-IsMarking st s k = record { ready = m.ready st s k.ready; last_is = m.last st s ∙ k.last_is }

  pub mark-included :
      {last : ℕ} (st : SeqState) (s n : ℕ)
      → IsMarking last st
      → s ≤ last
      → is_included (mark st s) n ≡ effect (is_included st n) (s == n)
  mark-included st s n k h = m.marked st s n (omega (arith, k.ready.sized, k.last_is))

  -- The marks of the numbers of a delta are made when none is later than the delta.
  pub each-Marked :
      {last : ℕ} (y : ℕ) (ss : List ℕ) (st : SeqState)
      → IsMarking last st
      → y ≤ last
      → All (λ s. s ≤ y) ss
      → Marked last (λ n. effect (is_included st n) (names y ss n)) (each mark y ss st)
  unfolding each names
  each-Marked y [] st k h a = record {
    end = st;
    ran = refl;
    marking = k;
    includes = λ n. sym (m.unhit (is_included st n));
  }
  each-Marked y (s ∷ ss) st k h a = elim (Bool-cases (s == y)) [
    | inl same ↦
        let r = each-Marked y ss st k h a.1 in
        record {
          end = r.end;
          ran = ground (arith, r.ran);
          marking = r.marking;
          includes = λ n. r.includes n ∙ rw same;
        }
    | inr other ↦
        let r = each-Marked y ss (mark st s) (mark-IsMarking st s k) h a.1 in
        record {
          end = r.end;
          ran = ground (arith, r.ran);
          marking = r.marking;
          includes = λ n.
              r.includes n
              ∙ ap (λ b. effect b (names y ss n)) (mark-included st s n k (omega arith))
              ∙ m.twice (is_included st n) (s == n) (names y ss n)
              ∙ rw other;
        }
  ]

  -- A visit marks the numbers of a delta that is included.
  pub visit-Marked :
      {last : ℕ} (numbers : Delta → List ℕ) (l : DeltaList) (y : ℕ) (d : Delta) (st : SeqState)
      → IsMarking last st
      → y ≤ last
      → delta_at_seq l y ≡ some d
      → All (λ s. s ≤ y) (numbers d)
      → Marked last
          (λ n. effect (is_included st n) (is_included st y && names y (numbers d) n))
          (visit mark numbers l y st)
  unfolding visit
  visit-Marked numbers l y d st k h at a = elim (Bool-cases (is_included st y)) [
    | inl on ↦
        let r = each-Marked y (numbers d) st k h a in
        record {
          end = r.end;
          ran = rw (on, at, visit) r.ran;
          marking = r.marking;
          includes = λ n. rw on (r.includes n);
        }
    | inr off ↦ record {
      end = st;
      ran = rw off;
      marking = k;
      includes = λ n. rw off (sym (m.unhit (is_included st n)));
    }
  ]
