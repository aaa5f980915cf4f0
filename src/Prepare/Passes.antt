-- ===== src/Prepare/Passes.antt =====
-- What the passes over the deltas have in common.
use cssc.Common.{
  ℕ, ◌≤◌, ◌<◌, ◌≡◌, sym, ap, ◌∙◌, inl, inr, List, [], ◌∷◌, Bool, true, false, ◌&&◌, none, some, All,
  arith, Bool-cases,
}
use cssc.Common.Runs.{Run, value}
use cssc.DeltaTable.{Delta, DeltaList, delta_at_seq}
use cssc.SeqState.{SeqState, is_included}
use cssc.Prepare.{Fault, visit}
use cssc.Prepare.Marks.{names, IsMark, IsMarking, Marked, visit-Marked}

-- Delta `y` names the number `n` in one of its lists.
unfoldable pub listed : (Delta → List ℕ) → DeltaList → ℕ → ℕ → Bool
listed numbers l y n = elim (delta_at_seq l y) [ none ↦ false | some d ↦ names y (numbers d) n ]

-- From 1 to `top` every number has a delta, whose list names no later one.
abbrev pub IsListing : (Delta → List ℕ) → DeltaList → ℕ → Type 0
IsListing numbers l top =
    (y : ℕ)
    → 0 < y
    → y ≤ top
    → (d : Delta) × (delta_at_seq l y ≡ some d) × All (λ s. s ≤ y) (numbers d)

-- A run that ends well, in a state of which `P` holds.
pub record Ended (last : ℕ) (P : SeqState → Type 0) (r : Run Fault SeqState) : Type 0 where
  pub end : SeqState
  pub ran : r ≡ value end
  pub marking : IsMarking last end
  pub holds : P end

names-lt : (y : ℕ) (ss : List ℕ) (n : ℕ) → All (λ s. s ≤ y) ss → names y ss n ≡ true → n < y
unfolding names
names-lt y [] n a h = cc
names-lt y (s ∷ ss) n a h = ground (arith, names-lt y ss n a.1)

module _ (numbers : Delta → List ℕ) (l : DeltaList) where
  listed-some :
      (y n : ℕ) (d : Delta)
      → delta_at_seq l y ≡ some d
      → listed numbers l y n ≡ names y (numbers d) n
  unfolding listed
  listed-some y n d at = rw (at, listed)

  pub listed-lt :
      {top : ℕ}
      → IsListing numbers l top
      → (y n : ℕ) → 0 < y
      → y ≤ top
      → listed numbers l y n ≡ true
      → n < y
  listed-lt w y n p q h =
      let (d, at, a) = w y p q in names-lt y (numbers d) n a (sym (listed-some y n d at) ∙ h)

  pub visit-listed :
      {mark : SeqState → ℕ → SeqState} {effect : Bool → Bool → Bool} {top last : ℕ}
      → IsMark mark effect
      → IsListing numbers l top
      → (y : ℕ) (st : SeqState) → 0 < y
      → y ≤ top
      → top ≤ last
      → IsMarking last st
      → Marked last
          (λ n. effect (is_included st n) (is_included st y && listed numbers l y n))
          (visit mark numbers l y st)
  visit-listed {effect} m w y st p q t k =
      let (d, at, a) = w y p q in
      let r = visit-Marked m numbers l y d st k (omega arith) at a in
      record {
        end = r.end;
        ran = r.ran;
        marking = r.marking;
        includes = λ n.
            r.includes n
            ∙ ap (λ b. effect (is_included st n) (is_included st y && b))
                (sym (listed-some y n d at));
      }

pub not-listed :
    (numbers : Delta → List ℕ) (l : DeltaList) {top : ℕ}
    → IsListing numbers l top
    → (y n : ℕ) → 0 < y
    → y ≤ top
    → y ≤ n
    → listed numbers l y n ≡ false
not-listed numbers l w y n p q h = elim (Bool-cases (listed numbers l y n)) [
  | inl e ↦ absurd (omega (arith, listed-lt numbers l w y n p q e))
  | inr e ↦ e
]
