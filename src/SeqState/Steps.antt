-- ===== src/SeqState/Steps.antt =====
-- `start` and `end` against the view of `SeqState.Blocks`.
use mathlib.Core.Path.{fun_ext, subst}
use cssc.Common.{
  ℕ, ◌≤◌, ◌<◌, ◌≡◌, refl, ap, ◌∙◌, ◌⊎◌, inl, inr, List, true, false, Option, none, some, arith,
  if◌then◌else◌, ◌==◌, set, length, length-set, get_or-set_self, get_or-set_ne, Bool-cases, ==_iff,
}
use cssc.SeqState.{
  OneState, SeqState, done, initial_condition, state_at, decide_disposition, start, end, write,
}
use cssc.SeqState.Disposition.{IsExclusive, state_at-All, set-All}
use cssc.SeqState.Blocks.{
  Kind, insert, delete, letter, open_block, opens, includes, IsSettled, decide_disposition-keeps,
  decide_disposition-IsSettled, update,
}

-- An entry without its block.
abbrev pub marks : OneState → OneState
marks c = record c { active = false; command = 0 }

-- A state that differs in the open blocks only, by one block, and in what is decided from them.
pub record Changed (st : SeqState) (seq : ℕ) (v : Option Kind) (st' : SeqState) : Type 0 where
  pub in_range : seq ≤ st.last
  pub settled : IsSettled st'
  pub last_kept : st'.last ≡ st.last
  pub included_kept : includes st'.states ≡ includes st.states
  pub marks_kept : (n : ℕ) → marks (state_at st'.states n) ≡ marks (state_at st.states n)
  pub opened : opens st'.states ≡ update (opens st.states) seq v

state_at-set :
    (xs : List OneState) (seq n : ℕ) (v : OneState)
    → seq < length xs
    → state_at (set xs seq v) n ≡ (if seq == n then v else state_at xs n)
state_at-set xs seq n v fits = elim (Bool-cases (seq == n)) [
  | inl h ↦ rw (h, ← (==_iff seq n).0 h) (get_or-set_self xs seq v initial_condition fits)
  | inr h ↦ rw h (get_or-set_ne xs seq n v initial_condition (λ e. cc ((==_iff seq n).1 e)))
]

module _ (xs : List OneState) (seq : ℕ) (v : OneState) (fits : seq < length xs) where
  includes-set : v.included ≡ (state_at xs seq).included → includes (set xs seq v) ≡ includes xs
  includes-set e = fun_ext λ n. kept n (Bool-cases (seq == n))
    where
      kept :
          (n : ℕ)
          → ((seq == n) ≡ true) ⊎ ((seq == n) ≡ false)
          → includes (set xs seq v) n ≡ includes xs n
      kept n (inl h) =
          ap (λ c. c.included) (state_at-set xs seq n v fits)
          ∙ rw h (e ∙ ap (λ m. (state_at xs m).included) ((==_iff seq n).0 h))
      kept n (inr h) = ap (λ c. c.included) (state_at-set xs seq n v fits) ∙ rw h

  marks-set :
      marks v ≡ marks (state_at xs seq)
      → (n : ℕ) → marks (state_at (set xs seq v) n) ≡ marks (state_at xs n)
  marks-set e n = elim (Bool-cases (seq == n)) [
    | inl h ↦
        ap marks (state_at-set xs seq n v fits)
        ∙ rw h (e ∙ ap (λ m. marks (state_at xs m)) ((==_iff seq n).0 h))
    | inr h ↦ ap marks (state_at-set xs seq n v fits) ∙ rw h
  ]

  opens-set : opens (set xs seq v) ≡ update (opens xs) seq (open_block v)
  opens-set = fun_ext λ n. changed n (Bool-cases (seq == n))
    where
      changed :
          (n : ℕ)
          → ((seq == n) ≡ true) ⊎ ((seq == n) ≡ false)
          → opens (set xs seq v) n ≡ update (opens xs) seq (open_block v) n
      changed n (inl h) = rw (state_at-set xs seq n v fits, h)
      changed n (inr h) = rw (state_at-set xs seq n v fits, h)

written-Changed :
    (st : SeqState) (seq : ℕ) (v : OneState)
    → seq ≤ st.last
    → IsSettled st
    → IsExclusive v
    → marks v ≡ marks (state_at st.states seq)
    → Changed st seq (open_block v) (decide_disposition (write st seq v))
written-Changed st seq v fits s x e =
    let (same, l) = decide_disposition-keeps (write st seq v) in
    let room : seq < length st.states = omega (arith, s.sized) in
    record {
      in_range = fits;
      settled =
          decide_disposition-IsSettled (write st seq v) (length-set st.states seq v ∙ s.sized)
            (set-All IsExclusive st.states seq v s.exclusive x);
      last_kept = l;
      included_kept = ap includes same ∙ includes-set st.states seq v room (ap (λ c. c.included) e);
      marks_kept = λ n. ap (λ xs. marks (state_at xs n)) same ∙ marks-set st.states seq v room e n;
      opened = ap opens same ∙ opens-set st.states seq v room;
    }

at-IsExclusive : (st : SeqState) (n : ℕ) → IsSettled st → IsExclusive (state_at st.states n)
at-IsExclusive st n s =
    state_at-All IsExclusive st.states n s.exclusive (λ h. (refl, refl), λ h. refl)

letter-open :
    (c : OneState) (k : Kind) → open_block (record c { active = true; command = letter k }) ≡ some k
letter-open c insert = refl
letter-open c delete = refl

closed-inactive : (c : OneState) → open_block c ≡ none → c.active ≡ false
closed-inactive c h = ground arith

open-active : (c : OneState) (k : Kind) → open_block c ≡ some k → c.active ≡ true
open-active c k h = ground arith

start-eq :
    (st : SeqState) (seq : ℕ) (k : Kind)
    → seq ≤ st.last
    → (state_at st.states seq).active ≡ false
    → start st seq (letter k)
      ≡ done (
          decide_disposition
            (write st seq (record (state_at st.states seq) { active = true; command = letter k })))
unfolding start
start-eq st seq insert fits idle = ground arith
start-eq st seq delete fits idle = ground arith

pub start-Changed :
    (st : SeqState) (seq : ℕ) (k : Kind)
    → IsSettled st
    → seq ≤ st.last
    → opens st.states seq ≡ none
    → (st' : SeqState) × (start st seq (letter k) ≡ done st') × Changed st seq (some k) st'
start-Changed st seq k s fits closed =
    let c = state_at st.states seq in
    let v : OneState = record c { active = true; command = letter k } in
    let now : open_block v ≡ some k = letter-open c k in
    (
      decide_disposition (write st seq v),
      start-eq st seq k fits (closed-inactive c closed),
      subst (λ o. Changed st seq o (decide_disposition (write st seq v))) now
          (written-Changed st seq v fits s (at-IsExclusive st seq s) refl),
    )

-- `start` succeeds in no other case.
pub start_inversion :
    (st : SeqState) (seq l : ℕ) {st' : SeqState}
    → start st seq l ≡ done st'
    → (k : Kind) × (l ≡ letter k) × (seq ≤ st.last) × (opens st.states seq ≡ none)
unfolding start
start_inversion st seq l e = elim (Bool-cases (l == b'I')) [
  | inl i ↦ (insert, ground arith, ground arith, ground arith)
  | inr i ↦ (delete, ground arith, ground arith, ground arith)
]

end-eq :
    (st : SeqState) (seq : ℕ)
    → seq ≤ st.last
    → (state_at st.states seq).active ≡ true
    → end st seq
      ≡ done (
          decide_disposition
            (write st seq (record (state_at st.states seq) { active = false; command = 0 })))
unfolding end
end-eq st seq fits busy = ground arith

pub end-Changed :
    (st : SeqState) (seq : ℕ) (k : Kind)
    → IsSettled st
    → seq ≤ st.last
    → opens st.states seq ≡ some k
    → (st' : SeqState) × (end st seq ≡ done st') × Changed st seq none st'
end-Changed st seq k s fits now =
    let c = state_at st.states seq in
    let v : OneState = record c { active = false; command = 0 } in
    (
      decide_disposition (write st seq v),
      end-eq st seq fits (open-active c k now),
      written-Changed st seq v fits s (at-IsExclusive st seq s) refl,
    )

-- `end` succeeds in no other case.
pub end_inversion :
    (st : SeqState) (seq : ℕ) {st' : SeqState}
    → end st seq ≡ done st'
    → (k : Kind) × (seq ≤ st.last) × (opens st.states seq ≡ some k)
unfolding end
end_inversion st seq e = (
  (if b'I' == (state_at st.states seq).command then insert else delete),
  ground arith,
  ground arith,
)
