-- ===== src/SeqState/Create.antt =====
-- The constructor, and the methods that mark deltas before a body is read.
use mathlib.Core.Option
use cssc.Common.{
  ℕ, zero, suc, ◌+◌, ◌-◌, ◌%◌, ◌^◌, ◌<◌, ◌≡◌, refl, ap, ◌∙◌, List, [], ◌∷◌, ◌++◌, append_assoc, not,
  if◌then◌else◌, append-nil, Bool, true, false, none, some, arith, length, length-set,
  length-replicate, replicate, All,
}
use cssc.SeqState.{
  OneState, SeqState, Highest, initial_condition, state_at, write, note, scan, nothing_open, settle,
  decide_disposition, fill, fresh, create, set_included, set_ignored, set_excluded,
  set_explicitly_included, set_explicitly_excluded, mark_explicit,
}
use cssc.SeqState.Disposition.{IsExclusive, state_at-All, set-All}
use cssc.SeqState.Blocks.{IsSettled, opens}

-- A state in which no block is open, as before a body is read.
pub record IsReady (st : SeqState) : Type 0 where
  pub sized : length st.states ≡ suc st.last
  pub exclusive : All IsExclusive st.states
  pub idle : All (λ c. c.active ≡ false) st.states
  pub not_inserting : st.inserting ≡ false

scan_idle :
    (xs : List OneState) (s : ℕ) (h : Highest) → All (λ c. c.active ≡ false) xs → scan xs s h ≡ h
unfolding scan note
scan_idle [] s h i = refl
scan_idle (x ∷ xs) s h i = ground (arith, scan_idle xs (s + 1) h i.1)

idle-decided :
    (st : SeqState)
    → All (λ c. c.active ≡ false) st.states
    → decide_disposition st ≡ record st { inserting = false }
unfolding decide_disposition settle
idle-decided st i = rw (scan_idle st.states 0 nothing_open i)

pub IsReady-IsSettled : (st : SeqState) → IsReady st → IsSettled st
IsReady-IsSettled st r = record {
  sized = r.sized;
  exclusive = r.exclusive;
  decided = idle-decided st r.idle ∙ ground (arith, r.not_inserting);
}

-- In a state that is ready no block is open.
pub IsReady-opens : (st : SeqState) (n : ℕ) → IsReady st → opens st.states n ≡ none
IsReady-opens st n r = rw (state_at-All (λ c. c.active ≡ false) st.states n r.idle refl)

write-IsReady :
    (st : SeqState) (n : ℕ) (v : OneState)
    → IsReady st
    → IsExclusive v
    → v.active ≡ (state_at st.states n).active
    → IsReady (write st n v)
write-IsReady st n v r x e = record {
  sized = length-set st.states n v ∙ r.sized;
  exclusive = set-All IsExclusive st.states n v r.exclusive x;
  idle =
      set-All (λ c. c.active ≡ false) st.states n v r.idle
        (e ∙ state_at-All (λ c. c.active ≡ false) st.states n r.idle refl);
  not_inserting = r.not_inserting;
}

at-IsExclusive : (st : SeqState) (n : ℕ) → IsReady st → IsExclusive (state_at st.states n)
at-IsExclusive st n r =
    state_at-All IsExclusive st.states n r.exclusive (λ h. (refl, refl), λ h. refl)

pub set_included-IsReady :
    (st : SeqState) (n : ℕ) (b : Bool) → IsReady st → IsReady (set_included st n b)
unfolding set_included
set_included-IsReady st n b r = write-IsReady st n _ r (λ h. (refl, refl), λ h. refl) refl

pub set_ignored-IsReady : (st : SeqState) (n : ℕ) → IsReady st → IsReady (set_ignored st n)
unfolding set_ignored
set_ignored-IsReady st n r = write-IsReady st n _ r (λ h. cc, λ h. cc) refl

pub set_excluded-IsReady : (st : SeqState) (n : ℕ) → IsReady st → IsReady (set_excluded st n)
unfolding set_excluded
set_excluded-IsReady st n r = write-IsReady st n _ r (λ h. cc, λ h. refl) refl

mark_explicit-IsReady : (st : SeqState) (n : ℕ) → IsReady st → IsReady (mark_explicit st n)
mark_explicit-IsReady st n r = write-IsReady st n _ r (at-IsExclusive st n r) refl

set_explicitly_included-IsReady :
    (st : SeqState) (n : ℕ) → IsReady st → IsReady (set_explicitly_included st n)
unfolding set_explicitly_included
set_explicitly_included-IsReady st n r = decide_mark (state_at st.states n).included
  where
    decide_mark :
        (b : Bool) → IsReady (if not b then mark_explicit (set_included st n false) n else st)
    decide_mark true = r
    decide_mark false = mark_explicit-IsReady _ n (set_included-IsReady st n false r)

-- Every method that marks a delta leaves a state ready: of the three dispositions of a delta at most
-- one is set, and no block is open.
pub marks-IsReady :
    (st : SeqState) (n : ℕ)
    → IsReady st
    → ((b : Bool) → IsReady (set_included st n b))
      × IsReady (set_ignored st n)
      × IsReady (set_excluded st n)
      × IsReady (set_explicitly_included st n)
      × IsReady (set_explicitly_excluded st n)
unfolding set_explicitly_excluded
marks-IsReady st n r = (
  λ b. set_included-IsReady st n b r,
  set_ignored-IsReady st n r,
  set_excluded-IsReady st n r,
  set_explicitly_included-IsReady st n r,
  mark_explicit-IsReady _ n (set_excluded-IsReady st n r),
)

fill_lem :
    (fuel last i k : ℕ) (xs : List OneState)
    → last < 2 ^ 16 - 1
    → i + k ≡ last + 1
    → k < fuel
    → fill fuel last i xs ≡ some (xs ++ replicate k initial_condition)
unfolding fill
fill_lem zero last i k xs small e enough = absurd (omega arith)
fill_lem (suc fuel) last i zero xs small e enough = rw append-nil (ground arith)
fill_lem (suc fuel) last i (suc k) xs small e enough = ground (
  arith,
  fill_lem fuel last (i + 1) k (xs ++ initial_condition ∷ []),
  append_assoc xs (initial_condition ∷ []) (replicate k initial_condition),
)

All-replicate :
    (P : OneState → Type 0) (n : ℕ) → P initial_condition → All P (replicate n initial_condition)
All-replicate P zero h = tt
All-replicate P (suc n) h = (h, All-replicate P n h)

fresh-IsReady : (l : ℕ) → IsReady (fresh l (replicate (suc l) initial_condition))
fresh-IsReady l = record {
  sized = length-replicate (suc l) initial_condition;
  exclusive = All-replicate IsExclusive (suc l) (λ h. (refl, refl), λ h. refl);
  idle = All-replicate (λ c. c.active ≡ false) (suc l) refl;
  not_inserting = refl;
}

-- For a last number below 65535 the constructor ends, in a ready state with an entry in its initial
-- condition for each number from 0 to the last: no delta is included.
pub create-IsReady :
    (fuel l : ℕ)
    → l < 2 ^ 16 - 1
    → l + 1 < fuel
    → (st : SeqState) × (create fuel l ≡ some st)
      × IsReady st
      × (st.last ≡ l)
      × (st.states ≡ replicate (suc l) initial_condition)
unfolding create
create-IsReady fuel l small enough =
    let st = fresh l (replicate (suc l) initial_condition) in
    let r = fresh-IsReady l in
    (
      st,
      ap (Option.map (λ xs. decide_disposition (fresh l xs)))
            (fill_lem fuel l 0 (suc l) [] small (omega arith) (omega arith))
          ∙ ap some (idle-decided st r.idle),
      r,
      refl,
      refl,
    )

fill_never : (fuel i : ℕ) (xs : List OneState) → i < 2 ^ 16 → fill fuel (2 ^ 16 - 1) i xs ≡ none
unfolding fill
fill_never zero i xs h = refl
fill_never (suc fuel) i xs h =
    ground (arith, fill_never fuel ((i + 1) % 2 ^ 16) (xs ++ initial_condition ∷ []))

-- For the last number 65535, the greatest that a `seq_no` can hold, the loop of the constructor does
-- not end, whatever number of rounds it is given: its counter wraps around.
pub create_diverges : (fuel l : ℕ) → l ≡ 2 ^ 16 - 1 → create fuel l ≡ none
unfolding create
create_diverges fuel l e = rw e (
    ap (Option.map (λ xs. decide_disposition (fresh (2 ^ 16 - 1) xs)))
      (fill_never fuel 0 [] (omega arith)))
