-- ===== src/SeqState/Failures.antt =====
-- How `start` and `end` end.
use mathlib.Core.Path.{subst}
use cssc.Common.{
  ℕ, ◌≤◌, ◌<◌, ◌≡◌, refl, sym, ◌≢◌, ◌⊎◌, inl, inr, true, none, some, arith, if◌then◌else◌, ◌==◌,
  Bool-cases, Option-cases, ltb,
}
use cssc.SeqState.{
  OneState, SeqState, Message, Outcome, done, failed, invalid_command_letter,
  invalid_sequence_number, insert_already_active, delete_already_active, unmatched_end, state_at,
  decide_disposition, start, end, write,
}
use cssc.SeqState.Blocks.{Kind, insert, delete, letter, open_block, opens}

start_out_of_range :
    (st : SeqState) (seq : ℕ) (k : Kind)
    → st.last < seq
    → start st seq (letter k) ≡ failed invalid_sequence_number
unfolding start
start_out_of_range st seq insert p = ground arith
start_out_of_range st seq delete p = ground arith

already_active : Kind → Message
already_active insert = insert_already_active
already_active delete = delete_already_active

open-command :
    (c : OneState) (j : Kind)
    → open_block c ≡ some j
    → (if c.command == b'I' then insert_already_active else delete_already_active)
      ≡ already_active j
unfolding already_active
open-command c insert q = ground arith
open-command c delete q = ground arith

start_while_open :
    (st : SeqState) (seq : ℕ) (k j : Kind)
    → seq ≤ st.last
    → opens st.states seq ≡ some j
    → start st seq (letter k) ≡ failed (already_active j)
unfolding start
start_while_open st seq insert j p q = ground (arith, open-command (state_at st.states seq) j q)
start_while_open st seq delete j p q = ground (arith, open-command (state_at st.states seq) j q)

-- How `start` ends, and when.
pub data Starts (st : SeqState) (seq l : ℕ) : Outcome SeqState → Type 0 where
  bad_letter : l ≢ b'I' → l ≢ b'D' → Starts st seq l (failed invalid_command_letter)
  bad_number :
      (k : Kind) → l ≡ letter k → st.last < seq → Starts st seq l (failed invalid_sequence_number)
  inserted_twice :
      (k : Kind)
      → l ≡ letter k
      → seq ≤ st.last
      → opens st.states seq ≡ some insert
      → Starts st seq l (failed insert_already_active)
  deleted_twice :
      (k : Kind)
      → l ≡ letter k
      → seq ≤ st.last
      → opens st.states seq ≡ some delete
      → Starts st seq l (failed delete_already_active)
  opened :
      {st' : SeqState} (k : Kind)
      → l ≡ letter k
      → seq ≤ st.last
      → opens st.states seq ≡ none
      → Starts st seq l (done st')

-- How `end` ends, and when.
pub data Ends (st : SeqState) (seq : ℕ) : Outcome SeqState → Type 0 where
  bad_number : st.last < seq → Ends st seq (failed invalid_sequence_number)
  unmatched : seq ≤ st.last → opens st.states seq ≡ none → Ends st seq (failed unmatched_end)
  closed :
      {st' : SeqState} (k : Kind)
      → seq ≤ st.last
      → opens st.states seq ≡ some k
      → Ends st seq (done st')

letter-cases : (l : ℕ) → ((k : Kind) × (l ≡ letter k)) ⊎ ((l ≢ b'I') × (l ≢ b'D'))
letter-cases l = elim (Bool-cases (l == b'I')) [
  | inl i ↦ inl (insert, ground arith)
  | inr i ↦ elim (Bool-cases (l == b'D')) [
    | inl d ↦ inl (delete, ground arith)
    | inr d ↦ inr (ground arith, ground arith)
  ]
]

abbrev begun : SeqState → ℕ → Kind → SeqState
begun st seq k =
    decide_disposition
      (write st seq (record (state_at st.states seq) { active = true; command = letter k }))

start_idle :
    (st : SeqState) (seq : ℕ) (k : Kind)
    → seq ≤ st.last
    → opens st.states seq ≡ none
    → (st' : SeqState) × (start st seq (letter k) ≡ done st')
unfolding start
start_idle st seq insert p q = (begun st seq insert, ground arith)
start_idle st seq delete p q = (begun st seq delete, ground arith)

letter-Starts :
    (st : SeqState) (seq : ℕ) (k : Kind) → Starts st seq (letter k) (start st seq (letter k))
unfolding already_active
letter-Starts st seq k = elim (Bool-cases (ltb st.last seq)) [
  | inl over ↦
      subst (Starts st seq (letter k)) (sym (start_out_of_range st seq k (ground arith)))
        (Starts.bad_number k refl (ground arith))
  | inr fits ↦ in_range (ground arith) (Option-cases (opens st.states seq))
]
  where
    in_range :
        seq ≤ st.last
        → (opens st.states seq ≡ none) ⊎ ((j : Kind) × (opens st.states seq ≡ some j))
        → Starts st seq (letter k) (start st seq (letter k))
    in_range p (inl idle) =
        let (st', e) = start_idle st seq k p idle in
        subst (Starts st seq (letter k)) (sym e) (opened k refl p idle)
    in_range p (inr (insert, busy)) =
        subst (Starts st seq (letter k)) (sym (start_while_open st seq k insert p busy))
          (inserted_twice k refl p busy)
    in_range p (inr (delete, busy)) =
        subst (Starts st seq (letter k)) (sym (start_while_open st seq k delete p busy))
          (deleted_twice k refl p busy)

start-Starts : (st : SeqState) (seq l : ℕ) → Starts st seq l (start st seq l)
unfolding start
start-Starts st seq l = elim (letter-cases l) [
  | inl (k, e) ↦ subst (λ c. Starts st seq c (start st seq c)) (sym e) (letter-Starts st seq k)
  | inr (i, d) ↦
      let refused : start st seq l ≡ failed invalid_command_letter = ground arith in
      subst (Starts st seq l) (sym refused) (bad_letter i d)
]

end-Ends : (st : SeqState) (seq : ℕ) → Ends st seq (end st seq)
unfolding end
end-Ends st seq = elim (Bool-cases (ltb st.last seq)) [
  | inl over ↦ rw over (Ends.bad_number (ground arith))
  | inr fits ↦ rw fits (elim (Bool-cases (state_at st.states seq).active) [
    | inl busy ↦ rw busy (
        closed (if b'I' == (state_at st.states seq).command then insert else delete) (ground arith)
          (rw busy))
    | inr idle ↦ rw idle (unmatched (ground arith) (rw idle))
  ])
]

-- `start` and `end` succeed or fail, with each of their messages, in exactly these cases: another letter,
-- a number out of range, a block of the delta open already (the message names its kind), and for `end`
-- no open block.
pub start_failures :
    (st : SeqState) (seq l : ℕ) → Starts st seq l (start st seq l) × Ends st seq (end st seq)
start_failures st seq l = (start-Starts st seq l, end-Ends st seq)
