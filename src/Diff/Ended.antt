-- ===== src/Diff/Ended.antt =====
-- The reader of diffs is in its last state only where the output of `diff` is used up.
use cssc.Common.{
  ℕ, ◌≡◌, refl, ap, inl, inr, List, [], ◌∷◌, Bool, Bytes, true, false, none, if◌then◌else◌, ◌==◌,
  ◌&&◌, not, drop, Bool-cases,
}
use cssc.Common.Int.{ℤ, pos, ltb_ℤ, eqb_ℤ, ◌+ℤ◌}
use cssc.Body.Line.{char_at}
use cssc.Diff.{
  Phase, DiffState, Corrupt, read_line, operation, command, fetch, changed, next_state, turn,
  take_line, process, is_delete, is_insert, is_end, is_nochange, expect, expected_deletion,
  expected_insertion, get_num, range_end, left_end_line,
}
use cssc.Diff.Shrink.{Ends, ended, stopped, Ends-if, Ends-bind, Ends-chain, read_line-cases}
use cssc.Diff.Insertions.{right_side-Ends}

abbrev pub IsUsedUp : DiffState → Type 0
IsUsedUp st = is_end st.phase ≡ true → st.input ≡ []

read_line-none :
    (st : DiffState) (input : List Bytes) → st.input ≡ input → read_line st ≡ none → input ≡ []
unfolding read_line
read_line-none st [] e h = refl
read_line-none st (line ∷ lines) e h = let x = rw e at h in cc

operation-IsUsedUp :
    (st : DiffState) (c : ℕ) (left right : ℤ) → Ends IsUsedUp (operation c left right st)
operation-IsUsedUp st c left right =
    Ends-if (c == b'a') (ended (λ h. cc))
      (Ends-if (c == b'd') (ended (λ h. cc)) (Ends-if (c == b'c') (ended (λ h. cc)) stopped))

command-IsUsedUp : (st : DiffState) → Ends IsUsedUp (command st)
unfolding command
command-IsUsedUp st = Ends-bind (get_num st.linebuf) (λ n1.
    Ends-bind (range_end left_end_line n1.0 n1.1) (λ n2.
      (let c = char_at n2.1 0 in
        let ahead = (if c == b'a' then n1.0 +ℤ pos 1 else n1.0) in
        Ends-if (c == 0) stopped (
          Ends-if (ltb_ℤ st.in_lineno ahead) (ended (λ h. cc)) (
            Ends-if (eqb_ℤ ahead st.in_lineno)
              (right_side-Ends c n1.0 n2.0 (drop 1 n2.1) st (operation-IsUsedUp st c)) stopped)))))

fetch-IsUsedUp : (st : DiffState) → Ends IsUsedUp (fetch st)
unfolding fetch
fetch-IsUsedUp st = elim (read_line-cases st st.input refl) [
  | inl e ↦
      (let none_left = read_line-none st st.input refl e in rw (fetch, e) (ended (λ h. none_left)))
  | inr (s, (e, t)) ↦
      rw (fetch, e)
        (Ends-if (char_at s.linebuf 0 == b'\\')
          (elim (read_line-cases s s.input refl) [
            | inl e' ↦
                (let none_left = read_line-none s s.input refl e' in rw e' (ended (λ h. none_left)))
            | inr (s', (e', t')) ↦ rw e' stopped
          ])
          (command-IsUsedUp s))
]

changed-IsUsedUp : (st : DiffState) → Ends IsUsedUp (changed st)
unfolding changed
changed-IsUsedUp st = elim (read_line-cases st st.input refl) [
  | inl e ↦ rw (changed, e) stopped
  | inr (s, (e, t)) ↦
      rw (changed, e)
        (Ends-if
          (char_at s.linebuf 0 == b'-'
            && char_at s.linebuf 1 == b'-'
            && char_at s.linebuf 2 == b'-'
            && char_at s.linebuf 3 == b'\n'
            && char_at s.linebuf 4 == 0)
          (ended (λ h. cc)) stopped)
]

next_state-IsUsedUp : (st : DiffState) → Ends IsUsedUp (next_state st)
unfolding next_state
next_state-IsUsedUp st =
    Ends-if (is_delete st.phase && not (eqb_ℤ st.change_left (pos 0))) (changed-IsUsedUp st)
      (Ends-if (is_nochange st.phase) (command-IsUsedUp st) (fetch-IsUsedUp st))

turn-IsUsedUp : (seq : ℕ) (st : DiffState) → IsUsedUp st → Ends (λ r. IsUsedUp r.0) (turn seq st)
unfolding turn
turn-IsUsedUp seq st u = Ends-if (is_end st.phase) (ended u) (
    Ends-if (ltb_ℤ st.lines_left (pos 0)) stopped (
      Ends-if (eqb_ℤ st.lines_left (pos 0)) (Ends-chain _ (next_state-IsUsedUp st) (λ s h. ended h))
        (ended u)))

expect-IsUsedUp :
    (fault : Corrupt) (c : ℕ) (st : DiffState)
    → is_end st.phase ≡ false
    → Ends IsUsedUp (expect fault c st)
expect-IsUsedUp fault c st o = elim (read_line-cases st st.input refl) [
  | inl e ↦ rw (expect, e) stopped
  | inr (s, (e, (took, same))) ↦
      rw (expect, e)
        (Ends-if (char_at s.linebuf 0 == c && char_at s.linebuf 1 == b' ')
          (ended (λ h. (let f = ap is_end same in cc))) stopped)
]

take_line-IsUsedUp : (st : DiffState) → IsUsedUp st → Ends IsUsedUp (take_line st)
unfolding take_line
take_line-IsUsedUp st u = elim (Bool-cases (is_delete st.phase)) [
  | inl t ↦ rw t (expect-IsUsedUp expected_deletion b'<' st (deletes st.phase t))
  | inr t ↦ elim (Bool-cases (is_insert st.phase)) [
    | inl i ↦
        rw (t, i)
          (Ends-chain _ (expect-IsUsedUp expected_insertion b'>' st (inserts st.phase i))
            (λ s h. ended h))
    | inr i ↦ rw (t, i) (ended u)
  ]
]
  where
    deletes : (p : Phase) → is_delete p ≡ true → is_end p ≡ false
    deletes Phase.delete h = refl
    deletes Phase.start h = cc
    deletes Phase.nochange h = cc
    deletes Phase.insert h = cc
    deletes Phase.end h = cc

    inserts : (p : Phase) → is_insert p ≡ true → is_end p ≡ false
    inserts Phase.insert h = refl
    inserts Phase.start h = cc
    inserts Phase.nochange h = cc
    inserts Phase.delete h = cc
    inserts Phase.end h = cc

pub process-IsUsedUp :
    (seq : ℕ) (st : DiffState) → IsUsedUp st → Ends (λ r. IsUsedUp r.0) (process seq st)
unfolding process
process-IsUsedUp seq st u =
    Ends-chain _
      (turn-IsUsedUp seq
        (if is_insert st.phase then st else record st { in_lineno = st.in_lineno +ℤ pos 1 })
        (counting (is_insert st.phase)))
      (λ r h. Ends-chain _ (take_line-IsUsedUp r.0 h) (λ s k. ended k))
  where
    counting :
        (c : Bool) → IsUsedUp (if c then st else record st { in_lineno = st.in_lineno +ℤ pos 1 })
    counting true = u
    counting false = u
