-- ===== src/Diff/Insertions.antt =====
-- Which lines of the output of `diff` are inserted: those with the mark of an insertion.
use cssc.Common.{
  ℕ, ◌≡◌, refl, sym, ap, ◌∙◌, inl, inr, List, [], ◌∷◌, ◌++◌, append_assoc, Bool, true, false, Bytes,
  some, if◌then◌else◌, ◌==◌, ◌&&◌, not, drop, arith, Bool-cases,
}
use cssc.Common.Int.{ℤ, pos, neg_part, ltb_ℤ, eqb_ℤ, ◌+ℤ◌, ◌-ℤ◌}
use cssc.Common.Runs.{quit}
use cssc.Body.Line.{char_at}
use mathlib.Core.Option.{some-injective}
use cssc.Diff.{
  Phase, DiffState, Corrupt, read_line, operation, right_side, command, fetch, changed, next_state,
  turn, take_line, process, is_delete, is_insert, is_end, is_nochange, expect, expected_deletion,
  expected_insertion, get_num, range_end, skip_blanks, signed, right_end_line, right_start_line,
  left_end_line,
}
use cssc.Diff.Shrink.{
  Ends, ended, stopped, Ends-if, Ends-bind, Ends-map, Ends-chain, read_line-cases,
}

abbrev pub is_insertion : Bytes → Bool
is_insertion line = char_at line 0 == b'>' && char_at line 1 == b' '

-- The texts behind the marks.
abbrev pub insertions : List Bytes → List Bytes
insertions [] = []
insertions (l ∷ ls) = if is_insertion l then drop 2 l ∷ insertions ls else insertions ls

pub insertions-append : (a b : List Bytes) → insertions (a ++ b) ≡ insertions a ++ insertions b
insertions-append [] b = refl
insertions-append (l ∷ a) b = elim (Bool-cases (is_insertion l)) [
  | inl t ↦ rw t (ap (λ x. drop 2 l ∷ x) (insertions-append a b))
  | inr t ↦ rw t (insertions-append a b)
]

-- The number of the line in the predecessor is not negative.
abbrev pub IsCounted : DiffState → Type 0
IsCounted st = neg_part st.in_lineno ≡ 0

-- A command, which takes no line of the input, in a line that is no insertion.
abbrev Commanded : DiffState → DiffState → Type 0
Commanded st s =
    (is_insertion st.linebuf ≡ false) × (s.input ≡ st.input) × (s.in_lineno ≡ st.in_lineno)

operation-Commanded :
    (st : DiffState) (c : ℕ) (left right : ℤ)
    → is_insertion st.linebuf ≡ false
    → Ends (Commanded st) (operation c left right st)
operation-Commanded st c left right o = Ends-if (c == b'a') (ended (o, refl, refl)) (
    Ends-if (c == b'd') (ended (o, refl, refl))
      (Ends-if (c == b'c') (ended (o, refl, refl)) stopped))

-- Behind the two numbers, whatever holds where the operation ends.
pub right_side-Ends :
    {P : DiffState → Type 0} (c : ℕ) (line1 line2 : ℤ) (s : Bytes) (st : DiffState)
    → ((left right : ℤ) → Ends P (operation c left right st))
    → Ends P (right_side c line1 line2 s st)
unfolding right_side
right_side-Ends c line1 line2 s st k = Ends-bind (get_num s) (λ n3.
    Ends-bind
      (if eqb_ℤ n3.0 (if c == b'd' then st.out_lineno else st.out_lineno +ℤ pos 1)
        then range_end right_end_line n3.0 n3.1
        else quit right_start_line)
      (λ n4.
        Ends-if (char_at n4.1 0 == b'\n') (k (line2 -ℤ line1 +ℤ pos 1) (n4.0 -ℤ n3.0 +ℤ pos 1))
          stopped))

-- A line with the mark of an insertion is refused as a command.
insertion_refused :
    {P : DiffState → Type 0} (st : DiffState) (line : Bytes)
    → st.linebuf ≡ line
    → is_insertion line ≡ true
    → IsCounted st
    → Ends P (command st)
unfolding command get_num range_end skip_blanks signed
insertion_refused st [] e i n = absurd (ground arith)
insertion_refused st (c ∷ s) e i n =
    (let mark : c ≡ b'>' = ground arith in
      let ahead : ltb_ℤ st.in_lineno (pos 0) ≡ false = ground arith in
      rw (e, mark, ahead)
        (Ends-if (eqb_ℤ (pos 0) st.in_lineno)
          (right_side-Ends b'>' (pos 0) (pos 0) s st (λ left right. stopped)) stopped))

command-Commanded : (st : DiffState) → IsCounted st → Ends (Commanded st) (command st)
unfolding command
command-Commanded st n = elim (Bool-cases (is_insertion st.linebuf)) [
  | inl t ↦ insertion_refused st st.linebuf refl t n
  | inr o ↦ Ends-bind (get_num st.linebuf) (λ n1.
      Ends-bind (range_end left_end_line n1.0 n1.1) (λ n2.
        (let c = char_at n2.1 0 in
          let ahead = (if c == b'a' then n1.0 +ℤ pos 1 else n1.0) in
          Ends-if (c == 0) stopped (
            Ends-if (ltb_ℤ st.in_lineno ahead) (ended (o, refl, refl)) (
              Ends-if (eqb_ℤ ahead st.in_lineno)
                (right_side-Ends c n1.0 n2.0 (drop 1 n2.1) st
                  (λ left right. operation-Commanded st c left right o))
                stopped)))))
]

read_line-in_lineno :
    (st s : DiffState) (input : List Bytes)
    → st.input ≡ input
    → read_line st ≡ some s
    → s.in_lineno ≡ st.in_lineno
unfolding read_line
read_line-in_lineno st s [] e h = let x = rw e at h in cc
read_line-in_lineno st s (line ∷ lines) e h =
    let x = rw e at h in ap (λ t. t.in_lineno) (sym (some-injective _ _ x))

-- Lines are read, none of which is an insertion.
abbrev Passes : DiffState → DiffState → Type 0
Passes st s =
    (read : List Bytes) × (st.input ≡ read ++ s.input)
    × (insertions read ≡ [])
    × (s.in_lineno ≡ st.in_lineno)

Passes-Commanded : (st s : DiffState) → Commanded st s → Passes st s
Passes-Commanded st s (o, e, n) = ([], sym e, refl, n)

fetch-Passes : (st : DiffState) → IsCounted st → Ends (Passes st) (fetch st)
unfolding fetch
fetch-Passes st n = elim (read_line-cases st st.input refl) [
  | inl e ↦ rw (fetch, e) (ended ([], refl, refl, refl))
  | inr (s, (e, (took, same))) ↦
      (let still = read_line-in_lineno st s st.input refl e in
        rw (fetch, e)
          (elim (Bool-cases (char_at s.linebuf 0 == b'\\')) [
            | inl t ↦ rw t (elim (read_line-cases s s.input refl) [
              | inl e' ↦
                  (let other : is_insertion s.linebuf ≡ false = ground arith in
                    rw e' (ended (s.linebuf ∷ [], took, rw other refl, still)))
              | inr (s', (e', t')) ↦ rw e' stopped
            ])
            | inr t ↦ rw t (
                Ends-map
                  (λ a (o, i, m).
                    (s.linebuf ∷ [], took ∙ ap (λ x. s.linebuf ∷ x) (sym i), rw o refl, m ∙ still))
                  (command-Commanded s (ap neg_part still ∙ n)))
          ]))
]

changed-Passes : (st : DiffState) → Ends (Passes st) (changed st)
unfolding changed
changed-Passes st = elim (read_line-cases st st.input refl) [
  | inl e ↦ rw (changed, e) stopped
  | inr (s, (e, (took, same))) ↦
      (let still = read_line-in_lineno st s st.input refl e in
        rw (changed, e)
          (elim (Bool-cases (
            char_at s.linebuf 0 == b'-'
            && char_at s.linebuf 1 == b'-'
            && char_at s.linebuf 2 == b'-'
            && char_at s.linebuf 3 == b'\n'
            && char_at s.linebuf 4 == 0)) [
              | inl t ↦
                  (let other : is_insertion s.linebuf ≡ false = ground arith in
                    rw t (ended (s.linebuf ∷ [], took, rw other refl, still)))
              | inr t ↦ rw t stopped
            ]))
]

next_state-Passes : (st : DiffState) → IsCounted st → Ends (Passes st) (next_state st)
unfolding next_state
next_state-Passes st n =
    Ends-if (is_delete st.phase && not (eqb_ℤ st.change_left (pos 0))) (changed-Passes st) (
      Ends-if (is_nochange st.phase)
        (Ends-map (λ s h. Passes-Commanded st s h) (command-Commanded st n)) (fetch-Passes st n))

turn-Passes : (seq : ℕ) (st : DiffState) → IsCounted st → Ends (λ r. Passes st r.0) (turn seq st)
unfolding turn
turn-Passes seq st n = Ends-if (is_end st.phase) (ended ([], refl, refl, refl)) (
    Ends-if (ltb_ℤ st.lines_left (pos 0)) stopped (
      Ends-if (eqb_ℤ st.lines_left (pos 0)) (Ends-chain _ (next_state-Passes st n) (λ s h. ended h))
        (ended ([], refl, refl, refl))))

-- What a call takes for a line: an insertion if it inserts one, else none.
abbrev pub Takes : DiffState → DiffState → Type 0
Takes st s =
    (read : List Bytes) × (st.input ≡ read ++ s.input)
    × (insertions read ≡ (if is_insert s.phase then drop 2 s.linebuf ∷ [] else []))
    × (s.in_lineno ≡ st.in_lineno)

expect-Takes :
    (fault : Corrupt) (c : ℕ) (st : DiffState)
    → (is_insert st.phase ≡ true → c ≡ b'>')
    → (is_insert st.phase ≡ false → (c == b'>') ≡ false)
    → Ends (Takes st) (expect fault c st)
expect-Takes fault c st i o = elim (read_line-cases st st.input refl) [
  | inl e ↦ rw (expect, e) stopped
  | inr (s, (e, (took, same))) ↦
      (let still = read_line-in_lineno st s st.input refl e in
        rw (expect, e)
          (elim (Bool-cases (char_at s.linebuf 0 == c && char_at s.linebuf 1 == b' ')) [
            | inr t ↦ rw t stopped
            | inl t ↦ rw t (
                ended (
                  s.linebuf ∷ [],
                  took,
                  elim (Bool-cases (is_insert st.phase)) [
                    | inl u ↦
                        (let mark = i u in
                          let it : is_insertion s.linebuf ≡ true = rw mark at t in
                          rw (it, same, u) refl)
                    | inr u ↦
                        (let mark = o u in
                          let other : is_insertion s.linebuf ≡ false = ground arith in
                          rw (other, same, u) refl)
                  ],
                  still,
                ))
          ]))
]

take_line-Takes : (st : DiffState) → Ends (Takes st) (take_line st)
unfolding take_line
take_line-Takes st = elim (Bool-cases (is_delete st.phase)) [
  | inl t ↦
      rw t (expect-Takes expected_deletion b'<' st (λ i. absurd (both st.phase t i)) (λ o. refl))
  | inr t ↦ elim (Bool-cases (is_insert st.phase)) [
    | inl u ↦
        rw (t, u)
          (Ends-chain _ (expect-Takes expected_insertion b'>' st (λ i. refl) (λ o. cc))
            (λ s h. ended h))
    | inr u ↦ rw (t, u) (ended ([], refl, rw u refl, refl))
  ]
]
  where
    both : (p : Phase) → is_delete p ≡ true → is_insert p ≡ true → ⊥
    both Phase.start d i = cc
    both Phase.nochange d i = cc
    both Phase.delete d i = cc
    both Phase.insert d i = cc
    both Phase.end d i = cc

-- A call of `process` takes the lines of the output up to the next one that it inserts, if it inserts
-- one, and else no insertion.
pub process-Takes :
    (seq : ℕ) (st : DiffState)
    → IsCounted st
    → Ends
        (λ r.
          (read : List Bytes) × (st.input ≡ read ++ r.0.input)
          × (insertions read ≡ (if is_insert r.0.phase then drop 2 r.0.linebuf ∷ [] else []))
          × IsCounted r.0)
        (process seq st)
unfolding process
process-Takes seq st n =
    (let counted =
        (if is_insert st.phase then st else record st { in_lineno = st.in_lineno +ℤ pos 1 }) in
      let (same, n') = counting (is_insert st.phase) in
      Ends-chain _ (turn-Passes seq counted n') (λ r (l, e, a, m).
        Ends-chain _ (take_line-Takes r.0) (λ s (l', e', a', m'). ended (
          l ++ l',
          sym same ∙ e ∙ ap (λ x. l ++ x) e' ∙ sym (append_assoc l l' s.input),
          insertions-append l l' ∙ ap (λ x. x ++ insertions l') a ∙ a',
          ap neg_part (m' ∙ m) ∙ n',
        ))))
  where
    counting :
        (c : Bool)
        → ((if c then st else record st { in_lineno = st.in_lineno +ℤ pos 1 }).input ≡ st.input)
          × IsCounted (if c then st else record st { in_lineno = st.in_lineno +ℤ pos 1 })
    counting true = (refl, n)
    counting false = (refl, unfold ◌+ℤ◌ in ground arith)
