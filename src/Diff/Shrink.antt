-- ===== src/Diff/Shrink.antt =====
-- The state of the reader of diffs uses up its input.
use cssc.Common.{
  ℕ, suc, ◌≤◌, ◌≡◌, refl, ap, ◌⊎◌, inl, inr, List, [], ◌∷◌, Bool, true, false, Bytes, some, none,
  length, length-append, ◌++◌, append_assoc, sym, ◌∙◌, arith, Bool-cases, if◌then◌else◌, not, ◌&&◌,
  ◌==◌,
}
use cssc.Body.Line.{char_at}
use cssc.Common.{drop}
use cssc.Common.Int.{ℤ, pos, ltb_ℤ, eqb_ℤ, ◌+ℤ◌, ◌-ℤ◌}
use cssc.Common.Runs.{Run, value, quit, ◌>>=◌}
use cssc.Diff.{
  DiffState, Corrupt, read_line, operation, right_side, command, fetch, changed, next_state, turn,
  take_line, process, is_delete, is_insert, is_end, is_nochange, expect, expected_deletion,
  expected_insertion, get_num, range_end, right_end_line, right_start_line, left_end_line,
}

-- All the states that a run can end in satisfy `P`.
pub data Ends {A : Type 0} (P : A → Type 0) : Run Corrupt A → Type 0 where
  ended : {a : A} → P a → Ends P (value a)
  stopped : {f : Corrupt} → Ends P (quit f)

pub Ends-if :
    {A : Type 0} {P : A → Type 0} (c : Bool) {x y : Run Corrupt A}
    → Ends P x
    → Ends P y
    → Ends P (if c then x else y)
Ends-if true h k = h
Ends-if false h k = k

pub Ends-bind :
    {A B : Type 0} {P : B → Type 0} (r : Run Corrupt A) {f : A → Run Corrupt B}
    → ((a : A) → Ends P (f a))
    → Ends P (r >>= f)
Ends-bind (value a) h = h a
Ends-bind (quit e) h = stopped

-- The lines that are read stand before the input that is left.
abbrev pub Within : DiffState → DiffState → Type 0
Within st s = (read : List Bytes) × (st.input ≡ read ++ s.input)

Within-trans : (st s t : DiffState) → Within st s → Within s t → Within st t
Within-trans st s t (l, e) (m, f) =
    (l ++ m, e ∙ ap (λ x. l ++ x) f ∙ sym (append_assoc l m t.input))

pub Within-length : (st s : DiffState) → Within st s → length s.input ≤ length st.input
Within-length st s (l, e) = omega (arith, ap length e, length-append l s.input)

operation-Within :
    (st : DiffState) (c : ℕ) (left right : ℤ) → Ends (Within st) (operation c left right st)
operation-Within st c left right =
    Ends-if (c == b'a') (ended ([], refl))
      (Ends-if (c == b'd') (ended ([], refl)) (Ends-if (c == b'c') (ended ([], refl)) stopped))

right_side-Within :
    (c : ℕ) (line1 line2 : ℤ) (s : Bytes) (st : DiffState)
    → Ends (Within st) (right_side c line1 line2 s st)
unfolding right_side
right_side-Within c line1 line2 s st = Ends-bind (get_num s) (λ n3.
    Ends-bind
      (if eqb_ℤ n3.0 (if c == b'd' then st.out_lineno else st.out_lineno +ℤ pos 1)
        then range_end right_end_line n3.0 n3.1
        else quit right_start_line)
      (λ n4.
        Ends-if (char_at n4.1 0 == b'\n')
          (operation-Within st c (line2 -ℤ line1 +ℤ pos 1) (n4.0 -ℤ n3.0 +ℤ pos 1)) stopped))

command-Within : (st : DiffState) → Ends (Within st) (command st)
unfolding command
command-Within st = Ends-bind (get_num st.linebuf) (λ n1.
    Ends-bind (range_end left_end_line n1.0 n1.1) (λ n2.
      (let c = char_at n2.1 0 in
        let ahead = (if c == b'a' then n1.0 +ℤ pos 1 else n1.0) in
        Ends-if (c == 0) stopped (
          Ends-if (ltb_ℤ st.in_lineno ahead) (ended ([], refl)) (
            Ends-if (eqb_ℤ ahead st.in_lineno) (right_side-Within c n1.0 n2.0 (drop 1 n2.1) st)
              stopped)))))

pub Ends-chain :
    {A B : Type 0} {P : A → Type 0} {Q : B → Type 0} {r : Run Corrupt A} (f : A → Run Corrupt B)
    → Ends P r
    → ((a : A) → P a → Ends Q (f a))
    → Ends Q (r >>= f)
Ends-chain f (ended {a = a} p) h = h a p
Ends-chain f stopped h = stopped

pub Ends-map :
    {A : Type 0} {P Q : A → Type 0} {r : Run Corrupt A}
    → ((a : A) → P a → Q a)
    → Ends P r
    → Ends Q r
Ends-map h (ended {a = a} p) = ended (h a p)
Ends-map h stopped = stopped

-- A line that is read is taken from the input.
abbrev pub Took : DiffState → DiffState → Type 0
Took st s = (st.input ≡ s.linebuf ∷ s.input) × (s.phase ≡ st.phase)

pub read_line-cases :
    (st : DiffState) (input : List Bytes)
    → st.input ≡ input
    → (read_line st ≡ none) ⊎ ((s : DiffState) × ((read_line st ≡ some s) × Took st s))
unfolding read_line
read_line-cases st [] e = inl (rw e refl)
read_line-cases st (line ∷ lines) e =
    inr (record st { linebuf = line; input = lines }, (rw e refl, (e, refl)))

fetch-Within : (st : DiffState) → Ends (Within st) (fetch st)
unfolding fetch
fetch-Within st = elim (read_line-cases st st.input refl) [
  | inl e ↦ rw (fetch, e) (ended ([], refl))
  | inr (s, (e, (took, same))) ↦
      rw (fetch, e)
        (Ends-if (char_at s.linebuf 0 == b'\\')
          (elim (read_line-cases s s.input refl) [
            | inl e' ↦ rw e' (ended (s.linebuf ∷ [], took))
            | inr (s', (e', t)) ↦ rw e' stopped
          ])
          (Ends-map (λ a h. Within-trans st s a (s.linebuf ∷ [], took) h) (command-Within s)))
]

changed-Within : (st : DiffState) → Ends (Within st) (changed st)
unfolding changed
changed-Within st = elim (read_line-cases st st.input refl) [
  | inl e ↦ rw (changed, e) stopped
  | inr (s, (e, (took, same))) ↦
      rw (changed, e)
        (Ends-if
          (char_at s.linebuf 0 == b'-'
            && char_at s.linebuf 1 == b'-'
            && char_at s.linebuf 2 == b'-'
            && char_at s.linebuf 3 == b'\n'
            && char_at s.linebuf 4 == 0)
          (ended (s.linebuf ∷ [], took)) stopped)
]

next_state-Within : (st : DiffState) → Ends (Within st) (next_state st)
unfolding next_state
next_state-Within st =
    Ends-if (is_delete st.phase && not (eqb_ℤ st.change_left (pos 0))) (changed-Within st)
      (Ends-if (is_nochange st.phase) (command-Within st) (fetch-Within st))

turn-Within : (seq : ℕ) (st : DiffState) → Ends (λ r. Within st r.0) (turn seq st)
unfolding turn
turn-Within seq st = Ends-if (is_end st.phase) (ended ([], refl)) (
    Ends-if (ltb_ℤ st.lines_left (pos 0)) stopped (
      Ends-if (eqb_ℤ st.lines_left (pos 0)) (Ends-chain _ (next_state-Within st) (λ s h. ended h))
        (ended ([], refl))))

-- What a call takes: for a line that is inserted, that line is the last one.
abbrev pub Shrinks : DiffState → DiffState → Type 0
Shrinks st s =
    Within st s
    × (is_insert s.phase ≡ true → (read : List Bytes) × (st.input ≡ read ++ s.linebuf ∷ s.input))

pub Shrinks-length :
    (st s : DiffState)
    → Shrinks st s
    → is_insert s.phase ≡ true
    → suc (length s.input) ≤ length st.input
Shrinks-length st s h i =
    let (l, e) = h.1 i in omega (arith, ap length e, length-append l (s.linebuf ∷ s.input))

expect-Shrinks : (fault : Corrupt) (c : ℕ) (st : DiffState) → Ends (Shrinks st) (expect fault c st)
expect-Shrinks fault c st = elim (read_line-cases st st.input refl) [
  | inl e ↦ rw (expect, e) stopped
  | inr (s, (e, (took, same))) ↦
      rw (expect, e)
        (Ends-if (char_at s.linebuf 0 == c && char_at s.linebuf 1 == b' ')
          (ended ((s.linebuf ∷ [], took), (λ _. ([], took)))) stopped)
]

take_line-Shrinks : (st : DiffState) → Ends (Shrinks st) (take_line st)
unfolding take_line
take_line-Shrinks st =
    Ends-if (is_delete st.phase) (expect-Shrinks expected_deletion b'<' st)
      (elim (Bool-cases (is_insert st.phase)) [
        | inl t ↦ rw t (Ends-chain _ (expect-Shrinks expected_insertion b'>' st) (λ s h. ended h))
        | inr t ↦ rw t (ended (([], refl), λ i. cc))
      ])

-- A call of `process` does not add to the input, and takes a line of it if it inserts one.
pub process-Shrinks : (seq : ℕ) (st : DiffState) → Ends (λ r. Shrinks st r.0) (process seq st)
unfolding process
process-Shrinks seq st =
    (let counted =
        (if is_insert st.phase then st else record st { in_lineno = st.in_lineno +ℤ pos 1 }) in
      let same : counted.input ≡ st.input = elim (Bool-cases (is_insert st.phase)) [
        | inl t ↦ rw t refl
        | inr t ↦ rw t refl
      ] in
      Ends-chain _ (turn-Within seq counted) (λ r h.
        let (l, e) = h in
        Ends-chain _ (take_line-Shrinks r.0) (λ s k. ended (
          Within-trans st r.0 s (l, sym same ∙ e) k.0,
          λ i.
              (let (m, f) = k.1 i in
                (
                  l ++ m,
                  sym same ∙ e ∙ ap (λ x. l ++ x) f ∙ sym (append_assoc l m (s.linebuf ∷ s.input)),
                )),
        ))))
