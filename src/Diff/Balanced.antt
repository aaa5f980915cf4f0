-- ===== src/Diff/Balanced.antt =====
-- Whatever `diff` gives out, the control lines that are written open and close blocks in turn.
use mathlib.Core.Path.{Path, subst}
use cssc.Body.Line.{char_at}
use cssc.Common.{
  ◌&&◌, ◌==◌, ℕ, ◌≡◌, refl, sym, ap, ◌∙◌, ◌⊎◌, inl, inr, List, [], ◌∷◌, ◌++◌, append_assoc,
  append-nil, Bytes, if◌then◌else◌, Bool-cases, some, none,
}
use cssc.Common.Int.{pos, ltb_ℤ, eqb_ℤ, ◌+ℤ◌}
use cssc.Common.Runs.{value-injective, bind_value, Run, value}
use cssc.Diff.{
  Phase, start, nochange, delete, insert, end, DiffState, Corrupt, initial, control_line, closing,
  opening, is_delete, is_insert, is_end, next_state, turn, take_line, process, read_line, expect,
  expected_deletion, expected_insertion,
}

-- Blocks that are opened and closed, one after the other.
pub data Blocks (seq : ℕ) : List Bytes → Type 0 where
  no_block : Blocks seq []
  block :
      {lines : List Bytes} (letter : ℕ)
      → (letter ≡ b'I') ⊎ (letter ≡ b'D')
      → Blocks seq lines
      → Blocks seq (lines ++ control_line letter seq ∷ control_line b'E' seq ∷ [])

-- What is written so far, in a phase: blocks, and the opened one of the phase.
pub data Balanced (seq : ℕ) (p : Phase) : List Bytes → Type 0 where
  balanced : {lines : List Bytes} → Blocks seq lines → Balanced seq p (lines ++ opening p seq)

-- The calls of `process`, from the first one on, with what they write.
pub data Calls (seq : ℕ) (input : List Bytes) : DiffState → List Bytes → Type 0 where
  none_yet : Calls seq input (initial input) []
  next :
      {st st' : DiffState} {lines more : List Bytes}
      → Calls seq input st lines
      → process seq st ≡ value (st', more)
      → Calls seq input st' (lines ++ more)

-- What one call writes.
pub data Wrote (seq : ℕ) (p : Phase) : Phase → List Bytes → Type 0 where
  nothing : Wrote seq p p []
  between : (p' : Phase) → Wrote seq p p' (closing p seq ++ opening p' seq)

closed_already :
    {seq : ℕ} {p : Phase} {lines : List Bytes}
    → opening p seq ≡ []
    → Balanced seq p lines
    → Blocks seq (lines ++ [])
closed_already none_open (balanced {lines = l} b) =
    rw (none_open, append-nil (l ++ []), append-nil l) b

close_block :
    (seq : ℕ) (p : Phase) {lines : List Bytes}
    → Balanced seq p lines
    → Blocks seq (lines ++ closing p seq)
close_block seq start b = closed_already refl b
close_block seq nochange b = closed_already refl b
close_block seq end b = closed_already refl b
close_block seq delete (balanced {lines = l} b) =
    rw (append_assoc l (opening delete seq) (closing delete seq)) (block b'D' (inr refl) b)
close_block seq insert (balanced {lines = l} b) =
    rw (append_assoc l (opening insert seq) (closing insert seq)) (block b'I' (inl refl) b)

Wrote-Balanced :
    {seq : ℕ} {p p' : Phase} {lines more : List Bytes}
    → Balanced seq p lines
    → Wrote seq p p' more
    → Balanced seq p' (lines ++ more)
Wrote-Balanced {lines = lines} b nothing = rw (append-nil lines) b
Wrote-Balanced {seq = seq} {p = p} {lines = lines} b (between p') =
    rw (sym (append_assoc lines (closing p seq) (opening p' seq))) (balanced (close_block seq p b))

moved :
    {seq : ℕ} {p : Phase} {a r : DiffState × List Bytes}
    → Path (Run Corrupt (DiffState × List Bytes)) (value a) (value r)
    → Wrote seq p a.0.phase a.1
    → Wrote seq p r.0.phase r.1
moved {seq = seq} {p = p} e w = subst (λ x. Wrote seq p x.0.phase x.1) (value-injective e) w

turn-Wrote :
    (seq : ℕ) (st : DiffState) (r : DiffState × List Bytes)
    → turn seq st ≡ value r
    → Wrote seq st.phase r.0.phase r.1
unfolding turn
turn-Wrote seq st r h = elim (Bool-cases (is_end st.phase)) [
  | inl t ↦ moved (rw t at h) nothing
  | inr t ↦ elim (Bool-cases (ltb_ℤ st.lines_left (pos 0))) [
    | inl u ↦ (let e = rw (t, u) at h in cc)
    | inr u ↦ elim (Bool-cases (eqb_ℤ st.lines_left (pos 0))) [
      | inl v ↦
          (let (st', (e, f)) = bind_value (next_state st) _ r (rw (t, u, v) at h) in
            moved f (between st'.phase))
      | inr v ↦ moved (rw (t, u, v) at h) nothing
    ]
  ]
]

read_line-phase :
    (st : DiffState) (input : List Bytes)
    → st.input ≡ input
    → (read_line st ≡ none) ⊎ ((s : DiffState) × ((read_line st ≡ some s) × (s.phase ≡ st.phase)))
unfolding read_line
read_line-phase st [] e = inl (rw e refl)
read_line-phase st (line ∷ lines) e =
    inr (record st { linebuf = line; input = lines }, (rw e refl, refl))

expect-phase :
    (fault : Corrupt) (c : ℕ) (st st' : DiffState)
    → expect fault c st ≡ value st'
    → st'.phase ≡ st.phase
expect-phase fault c st st' h = elim (read_line-phase st st.input refl) [
  | inl e ↦ (let x = rw (expect, e) at h in cc)
  | inr (s, (e, same)) ↦
      elim (Bool-cases (char_at s.linebuf 0 == c && char_at s.linebuf 1 == b' ')) [
        | inl t ↦ ap (λ x. x.phase) (sym (value-injective (rw (expect, e, t) at h))) ∙ same
        | inr t ↦ (let x = rw (expect, e, t) at h in cc)
      ]
]

take_line-phase : (st st' : DiffState) → take_line st ≡ value st' → st'.phase ≡ st.phase
unfolding take_line
take_line-phase st st' h = elim (Bool-cases (is_delete st.phase)) [
  | inl t ↦ expect-phase expected_deletion b'<' st st' (rw t at h)
  | inr t ↦ elim (Bool-cases (is_insert st.phase)) [
    | inl u ↦
        (let (s, (e, f)) = bind_value (expect expected_insertion b'>' st) _ st' (rw (t, u) at h) in
          ap (λ x. x.phase) (sym (value-injective f)) ∙ expect-phase expected_insertion b'>' st s e)
    | inr u ↦ ap (λ x. x.phase) (sym (value-injective (rw (t, u) at h)))
  ]
]

pub process-Wrote :
    (seq : ℕ) (st st' : DiffState) (more : List Bytes)
    → process seq st ≡ value (st', more)
    → Wrote seq st.phase st'.phase more
unfolding process
process-Wrote seq st st' more h =
    (let counted =
        (if is_insert st.phase then st else record st { in_lineno = st.in_lineno +ℤ pos 1 }) in
      let (r, (e, f)) = bind_value (turn seq counted) _ (st', more) h in
      let (s, (e', f')) = bind_value (take_line r.0) _ (st', more) f in
      let same : counted.phase ≡ st.phase = elim (Bool-cases (is_insert st.phase)) [
        | inl t ↦ rw t refl
        | inr t ↦ rw t refl
      ] in
      let w = subst (λ p. Wrote seq p r.0.phase r.1) same (turn-Wrote seq counted r e) in
      moved f' (subst (λ p. Wrote seq st.phase p r.1) (sym (take_line-phase r.0 s e')) w))

-- After any number of calls of `process`, on any input, what is written consists of blocks that are opened
-- and closed, and of the control line that opens a block if the state inserts or deletes lines.
pub process-Balanced :
    (seq : ℕ) (input : List Bytes) (st : DiffState) (lines : List Bytes)
    → Calls seq input st lines
    → Balanced seq st.phase lines
process-Balanced seq input st lines none_yet = balanced no_block
process-Balanced seq input st lines (next {st = st0} {st' = st1} {more = more} c e) =
    Wrote-Balanced (process-Balanced seq input st0 _ c) (process-Wrote seq st0 st1 more e)
