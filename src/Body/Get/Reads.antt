-- ===== src/Body/Get/Reads.antt =====
-- What `get` writes, stated without `seq_state`: the lines of text that a delta owns, each with its
-- owner, in the order of the body.
use mathlib.Core.Path.{subst, fun_ext}
use cssc.Common.{
  ℕ, ◌≤◌, ◌≡◌, refl, sym, ap, inl, inr, List, [], ◌∷◌, Bool, true, false, Bytes, Option, none, some,
  arith, drop, Bool-cases, ◌==◌,
}
use cssc.SeqState.{SeqState, Outcome, done, failed, start, end, include_line}
use cssc.SeqState.Blocks.{
  Kind, insert, letter, opens, includes, Owner, IsSettled, include_line-Owner, update,
}
use cssc.SeqState.Steps.{Changed, start-Changed, start_inversion, end-Changed, end_inversion}
use cssc.SeqState.Create.{IsReady, IsReady-IsSettled, IsReady-opens}
use cssc.Body.Line.{
  guard, line_type, check_arg, strict_atous, expected_insert, Result, ok, fail, ◌>>=◌, ◌>>◌, Event,
  text, opened, closed, classify,
}
use cssc.Body.Get.{get, or_same, Parms, Output, emit_line, step, get_loop, checked}

-- The events of the lines, if every line is well formed.
unfoldable pub events : ℕ → List Bytes → Result (List Event)
events highest [] = ok []
events highest (line ∷ lines) = do e ← classify highest line; es ← events highest lines; ok (e ∷ es)

-- `Reads inc last op es taken op'`: from the open blocks `op` the events `es` are in order, open and
-- close blocks until `op'` are open, and `taken` are the lines that have an owner, with it.
pub data Reads (inc : ℕ → Bool) (last : ℕ)
    : (ℕ → Option Kind) → List Event → List (ℕ × Bytes) → (ℕ → Option Kind) → Type 0 where
  nothing : {op : ℕ → Option Kind} → Reads inc last op [] [] op
  takes :
      {op op' : ℕ → Option Kind} {es : List Event} {taken : List (ℕ × Bytes)}
      → (i : ℕ) (line : Bytes) → Owner inc op i
      → Reads inc last op es taken op'
      → Reads inc last op (text line ∷ es) ((i, line) ∷ taken) op'
  skips :
      {op op' : ℕ → Option Kind} {es : List Event} {taken : List (ℕ × Bytes)}
      → (line : Bytes) → ((i : ℕ) → ¬ Owner inc op i)
      → Reads inc last op es taken op'
      → Reads inc last op (text line ∷ es) taken op'
  opens_block :
      {op op' : ℕ → Option Kind} {es : List Event} {taken : List (ℕ × Bytes)}
      → (k : Kind) (seq : ℕ) → seq ≤ last
      → op seq ≡ none
      → Reads inc last (update op seq (some k)) es taken op'
      → Reads inc last op (opened k seq ∷ es) taken op'
  closes_block :
      {op op' : ℕ → Option Kind} {es : List Event} {taken : List (ℕ × Bytes)}
      → (k : Kind) (seq : ℕ) → seq ≤ last
      → op seq ≡ some k
      → Reads inc last (update op seq none) es taken op'
      → Reads inc last op (closed seq ∷ es) taken op'

-- Writing the taken lines one after the other.
unfoldable pub emit_all : Output → List (ℕ × Bytes) → Parms → Result Parms
emit_all o [] p = ok p
emit_all o ((i, line) ∷ taken) p = do p' ← emit_line o i line p; emit_all o taken p'

unfoldable pub run : Output → List Event → SeqState → Parms → Result (SeqState × Parms)
run o [] st p = ok (st, p)
run o (e ∷ es) st p = do next ← step o e st p; run o es next.0 next.1

-- What one successful run comes to.
pub record Wrote (o : Output) (st : SeqState) (es : List Event) (p : Parms) (st' : SeqState)
    (p' : Parms) : Type 0 where
  pub taken : List (ℕ × Bytes)
  pub reads : Reads (includes st.states) st.last (opens st.states) es taken (opens st'.states)
  pub emitted : emit_all o taken p ≡ ok p'
  pub settled : IsSettled st'

pub unbind :
    {A B : Type 0} {last : B}
    → (m : Result A) (f : A → Result B) → (m >>= f) ≡ ok last
    → (first : A) × (m ≡ ok first) × (f first ≡ ok last)
unbind (ok first) f whole = (first, refl, whole)
unbind (fail e) f whole = cc

checked-eq-ok :
    (p : Parms) (r : Outcome SeqState) {next : SeqState × Parms}
    → checked p r ≡ ok next
    → (st : SeqState) × (r ≡ done st) × (next ≡ (st, p))
checked-eq-ok p (done st) h = (st, refl, ground arith)
checked-eq-ok p (failed m) h = cc

module _ (o : Output) (st : SeqState) (p : Parms) where
  step-take :
      (line : Bytes) {next : SeqState × Parms}
      → step o (text line) st p ≡ ok next
      → include_line st ≡ true
      → (p1 : Parms) × (emit_line o st.active_seq line p ≡ ok p1) × (next ≡ (st, p1))
  unfolding step
  step-take line h on =
      let (p1, e, f) = unbind (emit_line o st.active_seq line p) (λ p'. ok (st, p')) (rw on at h) in
      (p1, e, ground arith)

  step-skip :
      (line : Bytes) {next : SeqState × Parms}
      → step o (text line) st p ≡ ok next
      → include_line st ≡ false
      → next ≡ (st, p)
  unfolding step
  step-skip line h off = let e = rw off at h in ground arith

  -- A step to a state with other open blocks.
  module _ (es : List Event) (st1 st' : SeqState) (p' : Parms) (seq : ℕ) (v : Option Kind)
      (c : Changed st seq v st1) (w : Wrote o st1 es p st' p') where
    moved :
        Reads
          (includes st.states)
          st.last
          (update (opens st.states) seq v)
          es
          w.taken
          (opens st'.states)
    moved =
        subst (λ op. Reads (includes st.states) st.last op es w.taken (opens st'.states)) c.opened
          (subst
            (λ l. Reads (includes st.states) l (opens st1.states) es w.taken (opens st'.states))
            c.last_kept
            (subst (λ inc. Reads inc st1.last (opens st1.states) es w.taken (opens st'.states))
              c.included_kept w.reads))

ok-pair :
    {s s' : SeqState} {p p' : Parms}
    → ◌≡◌ {A = Result (SeqState × Parms)} (ok (s, p)) (ok (s', p'))
    → (s ≡ s') × (p ≡ p')
ok-pair h = (ground arith, ground arith)

pub not-taken :
    (st : SeqState) (i : ℕ)
    → IsSettled st
    → include_line st ≡ false
    → Owner (includes st.states) (opens st.states) i
    → ⊥
not-taken st i s off own = let on = ((include_line-Owner st i s).1 own).0 in cc

step-opened :
    (o : Output) (st : SeqState) (p : Parms) (k : Kind) (seq : ℕ) {next : SeqState × Parms}
    → step o (opened k seq) st p ≡ ok next
    → checked p (start st seq (letter k)) ≡ ok next
unfolding step
step-opened o st p k seq h = h

step-closed :
    (o : Output) (st : SeqState) (p : Parms) (seq : ℕ) {next : SeqState × Parms}
    → step o (closed seq) st p ≡ ok next
    → checked p (end st seq) ≡ ok next
unfolding step
step-closed o st p seq h = h

next-eq :
    (p : Parms) (r : Outcome SeqState) (st1 : SeqState) {next : SeqState × Parms}
    → r ≡ done st1
    → checked p r ≡ ok next
    → next ≡ (st1, p)
next-eq p (done st) st1 e h = cc
next-eq p (failed m) st1 e h = cc

emit_all-cons :
    (o : Output) (i : ℕ) (line : Bytes) (taken : List (ℕ × Bytes)) (p p1 : Parms) {p' : Parms}
    → emit_line o i line p ≡ ok p1
    → emit_all o taken p1 ≡ ok p'
    → emit_all o ((i, line) ∷ taken) p ≡ ok p'
unfolding emit_all
emit_all-cons o i line taken p p1 e h = rw e h

run-Wrote :
    (o : Output) (es : List Event) (st : SeqState) (p : Parms) {st' : SeqState} {p' : Parms}
    → IsSettled st
    → run o es st p ≡ ok (st', p')
    → Wrote o st es p st' p'
unfolding run
run-Wrote o [] st p {st' = st'} {p' = p'} s e =
    let (same, same_p) = ok-pair e in
    record {
      taken = [];
      reads =
          subst (λ x. Reads (includes st.states) st.last (opens st.states) [] [] (opens x.states))
            same nothing;
      emitted = unfold emit_all in ap ok same_p;
      settled = subst IsSettled same s;
    }
run-Wrote o (text line ∷ es) st p {st' = st'} {p' = p'} s e =
    let (next, stepped, rest) = unbind (step o (text line) st p) (λ n. run o es n.0 n.1) e in
    elim (Bool-cases (include_line st)) [
      | inl on ↦
          let (p1, emits, at) = step-take o st p line stepped on in
          let w = run-Wrote o es st p1 s (subst (λ n. run o es n.0 n.1 ≡ ok (st', p')) at rest) in
          record {
            taken = (st.active_seq, line) ∷ w.taken;
            reads =
                takes st.active_seq line ((include_line-Owner st st.active_seq s).0 (on, refl))
                  w.reads;
            emitted = emit_all-cons o st.active_seq line w.taken p p1 emits w.emitted;
            settled = w.settled;
          }
      | inr off ↦
          let at = step-skip o st p line stepped off in
          let w = run-Wrote o es st p s (subst (λ n. run o es n.0 n.1 ≡ ok (st', p')) at rest) in
          record {
            taken = w.taken;
            reads = skips line (λ i own. not-taken st i s off own) w.reads;
            emitted = w.emitted;
            settled = w.settled;
          }
    ]
run-Wrote o (opened k seq ∷ es) st p {st' = st'} {p' = p'} s e =
    let (next, stepped, rest) = unbind (step o (opened k seq) st p) (λ n. run o es n.0 n.1) e in
    let (found, ran, at) =
      checked-eq-ok p (start st seq (letter k)) (step-opened o st p k seq stepped) in
    let (k', l, fits, idle) = start_inversion st seq (letter k) ran in
    let (st1, started, c) = start-Changed st seq k s fits idle in
    let here = next-eq p (start st seq (letter k)) st1 started (step-opened o st p k seq stepped) in
    let w =
      run-Wrote o es st1 p c.settled (subst (λ n. run o es n.0 n.1 ≡ ok (st', p')) here rest) in
    record {
      taken = w.taken;
      reads = opens_block k seq fits idle (moved o st p es st1 st' p' seq (some k) c w);
      emitted = w.emitted;
      settled = w.settled;
    }
run-Wrote o (closed seq ∷ es) st p {st' = st'} {p' = p'} s e =
    let (next, stepped, rest) = unbind (step o (closed seq) st p) (λ n. run o es n.0 n.1) e in
    let (found, ran, at) = checked-eq-ok p (end st seq) (step-closed o st p seq stepped) in
    let (k, fits, now) = end_inversion st seq ran in
    let (st1, ended, c) = end-Changed st seq k s fits now in
    let here = next-eq p (end st seq) st1 ended (step-closed o st p seq stepped) in
    let w =
      run-Wrote o es st1 p c.settled (subst (λ n. run o es n.0 n.1 ≡ ok (st', p')) here rest) in
    record {
      taken = w.taken;
      reads = closes_block k seq fits now (moved o st p es st1 st' p' seq none c w);
      emitted = w.emitted;
      settled = w.settled;
    }

-- `get_loop` reads line by line; the lines of a run that succeeds are all well formed.
get_loop-run :
    (o : Output) (highest : ℕ) (lines : List Bytes) (st : SeqState) (p : Parms)
    {next : SeqState × Parms}
    → get_loop o highest lines st p ≡ ok next
    → (es : List Event) × (events highest lines ≡ ok es) × (run o es st p ≡ ok next)
unfolding get_loop events run
get_loop-run o highest [] st p h = ([], refl, h)
get_loop-run o highest (line ∷ lines) st p h =
    let (e, classified, rest) =
      unbind (classify highest line) (λ e. step o e st p >>= λ n. get_loop o highest lines n.0 n.1)
        h in
    let (next, stepped, later) =
      unbind (step o e st p) (λ n. get_loop o highest lines n.0 n.1) rest in
    let (es, well_formed, ran) = get_loop-run o highest lines next.0 next.1 later in
    (e ∷ es, rw (classified, well_formed), rw stepped ran)

-- What a successful `get` of a body with the first line `line` comes to.
pub record Got (o : Output) (highest : ℕ) (line : Bytes) (lines : List Bytes) (st : SeqState)
    (p : Parms) (st' : SeqState) (p' : Parms) : Type 0 where
  pub first : ℕ
  pub first_number : strict_atous (drop 3 line) ≡ ok first
  pub rest : List Event
  pub well_formed : events highest lines ≡ ok rest
  pub taken : List (ℕ × Bytes)
  pub reads :
      Reads
        (includes st.states)
        st.last
        (λ _. none)
        (opened insert first ∷ rest)
        taken
        (opens st'.states)
  pub emitted : emit_all o taken p ≡ ok p'

first_start :
    (st : SeqState) (first : ℕ)
    → IsReady st
    → first ≤ st.last
    → Changed st first (some insert) (or_same st (start st first b'I'))
first_start st first r fits =
    let (st1, started, c) =
      start-Changed st first insert (IsReady-IsSettled st r) fits (IsReady-opens st first r) in
    subst (λ x. Changed st first (some insert) (or_same st x)) (sym started) c

-- A `get` that succeeds, from a state with no open block and a first number in range, writes exactly
-- the lines that have an owner among the included deltas, in order and each once, and nothing else.
-- Every control line was well formed, and every block was opened and closed in turn.
pub get-Got :
    (o : Output) (highest : ℕ) (line : Bytes) (lines : List Bytes) (st : SeqState) (p : Parms)
    {st' : SeqState} {p' : Parms}
    → IsReady st
    → ((first : ℕ) → strict_atous (drop 3 line) ≡ ok first → first ≤ st.last)
    → get o highest (line ∷ lines) st p ≡ ok (st', p')
    → Got o highest line lines st p st' p'
unfolding get
get-Got o highest line lines st p {st' = st'} r in_range h =
    let (_, is_insert, h1) =
      unbind (guard (line_type line == b'I') expected_insert)
        (λ _. check_arg line >> (strict_atous (drop 3 line) >>= after)) h in
    let (_, has_arg, h2) = unbind (check_arg line) (λ _. strict_atous (drop 3 line) >>= after) h1 in
    let (first, number, h3) = unbind (strict_atous (drop 3 line)) after h2 in
    let c = first_start st first r (in_range first number) in
    let st1 = or_same st (start st first b'I') in
    let (es, well_formed, ran) = get_loop-run o highest lines st1 p h3 in
    let w = run-Wrote o es st1 p c.settled ran in
    let none_open : opens st.states ≡ (λ _. none) = fun_ext λ n. IsReady-opens st n r in
    record {
      first = first;
      first_number = number;
      rest = es;
      well_formed = well_formed;
      taken = w.taken;
      reads =
          subst
            (λ op.
              Reads (includes st.states) st.last op (opened insert first ∷ es) w.taken
                (opens st'.states))
            none_open
            (opens_block insert first c.in_range (IsReady-opens st first r)
              (moved o st p es st1 st' _ first (some insert) c w));
      emitted = w.emitted;
    }
  where
    after : ℕ → Result (SeqState × Parms)
    after first = get_loop o highest lines (or_same st (start st first b'I')) p
