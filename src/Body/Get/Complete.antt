-- ===== src/Body/Get/Complete.antt =====
-- `get` succeeds on every body that is in order.
use mathlib.Core.Path.{subst, fun_ext}
use cssc.Common.{
  ℕ, ◌≡◌, refl, sym, ap, ◌∙◌, ◌⊎◌, inl, inr, List, [], ◌∷◌, Bool, true, false, Bytes, Option, none,
  some, Bool-cases, drop,
}
use cssc.SeqState.{SeqState, Outcome, done, failed, start, end, include_line}
use cssc.SeqState.Blocks.{
  Kind, insert, letter, opens, includes, Owner, IsSettled, include_line-Owner, update,
}
use cssc.SeqState.Create.{IsReady, IsReady-IsSettled, IsReady-opens}
use cssc.SeqState.Steps.{Changed, start-Changed, end-Changed}
use cssc.Body.Line.{
  line_type, check_arg, strict_atous, Result, ok, ◌>>=◌, Event, text, opened, closed, classify,
}
use cssc.Body.Get.{get, or_same, Parms, Output, emit_line, step, get_loop, checked}
use cssc.Body.Get.Reads.{
  events, Reads, nothing, takes, skips, opens_block, closes_block, emit_all, run, unbind,
}

-- A run that ends well, with the given blocks open at the end.
record Runs (o : Output) (es : List Event) (st : SeqState) (p p' : Parms) (op' : ℕ → Option Kind)
    : Type 0 where
  final : SeqState
  ran : run o es st p ≡ ok (final, p')
  opened_at_end : opens final.states ≡ op'

step_taken :
    (o : Output) (line : Bytes) (st : SeqState) (p p1 : Parms)
    → include_line st ≡ true
    → emit_line o st.active_seq line p ≡ ok p1
    → step o (text line) st p ≡ ok (st, p1)
unfolding step
step_taken o line st p p1 on e = rw (on, e)

step_skipped :
    (o : Output) (line : Bytes) (st : SeqState) (p : Parms)
    → include_line st ≡ false
    → step o (text line) st p ≡ ok (st, p)
unfolding step
step_skipped o line st p off = rw off

step_opened :
    (o : Output) (k : Kind) (seq : ℕ) (st st1 : SeqState) (p : Parms)
    → start st seq (letter k) ≡ done st1
    → step o (opened k seq) st p ≡ ok (st1, p)
unfolding step
step_opened o k seq st st1 p e = rw e

step_closed :
    (o : Output) (seq : ℕ) (st st1 : SeqState) (p : Parms)
    → end st seq ≡ done st1
    → step o (closed seq) st p ≡ ok (st1, p)
unfolding step
step_closed o seq st st1 p e = rw e

run-cons :
    (o : Output) (e : Event) (es : List Event) (st st1 : SeqState) (p p1 p' : Parms)
    (op' : ℕ → Option Kind)
    → step o e st p ≡ ok (st1, p1)
    → Runs o es st1 p1 p' op'
    → Runs o (e ∷ es) st p p' op'
unfolding run
run-cons o e es st st1 p p1 p' op' s r = record {
  final = r.final;
  ran = rw s r.ran;
  opened_at_end = r.opened_at_end;
}

-- What `run` reads of a state, as the indices of `Reads`.
record Viewed (inc : ℕ → Bool) (last : ℕ) (op : ℕ → Option Kind) (st : SeqState) : Type 0 where
  inc_is : includes st.states ≡ inc
  last_is : st.last ≡ last
  op_is : opens st.states ≡ op

module _ {inc : ℕ → Bool} {last : ℕ} {op : ℕ → Option Kind} {st : SeqState}
    (v : Viewed inc last op st) where
  Owner-of : (i : ℕ) → Owner inc op i → Owner (includes st.states) (opens st.states) i
  Owner-of i own =
      subst (λ f. Owner f (opens st.states) i) (sym v.inc_is)
        (subst (λ g. Owner inc g i) (sym v.op_is) own)

  of-Owner : (i : ℕ) → Owner (includes st.states) (opens st.states) i → Owner inc op i
  of-Owner i own =
      subst (λ g. Owner inc g i) v.op_is (subst (λ f. Owner f (opens st.states) i) v.inc_is own)

  Changed-Viewed :
      (seq : ℕ) (k : Option Kind) (st1 : SeqState)
      → Changed st seq k st1
      → Viewed inc last (update op seq k) st1
  Changed-Viewed seq k st1 c = record {
    inc_is = c.included_kept ∙ v.inc_is;
    last_is = c.last_kept ∙ v.last_is;
    op_is = c.opened ∙ ap (λ f. update f seq k) v.op_is;
  }

Reads-Runs :
    (o : Output) {inc : ℕ → Bool} {last : ℕ} {op op' : ℕ → Option Kind} {es : List Event}
    {taken : List (ℕ × Bytes)}
    → Reads inc last op es taken op'
    → (st : SeqState) (p p' : Parms) → Viewed inc last op st
    → IsSettled st
    → emit_all o taken p ≡ ok p'
    → Runs o es st p p' op'
unfolding run emit_all
Reads-Runs o nothing st p p' v s e = record {
  final = st;
  ran = let same : p ≡ p' = cc in ap (λ x. ok (st, x)) same;
  opened_at_end = v.op_is;
}
Reads-Runs o {op' = op'} (takes {es = es} {taken = taken} i line own r) st p p' v s e =
    let (on, active) = (include_line-Owner st i s).1 (Owner-of v i own) in
    let (p1, emits, rest) = unbind (emit_line o i line p) (emit_all o taken) e in
    run-cons o (text line) es st st p p1 p' op'
      (step_taken o line st p p1 on (ap (λ n. emit_line o n line p) active ∙ emits))
      (Reads-Runs o r st p1 p' v s rest)
Reads-Runs o {op' = op'} (skips {es = es} line unowned r) st p p' v s e =
    run-cons o (text line) es st st p p p' op'
      (step_skipped o line st p (off (Bool-cases (include_line st)))) (Reads-Runs o r st p p' v s e)
  where
    off : (include_line st ≡ true) ⊎ (include_line st ≡ false) → include_line st ≡ false
    off (inl on) = absurd (
        unowned st.active_seq
          (of-Owner v st.active_seq ((include_line-Owner st st.active_seq s).0 (on, refl))))
    off (inr f) = f
Reads-Runs o {op' = op'} (opens_block {es = es} k seq fits idle r) st p p' v s e =
    let (st1, started, c) =
      start-Changed st seq k s (rw v.last_is fits) (ap (λ f. f seq) v.op_is ∙ idle) in
    run-cons o (opened k seq) es st st1 p p p' op' (step_opened o k seq st st1 p started)
      (Reads-Runs o r st1 p p' (Changed-Viewed v seq (some k) st1 c) c.settled e)
Reads-Runs o {op' = op'} (closes_block {es = es} k seq fits now r) st p p' v s e =
    let (st1, ended, c) =
      end-Changed st seq k s (rw v.last_is fits) (ap (λ f. f seq) v.op_is ∙ now) in
    run-cons o (closed seq) es st st1 p p p' op' (step_closed o seq st st1 p ended)
      (Reads-Runs o r st1 p p' (Changed-Viewed v seq none st1 c) c.settled e)

cons-eq :
    {a b : Event} {x y : List Event}
    → ◌≡◌ {A = Result (List Event)} (ok (a ∷ x)) (ok (b ∷ y))
    → (a ≡ b) × (x ≡ y)
cons-eq p = (cc, cc)

-- On well-formed lines the loop of `get` is the run over their events.
get_loop-eq-run :
    (o : Output) (highest : ℕ) (lines : List Bytes) (es : List Event) (st : SeqState) (p : Parms)
    → events highest lines ≡ ok es
    → get_loop o highest lines st p ≡ run o es st p
unfolding get_loop events run
get_loop-eq-run o highest [] [] st p w = refl
get_loop-eq-run o highest [] (e ∷ es) st p w = cc
get_loop-eq-run o highest (line ∷ lines) [] st p w =
    let (e, c, w1) =
      unbind (classify highest line) (λ e. events highest lines >>= λ es. ok (e ∷ es)) w in
    let (es, c1, w2) = unbind (events highest lines) (λ es. ok (e ∷ es)) w1 in cc
get_loop-eq-run o highest (line ∷ lines) (e ∷ es) st p w =
    let (e1, c, w1) =
      unbind (classify highest line) (λ e. events highest lines >>= λ es. ok (e ∷ es)) w in
    let (es1, c1, w2) = unbind (events highest lines) (λ es. ok (e1 ∷ es)) w1 in
    let (p1, q1) = cons-eq w2 in
    rw (c ∙ ap ok p1) (
      ap (λ f. step o e st p >>= f)
        (fun_ext λ n. get_loop-eq-run o highest lines es n.0 n.1 (c1 ∙ ap ok q1)))

after_first :
    (o : Output) (first : ℕ) (es : List Event) (st : SeqState) (p : Parms) {next : SeqState × Parms}
    → run o (opened insert first ∷ es) st p ≡ ok next
    → run o es (or_same st (start st first b'I')) p ≡ ok next
unfolding run step
after_first o first es st p {next = next} h = go (start st first b'I') h
  where
    go :
        (out : Outcome SeqState)
        → (checked p out >>= λ n. run o es n.0 n.1) ≡ ok next
        → run o es (or_same st out) p ≡ ok next
    go (done st1) h = h
    go (failed m) h = cc

-- A body that is in order is read to its end: if every control line is well formed and opens or
-- closes a block in turn, and the lines that have an owner can be written, then `get` succeeds,
-- writes those lines, and leaves the blocks open that the body leaves open.
pub get_complete :
    (o : Output) (highest : ℕ) (line : Bytes) (lines : List Bytes) (st : SeqState) (p p' : Parms)
    (first : ℕ) (es : List Event) (taken : List (ℕ × Bytes)) (op' : ℕ → Option Kind)
    → IsReady st
    → line_type line ≡ b'I'
    → check_arg line ≡ ok tt
    → strict_atous (drop 3 line) ≡ ok first
    → events highest lines ≡ ok es
    → Reads (includes st.states) st.last (λ _. none) (opened insert first ∷ es) taken op'
    → emit_all o taken p ≡ ok p'
    → (st' : SeqState) × (get o highest (line ∷ lines) st p ≡ ok (st', p'))
      × (opens st'.states ≡ op')
unfolding get
get_complete o highest line lines st p p' first es taken op' r is_insert arg number w reads e =
    let none_open : opens st.states ≡ (λ _. none) = fun_ext λ n. IsReady-opens st n r in
    let s = IsReady-IsSettled st r in
    let whole =
      Reads-Runs o reads st p p' (record { inc_is = refl; last_is = refl; op_is = none_open }) s
        e in
    (
      whole.final,
      rw (is_insert, arg, number)
          (get_loop-eq-run o highest lines es (or_same st (start st first b'I')) p w
            ∙ after_first o first es st p whole.ran),
      whole.opened_at_end,
    )
