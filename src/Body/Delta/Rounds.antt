-- ===== src/Body/Delta/Rounds.antt =====
-- The loops of `delta` end: each line that `diff` inserts is taken from its output.
use cssc.Common.{
  ℕ, zero, suc, ◌≤◌, ◌<◌, ◌≡◌, refl, ◌⊎◌, inl, inr, List, [], ◌∷◌, ◌++◌, Bool, true, false, Bytes,
  length, arith, Bool-cases, if◌then◌else◌, not, ◌&&◌, ◌||◌, ◌==◌, ltb, drop, ◌-◌,
}
use cssc.Common.Runs.{Run, value, quit, ◌>>=◌}
use cssc.SeqState.{SeqState, Outcome, done, failed, start, end, include_line}
use cssc.SeqState.Blocks.{letter}
use cssc.Body.Line.{
  Result, Failure, invalid_serial_number, ok, fail, Event, text, opened, closed, line_type, char_at,
  control, strict_atous,
}
use cssc.Diff.{Phase, DiffState, Corrupt, is_insert, process}
use cssc.Diff.Shrink.{Ends, ended, Shrinks, Shrinks-length, Within-length, process-Shrinks}
use cssc.Body.Delta.{
  Fault, body, diff, out_of_rounds, Progress, of_body, of_state, obey, insert_line, proceed, judge,
  place, append, follow, before_line, copy_line, delta,
}
use cssc.Body.Delta.Kept.{Keeps, delta-Keeps}

abbrev pub is_out_of_rounds : Fault → Bool
is_out_of_rounds out_of_rounds = true
is_out_of_rounds _ = false

abbrev left_over : Progress → ℕ
left_over p = length p.dstate.input

-- A run that ends with at most `n` lines of the output of `diff`, or stops for a reason.
data Finished (n : ℕ) : Run Fault Progress → Type 0 where
  finished : {p : Progress} → left_over p ≤ n → Finished n (value p)
  stopped : {f : Fault} → is_out_of_rounds f ≡ false → Finished n (quit f)

Finished-le : {n m : ℕ} {r : Run Fault Progress} → n ≤ m → Finished n r → Finished m r
Finished-le h (finished p) = finished (omega arith)
Finished-le h (stopped e) = stopped e

Finished-bind :
    {n m : ℕ} {r : Run Fault Progress} (f : Progress → Run Fault Progress)
    → Finished n r
    → ((p : Progress) → left_over p ≤ n → Finished m (f p))
    → Finished m (r >>= f)
Finished-bind f (finished {p = p} h) k = k p h
Finished-bind f (stopped e) k = stopped e

-- A call of `process`, from a state or a reason to stop.
proceed-cases :
    (seq : ℕ) (p : Progress)
    → ((f : Corrupt) × (proceed seq p ≡ quit (diff f)))
      ⊎ ((q : Progress) × ((proceed seq p ≡ value q) × Shrinks p.dstate q.dstate))
unfolding proceed
proceed-cases seq p = cases (process seq p.dstate) refl (process-Shrinks seq p.dstate)
  where
    cases :
        (r : Run Corrupt (DiffState × List Bytes))
        → process seq p.dstate ≡ r
        → Ends (λ x. Shrinks p.dstate x.0) r
        → ((f : Corrupt) × (proceed seq p ≡ quit (diff f)))
          ⊎ ((q : Progress) × ((proceed seq p ≡ value q) × Shrinks p.dstate q.dstate))
    cases (value (d, lines)) e (ended s) =
        inr (record p { dstate = d; out = p.out ++ lines }, (rw e refl, s))
    cases (quit f) e s = inl (f, rw e refl)

insert_line-Finished : (max : ℕ) (p : Progress) → Finished (left_over p) (insert_line max p)
unfolding insert_line
insert_line-Finished max p =
    elim (Bool-cases
      (not (char_at p.dstate.linebuf 0 == b'>' && char_at p.dstate.linebuf 1 == b' '))) [
        | inl t ↦ rw t (stopped refl)
        | inr t ↦ elim (Bool-cases (max == 0 || ltb (length (drop 2 p.dstate.linebuf) - 1) max)) [
          | inl u ↦ rw (t, u) (finished (omega arith))
          | inr u ↦ rw (t, u) (stopped refl)
        ]
      ]

judge-Finished :
    (n : ℕ) (again : Run Fault Progress) (p : Progress) (phase : Phase)
    → left_over p ≤ n
    → (is_insert phase ≡ true → Finished n again)
    → Finished n (judge again p phase)
judge-Finished n again p Phase.start h k = stopped refl
judge-Finished n again p Phase.nochange h k = finished h
judge-Finished n again p Phase.delete h k = finished h
judge-Finished n again p Phase.insert h k = k refl
judge-Finished n again p Phase.end h k = finished h

place-Finished :
    (fuel seq max : ℕ) (p : Progress)
    → left_over p < fuel
    → Finished (left_over p) (place fuel seq max p)
unfolding place
place-Finished zero seq max p h = elim h [ ]
place-Finished (suc fuel) seq max p h = elim (proceed-cases seq p) [
  | inl (f, e) ↦ rw e (stopped refl)
  | inr (q, (e, (within, shrinks))) ↦ rw e (
      judge-Finished (left_over p) (insert_line max q >>= λ r. place fuel seq max r) q
        q.dstate.phase (Within-length p.dstate q.dstate within)
        (λ i. Finished-bind _ (insert_line-Finished max q) (λ r le.
          Finished-le (omega (arith, Shrinks-length p.dstate q.dstate (within, shrinks) i)) (
            place-Finished fuel seq max r
              (omega (arith, Shrinks-length p.dstate q.dstate (within, shrinks) i))))))
]

append-Finished :
    (fuel seq max : ℕ) (p : Progress)
    → left_over p < fuel
    → Finished (left_over p) (append fuel seq max p)
unfolding append
append-Finished zero seq max p h = elim h [ ]
append-Finished (suc fuel) seq max p h = elim (proceed-cases seq p) [
  | inl (f, e) ↦ rw e (stopped refl)
  | inr (q, (e, (within, shrinks))) ↦ elim (Bool-cases (is_insert q.dstate.phase)) [
    | inl i ↦
        rw (e, i)
          (Finished-bind _ (insert_line-Finished max q) (λ r le.
            Finished-le (omega (arith, Shrinks-length p.dstate q.dstate (within, shrinks) i)) (
              append-Finished fuel seq max r
                (omega (arith, Shrinks-length p.dstate q.dstate (within, shrinks) i)))))
    | inr i ↦ rw (e, i) (finished (Within-length p.dstate q.dstate within))
  ]
]

-- A run that can only stop for the old body.
data Reported {A : Type 0} : Run Fault A → Type 0 where
  fine : {a : A} → Reported (value a)
  reported : {f : Failure} → Reported (quit (body f))

Reported-bind :
    {A B : Type 0} {r : Run Fault A} (f : A → Run Fault B)
    → Reported r
    → ((a : A) → Reported (f a))
    → Reported (r >>= f)
Reported-bind f (fine {a = a}) k = k a
Reported-bind f reported k = reported

of_body-Reported : {A : Type 0} (r : Result A) → Reported (of_body r)
of_body-Reported (ok a) = fine
of_body-Reported (fail f) = reported

of_state-Reported : (r : Outcome SeqState) → Reported (of_state r)
of_state-Reported (done st) = fine
of_state-Reported (failed m) = reported

checked-Reported :
    {A : Type 0} (c : Bool) (f : Failure) (r : Result A)
    → Reported (if c then quit (body f) else of_body r)
checked-Reported true f r = reported
checked-Reported false f r = of_body-Reported r

obey-Reported : (e : Event) (st : SeqState) → Reported (obey e st)
obey-Reported (text t) st = fine
obey-Reported (opened k n) st = of_state-Reported (start st n (letter k))
obey-Reported (closed n) st = of_state-Reported (end st n)

follow-Reported : (highest : ℕ) (line : Bytes) (st : SeqState) → Reported (follow highest line st)
unfolding follow
follow-Reported highest line st =
    Reported-bind _ (of_body-Reported (strict_atous (drop 3 line))) (λ seq.
      Reported-bind _
        (checked-Reported (ltb seq 1 || ltb highest seq) invalid_serial_number
          (control (line_type line) seq))
        (λ e. obey-Reported e st))

followed :
    {r : Run Fault SeqState} (p : Progress)
    → Reported r
    → Finished (left_over p) (r >>= λ st. value (record p { sstate = st }))
followed p fine = finished (omega arith)
followed p reported = stopped refl

before_line-Finished :
    (fuel highest seq max : ℕ) (line : Bytes) (p : Progress)
    → left_over p < fuel
    → Finished (left_over p) (before_line fuel highest seq max line p)
unfolding before_line
before_line-Finished fuel highest seq max line p h = elim (Bool-cases (not (line_type line == 0))) [
  | inl t ↦ rw t (followed p (follow-Reported highest line p.sstate))
  | inr t ↦ elim (Bool-cases (include_line p.sstate)) [
    | inl u ↦ rw (t, u) (place-Finished fuel seq max p h)
    | inr u ↦ rw (t, u) (finished (omega arith))
  ]
]

delta-Finished :
    (fuel highest seq max : ℕ) (lines : List Bytes) (p : Progress)
    → left_over p < fuel
    → Finished (left_over p) (delta fuel highest seq max lines p)
unfolding delta copy_line
delta-Finished fuel highest seq max [] p h = elim (Bool-cases (include_line p.sstate)) [
  | inl t ↦ rw t (stopped refl)
  | inr t ↦ rw t (append-Finished fuel seq max p h)
]
delta-Finished fuel highest seq max (line ∷ lines) p h =
    Finished-bind _
      (Finished-bind _ (before_line-Finished fuel highest seq max line p h) (λ q le. finished le))
      (λ q le. Finished-le le (delta-Finished fuel highest seq max lines q (omega arith)))

-- What becomes of the old body: a new one that keeps it, or a reason for which there is none.
pub data Woven (from lines : List Bytes) : Run Fault Progress → Type 0 where
  written : {p : Progress} → Keeps from lines p.out → Woven from lines (value p)
  refused : {f : Fault} → is_out_of_rounds f ≡ false → Woven from lines (quit f)

Finished-Woven :
    {n : ℕ} {from lines : List Bytes} {r : Run Fault Progress}
    → ((p : Progress) → r ≡ value p → Keeps from lines p.out)
    → Finished n r
    → Woven from lines r
Finished-Woven k (finished {p = p} h) = written (k p refl)
Finished-Woven k (stopped e) = refused e

-- With more rounds than the output of `diff` has lines, `delta` ends: it writes a new body in which
-- the lines of the old body stand, all of them and in order, or it stops because of the old body (also
-- where a block of it is open at its end), the output of `diff`, a line that is too long, or a failed
-- assertion.
pub delta-Woven :
    (fuel highest seq max : ℕ) (lines : List Bytes) (p : Progress)
    → length p.dstate.input < fuel
    → Woven p.out lines (delta fuel highest seq max lines p)
delta-Woven fuel highest seq max lines p h =
    Finished-Woven (λ p' e. delta-Keeps fuel highest seq max lines p p' e)
      (delta-Finished fuel highest seq max lines p h)
