-- ===== src/Retrieve/Lines.antt =====
-- The lines of a version.
use mathlib.Core.Path.{subst}
use cssc.Common.{
  ℕ, ◌+◌, ◌-◌, ◌^◌, ◌≤◌, ◌<◌, ◌≡◌, sym, ap, ◌∙◌, List, [], ◌∷◌, true, Bytes, Option, none, some,
  drop, arith,
}
use cssc.Common.Runs.{Run, value, ◌>>=◌}
use cssc.Sid.{Sid}
use cssc.DeltaTable.{Delta, DeltaList, delta_at_seq, find}
use cssc.SeqState.{SeqState}
use cssc.Prepare.History.{IsHistory, IsPrepared}
use cssc.Body.Get.{Parms, Output, get}
use cssc.SeqState.Blocks.{Kind, insert, includes}
use cssc.Body.Line.{Result, ok, fail, line_type, check_arg, strict_atous, Event, opened}
use cssc.Body.Get.Reads.{events, Reads, emit_all, Got, get-Got}
use cssc.Body.Get.Complete.{get_complete}
use cssc.Retrieve.{Problem, Status, read_body, finish, get_version}
use cssc.Retrieve.Version.{nothing_named, collect_ends, get_version-body}

value_parts :
    {s s' : Status} {p p' : Parms}
    → ◌≡◌ {A = Run Problem (Status × Parms)} (value (s, p)) (value (s', p'))
    → (s ≡ s') × (p ≡ p')
value_parts e = (cc, cc)

-- What a run that ends well has done before the status is collected.
read_end :
    (fuel : ℕ) (l : DeltaList)
    → l.high_seqno + 1 < fuel
    → IsHistory l l.high_seqno
    → l.high_seqno < 2 ^ 16 - 1
    → (r : Result (SeqState × Parms)) {status : Status} {p' : Parms}
    → (read_body r >>= finish fuel l) ≡ value (status, p')
    → (st' : SeqState) × (r ≡ ok (st', p')) × (status.lines ≡ p'.out_lineno)
read_end fuel l enough h small (fail f) e = cc
read_end fuel l enough h small (ok (st', q)) {status} {p'} e =
    let (s, collected, same) =
      collect_ends fuel l st' 1 (record { lines = q.out_lineno; included = []; excluded = [] }) h
        small (omega arith) (omega arith) (omega arith) in
    let (made_status, made_parms) =
      value_parts {s = s} {s' = status} {p = q} {p' = p'} (rw collected at e) in
    (
      st',
      ap (λ x. ok (st', x)) made_parms,
      sym (ap (λ x. x.lines) made_status) ∙ same ∙ ap (λ x. x.out_lineno) made_parms,
    )

module _ (fuel : ℕ) (output : Delta → Output) (l : DeltaList) (id : Sid) (d : Delta) (line : Bytes)
    (lines : List Bytes) (p : Parms) (h : IsHistory l l.high_seqno)
    (small : l.high_seqno < 2 ^ 16 - 1) (enough : l.high_seqno + 1 < fuel)
    (found : find l id ≡ some d) (at : delta_at_seq l d.seq ≡ some d) (positive : 0 < d.seq)
    (within : d.seq ≤ l.high_seqno) where
  -- Retrieving a version ends well and writes its lines, each once and in order: those that have an
  -- owner among the deltas that the version takes. This is stated for a retrieval that is permitted, with
  -- no list of -i or -x and no cutoff. The file is in order, with fewer than 65535 numbers; a delta
  -- with the SID is found, by its number too, which is positive and no greater than the highest; there is
  -- more fuel than the highest number + 1. The body begins with an insertion, its lines are classified,
  -- its blocks are in order for every state that is prepared for the version, and its lines can be
  -- written.
  pub get_version_complete :
      (p' : Parms) (n : ℕ) (es : List Event) (taken : List (ℕ × Bytes)) (op' : ℕ → Option Kind)
      → line_type line ≡ b'I'
      → check_arg line ≡ ok tt
      → strict_atous (drop 3 line) ≡ ok n
      → events l.high_seqno lines ≡ ok es
      → ((st : SeqState)
          → IsPrepared l d.seq st
          → Reads (includes st.states) l.high_seqno (λ _. none) (opened insert n ∷ es) taken op')
      → emit_all (output d) taken p ≡ ok p'
      → (status : Status) × (get_version fuel output true nothing_named nothing_named nothing_named
            l id
            (line ∷ lines)
            p
          ≡ value (status, p'))
        × (status.lines ≡ p'.out_lineno)
  get_version_complete p' n es taken op' is_insert arg number w reads e =
      let (st, k, prep, ran) =
        get_version-body fuel output l id d (line ∷ lines) p h small enough found at positive
          within in
      let whole : Reads (includes st.states) st.last (λ _. none) (opened insert n ∷ es) taken op' =
        subst (λ m. Reads (includes st.states) m (λ _. none) (opened insert n ∷ es) taken op')
          (sym k.last_is) (reads st prep) in
      let (st', got, _) =
        get_complete (output d) l.high_seqno line lines st p p' n es taken op' k.ready is_insert arg
          number w whole e in
      let (status, collected, same) =
        collect_ends fuel l st' 1 (record { lines = p'.out_lineno; included = []; excluded = [] }) h
          small (omega arith) (omega arith) (omega arith) in
      (status, ran ∙ rw (got, collected), same)

  -- A version that is retrieved is written line by line: what `get` writes in a state that takes
  -- exactly the deltas of the version, with the number of its lines in the status. The n number of
  -- the body has to be in range.
  get_version-Got :
      {status : Status} {p' : Parms}
      → ((n : ℕ) → strict_atous (drop 3 line) ≡ ok n → n ≤ l.high_seqno)
      → get_version fuel output true nothing_named nothing_named nothing_named l id (line ∷ lines) p
        ≡ value (status, p')
      → (st : SeqState) × (st' : SeqState) × IsPrepared l d.seq st
        × Got (output d) l.high_seqno line lines st p st' p'
        × (status.lines ≡ p'.out_lineno)
  get_version-Got {status} {p'} in_range e =
      let (st, k, prep, ran) =
        get_version-body fuel output l id d (line ∷ lines) p h small enough found at positive
          within in
      let (st', got, same) =
        read_end fuel l enough h small (get (output d) l.high_seqno (line ∷ lines) st p)
          (sym ran ∙ e) in
      (
        st,
        st',
        prep,
        get-Got (output d) l.high_seqno line lines st p k.ready
            (λ n a. omega (arith, in_range n a, k.last_is)) got,
        same,
      )
