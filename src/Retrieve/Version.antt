-- ===== src/Retrieve/Version.antt =====
-- What `get_version` writes, in a file whose deltas are in order and without a list of deltas or a
-- cutoff date on the command line.
use mathlib.Core.Path.{subst}
use mathlib.Core.Option.{some-injective}
use cssc.Common.{
  ℕ, zero, suc, ◌+◌, ◌-◌, ◌%◌, ◌^◌, ◌≤◌, ◌<◌, ◌≡◌, refl, ap, ◌∙◌, inl, inr, List, [], ◌∷◌, Bool,
  true, false, Bytes, Option, some, if◌then◌else◌, leb, arith, Bool-cases, replicate,
}
use cssc.Common.Runs.{value, ◌>>=◌}
use cssc.Sid.{Sid}
use cssc.DeltaTable.{Delta, DeltaList, removed, delta_at_seq, delta_at_seq_exists, find}
use cssc.DeltaTable.Find.{find-Found, Found, nowhere, first}
use cssc.SeqState.{
  SeqState, initial_condition, create, is_included, is_excluded, is_explicitly_tagged, state_at,
}
use cssc.SeqState.Disposition.{IsExclusive, state_at-All}
use cssc.SeqState.Create.{IsReady, create-IsReady}
use cssc.Prepare.{prepare_seqstate, prepare_seqstate_2, command_line}
use cssc.Prepare.Marks.{IsMarking}
use cssc.Prepare.Passes.{not-listed}
use cssc.Prepare.History.{IsHistory, IsPrepared, ancestor, self, prepare_seqstate_1-IsPrepared}
use cssc.Body.Get.{Parms, Output, get}
use cssc.Retrieve.{Status, read_body, latest, tag, collect, finish, get_version}

-- No delta is named on the command line.
abbrev pub nothing_named {ℓ} : {A : Type ℓ} → A → Bool
nothing_named x = false

unnamed-kept :
    (ds : List Delta) (st : SeqState)
    → command_line nothing_named nothing_named nothing_named ds st ≡ st
unfolding command_line
unnamed-kept [] st = refl
unnamed-kept (d ∷ ds) st = elim (Bool-cases (removed d)) [
  | inl r ↦ rw r (unnamed-kept ds st)
  | inr r ↦ rw r (unnamed-kept ds st)
]

none-included :
    (l n : ℕ) (st : SeqState) → st.states ≡ replicate l initial_condition → is_included st n ≡ false
unfolding is_included
none-included l n st e = rw e (fresh_entry l n)
  where
    fresh_entry : (l n : ℕ) → (state_at (replicate l initial_condition) n).included ≡ false
    fresh_entry zero n = refl
    fresh_entry (suc l) zero = refl
    fresh_entry (suc l) (suc n) = fresh_entry l n

-- A file in order is so up to each of its deltas.
up_to : (l : DeltaList) (n : ℕ) → IsHistory l l.high_seqno → n ≤ l.high_seqno → IsHistory l n
up_to l n h q = record { high = q; deltas = λ y p r. h.deltas y p (omega arith) }

-- The state that is made and prepared for a delta.
record Made (fuel : ℕ) (l : DeltaList) (seq : ℕ) : Type 0 where
  new : SeqState
  created : create fuel l.high_seqno ≡ some new
  end : SeqState
  ran : prepare_seqstate fuel nothing_named nothing_named nothing_named l seq new ≡ value end
  marking : IsMarking l.high_seqno end
  holds : IsPrepared l seq end

made :
    (fuel : ℕ) (l : DeltaList) (seq : ℕ)
    → IsHistory l l.high_seqno
    → 0 < seq
    → seq ≤ l.high_seqno
    → l.high_seqno < 2 ^ 16 - 1
    → l.high_seqno + 1 < fuel
    → Made fuel l seq
unfolding prepare_seqstate prepare_seqstate_2
made fuel l seq h p q small enough =
    let (new, created, ready, last, states) = create-IsReady fuel l.high_seqno small enough in
    let k : IsMarking l.high_seqno new = record { ready = ready; last_is = last } in
    let r =
      prepare_seqstate_1-IsPrepared fuel l seq new (up_to l seq h q) p q (omega arith) (omega arith)
        k (λ n. none-included (suc l.high_seqno) n new states) in
    record {
      new = new;
      created = created;
      end = r.end;
      ran = rw r.ran (ap value (unnamed-kept l.items r.end));
      marking = r.marking;
      holds = r.holds;
    }

-- The delta itself is included, so that it is not excluded.
not-excluded :
    (l : DeltaList) (seq : ℕ) (st : SeqState)
    → IsHistory l l.high_seqno
    → 0 < seq
    → seq ≤ l.high_seqno
    → IsReady st
    → IsPrepared l seq st
    → is_excluded st seq ≡ false
unfolding is_excluded is_included
not-excluded l seq st h p q r w = (exclusive.0 on).0
  where
    exclusive : IsExclusive (state_at st.states seq)
    exclusive = state_at-All IsExclusive st.states seq r.exclusive (λ h. (refl, refl), λ h. refl)

    on : (state_at st.states seq).included ≡ true
    on = (w.decided seq p).1 (
      ancestor (self refl),
      (λ z pz qz _.
          not-listed (λ d. d.excluded) l
            (λ y py qy. let (d, s) = h.deltas y py (omega arith) in (d, s.found, s.excludes)) z seq
            pz qz qz),
      (λ z pz qz _.
          not-listed (λ d. d.ignored) l
            (λ y py qy. let (d, s) = h.deltas y py (omega arith) in (d, s.found, s.ignores)) z seq
            pz qz qz),
    )

pub latest-eq :
    (l : DeltaList) (st : SeqState) (s : ℕ) (d : Delta)
    → 0 < s
    → delta_at_seq_exists l s ≡ true
    → is_excluded st s ≡ false
    → delta_at_seq l s ≡ some d
    → latest l st s ≡ some (find l d.id)
unfolding latest
latest-eq l st zero d p e x at = absurd (omega arith)
latest-eq l st (suc s) d p e x at = rw (e, x, at)

Found-holds :
    {P : Delta → Type 0} {ds : List Delta} {o : Option Delta} (d : Delta)
    → Found P ds o
    → o ≡ some d
    → P d
Found-holds d (nowhere h) e = cc
Found-holds {P} d (first before after x items h p) e = subst P (some-injective _ _ e) p

find_again : (l : DeltaList) (id : Sid) (d : Delta) → find l id ≡ some d → find l d.id ≡ some d
find_again l id d e = let (_, same) = Found-holds d (find-Found l id).0 e in ap (find l) same ∙ e

tag-lines :
    (st : SeqState) (seq : ℕ) (d : Delta) (status : Status)
    → (tag st seq d status).lines ≡ status.lines
tag-lines st seq d status = ground arith

-- One round of the loop.
collect_round :
    (fuel : ℕ) (l : DeltaList) (st : SeqState) (seq : ℕ) (status : Status) (d : Delta)
    → seq ≤ l.high_seqno
    → l.high_seqno < 2 ^ 16 - 1
    → delta_at_seq l seq ≡ some d
    → collect (suc fuel) l st seq status
      ≡ collect fuel l st
          (seq + 1)
          (if is_explicitly_tagged st seq then tag st seq d status else status)
unfolding collect
collect_round fuel l st seq status d q small at =
    let again : leb seq l.high_seqno ≡ true = ground arith in
    let wrap : (seq + 1) % 2 ^ 16 ≡ seq + 1 = omega arith in
    elim (Bool-cases (is_explicitly_tagged st seq)) [
      | inl t ↦ rw (again, t, at, wrap)
      | inr t ↦ rw (again, t, wrap)
    ]

-- The loop over the command line's deltas ends.
pub collect_ends :
    (fuel : ℕ) (l : DeltaList) (st : SeqState) (seq : ℕ) (status : Status)
    → IsHistory l l.high_seqno
    → l.high_seqno < 2 ^ 16 - 1
    → 0 < seq
    → seq ≤ l.high_seqno + 1
    → l.high_seqno + 1 < fuel + seq
    → (end : Status) × (collect fuel l st seq status ≡ value end) × (end.lines ≡ status.lines)
unfolding collect
collect_ends zero l st seq status h small p q enough = absurd (omega arith)
collect_ends (suc fuel) l st seq status h small p q enough =
    elim (Bool-cases (leb seq l.high_seqno)) [
      | inl again ↦
          let (d, s) = h.deltas seq p (ground arith) in
          let next = if is_explicitly_tagged st seq then tag st seq d status else status in
          let (end, ran, same) =
            collect_ends fuel l st (seq + 1) next h small (omega arith) (ground arith)
              (omega arith) in
          let one = collect_round fuel l st seq status d (ground arith) small s.found in
          (end, one ∙ ran, same ∙ ground (arith, tag-lines st seq d status))
      | inr over ↦ (status, rw over, refl)
    ]

-- What `get_version` comes to: the body is read in a state that takes exactly the deltas of the
-- version, with the keywords of its delta.
pub get_version-body :
    (fuel : ℕ) (output : Delta → Output) (l : DeltaList) (id : Sid) (d : Delta) (body : List Bytes)
    (p : Parms)
    → IsHistory l l.high_seqno
    → l.high_seqno < 2 ^ 16 - 1
    → l.high_seqno + 1 < fuel
    → find l id ≡ some d
    → delta_at_seq l d.seq ≡ some d
    → 0 < d.seq
    → d.seq ≤ l.high_seqno
    → (st : SeqState) × IsMarking l.high_seqno st
      × IsPrepared l d.seq st
      × (get_version fuel output true nothing_named nothing_named nothing_named l id body p
          ≡ (read_body (get (output d) l.high_seqno body st p) >>= finish fuel l))
unfolding get_version
get_version-body fuel output l id d body p h small enough found at pos within =
    let m = made fuel l d.seq h pos within small enough in
    let (_, s) = h.deltas d.seq pos within in
    let x = not-excluded l d.seq m.end h pos within m.marking.ready m.holds in
    (
      m.end,
      m.marking,
      m.holds,
      rw (
        m.created,
        found,
        m.ran,
        latest-eq l m.end d.seq d pos s.exists x at,
        find_again l id d found,
      ),
    )
