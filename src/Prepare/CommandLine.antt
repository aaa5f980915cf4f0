-- ===== src/Prepare/CommandLine.antt =====
-- What the lists and the cutoff date of the command line change.
use mathlib.Core.Path.{subst}
use cssc.Common.{
  ℕ, ◌≤◌, ◌≡◌, ◌≢◌, refl, ap, ◌∙◌, List, [], ◌∷◌, ◌++◌, Bool, true, false, ◌||◌, ◌&&◌, not, ◌==◌,
  ==_iff, All, arith, if◌then◌else◌, inl, inr, Bool-cases,
}
use cssc.Sid.{Sid}
use cssc.DeltaTable.{Delta, DeltaList, removed}
use cssc.SeqState.{
  SeqState, state_at, is_included, set_included, set_excluded, set_explicitly_included,
  set_explicitly_excluded, mark_explicit,
}
use cssc.SeqState.Create.{marks-IsReady}
use cssc.Prepare.{command_line, prepare_seqstate_2}
use cssc.Prepare.Marks.{
  IsMarking, include-IsMark, set_excluded-IsMark, mark-included, mark-IsMarking, is_included-write,
}

module _ (include exclude : Sid → Bool) (newer : Delta → Bool) where
  -- The mark that one delta gets.
  abbrev choose : Delta → SeqState → SeqState
  choose d st =
      if removed d
      then st
      else if include d.id
      then set_explicitly_included st d.seq
      else if exclude d.id
      then set_explicitly_excluded st d.seq
      else if newer d
      then set_excluded st d.seq
      else st

  -- What becomes of the flag of a delta that is not removed.
  abbrev pub chosen : Delta → Bool → Bool
  chosen d b =
      if include d.id then true else if exclude d.id then false else if newer d then false else b

mark_explicit-included :
    {last : ℕ} (st : SeqState) (s n : ℕ)
    → IsMarking last st
    → s ≤ last
    → is_included (mark_explicit st s) n ≡ is_included st n
unfolding is_included
mark_explicit-included st s n k h =
    is_included-write st s _ n (omega (arith, k.ready.sized, k.last_is))
    ∙ elim (Bool-cases (s == n)) [
      | inl e ↦ rw e (ap (is_included st) ((==_iff s n).0 e))
      | inr e ↦ rw e
    ]

explicit-IsMarking :
    {last : ℕ} (st : SeqState) (s : ℕ)
    → IsMarking last st
    → IsMarking last (set_explicitly_included st s)
      × IsMarking last (set_explicitly_excluded st s)
      × IsMarking last (set_excluded st s)
unfolding set_explicitly_included set_explicitly_excluded set_included set_excluded
explicit-IsMarking st s k =
    let (_, _, excluded, inc, exc) = marks-IsReady st s k.ready in
    (
      record { ready = inc; last_is = ground (arith, k.last_is) },
      record { ready = exc; last_is = k.last_is },
      record { ready = excluded; last_is = k.last_is },
    )

-- A delta that is included already is left as it is.
old-included :
    (st : SeqState) (s n : ℕ)
    → (state_at st.states s).included ≡ true
    → is_included st n ≡ (is_included st n || (s == n))
unfolding is_included
old-included st s n old = elim (Bool-cases (s == n)) [
  | inl e ↦
      let on : (state_at st.states n).included ≡ true =
        subst (λ k. (state_at st.states k).included ≡ true) ((==_iff s n).0 e) old in
      ground arith
  | inr e ↦ ground arith
]

explicit-included :
    {last : ℕ} (st : SeqState) (s n : ℕ)
    → IsMarking last st
    → s ≤ last
    → (is_included (set_explicitly_included st s) n ≡ (is_included st n || (s == n)))
      × (is_included (set_explicitly_excluded st s) n ≡ (is_included st n && not (s == n)))
unfolding set_explicitly_included set_explicitly_excluded
explicit-included st s n k h = (
  elim (Bool-cases (state_at st.states s).included) [
    | inl old ↦ rw old (old-included st s n old)
    | inr new ↦ rw new (
        mark_explicit-included (set_included st s false) s n
          (mark-IsMarking (include-IsMark false) st s k) h
        ∙ mark-included (include-IsMark false) st s n k h)
  ],
  mark_explicit-included (set_excluded st s) s n (explicit-IsMarking st s k).2 h
      ∙ mark-included set_excluded-IsMark st s n k h,
)

module _ (include exclude : Sid → Bool) (newer : Delta → Bool) where
  choose-IsMarking :
      {last : ℕ} (d : Delta) (st : SeqState)
      → IsMarking last st
      → IsMarking last (choose include exclude newer d st)
  choose-IsMarking d st k =
      let (inc, exc, cut) = explicit-IsMarking st d.seq k in
      elim (Bool-cases (removed d)) [
        | inl r ↦ rw r k
        | inr r ↦ rw r (elim (Bool-cases (include d.id)) [
          | inl i ↦ rw i inc
          | inr i ↦ rw i (elim (Bool-cases (exclude d.id)) [
            | inl e ↦ rw e exc
            | inr e ↦ rw e (elim (Bool-cases (newer d)) [ inl w ↦ rw w cut | inr w ↦ rw w k ])
          ])
        ])
      ]

  choose-included :
      {last : ℕ} (d : Delta) (st : SeqState) (n : ℕ)
      → IsMarking last st
      → d.seq ≤ last
      → is_included (choose include exclude newer d st) n ≡ (
          if not (removed d) && (d.seq == n)
          then chosen include exclude newer d (is_included st n)
          else is_included st n)
  choose-included d st n k h =
      let (inc, exc) = explicit-included st d.seq n k h in
      let cut = mark-included set_excluded-IsMark st d.seq n k h in ground (arith, inc, exc, cut)

  walk-append :
      (xs ys : List Delta) (st : SeqState)
      → command_line include exclude newer (xs ++ ys) st
        ≡ command_line include exclude newer ys (command_line include exclude newer xs st)
  unfolding command_line
  walk-append [] ys st = refl
  walk-append (d ∷ xs) ys st = walk-append xs ys (choose include exclude newer d st)

  walk-IsMarking :
      {last : ℕ} (ds : List Delta) (st : SeqState)
      → IsMarking last st
      → IsMarking last (command_line include exclude newer ds st)
  unfolding command_line
  walk-IsMarking [] st k = k
  walk-IsMarking (d ∷ ds) st k =
      walk-IsMarking ds (choose include exclude newer d st) (choose-IsMarking d st k)

  walk_other :
      {last : ℕ} (ds : List Delta) (st : SeqState) (n : ℕ)
      → IsMarking last st
      → All (λ d. d.seq ≤ last) ds
      → All (λ d. d.seq ≢ n) ds
      → is_included (command_line include exclude newer ds st) n ≡ is_included st n
  unfolding command_line
  walk_other [] st n k h o = refl
  walk_other (d ∷ ds) st n k h o =
      walk_other ds (choose include exclude newer d st) n (choose-IsMarking d st k) h.1 o.1
      ∙ choose-included d st n k h.0
      ∙ (let other : (d.seq == n) ≡ false = ground (arith, o.0) in ground arith)

  -- `prepare_seqstate_2` decides about each delta that is not removed by the command line: included if
  -- it is in the first list, else not included if it is in the second list or newer than the cutoff,
  -- else as before. It needs numbers in range, and no other delta with the same number.
  pub prepare_seqstate_2-chosen :
      {last : ℕ} (l : DeltaList) (st : SeqState) (before after : List Delta) (d : Delta)
      → IsMarking last st
      → l.items ≡ before ++ d ∷ after
      → All (λ x. x.seq ≤ last) before
      → d.seq ≤ last
      → All (λ x. x.seq ≤ last) after
      → All (λ x. x.seq ≢ d.seq) before
      → All (λ x. x.seq ≢ d.seq) after
      → removed d ≡ false
      → IsMarking last (prepare_seqstate_2 include exclude newer l st)
        × (is_included (prepare_seqstate_2 include exclude newer l st) d.seq
            ≡ chosen include exclude newer d (is_included st d.seq))
  unfolding prepare_seqstate_2
  prepare_seqstate_2-chosen l st before after d k items hb hd ha ob oa kept = (
    walk-IsMarking l.items st k,
    rw items (
        let st1 = command_line include exclude newer before st in
        let k1 = walk-IsMarking before st k in
        ap (λ s. is_included s d.seq) (walk-append before (d ∷ after) st)
        ∙ (unfold command_line in
            walk_other after (choose include exclude newer d st1) d.seq (choose-IsMarking d st1 k1)
              ha oa)
        ∙ choose-included d st1 d.seq k1 hd
        ∙ (let self : (d.seq == d.seq) ≡ true = ground arith in
            rw (kept, self)
              (ap (chosen include exclude newer d) (walk_other before st d.seq k hb ob)))),
  )
