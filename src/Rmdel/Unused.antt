-- ===== src/Rmdel/Unused.antt =====
-- A delta that is removed is one that nothing refers to.
use mathlib.Core.Path.{Path, subst}
use cssc.Common.{
  ℕ, ◌≡◌, refl, sym, ap, ◌∙◌, inl, inr, List, [], ◌∷◌, ◌++◌, Bool, true, false, ◌&&◌, ◌||◌, not,
  Bytes, Option, none, some, if◌then◌else◌, ◌==◌, All, Bool-cases,
}
use cssc.Common.Runs.{Run, value, quit, bind_value, value-injective}
use cssc.Sid.{Sid, is_eq}
use cssc.DeltaTable.{Delta, DeltaList, current, selects, removed, find, find_from}
use cssc.Body.Line.{Result, ok, fail}
use cssc.Body.Remove.{remove}
use cssc.Rmdel.{Refusal, is_seqlist_member, check_unused, mark_removed, found_delta, scanned, rmdel}

-- Where a delta is not removed, it does not name the number.
abbrev pub IsFree : ℕ → Delta → Type 0
IsFree seq d =
    selects current d ≡ true
    → ((d.prev_seq == seq) ≡ false)
      × (is_seqlist_member seq d.included ≡ false)
      × (is_seqlist_member seq d.excluded ≡ false)
      × (is_seqlist_member seq d.ignored ≡ false)

unused_head :
    (current_one parent i x g : Bool) (a b : Refusal) (rest : Run Refusal (Unit {0}))
    → (if not current_one
        then rest
        else if parent
        then quit a
        else if i || (x || g)
        then quit b
        else rest)
      ≡ value tt
    → (rest ≡ value tt)
      × (current_one ≡ true → (parent ≡ false) × (i ≡ false) × (x ≡ false) × (g ≡ false))
unused_head false parent i x g a b rest h = (h, λ e. cc)
unused_head true true i x g a b rest h = cc
unused_head true false true x g a b rest h = cc
unused_head true false false true g a b rest h = cc
unused_head true false false false true a b rest h = cc
unused_head true false false false false a b rest h = (h, λ e. (refl, refl, refl, refl))

check_unused-IsFree :
    (seq : ℕ) (ds : List Delta) → check_unused seq ds ≡ value tt → All (IsFree seq) ds
unfolding check_unused
check_unused-IsFree seq [] h = tt
check_unused-IsFree seq (d ∷ ds) h =
    (let (later, now) =
        unused_head (selects current d) (d.prev_seq == seq) (is_seqlist_member seq d.included)
          (is_seqlist_member seq d.excluded) (is_seqlist_member seq d.ignored) _ _
          (check_unused seq ds) h in
      (now, check_unused-IsFree seq ds later))

mark_removed-IsFree :
    (seq : ℕ) (id : Sid) (ds : List Delta)
    → All (IsFree seq) ds
    → All (IsFree seq) (mark_removed id ds)
unfolding mark_removed
mark_removed-IsFree seq id [] h = tt
mark_removed-IsFree seq id (d ∷ ds) h = elim (Bool-cases (selects current d && is_eq d.id id)) [
  | inl t ↦ rw t ((λ e. absurd (gone d e)), h.1)
  | inr f ↦ rw f (h.0, mark_removed-IsFree seq id ds h.1)
]
  where
    gone : (d : Delta) → ¬ (selects current (record d { delta_type = b'R' }) ≡ true)
    gone d e = unfold selects removed in cc

-- The deltas are the same ones in the same order, but for the type of the one that was found.
mark_removed-find :
    (id : Sid) (ds : List Delta) (d : Delta)
    → find_from current ds id ≡ some d
    → (before after : List Delta) × (ds ≡ before ++ d ∷ after)
      × (mark_removed id ds ≡ before ++ record d { delta_type = b'R' } ∷ after)
unfolding mark_removed find_from
mark_removed-find id [] d h = cc
mark_removed-find id (x ∷ ds) d h = elim (Bool-cases (selects current x && is_eq x.id id)) [
  | inl t ↦
      rw t (([], ds, ap (λ y. y ∷ ds) (some_inj (rw t at h)), ap (typed ds) (some_inj (rw t at h))))
  | inr f ↦
      (let (before, after, e, m) = mark_removed-find id ds d (rw f at h) in
        rw f ((x ∷ before, after, ap (λ y. x ∷ y) e, ap (λ y. x ∷ y) m)))
]
  where
    typed : List Delta → Delta → List Delta
    typed ds y = record y { delta_type = b'R' } ∷ ds

    some_inj : {a b : Delta} → Path (Option Delta) (some a) (some b) → a ≡ b
    some_inj p = cc

found_some : (o : Option Delta) (d : Delta) → found_delta o ≡ value d → o ≡ some d
found_some none d h = cc
found_some (some x) d h = ap some (value-injective h)

scanned_ok : (r : Result (List Bytes)) (lines : List Bytes) → scanned r ≡ value lines → r ≡ ok lines
scanned_ok (ok x) lines h = ap ok (value-injective h)
scanned_ok (fail e) lines h = cc

-- What `rmdel` does where it succeeds: editing is permitted, the SID has a delta that was not removed
-- before, whose type alone changes, no delta that is not removed has it as its predecessor or in a
-- list, before and after, and the new body is the old one without the blocks of the delta.
pub rmdel-IsFree :
    (permitted : Bool) (l l' : DeltaList) (id : Sid) (body body' : List Bytes)
    → rmdel permitted l id body ≡ value (l', body')
    → (permitted ≡ true)
      × (d : Delta) × (find l id ≡ some d)
      × (before after : List Delta) × (l.items ≡ before ++ d ∷ after)
      × (l'.items ≡ before ++ record d { delta_type = b'R' } ∷ after)
      × All (IsFree d.seq) l.items
      × All (IsFree d.seq) l'.items
      × (remove d.seq body ≡ ok body')
unfolding rmdel find
rmdel-IsFree false l l' id body body' h = cc
rmdel-IsFree true l l' id body body' h =
    (let (d, (f, h1)) = bind_value (found_delta (find l id)) _ _ h in
      let (u, (c, h2)) = bind_value (check_unused d.seq l.items) _ _ h1 in
      let (lines, (b, h3)) = bind_value (scanned (remove d.seq body)) _ _ h2 in
      let same = value-injective h3 in
      let seen = found_some (find l id) d f in
      let (before, after, e, m) = mark_removed-find id l.items d seen in
      let free = check_unused-IsFree d.seq l.items c in
      let items : mark_removed id l.items ≡ l'.items = ap (λ r. r.0.items) same in
      (
        refl,
        d,
        seen,
        before,
        after,
        e,
        sym items ∙ m,
        free,
        subst (All (IsFree d.seq)) items (mark_removed-IsFree d.seq id l.items free),
        scanned_ok (remove d.seq body) lines b ∙ ap (λ r. ok r.1) same,
      ))
