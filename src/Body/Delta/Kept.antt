-- ===== src/Body/Delta/Kept.antt =====
-- A new delta loses nothing of the history: the lines of the old body are written again, in order.
use cssc.Common.{
  ℕ, zero, suc, ◌≡◌, sym, ap, ◌∙◌, inl, inr, List, [], ◌∷◌, ◌++◌, append_assoc, append-nil, Bytes,
  Bool-cases, not, ◌==◌, ◌&&◌, ◌||◌, ltb, length, drop, ◌-◌,
}
use cssc.Common.Runs.{Run, value, ◌>>=◌, value-injective, bind_value}
use cssc.SeqState.{include_line}
use cssc.Body.Line.{line_type, char_at}
use cssc.Diff.{Phase, is_insert, process}
use cssc.Body.Delta.{
  Fault, Progress, of_diff, insert_line, proceed, place, append, follow, judge, before_line,
  copy_line, delta,
}

-- The lines of the old body that are read, and what is written, from `from` on: each line that is
-- read is written, and other lines are added.
pub data Keeps (from : List Bytes) : List Bytes → List Bytes → Type 0 where
  unread : Keeps from [] from
  added :
      {old out : List Bytes} (more : List Bytes) → Keeps from old out → Keeps from old (out ++ more)
  copied :
      {old out : List Bytes} (line : Bytes)
      → Keeps from old out
      → Keeps from (old ++ line ∷ []) (out ++ (line ++ b'\n' ∷ []) ∷ [])

abbrev Grows : Progress → Progress → Type 0
Grows p p' = (more : List Bytes) × (p'.out ≡ p.out ++ more)

Grows-trans : (p q r : Progress) → Grows p q → Grows q r → Grows p r
Grows-trans p q r (m, e) (n, f) = (m ++ n, f ∙ ap (λ l. l ++ n) e ∙ append_assoc p.out m n)

Grows-same : (p q : Progress) → p.out ≡ q.out → Grows p q
Grows-same p q e = ([], sym e ∙ sym (append-nil p.out))

proceed-Grows : (seq : ℕ) (p p' : Progress) → proceed seq p ≡ value p' → Grows p p'
unfolding proceed
proceed-Grows seq p p' h =
    (let (r, (e, f)) = bind_value (of_diff (process seq p.dstate)) _ p' h in
      (r.1, ap (λ x. x.out) (sym (value-injective f))))

insert_line-Grows : (max : ℕ) (p p' : Progress) → insert_line max p ≡ value p' → Grows p p'
unfolding insert_line
insert_line-Grows max p p' h =
    elim (Bool-cases
      (not (char_at p.dstate.linebuf 0 == b'>' && char_at p.dstate.linebuf 1 == b' '))) [
        | inl t ↦ (let x = rw t at h in cc)
        | inr t ↦ elim (Bool-cases (max == 0 || ltb (length (drop 2 p.dstate.linebuf) - 1) max)) [
          | inl u ↦ (
            drop 2 p.dstate.linebuf ∷ [],
            ap (λ x. x.out) (sym (value-injective (rw (t, u) at h))),
          )
          | inr u ↦ (let x = rw (t, u) at h in cc)
        ]
      ]

judge-Grows :
    (again : Run Fault Progress) (p p' : Progress) (phase : Phase)
    → (again ≡ value p' → Grows p p')
    → judge again p phase ≡ value p'
    → Grows p p'
judge-Grows again p p' Phase.start g h = cc
judge-Grows again p p' Phase.nochange g h = Grows-same p p' (ap (λ x. x.out) (value-injective h))
judge-Grows again p p' Phase.delete g h = Grows-same p p' (ap (λ x. x.out) (value-injective h))
judge-Grows again p p' Phase.insert g h = g h
judge-Grows again p p' Phase.end g h = Grows-same p p' (ap (λ x. x.out) (value-injective h))

place-Grows : (fuel seq max : ℕ) (p p' : Progress) → place fuel seq max p ≡ value p' → Grows p p'
unfolding place
place-Grows zero seq max p p' h = cc
place-Grows (suc fuel) seq max p p' h =
    (let (q, (e, f)) = bind_value (proceed seq p) _ p' h in
      Grows-trans p q p' (proceed-Grows seq p q e) (
        judge-Grows (insert_line max q >>= λ r. place fuel seq max r) q p' q.dstate.phase
          (λ again.
            (let (r, (e', f')) = bind_value (insert_line max q) _ p' again in
              Grows-trans q r p' (insert_line-Grows max q r e') (place-Grows fuel seq max r p' f')))
          f))

append-Grows : (fuel seq max : ℕ) (p p' : Progress) → append fuel seq max p ≡ value p' → Grows p p'
unfolding append
append-Grows zero seq max p p' h = cc
append-Grows (suc fuel) seq max p p' h =
    (let (q, (e, f)) = bind_value (proceed seq p) _ p' h in
      Grows-trans p q p' (proceed-Grows seq p q e) (elim (Bool-cases (is_insert q.dstate.phase)) [
        | inl t ↦
            (let (r, (e', f')) = bind_value (insert_line max q) _ p' (rw t at f) in
              Grows-trans q r p' (insert_line-Grows max q r e') (append-Grows fuel seq max r p' f'))
        | inr t ↦ Grows-same q p' (ap (λ x. x.out) (value-injective (rw t at f)))
      ]))

before_line-Grows :
    (fuel highest seq max : ℕ) (line : Bytes) (p p' : Progress)
    → before_line fuel highest seq max line p ≡ value p'
    → Grows p p'
unfolding before_line
before_line-Grows fuel highest seq max line p p' h = elim (Bool-cases (not (line_type line == 0))) [
  | inl t ↦
      (let (st, (e, f)) = bind_value (follow highest line p.sstate) _ p' (rw t at h) in
        Grows-same p p' (ap (λ x. x.out) (value-injective f)))
  | inr t ↦ elim (Bool-cases (include_line p.sstate)) [
    | inl u ↦ place-Grows fuel seq max p p' (rw (t, u) at h)
    | inr u ↦ Grows-same p p' (ap (λ x. x.out) (value-injective (rw (t, u) at h)))
  ]
]

copy_line-Keeps :
    (fuel highest seq max : ℕ) (line : Bytes) (from old : List Bytes) (p p' : Progress)
    → Keeps from old p.out
    → copy_line fuel highest seq max line p ≡ value p'
    → Keeps from (old ++ line ∷ []) p'.out
unfolding copy_line
copy_line-Keeps fuel highest seq max line from old p p' k h =
    (let (q, (e, f)) = bind_value (before_line fuel highest seq max line p) _ p' h in
      let (more, g) = before_line-Grows fuel highest seq max line p q e in
      rw (ap (λ x. x.out) (sym (value-injective f)), g) (copied line (added more k)))

delta_from :
    (fuel highest seq max : ℕ) (lines from old : List Bytes) (p p' : Progress)
    → Keeps from old p.out
    → delta fuel highest seq max lines p ≡ value p'
    → Keeps from (old ++ lines) p'.out
unfolding delta
delta_from fuel highest seq max [] from old p p' k h = elim (Bool-cases (include_line p.sstate)) [
  | inl t ↦ (let x = rw t at h in cc)
  | inr t ↦
      (let (more, e) = append-Grows fuel seq max p p' (rw t at h) in
        rw (append-nil old, e) (added more k))
]
delta_from fuel highest seq max (line ∷ lines) from old p p' k h =
    (let (q, (e, f)) = bind_value (copy_line fuel highest seq max line p) _ p' h in
      rw (sym (append_assoc old (line ∷ []) lines)) (
        delta_from fuel highest seq max lines from (old ++ line ∷ []) q p'
          (copy_line-Keeps fuel highest seq max line from old p q k e) f))

-- Where `delta` writes a new body, the lines of the old body stand in it, all of them and in order.
pub delta-Keeps :
    (fuel highest seq max : ℕ) (lines : List Bytes) (p p' : Progress)
    → delta fuel highest seq max lines p ≡ value p'
    → Keeps p.out lines p'.out
delta-Keeps fuel highest seq max lines p p' h =
    delta_from fuel highest seq max lines p.out [] p p' unread h
