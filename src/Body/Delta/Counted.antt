-- ===== src/Body/Delta/Counted.antt =====
-- What the loops of `delta` over the output of `diff` count, and what they leave alone.
use mathlib.Core.Path.{subst}
use cssc.Common.{
  ℕ, zero, suc, ◌+◌, ◌-◌, ◌≡◌, refl, ap, ◌∙◌, inl, inr, ◌⊎◌, ◌==◌, ◌&&◌, ◌||◌, ltb, length, drop,
  Bool-cases,
}
use cssc.Common.Runs.{Run, value, ◌>>=◌, value-injective, bind_value}
use cssc.Body.Line.{char_at}
use cssc.Body.Remove.{UpdateState, copying, deleting}
use cssc.Diff.{Phase, start, nochange, delete, insert, end, is_insert, process}
use cssc.Body.Delta.{Fault, Progress, of_diff, insert_line, proceed, judge, place, append}
use cssc.Body.Delta.Weave.{state_of}

-- The state of the old body and the numbers of the lines left and deleted are the same.
abbrev Apart : Progress → Progress → Type 0
Apart p q = (q.sstate ≡ p.sstate) × (q.deleted ≡ p.deleted) × (q.unchanged ≡ p.unchanged)

Apart-trans : (p q r : Progress) → Apart p q → Apart q r → Apart p r
Apart-trans p q r (a, b, c) (d, e, f) = (d ∙ a, e ∙ b, f ∙ c)

proceed-Apart : (seq : ℕ) (p q : Progress) → proceed seq p ≡ value q → Apart p q
unfolding proceed
proceed-Apart seq p q h =
    (let (r, (e, f)) = bind_value (of_diff (process seq p.dstate)) _ q h in
      subst (Apart p) (value-injective f) (refl, refl, refl))

insert_line-Apart : (max : ℕ) (p q : Progress) → insert_line max p ≡ value q → Apart p q
unfolding insert_line
insert_line-Apart max p q h =
    elim (Bool-cases (char_at p.dstate.linebuf 0 == b'>' && char_at p.dstate.linebuf 1 == b' ')) [
      | inr t ↦ (let x = rw t at h in cc)
      | inl t ↦ elim (Bool-cases (max == 0 || ltb (length (drop 2 p.dstate.linebuf) - 1) max)) [
        | inr u ↦ (let x = rw (t, u) at h in cc)
        | inl u ↦ subst (Apart p) (value-injective (rw (t, u) at h)) (refl, refl, refl)
      ]
    ]

-- A line of the predecessor is deleted or left, as the reader of the diff says, and is counted.
abbrev pub Counts : UpdateState → Progress → Progress → Type 0
Counts s p q =
    (q.sstate ≡ p.sstate)
    × ((s ≡ deleting) × (q.deleted ≡ p.deleted + 1) × (q.unchanged ≡ p.unchanged)
        ⊎ (s ≡ copying) × (q.deleted ≡ p.deleted) × (q.unchanged ≡ p.unchanged + 1))

Apart-Counts : (s : UpdateState) (p q r : Progress) → Apart p q → Counts s q r → Counts s p r
Apart-Counts s p q r (a, b, c) (d, inl (e, f, g)) = (d ∙ a, inl (e, f ∙ ap (λ n. n + 1) b, g ∙ c))
Apart-Counts s p q r (a, b, c) (d, inr (e, f, g)) = (d ∙ a, inr (e, f ∙ b, g ∙ ap (λ n. n + 1) c))

judge-Counts :
    (again : Run Fault Progress) (q r : Progress) (phase : Phase)
    → q.dstate.phase ≡ phase
    → (again ≡ value r → Counts (state_of r.dstate.phase) q r)
    → judge again q phase ≡ value r
    → Counts (state_of r.dstate.phase) q r
judge-Counts again q r start e k h = cc
judge-Counts again q r nochange e k h =
    subst (λ x. Counts (state_of x.dstate.phase) q x) (value-injective h)
      (refl, inr (ap state_of e, refl, refl))
judge-Counts again q r delete e k h =
    subst (λ x. Counts (state_of x.dstate.phase) q x) (value-injective h)
      (refl, inl (ap state_of e, refl, refl))
judge-Counts again q r insert e k h = k h
judge-Counts again q r end e k h =
    subst (λ x. Counts (state_of x.dstate.phase) q x) (value-injective h)
      (refl, inr (ap state_of e, refl, refl))

pub place-Counts :
    (fuel seq max : ℕ) (p r : Progress)
    → place fuel seq max p ≡ value r
    → Counts (state_of r.dstate.phase) p r
unfolding place
place-Counts zero seq max p r h = cc
place-Counts (suc fuel) seq max p r h =
    (let (q, (e, f)) = bind_value (proceed seq p) _ r h in
      Apart-Counts _ p q r (proceed-Apart seq p q e) (
        judge-Counts (insert_line max q >>= λ x. place fuel seq max x) q r q.dstate.phase refl
          (λ g.
            (let (x, (e', f')) = bind_value (insert_line max q) (place fuel seq max) r g in
              Apart-Counts _ q x r (insert_line-Apart max q x e')
                (place-Counts fuel seq max x r f')))
          f))

pub append-Apart :
    (fuel seq max : ℕ) (p r : Progress)
    → append fuel seq max p ≡ value r
    → (r.sstate ≡ p.sstate) × (r.deleted ≡ p.deleted) × (r.unchanged ≡ p.unchanged)
unfolding append
append-Apart zero seq max p r h = cc
append-Apart (suc fuel) seq max p r h =
    (let (q, (e, f)) = bind_value (proceed seq p) _ r h in
      Apart-trans p q r (proceed-Apart seq p q e) (elim (Bool-cases (is_insert q.dstate.phase)) [
        | inl i ↦
            (let (x, (e', f')) =
                bind_value (insert_line max q) (append fuel seq max) r (rw i at f) in
              Apart-trans q x r (insert_line-Apart max q x e') (append-Apart fuel seq max x r f'))
        | inr o ↦ subst (Apart q) (value-injective (rw o at f)) (refl, refl, refl)
      ]))
