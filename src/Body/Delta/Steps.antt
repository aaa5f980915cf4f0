-- ===== src/Body/Delta/Steps.antt =====
-- What the loops of `delta` over the output of `diff` write for one line of the old body.
use mathlib.Core.Path.{subst}
use cssc.Common.{
  ℕ, zero, suc, ◌+◌, ◌-◌, ◌<◌, ◌≡◌, refl, sym, ap, ◌∙◌, inl, inr, List, [], ◌∷◌, ◌++◌, append_assoc,
  append-nil, true, false, Bytes, ◌==◌, ◌&&◌, ◌||◌, ltb, drop, length, arith, Bool-cases, All,
}
use cssc.Common.Runs.{Run, value, quit, ◌>>=◌, value-injective, bind_value}
use cssc.SeqState.{SeqState}
use cssc.Diff.{
  Phase, DiffState, Corrupt, start, nochange, delete, insert, end, is_insert, is_delete, process,
}
use cssc.Diff.Balanced.{process-Wrote}
use cssc.Diff.Shrink.{Ends, ended, stopped, process-Shrinks}
use cssc.Diff.Ended.{IsUsedUp, process-IsUsedUp}
use cssc.Diff.Insertions.{insertions, insertions-append, IsCounted, process-Takes}
use cssc.Common.Int.{neg_part}
use cssc.Common.{if◌then◌else◌, length-append}
use cssc.Body.Line.{Result, ok, fail, line_type, check_arg, strict_atous, char_at}
use cssc.Body.Remove.{copying}
use cssc.Body.Delta.{
  Fault, Progress, of_diff, of_body, insert_line, proceed, judge, place, append, follow,
}
use cssc.Body.Delta.Weave.{
  with_newline, written, text_lines, text_lines-append, written-append, Weave, stop, added,
  Weave-append, IsOld, state_of, Wrote-Weave, IsDiffLine, marked_text,
}

-- A control line with a blank behind its letter, or a text.
abbrev pub IsSpaced : Bytes → Type 0
IsSpaced line = (line_type line == 0) ≡ false → check_arg line ≡ ok tt

Ends-value :
    {A : Type 0} {P : A → Type 0} {r : Run Corrupt A} (a : A) → Ends P r → r ≡ value a → P a
Ends-value {P = P} a (ended p) e = subst P (value-injective e) p
Ends-value a stopped e = cc

-- The line that is read to be inserted.
abbrev pub pending : DiffState → List Bytes
pending st = if is_insert st.phase then drop 2 st.linebuf ∷ [] else []

-- What a call of `process` reads.
process-read :
    (seq : ℕ) (st : DiffState) (r : DiffState × List Bytes)
    → process seq st ≡ value r
    → (read : List Bytes) × (st.input ≡ read ++ r.0.input)
      × (IsCounted st → (insertions read ≡ pending r.0) × IsCounted r.0)
process-read seq st r h = elim (Bool-cases (neg_part st.in_lineno == 0)) [
  | inl t ↦
      (let (read, took, marks, n) = Ends-value r (process-Takes seq st (ground arith)) h in
        (read, took, λ _. (marks, n)))
  | inr t ↦
      (let (read, took) = (Ends-value r (process-Shrinks seq st) h).0 in
        (read, took, λ n. absurd (ground arith)))
]

module _ {A : Type 0} (P : A → Type 0) where
  All-suffix : (xs ys zs : List A) → xs ≡ ys ++ zs → All P xs → All P zs
  All-suffix xs ys zs e h = drop_front ys (subst (All P) e h)
    where
      drop_front : (ys : List A) → All P (ys ++ zs) → All P zs
      drop_front [] h = h
      drop_front (y ∷ ys) h = drop_front ys h.1

-- Outside the blocks of the new delta.
pub outside_blocks :
    (phase : Phase) → is_insert phase ≡ false → is_delete phase ≡ false → state_of phase ≡ copying
outside_blocks start i d = refl
outside_blocks nochange i d = refl
outside_blocks end i d = refl
outside_blocks insert i d = cc
outside_blocks delete i d = cc

module _ (seq : ℕ) where
  -- What is written between two states is, blocks of the new delta: with the lines of the output of `diff`
  -- that were read, where `before` are read already and `after` not yet written.
  pub record Grown (before : List Bytes) (p q : Progress) (after : List Bytes) : Type 0 where
    pub new : List Bytes
    pub read : List Bytes
    pub wrote : q.out ≡ p.out ++ written new
    pub counted : p.inserted + length (text_lines new) ≡ q.inserted
    pub took : p.dstate.input ≡ read ++ q.dstate.input
    pub marked :
        IsCounted p.dstate
        → (written (text_lines new) ++ after ≡ before ++ insertions read) × IsCounted q.dstate
    pub used_up : IsUsedUp p.dstate → IsUsedUp q.dstate
    pub weave : Weave seq (state_of p.dstate.phase) new [] (state_of q.dstate.phase)

  join_pending :
      (x y u v a b c : List Bytes)
      → x ++ b ≡ a ++ u
      → y ++ c ≡ b ++ v
      → (x ++ y) ++ c ≡ a ++ (u ++ v)
  join_pending x y u v a b c e f =
      append_assoc x y c
      ∙ ap (λ l. x ++ l) f
      ∙ sym (append_assoc x b v)
      ∙ ap (λ l. l ++ v) e
      ∙ append_assoc a u v

  pub Grown-trans :
      {x y z : List Bytes} (p q r : Progress) → Grown x p q y → Grown y q r z → Grown x p r z
  Grown-trans {x = x} {y = y} {z = z} p q r g h = record {
    new = g.new ++ h.new;
    read = g.read ++ h.read;
    wrote =
        h.wrote
        ∙ ap (λ l. l ++ written h.new) g.wrote
        ∙ append_assoc p.out (written g.new) (written h.new)
        ∙ ap (λ l. p.out ++ l) (sym (written-append g.new h.new));
    counted = omega (
      arith,
      g.counted,
      h.counted,
      ap length (text_lines-append g.new h.new),
      length-append (text_lines g.new) (text_lines h.new),
    );
    took = g.took ∙ ap (λ l. g.read ++ l) h.took ∙ sym (append_assoc g.read h.read r.dstate.input);
    marked = λ n.
        (let (e, n') = g.marked n in
          let (f, n'') = h.marked n' in
          (
            ap (λ l. l ++ z)
                  (ap written (text_lines-append g.new h.new)
                    ∙ written-append (text_lines g.new) (text_lines h.new))
                ∙ join_pending (written (text_lines g.new)) (written (text_lines h.new))
                    (insertions g.read) (insertions h.read) x y z e f
                ∙ ap (λ l. x ++ l) (sym (insertions-append g.read h.read)),
            n'',
          ));
    used_up = λ u. h.used_up (g.used_up u);
    weave = Weave-append g.weave h.weave;
  }

  pub Grown-same :
      (p q : Progress)
      → q.out ≡ p.out
      → q.inserted ≡ p.inserted
      → q.dstate ≡ p.dstate
      → Grown [] p q []
  Grown-same p q e i f = record {
    new = [];
    read = [];
    wrote = e ∙ sym (append-nil p.out);
    counted = omega (arith, i);
    took = ap (λ d. d.input) (sym f);
    marked = λ n. (refl, ap (λ d. neg_part d.in_lineno) f ∙ n);
    used_up = subst IsUsedUp (sym f);
    weave = subst (λ d. Weave seq (state_of p.dstate.phase) [] [] (state_of d.phase)) (sym f) stop;
  }

  abbrev pub Sound : Progress → Type 0
  Sound p = All IsDiffLine p.dstate.input

  proceed-Grown :
      (p q : Progress)
      → Sound p
      → proceed seq p ≡ value q
      → Grown [] p q (pending q.dstate)
        × Sound q
        × (is_insert q.dstate.phase ≡ true → IsDiffLine q.dstate.linebuf)
  unfolding proceed
  proceed-Grown p q sound h =
      (let (r, (e, f)) = bind_value (of_diff (process seq p.dstate)) _ q h in
        let same : record p { dstate = r.0; out = p.out ++ r.1 } ≡ q = value-injective f in
        let e' : process seq p.dstate ≡ value r = of_diff-value (process seq p.dstate) r e in
        let (new, n, i, s) = Wrote-Weave seq (process-Wrote seq p.dstate r.0 r.1 e') in
        let shrunk = Ends-value r (process-Shrinks seq p.dstate) e' in
        let (read, took, marks) = process-read seq p.dstate r e' in
        subst
          (λ x.
            Grown [] p x (pending x.dstate)
            × Sound x
            × (is_insert x.dstate.phase ≡ true → IsDiffLine x.dstate.linebuf))
          same
          (
            record {
              new = new;
              read = read;
              wrote = ap (λ l. p.out ++ l) n;
              counted = omega (arith, ap length i);
              took = took;
              marked = λ c. (ap (λ l. written l ++ pending r.0) i ∙ sym (marks c).0, (marks c).1);
              used_up = λ u. Ends-value r (process-IsUsedUp seq p.dstate u) e';
              weave = s;
            },
            All-suffix IsDiffLine p.dstate.input shrunk.0.0 r.0.input shrunk.0.1 sound,
            λ i.
                (let (read, g) = shrunk.1 i in
                  (All-suffix IsDiffLine p.dstate.input read (r.0.linebuf ∷ r.0.input) g sound).0),
          ))
    where
      of_diff-value :
          (x : Run Corrupt (DiffState × List Bytes)) (r : DiffState × List Bytes)
          → of_diff x ≡ value r
          → x ≡ value r
      of_diff-value (value a) r e = ap value (value-injective e)
      of_diff-value (quit f) r e = cc

  insert_line-Grown :
      (max : ℕ) (p q : Progress)
      → is_insert p.dstate.phase ≡ true
      → IsDiffLine p.dstate.linebuf
      → insert_line max p ≡ value q
      → Grown (drop 2 p.dstate.linebuf ∷ []) p q [] × (q.dstate ≡ p.dstate)
  unfolding insert_line
  insert_line-Grown max p q i line h =
      elim (Bool-cases (char_at p.dstate.linebuf 0 == b'>' && char_at p.dstate.linebuf 1 == b' ')) [
        | inr t ↦ (let x = rw t at h in cc)
        | inl t ↦ elim (Bool-cases (max == 0 || ltb (length (drop 2 p.dstate.linebuf) - 1) max)) [
          | inr u ↦ (let x = rw (t, u) at h in cc)
          | inl u ↦
              (let same = value-injective (rw (t, u) at h) in
                let (l, e, plain) = marked_text p.dstate.linebuf line t in
                subst (λ x. Grown (drop 2 p.dstate.linebuf ∷ []) p x [] × (x.dstate ≡ p.dstate))
                  same (inserted l e plain, refl))
        ]
      ]
    where
      in_insertion :
          (phase : Phase)
          → is_insert phase ≡ true
          → (l : Bytes) → line_type l ≡ 0
          → Weave seq (state_of phase) (l ∷ []) [] (state_of phase)
      in_insertion start i l plain = cc
      in_insertion nochange i l plain = cc
      in_insertion delete i l plain = cc
      in_insertion insert i l plain = added l plain stop
      in_insertion end i l plain = cc

      inserted :
          (l : Bytes)
          → drop 2 p.dstate.linebuf ≡ with_newline l
          → line_type l ≡ 0
          → Grown
              (drop 2 p.dstate.linebuf ∷ [])
              p
              (record p { out = p.out ++ drop 2 p.dstate.linebuf ∷ []; inserted = p.inserted + 1 })
              []
      inserted l e plain = record {
        new = l ∷ [];
        read = [];
        wrote = ap (λ x. p.out ++ x ∷ []) e;
        counted = rw plain refl;
        took = refl;
        marked = λ n. (rw plain (ap (λ x. x ∷ []) (sym e)), n);
        used_up = λ u. u;
        weave = in_insertion p.dstate.phase i l plain;
      }

  -- A round that does not insert ends a loop.
  abbrev pub Settled : Progress → Progress → Type 0
  Settled p q = Grown [] p q [] × Sound q × (is_insert q.dstate.phase ≡ false)

  Settled-trans : (p q r : Progress) → Grown [] p q [] → Settled q r → Settled p r
  Settled-trans p q r u (v, s, o) = (Grown-trans p q r u v, s, o)

  pub settled :
      (p q : Progress)
      → Sound p
      → is_insert p.dstate.phase ≡ false
      → q.out ≡ p.out
      → q.inserted ≡ p.inserted
      → q.dstate ≡ p.dstate
      → Settled p q
  settled p q s o e i f = (
    Grown-same p q e i f,
    subst (λ d. All IsDiffLine d.input) (sym f) s,
    subst (λ d. is_insert d.phase ≡ false) (sym f) o,
  )

  -- A line is inserted, and the loop goes on.
  insert_again :
      (max : ℕ) (p q r : Progress) (again : Progress → Run Fault Progress)
      → ((x : Progress) → Sound x → again x ≡ value r → Settled x r)
      → Grown [] p q (pending q.dstate)
      → Sound q
      → is_insert q.dstate.phase ≡ true
      → IsDiffLine q.dstate.linebuf
      → (insert_line max q >>= again) ≡ value r
      → Settled p r
  insert_again max p q r again later u sound i line h =
      (let (x, (e, f)) = bind_value (insert_line max q) again r h in
        let (v, same) = insert_line-Grown max q x i line e in
        Settled-trans p x r
          (Grown-trans p q x
            (subst (λ b. Grown [] p q (if b then drop 2 q.dstate.linebuf ∷ [] else [])) i u) v)
          (later x (subst (λ d. All IsDiffLine d.input) (sym same) sound) f))

  -- A round that does not insert.
  last_round :
      (p q r : Progress)
      → is_insert q.dstate.phase ≡ false
      → Grown [] p q (pending q.dstate)
      → Settled q r
      → Settled p r
  last_round p q r o u =
      Settled-trans p q r
        (subst (λ b. Grown [] p q (if b then drop 2 q.dstate.linebuf ∷ [] else [])) o u)

  judge-Settled :
      (again : Run Fault Progress) (p q r : Progress) (phase : Phase)
      → q.dstate.phase ≡ phase
      → Grown [] p q (pending q.dstate)
      → Sound q
      → (is_insert phase ≡ true → again ≡ value r → Settled p r)
      → judge again q phase ≡ value r
      → Settled p r
  judge-Settled again p q r start e u s k h = cc
  judge-Settled again p q r nochange e u s k h = last_round p q r (ap is_insert e) u (
      subst (Settled q) (value-injective h)
        (settled q (record q { unchanged = q.unchanged + 1 }) s (ap is_insert e) refl refl refl))
  judge-Settled again p q r delete e u s k h = last_round p q r (ap is_insert e) u (
      subst (Settled q) (value-injective h)
        (settled q (record q { deleted = q.deleted + 1 }) s (ap is_insert e) refl refl refl))
  judge-Settled again p q r insert e u s k h = k refl h
  judge-Settled again p q r end e u s k h = last_round p q r (ap is_insert e) u (
      subst (Settled q) (value-injective h)
        (settled q (record q { unchanged = q.unchanged + 1 }) s (ap is_insert e) refl refl refl))

  pub place-Settled :
      (fuel max : ℕ) (p r : Progress) → Sound p → place fuel seq max p ≡ value r → Settled p r
  unfolding place
  place-Settled zero max p r s h = cc
  place-Settled (suc fuel) max p r s h =
      (let (q, (e, f)) = bind_value (proceed seq p) _ r h in
        let (u, s', line) = proceed-Grown p q s e in
        judge-Settled (insert_line max q >>= λ x. place fuel seq max x) p q r q.dstate.phase refl u
          s'
          (λ i g.
            insert_again max p q r (place fuel seq max) (λ x. place-Settled fuel max x r) u s' i
              (line i) g)
          f)

  pub append-Settled :
      (fuel max : ℕ) (p r : Progress) → Sound p → append fuel seq max p ≡ value r → Settled p r
  unfolding append
  append-Settled zero max p r s h = cc
  append-Settled (suc fuel) max p r s h =
      (let (q, (e, f)) = bind_value (proceed seq p) _ r h in
        let (u, s', line) = proceed-Grown p q s e in
        elim (Bool-cases (is_insert q.dstate.phase)) [
          | inl i ↦
              insert_again max p q r (append fuel seq max) (λ x. append-Settled fuel max x r) u s' i
                (line i) (rw i at f)
          | inr o ↦
              last_round p q r o u
                (subst (Settled q) (value-injective (rw o at f)) (settled q q s' o refl refl refl))
        ])

  pub follow-IsOld :
      (highest : ℕ) (line : Bytes) (st st' : SeqState)
      → highest < seq
      → (line_type line == 0) ≡ false
      → check_arg line ≡ ok tt
      → follow highest line st ≡ value st'
      → IsOld seq line
  unfolding follow
  follow-IsOld highest line st st' below c a h =
      (let (n, (e, f)) = bind_value (of_body (strict_atous (drop 3 line))) _ st' h in
        elim (Bool-cases (ltb n 1 || ltb highest n)) [
          | inl t ↦ (let x = rw t at f in cc)
          | inr t ↦ inr (c, a, n, of_body-ok (strict_atous (drop 3 line)) n e, ground arith)
        ])
    where
      of_body-ok : (x : Result ℕ) (n : ℕ) → of_body x ≡ value n → x ≡ ok n
      of_body-ok (ok a) n e = ap ok (value-injective e)
      of_body-ok (fail f) n e = cc
