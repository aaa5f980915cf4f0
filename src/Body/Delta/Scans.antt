-- ===== src/Body/Delta/Scans.antt =====
-- Where `delta` succeeds, it has scanned the old body.
use mathlib.Core.Path.{subst}
use cssc.Common.{
  ℕ, suc, ◌≡◌, refl, sym, ap, ◌∙◌, inl, inr, List, [], ◌∷◌, ◌++◌, append-nil, true, false, Bytes,
  ◌==◌, arith, Bool-cases, All,
}
use cssc.Common.Runs.{value, value-injective, bind_value}
use cssc.SeqState.{include_line}
use cssc.Body.Line.{line_type}
use cssc.Body.Remove.{is_inserting}
use cssc.Diff.{Phase, is_insert}
use cssc.Body.Delta.{Progress, follow, before_line, copy_line, delta}
use cssc.Body.Delta.Weave.{with_newline, written, text_lines, stop, state_of}
use cssc.Body.Delta.Counted.{Counts, place-Counts, append-Apart}
use cssc.Body.Delta.Steps.{
  IsSpaced, Grown, Grown-same, Sound, Settled, settled, place-Settled, append-Settled,
}
use cssc.Body.Delta.Scan.{
  Scan, finished, follows, unread, kept, dropped, before_scan, Scanned, extended, extend,
}

module _ (seq highest : ℕ) where
  -- A line that the state includes, below the lines that `place` writes.
  placed :
      (p q r : Progress) (line : Bytes) (lines : List Bytes)
      → line_type line ≡ 0
      → include_line p.sstate ≡ true
      → Grown seq [] p q []
      → Counts (state_of q.dstate.phase) p q
      → Scanned seq highest (record q { out = q.out ++ with_newline line ∷ [] }) r lines
      → Scanned seq highest p r (line ∷ lines)
  placed p q r line lines c on w (same, inl (s, del, rest)) =
      extend seq highest p q r line lines suc (λ n. n) w (λ n. omega (arith, del))
        (λ n. omega (arith, rest))
        (λ new i d u x.
          subst
            (λ m.
              Scan seq highest m p.sstate (line ∷ new) (line ∷ lines) i (suc d) u
                (state_of r.dstate.phase) r.sstate)
            (sym s)
            (dropped line c on (
              subst
                (λ m.
                  Scan seq highest m p.sstate new lines i d u (state_of r.dstate.phase) r.sstate)
                s
                (subst
                  (λ m.
                    Scan seq highest (state_of q.dstate.phase) m new lines i d u
                      (state_of r.dstate.phase) r.sstate)
                  same x))))
  placed p q r line lines c on w (same, inr (s, del, rest)) =
      extend seq highest p q r line lines (λ n. n) suc w (λ n. omega (arith, del))
        (λ n. omega (arith, rest))
        (λ new i d u x.
          subst
            (λ m.
              Scan seq highest m p.sstate (line ∷ new) (line ∷ lines) i d (suc u)
                (state_of r.dstate.phase) r.sstate)
            (sym s)
            (kept line c on (
              subst
                (λ m.
                  Scan seq highest m p.sstate new lines i d u (state_of r.dstate.phase) r.sstate)
                s
                (subst
                  (λ m.
                    Scan seq highest (state_of q.dstate.phase) m new lines i d u
                      (state_of r.dstate.phase) r.sstate)
                  same x))))

  outside :
      (p : Progress)
      → is_insert p.dstate.phase ≡ false
      → is_inserting (state_of p.dstate.phase) ≡ false
  outside p o =
      elim p.dstate.phase as (λ x. is_insert x ≡ false → is_inserting (state_of x) ≡ false) [
        | Phase.start ↦ λ h. refl
        | Phase.nochange ↦ λ h. refl
        | Phase.delete ↦ λ h. refl
        | Phase.insert ↦ λ h. cc
        | Phase.end ↦ λ h. refl
      ]
        o

  -- What a line of the old body comes to.
  before_line-Scanned :
      (fuel max : ℕ) (line : Bytes) (lines : List Bytes) (p q r : Progress)
      → Sound seq p
      → is_insert p.dstate.phase ≡ false
      → IsSpaced line
      → before_line fuel highest seq max line p ≡ value q
      → Settled seq p q
        × (Scanned seq highest (record q { out = q.out ++ with_newline line ∷ [] }) r lines
            → Scanned seq highest p r (line ∷ lines))
  unfolding before_line
  before_line-Scanned fuel max line lines p q r s o spaced h =
      elim (Bool-cases (line_type line == 0)) [
        | inr c ↦
            (let (st, (e, f)) = bind_value (follow highest line p.sstate) _ q (rw c at h) in
              subst
                (λ x.
                  Settled seq p x
                  × (Scanned seq highest (record x { out = x.out ++ with_newline line ∷ [] }) r
                        lines
                      → Scanned seq highest p r (line ∷ lines)))
                (value-injective f)
                (
                  settled seq p (record p { sstate = st }) s o refl refl refl,
                  extend seq highest p (record p { sstate = st }) r line lines (λ n. n) (λ n. n)
                      (Grown-same seq p (record p { sstate = st }) refl refl refl) (λ n. refl)
                      (λ n. refl) (λ new i d u x. follows line (outside p o) c (spaced c) e x),
                ))
        | inl c ↦
            (let is_text : line_type line ≡ 0 = ground arith in
              elim (Bool-cases (include_line p.sstate)) [
                | inl t ↦
                    (let w = place-Settled seq fuel max p q s (rw (c, t) at h) in
                      (
                        w,
                        placed p q r line lines is_text t w.0
                            (place-Counts fuel seq max p q (rw (c, t) at h)),
                      ))
                | inr t ↦
                    subst
                      (λ x.
                        Settled seq p x
                        × (Scanned seq highest (record x { out = x.out ++ with_newline line ∷ [] })
                              r lines
                            → Scanned seq highest p r (line ∷ lines)))
                      (value-injective (rw (c, t) at h))
                      (
                        settled seq p p s o refl refl refl,
                        extend seq highest p p r line lines (λ n. n) (λ n. n)
                            (Grown-same seq p p refl refl refl) (λ n. refl) (λ n. refl)
                            (λ new i d u x. unread line (outside p o) is_text t x),
                      )
              ])
      ]

  -- Where `delta` succeeds, it has scanned the old body.
  pub delta-Scanned :
      (fuel max : ℕ) (lines : List Bytes) (p r : Progress)
      → Sound seq p
      → is_insert p.dstate.phase ≡ false
      → All IsSpaced lines
      → delta fuel highest seq max lines p ≡ value r
      → Scanned seq highest p r lines
  unfolding delta copy_line
  delta-Scanned fuel max [] p r s o spaced h = elim (Bool-cases (include_line p.sstate)) [
    | inl t ↦ (let x = rw t at h in cc)
    | inr t ↦
        (let (w, _, o') = append-Settled seq fuel max p r s (rw t at h) in
          let (same, del, rest) = append-Apart fuel seq max p r (rw t at h) in
          record {
            new = w.new ++ [];
            inserted = text_lines w.new ++ [];
            read = w.read;
            deleted = 0;
            unchanged = 0;
            wrote = rw (append-nil w.new) w.wrote;
            counted = rw (append-nil (text_lines w.new)) (sym w.counted);
            took = w.took;
            marked = λ n.
                rw (append-nil (text_lines w.new))
                  (sym (append-nil (written (text_lines w.new))) ∙ (w.marked n).0);
            deletions = omega (arith, del);
            rest = omega (arith, rest);
            used_up = w.used_up;
            left = o';
            course = before_scan seq highest w.weave refl (
                subst
                  (λ m.
                    Scan seq highest (state_of r.dstate.phase) m [] [] [] 0 0
                      (state_of r.dstate.phase) r.sstate)
                  same finished);
          })
  ]
  delta-Scanned fuel max (line ∷ lines) p r s o spaced h =
      (let (x, (e, f)) = bind_value (copy_line fuel highest seq max line p) _ r h in
        let (q, (g, k)) = bind_value (before_line fuel highest seq max line p) _ x e in
        let ((w, s', o'), back) = before_line-Scanned fuel max line lines p q r s o spaced.0 g in
        let now = value-injective k in
        back (
          delta-Scanned fuel max lines (record q { out = q.out ++ with_newline line ∷ [] }) r s' o'
            spaced.1 (subst (λ y. delta fuel highest seq max lines y ≡ value r) (sym now) f)))

  abbrev copied : Bytes → Progress → Progress
  copied line x = record x { out = x.out ++ with_newline line ∷ [] }

  -- A body that begins with a control line: the new one begins with it, too.
  pub delta_first-Scanned :
      (fuel max : ℕ) (line : Bytes) (lines : List Bytes) (p r : Progress)
      → Sound seq p
      → is_insert p.dstate.phase ≡ false
      → IsSpaced line
      → All IsSpaced lines
      → (line_type line == 0) ≡ false
      → delta fuel highest seq max (line ∷ lines) p ≡ value r
      → (x : Scanned seq highest p r (line ∷ lines)) × (rest : List Bytes) × (x.new ≡ line ∷ rest)
  unfolding delta copy_line before_line
  delta_first-Scanned fuel max line lines p r s o spaced all_spaced c h =
      (let (q, (e, f)) = bind_value (copy_line fuel highest seq max line p) _ r h in
        let (q1, (e1, f1)) = bind_value (before_line fuel highest seq max line p) _ q e in
        let (st, (e2, f2)) = bind_value (follow highest line p.sstate) _ q1 (rw c at e1) in
        let followed : Progress = record p { sstate = st } in
        let unwritten : Grown seq [] p followed [] = record {
          new = [];
          read = [];
          wrote = sym (append-nil p.out);
          counted = omega arith;
          took = refl;
          marked = λ n. (refl, n);
          used_up = λ u. u;
          weave = stop;
        } in
        let now : record followed { out = p.out ++ with_newline line ∷ [] } ≡ q =
          ap (copied line) (value-injective f2) ∙ value-injective f1 in
        extended seq highest p followed r line lines (λ n. n) (λ n. n) unwritten (λ n. refl)
          (λ n. refl) (λ new i d u x. follows line (outside p o) c (spaced c) e2 x)
          (delta-Scanned fuel max lines (record followed { out = p.out ++ with_newline line ∷ [] })
            r s o all_spaced
            (subst (λ y. delta fuel highest seq max lines y ≡ value r) (sym now) f)))
