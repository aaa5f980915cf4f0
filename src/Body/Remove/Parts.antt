-- ===== src/Body/Remove/Parts.antt =====
-- One line of the body, removed or kept, before what is left of the rest.
use mathlib.Core.Path.{subst}
use cssc.Common.{
  ℕ, ◌≡◌, ◌≢◌, refl, sym, ap, ◌∙◌, inl, inr, List, [], ◌∷◌, ◌++◌, Bool, false, Bytes, Option, none,
  some, if◌then◌else◌, ◌==◌, drop, Bool-cases,
}
use cssc.SeqState.Blocks.{Kind, insert, delete, letter, Owner, update}
use cssc.Body.Line.{Result, ok, ◌>>=◌, line_type, check_arg, strict_atous, Event, text, classify}
use cssc.Body.Get.Reads.{Reads, takes, skips, events, unbind}
use cssc.Body.Remove.{
  UpdateState, copying, deleting, inserting, next_state, is_inserting, expected, remove_line,
  remove_loop, at_end,
}
use cssc.Body.Remove.Versions.{
  Tracks, without, Owner-without, inserting-unowned, removed_text, kept_control, own_control,
  update_swap, Tracks-closed,
}

-- What is left of the events `es`, read from the open blocks `op`, when `lines` are written.
pub record Removed (highest seq : ℕ) (inc : ℕ → Bool) (last : ℕ) (op op' : ℕ → Option Kind)
    (taken : List (ℕ × Bytes)) (lines : List Bytes) : Type 0 where
  pub kept : List Event
  pub well_formed : events highest lines ≡ ok kept
  pub reads : Reads inc last (without seq op) kept taken (without seq op')

module _ (highest seq : ℕ) (inc : ℕ → Bool) (last : ℕ) (left_out : inc seq ≡ false) where
  -- A line that is kept, before what is left of the rest.
  keep_line :
      {op1 op2 op' : ℕ → Option Kind} {taken taken' : List (ℕ × Bytes)} {lines : List Bytes}
      (line : Bytes) (e : Event)
      → classify highest line ≡ ok e
      → (r : Removed highest seq inc last op2 op' taken lines)
      → Reads inc last (without seq op1) (e ∷ r.kept) taken' (without seq op')
      → Removed highest seq inc last op1 op' taken' (line ∷ lines)
  keep_line line e c r reads = record {
    kept = e ∷ r.kept;
    well_formed = unfold events in rw (c, r.well_formed);
    reads = reads;
  }

  pub record Split (s : UpdateState) (line : Bytes) (rest lines' : List Bytes) : Type 0 where
    pub next : UpdateState
    pub written : List Bytes
    pub written_rest : List Bytes
    pub by_line : remove_line seq s line ≡ ok (next, written)
    pub by_rest : remove_loop seq next rest ≡ ok written_rest
    pub joined : lines' ≡ written ++ written_rest

  pub Split-loop :
      (s : UpdateState) (line : Bytes) (rest lines' : List Bytes)
      → remove_loop seq s (line ∷ rest) ≡ ok lines'
      → Split s line rest lines'
  unfolding remove_loop
  Split-loop s line rest lines' h =
      let (next, a, h1) =
        unbind (remove_line seq s line)
          (λ next. remove_loop seq next.0 rest >>= λ r. ok (next.1 ++ r)) h in
      let (r, b, h2) = unbind (remove_loop seq next.0 rest) (λ r. ok (next.1 ++ r)) h1 in
      record {
        next = next.0;
        written = next.1;
        written_rest = r;
        by_line = a;
        by_rest = b;
        joined = cc;
      }

  pub after_text :
      (s : UpdateState) (line : Bytes) (rest lines' : List Bytes)
      → Split s line rest lines'
      → line_type line ≡ 0
      → (rest' : List Bytes) × (remove_loop seq s rest ≡ ok rest')
        × (lines' ≡ (if is_inserting s then [] else line ∷ []) ++ rest')
  after_text s line rest lines' p t =
      let e = sym p.by_line ∙ removed_text seq s line t in
      let next_is : p.next ≡ s = cc in
      let written_is : p.written ≡ (if is_inserting s then [] else line ∷ []) = cc in
      (
        p.written_rest,
        subst (λ x. remove_loop seq x rest ≡ ok p.written_rest) next_is p.by_rest,
        p.joined ∙ ap (λ w. w ++ p.written_rest) written_is,
      )

  pub after_kept :
      (s : UpdateState) (line : Bytes) (rest lines' : List Bytes) (n : ℕ)
      → Split s line rest lines'
      → (line_type line == 0) ≡ false
      → check_arg line ≡ ok tt
      → strict_atous (drop 3 line) ≡ ok n
      → n ≢ seq
      → (rest' : List Bytes) × (is_inserting s ≡ false)
        × (remove_loop seq s rest ≡ ok rest')
        × (lines' ≡ line ∷ rest')
  after_kept s line rest lines' n p t a d h = elim (Bool-cases (is_inserting s)) [
    | inl on ↦ absurd (let e = sym p.by_line ∙ (rw on at (kept_control seq s line n t a d h)) in cc)
    | inr off ↦
        let e = sym p.by_line ∙ (rw off at (kept_control seq s line n t a d h)) in
        let next_is : p.next ≡ s = cc in
        let written_is : p.written ≡ line ∷ [] = cc in
        (
          p.written_rest,
          off,
          subst (λ x. remove_loop seq x rest ≡ ok p.written_rest) next_is p.by_rest,
          p.joined ∙ ap (λ w. w ++ p.written_rest) written_is,
        )
  ]

  expected-eq-ok :
      (o : Option UpdateState) {s1 : UpdateState} {w : List Bytes}
      → ◌≡◌ {A = Result (UpdateState × List Bytes)} (expected o) (ok (s1, w))
      → (o ≡ some s1) × (w ≡ [])
  expected-eq-ok none h = cc
  expected-eq-ok (some s) h = (cc, cc)

  pub after_own :
      (s : UpdateState) (line : Bytes) (rest lines' : List Bytes) (n : ℕ)
      → Split s line rest lines'
      → (line_type line == 0) ≡ false
      → check_arg line ≡ ok tt
      → strict_atous (drop 3 line) ≡ ok n
      → n ≡ seq
      → (s1 : UpdateState) × (next_state s (line_type line) ≡ some s1)
        × (remove_loop seq s1 rest ≡ ok lines')
  after_own s line rest lines' n p t a d h =
      let (e, w) =
        expected-eq-ok (next_state s (line_type line))
          (sym (own_control seq s line n t a d h) ∙ p.by_line) in
      (p.next, e, p.by_rest ∙ ap ok (sym (p.joined ∙ ap (λ x. x ++ p.written_rest) w)))

  pub letter-control :
      (line : Bytes) (k : Kind) → line_type line ≡ letter k → (line_type line == 0) ≡ false
  letter-control line insert e = rw e
  letter-control line delete e = rw e

  -- The line of a text that is kept or left out, with what is left of the rest.
  pub text_line :
      {op op' : ℕ → Option Kind} {taken : List (ℕ × Bytes)} {rest' : List Bytes} (s : UpdateState)
      (line l : Bytes)
      → Tracks s seq op
      → classify highest line ≡ ok (text l)
      → ((i : ℕ) → ¬ Owner inc op i)
      → Removed highest seq inc last op op' taken rest'
      → Removed highest seq inc last op op' taken
          ((if is_inserting s then [] else line ∷ []) ++ rest')
  text_line inserting line l t c unowned r = r
  text_line {op = op} copying line l t c unowned r = keep_line line (text l) c r (
      skips l
        (λ i own.
          unowned i
            ((Owner-without inc seq left_out op i (Tracks-closed seq op copying refl t)).1 own))
        r.reads)
  text_line {op = op} deleting line l t c unowned r = keep_line line (text l) c r (
      skips l
        (λ i own.
          unowned i
            ((Owner-without inc seq left_out op i (Tracks-closed seq op deleting refl t)).1 own))
        r.reads)

  pub taken_line :
      {op op' : ℕ → Option Kind} {taken : List (ℕ × Bytes)} {rest' : List Bytes} (s : UpdateState)
      (line l : Bytes) (i : ℕ)
      → Tracks s seq op
      → classify highest line ≡ ok (text l)
      → Owner inc op i
      → Removed highest seq inc last op op' taken rest'
      → Removed highest seq inc last op op'
          ((i, l) ∷ taken)
          ((if is_inserting s then [] else line ∷ []) ++ rest')
  taken_line {op = op} inserting line l i t c own r =
      absurd (inserting-unowned inc seq left_out op i t own)
  taken_line {op = op} copying line l i t c own r = keep_line line (text l) c r (
      takes i l ((Owner-without inc seq left_out op i (Tracks-closed seq op copying refl t)).0 own)
        r.reads)
  taken_line {op = op} deleting line l i t c own r = keep_line line (text l) c r (
      takes i l ((Owner-without inc seq left_out op i (Tracks-closed seq op deleting refl t)).0 own)
        r.reads)

  pub recast :
      {op1 op2 op' : ℕ → Option Kind} {taken : List (ℕ × Bytes)} {lines : List Bytes}
      → without seq op1 ≡ without seq op2
      → Removed highest seq inc last op1 op' taken lines
      → Removed highest seq inc last op2 op' taken lines
  recast {op' = op'} {taken = taken} e r = record {
    kept = r.kept;
    well_formed = r.well_formed;
    reads = subst (λ x. Reads inc last x r.kept taken (without seq op')) e r.reads;
  }

  -- A control line of another delta.
  pub block_line :
      {op op' : ℕ → Option Kind} {taken : List (ℕ × Bytes)} {rest' : List Bytes} (line : Bytes)
      (e : Event) (n : ℕ) (v : Option Kind)
      → classify highest line ≡ ok e
      → n ≢ seq
      → (r : Removed highest seq inc last (update op n v) op' taken rest')
      → (Reads inc last (update (without seq op) n v) r.kept taken (without seq op')
          → Reads inc last (without seq op) (e ∷ r.kept) taken (without seq op'))
      → Removed highest seq inc last op op' taken (line ∷ rest')
  block_line {op = op} {op' = op'} {taken = taken} line e n v c h r step = keep_line line e c r (
      step (
        subst (λ x. Reads inc last x r.kept taken (without seq op')) (update_swap seq n op v h)
          r.reads))

  pub ended :
      (s : UpdateState) (lines lines' : List Bytes)
      → events highest lines ≡ ok []
      → remove_loop seq s lines ≡ ok lines'
      → lines' ≡ []
  unfolding events remove_loop
  ended s [] lines' w h = at_end-nil s h
    where
      at_end-nil : (s : UpdateState) → at_end s ≡ ok lines' → lines' ≡ []
      at_end-nil copying h = cc
      at_end-nil deleting h = cc
      at_end-nil inserting h = cc
  ended s (line ∷ lines) lines' w h =
      let (e, c, h1) =
        unbind (classify highest line) (λ e. events highest lines >>= λ es. ok (e ∷ es)) w in
      let (es, c1, h2) = unbind (events highest lines) (λ es. ok (e ∷ es)) h1 in cc
