-- ===== src/Body/Delta/History.antt =====
-- A new delta leaves the earlier versions as they are.
use mathlib.Core.Path.{Path, subst, fun_ext}
use cssc.Common.{
  ℕ, ◌<◌, ◌≤◌, ◌≡◌, ◌≢◌, refl, sym, ◌∙◌, inl, inr, ◌⊎◌, List, [], ◌∷◌, ◌++◌, Bool, false, Bytes,
  Option, some, none, ◌==◌, arith, All, Bool-cases,
}
use cssc.Common.Runs.{value}
use cssc.SeqState.Blocks.{Kind, insert, delete, letter, Owner, update}
use cssc.Diff.{start, is_delete}
use cssc.Body.Line.{Result, ok, Event, text, opened, closed, classify}
use cssc.Body.Get.Reads.{Reads, nothing, takes, skips, opens_block, closes_block, events}
use cssc.Body.Remove.{UpdateState, is_inserting}
use cssc.Body.Remove.Versions.{
  Tracks, without, without_ne, Owner-without, inserting-unowned, update_twice, update_swap,
  Tracks-kept, Tracks-closed,
}
use cssc.Body.Delta.{Progress, delta}
use cssc.Body.Delta.Weave.{
  written, control_text, block_of, Weave, stop, opens, closes, added, old, IsDiffLine,
}
use cssc.Body.Delta.Woven.{delta-Weave}
use cssc.Body.Delta.Numbered.{
  Reaches, classify-Reaches, own_open, own_close, classify-text, events_cons, events-IsSpaced,
}

module _ (highest seq last : ℕ) (inc : ℕ → Bool) (left_out : inc seq ≡ false)
    (below : highest < seq) (small : seq ≤ 65535) (fits : seq ≤ last) where
  -- No later insertion is open.
  abbrev Latest : (ℕ → Option Kind) → Type 0
  Latest op = (j : ℕ) → op j ≡ some insert → j ≤ seq

  -- A reading of the new body with the same lines.
  record Same (t : UpdateState) (op : ℕ → Option Kind) (lines : List Bytes)
      (taken : List (ℕ × Bytes)) (op' : ℕ → Option Kind) : Type 0 where
    es : List Event
    well_formed : events seq lines ≡ ok es
    final : ℕ → Option Kind
    reads : Reads inc last op es taken final
    left : without seq final ≡ op'
    tracks : Tracks t seq final

  add_event :
      {t : UpdateState} {op op1 : ℕ → Option Kind} {lines : List Bytes}
      {taken taken1 : List (ℕ × Bytes)} {op' : ℕ → Option Kind} (line : Bytes) (e : Event)
      → classify seq line ≡ ok e
      → ((es : List Event) (final : ℕ → Option Kind)
          → Reads inc last op1 es taken1 final
          → Reads inc last op (e ∷ es) taken final)
      → Same t op1 lines taken1 op'
      → Same t op (line ∷ lines) taken op'
  unfolding events
  add_event line e c extend r = record {
    es = e ∷ r.es;
    well_formed = rw (c, r.well_formed) refl;
    final = r.final;
    reads = extend r.es r.final r.reads;
    left = r.left;
    tracks = r.tracks;
  }

  -- The open blocks after a control line.
  own_opened :
      (k : Kind) (op : ℕ → Option Kind)
      → op seq ≡ none
      → Latest op
      → Tracks (block_of k) seq (update op seq (some k))
  own_opened insert op idle latest = (ground arith, λ j h. opened_latest op latest j h)
    where
      opened_latest :
          (op : ℕ → Option Kind)
          → Latest op
          → (j : ℕ) → update op seq (some insert) j ≡ some insert
          → j ≤ seq
      opened_latest op latest j h = elim (Bool-cases (seq == j)) [
        | inl e ↦ ground arith
        | inr e ↦ latest j (rw e at h)
      ]
  own_opened delete op idle latest = ground arith

  block-some : (k : Kind) (op : ℕ → Option Kind) → Tracks (block_of k) seq op → op seq ≡ some k
  block-some insert op t = t.0
  block-some delete op t = t

  update-Latest :
      (op : ℕ → Option Kind) (n : ℕ) (v : Option Kind)
      → n ≤ seq
      → Latest op
      → Latest (update op n v)
  update-Latest op n v le latest j h = elim (Bool-cases (n == j)) [
    | inl e ↦ ground arith
    | inr e ↦ latest j (rw e at h)
  ]

  moved :
      {op' : ℕ → Option Kind} {es : List Event} {taken : List (ℕ × Bytes)} {a b : ℕ → Option Kind}
      → a ≡ b
      → Reads inc last a es taken op'
      → Reads inc last b es taken op'
  moved {op' = op'} {es = es} {taken = taken} e r = subst (λ x. Reads inc last x es taken op') e r

  -- What a reading of an event comes to.
  abbrev Head :
      (ℕ → Option Kind) → Event → List Event → List (ℕ × Bytes) → (ℕ → Option Kind) → Type 0
  Head op (text l) es taken op' =
      ((i : ℕ) × (taken1 : List (ℕ × Bytes)) × Owner inc op i
        × (taken ≡ (i, l) ∷ taken1)
        × Reads inc last op es taken1 op')
      ⊎ (((i : ℕ) → ¬ Owner inc op i) × Reads inc last op es taken op')
  Head op (opened k n) es taken op' =
      (n ≤ last) × (op n ≡ none) × Reads inc last (update op n (some k)) es taken op'
  Head op (closed n) es taken op' =
      (k : Kind) × (n ≤ last) × (op n ≡ some k) × Reads inc last (update op n none) es taken op'

  recast :
      (op op' : ℕ → Option Kind) (e e' : Event) (es es' : List Event) (taken : List (ℕ × Bytes))
      → Path (List Event) (e ∷ es) (e' ∷ es')
      → Head op e es taken op'
      → Head op e' es' taken op'
  recast op op' e e' es es' taken shape h =
      subst (λ x. Head op (head_of x) (tail_of x) taken op') shape h
    where
      head_of : List Event → Event
      head_of [] = closed 0
      head_of (x ∷ xs) = x

      tail_of : List Event → List Event
      tail_of [] = []
      tail_of (x ∷ xs) = xs

  Reads-Head :
      {op op' : ℕ → Option Kind} {e : Event} {es es1 : List Event} {taken : List (ℕ × Bytes)}
      → es ≡ e ∷ es1
      → Reads inc last op es taken op'
      → Head op e es1 taken op'
  Reads-Head shape nothing = cc
  Reads-Head {op = op} {op' = op'} {e = e} {es1 = es1} shape
        (takes {es = es} {taken = taken1} i l own r) =
      recast op op' (text l) e es es1 ((i, l) ∷ taken1) shape (inl (i, taken1, own, refl, r))
  Reads-Head {op = op} {op' = op'} {e = e} {es1 = es1} {taken = taken} shape
        (skips {es = es} l unowned r) =
      recast op op' (text l) e es es1 taken shape (inr (unowned, r))
  Reads-Head {op = op} {op' = op'} {e = e} {es1 = es1} {taken = taken} shape
        (opens_block {es = es} k n fits idle r) =
      recast op op' (opened k n) e es es1 taken shape (fits, idle, r)
  Reads-Head {op = op} {op' = op'} {e = e} {es1 = es1} {taken = taken} shape
        (closes_block {es = es} k n fits now r) =
      recast op op' (closed n) e es es1 taken shape (k, fits, now, r)

  module _ (t : UpdateState) (lines rest : List Bytes) (es : List Event) (op' : ℕ → Option Kind)
      (s : UpdateState) (outside : is_inserting s ≡ false)
      (later : (op : ℕ → Option Kind) (taken : List (ℕ × Bytes))
        → Tracks s seq op
        → Latest op
        → Reads inc last (without seq op) es taken op'
        → Same t op lines taken op')
      (op : ℕ → Option Kind) (tracks : Tracks s seq op) (latest : Latest op) (line : Bytes) where
    keep_line :
        (e : Event) (taken : List (ℕ × Bytes))
        → classify seq line ≡ ok e
        → Reaches highest e
        → Head (without seq op) e es taken op'
        → Same t op (line ∷ lines) taken op'
    keep_line (text l) taken c reach (inl (i, taken1, own, shape, r)) =
        subst (λ x. Same t op (line ∷ lines) x op') (sym shape)
          (add_event line (text l) c
            (λ es final r1.
              takes i l
                ((Owner-without inc seq left_out op i (Tracks-closed seq op s outside tracks)).1
                  own)
                r1)
            (later op taken1 tracks latest r))
    keep_line (text l) taken c reach (inr (unowned, r)) =
        add_event line (text l) c
          (λ es final r1.
            skips l
              (λ i own. unowned i (
                (Owner-without inc seq left_out op i (Tracks-closed seq op s outside tracks)).0
                  own))
              r1)
          (later op taken tracks latest r)
    keep_line (opened k n) taken c (positive, reach) (fits, idle, r) =
        (let other : n ≢ seq = omega arith in
          add_event line (opened k n) c
            (λ es final r1.
              opens_block k n fits (sym (without_ne inc seq left_out op n other) ∙ idle) r1)
            (later (update op n (some k)) taken
              (Tracks-kept seq op s n (some k) other outside tracks)
              (update-Latest op n (some k) (omega arith) latest)
              (moved (sym (update_swap seq n op (some k) other)) r)))
    keep_line (closed n) taken c (positive, reach) (k, fits, now, r) =
        (let other : n ≢ seq = omega arith in
          add_event line (closed n) c
            (λ es final r1.
              closes_block k n fits (sym (without_ne inc seq left_out op n other) ∙ now) r1)
            (later (update op n none) taken (Tracks-kept seq op s n none other outside tracks)
              (update-Latest op n none (omega arith) latest)
              (moved (sym (update_swap seq n op none other)) r)))

  ends_there :
      (es : List Event) (taken : List (ℕ × Bytes)) (op op' : ℕ → Option Kind)
      → Path (Result (List Event)) (ok []) (ok es)
      → Reads inc last (without seq op) es taken op'
      → without seq op ≡ op'
  ends_there es taken op op' w nothing = refl
  ends_there es taken op op' w (takes i l own r) = cc
  ends_there es taken op op' w (skips l unowned r) = cc
  ends_there es taken op op' w (opens_block k n fits idle r) = cc
  ends_there es taken op op' w (closes_block k n fits now r) = cc

  nothing_taken :
      (es : List Event) (taken : List (ℕ × Bytes)) (op op' : ℕ → Option Kind)
      → Path (Result (List Event)) (ok []) (ok es)
      → Reads inc last (without seq op) es taken op'
      → Reads inc last op [] taken op
  nothing_taken es taken op op' w nothing = nothing
  nothing_taken es taken op op' w (takes i l own r) = cc
  nothing_taken es taken op op' w (skips l unowned r) = cc
  nothing_taken es taken op op' w (opens_block k n fits idle r) = cc
  nothing_taken es taken op op' w (closes_block k n fits now r) = cc

  Reads-Weave :
      {s t : UpdateState} {lines rest : List Bytes}
      → Weave seq s lines rest t
      → (op op' : ℕ → Option Kind) (es : List Event) (taken : List (ℕ × Bytes)) → Tracks s seq op
      → Latest op
      → events highest rest ≡ ok es
      → Reads inc last (without seq op) es taken op'
      → Same t op lines taken op'
  Reads-Weave stop op op' es taken t latest w r =
      unfold events in
      record {
        es = [];
        well_formed = refl;
        final = op;
        reads = nothing_taken es taken op op' w r;
        left = ends_there es taken op op' w r;
        tracks = t;
      }
  Reads-Weave (opens k weave) op op' es taken t latest w r =
      add_event (control_text (letter k) seq) (opened k seq) (own_open seq k (omega arith) small)
        (λ es final r. opens_block k seq fits t r)
        (Reads-Weave weave (update op seq (some k)) op' es taken (own_opened k op t latest)
          (update-Latest op seq (some k) (omega arith) latest) w
          (moved (sym (update_twice seq op (some k))) r))
  Reads-Weave (closes k e weave) op op' es taken t latest w r =
      (let now = block-some k op (subst (λ x. Tracks x seq op) e t) in
        add_event (control_text b'E' seq) (closed seq) (own_close seq (omega arith) small)
          (λ es final r. closes_block k seq fits now r)
          (Reads-Weave weave (update op seq none) op' es taken (ground arith)
            (update-Latest op seq none (omega arith) latest) w
            (moved (sym (update_twice seq op none)) r)))
  Reads-Weave (added line h weave) op op' es taken t latest w r =
      add_event line (text line) (classify-text seq line h)
        (λ es final r. skips line (λ i. inserting-unowned inc seq left_out op i t) r)
        (Reads-Weave weave op op' es taken t latest w r)
  Reads-Weave {s = s} {t = t'} (old {lines = lines} {rest = rest} line h i weave) op op' es taken t
        latest w r =
      (let (e, es1, c, w1, shape) = events_cons highest line rest es w in
        let (c1, reach) = classify-Reaches highest seq line e (omega arith) c in
        keep_line t' lines rest es1 op' s h
          (λ op1 taken1 t1 latest1 r1. Reads-Weave weave op1 op' es1 taken1 t1 latest1 w1 r1) op t
          latest line e taken c1 reach (Reads-Head shape r))

-- The versions without a new delta read the same lines after it as before: where `delta`, from the
-- start of a diff that it reads to its end, adds a delta of which a version includes nothing, and the
-- blocks of the old body give the version certain lines, each from a delta that owns it, then the
-- events of the new body with the new number as the highest give it the same lines from the same
-- deltas, and leave the same blocks open. The number is greater than all in the old body, and no text
-- that is inserted looks like a control line.
pub delta-Reads :
    (fuel highest seq last max : ℕ) (inc : ℕ → Bool) (lines : List Bytes) (es : List Event)
    (taken : List (ℕ × Bytes)) (op : ℕ → Option Kind) (p r : Progress)
    → inc seq ≡ false
    → highest < seq
    → seq ≤ 65535
    → seq ≤ last
    → events highest lines ≡ ok es
    → Reads inc last (λ _. none) es taken op
    → All IsDiffLine p.dstate.input
    → p.dstate.phase ≡ start
    → delta fuel highest seq max lines p ≡ value r
    → is_delete r.dstate.phase ≡ false
    → (new : List Bytes) × (r.out ≡ p.out ++ written new)
      × (es' : List Event) × (events seq new ≡ ok es')
      × Reads inc last (λ _. none) es' taken op
delta-Reads fuel highest seq last max inc lines es taken op p r left below small fits w reads s e h
      d =
    (let (new, n, weave) =
        delta-Weave fuel highest seq max lines p r below small (events-IsSpaced highest lines es w)
          s e h d in
      let none_open = unowned_there seq (λ _. none) refl in
      let same =
        Reads-Weave highest seq last inc left below small fits weave (λ _. none) op es taken refl
          (λ j h. ground arith) w
          (subst (λ x. Reads inc last x es taken op) (sym none_open) reads) in
      (
        new,
        n,
        same.es,
        same.well_formed,
        subst (λ x. Reads inc last (λ _. none) same.es taken x)
            (sym (unowned_there seq same.final same.tracks) ∙ same.left) same.reads,
      ))
  where
    unowned_there : (seq : ℕ) (op : ℕ → Option Kind) → op seq ≡ none → without seq op ≡ op
    unowned_there seq op h = fun_ext (λ n. ground arith)
