-- ===== src/Body/Delta/Versions.antt =====
-- The old body as the predecessor reads it, and the new one as the version with the new delta does.
use mathlib.Core.Path.{subst}
use cssc.Common.{
  ℕ, suc, ◌≤◌, ◌<◌, ◌≡◌, ◌≢◌, refl, sym, ap, ◌∙◌, inl, inr, List, [], ◌∷◌, Bool, true, false, Bytes,
  Option, none, some, ◌==◌, arith, Bool-cases,
}
use cssc.SeqState.{SeqState, include_line}
use cssc.SeqState.Blocks.{
  Kind, insert, delete, opens, includes, Owner, IsSettled, include_line-Owner, update,
}
use cssc.Body.Line.{ok, line_type, Event, text, opened, closed, classify}
use cssc.Body.Get.Reads.{events, Reads, nothing, takes, skips, opens_block, closes_block, not-taken}
use cssc.Body.Remove.{UpdateState, copying, deleting, inserting, is_inserting}
use cssc.Body.Delta.Weave.{block_of}
use cssc.Body.Delta.Numbered.{classify-Reaches, own_open, own_close, classify-text}
use cssc.Body.Delta.Scan.{Scan, finished, follows, unread, kept, dropped}
use cssc.Body.Delta.Owners.{
  with_delta, block_in, within, inserting-Owner, deleting-unowned, copying-Owner, within_opened,
  within_other,
}
use cssc.Body.Delta.Followed.{Moved, obey-Moved, follow_inversion}

-- `Edit seq i d u old new`: the new text is the old one with the lines `i` of delta `seq` inserted, in this order,
-- and `d` lines deleted; `u` lines are left, in their order and with their owners.
pub data Edit (seq : ℕ) : List Bytes → ℕ → ℕ → List (ℕ × Bytes) → List (ℕ × Bytes) → Type 0 where
  empty : Edit seq [] 0 0 [] []
  inserts :
      {i : List Bytes} {d u : ℕ} {old new : List (ℕ × Bytes)} (line : Bytes)
      → Edit seq i d u old new
      → Edit seq (line ∷ i) d u old ((seq, line) ∷ new)
  deletes :
      {i : List Bytes} {d u : ℕ} {old new : List (ℕ × Bytes)} (line : ℕ × Bytes)
      → Edit seq i d u old new
      → Edit seq i (suc d) u (line ∷ old) new
  keeps :
      {i : List Bytes} {d u : ℕ} {old new : List (ℕ × Bytes)} (line : ℕ × Bytes)
      → Edit seq i d u old new
      → Edit seq i d (suc u) (line ∷ old) (line ∷ new)

module _ (seq highest last max : ℕ) (inc : ℕ → Bool) (below : highest < seq) (small : seq ≤ 65535)
    (fits : seq ≤ last) where
  -- The state of the old body, with the predecessor's deltas.
  pub record Linked (st : SeqState) : Type 0 where
    pub settled : IsSettled st
    pub same_deltas : includes st.states ≡ inc
    pub same_last : st.last ≡ max
    pub low : (n : ℕ) (k : Kind) → opens st.states n ≡ some k → n ≤ highest

  -- The old body as the predecessor reads it, and the new one as the new version does.
  pub record Both (s t : UpdateState) (op op' : ℕ → Option Kind) (new old : List Bytes)
      (i : List Bytes) (d u : ℕ) : Type 0 where
    pub before : List Event
    pub after : List Event
    pub old_text : List (ℕ × Bytes)
    pub new_text : List (ℕ × Bytes)
    pub before_events : events highest old ≡ ok before
    pub after_events : events seq new ≡ ok after
    pub before_reads : Reads inc max op before old_text op'
    pub after_reads :
        Reads (with_delta seq inc) last (within seq s op) after new_text (within seq t op')
    pub edit : Edit seq i d u old_text new_text
    pub closed_again : op' seq ≡ none

  events-cons :
      (bound : ℕ) (line : Bytes) (lines : List Bytes) (e : Event) (es : List Event)
      → classify bound line ≡ ok e
      → events bound lines ≡ ok es
      → events bound (line ∷ lines) ≡ ok (e ∷ es)
  unfolding events
  events-cons bound line lines e es c w = rw (c, w) refl

  moved :
      {inc' : ℕ → Bool} {m : ℕ} {op' : ℕ → Option Kind} {es : List Event} {taken : List (ℕ × Bytes)}
      {a b : ℕ → Option Kind}
      → a ≡ b
      → Reads inc' m a es taken op'
      → Reads inc' m b es taken op'
  moved {inc' = inc'} {m = m} {op' = op'} {es = es} {taken = taken} e r =
      subst (λ x. Reads inc' m x es taken op') e r

  idle : (st : SeqState) → Linked st → opens st.states seq ≡ none
  idle st l = none_there (opens st.states seq) refl
    where
      none_there : (v : Option Kind) → opens st.states seq ≡ v → v ≡ none
      none_there none e = refl
      none_there (some k) e = absurd (omega (arith, l.low seq k e, below))

  -- A line of the new delta.
  new_line :
      (s s1 t : UpdateState) (op op' : ℕ → Option Kind) (new old : List Bytes) (i : List Bytes)
      (d u : ℕ) (line : Bytes) (e : Event)
      → classify seq line ≡ ok e
      → ((es : List Event) (taken : List (ℕ × Bytes))
          → Reads (with_delta seq inc) last (within seq s1 op) es taken (within seq t op')
          → Reads (with_delta seq inc) last (within seq s op) (e ∷ es) taken (within seq t op'))
      → Both s1 t op op' new old i d u
      → Both s t op op' (line ∷ new) old i d u
  new_line s s1 t op op' new old i d u line e c extend b = record {
    before = b.before;
    after = e ∷ b.after;
    old_text = b.old_text;
    new_text = b.new_text;
    before_events = b.before_events;
    after_events = events-cons seq line new e b.after c b.after_events;
    before_reads = b.before_reads;
    after_reads = extend b.after b.new_text b.after_reads;
    edit = b.edit;
    closed_again = b.closed_again;
  }

  -- A control line of the old body.
  old_control :
      (s t : UpdateState) (st st1 : SeqState) (op' : ℕ → Option Kind) (new old : List Bytes)
      (i : List Bytes) (d u : ℕ) (line : Bytes) (e : Event)
      → Linked st
      → classify highest line ≡ ok e
      → Moved highest e st st1
      → Both s t (opens st1.states) op' new old i d u
      → Both s t (opens st.states) op' (line ∷ new) (line ∷ old) i d u
  old_control s t st st1 op' new old i d u line e l c m b =
      (let other : m.number ≢ seq = omega (arith, m.reached, below) in
        record {
          before = e ∷ b.before;
          after = e ∷ b.after;
          old_text = b.old_text;
          new_text = b.new_text;
          before_events = events-cons highest line old e b.before c b.before_events;
          after_events =
              events-cons seq line new e b.after
                (classify-Reaches highest seq line e (omega arith) c).0 b.after_events;
          before_reads =
              m.reading inc max (opens st.states) op' b.before b.old_text
                (omega (arith, m.change.in_range, l.same_last)) refl
                (moved m.change.opened b.before_reads);
          after_reads =
              m.reading (with_delta seq inc) last (within seq s (opens st.states))
                (within seq t op') b.after b.new_text (omega (arith, m.reached, below, fits))
                (ground (arith, other))
                (moved
                  (ap (within seq s) m.change.opened
                    ∙ within_other seq m.number s (opens st.states) m.block other)
                  b.after_reads);
          edit = b.edit;
          closed_again = b.closed_again;
        })

  -- A text of the old body, with what it is to the two versions.
  old_text_line :
      (s t : UpdateState) (op op' : ℕ → Option Kind) (new old : List Bytes) (i i' : List Bytes)
      (d u d' u' : ℕ) (line : Bytes) (more more' : List (ℕ × Bytes) → List (ℕ × Bytes))
      → line_type line ≡ 0
      → ((es : List Event) (taken : List (ℕ × Bytes))
          → Reads inc max op es taken op'
          → Reads inc max op (text line ∷ es) (more taken) op')
      → ((es : List Event) (taken : List (ℕ × Bytes))
          → Reads (with_delta seq inc) last (within seq s op) es taken (within seq t op')
          → Reads
              (with_delta seq inc)
              last
              (within seq s op)
              (text line ∷ es)
              (more' taken)
              (within seq t op'))
      → ((a b : List (ℕ × Bytes)) → Edit seq i d u a b → Edit seq i' d' u' (more a) (more' b))
      → Both s t op op' new old i d u
      → Both s t op op' (line ∷ new) (line ∷ old) i' d' u'
  old_text_line s t op op' new old i i' d u d' u' line more more' c f g h b = record {
    before = text line ∷ b.before;
    after = text line ∷ b.after;
    old_text = more b.old_text;
    new_text = more' b.new_text;
    before_events =
        events-cons highest line old (text line) b.before (classify-text highest line c)
          b.before_events;
    after_events =
        events-cons seq line new (text line) b.after (classify-text seq line c) b.after_events;
    before_reads = f b.before b.old_text b.before_reads;
    after_reads = g b.after b.new_text b.after_reads;
    edit = h b.old_text b.new_text b.edit;
    closed_again = b.closed_again;
  }

  Linked-Moved : (st st1 : SeqState) (e : Event) → Linked st → Moved highest e st st1 → Linked st1
  Linked-Moved st st1 e l m = record {
    settled = m.change.settled;
    same_deltas = m.change.included_kept ∙ l.same_deltas;
    same_last = m.change.last_kept ∙ l.same_last;
    low = λ n k o.
        (let o' : update (opens st.states) m.number m.block n ≡ some k =
            sym (ap (λ f. f n) m.change.opened) ∙ o in
          elim (Bool-cases (m.number == n)) [
            | inl a ↦ (let same : m.number ≡ n = ground arith in omega (arith, same, m.reached))
            | inr a ↦ l.low n k (rw a at o')
          ]);
  }

  taken-Owner :
      (st : SeqState)
      → Linked st
      → include_line st ≡ true
      → Owner inc (opens st.states) st.active_seq
  taken-Owner st l on =
      subst (λ x. Owner x (opens st.states) st.active_seq) l.same_deltas
        ((include_line-Owner st st.active_seq l.settled).0 (on, refl))

  unread-unowned :
      (st : SeqState)
      → Linked st
      → include_line st ≡ false
      → (i : ℕ) → ¬ Owner inc (opens st.states) i
  unread-unowned st l off i o =
      not-taken st i l.settled off (subst (λ x. Owner x (opens st.states) i) (sym l.same_deltas) o)

  -- A line without an owner has none in the new version, outside the new delta's insertions.
  still_unowned :
      (s : UpdateState) (st : SeqState)
      → Linked st
      → is_inserting s ≡ false
      → include_line st ≡ false
      → (i : ℕ) → ¬ Owner (with_delta seq inc) (within seq s (opens st.states)) i
  still_unowned copying st l o off i own =
      unread-unowned st l off i
        ((copying-Owner seq highest inc below (opens st.states) l.low (idle st l) i).0 own)
  still_unowned deleting st l o off i own =
      deleting-unowned seq highest inc below (opens st.states) l.low i own
  still_unowned inserting st l o off i own = cc

  block_of-within : (k : Kind) → block_in (block_of k) ≡ some k
  block_of-within insert = refl
  block_of-within delete = refl

  pub scan-Both :
      {s t : UpdateState} {st st' : SeqState} {new old : List Bytes} {i : List Bytes} {d u : ℕ}
      → Scan seq highest s st new old i d u t st'
      → Linked st
      → Both s t (opens st.states) (opens st'.states) new old i d u
  scan-Both finished l =
      unfold events in
      record {
        before = [];
        after = [];
        old_text = [];
        new_text = [];
        before_events = refl;
        after_events = refl;
        before_reads = nothing;
        after_reads = nothing;
        edit = empty;
        closed_again = idle _ l;
      }
  scan-Both {t = t} {st = st} {st' = st'}
        (Scan.opens {new = new} {old = old} {i = i} {d = d} {u = u} k scan) l =
      new_line copying (block_of k) t (opens st.states) (opens st'.states) new old i d u _
        (opened k seq) (own_open seq k (omega (arith, below)) small)
        (λ es taken r. opens_block k seq fits (ground arith) (
          moved
            (sym (
              ap (update (within seq copying (opens st.states)) seq) (sym (block_of-within k))
              ∙ within_opened seq copying (block_of k) (opens st.states)))
            r))
        (scan-Both scan l)
  scan-Both {s = s} {t = t} {st = st} {st' = st'}
        (Scan.closes {new = new} {old = old} {i = i} {d = d} {u = u} k e scan) l =
      new_line s copying t (opens st.states) (opens st'.states) new old i d u _ (closed seq)
        (own_close seq (omega (arith, below)) small)
        (λ es taken r.
          closes_block k seq fits (now k e)
            (moved (sym (within_opened seq s copying (opens st.states))) r))
        (scan-Both scan l)
    where
      now : (k : Kind) → s ≡ block_of k → within seq s (opens st.states) seq ≡ some k
      now k e = rw (e, block_of-within k) (ground arith)
  scan-Both {t = t} {st = st} {st' = st'}
        (Scan.added {new = new} {old = old} {i = i} {d = d} {u = u} line c scan) l =
      (let b = scan-Both scan l in
        record {
          before = b.before;
          after = text line ∷ b.after;
          old_text = b.old_text;
          new_text = (seq, line) ∷ b.new_text;
          before_events = b.before_events;
          after_events =
              events-cons seq line new (text line) b.after (classify-text seq line c)
                b.after_events;
          before_reads = b.before_reads;
          after_reads =
              takes seq line (inserting-Owner seq highest inc below (opens st.states) l.low)
                b.after_reads;
          edit = inserts line b.edit;
          closed_again = b.closed_again;
        })
  scan-Both {s = s} {t = t} {st = st} {st' = st'}
        (follows {st1 = st1} {new = new} {old = old} {i = i} {d = d} {u = u} line o c a f scan) l =
      (let (e, classified, obeyed, control_line) = follow_inversion highest line st st1 c a f in
        let m =
          obey-Moved highest e st st1 l.settled
            (classify-Reaches highest seq line e (omega arith) classified).1 control_line obeyed in
        old_control s t st st1 (opens st'.states) new old i d u line e l classified m
          (scan-Both scan (Linked-Moved st st1 e l m)))
  scan-Both {s = s} {t = t} {st = st} {st' = st'}
        (unread {new = new} {old = old} {i = i} {d = d} {u = u} line o c off scan) l =
      old_text_line s t (opens st.states) (opens st'.states) new old i i d u d u line (λ x. x)
        (λ x. x) c (λ es taken r. skips line (unread-unowned st l off) r)
        (λ es taken r. skips line (still_unowned s st l o off) r) (λ a b e. e) (scan-Both scan l)
  scan-Both {t = t} {st = st} {st' = st'}
        (kept {new = new} {old = old} {i = i} {d = d} {u = u} line c on scan) l =
      (let own = taken-Owner st l on in
        old_text_line copying t (opens st.states) (opens st'.states) new old i i d u d (suc u) line
          (λ x. (st.active_seq, line) ∷ x) (λ x. (st.active_seq, line) ∷ x) c
          (λ es taken r. takes st.active_seq line own r)
          (λ es taken r.
            takes st.active_seq line
              ((copying-Owner seq highest inc below (opens st.states) l.low (idle st l)
                  st.active_seq).1
                own)
              r)
          (λ a b e. keeps (st.active_seq, line) e) (scan-Both scan l))
  scan-Both {t = t} {st = st} {st' = st'}
        (dropped {new = new} {old = old} {i = i} {d = d} {u = u} line c on scan) l =
      old_text_line deleting t (opens st.states) (opens st'.states) new old i i d u (suc d) u line
        (λ x. (st.active_seq, line) ∷ x) (λ x. x) c
        (λ es taken r. takes st.active_seq line (taken-Owner st l on) r)
        (λ es taken r.
          skips line (deleting-unowned seq highest inc below (opens st.states) l.low) r)
        (λ a b e. deletes (st.active_seq, line) e) (scan-Both scan l)
