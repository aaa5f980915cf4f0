-- ===== src/Body/Delta/Scan.antt =====
-- The scan of `delta`: what becomes of each line of the old body in the new one.
use mathlib.Core.Path.{subst}
use cssc.Common.{
  ℕ, suc, ◌+◌, ◌≡◌, refl, sym, ap, ◌∙◌, List, [], ◌∷◌, ◌++◌, append_assoc, append-nil, true, false,
  Bytes, ◌==◌, arith,
}
use cssc.Common.Runs.{value}
use cssc.SeqState.{SeqState, include_line}
use cssc.SeqState.Blocks.{Kind, insert, delete, letter}
use cssc.Body.Line.{ok, line_type, check_arg}
use cssc.Body.Remove.{UpdateState, copying, deleting, inserting, is_inserting}
use cssc.Diff.{is_insert}
use cssc.Body.Delta.{Progress, follow}
use cssc.Body.Delta.Weave.{
  with_newline, written, written-append, text_lines, text_lines-control_text, text_lines-text,
  block_of, control_text, Weave, stop, state_of,
}
use cssc.Diff.Ended.{IsUsedUp}
use cssc.Diff.Insertions.{insertions, insertions-append, IsCounted}
use cssc.Common.{length, length-append}
use cssc.Body.Delta.Steps.{Grown}

-- `Scan seq highest s st new old i d u t st'`: between the lines of the old body, of which each control
-- line is followed, stand the blocks of the new delta with the lines `i`; of the lines that the state
-- includes, `d` stand in its deletions and `u` do not.
pub data Scan (seq highest : ℕ)
    : UpdateState
      → SeqState
      → List Bytes
      → List Bytes
      → List Bytes
      → ℕ
      → ℕ
      → UpdateState
      → SeqState
      → Type 0 where
  finished : {s : UpdateState} {st : SeqState} → Scan seq highest s st [] [] [] 0 0 s st
  opens :
      {t : UpdateState} {st st' : SeqState} {new old : List Bytes} {i : List Bytes} {d u : ℕ}
      (k : Kind)
      → Scan seq highest (block_of k) st new old i d u t st'
      → Scan seq highest copying st (control_text (letter k) seq ∷ new) old i d u t st'
  closes :
      {s t : UpdateState} {st st' : SeqState} {new old : List Bytes} {i : List Bytes} {d u : ℕ}
      (k : Kind)
      → s ≡ block_of k
      → Scan seq highest copying st new old i d u t st'
      → Scan seq highest s st (control_text b'E' seq ∷ new) old i d u t st'
  added :
      {t : UpdateState} {st st' : SeqState} {new old : List Bytes} {i : List Bytes} {d u : ℕ}
      (line : Bytes)
      → line_type line ≡ 0
      → Scan seq highest inserting st new old i d u t st'
      → Scan seq highest inserting st (line ∷ new) old (line ∷ i) d u t st'
  follows :
      {s t : UpdateState} {st st1 st' : SeqState} {new old : List Bytes} {i : List Bytes} {d u : ℕ}
      (line : Bytes)
      → is_inserting s ≡ false
      → (line_type line == 0) ≡ false
      → check_arg line ≡ ok tt
      → follow highest line st ≡ value st1
      → Scan seq highest s st1 new old i d u t st'
      → Scan seq highest s st (line ∷ new) (line ∷ old) i d u t st'
  unread :
      {s t : UpdateState} {st st' : SeqState} {new old : List Bytes} {i : List Bytes} {d u : ℕ}
      (line : Bytes)
      → is_inserting s ≡ false
      → line_type line ≡ 0
      → include_line st ≡ false
      → Scan seq highest s st new old i d u t st'
      → Scan seq highest s st (line ∷ new) (line ∷ old) i d u t st'
  kept :
      {t : UpdateState} {st st' : SeqState} {new old : List Bytes} {i : List Bytes} {d u : ℕ}
      (line : Bytes)
      → line_type line ≡ 0
      → include_line st ≡ true
      → Scan seq highest copying st new old i d u t st'
      → Scan seq highest copying st (line ∷ new) (line ∷ old) i d (suc u) t st'
  dropped :
      {t : UpdateState} {st st' : SeqState} {new old : List Bytes} {i : List Bytes} {d u : ℕ}
      (line : Bytes)
      → line_type line ≡ 0
      → include_line st ≡ true
      → Scan seq highest deleting st new old i d u t st'
      → Scan seq highest deleting st (line ∷ new) (line ∷ old) i (suc d) u t st'

module _ (seq highest : ℕ) where
  -- New lines before a scan.
  pub before_scan :
      {s m t : UpdateState} {st st' : SeqState} {a b none_kept old : List Bytes} {i : List Bytes}
      {d u : ℕ}
      → Weave seq s a none_kept m
      → none_kept ≡ []
      → Scan seq highest m st b old i d u t st'
      → Scan seq highest s st (a ++ b) old (text_lines a ++ i) d u t st'
  before_scan stop e r = r
  before_scan {t = t} {st = st} {st' = st'} {b = b} {old = old} {i = i} {d = d} {u = u}
        (Weave.opens {lines = a} k w) e r =
      subst
        (λ n.
          Scan seq highest copying st (control_text (letter k) seq ∷ (a ++ b)) old (n ++ i) d u t
            st')
        (sym (text_lines-control_text (letter k) seq a (some_letter k)))
        (opens k (before_scan w e r))
    where
      some_letter : (k : Kind) → (letter k == 0) ≡ false
      some_letter insert = refl
      some_letter delete = refl
  before_scan {s = s} {t = t} {st = st} {st' = st'} {b = b} {old = old} {i = i} {d = d} {u = u}
        (Weave.closes {lines = a} k f w) e r =
      subst (λ n. Scan seq highest s st (control_text b'E' seq ∷ (a ++ b)) old (n ++ i) d u t st')
        (sym (text_lines-control_text b'E' seq a refl)) (closes k f (before_scan w e r))
  before_scan {t = t} {st = st} {st' = st'} {b = b} {old = old} {i = i} {d = d} {u = u}
        (Weave.added {lines = a} line h w) e r =
      subst (λ n. Scan seq highest inserting st (line ∷ (a ++ b)) old (n ++ i) d u t st')
        (sym (text_lines-text line a h)) (added line h (before_scan w e r))
  before_scan (Weave.old line h i w) e r = cc

  -- A scan that ends well, and what is counted in it.
  pub record Scanned (p r : Progress) (lines : List Bytes) : Type 0 where
    pub new : List Bytes
    pub inserted : List Bytes
    pub read : List Bytes
    pub deleted : ℕ
    pub unchanged : ℕ
    pub wrote : r.out ≡ p.out ++ written new
    pub counted : r.inserted ≡ p.inserted + length inserted
    pub took : p.dstate.input ≡ read ++ r.dstate.input
    pub marked : IsCounted p.dstate → written inserted ≡ insertions read
    pub deletions : r.deleted ≡ p.deleted + deleted
    pub rest : r.unchanged ≡ p.unchanged + unchanged
    pub used_up : IsUsedUp p.dstate → IsUsedUp r.dstate
    pub left : is_insert r.dstate.phase ≡ false
    pub course :
        Scan seq highest
          (state_of p.dstate.phase)
          p.sstate
          new
          lines
          inserted
          deleted
          unchanged
          (state_of r.dstate.phase)
          r.sstate

  -- A line of the old body, with new ones before it.
  pub extended :
      (p q r : Progress) (line : Bytes) (lines : List Bytes) (f g : ℕ → ℕ) (w : Grown seq [] p q [])
      → ((n : ℕ) → q.deleted + n ≡ p.deleted + f n)
      → ((n : ℕ) → q.unchanged + n ≡ p.unchanged + g n)
      → ((new i : List Bytes) (d u : ℕ)
          → Scan seq highest
              (state_of q.dstate.phase)
              q.sstate
              new
              lines
              i
              d
              u
              (state_of r.dstate.phase)
              r.sstate
          → Scan seq highest
              (state_of q.dstate.phase)
              p.sstate
              (line ∷ new)
              (line ∷ lines)
              i
              (f d)
              (g u)
              (state_of r.dstate.phase)
              r.sstate)
      → Scanned (record q { out = q.out ++ with_newline line ∷ [] }) r lines
      → (y : Scanned p r (line ∷ lines)) × (rest : List Bytes) × (y.new ≡ w.new ++ line ∷ rest)
  extended p q r line lines f g w df dg step x = (
    record {
      new = w.new ++ line ∷ x.new;
      inserted = text_lines w.new ++ x.inserted;
      read = w.read ++ x.read;
      deleted = f x.deleted;
      unchanged = g x.unchanged;
      wrote =
          x.wrote
          ∙ append_assoc q.out (with_newline line ∷ []) (written x.new)
          ∙ ap (λ l. l ++ with_newline line ∷ written x.new) w.wrote
          ∙ append_assoc p.out (written w.new) (with_newline line ∷ written x.new)
          ∙ ap (λ l. p.out ++ l) (sym (written-append w.new (line ∷ x.new)));
      counted = omega (arith, x.counted, w.counted, length-append (text_lines w.new) x.inserted);
      took =
          w.took ∙ ap (λ l. w.read ++ l) x.took ∙ sym (append_assoc w.read x.read r.dstate.input);
      marked = λ n.
          (let (e, n') = w.marked n in
            written-append (text_lines w.new) x.inserted
            ∙ ap (λ l. l ++ written x.inserted) (sym (append-nil (written (text_lines w.new))) ∙ e)
            ∙ ap (λ l. insertions w.read ++ l) (x.marked n')
            ∙ sym (insertions-append w.read x.read));
      deletions = x.deletions ∙ df x.deleted;
      rest = x.rest ∙ dg x.unchanged;
      used_up = λ u. x.used_up (w.used_up u);
      left = x.left;
      course = before_scan w.weave refl (step x.new x.inserted x.deleted x.unchanged x.course);
    },
    x.new,
    refl,
  )

  pub extend :
      (p q r : Progress) (line : Bytes) (lines : List Bytes) (f g : ℕ → ℕ)
      → Grown seq [] p q []
      → ((n : ℕ) → q.deleted + n ≡ p.deleted + f n)
      → ((n : ℕ) → q.unchanged + n ≡ p.unchanged + g n)
      → ((new i : List Bytes) (d u : ℕ)
          → Scan seq highest
              (state_of q.dstate.phase)
              q.sstate
              new
              lines
              i
              d
              u
              (state_of r.dstate.phase)
              r.sstate
          → Scan seq highest
              (state_of q.dstate.phase)
              p.sstate
              (line ∷ new)
              (line ∷ lines)
              i
              (f d)
              (g u)
              (state_of r.dstate.phase)
              r.sstate)
      → Scanned (record q { out = q.out ++ with_newline line ∷ [] }) r lines
      → Scanned p r (line ∷ lines)
  extend p q r line lines f g w df dg step x = (extended p q r line lines f g w df dg step x).0
