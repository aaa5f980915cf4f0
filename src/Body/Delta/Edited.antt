-- ===== src/Body/Delta/Edited.antt =====
-- The version with a new delta: its predecessor's lines, as the output of `diff` edits them.
use mathlib.Core.Path.{subst, subst₂, fun_ext}
use cssc.Common.{
  true, [], sym, ℕ, ◌+◌, ◌≤◌, ◌<◌, ◌≡◌, ◌≢◌, refl, ap, ◌∙◌, List, ◌++◌, Bytes, Option, none, some,
  arith, All,
}
use cssc.Common.Runs.{value}
use cssc.SeqState.{SeqState}
use cssc.SeqState.Blocks.{Kind, opens, includes}
use cssc.SeqState.Create.{IsReady, IsReady-IsSettled, IsReady-opens}
use cssc.Body.Line.{ok, Event}
use cssc.Body.Get.Reads.{events, Reads}
use cssc.Body.Remove.{copying}
use cssc.Body.Delta.{Progress, delta}
use cssc.Diff.{Phase, start, is_insert, is_end}
use cssc.Diff.Insertions.{insertions, IsCounted}
use cssc.Common.{length, append-nil}
use cssc.Body.Delta.Steps.{IsSpaced}
use cssc.Body.Delta.Weave.{written, IsDiffLine, state_of}
use cssc.Body.Delta.Scan.{Scanned}
use cssc.Body.Delta.Scans.{delta-Scanned}
use cssc.Body.Delta.Owners.{with_delta, within}
use cssc.Body.Delta.Versions.{Edit, scan-Both}

-- What a successful `delta` comes to, for the version that it is given, its predecessor, and the one with the
-- new delta: both bodies are well formed, and the text of the one version is an edit of the other's.
pub record Rewritten (seq highest last : ℕ) (p r : Progress) (lines : List Bytes) : Type 0 where
  pub new : List Bytes
  pub before : List Event
  pub after : List Event
  pub old_text : List (ℕ × Bytes)
  pub new_text : List (ℕ × Bytes)
  pub inserted : List Bytes
  pub deleted : ℕ
  pub unchanged : ℕ
  pub wrote : r.out ≡ p.out ++ written new
  pub before_events : events highest lines ≡ ok before
  pub after_events : events seq new ≡ ok after
  pub before_reads :
      Reads
        (includes p.sstate.states)
        p.sstate.last
        (λ _. none)
        before
        old_text
        (opens r.sstate.states)
  pub after_reads :
      Reads
        (with_delta seq (includes p.sstate.states))
        last
        (λ _. none)
        after
        new_text
        (opens r.sstate.states)
  pub edit : Edit seq inserted deleted unchanged old_text new_text
  pub marked : written inserted ≡ insertions p.dstate.input
  pub counted : r.inserted ≡ p.inserted + length inserted
  pub deletions : r.deleted ≡ p.deleted + deleted
  pub rest : r.unchanged ≡ p.unchanged + unchanged

-- A scan to the end of the diff, from a state in which no block is open.
pub Scanned-Rewritten :
    (highest seq last : ℕ) (lines : List Bytes) (p r : Progress) (x : Scanned seq highest p r lines)
    → IsReady p.sstate
    → highest < seq
    → seq ≤ 65535
    → seq ≤ last
    → p.dstate.phase ≡ start
    → IsCounted p.dstate
    → is_end r.dstate.phase ≡ true
    → (y : Rewritten seq highest last p r lines) × (y.new ≡ x.new)
Scanned-Rewritten highest seq last lines p r x ready below small fits e counts d =
    (let outside = at_the_end r.dstate.phase d in
      let inc = includes p.sstate.states in
      let none_open : opens p.sstate.states ≡ (λ _. none) =
        fun_ext λ n. IsReady-opens p.sstate n ready in
      let b = scan-Both seq highest last p.sstate.last inc below small fits x.course (record {
        settled = IsReady-IsSettled p.sstate ready;
        same_deltas = refl;
        same_last = refl;
        low = λ n k o. absurd (none_opened p.sstate n k ready o);
      }) in
      (
        record {
          new = x.new;
          before = b.before;
          after = b.after;
          old_text = b.old_text;
          new_text = b.new_text;
          inserted = x.inserted;
          deleted = x.deleted;
          unchanged = x.unchanged;
          wrote = x.wrote;
          before_events = b.before_events;
          after_events = b.after_events;
          before_reads =
              subst (λ f. Reads inc p.sstate.last f b.before b.old_text (opens r.sstate.states))
                none_open b.before_reads;
          after_reads =
              subst₂ (λ f g. Reads (with_delta seq inc) last f b.after b.new_text g)
                (ap (λ m. within seq m (opens p.sstate.states)) (ap state_of e)
                  ∙ ap (within seq copying) none_open
                  ∙ unowned seq (λ _. none) refl)
                (ap (λ m. within seq m (opens r.sstate.states)) outside
                  ∙ unowned seq (opens r.sstate.states) b.closed_again)
                b.after_reads;
          edit = b.edit;
          marked =
              x.marked counts
              ∙ ap insertions
                  (sym (all_read x.read (x.took) (x.used_up (at_start p.dstate.phase e) d)));
          counted = x.counted;
          deletions = x.deletions;
          rest = x.rest;
        },
        refl,
      ))
  where
    all_read :
        (read : List Bytes)
        → p.dstate.input ≡ read ++ r.dstate.input
        → r.dstate.input ≡ []
        → p.dstate.input ≡ read
    all_read read t u = t ∙ ap (λ l. read ++ l) u ∙ append-nil read

    at_start : (phase : Phase) → phase ≡ start → is_end phase ≡ true → p.dstate.input ≡ []
    at_start phase e h = let f = ap is_end e in cc

    at_the_end : (phase : Phase) → is_end phase ≡ true → state_of phase ≡ copying
    at_the_end start h = cc
    at_the_end Phase.nochange h = cc
    at_the_end Phase.delete h = cc
    at_the_end Phase.insert h = cc
    at_the_end Phase.end h = refl

    none_opened : (st : SeqState) (n : ℕ) (k : Kind) → IsReady st → opens st.states n ≢ some k
    none_opened st n k ready o = let e = IsReady-opens st n ready in cc

    unowned : (seq : ℕ) (op : ℕ → Option Kind) → op seq ≡ none → within seq copying op ≡ op
    unowned seq op h = fun_ext λ n. ground arith

-- The version with a new delta is its predecessor as edited: where `delta`, from a state in which no block
-- is open and from the start of a diff to its end, adds a delta, the old and the new body are well formed,
-- and the version that has the new delta besides those of its predecessor reads from the new body what
-- the predecessor reads from the old one, less the lines that are counted as deleted, and with the lines
-- inserted that the output of `diff` marks as insertions: all of them, in order, as lines of the new delta, and as many as are
-- counted as inserted. The other lines stand in their order, keep their owners, and are as many as are
-- counted as unchanged. The number is greater than all in the old body, whose control lines have a
-- blank behind the letter, the line number in the predecessor is not negative, and no text that is
-- inserted looks like a control line.
pub delta-Rewritten :
    (fuel highest seq last max : ℕ) (lines : List Bytes) (p r : Progress)
    → IsReady p.sstate
    → highest < seq
    → seq ≤ 65535
    → seq ≤ last
    → All IsSpaced lines
    → All IsDiffLine p.dstate.input
    → p.dstate.phase ≡ start
    → IsCounted p.dstate
    → delta fuel highest seq max lines p ≡ value r
    → is_end r.dstate.phase ≡ true
    → Rewritten seq highest last p r lines
delta-Rewritten fuel highest seq last max lines p r ready below small fits spaced s e counts h d =
    (Scanned-Rewritten highest seq last lines p r
      (delta-Scanned seq highest fuel max lines p r s (ap is_insert e) spaced h) ready below small
      fits e counts d).0
