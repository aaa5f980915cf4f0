-- ===== src/Body/Delta/Retrieved.antt =====
-- The version that `delta` adds is one that `get` can write.
use mathlib.Core.Path.{subst}
use cssc.Common.{
  ℕ, ◌<◌, ◌≤◌, ◌≡◌, refl, sym, ap, ◌∙◌, List, ◌∷◌, true, Bytes, none, ◌||◌, not, ltb, drop, All,
}
use cssc.Common.Runs.{value}
use cssc.SeqState.{SeqState}
use cssc.SeqState.Blocks.{insert, opens, includes}
use cssc.SeqState.Create.{IsReady}
use cssc.Body.Line.{
  Result, ok, ◌>>=◌, ◌>>◌, guard, line_type, check_arg, strict_atous, Event, opened, classify,
  control, invalid_serial_number,
}
use cssc.Body.Get.{Output, Parms, get}
use cssc.Body.Get.Reads.{events, Reads, emit_all, unbind}
use cssc.Body.Get.Complete.{get_complete}
use cssc.Diff.{start, is_insert, is_end}
use cssc.Diff.Insertions.{IsCounted}
use cssc.Body.Delta.{Progress, delta}
use cssc.Body.Delta.Steps.{IsSpaced}
use cssc.Body.Delta.Weave.{IsDiffLine}
use cssc.Body.Delta.Numbered.{events_cons}
use cssc.Body.Delta.Scans.{delta_first-Scanned}
use cssc.Body.Delta.Owners.{with_delta}
use cssc.Body.Delta.Edited.{Rewritten, Scanned-Rewritten}

-- The line with which a body begins.
first_event :
    (seq : ℕ) (line : Bytes) (e : Event)
    → line_type line ≡ b'I'
    → classify seq line ≡ ok e
    → (first : ℕ) × (check_arg line ≡ ok tt)
      × (strict_atous (drop 3 line) ≡ ok first)
      × (e ≡ opened insert first)
unfolding classify control
first_event seq line e c h =
    (let (u, a, h1) =
        unbind (check_arg line) (λ _. strict_atous (drop 3 line) >>= later) (rw c at h) in
      let (n, m, h2) = unbind (strict_atous (drop 3 line)) later h1 in
      let (v, g, h3) =
        unbind (guard (not (ltb n 1 || ltb seq n)) invalid_serial_number)
          (λ _. ok (opened insert n)) h2 in
      (n, a, m, same h3))
  where
    later : ℕ → Result Event
    later n = guard (not (ltb n 1 || ltb seq n)) invalid_serial_number >> ok (opened insert n)

    same : {a b : Event} → ◌≡◌ {A = Result Event} (ok a) (ok b) → b ≡ a
    same h = cc

-- Where `delta`, from a state in which no block is open and from the start of a diff to its end, adds a
-- delta to a body that begins with an insertion, `get` of the body that it writes, in a state in which
-- no block is open and that takes the predecessor's deltas and the new one, ends well and writes a new
-- text: the predecessor's, in its order, with the lines inserted that the diff marks, all of them and in
-- order, and with as many deleted as are counted. Where in the text the lines are inserted, and which
-- lines are deleted, is not stated. The number is greater
-- than all in the old body and no greater than the last of the state, control lines have a blank behind the letter, the line
-- number in the predecessor is not negative, no text that is inserted looks like a control line, and
-- the functions that `get` is given can write any line.
pub delta-get :
    (o : Output) (fuel highest seq max : ℕ) (line : Bytes) (lines : List Bytes) (p r : Progress)
    (st : SeqState) (w : Parms)
    → IsReady p.sstate
    → highest < seq
    → seq ≤ 65535
    → IsSpaced line
    → All IsSpaced lines
    → All IsDiffLine p.dstate.input
    → p.dstate.phase ≡ start
    → IsCounted p.dstate
    → delta fuel highest seq max (line ∷ lines) p ≡ value r
    → is_end r.dstate.phase ≡ true
    → line_type line ≡ b'I'
    → IsReady st
    → seq ≤ st.last
    → includes st.states ≡ with_delta seq (includes p.sstate.states)
    → ((taken : List (ℕ × Bytes)) → (w' : Parms) × (emit_all o taken w ≡ ok w'))
    → (x : Rewritten seq highest st.last p r (line ∷ lines)) × (rest : List Bytes) × (x.new
        ≡ line ∷ rest)
      × (w' : Parms) × (emit_all o x.new_text w ≡ ok w')
      × (st' : SeqState) × (get o seq (line ∷ rest) st w ≡ ok (st', w'))
delta-get o fuel highest seq max line lines p r st w ready below small spaced all_spaced s e counts
      h d c ready' fits inc writes =
    (let (scanned, rest, shape) =
        delta_first-Scanned seq highest fuel max line lines p r s (ap is_insert e) spaced all_spaced
          (rw c refl) h in
      let (x, same) =
        Scanned-Rewritten highest seq st.last (line ∷ lines) p r scanned ready below small fits e
          counts d in
      let begins = same ∙ shape in
      let (ev, es, classified, later, after) =
        events_cons seq line rest x.after
          (subst (λ l. events seq l ≡ ok x.after) begins x.after_events) in
      let (first, a, n, opening) = first_event seq line ev c classified in
      let (w', emitted) = writes x.new_text in
      let (st', got, _) =
        get_complete o seq line rest st w w' first es x.new_text (opens r.sstate.states) ready' c a
          n later
          (subst
            (λ l.
              Reads (includes st.states) st.last (λ _. none) l x.new_text (opens r.sstate.states))
            (after ∙ ap (λ f. f ∷ es) opening)
            (subst (λ f. Reads f st.last (λ _. none) x.after x.new_text (opens r.sstate.states))
              (sym inc) x.after_reads))
          emitted in
      (x, rest, begins, w', emitted, st', got))
