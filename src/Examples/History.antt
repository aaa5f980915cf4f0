-- ===== src/Examples/History.antt =====
-- A concrete delta that is removed again, and the version before it.
use cssc.Common.{
  ℕ, ◌≡◌, refl, codes, [], ◌∷◌, List, Bool, Bytes, Option, none, some, ◌==◌, arith, All,
}
use cssc.SeqState.Blocks.{Kind, insert, Owner, update}
use cssc.Body.Line.{
  ok, Event, text, opened, closed, line_type, check_arg, strict_atous, atous_loop, classify,
  control,
}
use cssc.Body.Get.Reads.{events, Reads, nothing, takes, opens_block, closes_block}
use cssc.Body.Remove.{remove}
use cssc.Body.Delta.Weave.{written, IsDiffLine}
use cssc.Body.Delta.Undo.{remove-delta}
use cssc.Body.Delta.History.{delta-Reads}
use mathlib.Core.Path.{fun_ext}
use cssc.Body.Get.{Parms, emit_line, get}
use cssc.Body.Get.Reads.{emit_all}
use cssc.Body.Delta.Owners.{with_delta}
use cssc.Body.Delta.Retrieved.{delta-get}
use cssc.SeqState.{SeqState, initial_condition}
use cssc.SeqState.Blocks.{includes}
use cssc.SeqState.Create.{IsReady}
use cssc.Examples.Bodies.{plain, blank, wanted}
use cssc.Common.{false}
use cssc.Body.Delta.Edited.{Rewritten, delta-Rewritten}
use cssc.Examples.Weave.{begin, old_body, finished, delta_runs}

-- No line of the diff looks like a control line.
replacement_lines : All IsDiffLine begin.dstate.input
replacement_lines = (
  (codes "2c2", refl, refl),
  ((codes "< b", refl, refl), ((codes "---", refl, refl), ((codes "> x", refl, refl), tt))),
)

abbrev Undone : Type 0
Undone = (new : List Bytes) × (finished.out ≡ written new) × (remove 2 new ≡ ok old_body)

remove-delta_example : Undone
unfolding line_type check_arg finished
remove-delta_example =
    remove-delta 5 1 2 0 old_body begin finished (omega arith) (omega arith)
      (
        (λ h. refl),
        ((λ h. absurd (ground arith)), ((λ h. absurd (ground arith)), ((λ h. refl), tt))),
      )
      replacement_lines refl delta_runs refl

abbrev first_only : ℕ → Bool
first_only n = n == 1

abbrev none_open : ℕ → Option Kind
none_open n = none

abbrev one_open : ℕ → Option Kind
one_open = update none_open 1 (some insert)

first-Owner : Owner first_only one_open 1
first-Owner = record {
  positive = omega arith;
  inserted = refl;
  included = refl;
  latest = λ j p q. ground arith;
  undeleted = λ d p q. ground arith;
  unhidden = λ o p q. ground arith;
}

abbrev before : List Event
before = opened insert 1 ∷ text (codes "a") ∷ text (codes "b") ∷ closed 1 ∷ []

abbrev all_closed : ℕ → Option Kind
all_closed = update one_open 1 none

abbrev both_lines : List (ℕ × Bytes)
both_lines = (1, codes "a") ∷ (1, codes "b") ∷ []

before-Reads : Reads first_only 2 none_open before both_lines all_closed
before-Reads = opens_block insert 1 (omega arith) refl (
    takes 1 (codes "a") first-Owner
      (takes 1 (codes "b") first-Owner (closes_block insert 1 (omega arith) refl nothing)))

events_before : events 1 old_body ≡ ok before
unfolding events classify line_type check_arg strict_atous atous_loop control
events_before = refl

delta-Reads_example :
    (new : List Bytes) × (finished.out ≡ written new)
    × (es : List Event) × (events 2 new ≡ ok es)
    × Reads first_only 2 none_open es both_lines all_closed
unfolding finished
delta-Reads_example =
    delta-Reads 5 1 2 2 0 first_only old_body before both_lines all_closed begin finished refl
      (omega arith) (omega arith) (omega arith) events_before before-Reads replacement_lines refl
      delta_runs refl

begin-IsReady : IsReady begin.sstate
begin-IsReady = record {
  sized = refl;
  exclusive = ((λ h. (refl, refl), λ h. refl), ((λ h. (refl, refl), λ h. refl), tt));
  idle = (refl, (refl, tt));
  not_inserting = refl;
}

delta-Rewritten_example : Rewritten 2 1 2 begin finished old_body
unfolding line_type check_arg finished
delta-Rewritten_example =
    delta-Rewritten 5 1 2 2 0 old_body begin finished begin-IsReady (omega arith) (omega arith)
      (omega arith)
      (
        (λ h. refl),
        ((λ h. absurd (ground arith)), ((λ h. absurd (ground arith)), ((λ h. refl), tt))),
      )
      replacement_lines refl refl delta_runs refl

-- The version that has both deltas.
abbrev both_deltas : SeqState
both_deltas = record {
  states = initial_condition ∷ wanted ∷ wanted ∷ [];
  last = 2;
  active_seq = 0;
  inserting = false;
}

both_deltas-IsReady : IsReady both_deltas
both_deltas-IsReady = record {
  sized = refl;
  exclusive = (
    (λ h. (refl, refl), λ h. refl),
    ((λ h. (refl, refl), λ h. refl), ((λ h. (refl, refl), λ h. refl), tt)),
  );
  idle = (refl, (refl, (refl, tt)));
  not_inserting = refl;
}

both-includes :
    (n : ℕ) → includes both_deltas.states n ≡ with_delta 2 (includes begin.sstate.states) n
both-includes n = ground arith

plain_writes :
    (taken : List (ℕ × Bytes)) (w : Parms) → (w' : Parms) × (emit_all plain taken w ≡ ok w')
unfolding emit_all emit_line
plain_writes [] w = (w, refl)
plain_writes ((i, line) ∷ taken) w = plain_writes taken _

delta-get_example :
    (x : Rewritten 2 1 2 begin finished old_body) × (rest : List Bytes) × (x.new
      ≡ (1 ∷ codes "I 1") ∷ rest)
    × (w : Parms) × (emit_all plain x.new_text blank ≡ ok w)
    × (st : SeqState) × (get plain 2 ((1 ∷ codes "I 1") ∷ rest) both_deltas blank ≡ ok (st, w))
unfolding line_type check_arg finished
delta-get_example =
    delta-get plain 5 1 2 0 (1 ∷ codes "I 1") (codes "a" ∷ codes "b" ∷ (1 ∷ codes "E 1") ∷ []) begin
      finished both_deltas blank begin-IsReady (omega arith) (omega arith) (λ h. refl)
      ((λ h. absurd (ground arith)), ((λ h. absurd (ground arith)), ((λ h. refl), tt)))
      replacement_lines refl refl delta_runs refl refl both_deltas-IsReady (omega arith)
      (fun_ext both-includes) (λ taken. plain_writes taken blank)
