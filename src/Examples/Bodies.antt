-- ===== src/Examples/Bodies.antt =====
-- The state machine and the readers of the body, on a body of two deltas.
use mathlib.Core.Path.{subst, fun_ext}
use cssc.Common.{
  ℕ, zero, suc, ◌<◌, ◌≡◌, refl, List, [], ◌∷◌, ◌++◌, Bool, true, false, Bytes, codes, Option, none,
  some, arith, ◌==◌, replicate,
}
use cssc.Common.{◌↔◌}
use cssc.SeqState.{
  OneState, SeqState, initial_condition, note, scan, settle, decide_disposition, start, end,
  include_line, create,
}
use cssc.SeqState.Disposition.{Owns, decide_disposition-Owns}
use cssc.SeqState.Blocks.{Kind, insert, opens, includes, Owner, update}
use cssc.SeqState.Failures.{Starts, Ends, start_failures}
use cssc.SeqState.Create.{IsReady, create-IsReady, create_diverges}
use cssc.Body.Keywords.{check_id_keywords}
use cssc.Body.Keywords.Search.{Keyword, check_id_keywords-Keyword}
use cssc.Body.Line.{
  ok, line_type, check_arg, atous_loop, strict_atous, Event, text, opened, closed, control,
  classify,
}
use cssc.Body.Get.{Parms, Output, prefix, emit_line, step, get_loop, get}
use cssc.Body.Get.Reads.{
  events, Reads, nothing, takes, skips, opens_block, closes_block, emit_all, Got, get-Got,
}
use cssc.Body.Get.Complete.{get_complete}
use cssc.Body.Remove.{next_state, remove_line, remove_loop, remove}
use cssc.Body.Remove.Versions.{without}
use cssc.Body.Remove.Keeps.{remove-Reads}

-- The parts that a run of the two readers computes with.
readers : Unit {0}
unfolding note scan settle decide_disposition start end include_line line_type check_arg atous_loop
    strict_atous control classify prefix emit_line step get_loop get events emit_all
readers = tt

abbrev pub wanted : OneState
wanted = record initial_condition { included = true }

-- Two deltas, of which the first is included.
abbrev first_only : SeqState
first_only = record {
  states = initial_condition ∷ wanted ∷ initial_condition ∷ [];
  last = 2;
  active_seq = 0;
  inserting = false;
}

first_only-IsReady : IsReady first_only
first_only-IsReady = record {
  sized = refl;
  exclusive = (
    (λ h. (refl, refl), λ h. refl),
    ((λ h. (refl, refl), λ h. refl), ((λ h. (refl, refl), λ h. refl), tt)),
  );
  idle = (refl, (refl, (refl, tt)));
  not_inserting = refl;
}

abbrev pub plain : Output
plain = record {
  write_subst = λ n s. none;
  outputfn = λ s. some (s ++ b'\n' ∷ []);
  encoded = false;
  do_kw_subst = false;
  show_module = false;
  show_sid = false;
  module_name = [];
  sid_text = λ n. [];
}

abbrev pub blank : Parms
blank = record { out = []; out_lineno = 0; found_id = false }

abbrev open_one : Bytes
open_one = 1 ∷ codes "I 1"

abbrev body : List Bytes
body = codes "one" ∷ (1 ∷ codes "I 2") ∷ codes "two" ∷ (1 ∷ codes "E 2") ∷ (1 ∷ codes "E 1") ∷ []

abbrev body_events : List Event
body_events = text (codes "one") ∷ opened insert 2 ∷ text (codes "two") ∷ closed 2 ∷ closed 1 ∷ []

abbrev only_one : Parms
only_one = record { out = codes "one\n"; out_lineno = 1; found_id = false }

abbrev after_body : SeqState
after_body = record first_only { active_seq = 1 }

get_runs : get plain 2 (open_one ∷ body) first_only blank ≡ ok (after_body, only_one)
unfolding readers check_id_keywords
get_runs = refl

get-Got_example : Got plain 2 open_one body first_only blank after_body only_one
unfolding readers
get-Got_example =
    get-Got plain 2 open_one body first_only blank first_only-IsReady (λ first h. ground arith)
      get_runs

abbrev none_open : ℕ → Option Kind
none_open n = none

abbrev one_open : ℕ → Option Kind
one_open = update none_open 1 (some insert)

abbrev both_open : ℕ → Option Kind
both_open = update one_open 2 (some insert)

abbrev is_one : ℕ → Bool
is_one n = n == 1

one-Owner : Owner is_one one_open 1
one-Owner = record {
  positive = omega arith;
  inserted = refl;
  included = refl;
  latest = λ j p q. ground arith;
  undeleted = λ d p q. ground arith;
  unhidden = λ o p q. ground arith;
}

two_hides : (i : ℕ) → ¬ Owner is_one both_open i
two_hides i own =
    let over : 2 < i = own.unhidden 2 refl refl in let at = own.inserted in ground arith

abbrev all_closed : ℕ → Option Kind
all_closed = update (update both_open 2 none) 1 none

body-Reads :
    Reads is_one 2 none_open (opened insert 1 ∷ body_events) ((1, codes "one") ∷ []) all_closed
body-Reads = opens_block insert 1 (omega arith) refl (
    takes 1 (codes "one") one-Owner (
      opens_block insert 2 (omega arith) refl (
        skips (codes "two") two_hides (
          closes_block insert 2 (omega arith) refl
            (closes_block insert 1 (omega arith) refl nothing)))))

is_one-includes : (n : ℕ) → is_one n ≡ includes first_only.states n
is_one-includes zero = refl
is_one-includes (suc zero) = refl
is_one-includes (suc (suc zero)) = refl
is_one-includes (suc (suc (suc n))) = ground arith

get_complete_example :
    (st' : SeqState) × (get plain 2 (open_one ∷ body) first_only blank ≡ ok (st', only_one))
    × (opens st'.states ≡ all_closed)
unfolding readers check_id_keywords
get_complete_example =
    get_complete plain 2 open_one body first_only blank only_one 1 body_events
      ((1, codes "one") ∷ []) all_closed first_only-IsReady refl refl refl refl
      (subst
        (λ f.
          Reads f 2 none_open (opened insert 1 ∷ body_events) ((1, codes "one") ∷ []) all_closed)
        (fun_ext is_one-includes) body-Reads)
      refl

remove-Reads_example :
    (kept : List Event) × (events 2 (open_one ∷ codes "one" ∷ (1 ∷ codes "E 1") ∷ []) ≡ ok kept)
    × Reads is_one 2 none_open kept ((1, codes "one") ∷ []) (without 2 all_closed)
unfolding readers remove remove_loop remove_line next_state
remove-Reads_example =
    remove-Reads 2 2 2 is_one (open_one ∷ body) (open_one ∷ codes "one" ∷ (1 ∷ codes "E 1") ∷ [])
      (opened insert 1 ∷ body_events) ((1, codes "one") ∷ []) all_closed refl
      (λ e k j h. absurd (omega arith), (λ e k j h. ground arith, tt)) refl body-Reads refl

decide_disposition-Owns_example :
    (((decide_disposition first_only).inserting ≡ true)
      × ((decide_disposition first_only).active_seq ≡ 1))
    ↔ ((0 < 1) × Owns first_only.states 1)
decide_disposition-Owns_example = decide_disposition-Owns first_only 1 first_only-IsReady.exclusive

-- The state inside the block of the first delta.
abbrev inside : SeqState
inside = record {
  states =
      initial_condition
      ∷ (record wanted { active = true; command = b'I' })
      ∷ initial_condition
      ∷ [];
  last = 2;
  active_seq = 1;
  inserting = true;
}

start_failures_example : Starts inside 1 b'D' (start inside 1 b'D') × Ends inside 1 (end inside 1)
start_failures_example = start_failures inside 1 b'D'

create-IsReady_example :
    (st : SeqState) × (create 9 2 ≡ some st)
    × IsReady st
    × (st.last ≡ 2)
    × (st.states ≡ replicate 3 initial_condition)
create-IsReady_example = create-IsReady 9 2 (omega arith) (omega arith)

create_diverges_example : create 100 65535 ≡ none
create_diverges_example = create_diverges 100 65535 refl

check_id_keywords-Keyword_example :
    (check_id_keywords (codes "x%W%") ≡ true → Keyword (codes "x%W%"))
    × (Keyword (codes "x%W%") → check_id_keywords (codes "x%W%") ≡ true)
check_id_keywords-Keyword_example = check_id_keywords-Keyword (codes "x%W%")
