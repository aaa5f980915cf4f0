-- ===== src/Examples/Weave.antt =====
-- The reader of diffs at a concrete diff.
use cssc.Common.Decimal.{decimal, digits}
use cssc.Common.{true, false, ◌≡◌, refl, codes, List, [], ◌∷◌, Bytes}
use cssc.Common.Int.{pos, ◌+ℤ◌, ◌-ℤ◌}
use cssc.Common.Runs.{value_or, value}
use cssc.SeqState.{
  SeqState, initial_condition, note, scan, settle, decide_disposition, start, end, include_line,
}
use cssc.Body.Line.{line_type, atous_loop, strict_atous, control}
use cssc.Body.Delta.{
  Progress, follow, insert_line, proceed, place, append, before_line, copy_line, delta,
}
use cssc.Body.Delta.Rounds.{Woven, delta-Woven}
use cssc.Common.{arith}
use cssc.Diff.{
  DiffState, initial, process, turn, take_line, next_state, fetch, changed, command, right_side,
  range_end, get_num, signed, skip_blanks, digits_value, read_line, control_line, nochange, delete,
  insert,
}
use cssc.Diff.Balanced.{Balanced, none_yet, next, process-Balanced}

-- The second line is replaced.
abbrev replacement : List Bytes
replacement = codes "2c2\n" ∷ codes "< b\n" ∷ codes "---\n" ∷ codes "> x\n" ∷ []

abbrev at_nochange : DiffState
at_nochange = record {
  phase = nochange;
  in_lineno = pos 1;
  out_lineno = pos 1;
  lines_left = pos 0;
  change_left = pos 0;
  linebuf = codes "2c2\n";
  input = codes "< b\n" ∷ codes "---\n" ∷ codes "> x\n" ∷ [];
}

abbrev at_delete : DiffState
at_delete = record {
  phase = delete;
  in_lineno = pos 2;
  out_lineno = pos 1;
  lines_left = pos 0;
  change_left = pos 1;
  linebuf = codes "< b\n";
  input = codes "---\n" ∷ codes "> x\n" ∷ [];
}

abbrev at_insert : DiffState
at_insert = record {
  phase = insert;
  in_lineno = pos 3;
  out_lineno = pos 2;
  lines_left = pos 0;
  change_left = pos 0;
  linebuf = codes "> x\n";
  input = [];
}

first_call : process 3 (initial replacement) ≡ value (at_nochange, [])
unfolding process turn take_line next_state fetch command right_side range_end get_num signed
    skip_blanks digits_value read_line ◌+ℤ◌ ◌-ℤ◌
first_call = refl

second_call : process 3 at_nochange ≡ value (at_delete, control_line b'D' 3 ∷ [])
unfolding process turn take_line next_state fetch command right_side range_end get_num signed
    skip_blanks digits_value read_line ◌+ℤ◌ ◌-ℤ◌
second_call = refl

third_call : process 3 at_delete ≡ value (at_insert, control_line b'E' 3 ∷ control_line b'I' 3 ∷ [])
unfolding process turn take_line next_state changed read_line ◌+ℤ◌ ◌-ℤ◌
third_call = refl

process-Balanced_example :
    Balanced 3 insert (control_line b'D' 3 ∷ control_line b'E' 3 ∷ control_line b'I' 3 ∷ [])
process-Balanced_example =
    process-Balanced 3 replacement at_insert
      (control_line b'D' 3 ∷ control_line b'E' 3 ∷ control_line b'I' 3 ∷ [])
      (next (next (next none_yet first_call) second_call) third_call)

-- The first delta is in the version that is changed.
abbrev one_delta : SeqState
one_delta = record {
  states = initial_condition ∷ record initial_condition { included = true } ∷ [];
  last = 1;
  active_seq = 0;
  inserting = false;
}

abbrev pub begin : Progress
begin = record {
  sstate = one_delta;
  dstate = initial replacement;
  out = [];
  inserted = 0;
  deleted = 0;
  unchanged = 0;
}

abbrev pub old_body : List Bytes
old_body = (1 ∷ codes "I 1") ∷ codes "a" ∷ codes "b" ∷ (1 ∷ codes "E 1") ∷ []

-- The parts that a run computes with.
parts : Unit {0}
unfolding note scan settle decide_disposition start end include_line line_type atous_loop
    strict_atous control follow insert_line proceed place append before_line copy_line delta process
    turn take_line next_state changed fetch command right_side range_end get_num signed skip_blanks
    digits_value read_line ◌+ℤ◌ ◌-ℤ◌ decimal digits
parts = tt

unfoldable pub finished : Progress
unfolding parts
finished = value_or begin (delta 5 1 2 0 old_body begin)

pub delta_runs : delta 5 1 2 0 old_body begin ≡ value finished
unfolding finished
delta_runs = refl

-- The second line is deleted, and the new one is inserted behind it.
delta_writes :
    finished.out
    ≡ (1 ∷ codes "I 1\n")
      ∷ codes "a\n"
      ∷ (1 ∷ codes "D 2\n")
      ∷ codes "b\n"
      ∷ (1 ∷ codes "E 1\n")
      ∷ (1 ∷ codes "E 2\n")
      ∷ (1 ∷ codes "I 2\n")
      ∷ codes "x\n"
      ∷ (1 ∷ codes "E 2\n")
      ∷ []
unfolding finished
delta_writes = refl

delta-Woven_example : Woven [] old_body (delta 5 1 2 0 old_body begin)
delta-Woven_example = delta-Woven 5 1 2 0 old_body begin (omega arith)
