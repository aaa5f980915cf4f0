-- ===== src/Body/Delta.antt =====
-- `sccs_file_body_scanner::delta` of src/body-scanner.cc: the body with a new delta, made from the old
-- body and the output of `diff`. Each text that is written is one line with its newline; writing does
-- not fail. `max` is the greatest length of a line, 0 if there is none.
pub mod Kept
pub mod Rounds
pub mod Weave
pub mod Counted
pub mod Scan
pub mod Scans
pub mod Owners
pub mod Steps
pub mod Woven
pub mod Undo
pub mod Numbered
pub mod History
pub mod Followed
pub mod Versions
pub mod Edited
pub mod Retrieved
use cssc.Common.{
  ℕ, zero, suc, ◌+◌, ◌-◌, List, [], ◌∷◌, ◌++◌, Bool, true, false, ◌&&◌, ◌||◌, not, Bytes,
  if◌then◌else◌, ltb, ◌==◌, length, drop,
}
use cssc.Common.Runs.{Run, value, quit, ◌>>=◌}
use cssc.SeqState.{SeqState, Outcome, done, failed, start, end, include_line}
use cssc.SeqState.Blocks.{letter}
use cssc.Body.Line.{
  Failure, bad_state, invalid_serial_number, Result, ok, fail, char_at, line_type, strict_atous,
  control, Event, text, opened, closed,
}
use cssc.Diff.{Phase, DiffState, Corrupt, is_insert, process}

-- Why no body is written: the old body is corrupt, the output of `diff` is, a line is too long, an
-- assertion fails, or a variable without a value is read.
pub data Fault : Type 0 where
  body : Failure → Fault
  diff : Corrupt → Fault
  line_too_long : Fault
  assertion : Fault
  no_character : Fault
  out_of_rounds : Fault

pub record Progress : Type 0 where
  pub sstate : SeqState
  pub dstate : DiffState
  pub out : List Bytes
  pub inserted : ℕ
  pub deleted : ℕ
  pub unchanged : ℕ

abbrev pub of_body : {A : Type 0} → Result A → Run Fault A
of_body (ok a) = value a
of_body (fail f) = quit (body f)

abbrev pub of_diff : {A : Type 0} → Run Corrupt A → Run Fault A
of_diff (value a) = value a
of_diff (quit f) = quit (diff f)

abbrev pub of_state : Outcome SeqState → Run Fault SeqState
of_state (done st) = value st
of_state (failed m) = quit (body (bad_state m))

-- What a control line does to the state.
abbrev pub obey : Event → SeqState → Run Fault SeqState
obey (text t) st = value st
obey (opened k n) st = of_state (start st n (letter k))
obey (closed n) st = of_state (end st n)

-- A control line of the old body.
unfoldable pub follow : ℕ → Bytes → SeqState → Run Fault SeqState
follow highest line st = do
  seq ← of_body (strict_atous (drop 3 line))
  e ←
      (if ltb seq 1 || ltb highest seq
        then quit (body invalid_serial_number)
        else of_body (control (line_type line) seq))
  obey e st

-- A line that `diff` inserts, without its mark.
unfoldable pub insert_line : ℕ → Progress → Run Fault Progress
insert_line max p =
    let pline = drop 2 p.dstate.linebuf in
    if not (char_at p.dstate.linebuf 0 == b'>' && char_at p.dstate.linebuf 1 == b' ')
    then quit assertion
    else if max == 0 || ltb (length pline - 1) max
    then value (record p { out = p.out ++ pline ∷ []; inserted = p.inserted + 1 })
    else quit line_too_long

-- A call of `process`.
unfoldable pub proceed : ℕ → Progress → Run Fault Progress
proceed new_seq p = do
  r ← of_diff (process new_seq p.dstate)
  value (record p { dstate = r.0; out = p.out ++ r.1 })

-- What the state says of a line of text. `again` is the rest of the loop.
abbrev pub judge : Run Fault Progress → Progress → Phase → Run Fault Progress
judge again p Phase.start = quit assertion
judge again p Phase.nochange = value (record p { unchanged = p.unchanged + 1 })
judge again p Phase.delete = value (record p { deleted = p.deleted + 1 })
judge again p Phase.insert = again
judge again p Phase.end = value (record p { unchanged = p.unchanged + 1 })

-- The loop for a line of text that the predecessor has.
unfoldable pub place : ℕ → ℕ → ℕ → Progress → Run Fault Progress
unfolding proceed insert_line
place zero new_seq max p = quit out_of_rounds
place (suc fuel) new_seq max p = do
  p' ← proceed new_seq p
  let again = insert_line max p' >>= λ p''. place fuel new_seq max p''
  judge again p' p'.dstate.phase

-- The loop at the end of the old body.
unfoldable pub append : ℕ → ℕ → ℕ → Progress → Run Fault Progress
unfolding proceed insert_line
append zero new_seq max p = quit out_of_rounds
append (suc fuel) new_seq max p = do
  p' ← proceed new_seq p
  let again = insert_line max p' >>= λ p''. append fuel new_seq max p''
  if is_insert p'.dstate.phase then again else value p'

-- What comes of a line of the old body before it is written again.
unfoldable pub before_line : ℕ → ℕ → ℕ → ℕ → Bytes → Progress → Run Fault Progress
unfolding follow place
before_line fuel highest new_seq max line p =
    if not (line_type line == 0)
    then (follow highest line p.sstate >>= λ st. value (record p { sstate = st }))
    else if include_line p.sstate
    then place fuel new_seq max p
    else value p

unfoldable pub copy_line : ℕ → ℕ → ℕ → ℕ → Bytes → Progress → Run Fault Progress
unfolding before_line
copy_line fuel highest new_seq max line p = do
  p' ← before_line fuel highest new_seq max line p
  value (record p' { out = p'.out ++ (line ++ b'\n' ∷ []) ∷ [] })

-- At the end, the code looks at the character of a line that it has not read, if the state still
-- includes lines.
unfoldable pub delta : ℕ → ℕ → ℕ → ℕ → List Bytes → Progress → Run Fault Progress
unfolding copy_line append
delta fuel highest new_seq max [] p =
    if include_line p.sstate then quit no_character else append fuel new_seq max p
delta fuel highest new_seq max (line ∷ lines) p = do
  p' ← copy_line fuel highest new_seq max line p
  delta fuel highest new_seq max lines p'
