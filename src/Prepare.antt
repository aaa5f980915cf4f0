-- ===== src/Prepare.antt =====
-- src/sf-get.cc and src/sf-get3.cc: `sccs_file::prepare_seqstate` marks in a `seq_state` the deltas
-- that a version includes. The loops count with unsigned shorts; `out_of_rounds` says that the fuel
-- ran out. The debugging output is left out, and so are the assertions that read a flag back.
pub mod Marks
pub mod Passes
pub mod Included
pub mod Excluded
pub mod Ignored
pub mod History
pub mod Broken
pub mod CommandLine
use cssc.Common.{
  ℕ, zero, suc, ◌+◌, ◌%◌, ◌^◌, List, [], ◌∷◌, Bool, true, false, ◌||◌, not, Option, none, some,
  if◌then◌else◌, ltb, leb, ◌==◌,
}
use cssc.Common.Runs.{Run, value, quit, ◌>>=◌}
use cssc.Sid.{Sid}
use cssc.DeltaTable.{Delta, DeltaList, removed, delta_at_seq, delta_at_seq_exists}
use cssc.SeqState.{
  SeqState, is_included, set_included, set_excluded, set_ignored, set_explicitly_included,
  set_explicitly_excluded,
}

-- The reasons for which the file is reported corrupt, and a failed assertion.
pub data Fault : Type 0 where
  missing_sequence_number : Fault
  own_predecessor : Fault
  subsequent_predecessor : Fault
  assertion : Fault
  out_of_rounds : Fault

-- `cssc_delta_table::delta_at_seq_exists` and `delta_at_seq`, with their assertions on the number.
unfoldable pub checked_delta : DeltaList → ℕ → Run Fault Delta
checked_delta l y =
    if not (ltb 0 y) || ltb l.high_seqno y
    then quit assertion
    else if not (delta_at_seq_exists l y)
    then quit missing_sequence_number
    else elim (delta_at_seq l y) [ none ↦ quit assertion | some d ↦ value d ]

-- The predecessor of a delta, where the file is in order.
unfoldable pub predecessor : ℕ → Delta → Run Fault ℕ
predecessor y d =
    if d.prev_seq == y
    then quit own_predecessor
    else if ltb y d.prev_seq
    then quit subsequent_predecessor
    else value d.prev_seq

-- The loop over the ancestors.
unfoldable pub descend : ℕ → DeltaList → ℕ → SeqState → Run Fault SeqState
descend zero l y st = quit out_of_rounds
descend (suc fuel) l y st = do
  d ← checked_delta l y
  prev ← predecessor y d
  let later = descend fuel l prev (set_included st prev false)
  if ltb 0 prev then later else value (set_included st prev false)

-- The loop over the numbers that a delta includes, excludes or ignores.
unfoldable pub each : (SeqState → ℕ → SeqState) → ℕ → List ℕ → SeqState → Run Fault SeqState
each mark y [] st = value st
each mark y (s ∷ ss) st =
    if ltb y s then quit assertion else each mark y ss (if s == y then st else mark st s)

-- One round of the loops over the deltas up to the wanted one.
unfoldable pub visit :
    (SeqState → ℕ → SeqState) → (Delta → List ℕ) → DeltaList → ℕ → SeqState → Run Fault SeqState
visit mark numbers l y st =
    if is_included st y
    then elim (delta_at_seq l y) [ none ↦ quit assertion | some d ↦ each mark y (numbers d) st ]
    else value st

-- `for (y=seq; y>0; --y)`.
unfoldable pub down : (ℕ → SeqState → Run Fault SeqState) → ℕ → SeqState → Run Fault SeqState
down round zero st = value st
down round (suc y) st = round (suc y) st >>= λ st'. down round y st'

-- `for (y=1; y<=seq; ++y)`.
unfoldable pub up : (ℕ → SeqState → Run Fault SeqState) → ℕ → ℕ → ℕ → SeqState → Run Fault SeqState
up round zero seq y st = quit out_of_rounds
up round (suc fuel) seq y st =
    let later = round y st >>= λ st'. up round fuel seq ((y + 1) % 2 ^ 16) st' in
    if leb y seq then later else value st

abbrev pub include : SeqState → ℕ → SeqState
include st s = set_included st s true

unfoldable pub prepare_seqstate_1 : ℕ → DeltaList → ℕ → SeqState → Run Fault SeqState
prepare_seqstate_1 fuel l seq st = do
  st1 ← descend fuel l seq st
  st2 ← down (visit include (λ d. d.included) l) seq (set_included st1 seq false)
  st3 ← up (visit set_excluded (λ d. d.excluded) l) fuel seq 1 st2
  down (visit set_ignored (λ d. d.ignored) l) seq st3

-- The loop of `prepare_seqstate_2`. The lists of SIDs are given by their tests for membership, and
-- `newer` says of a delta whether there is a valid cutoff date and the delta is newer.
unfoldable pub command_line :
    (Sid → Bool) → (Sid → Bool) → (Delta → Bool) → List Delta → SeqState → SeqState
command_line include exclude newer [] st = st
command_line include exclude newer (d ∷ ds) st = command_line include exclude newer ds (
    if removed d
    then st
    else if include d.id
    then set_explicitly_included st d.seq
    else if exclude d.id
    then set_explicitly_excluded st d.seq
    else if newer d
    then set_excluded st d.seq
    else st)

unfoldable pub prepare_seqstate_2 :
    (Sid → Bool) → (Sid → Bool) → (Delta → Bool) → DeltaList → SeqState → SeqState
unfolding command_line
prepare_seqstate_2 include exclude newer l st = command_line include exclude newer l.items st

unfoldable pub prepare_seqstate :
    ℕ → (Sid → Bool) → (Sid → Bool) → (Delta → Bool) → DeltaList → ℕ → SeqState → Run Fault SeqState
unfolding prepare_seqstate_1 prepare_seqstate_2
prepare_seqstate fuel include exclude newer l seq st = do
  st1 ← prepare_seqstate_1 fuel l seq st
  value (prepare_seqstate_2 include exclude newer l st1)
