-- ===== src/Rmdel.antt =====
-- src/sf-rmdel.cc: `sccs_file::rmdel`, which takes a delta out of a history file: the tests of its entry, the
-- entry marked as removed, and the body without the blocks of the delta. Whether editing is permitted is a
-- parameter; the errors of writing the file are not modelled.
pub mod Unused
use cssc.Common.{
  ℕ, List, [], ◌∷◌, Bool, true, false, ◌&&◌, ◌||◌, not, Bytes, Option, none, some, if◌then◌else◌,
  ◌==◌,
}
use cssc.Common.Runs.{Run, value, quit, ◌>>=◌}
use cssc.Sid.{Sid, is_eq}
use cssc.DeltaTable.{Delta, DeltaList, Selector, current, selects, removed, find}
use cssc.Body.Line.{Result, ok, fail, Failure}
use cssc.Body.Remove.{remove}

pub data Refusal : Type 0 where
  not_permitted : Refusal
  sid_not_found : Refusal
  has_successor : Sid → Refusal
  in_use : Sid → Refusal
  bad_body : Failure → Refusal

-- `std::find` in a list of numbers.
unfoldable pub is_seqlist_member : ℕ → List ℕ → Bool
is_seqlist_member seq [] = false
is_seqlist_member seq (n ∷ ns) = n == seq || is_seqlist_member seq ns

-- The loop over the deltas that are not removed: the first reason to keep the delta.
unfoldable pub check_unused : ℕ → List Delta → Run Refusal (Unit {0})
check_unused seq [] = value tt
check_unused seq (d ∷ ds) =
    let rest = check_unused seq ds in
    if not (selects current d)
    then rest
    else if d.prev_seq == seq
    then quit (has_successor d.id)
    else if is_seqlist_member seq d.included
        || (is_seqlist_member seq d.excluded || is_seqlist_member seq d.ignored)
    then quit (in_use d.id)
    else rest

-- `set_type('R')` on the delta that `find_delta` points at.
unfoldable pub mark_removed : Sid → List Delta → List Delta
mark_removed id [] = []
mark_removed id (d ∷ ds) =
    let rest = mark_removed id ds in
    if selects current d && is_eq d.id id then record d { delta_type = b'R' } ∷ ds else d ∷ rest

abbrev pub found_delta : Option Delta → Run Refusal Delta
found_delta none = quit sid_not_found
found_delta (some d) = value d

abbrev pub scanned : Result (List Bytes) → Run Refusal (List Bytes)
scanned (ok lines) = value lines
scanned (fail e) = quit (bad_body e)

-- The new table and the new body.
unfoldable pub rmdel : Bool → DeltaList → Sid → List Bytes → Run Refusal (DeltaList × List Bytes)
rmdel permitted l id body =
    let done = (do
      d ← found_delta (find l id)
      unused ← check_unused d.seq l.items
      lines ← scanned (remove d.seq body)
      value (record l { items = mark_removed id l.items }, lines)) in
    if permitted then done else quit not_permitted
