-- ===== src/Retrieve.antt =====
-- `sccs_file::get` of src/get.cc, with `do_get` of src/sf-get.cc: retrieving one version. `output` makes
-- from the delta that is gotten what the body scanner is given, the lines of the body are its input,
-- and the warning about missing keywords is left out.
pub mod Version
pub mod Lines
pub mod Removed
use cssc.Common.{
  ℕ, zero, suc, ◌+◌, ◌%◌, ◌^◌, List, [], ◌∷◌, ◌++◌, Bool, true, false, ◌&&◌, not, Bytes, Option,
  none, some, if◌then◌else◌, leb,
}
use cssc.Common.Runs.{Run, value, quit, ◌>>=◌}
use cssc.Sid.{Sid}
use cssc.DeltaTable.{Delta, DeltaList, delta_at_seq, delta_at_seq_exists, find}
use cssc.SeqState.{SeqState, create, is_included, is_excluded, is_explicitly_tagged}
use cssc.Prepare.{Fault, prepare_seqstate}
use cssc.Body.Line.{Failure, Result, ok, fail}
use cssc.Body.Get.{Parms, Output, get}

pub data Problem : Type 0 where
  no_state : Problem
  no_delta : Problem
  not_permitted : Problem
  unprepared : Fault → Problem
  null_delta : Problem
  unreadable : Failure → Problem

-- `struct get_status`.
pub record Status : Type 0 where
  pub lines : ℕ
  pub included : List Sid
  pub excluded : List Sid

abbrev pub present : {A : Type 0} → Problem → Option A → Run Problem A
present p none = quit p
present p (some a) = value a

abbrev pub prepared : Run Fault SeqState → Run Problem SeqState
prepared (quit f) = quit (unprepared f)
prepared (value st) = value st

abbrev pub read_body : Result (SeqState × Parms) → Run Problem (SeqState × Parms)
read_body (fail f) = quit (unreadable f)
read_body (ok r) = value r

-- The loop that looks for the latest delta that is not excluded, from `s` down: `none` if there is
-- none, and else what `find_delta` finds for it, a null pointer for a removed delta.
unfoldable pub latest : DeltaList → SeqState → ℕ → Option (Option Delta)
latest l st zero = none
latest l st (suc s) =
    if delta_at_seq_exists l (suc s) && not (is_excluded st (suc s))
    then some (elim (delta_at_seq l (suc s)) [ none ↦ none | some del ↦ find l del.id ])
    else latest l st s

-- The delta whose keywords are substituted. The code follows the pointer.
abbrev pub gotten : Delta → Option (Option Delta) → Run Problem Delta
gotten d none = value d
gotten d (some none) = quit null_delta
gotten d (some (some x)) = value x

-- The deltas that the summary file lists.
pub summary : DeltaList → SeqState → ℕ → List Delta
summary l st zero = []
summary l st (suc s) =
    if delta_at_seq_exists l (suc s) && is_included st (suc s)
    then elim (delta_at_seq l (suc s)) [ none ↦ summary l st s | some it ↦ it ∷ summary l st s ]
    else summary l st s

abbrev pub tag : SeqState → ℕ → Delta → Status → Status
tag st seq d status =
    if is_included st seq
    then record status { included = status.included ++ d.id ∷ [] }
    else if is_excluded st seq
    then record status { excluded = status.excluded ++ d.id ∷ [] }
    else status

-- The loop that collects the deltas that the command line names.
unfoldable pub collect : ℕ → DeltaList → SeqState → ℕ → Status → Run Problem Status
collect zero l st seq status = quit no_state
collect (suc fuel) l st seq status =
    let next = (seq + 1) % 2 ^ 16 in
    let named =
      present no_delta (delta_at_seq l seq) >>= λ d. collect fuel l st next (tag st seq d status) in
    let unnamed = collect fuel l st next status in
    if leb seq l.high_seqno
    then (if is_explicitly_tagged st seq then named else unnamed)
    else value status

-- The status, once the body is read.
abbrev pub finish : ℕ → DeltaList → SeqState × Parms → Run Problem (Status × Parms)
finish fuel l got = do
  status ←
      collect fuel l got.0 1 (record { lines = got.1.out_lineno; included = []; excluded = [] })
  value (status, got.1)

unfoldable pub get_version :
    ℕ
    → (Delta → Output)
    → Bool
    → (Sid → Bool)
    → (Sid → Bool)
    → (Delta → Bool)
    → DeltaList
    → Sid
    → List Bytes
    → Parms
    → Run Problem (Status × Parms)
get_version fuel output permitted include exclude newer l id body p = do
  st0 ← present no_state (create fuel l.high_seqno)
  d ← present no_delta (find l id)
  _ ← (if permitted then value tt else quit not_permitted)
  st ← prepared (prepare_seqstate fuel include exclude newer l d.seq st0)
  dparm ← gotten d (latest l st d.seq)
  got ← read_body (get (output dparm) l.high_seqno body st p)
  finish fuel l got
