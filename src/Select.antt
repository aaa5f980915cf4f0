-- ===== src/Select.antt =====
-- src/sf-get2.cc: which SID a request stands for, and which SID a new delta gets. A release is its
-- number. The warnings are left out, and `authorised` is given as a flag.
pub mod Requested
pub mod Climb
pub mod Next
use cssc.Common.{
  ℕ, zero, suc, List, [], ◌∷◌, Bool, true, false, ◌&&◌, ◌||◌, not, Option, none, some,
  if◌then◌else◌, ltb, ◌==◌,
}
use cssc.Common.Int.{ℤ, pos, ltb_ℤ}
use cssc.Common.Runs.{Run, value, quit, ◌>>=◌}
use cssc.Sid.{
  Sid, sid, is_null, valid, components, on_trunk, matches, gte, release_only, partial_sid,
  next_level, next_branch, increment,
}
use cssc.Release.{Release, release_valid, member}
use cssc.DeltaTable.{Delta, DeltaList, removed, find, find_any, delta_at_seq, delta_at_seq_exists}
use cssc.Pfile.{EditLock, find_locked, find_to_be_created, is_to_be_created, is_some}

-- The flags of a history file that are read here.
pub record Flags : Type 0 where
  pub branch : Bool
  pub joint_edit : Bool
  pub all_locked : Bool
  pub default_sid : Sid
  pub floor : Release
  pub ceiling : Release
  pub locked : List Release

-- The SID of a release.
abbrev pub of_release : Release → Sid
of_release r = sid r (pos 0) (pos 0) (pos 0)

-- How many components have to match.
unfoldable pub wanted_components : Sid → Bool → ℕ
wanted_components requested get_top_delta =
    if 2 == components requested && not get_top_delta then 4 else components requested

unfoldable pub sid_matches : Sid → Sid → Bool → Bool
unfolding wanted_components
sid_matches requested found get_top_delta =
    if 1 == wanted_components requested get_top_delta
    then (if ltb_ℤ requested.rel found.rel
        then false
        else not (not get_top_delta && not (on_trunk found)))
    else matches found requested (wanted_components requested get_top_delta)

-- The SID that a request without one stands for: `none` if there is none.
unfoldable pub default_request : Flags → DeltaList → Sid → Bool → Option Sid
default_request flags l requested get_top_delta =
    if is_null requested
    then (if is_null flags.default_sid
        then (if not get_top_delta && is_null (of_release l.high_release.rel)
            then none
            else some (of_release l.high_release.rel))
        else some flags.default_sid)
    else some requested

-- The test on the best SID so far.
abbrev pub improves : Sid → Option Sid → Bool
improves id none = true
improves id (some best) = gte id best

-- The loop over the current deltas.
unfoldable pub best_loop : Sid → Bool → List Delta → Option Sid → Option Sid
best_loop requested get_top_delta [] best = best
best_loop requested get_top_delta (d ∷ ds) best =
    let taken =
      not (removed d) && (sid_matches requested d.id get_top_delta && improves d.id best) in
    let rest = best_loop requested get_top_delta ds (if taken then some d.id else best) in
    if taken
      && (get_top_delta && matches d.id requested (wanted_components requested get_top_delta))
    then some d.id
    else rest

unfoldable pub find_requested_sid : Flags → DeltaList → Sid → Bool → Option Sid
find_requested_sid flags l requested get_top_delta =
    elim (default_request flags l requested get_top_delta) [
      | none ↦ none
      | some r ↦ best_loop r get_top_delta l.items none
    ]

unfoldable pub find_requested_seqno : DeltaList → ℕ → Option Sid
find_requested_seqno l requested =
    if ltb 0 requested && (not (ltb l.high_seqno requested) && delta_at_seq_exists l requested)
    then elim (delta_at_seq l requested) [ none ↦ none | some d ↦ some d.id ]
    else none

unfoldable pub sid_in_use : DeltaList → List EditLock → Sid → Bool
sid_in_use l pfile id = is_some (find l id) || is_to_be_created pfile id

-- `while (used(next)) next = step(next)`.
unfoldable pub climb : ℕ → (Sid → Bool) → (Sid → Sid) → Sid → Option Sid
climb zero used step next = none
climb (suc fuel) used step next =
    let later = climb fuel used step (step next) in if used next then later else some next

-- How `find_next_sid` ends other than with a SID.
pub data Stop : Type 0 where
  already_edited : Sid → Stop
  assertion : Stop
  out_of_rounds : Stop

abbrev pub rounds : Option Sid → Run Stop Sid
rounds none = quit out_of_rounds
rounds (some next) = value next

-- The SID after the requested one, before branches are considered.
unfoldable pub first_try : ℕ → DeltaList → List EditLock → Sid → Sid → Run Stop Sid
first_try fuel l pfile requested got =
    if release_only requested
    then rounds (climb fuel (sid_in_use l pfile) next_level (next_level requested))
    else if partial_sid requested
    then value (increment got)
    else value (increment requested)

-- Whether the SID collides with one in use.
unfoldable pub branch_again : Flags → DeltaList → List EditLock → Sid → Sid → Run Stop Bool
branch_again flags l pfile requested next = elim (find_any l next) [
  | some pnext ↦ value (
      if not (removed pnext) && not (partial_sid requested)
      then true
      else sid_in_use l pfile next && flags.joint_edit)
  | none ↦
      if sid_in_use l pfile next
      then (if flags.joint_edit then value true else quit (already_edited next))
      else value false
]

unfoldable pub too_high : Flags → Sid → Bool
too_high flags requested =
    on_trunk requested && (release_valid flags.ceiling && ltb_ℤ flags.ceiling requested.rel)

unfoldable pub not_trunk_top : DeltaList → ℕ → Sid → Bool
not_trunk_top l ncomponents got = ltb ncomponents 3 && ltb_ℤ got.rel l.high_release.rel

-- The test of the last loop.
unfoldable pub branch_used : Flags → DeltaList → List EditLock → Sid → Bool
branch_used flags l pfile next =
    is_some (find l next) || (flags.joint_edit && is_to_be_created pfile next)

abbrev pub open_branch : ℕ → Flags → DeltaList → List EditLock → Sid → Run Stop Sid
open_branch fuel flags l pfile next =
    rounds (climb fuel (branch_used flags l pfile) next_branch next)

abbrev pub checked_sid : DeltaList → List EditLock → Sid → Run Stop Sid
checked_sid l pfile next = if sid_in_use l pfile next then quit assertion else value next

unfoldable pub find_next_sid :
    ℕ → Flags → DeltaList → List EditLock → Sid → Sid → Bool → Run Stop Sid
find_next_sid fuel flags l pfile requested got want_branch =
    let wanted = if is_null flags.default_sid then requested else flags.default_sid in
    do
      next ← first_try fuel l pfile wanted got
      branched ←
          (if flags.branch && want_branch
            then open_branch fuel flags l pfile
                (next_branch (if ltb (components wanted) 4 then got else next))
            else (branch_again flags l pfile wanted next >>= λ again.
                if too_high flags wanted || (again || not_trunk_top l (components wanted) got)
                then open_branch fuel flags l pfile (next_branch got)
                else value next))
      checked_sid l pfile branched

-- `test_locks` with `authorised` as a flag.
unfoldable pub test_locks : Bool → Flags → List EditLock → Sid → Bool
test_locks authorised flags pfile got =
    if not authorised
    then false
    else if flags.all_locked
        || ((release_valid flags.floor && ltb_ℤ got.rel flags.floor)
            || ((release_valid flags.ceiling && ltb_ℤ flags.ceiling got.rel)
                || member flags.locked got.rel))
    then false
    else not (is_some (find_locked pfile got) && not flags.joint_edit)
