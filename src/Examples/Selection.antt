-- ===== src/Examples/Selection.antt =====
-- Requests, new SIDs and edit locks.
use cssc.Common.{
  ℕ, ◌≡◌, refl, ◌⊎◌, inl, inr, List, [], ◌∷◌, ◌++◌, Bool, true, false, none, some, arith, codes,
  All,
}
use cssc.Common.Int.{pos, negsuc}
use cssc.Common.Runs.{value, quit}
use cssc.Sid.{Sid, sid, no_sid, is_eq, is_null, gte, matches, next_branch, components, on_trunk}
use cssc.DeltaTable.{DeltaList, find, find_from, selects, removed}
use cssc.DeltaTable.Entry.{create_delta}
use cssc.Dates.{no_date}
use cssc.SidList.{empty_list}
use cssc.Pfile.{EditLock, find_sid, fits, same_text, find_loop, delete_lock, is_some}
use cssc.Pfile.Search.{delete_lock-find_sid}
use cssc.Select.{
  Flags, default_request, sid_matches, best_loop, find_requested_sid, sid_in_use, assertion,
  find_next_sid,
}
use cssc.Select.Requested.{Best, find_requested_sid-Best}
use cssc.Select.Climb.{Climbed, here, further}
use cssc.Select.Next.{
  ids, delta_ids, lock_ids, IsRoomy, find_next_sid_joint, find_next_sid_assertion,
}

abbrev pub trunk : ℕ → Sid
trunk level = sid (pos 1) (pos level) (pos 0) (pos 0)

abbrev side : ℕ → Sid
side branch = sid (pos 1) (pos 1) (pos branch) (pos 1)

-- 1.1, 1.2 and the branch 1.1.1.1.
abbrev pub deltas : DeltaList
deltas = record {
  high_seqno = 3;
  high_release = trunk 2;
  items =
      create_delta b'D' (side 1) 3 1 [] [] [] []
      ∷ create_delta b'D' (trunk 2) 2 1 [] [] [] []
      ∷ create_delta b'D' (trunk 1) 1 0 [] [] [] []
      ∷ [];
  seq_table = (1, 2) ∷ (2, 1) ∷ (3, 0) ∷ [];
}

-- A lock on the branch, for a branch beside it.
abbrev lock : EditLock
lock = record {
  got = side 1;
  delta = side 2;
  user = codes "ann";
  date = no_date;
  include = empty_list;
  exclude = empty_list;
}

abbrev joint : Bool → Flags
joint j = record {
  branch = true;
  joint_edit = j;
  all_locked = false;
  default_sid = no_sid;
  floor = negsuc 0;
  ceiling = negsuc 0;
  locked = [];
}

find_requested_sid-Best_example :
    ((default_request (joint false) deltas (sid (pos 1) (pos 0) (pos 0) (pos 0)) false ≡ none)
      × (find_requested_sid (joint false) deltas (sid (pos 1) (pos 0) (pos 0) (pos 0)) false
          ≡ none))
    ⊎ ((r : Sid) × (default_request (joint false) deltas (sid (pos 1) (pos 0) (pos 0) (pos 0)) false
          ≡ some r)
        × Best r deltas.items
            (find_requested_sid (joint false) deltas (sid (pos 1) (pos 0) (pos 0) (pos 0)) false))
find_requested_sid-Best_example =
    find_requested_sid-Best (joint false) deltas (sid (pos 1) (pos 0) (pos 0) (pos 0))

requested :
    find_requested_sid (joint false) deltas (sid (pos 1) (pos 0) (pos 0) (pos 0)) false
    ≡ some (trunk 2)
unfolding find_requested_sid default_request sid_matches best_loop removed gte create_delta matches
    on_trunk is_null
requested = refl

delete_lock-find_sid_example :
    (before : List EditLock) × (after : List EditLock) × (it : EditLock) × (lock ∷ []
      ≡ before ++ it ∷ after)
    × (delete_lock 0 (lock ∷ []) ≡ before ++ after)
    × (fits (codes "ann") no_sid it ≡ true)
    × All (λ x. fits (codes "ann") no_sid x ≡ false) (before ++ after)
unfolding find_sid find_loop fits same_text is_null
delete_lock-find_sid_example = delete_lock-find_sid (codes "ann") no_sid (lock ∷ []) 0 refl

roomy : IsRoomy (ids deltas (lock ∷ []))
unfolding delta_ids lock_ids create_delta
roomy x (inl e) = (rw e refl, rw e refl)
roomy x (inr (inl e)) = (rw e refl, rw e refl)
roomy x (inr (inr (inl e))) = (rw e refl, rw e refl)
roomy x (inr (inr (inr (inl e)))) = (rw e refl, rw e refl)
roomy x (inr (inr (inr (inr h)))) = elim h [ ]

find_next_sid_joint_example :
    (next : Sid) × (find_next_sid 9 (joint true) deltas (lock ∷ []) (trunk 1) (trunk 1) true
      ≡ value next)
    × (sid_in_use deltas (lock ∷ []) next ≡ false)
unfolding delta_ids lock_ids
find_next_sid_joint_example =
    find_next_sid_joint 9 (joint true) deltas (lock ∷ []) (trunk 1) (trunk 1) true refl roomy
      (omega arith)

first_branch : Climbed (λ y. is_some (find deltas y)) next_branch (side 1) (side 2)
unfolding find find_from selects removed is_eq create_delta next_branch
first_branch = further refl (here refl refl)

find_next_sid_assertion_example :
    find_next_sid 9 (joint false) deltas (lock ∷ []) (trunk 1) (trunk 1) true ≡ quit assertion
unfolding delta_ids lock_ids is_null components next_branch
find_next_sid_assertion_example =
    find_next_sid_assertion 9 (joint false) deltas (lock ∷ []) (trunk 1) (trunk 1) (side 2) refl
      refl refl (omega arith) roomy (omega arith) first_branch (inl refl)
