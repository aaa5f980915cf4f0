-- ===== src/Examples/Removal.antt =====
-- A concrete delta that is removed, and one with changed MRs.
use cssc.Common.{◌≡◌, refl, codes, List, [], ◌∷◌, ◌++◌, true, Bytes, some, ◌⊎◌, All, In}
use cssc.Common.Runs.{value}
use cssc.Sid.{is_eq}
use cssc.DeltaTable.{Delta, DeltaList, find, find_from, selects, removed}
use cssc.DeltaTable.Entry.{create_delta, set_mrs, prepend_comments}
use cssc.Pfile.{same_text}
use cssc.Cdc.{cdc, updated_mrs, process_mrs, process_loop, yes_mrs, not_mrs, contains, new_comments}
use cssc.Cdc.Kept.{cdc-In}
use cssc.Body.Line.{ok, line_type, check_arg, strict_atous, atous_loop}
use cssc.Body.Remove.{remove, remove_loop, remove_line, next_state}
use cssc.Rmdel.{rmdel, check_unused, is_seqlist_member, mark_removed}
use cssc.Rmdel.Unused.{IsFree, rmdel-IsFree}
use cssc.Examples.Selection.{deltas, trunk}

abbrev body : List Bytes
body =
    (1 ∷ codes "I 1")
    ∷ codes "a"
    ∷ (1 ∷ codes "E 1")
    ∷ (1 ∷ codes "I 2")
    ∷ codes "b"
    ∷ (1 ∷ codes "E 2")
    ∷ []

abbrev rest : List Bytes
rest = (1 ∷ codes "I 1") ∷ codes "a" ∷ (1 ∷ codes "E 1") ∷ []

abbrev left : DeltaList
left = record deltas { items = mark_removed (trunk 2) deltas.items }

rmdel_runs : rmdel true deltas (trunk 2) body ≡ value (left, rest)
unfolding rmdel find find_from selects removed is_eq check_unused is_seqlist_member create_delta
    remove remove_loop remove_line next_state line_type check_arg strict_atous atous_loop
rmdel_runs = refl

rmdel-IsFree_example :
    (true ≡ true)
    × (d : Delta) × (find deltas (trunk 2) ≡ some d)
    × (before after : List Delta) × (deltas.items ≡ before ++ d ∷ after)
    × (left.items ≡ before ++ record d { delta_type = b'R' } ∷ after)
    × All (IsFree d.seq) deltas.items
    × All (IsFree d.seq) left.items
    × (remove d.seq body ≡ ok rest)
rmdel-IsFree_example = rmdel-IsFree true deltas left (trunk 2) body rest rmdel_runs

abbrev with_mrs : Delta
with_mrs = create_delta b'D' (trunk 1) 1 0 [] [] (codes "7" ∷ codes "8" ∷ []) (codes "start" ∷ [])

abbrev updates : List Bytes
updates = codes "9" ∷ codes "!7" ∷ []

abbrev changed : Delta
changed = cdc (codes "now") (codes "ann") with_mrs updates []

-- One MR is deleted, and a comment says so.
cdc_runs :
    (changed.mrs ≡ codes "9" ∷ codes "8" ∷ [])
    × (changed.comments ≡ codes "*** LIST OF DELETED MRS ***" ∷ codes "7" ∷ codes "start" ∷ [])
unfolding create_delta cdc updated_mrs process_mrs process_loop yes_mrs not_mrs contains same_text
    new_comments set_mrs prepend_comments
cdc_runs = (refl, refl)

cdc-In_example :
    ((m : Bytes)
      → In m with_mrs.mrs ⊎ In m (yes_mrs updates)
      → In m changed.mrs ⊎ In m changed.comments)
    × ((c : Bytes) → In c with_mrs.comments ⊎ In c [] → In c changed.comments)
cdc-In_example = cdc-In (codes "now") (codes "ann") with_mrs updates []
