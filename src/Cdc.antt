-- ===== src/Cdc.antt =====
-- src/sf-cdc.cc: `sccs_file::cdc`, which changes the MRs and the comments of a delta. The present date and the user
-- are parameters; a set of texts is a list.
pub mod Kept
use cssc.Common.{
  ℕ, List, [], ◌∷◌, ◌++◌, Bool, true, false, ◌&&◌, ◌||◌, not, Bytes, if◌then◌else◌, ◌==◌, codes,
}
use cssc.DeltaTable.{Delta}
use cssc.DeltaTable.Entry.{is_empty_list, set_mrs, prepend_comments}
use cssc.Pfile.{same_text}

-- `to_delete.find(mr) != to_delete.end()`.
unfoldable pub contains : List Bytes → Bytes → Bool
contains [] mr = false
contains (m ∷ ms) mr = same_text m mr || contains ms mr

-- What `process_mrs` makes: the updated MRs, the comments on deleted ones, and whether any is deleted.
pub record Processed : Type 0 where
  pub current : List Bytes
  pub comments : List Bytes
  pub deleted : Bool

-- An old MR that is deleted, or not.
abbrev pub note_mr : Bool → Bytes → Processed → Processed
note_mr true mr p = record {
  current = p.current;
  comments =
      (p.comments ++ (if p.deleted then [] else codes "*** LIST OF DELETED MRS ***" ∷ []))
      ++ mr ∷ [];
  deleted = true;
}
note_mr false mr p = record p { current = p.current ++ mr ∷ [] }

-- The loop of `process_mrs` over the old MRs.
unfoldable pub process_loop : List Bytes → List Bytes → Processed → Processed
process_loop to_delete [] p = p
process_loop to_delete (mr ∷ old_mrs) p =
    process_loop to_delete old_mrs (note_mr (contains to_delete mr) mr p)

unfoldable pub process_mrs : List Bytes → List Bytes → List Bytes → Processed
process_mrs old_mrs to_add to_delete =
    process_loop to_delete old_mrs (record { current = to_add; comments = []; deleted = false })

-- The MRs to add, and those to delete, which have a `!` in front.
unfoldable pub yes_mrs : List Bytes → List Bytes
yes_mrs [] = []
yes_mrs ([] ∷ specs) = [] ∷ yes_mrs specs
yes_mrs ((c ∷ s) ∷ specs) = let rest = yes_mrs specs in if c == b'!' then rest else (c ∷ s) ∷ rest

unfoldable pub not_mrs : List Bytes → List Bytes
not_mrs [] = []
not_mrs ([] ∷ specs) = not_mrs specs
not_mrs ((c ∷ s) ∷ specs) = let rest = not_mrs specs in if c == b'!' then s ∷ rest else rest

-- The first part: the MRs, where there are updates of them.
unfoldable pub updated_mrs : Delta → List Bytes → Processed
updated_mrs d mr_updates =
    if is_empty_list mr_updates
    then record { current = d.mrs; comments = []; deleted = false }
    else process_mrs d.mrs (yes_mrs mr_updates) (not_mrs mr_updates)

-- The new comments.
unfoldable pub new_comments : Bytes → Bytes → Processed → List Bytes → List Bytes
new_comments now user p comment_updates =
    comment_updates
    ++ ((if p.deleted then p.comments else [])
        ++ (if is_empty_list comment_updates
            then []
            else (codes "*** CHANGED *** " ++ (now ++ b' ' ∷ user)) ∷ []))

-- The new comments, put in front where there are any.
abbrev pub with_comments : Bool → Delta → List Bytes → Delta
with_comments true d newcomments = prepend_comments d newcomments
with_comments false d newcomments = d

unfoldable pub cdc : Bytes → Bytes → Delta → List Bytes → List Bytes → Delta
cdc now user d mr_updates comment_updates =
    let p = updated_mrs d mr_updates in
    with_comments (p.deleted || not (is_empty_list comment_updates)) (set_mrs d p.current)
      (new_comments now user p comment_updates)
