-- ===== src/Cdc/Kept.antt =====
-- `cdc` loses no MR and no comment.
use cssc.Common.{
  ◌≡◌, ◌⊎◌, refl, inl, inr, List, [], ◌∷◌, ◌++◌, Bool, true, false, ◌||◌, not, Bytes, codes, In,
  In-append_left, In-append_right,
}
use cssc.DeltaTable.{Delta}
use cssc.DeltaTable.Entry.{is_empty_list, set_mrs, prepend_comments}
use cssc.Cdc.{
  note_mr, with_comments, Processed, contains, process_loop, process_mrs, yes_mrs, not_mrs,
  updated_mrs, new_comments, cdc,
}

-- The MR is among the current ones, or in the comments on deleted ones, of which there are some.
abbrev IsNoted : Bytes → Processed → Type 0
IsNoted m p = In m p.current ⊎ ((p.deleted ≡ true) × In m p.comments)

process_loop-IsNoted :
    (m : Bytes) (to_delete old_mrs : List Bytes) (p : Processed)
    → IsNoted m p ⊎ In m old_mrs
    → IsNoted m (process_loop to_delete old_mrs p)
unfolding process_loop
process_loop-IsNoted m to_delete [] p (inl h) = h
process_loop-IsNoted m to_delete [] p (inr h) = absurd h
process_loop-IsNoted m to_delete (mr ∷ old) p h =
    process_loop-IsNoted m to_delete old _ (noted m mr old (contains to_delete mr) p h)
  where
    noted :
        (m mr : Bytes) (old : List Bytes) (gone : Bool) (p : Processed)
        → IsNoted m p ⊎ In m (mr ∷ old)
        → IsNoted m (note_mr gone mr p) ⊎ In m old
    noted m mr old true p (inl (inl h)) = inl (inl h)
    noted m mr old true p (inl (inr (e, h))) =
        inl (inr (refl, In-append_left m _ (mr ∷ []) (In-append_left m p.comments _ h)))
    noted m mr old true p (inr (inl e)) =
        inl (inr (refl, In-append_right m (p.comments ++ _) (mr ∷ []) (inl e)))
    noted m mr old false p (inl (inl h)) = inl (inl (In-append_left m p.current (mr ∷ []) h))
    noted m mr old false p (inl (inr h)) = inl (inr h)
    noted m mr old false p (inr (inl e)) = inl (inl (In-append_right m p.current (mr ∷ []) (inl e)))
    noted m mr old gone p (inr (inr h)) = inr h

updated_mrs-IsNoted :
    (m : Bytes) (d : Delta) (mr_updates : List Bytes)
    → In m d.mrs ⊎ In m (yes_mrs mr_updates)
    → IsNoted m (updated_mrs d mr_updates)
updated_mrs-IsNoted m d [] (inl h) = unfold updated_mrs in inl h
updated_mrs-IsNoted m d [] (inr h) = absurd (unfold yes_mrs in h)
updated_mrs-IsNoted m d (u ∷ us) (inl h) =
    unfold updated_mrs process_mrs in process_loop-IsNoted m (not_mrs (u ∷ us)) d.mrs _ (inr h)
updated_mrs-IsNoted m d (u ∷ us) (inr h) =
    unfold updated_mrs process_mrs in
    process_loop-IsNoted m (not_mrs (u ∷ us)) d.mrs _ (inl (inl h))

module _ (now user : Bytes) (d : Delta) where
  abbrev after : List Bytes → List Bytes → Bool → List Bytes → Delta
  after current comments deleted us =
      with_comments (deleted || not (is_empty_list us)) (set_mrs d current) (
        new_comments now user (record { current = current; comments = comments; deleted = deleted })
          us)

  abbrev front : List Bytes → List Bytes → Bool → List Bytes → List Bytes
  front current comments deleted us =
      new_comments now user (record { current = current; comments = comments; deleted = deleted })
        us

  -- What stands behind the new comments where no MR is deleted.
  abbrev footer : List Bytes → List Bytes
  footer us = (codes "*** CHANGED *** " ++ (now ++ b' ' ∷ user)) ∷ []

  noted_mr :
      (m : Bytes) (current comments us : List Bytes) (deleted : Bool)
      → IsNoted m (record { current = current; comments = comments; deleted = deleted })
      → In m (after current comments deleted us).mrs
        ⊎ In m (after current comments deleted us).comments
  unfolding set_mrs prepend_comments new_comments
  noted_mr m current comments us true (inl h) = inl h
  noted_mr m current comments [] false (inl h) = inl h
  noted_mr m current comments (u ∷ us) false (inl h) = inl h
  noted_mr m current comments us true (inr (e, h)) =
      inr (In-append_left m _ d.comments (In-append_right m us _ (In-append_left m comments _ h)))
  noted_mr m current comments us false (inr (e, h)) = cc

  kept_comment :
      (c : Bytes) (current comments us : List Bytes) (deleted : Bool)
      → In c d.comments ⊎ In c us
      → In c (after current comments deleted us).comments
  unfolding set_mrs prepend_comments new_comments
  kept_comment c current comments us true (inl h) =
      In-append_right c (front current comments true us) d.comments h
  kept_comment c current comments [] false (inl h) = h
  kept_comment c current comments (u ∷ us) false (inl h) =
      In-append_right c (front current comments false (u ∷ us)) d.comments h
  kept_comment c current comments us true (inr h) =
      In-append_left c _ d.comments (In-append_left c us _ h)
  kept_comment c current comments [] false (inr h) = elim h [ ]
  kept_comment c current comments (u ∷ us) false (inr h) =
      In-append_left c (front current comments false (u ∷ us)) d.comments
        (In-append_left c (u ∷ us) (footer us) h)

-- `cdc` loses nothing: every MR that the delta had, and every one to add, is one of its MRs afterwards
-- or stands in its comments, and every comment that it had or that is new is among them.
pub cdc-In :
    (now user : Bytes) (d : Delta) (mr_updates comment_updates : List Bytes)
    → ((m : Bytes)
        → In m d.mrs ⊎ In m (yes_mrs mr_updates)
        → In m (cdc now user d mr_updates comment_updates).mrs
          ⊎ In m (cdc now user d mr_updates comment_updates).comments)
      × ((c : Bytes)
          → In c d.comments ⊎ In c comment_updates
          → In c (cdc now user d mr_updates comment_updates).comments)
unfolding cdc
cdc-In now user d mr_updates comment_updates =
    (let p = updated_mrs d mr_updates in
      (
        λ m h.
            noted_mr now user d m p.current p.comments comment_updates p.deleted
              (updated_mrs-IsNoted m d mr_updates h),
        λ c h. kept_comment now user d c p.current p.comments comment_updates p.deleted h,
      ))
