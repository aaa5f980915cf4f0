-- ===== src/Pfile/Search.antt =====
-- What `find_sid` finds, and what is left when that lock is deleted.
use cssc.Common.{
  ℕ, suc, ◌≡◌, refl, sym, ap, inl, inr, List, [], ◌∷◌, ◌++◌, append_assoc, Bool, true, false, Bytes,
  none, some, length, All, All-append, arith, Bool-cases, length-append, length-append,
}
use cssc.Sid.{Sid}
use cssc.Pfile.{
  EditLock, FindStatus, found, not_found, ambiguous, fits, find_loop, find_sid, delete_lock,
}

-- The answer to a search among locks of which `fit` says which fit: none does, exactly one does and is
-- where the answer says, or two do.
pub data Answers (fit : EditLock → Bool) : List EditLock → FindStatus → Type 0 where
  nowhere : {locks : List EditLock} → All (λ it. fit it ≡ false) locks → Answers fit locks not_found
  once :
      {locks : List EditLock} (before after : List EditLock) (it : EditLock) {i : ℕ}
      → locks ≡ before ++ it ∷ after
      → i ≡ length before
      → fit it ≡ true
      → All (λ x. fit x ≡ false) before
      → All (λ x. fit x ≡ false) after
      → Answers fit locks (found i)
  twice :
      {locks : List EditLock} (before between after : List EditLock) (it it' : EditLock)
      → locks ≡ before ++ it ∷ (between ++ it' ∷ after)
      → fit it ≡ true
      → fit it' ≡ true
      → Answers fit locks ambiguous

delete-length :
    (before after : List EditLock) (it : EditLock)
    → delete_lock (length before) (before ++ it ∷ after) ≡ before ++ after
unfolding delete_lock
delete-length [] after it = refl
delete-length (x ∷ before) after it = ap (λ l. x ∷ l) (delete-length before after it)

module _ (username : Bytes) (id : Sid) where
  -- One lock fits already.
  second :
      (before between locks : List EditLock) (it : EditLock) (i p : ℕ)
      → p ≡ length before
      → fits username id it ≡ true
      → All (λ x. fits username id x ≡ false) before
      → All (λ x. fits username id x ≡ false) between
      → Answers
          (fits username id)
          (before ++ it ∷ (between ++ locks))
          (find_loop username id locks i (some p))
  unfolding find_loop
  second before between [] it i p e f hb hm =
      once before (between ++ []) it refl e f hb (All-append _ between [] hm tt)
  second before between (x ∷ locks) it i p e f hb hm = elim (Bool-cases (fits username id x)) [
    | inl again ↦ rw again (twice before between locks it x refl f again)
    | inr other ↦
        rw (other, sym (append_assoc between (x ∷ []) locks))
          (second before (between ++ x ∷ []) locks it (suc i) p e f hb
            (All-append _ between (x ∷ []) hm (other, tt)))
  ]

  search :
      (before locks : List EditLock) (i : ℕ)
      → i ≡ length before
      → All (λ x. fits username id x ≡ false) before
      → Answers (fits username id) (before ++ locks) (find_loop username id locks i none)
  unfolding find_loop
  search before [] i e hb = nowhere (All-append _ before [] hb tt)
  search before (x ∷ locks) i e hb = elim (Bool-cases (fits username id x)) [
    | inl here ↦ rw here (second before [] locks x (suc i) i e here hb tt)
    | inr other ↦
        rw (other, sym (append_assoc before (x ∷ []) locks))
          (search (before ++ x ∷ []) locks (suc i) (omega (arith, length-append before (x ∷ [])))
            (All-append _ before (x ∷ []) hb (other, tt)))
  ]

  -- `find_sid` tells whether none, one or several of the user's locks fit, and if it is one, which.
  find_sid-Answers :
      (locks : List EditLock) → Answers (fits username id) locks (find_sid username locks id)
  unfolding find_sid
  find_sid-Answers locks = search [] locks 0 refl tt

  found-split :
      {locks : List EditLock} {s : FindStatus} (i : ℕ)
      → Answers (fits username id) locks s
      → s ≡ found i
      → (before : List EditLock) × (after : List EditLock) × (it : EditLock) × (locks
          ≡ before ++ it ∷ after)
        × (delete_lock i locks ≡ before ++ after)
        × (fits username id it ≡ true)
        × All (λ x. fits username id x ≡ false) (before ++ after)
  found-split i (nowhere h) e = cc
  found-split i (twice before between after it it' whole f f') e = cc
  found-split i (once before after it {i = j} whole at f hb ha) e =
      let same : j ≡ i = cc in
      (
        before,
        after,
        it,
        whole,
        rw (sym same, at, whole) (delete-length before after it),
        f,
        All-append _ before after hb ha,
      )

  -- Deleting the lock that `find_sid` has found leaves the other locks, in order, and none of them fits.
  pub delete_lock-find_sid :
      (locks : List EditLock) (i : ℕ)
      → find_sid username locks id ≡ found i
      → (before : List EditLock) × (after : List EditLock) × (it : EditLock) × (locks
          ≡ before ++ it ∷ after)
        × (delete_lock i locks ≡ before ++ after)
        × (fits username id it ≡ true)
        × All (λ x. fits username id x ≡ false) (before ++ after)
  delete_lock-find_sid locks i e = found-split i (find_sid-Answers locks) e
