-- ===== src/Select/Next.antt =====
-- The SID of a new delta is free.
use cssc.Common.{
  ℕ, zero, suc, ◌-◌, ◌^◌, ◌<◌, ◌≡◌, sym, ap, ◌∙◌, inl, inr, List, [], ◌∷◌, ◌++◌, Bool, true, false,
  ◌&&◌, ◌||◌, not, if◌then◌else◌, ltb, In, In-append_left, In-append_right, arith, Bool-cases,
  Option-cases, length,
}
use cssc.Common.Int.{ℤ, pos, negsuc, ltb_ℤ, inc_short}
use cssc.Common.Runs.{value, quit}
use cssc.Sid.{
  Sid, is_eq, is_null, components, release_only, partial_sid, next_level, next_branch, increment,
}
use cssc.Sid.Order.{is_eq-is_ne}
use cssc.DeltaTable.{Delta, DeltaList, Selector, removed, selects, find_from, find, find_any}
use cssc.Pfile.{EditLock, find_to_be_created, is_to_be_created, is_some}
use cssc.Select.{
  Flags, sid_in_use, climb, assertion, rounds, first_try, branch_again, too_high, not_trunk_top,
  branch_used, open_branch, find_next_sid,
}
use cssc.Select.Climb.{Climbed, Climbed-free, Climbed-unique, Climbed-map, climb_ends}

unfoldable pub delta_ids : List Delta → List Sid
delta_ids [] = []
delta_ids (d ∷ ds) = d.id ∷ delta_ids ds

unfoldable pub lock_ids : List EditLock → List Sid
lock_ids [] = []
lock_ids (it ∷ its) = it.delta ∷ lock_ids its

-- The SIDs of the deltas, and those that the locks are going to create.
abbrev pub ids : DeltaList → List EditLock → List Sid
ids l pfile = delta_ids l.items ++ lock_ids pfile

-- No branch and no level is the greatest that a short can hold.
abbrev pub IsRoomy : List Sid → Type 0
IsRoomy xs =
    (x : Sid)
    → In x xs
    → (ltb_ℤ x.branch (pos (2 ^ 15 - 1)) ≡ true) × (ltb_ℤ x.level (pos (2 ^ 15 - 1)) ≡ true)

find_from-In :
    (sel : Selector) (ds : List Delta) (x : Sid)
    → is_some (find_from sel ds x) ≡ true
    → In x (delta_ids ds)
unfolding find_from delta_ids
find_from-In sel [] x h = cc
find_from-In sel (d ∷ ds) x h = elim (Bool-cases (selects sel d && is_eq d.id x)) [
  | inl on ↦ inl (sym ((is_eq-is_ne d.id x).0.0 (ground arith)))
  | inr off ↦ inr (find_from-In sel ds x (rw off at h))
]

created-In : (its : List EditLock) (x : Sid) → is_to_be_created its x ≡ true → In x (lock_ids its)
unfolding is_to_be_created find_to_be_created lock_ids
created-In [] x h = cc
created-In (it ∷ its) x h = elim (Bool-cases (is_eq it.delta x)) [
  | inl on ↦ inl (sym ((is_eq-is_ne it.delta x).0.0 on))
  | inr off ↦ inr (created-In its x (rw off at h))
]

inc_short-lt : (a : ℤ) → ltb_ℤ a (pos (2 ^ 15 - 1)) ≡ true → ltb_ℤ a (inc_short a) ≡ true
inc_short-lt (pos n) h = ground arith
inc_short-lt (negsuc zero) h = ground arith
inc_short-lt (negsuc (suc n)) h = ground arith

module _ (flags : Flags) (l : DeltaList) (pfile : List EditLock) where
  sid_in_use-In : (x : Sid) → sid_in_use l pfile x ≡ true → In x (ids l pfile)
  unfolding sid_in_use find
  sid_in_use-In x h = elim (Bool-cases (is_to_be_created pfile x)) [
    | inl on ↦ In-append_right x (delta_ids l.items) (lock_ids pfile) (created-In pfile x on)
    | inr off ↦
        In-append_left x (delta_ids l.items) (lock_ids pfile)
          (find_from-In Selector.current l.items x (ground arith))
  ]

  branch_used-taken : (x : Sid) → branch_used flags l pfile x ≡ true → sid_in_use l pfile x ≡ true
  unfolding branch_used sid_in_use
  branch_used-taken x h = ground arith

  in_use-branch_used :
      (x : Sid) → flags.joint_edit ≡ true → branch_used flags l pfile x ≡ sid_in_use l pfile x
  unfolding branch_used sid_in_use
  in_use-branch_used x j = rw j

  module _ (roomy : IsRoomy (ids l pfile)) (fuel : ℕ) (enough : length (ids l pfile) < fuel) where
    open_branch_ends :
        (x : Sid)
        → (s : Sid) × (open_branch fuel flags l pfile x ≡ value s)
          × Climbed (branch_used flags l pfile) next_branch x s
    unfolding next_branch
    open_branch_ends x =
        let (s, ran, c) =
          climb_ends (branch_used flags l pfile) next_branch (λ y. y.branch) (ids l pfile)
            (λ y h. sid_in_use-In y (branch_used-taken y h))
            (λ y h. inc_short-lt y.branch (roomy y h).0) fuel x enough in
        (s, ap rounds ran, c)

    first_try_ends : (wanted got : Sid) → (x : Sid) × (first_try fuel l pfile wanted got ≡ value x)
    unfolding first_try next_level
    first_try_ends wanted got = elim (Bool-cases (release_only wanted)) [
      | inl r ↦
          let (s, ran, c) =
            climb_ends (sid_in_use l pfile) next_level (λ y. y.level) (ids l pfile) sid_in_use-In
              (λ y h. inc_short-lt y.level (roomy y h).1) fuel (next_level wanted) enough in
          (s, rw r (ap rounds ran))
      | inr r ↦ elim (Bool-cases (partial_sid wanted)) [
        | inl p ↦ (increment got, rw (r, p))
        | inr p ↦ (increment wanted, rw (r, p))
      ]
    ]

  -- With joint editing a SID in use is always taken for a collision.
  branch_again_joint :
      (wanted next : Sid)
      → flags.joint_edit ≡ true
      → (b : Bool) × (branch_again flags l pfile wanted next ≡ value b)
        × (b ≡ false → sid_in_use l pfile next ≡ false)
  unfolding branch_again
  branch_again_joint wanted next j = elim (Option-cases (find_any l next)) [
    | inl absent ↦ elim (Bool-cases (sid_in_use l pfile next)) [
      | inl on ↦ (true, rw (absent, on, j, branch_again), λ e. cc)
      | inr off ↦ (false, rw (absent, off, branch_again), λ e. off)
    ]
    | inr (d, at) ↦ (
      (if not (removed d) && not (partial_sid wanted)
          then true
          else sid_in_use l pfile next && flags.joint_edit),
      rw (at, branch_again),
      λ e. ground (arith, j),
    )
  ]

-- With joint editing, and room for another branch and level, `find_next_sid` ends with a SID that is
-- not in use: neither by a delta nor by a lock.
pub find_next_sid_joint :
    (fuel : ℕ) (flags : Flags) (l : DeltaList) (pfile : List EditLock) (requested got : Sid)
    (want_branch : Bool)
    → flags.joint_edit ≡ true
    → IsRoomy (ids l pfile)
    → length (ids l pfile) < fuel
    → (next : Sid) × (find_next_sid fuel flags l pfile requested got want_branch ≡ value next)
      × (sid_in_use l pfile next ≡ false)
unfolding find_next_sid
find_next_sid_joint fuel flags l pfile requested got want_branch j roomy enough =
    let wanted = if is_null flags.default_sid then requested else flags.default_sid in
    let (x, tried) = first_try_ends flags l pfile roomy fuel enough wanted got in
    let free = λ (y s : Sid) (c : Climbed (branch_used flags l pfile) next_branch y s).
      sym (in_use-branch_used flags l pfile s j) ∙ Climbed-free c in
    elim (Bool-cases (flags.branch && want_branch)) [
      | inl want ↦
          let y = next_branch (if ltb (components wanted) 4 then got else x) in
          let (s, ran, c) = open_branch_ends flags l pfile roomy fuel enough y in
          let off = free y s c in (s, rw (tried, want, ran, off), off)
      | inr want ↦
          let (b, again, clear) = branch_again_joint flags l pfile wanted x j in
          elim (Bool-cases
            (too_high flags wanted || (b || not_trunk_top l (components wanted) got))) [
              | inl forced ↦
                  let (s, ran, c) =
                    open_branch_ends flags l pfile roomy fuel enough (next_branch got) in
                  let off = free (next_branch got) s c in
                  (s, rw (tried, want, again, forced, ran, off), off)
              | inr plain ↦
                  let off = clear (ground arith) in (x, rw (tried, want, again, plain, off), off)
            ]
    ]

In-created : (its : List EditLock) (x : Sid) → In x (lock_ids its) → is_to_be_created its x ≡ true
unfolding is_to_be_created find_to_be_created lock_ids
In-created [] x h = elim h [ ]
In-created (it ∷ its) x (inl e) = rw ((is_eq-is_ne it.delta x).0.1 (sym e))
In-created (it ∷ its) x (inr h) = elim (Bool-cases (is_eq it.delta x)) [
  | inl on ↦ rw on
  | inr off ↦ rw off (In-created its x h)
]

-- Without joint editing only the deltas keep a branch from being chosen.
branch_used_alone :
    (flags : Flags) (l : DeltaList) (pfile : List EditLock) (x : Sid)
    → flags.joint_edit ≡ false
    → branch_used flags l pfile x ≡ is_some (find l x)
unfolding branch_used
branch_used_alone flags l pfile x off = rw off (ground arith)

-- The final assertion of `find_next_sid` fails where, without joint editing and without a default SID, a
-- branch is allowed and wanted for a request of less than four components, and a lock is going to
-- create the first branch behind the delta that is got that no delta has. There is room for another
-- branch and level, and there are more rounds than SIDs of deltas and of locks.
pub find_next_sid_assertion :
    (fuel : ℕ) (flags : Flags) (l : DeltaList) (pfile : List EditLock) (requested got s : Sid)
    → flags.joint_edit ≡ false
    → flags.branch ≡ true
    → is_null flags.default_sid ≡ true
    → components requested < 4
    → IsRoomy (ids l pfile)
    → length (ids l pfile) < fuel
    → Climbed (λ y. is_some (find l y)) next_branch (next_branch got) s
    → In s (lock_ids pfile)
    → find_next_sid fuel flags l pfile requested got true ≡ quit assertion
unfolding find_next_sid sid_in_use climb branch_used next_branch find
find_next_sid_assertion fuel flags l pfile requested got s alone branch no_default few roomy enough
      first created =
    let (x, tried) = first_try_ends flags l pfile roomy fuel enough requested got in
    let (s', ran, c) = open_branch_ends flags l pfile roomy fuel enough (next_branch got) in
    let same : s' ≡ s =
      Climbed-unique c (Climbed-map (λ y. branch_used_alone flags l pfile y alone) first) in
    let taken : is_to_be_created pfile s' ≡ true = rw same (In-created pfile s created) in
    let four : ltb (components requested) 4 ≡ true = ground arith in
    rw (no_default, tried, branch, four, ran, taken) (ground arith)
