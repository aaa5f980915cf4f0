-- ===== src/SeqState/Disposition.antt =====
-- What `decide_disposition` decides, stated without its loop.
use mathlib.Core.Path.{subst}
use native.Mathlib.Nat.{zero-add}
use cssc.Common.{
  ℕ, zero, suc, ◌+◌, ◌≤◌, ◌<◌, ◌≡◌, refl, ◌∙◌, ◌≢◌, ◌↔◌, ◌⊎◌, inl, inr, List, [], ◌∷◌, Bool, true,
  false, not, ◌&&◌, arith, if◌then◌else◌, ◌==◌, set, All, Bool-cases,
}
use cssc.SeqState.{
  OneState, SeqState, Highest, initial_condition, state_at, raise, note, scan, nothing_open, settle,
  decide_disposition,
}

-- An open ^AI block of an included delta, an open ^AI block of another delta, and an open ^AD block
-- of an included delta.
abbrev pub inserts : OneState → Bool
inserts c = c.active && (b'I' == c.command && c.included)

abbrev pub hides : OneState → Bool
hides c = c.active && (b'I' == c.command && not c.included)

abbrev pub deletes : OneState → Bool
deletes c = c.active && (not (b'I' == c.command) && c.included)

-- The greatest number, from `s` on, of an entry that passes a test.
peak : (OneState → Bool) → List OneState → ℕ → ℕ → ℕ
peak P [] s h = h
peak P (c ∷ cs) s h = peak P cs (s + 1) (if P c then raise h s else h)

scan_peaks :
    (cs : List OneState) (s : ℕ) (h : Highest)
    → ((scan cs s h).our_insert ≡ peak inserts cs s h.our_insert)
      × ((scan cs s h).our_delete ≡ peak deletes cs s h.our_delete)
      × ((scan cs s h).owner ≡ peak hides cs s h.owner)
unfolding scan peak note
scan_peaks [] s h = (refl, refl, refl)
scan_peaks (c ∷ cs) s h = ground (arith, scan_peaks cs (s + 1) (note c s h))

raise_cases : (h s : ℕ) → (raise h s ≡ s) ⊎ (raise h s ≡ h)
raise_cases h s = ground arith

module _ (P : OneState → Bool) where
  le-peak : (cs : List OneState) (s h : ℕ) → h ≤ peak P cs s h
  unfolding peak
  le-peak [] s h = omega arith
  le-peak (c ∷ cs) s h = ground (arith, le-peak cs (s + 1) h, le-peak cs (s + 1) s)

  peak_upper :
      (cs : List OneState) (s h j : ℕ)
      → P initial_condition ≡ false
      → P (state_at cs j) ≡ true
      → s + j ≤ peak P cs s h
  unfolding peak
  peak_upper [] s h j off on = cc
  peak_upper (c ∷ cs) s h zero off on = ground (arith, le-peak cs (s + 1) h, le-peak cs (s + 1) s)
  peak_upper (c ∷ cs) s h (suc j) off on =
      omega (arith, peak_upper cs (s + 1) (if P c then raise h s else h) j off on)

  peak_attained :
      (cs : List OneState) (s h : ℕ)
      → (peak P cs s h ≡ h) ⊎ ((j : ℕ) × (P (state_at cs j) ≡ true) × (peak P cs s h ≡ s + j))
  unfolding peak
  peak_attained [] s h = inl refl
  peak_attained (c ∷ cs) s h = elim (Bool-cases (P c)) [
    | inl on ↦ rw on (elim (peak_attained cs (s + 1) (raise h s)) [
      | inl e ↦ elim (raise_cases h s) [
        | inl top ↦ inr (zero, on, omega arith)
        | inr old ↦ inl (e ∙ old)
      ]
      | inr (j, at, e) ↦ inr (suc j, at, omega arith)
    ])
    | inr off ↦ rw off (elim (peak_attained cs (s + 1) h) [
      | inl e ↦ inl e
      | inr (j, at, e) ↦ inr (suc j, at, omega arith)
    ])
  ]

-- At most one of the three dispositions of a delta is set.
abbrev pub IsExclusive : OneState → Type 0
IsExclusive c =
    (c.included ≡ true → (c.excluded ≡ false) × (c.ignored ≡ false))
    × (c.excluded ≡ true → c.ignored ≡ false)

pub state_at-All :
    (P : OneState → Type 0) (xs : List OneState) (n : ℕ)
    → All P xs
    → P initial_condition
    → P (state_at xs n)
state_at-All P [] n h d = d
state_at-All P (x ∷ xs) zero h d = h.0
state_at-All P (x ∷ xs) (suc n) h d = state_at-All P xs n h.1 d

pub set-All :
    (P : OneState → Type 0) (xs : List OneState) (n : ℕ) (v : OneState)
    → All P xs
    → P v
    → All P (set xs n v)
set-All P [] n v h d = h
set-All P (x ∷ xs) zero v h d = (d, h.1)
set-All P (x ∷ xs) (suc n) v h d = (h.0, set-All P xs n v h.1 d)

-- Delta `i` owns the current line: it is the latest included delta with an open insertion, no
-- included delta from `i` on has an open deletion, and no other delta from `i` on an open insertion.
pub record Owns (xs : List OneState) (i : ℕ) : Type 0 where
  pub inserted : inserts (state_at xs i) ≡ true
  pub latest : (j : ℕ) → inserts (state_at xs j) ≡ true → j ≤ i
  pub undeleted : (d : ℕ) → deletes (state_at xs d) ≡ true → d < i
  pub unhidden : (o : ℕ) → hides (state_at xs o) ≡ true → o < i

-- The tests exclude one another, so an entry is counted in one of the three results at most.
insert-ne-delete :
    (xs : List OneState) (i d : ℕ)
    → inserts (state_at xs i) ≡ true
    → deletes (state_at xs d) ≡ true
    → d ≢ i
insert-ne-delete xs i d p q e =
    apart (state_at xs i) p (subst (λ n. deletes (state_at xs n) ≡ true) e q)
  where
    apart : (c : OneState) → inserts c ≡ true → deletes c ≡ true → ⊥
    apart c p q = ground arith

module _ (P : OneState → Bool) (xs : List OneState) where
  top : ℕ
  top = peak P xs 0 0

  top_attained : 0 < top → P (state_at xs top) ≡ true
  unfolding top
  top_attained pos = elim (peak_attained P xs 0 0) [
    | inl e ↦ absurd (omega arith)
    | inr (j, at, e) ↦ rw (e, zero-add) at
  ]

  top_upper : (j : ℕ) → P initial_condition ≡ false → P (state_at xs j) ≡ true → j ≤ top
  unfolding top
  top_upper j off on = omega (arith, peak_upper P xs 0 0 j off on)

  top_below : (n : ℕ) → 0 < n → ((j : ℕ) → P (state_at xs j) ≡ true → j < n) → top < n
  unfolding top
  top_below n pos all = elim (peak_attained P xs 0 0) [
    | inl e ↦ omega arith
    | inr (j, at, e) ↦ omega (arith, all j at)
  ]

module _ (xs : List OneState) where
  abbrev found : Highest
  found = scan xs 0 nothing_open

  found_tops :
      (found.our_insert ≡ top inserts xs)
      × (found.our_delete ≡ top deletes xs)
      × (found.owner ≡ top hides xs)
  unfolding top
  found_tops = scan_peaks xs 0 nothing_open

  found-Owns :
      found.owner < found.our_insert
      → found.our_delete ≤ found.our_insert
      → Owns xs found.our_insert
  found-Owns above kept =
      let (ei, ed, eo) = found_tops in
      let at : inserts (state_at xs found.our_insert) ≡ true =
        rw ei (top_attained inserts xs (omega arith)) in
      record {
        inserted = at;
        latest = λ j h. omega (arith, top_upper inserts xs j refl h);
        undeleted = λ d h.
            omega
              (arith, top_upper deletes xs d refl h, insert-ne-delete xs found.our_insert d at h);
        unhidden = λ o h. omega (arith, top_upper hides xs o refl h);
      }

  Owns-found :
      (i : ℕ)
      → 0 < i
      → Owns xs i
      → (found.our_insert ≡ i) × (found.our_delete ≤ found.our_insert) × (found.owner < i)
  Owns-found i pos o =
      let (ei, ed, eo) = found_tops in
      let hi : top inserts xs < suc i =
        top_below inserts xs (suc i) (omega arith) (λ j h. omega (arith, o.latest j h)) in
      let lo : i ≤ top inserts xs = top_upper inserts xs i refl o.inserted in
      let del : top deletes xs < i = top_below deletes xs i pos o.undeleted in
      let own : top hides xs < i = top_below hides xs i pos o.unhidden in
      (omega arith, omega arith, omega arith)

-- An open insertion of an included delta is not one of an ignored delta.
not-ignored : (c : OneState) → IsExclusive c → inserts c ≡ true → c.ignored ≡ false
not-ignored c x h = ground arith

settle_taken :
    (h : Highest) (st : SeqState)
    → (settle h st).inserting ≡ true
    → (h.owner < h.our_insert)
      × (h.our_delete ≤ h.our_insert)
      × ((settle h st).active_seq ≡ h.our_insert)
unfolding settle
settle_taken h st e = ground arith

settle_takes :
    (h : Highest) (st : SeqState)
    → h.owner < h.our_insert
    → h.our_delete ≤ h.our_insert
    → (state_at st.states h.our_insert).ignored ≡ false
    → ((settle h st).inserting ≡ true) × ((settle h st).active_seq ≡ h.our_insert)
unfolding settle
settle_takes h st p q e = ground arith

-- After `decide_disposition` a line is taken exactly when some delta owns it, which is then the
-- active one. Dispositions exclude one another, so the `ignored` branch of the code is never taken.
pub decide_disposition-Owns :
    (st : SeqState) (i : ℕ)
    → All IsExclusive st.states
    → (((decide_disposition st).inserting ≡ true) × ((decide_disposition st).active_seq ≡ i))
      ↔ ((0 < i) × Owns st.states i)
unfolding decide_disposition
decide_disposition-Owns st i x = (there, back)
  where
    there :
        ((decide_disposition st).inserting ≡ true) × ((decide_disposition st).active_seq ≡ i)
        → (0 < i) × Owns st.states i
    there (e, a) =
        let (above, kept, at) = settle_taken (found st.states) st e in
        let same : (found st.states).our_insert ≡ i = cc in
        (omega arith, subst (Owns st.states) same (found-Owns st.states above kept))

    back :
        (0 < i) × Owns st.states i
        → ((decide_disposition st).inserting ≡ true) × ((decide_disposition st).active_seq ≡ i)
    back (pos, o) =
        let (e, kept, above) = Owns-found st.states i pos o in
        let clear : (state_at st.states (found st.states).our_insert).ignored ≡ false = rw e (
          not-ignored (state_at st.states i)
            (state_at-All IsExclusive st.states i x (λ h. (refl, refl), λ h. refl)) o.inserted) in
        let (taken, at) = settle_takes (found st.states) st (omega arith) kept clear in
        (taken, at ∙ e)
