-- ===== src/DeltaTable/Index.antt =====
-- The index and the highest number of a table of deltas.
use cssc.Common.{
  ℕ, ◌-◌, ◌^◌, ◌≤◌, ◌<◌, ◌≡◌, sym, ap, ◌∙◌, ◌≢◌, ◌⊎◌, inl, inr, List, ◌∷◌, true, false, none, some,
  arith, Option-cases, length, get_elem?,
}
use cssc.Common.Int.{pos, eqb_ℤ}
use cssc.Sid.{Sid, is_null, on_trunk, is_gt}
use cssc.DeltaTable.{
  removed, Delta, DeltaList, position, delta_at_seq, delta_at_seq_exists, next_seqno,
}

-- A highest SID of the trunk: it is one of a delta that is not removed, and no such delta of the trunk has a
-- higher one.
abbrev pub IsTop : List Delta → Sid → Type 0
IsTop ds top =
    (is_null top ≡ false)
    × (eqb_ℤ top.branch (pos 0) ≡ true)
    × ((p : ℕ) × (d : Delta) × (get_elem? ds p ≡ some d) × (removed d ≡ false) × (d.id ≡ top))
    × ((p : ℕ) (d : Delta)
        → get_elem? ds p ≡ some d
        → removed d ≡ false
        → on_trunk d.id ≡ true
        → is_gt d.id top ≡ false)

-- No delta of the trunk that is not removed.
abbrev pub IsTrunkless : List Delta → Type 0
IsTrunkless ds =
    (p : ℕ) (d : Delta) → get_elem? ds p ≡ some d → removed d ≡ false → on_trunk d.id ≡ false

-- Every entry of the index leads to a delta with its number, every delta's number has an entry, the
-- highest number is that of a delta, or 0, and none is above it, and the highest release is a highest SID of the
-- trunk, or null where there is none.
pub record IsTable (l : DeltaList) : Type 0 where
  pub indexed :
      (seq p : ℕ)
      → position seq l.seq_table ≡ some p
      → (d : Delta) × (get_elem? l.items p ≡ some d) × (d.seq ≡ seq)
  pub complete :
      (p : ℕ) (d : Delta)
      → get_elem? l.items p ≡ some d
      → (q : ℕ) × (position d.seq l.seq_table ≡ some q)
  pub bounded : (p : ℕ) (d : Delta) → get_elem? l.items p ≡ some d → d.seq ≤ l.high_seqno
  pub attained :
      (l.high_seqno ≡ 0)
      ⊎ ((p : ℕ) × (d : Delta) × (get_elem? l.items p ≡ some d) × (d.seq ≡ l.high_seqno))
  pub top : (is_null l.high_release ≡ true) × IsTrunkless l.items ⊎ IsTop l.items l.high_release

module _ (l : DeltaList) (d : Delta) where
  abbrev entries : List (ℕ × ℕ)
  entries = (d.seq, length l.items) ∷ l.seq_table

exists_none :
    (l : DeltaList) (seq : ℕ) → position seq l.seq_table ≡ none → delta_at_seq_exists l seq ≡ false
unfolding delta_at_seq_exists
exists_none l seq h = rw (h, delta_at_seq_exists)

exists_some :
    (l : DeltaList) (seq p : ℕ)
    → position seq l.seq_table ≡ some p
    → delta_at_seq_exists l seq ≡ true
unfolding delta_at_seq_exists
exists_some l seq p h = rw (h, delta_at_seq_exists)

lookup_some :
    (l : DeltaList) (seq p : ℕ)
    → position seq l.seq_table ≡ some p
    → delta_at_seq l seq ≡ get_elem? l.items p
unfolding delta_at_seq
lookup_some l seq p h = rw (h, delta_at_seq)

-- The lookup by number finds a delta with that number if the table has one, and otherwise there is
-- none: `delta_at_seq_exists` says which.
pub delta_at_seq_lem :
    (l : DeltaList) (seq : ℕ)
    → IsTable l
    → ((delta_at_seq_exists l seq ≡ true)
        × (p : ℕ) × (d : Delta) × (get_elem? l.items p ≡ some d)
        × (delta_at_seq l seq ≡ some d)
        × (d.seq ≡ seq))
      ⊎ ((delta_at_seq_exists l seq ≡ false)
          × ((p : ℕ) (d : Delta) → get_elem? l.items p ≡ some d → d.seq ≢ seq))
delta_at_seq_lem l seq t = elim (Option-cases (position seq l.seq_table)) [
  | inl absent ↦ inr (
    exists_none l seq absent,
    λ p d at e.
        let (q, found) = t.complete p d at in
        let found' : position seq l.seq_table ≡ some q =
          ap (λ n. position n l.seq_table) (sym e) ∙ found in
        cc,
  )
  | inr (p, here) ↦
      let (d, at, n) = t.indexed seq p here in
      inl (exists_some l seq p here, p, d, at, lookup_some l seq p here ∙ at, n)
]

-- The number of the next delta is above all numbers in use, as long as 65535 is not.
pub next_seqno-fresh :
    (l : DeltaList)
    → IsTable l
    → l.high_seqno < 2 ^ 16 - 1
    → (p : ℕ) (d : Delta) → get_elem? l.items p ≡ some d
    → d.seq < next_seqno l
unfolding next_seqno
next_seqno-fresh l t small p d h = omega (arith, t.bounded p d h)
