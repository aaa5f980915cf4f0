-- ===== src/DeltaTable.antt =====
-- src/delta-table.h, src/delta-table.cc, src/dtbl-prepend.cc and the iterators of
-- src/delta-iterator.h: the deltas of an s-file in the order of the file, newest first, with an
-- index by sequence number. Of a delta all members but the date and the user are
-- modelled. A sequence number is an unsigned short.
pub mod Entry
pub mod Index
pub mod Find
use cssc.Common.{
  ℕ, zero, suc, ◌+◌, ◌%◌, ◌^◌, List, [], ◌∷◌, ◌++◌, Bool, true, false, ◌&&◌, ◌||◌, not, Bytes,
  Option, none, some, if◌then◌else◌, ltb, ◌==◌, length, get_elem?,
}
use cssc.Sid.{Sid, null_sid, is_null, on_trunk, is_gt, is_eq}

pub record Delta : Type 0 where
  pub delta_type : ℕ
  pub id : Sid
  pub seq : ℕ
  pub prev_seq : ℕ
  pub included : List ℕ
  pub excluded : List ℕ
  pub ignored : List ℕ
  pub have_includes : Bool
  pub have_excludes : Bool
  pub have_ignores : Bool
  pub mrs : List Bytes
  pub comments : List Bytes
  pub inserted : ℕ
  pub deleted : ℕ
  pub unchanged : ℕ

unfoldable pub removed : Delta → Bool
removed d = b'R' == d.delta_type

-- `seq_table_` maps a sequence number to a position; the latest entry of a number stands first.
pub record DeltaList : Type 0 where
  pub high_seqno : ℕ
  pub high_release : Sid
  pub items : List Delta
  pub seq_table : List (ℕ × ℕ)

abbrev pub empty_list : DeltaList
empty_list = record { high_seqno = 0; high_release = null_sid; items = []; seq_table = [] }

unfoldable pub position : ℕ → List (ℕ × ℕ) → Option ℕ
position k [] = none
position k ((j, v) ∷ m) = if j == k then some v else position k m

unfoldable pub update_highest : Delta → DeltaList → DeltaList
update_highest d l =
    let seen = record l { high_seqno = if ltb l.high_seqno d.seq then d.seq else l.high_seqno } in
    if not (removed d)
    then (if is_null l.high_release
        then (if on_trunk d.id then record seen { high_release = d.id } else seen)
        else if is_gt d.id l.high_release
        then record seen { high_release = d.id }
        else seen)
    else seen

unfoldable pub add : DeltaList → Delta → DeltaList
add l d =
    update_highest d
      (record l { items = l.items ++ d ∷ []; seq_table = (d.seq, length l.items) ∷ l.seq_table })

-- `operator +=`.
unfoldable pub add_all : DeltaList → List Delta → DeltaList
add_all l [] = l
add_all l (d ∷ ds) = add_all (add l d) ds

unfoldable pub prepend : DeltaList → Delta → DeltaList
prepend l d = add_all (add empty_list d) l.items

unfoldable pub delta_at_seq_exists : DeltaList → ℕ → Bool
delta_at_seq_exists l seq = elim (position seq l.seq_table) [ none ↦ false | some p ↦ true ]

-- `none` where the source asserts that the number has a delta.
unfoldable pub delta_at_seq : DeltaList → ℕ → Option Delta
delta_at_seq l seq = elim (position seq l.seq_table) [ none ↦ none | some p ↦ get_elem? l.items p ]

-- `++next` on an unsigned short.
pub next_seqno : DeltaList → ℕ
next_seqno l = (l.high_seqno + 1) % 2 ^ 16

pub data Selector : Type 0 where
  current : Selector
  all : Selector

-- The test of `delta_iterator::next`.
unfoldable pub selects : Selector → Delta → Bool
selects current d = not (removed d)
selects all d = true

-- The first delta with the SID among those that an iterator visits. It stands for the loop
-- `while (iter.next()) if (iter->id() == id) return`, whose iterator passes over the others.
unfoldable pub find_from : Selector → List Delta → Sid → Option Delta
unfolding selects
find_from sel [] id = none
find_from sel (d ∷ ds) id = if selects sel d && is_eq d.id id then some d else find_from sel ds id

unfoldable pub find : DeltaList → Sid → Option Delta
find l id = find_from current l.items id

-- Removed deltas are found as well.
pub find_any : DeltaList → Sid → Option Delta
find_any l id = find_from all l.items id
