-- ===== src/SeqState/Blocks.antt =====
-- `start` and `end` against a view of the state that forgets its representation: which deltas are
-- included, and which blocks are open.
use mathlib.Core.Path.{subst}
use cssc.Common.{
  ℕ, suc, ◌≤◌, ◌<◌, ◌≡◌, sym, ◌↔◌, List, Bool, true, false, Option, none, some, arith,
  if◌then◌else◌, ◌==◌, length, All,
}
use cssc.SeqState.{OneState, SeqState, state_at, settle, decide_disposition, include_line}
use cssc.SeqState.Disposition.{inserts, hides, deletes, IsExclusive, Owns, decide_disposition-Owns}

pub data Kind : Type 0 where
  insert : Kind
  delete : Kind

abbrev pub letter : Kind → ℕ
letter insert = b'I'
letter delete = b'D'

abbrev pub open_block : OneState → Option Kind
open_block c = if c.active then some (if b'I' == c.command then insert else delete) else none

abbrev pub opens : List OneState → ℕ → Option Kind
opens xs n = open_block (state_at xs n)

abbrev pub includes : List OneState → ℕ → Bool
includes xs n = (state_at xs n).included

-- Delta `i` owns a line inside the open blocks `op`: it is the latest included delta that has an
-- open insertion, and neither a deletion by an included delta nor an insertion by another delta is
-- open from `i` on.
pub record Owner (inc : ℕ → Bool) (op : ℕ → Option Kind) (i : ℕ) : Type 0 where
  pub positive : 0 < i
  pub inserted : op i ≡ some insert
  pub included : inc i ≡ true
  pub latest : (j : ℕ) → op j ≡ some insert → inc j ≡ true → j ≤ i
  pub undeleted : (d : ℕ) → op d ≡ some delete → inc d ≡ true → d < i
  pub unhidden : (o : ℕ) → op o ≡ some insert → inc o ≡ false → o < i

inserts_iff :
    (c : OneState) → (inserts c ≡ true) ↔ ((open_block c ≡ some insert) × (c.included ≡ true))
inserts_iff c = ground arith

deletes_iff :
    (c : OneState) → (deletes c ≡ true) ↔ ((open_block c ≡ some delete) × (c.included ≡ true))
deletes_iff c = ground arith

hides_iff :
    (c : OneState) → (hides c ≡ true) ↔ ((open_block c ≡ some insert) × (c.included ≡ false))
hides_iff c = ground arith

module _ (xs : List OneState) (i : ℕ) where
  Owns-Owner : 0 < i → Owns xs i → Owner (includes xs) (opens xs) i
  Owns-Owner pos o = record {
    positive = pos;
    inserted = ((inserts_iff (state_at xs i)).0 o.inserted).0;
    included = ((inserts_iff (state_at xs i)).0 o.inserted).1;
    latest = λ j p q. o.latest j ((inserts_iff (state_at xs j)).1 (p, q));
    undeleted = λ j p q. o.undeleted j ((deletes_iff (state_at xs j)).1 (p, q));
    unhidden = λ j p q. o.unhidden j ((hides_iff (state_at xs j)).1 (p, q));
  }

  Owner-Owns : Owner (includes xs) (opens xs) i → Owns xs i
  Owner-Owns o = record {
    inserted = (inserts_iff (state_at xs i)).1 (o.inserted, o.included);
    latest = λ j h.
        o.latest j ((inserts_iff (state_at xs j)).0 h).0 ((inserts_iff (state_at xs j)).0 h).1;
    undeleted = λ j h.
        o.undeleted j ((deletes_iff (state_at xs j)).0 h).0 ((deletes_iff (state_at xs j)).0 h).1;
    unhidden =
        λ j h. o.unhidden j ((hides_iff (state_at xs j)).0 h).0 ((hides_iff (state_at xs j)).0 h).1;
  }

-- What holds of a `seq_state` between the calls of its methods while a body is read.
pub record IsSettled (st : SeqState) : Type 0 where
  pub sized : length st.states ≡ suc st.last
  pub exclusive : All IsExclusive st.states
  pub decided : decide_disposition st ≡ st

decide_disposition-twice :
    (st : SeqState) → decide_disposition (decide_disposition st) ≡ decide_disposition st
unfolding decide_disposition settle
decide_disposition-twice st = ground arith

pub decide_disposition-keeps :
    (st : SeqState)
    → ((decide_disposition st).states ≡ st.states) × ((decide_disposition st).last ≡ st.last)
unfolding decide_disposition settle
decide_disposition-keeps st = ground arith

-- A settled state takes the current line exactly when a delta owns it, and names that delta.
pub include_line-Owner :
    (st : SeqState) (i : ℕ)
    → IsSettled st
    → ((include_line st ≡ true) × (st.active_seq ≡ i))
      ↔ Owner (includes st.states) (opens st.states) i
unfolding include_line
include_line-Owner st i s =
    let eq : (((decide_disposition st).inserting ≡ true) × ((decide_disposition st).active_seq ≡ i))
        ↔ ((0 < i) × Owns st.states i) =
      decide_disposition-Owns st i s.exclusive in
    let (there, back) = rw s.decided at eq in
    (
      λ h. Owns-Owner st.states i (there h).0 (there h).1,
      λ o. back (o.positive, Owner-Owns st.states i o),
    )

pub decide_disposition-IsSettled :
    (st : SeqState)
    → length st.states ≡ suc st.last
    → All IsExclusive st.states
    → IsSettled (decide_disposition st)
decide_disposition-IsSettled st n x =
    let (same, l) = decide_disposition-keeps st in
    record {
      sized = rw (same, l) n;
      exclusive = subst (All IsExclusive) (sym same) x;
      decided = decide_disposition-twice st;
    }

abbrev pub update : (ℕ → Option Kind) → ℕ → Option Kind → ℕ → Option Kind
update op s v n = if s == n then v else op n
