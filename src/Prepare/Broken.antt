-- ===== src/Prepare/Broken.antt =====
-- Files whose ancestry is out of order.
use cssc.Common.{ℕ, zero, suc, ◌≤◌, ◌<◌, ◌≡◌, true, false, some, arith}
use cssc.Common.Runs.{value, quit}
use cssc.DeltaTable.{Delta, DeltaList, delta_at_seq, delta_at_seq_exists}
use cssc.SeqState.{SeqState, set_included}
use cssc.Prepare.{
  Fault, missing_sequence_number, own_predecessor, subsequent_predecessor, checked_delta,
  predecessor, descend, prepare_seqstate_1,
}

-- The first thing that is wrong on the way from a delta to the root.
pub data Broken (l : DeltaList) : ℕ → Fault → Type 0 where
  missing :
      {y : ℕ}
      → 0 < y
      → y ≤ l.high_seqno
      → delta_at_seq_exists l y ≡ false
      → Broken l y missing_sequence_number
  own :
      {y : ℕ} (d : Delta)
      → 0 < y
      → y ≤ l.high_seqno
      → delta_at_seq_exists l y ≡ true
      → delta_at_seq l y ≡ some d
      → d.prev_seq ≡ y
      → Broken l y own_predecessor
  subsequent :
      {y : ℕ} (d : Delta)
      → 0 < y
      → y ≤ l.high_seqno
      → delta_at_seq_exists l y ≡ true
      → delta_at_seq l y ≡ some d
      → y < d.prev_seq
      → Broken l y subsequent_predecessor
  further :
      {y : ℕ} {f : Fault} (d : Delta)
      → 0 < y
      → y ≤ l.high_seqno
      → delta_at_seq_exists l y ≡ true
      → delta_at_seq l y ≡ some d
      → d.prev_seq < y
      → Broken l d.prev_seq f
      → Broken l y f

Broken-pos : {l : DeltaList} {y : ℕ} {f : Fault} → Broken l y f → 0 < y
Broken-pos (missing p h e) = p
Broken-pos (own d p h e at q) = p
Broken-pos (subsequent d p h e at q) = p
Broken-pos (further d p h e at q b) = p

checked_found :
    (l : DeltaList) (y : ℕ) (d : Delta)
    → 0 < y
    → y ≤ l.high_seqno
    → delta_at_seq_exists l y ≡ true
    → delta_at_seq l y ≡ some d
    → checked_delta l y ≡ value d
unfolding checked_delta
checked_found l y d p h e at = rw (e, at) (ground arith)

descend-Broken :
    (fuel : ℕ) (l : DeltaList) (y : ℕ) (st : SeqState) {f : Fault}
    → Broken l y f
    → y ≤ fuel
    → descend fuel l y st ≡ quit f
unfolding descend predecessor
descend-Broken zero l y st b e = absurd (omega (arith, Broken-pos b))
descend-Broken (suc fuel) l y st (missing p h e) enough =
    unfold checked_delta in rw e (ground arith)
descend-Broken (suc fuel) l y st (own d p h e at q) enough =
    rw (checked_found l y d p h e at) (ground arith)
descend-Broken (suc fuel) l y st (subsequent d p h e at q) enough =
    rw (checked_found l y d p h e at) (ground arith)
descend-Broken (suc fuel) l y st (further d p h e at q b) enough =
    let rest =
      descend-Broken fuel l d.prev_seq (set_included st d.prev_seq false) b (omega arith) in
    let pos = Broken-pos b in rw (checked_found l y d p h e at) (ground (arith, rest))

-- In a file with a broken ancestry `prepare_seqstate_1` quits, for the first reason that it meets on
-- the way to the root.
pub prepare_seqstate_1-Broken :
    (fuel : ℕ) (l : DeltaList) (seq : ℕ) (st : SeqState) {f : Fault}
    → Broken l seq f
    → seq ≤ fuel
    → prepare_seqstate_1 fuel l seq st ≡ quit f
unfolding prepare_seqstate_1
prepare_seqstate_1-Broken fuel l seq st b enough = rw (descend-Broken fuel l seq st b enough)
