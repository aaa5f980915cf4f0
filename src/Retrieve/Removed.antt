-- ===== src/Retrieve/Removed.antt =====
-- A version whose later deltas are all excluded, and whose latest other delta is removed.
use mathlib.Core.Path.{subst}
use cssc.Common.{
  ℕ, zero, suc, ◌≤◌, ◌<◌, ◌≡◌, List, Bool, true, false, Bytes, none, some, ltb, arith, inl, inr,
  Bool-cases,
}
use cssc.Common.Runs.{value, quit}
use cssc.Sid.{Sid}
use cssc.DeltaTable.{Delta, DeltaList, delta_at_seq, delta_at_seq_exists, find}
use cssc.SeqState.{SeqState, create, is_excluded}
use cssc.Prepare.{prepare_seqstate}
use cssc.Body.Get.{Parms, Output}
use cssc.Retrieve.Version.{latest-eq}
use cssc.Retrieve.{null_delta, latest, get_version}

latest_below :
    (l : DeltaList) (st : SeqState) (s n : ℕ) (x : Delta)
    → 0 < s
    → s ≤ n
    → ((t : ℕ) → s < t → t ≤ n → is_excluded st t ≡ true)
    → is_excluded st s ≡ false
    → delta_at_seq_exists l s ≡ true
    → delta_at_seq l s ≡ some x
    → latest l st n ≡ some (find l x.id)
unfolding latest
latest_below l st s zero x p q above off e at = absurd (omega arith)
latest_below l st s (suc n) x p q above off e at = elim (Bool-cases (ltb s (suc n))) [
  | inl later ↦ rw (above (suc n) (ground arith) (omega arith)) (
      let rest =
        latest_below l st s n x p (ground arith) (λ t lo hi. above t lo (omega arith)) off e at in
      ground (arith, rest))
  | inr here ↦
      let same : s ≡ suc n = ground arith in
      subst (λ k. latest l st k ≡ some (find l x.id)) same (latest-eq l st s x p e off at)
]

-- If every delta from the requested one down to some delta is excluded, but that one is not and
-- cannot be found because it is removed, `get_version` follows a null pointer.
pub get_version_null :
    (fuel : ℕ) (output : Delta → Output) (include exclude : Sid → Bool) (newer : Delta → Bool)
    (l : DeltaList) (id : Sid) (body : List Bytes) (p : Parms) (st0 st : SeqState) (d x : Delta)
    (s : ℕ)
    → create fuel l.high_seqno ≡ some st0
    → find l id ≡ some d
    → prepare_seqstate fuel include exclude newer l d.seq st0 ≡ value st
    → 0 < s
    → s ≤ d.seq
    → ((t : ℕ) → s < t → t ≤ d.seq → is_excluded st t ≡ true)
    → is_excluded st s ≡ false
    → delta_at_seq_exists l s ≡ true
    → delta_at_seq l s ≡ some x
    → find l x.id ≡ none
    → get_version fuel output true include exclude newer l id body p ≡ quit null_delta
unfolding get_version
get_version_null fuel output include exclude newer l id body p st0 st d x s created found ran pos
      low above off e at lost =
    rw (created, found, ran, latest_below l st s d.seq x pos low above off e at, lost)
